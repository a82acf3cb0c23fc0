-- ===== src/Payouts/Transfers.antt =====
-- What a transfer's outcome does to its payout (src/payouts/payouts.service.ts): `markSucceeded`,
-- `markForReview`, `flagForOperator`, `enqueue` and `handleTransferEvent`.
use splitcore.Base.{
  ⊤, ℕ, ◌&&◌, not, Bool, true, false, Option, none, some, List, [], ◌∷◌, ◌++◌, String, ◌==◌, leb,
  find_by, update_by, count_by, if◌then◌else◌,
}
use splitcore.Action.{
  Action, Result, ok, err, Error, ◌>>=◌, ◌>>◌, pure, gets, lift, or_throw, transaction,
}
use splitcore.Schema.{
  LedgerAccount, Reference, is_reference, Review, FailureReason, Payout, PayoutStatus, Job, Store,
}
use splitcore.Ledger.{
  LedgerEntrySpec, PayoutForPosting, compute_payout_entries, compute_payout_reversal_entries,
}
use splitcore.Ledger.Repository.{post}
use splitcore.Books.{is_success, find_account}
use splitcore.Payouts.{TransferOutcome, max_automatic_transfer_attempts}

abbrev pub posting_of : LedgerAccount → Payout → PayoutForPosting
posting_of account payout = record {
  account_type = account.type;
  owner_id = account.owner_id;
  amount_kobo = payout.amount_kobo;
}

-- `include: { ledgerAccount: true }`: a foreign key, so the row is there
unfoldable pub account_of : Payout → Action Store LedgerAccount
account_of payout s = or_throw Error.external (find_account payout.ledger_account_id s.accounts) s

-- `reason ?? ...`
abbrev pub reason_or : FailureReason → Option String → FailureReason
reason_or default none = default
reason_or default (some reason) = FailureReason.given reason

abbrev pub transfer_text : TransferOutcome → FailureReason
transfer_text TransferOutcome.reversed = FailureReason.transfer_reversed
transfer_text _ = FailureReason.transfer_failed

abbrev pub is_reversed : TransferOutcome → Bool
is_reversed TransferOutcome.reversed = true
is_reversed _ = false

-- `transferReference, status: { not: 'SUCCESS' }`
abbrev pub unpaid_with : Reference → Payout → Bool
unpaid_with reference p = is_reference reference p.transfer_reference && not (is_success p.status)

-- `status: 'SUCCESS', transferReference`
abbrev pub paid_with : Reference → Payout → Bool
paid_with reference p = is_success p.status && is_reference reference p.transfer_reference

module _ (now : ℕ) where
  -- `updateMany` on payouts, which also stamps `updatedAt`
  abbrev pub update_payouts : (Payout → Bool) → (Payout → Payout) → Action Store ℕ
  update_payouts p f s = (
    ok (count_by p s.payouts),
    record s { payouts = update_by p (λ x. record (f x) { updated_at = now }) s.payouts },
  )

  abbrev pub set_succeeded : Payout → Payout
  set_succeeded p = record p {
    status = PayoutStatus.success;
    completed_at = some now;
    failure_reason = none;
  }

  -- the body of the transaction of `markSucceeded`
  unfoldable pub claim_success : ℕ → Reference → ℕ → List LedgerEntrySpec → Action Store ⊤
  claim_success id reference tx entries = do
    count ← update_payouts (λ p. p.id == id && unpaid_with reference p) set_succeeded
    if count == 0 then pure tt else post tx entries

  unfoldable pub mark_succeeded : ℕ → Reference → Action Store ⊤
  mark_succeeded id reference = do
    found ← gets (λ s. find_by (λ p. p.id == id) s.payouts)
    payout ← or_throw Error.external found
    account ← account_of payout
    entries ← lift (compute_payout_entries (posting_of account payout))
    transaction (claim_success id reference payout.transaction_id entries)

  abbrev pub set_review : Review → Payout → Payout
  set_review reason p = record p {
    status = PayoutStatus.failed;
    failure_reason = some (FailureReason.manual_review reason);
  }

  unfoldable pub mark_for_review : ℕ → Review → Action Store ⊤
  mark_for_review id reason = do
    update_payouts (λ p. p.id == id && not (is_success p.status)) (set_review reason)
    pure tt

  abbrev pub set_flag : Payout → Payout
  set_flag p = record p { failure_reason = some FailureReason.action_required }

  unfoldable pub flag_for_operator : ℕ → Action Store ⊤
  flag_for_operator id = do update_payouts (λ p. p.id == id) set_flag; pure tt

  abbrev pub set_reversed : Option String → Payout → Payout
  set_reversed reason p = record p {
    status = PayoutStatus.retrying;
    completed_at = none;
    failure_reason = some (reason_or FailureReason.transfer_reversed reason);
  }

  -- the body of the transaction of a reversal; the result says whether this call won the claim
  unfoldable pub claim_reversal :
      ℕ → Reference → Option String → ℕ → List LedgerEntrySpec → Action Store Bool
  claim_reversal id reference reason tx entries = do
    count ← update_payouts (λ p. p.id == id && paid_with reference p) (set_reversed reason)
    if count == 0 then pure false else do post tx entries; pure true

  abbrev pub set_retrying : TransferOutcome → Option String → Payout → Payout
  set_retrying outcome reason p = record p {
    status = PayoutStatus.retrying;
    failure_reason = some (reason_or (transfer_text outcome) reason);
  }

  module _ (add_job : ℕ → ℕ → Result ⊤) where
    abbrev pub added_job : ℕ → ℕ → Result ⊤ → Action Store ⊤
    added_job id delay (ok _) s =
        (ok tt, record s { jobs = s.jobs ++ Job.process_payout id delay ∷ [] })
    added_job id delay (err e) s = (err e, s)

    abbrev pub enqueue : ℕ → ℕ → Action Store ⊤
    enqueue id delay = added_job id delay (add_job id delay)

    -- after the payout went back to RETRYING: a person, or another attempt
    unfoldable pub retry_or_review : TransferOutcome → Option String → Payout → Action Store ⊤
    retry_or_review outcome reason payout =
        if leb max_automatic_transfer_attempts payout.attempts
        then mark_for_review payout.id
            (Review.exhausted (is_reversed outcome) payout.attempts reason)
        else enqueue payout.id 60000

    unfoldable pub reverse_payout :
        Reference → TransferOutcome → Option String → Payout → Action Store ⊤
    reverse_payout reference outcome reason payout = do
      account ← account_of payout
      entries ← lift (compute_payout_reversal_entries (posting_of account payout))
      reversed ←
          transaction (claim_reversal payout.id reference reason payout.transaction_id entries)
      if reversed then retry_or_review outcome reason payout else pure tt

    unfoldable pub fail_attempt :
        Reference → TransferOutcome → Option String → Payout → Action Store ⊤
    fail_attempt reference outcome reason payout = do
      update_payouts (λ p. p.id == payout.id && unpaid_with reference p)
          (set_retrying outcome reason)
      retry_or_review outcome reason payout

    unfoldable pub transfer_event :
        Reference → TransferOutcome → Option String → Option Payout → Action Store ⊤
    transfer_event reference outcome reason none = pure tt
    transfer_event reference TransferOutcome.success reason (some payout) =
        mark_succeeded payout.id reference
    transfer_event reference outcome reason (some payout) =
        if is_reversed outcome && is_success payout.status
        then reverse_payout reference outcome reason payout
        else (if not (is_success payout.status)
            then fail_attempt reference outcome reason payout
            else pure tt)

    unfoldable pub handle_transfer_event :
        Reference → TransferOutcome → Option String → Action Store ⊤
    handle_transfer_event reference outcome reason = do
      found ← gets (λ s. find_by (λ p. is_reference reference p.transfer_reference) s.payouts)
      transfer_event reference outcome reason found
