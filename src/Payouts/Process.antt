-- ===== src/Payouts/Process.antt =====
-- The worker and the sweep of PayoutsService (src/payouts/payouts.service.ts): `processPayout`,
-- `retryPayout` and `enqueueDuePayouts`.
use splitcore.Base.{
  ⊤, ℕ, ◌-◌, ◌+◌, ◌&&◌, ◌||◌, not, Bool, false, Option, none, some, List, [], ◌∷◌, String, ◌==◌,
  ltb, length, find_by, filter_by, any_by, take, opt_eq, is_some, if◌then◌else◌,
}
use splitcore.Action.{Action, Result, Error, ◌>>=◌, ◌>>◌, pure, throw, gets, lift, or_throw}
use splitcore.Schema.{
  LedgerAccountType, LedgerAccount, entertainer_payable, venue_payable, processor_clearing,
  account_eq, Reference, Payout, PayoutStatus, payout_eq, Store, po,
}
use splitcore.Ledger.{is_payable}
use splitcore.Books.{find_account}
use splitcore.Payouts.{
  PayoutProvider, TransferStatus, VerifiedStatus, TransferOutcome, TransferReason, RecipientParams,
  TransferParams, PayoutDestination, send, hold, review, is_open, resolve_destination,
  entertainer_ready, stale_processing_ms,
}
use splitcore.Payouts.Transfers.{
  account_of, update_payouts, mark_succeeded, mark_for_review, flag_for_operator, enqueue,
  handle_transfer_event,
}

-- What a verified earlier attempt tells the worker to do.
pub data Previous : Type 0 where
  paid waiting parked unpaid : Previous

abbrev pub previous_of : VerifiedStatus → Previous
previous_of VerifiedStatus.success = paid
previous_of VerifiedStatus.pending = waiting
previous_of VerifiedStatus.requires_action = parked
previous_of _ = unpaid

abbrev pub set_status : PayoutStatus → Payout → Payout
set_status status p = record p { status = status }

abbrev pub set_attempt : ℕ → ℕ → Reference → Payout → Payout
set_attempt now attempt reference p = record p {
  status = PayoutStatus.processing;
  attempts = attempt;
  transfer_reference = some reference;
  attempted_at = some now;
  failure_reason = none;
}

abbrev pub set_recipient : String → Payout → Payout
set_recipient code p = record p { recipient_code = some code }

abbrev pub clear_failure : Payout → Payout
clear_failure p = record p { status = PayoutStatus.retrying; failure_reason = none }

abbrev pub recipient_params : LedgerAccount → String → String → String → RecipientParams
recipient_params account name bank_code account_number = record {
  name = name;
  account_number = account_number;
  bank_code = bank_code;
  owner_id = account.owner_id;
  account_type = account.type;
}

abbrev pub transfer_params : Payout → Reference → TransferReason → String → TransferParams
transfer_params payout reference reason recipient = record {
  amount_kobo = payout.amount_kobo;
  recipient_code = recipient;
  reference = reference;
  reason = reason;
  payout_id = payout.id;
  transaction_id = payout.transaction_id;
}

module _ (provider : PayoutProvider) (add_job : ℕ → ℕ → Result ⊤) (now : ℕ) where
  abbrev pub hold_payout : Payout → Action Store ⊤
  hold_payout payout = if payout_eq payout.status PayoutStatus.queued then pure tt else do
    update_payouts now (λ p. p.id == payout.id && payout_eq p.status payout.status)
        (set_status PayoutStatus.queued)
    pure tt

  unfoldable pub after_transfer : ℕ → Reference → Option String → TransferStatus → Action Store ⊤
  after_transfer id reference reason TransferStatus.success = mark_succeeded now id reference
  after_transfer id reference reason TransferStatus.failed =
      handle_transfer_event now add_job reference TransferOutcome.failed reason
  after_transfer id reference reason TransferStatus.reversed =
      handle_transfer_event now add_job reference TransferOutcome.failed reason
  after_transfer id reference reason TransferStatus.requires_action = flag_for_operator now id
  after_transfer id reference reason TransferStatus.pending = pure tt

  unfoldable pub send_transfer : Payout → Reference → TransferReason → String → Action Store ⊤
  send_transfer payout reference reason recipient = do
    transfer ← lift (provider.initiate_transfer (transfer_params payout reference reason recipient))
    after_transfer payout.id reference transfer.failure_reason transfer.status

  -- the calls of the provider, for an attempt that this worker has claimed
  unfoldable pub transfer_claimed :
      Payout
      → LedgerAccount
      → Reference
      → String
      → String
      → String
      → TransferReason
      → Action Store ⊤
  transfer_claimed payout account reference name bank_code account_number reason = do
    recipient ←
        lift (provider.create_recipient (recipient_params account name bank_code account_number))
    update_payouts now (λ p. p.id == payout.id) (set_recipient recipient)
    send_transfer payout reference reason recipient

  -- the claim of an attempt: only one worker that read the same number of attempts gets it
  unfoldable pub claim_attempt : Payout → Reference → Action Store ℕ
  claim_attempt payout reference =
      update_payouts now
        (λ p. p.id == payout.id && is_open p.status && p.attempts == payout.attempts)
        (set_attempt now (payout.attempts + 1) reference)

  unfoldable pub send_payout : Payout → LedgerAccount → PayoutDestination → Action Store ⊤
  send_payout payout account (review reason) = mark_for_review now payout.id reason
  send_payout payout account hold = hold_payout payout
  send_payout payout account (send name bank_code account_number reason) = do
    count ← claim_attempt payout (po payout.id (payout.attempts + 1))
    if count == 0
        then pure tt
        else transfer_claimed payout account (po payout.id (payout.attempts + 1)) name bank_code
            account_number reason

  unfoldable pub start_transfer : Payout → LedgerAccount → Action Store ⊤
  start_transfer payout account = do
    destination ← gets (resolve_destination account.type account.owner_id)
    send_payout payout account destination

  unfoldable pub after_previous : Payout → LedgerAccount → Reference → Previous → Action Store ⊤
  after_previous payout account reference paid = mark_succeeded now payout.id reference
  after_previous payout account reference waiting = pure tt
  after_previous payout account reference parked = flag_for_operator now payout.id
  after_previous payout account reference unpaid = start_transfer payout account

  unfoldable pub check_previous : Payout → LedgerAccount → Option Reference → Action Store ⊤
  check_previous payout account none = start_transfer payout account
  check_previous payout account (some reference) = do
    previous ← lift (provider.verify_transfer reference)
    after_previous payout account reference (previous_of previous)

  unfoldable pub process_found : Option Payout → Action Store ⊤
  process_found none = pure tt
  process_found (some payout) = do
    account ← account_of payout
    if not (is_open payout.status)
        then pure tt
        else check_previous payout account payout.transfer_reference

  unfoldable pub process_payout : ℕ → Action Store ⊤
  process_payout id = do
    found ← gets (λ s. find_by (λ p. p.id == id) s.payouts)
    process_found found

  abbrev pub refuse_retry : Option Payout → Action Store Payout
  refuse_retry none = throw Error.not_found
  refuse_retry (some payout) = throw Error.conflict

  unfoldable pub retry_payout : ℕ → Action Store Payout
  retry_payout id = do
    count ←
        update_payouts now (λ p. p.id == id && payout_eq p.status PayoutStatus.failed) clear_failure
    exists ← gets (λ s. find_by (λ p. p.id == id) s.payouts)
    if count == 0 then refuse_retry exists else do
      enqueue now add_job id 0
      found ← gets (λ s. find_by (λ p. p.id == id) s.payouts)
      or_throw Error.external found

  abbrev pub owner_of : Store → Payout → LedgerAccountType × Option ℕ
  owner_of s p = elim (find_account p.ledger_account_id s.accounts) [
    | none ↦ (processor_clearing, none)
    | some a ↦ (a.type, a.owner_id)
  ]

  -- the `where` of the sweep
  abbrev pub is_candidate : Store → Payout → Bool
  is_candidate s p =
      is_payable (owner_of s p).0
      && (payout_eq p.status PayoutStatus.queued
          || payout_eq p.status PayoutStatus.retrying
          || (payout_eq p.status PayoutStatus.processing
              && ltb p.updated_at (now - stale_processing_ms)))

  abbrev pub candidates : Store → List Payout
  candidates s = take 500 (filter_by (is_candidate s) s.payouts)

  -- `ownerIdsFor(type).includes(id)`
  abbrev pub is_owner_for : Store → LedgerAccountType → ℕ → Bool
  is_owner_for s t id =
      any_by (λ p. account_eq (owner_of s p).0 t && opt_eq (owner_of s p).1 (some id))
        (candidates s)

  -- `payable.has(id)`
  abbrev pub is_payable_owner : Store → ℕ → Bool
  is_payable_owner s id =
      any_by (λ e. e.id == id && is_owner_for s entertainer_payable e.id && entertainer_ready e)
        s.entertainers
      || any_by
          (λ v. v.id == id && is_owner_for s venue_payable v.id && is_some v.account_confirmed_at)
          s.venues

  abbrev pub is_due : Store → Payout → Bool
  is_due s p = elim (owner_of s p).1 [ none ↦ false | some owner ↦ is_payable_owner s owner ]

  abbrev pub due_payouts : Store → List Payout
  due_payouts s = filter_by (is_due s) (candidates s)

  unfoldable pub enqueue_all : List Payout → Action Store ⊤
  enqueue_all [] = pure tt
  enqueue_all (p ∷ ps) = do enqueue now add_job p.id 0; enqueue_all ps

  unfoldable pub enqueue_due_payouts : Action Store ℕ
  enqueue_due_payouts = do due ← gets due_payouts; enqueue_all due; pure (length due)
