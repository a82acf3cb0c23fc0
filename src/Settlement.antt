-- ===== src/Settlement.antt =====
-- PaymentSettlementService (src/payments/payment-settlement.service.ts), which moves a payment to
-- SUCCESS. The provider's answer and the queue's are parameters; the parts that run
-- in one database transaction stand in `transaction`.
pub mod Obligations
pub mod Lines
pub mod Soundness
pub mod Handlers
pub mod Once
use text.Mathlib.Text.{◌==◌ as str_eq}
use splitcore.Base.{
  ⊤, ℕ, suc, ◌≡◌, ◌&&◌, ◌||◌, not, Bool, true, false, Option, none, some, List, [], ◌∷◌, ◌++◌,
  String, ◌==◌, find_by, update_by, count_by, if◌then◌else◌,
}
use splitcore.Int.{ℤ, eq_ℤ}
use splitcore.Action.{
  Action, Result, ok, err, Error, Mismatch, ◌>>=◌, ◌>>◌, pure, throw, gets, lift, or_throw,
  transaction, modify, throw_if,
}
use splitcore.Schema.{
  PaymentStatus, LedgerAccountType, is_debit, Reference, reference_eq, PaymentTransaction,
  SplitRule, Payout, PayoutStatus, Job, Store,
}
use splitcore.Ledger.{
  LedgerEntrySpec, PaymentForPosting, SplitForPosting, is_payable, compute_payment_entries,
}
use splitcore.Ledger.Repository.{resolve_account_id, post}

pub data VerificationStatus : Type 0 where
  success failed abandoned pending : VerificationStatus

pub record PaymentVerification : Type 0 where
  pub status : VerificationStatus
  pub amount_kobo : ℤ
  pub currency : Option String

-- `SETTLEABLE.includes(status)`
abbrev pub settleable : PaymentStatus → Bool
settleable PaymentStatus.created = true
settleable PaymentStatus.pending = true
settleable PaymentStatus.failed = true
settleable PaymentStatus.abandoned = true
settleable _ = false

abbrev pub unconfirmed : PaymentStatus → Bool
unconfirmed PaymentStatus.created = true
unconfirmed PaymentStatus.pending = true
unconfirmed _ = false

abbrev pub only_created : PaymentStatus → Bool
only_created PaymentStatus.created = true
only_created _ = false

-- `updateMany` on payments, with the number of rows that it changed
abbrev pub update_payments :
    (PaymentTransaction → Bool) → (PaymentTransaction → PaymentTransaction) → Action Store ℕ
update_payments p f s =
    (ok (count_by p s.payments), record s { payments = update_by p f s.payments })

abbrev pub set_status : PaymentStatus → PaymentTransaction → PaymentTransaction
set_status to p = record p { status = to }

unfoldable pub transition : ℕ → (PaymentStatus → Bool) → PaymentStatus → Action Store ⊤
transition id from to = do
  update_payments (λ p. p.id == id && from p.status) (set_status to)
  pure tt

unfoldable pub reload : ℕ → Action Store PaymentTransaction
reload id = do
  found ← gets (λ s. find_by (λ p. p.id == id) s.payments)
  or_throw Error.external found

abbrev pub for_posting : PaymentTransaction → PaymentForPosting
for_posting p = record {
  gross_amount_kobo = p.gross_amount_kobo;
  venue_id = p.venue_id;
  entertainer_id = p.entertainer_id;
}

abbrev pub split_of : SplitRule → SplitForPosting
split_of r = record {
  entertainer_bps = r.entertainer_bps;
  venue_bps = r.venue_bps;
  platform_bps = r.platform_bps;
}

-- a credit of a payable account: it becomes a payout
abbrev pub is_payable_line : LedgerEntrySpec → Bool
is_payable_line e = not (is_debit e.direction) && is_payable e.account_type

-- `verification.currency && verification.currency !== SETTLEMENT_CURRENCY`
abbrev pub wrong_currency : Option String → Bool
wrong_currency none = false
wrong_currency (some c) = not (str_eq c "") && not (str_eq c "NGN")

abbrev pub new_payout : ℕ → ℕ → ℕ → ℕ → ℤ → Payout
new_payout now id account tx amount = record {
  id = id;
  ledger_account_id = account;
  transaction_id = tx;
  transfer_reference = none;
  recipient_code = none;
  amount_kobo = amount;
  status = PayoutStatus.queued;
  attempts = 0;
  attempted_at = none;
  completed_at = none;
  failure_reason = none;
  updated_at = now;
}

module _ (now : ℕ) where
  abbrev pub insert_payout : ℕ → ℕ → ℤ → Action Store ℕ
  insert_payout account tx amount s = (
    ok s.next_id,
    record s {
      payouts = new_payout now s.next_id account tx amount ∷ s.payouts;
      next_id = suc s.next_id;
    },
  )

  -- one round of the loop over the entries; `continue` where no payout is due
  unfoldable pub create_payout : ℕ → LedgerEntrySpec → Action Store (List ℕ)
  create_payout tx e = if not (is_payable_line e) then pure [] else do
    account ← resolve_account_id e.account_type e.owner_id
    id ← insert_payout account tx e.amount_kobo
    pure (id ∷ [])

  unfoldable pub create_payouts : ℕ → List LedgerEntrySpec → Action Store (List ℕ)
  create_payouts tx [] = pure []
  create_payouts tx (e ∷ es) = do
    id ← create_payout tx e
    ids ← create_payouts tx es
    pure (id ++ ids)

  pub post_and_create : ℕ → List LedgerEntrySpec → Action Store (Option (List ℕ))
  post_and_create id entries = do post id entries; ids ← create_payouts id entries; pure (some ids)

  -- the body of the transaction: the claim, the posting and the payouts
  unfoldable pub claim_and_post : ℕ → List LedgerEntrySpec → Action Store (Option (List ℕ))
  unfolding post_and_create
  claim_and_post id entries = do
    count ←
        update_payments (λ p. p.id == id && settleable p.status) (set_status PaymentStatus.success)
    if count == 0 then pure none else post_and_create id entries

-- `enqueuePayouts`: a refusal of the queue is logged, and the sweep tries again
module _ (add_job : ℕ → Result ⊤) where
  abbrev pub added : ℕ → Result ⊤ → Store → Store
  added id (ok _) s = record s { jobs = s.jobs ++ Job.process_payout id 0 ∷ [] }
  added id (err _) s = s

  unfoldable pub enqueue_payouts : List ℕ → Action Store ⊤
  enqueue_payouts [] = pure tt
  enqueue_payouts (id ∷ ids) = do modify (added id (add_job id)); enqueue_payouts ids

module _ (verify_payment : Reference → Result PaymentVerification) (add_job : ℕ → Result ⊤)
    (now : ℕ) where
  after_commit : ℕ → Option (List ℕ) → Action Store PaymentTransaction
  after_commit id none = reload id
  after_commit id (some ids) = do enqueue_payouts add_job ids; reload id

  settle_success : PaymentTransaction → PaymentVerification → Action Store PaymentTransaction
  settle_success payment verification = do
    throw_if (not (eq_ℤ verification.amount_kobo payment.gross_amount_kobo))
        (Error.settlement_integrity Mismatch.amount)
    throw_if (wrong_currency verification.currency) (Error.settlement_integrity Mismatch.currency)
    rule_id ← or_throw (Error.settlement_integrity Mismatch.no_split_rule) payment.split_rule_id
    found ← gets (λ s. find_by (λ r. r.id == rule_id) s.split_rules)
    rule ← or_throw Error.external found
    entries ← lift (compute_payment_entries (for_posting payment) (split_of rule))
    ids ← transaction (claim_and_post now payment.id entries)
    after_commit payment.id ids

  settle_verified :
      PaymentTransaction
      → PaymentVerification
      → VerificationStatus
      → Action Store PaymentTransaction
  settle_verified payment verification VerificationStatus.success =
      settle_success payment verification
  settle_verified payment verification VerificationStatus.failed = do
    transition payment.id unconfirmed PaymentStatus.failed
    reload payment.id
  settle_verified payment verification _ = do
    transition payment.id only_created PaymentStatus.pending
    reload payment.id

  settle_found : Reference → Option PaymentTransaction → Action Store (Option PaymentTransaction)
  settle_found reference none = pure none
  settle_found reference (some payment) =
      if not (settleable payment.status) then pure (some payment) else do
        verification ← lift (verify_payment reference)
        settled ← settle_verified payment verification verification.status
        pure (some settled)

  unfoldable pub settle : Reference → Action Store (Option PaymentTransaction)
  unfolding settle_found settle_verified settle_success after_commit
  settle reference = do
    found ← gets (λ s. find_by (λ p. reference_eq reference p.external_reference) s.payments)
    settle_found reference found
