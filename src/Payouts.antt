-- ===== src/Payouts.antt =====
-- PayoutsService and the bank names (src/payouts/payouts.service.ts, src/payouts/bank-codes.ts): the
-- transfers of what is owed. The provider, the queue and the clock are parameters.
pub mod Transfers
pub mod Process
pub mod Movement
pub mod Soundness
pub mod Events
pub mod Worker
pub mod Once
use text.Mathlib.Text.{◌==◌ as str_eq}
use splitcore.Base.{
  ⊤, ℕ, suc, ◌*◌, ◌-◌, ◌&&◌, ◌||◌, not, Bool, true, false, Option, none, some, List, [], ◌∷◌, ◌++◌,
  String, ◌==◌, ltb, leb, length, find_by, filter_by, update_by, count_by, any_by, is_some,
  if◌then◌else◌,
}
use splitcore.Int.{ℤ}
use splitcore.Action.{
  Action, Result, ok, err, Error, ◌>>=◌, ◌>>◌, pure, throw, gets, lift, or_throw, transaction,
  modify,
}
use splitcore.Schema.{
  KycStatus, kyc_eq, LedgerAccountType, LedgerAccount, entertainer_payable, venue_payable,
  account_eq, Reference, is_reference, Review, FailureReason, Payout, PayoutStatus, payout_eq,
  Entertainer, Venue, Job, Store,
}
use splitcore.Ledger.{
  LedgerEntrySpec, PayoutForPosting, is_payable, compute_payout_entries,
  compute_payout_reversal_entries,
}
use splitcore.Ledger.Repository.{post}
use splitcore.Books.{is_success}

pub data TransferStatus : Type 0 where
  pending success failed reversed requires_action : TransferStatus

pub data VerifiedStatus : Type 0 where
  pending success failed reversed requires_action not_found : VerifiedStatus

pub data TransferOutcome : Type 0 where
  success failed reversed : TransferOutcome

-- the text of a transfer, by the payee that it names
pub data TransferReason : Type 0 where
  tip_payout venue_payout : String → TransferReason

pub record RecipientParams : Type 0 where
  pub name : String
  pub account_number : String
  pub bank_code : String
  pub owner_id : Option ℕ
  pub account_type : LedgerAccountType

pub record TransferParams : Type 0 where
  pub amount_kobo : ℤ
  pub recipient_code : String
  pub reference : Reference
  pub reason : TransferReason
  pub payout_id : ℕ
  pub transaction_id : ℕ

pub record Transfer : Type 0 where
  pub status : TransferStatus
  pub failure_reason : Option String

-- The methods of the PayoutProvider that PayoutsService calls; each may throw.
pub record PayoutProvider : Type 0 where
  pub create_recipient : RecipientParams → Result String
  pub initiate_transfer : TransferParams → Result Transfer
  pub verify_transfer : Reference → Result VerifiedStatus

pub data PayoutDestination : Type 0 where
  send :
      (recipient_name bank_code account_number : String) (transfer_reason : TransferReason)
      → PayoutDestination
  hold : PayoutDestination
  review : Review → PayoutDestination

abbrev pub max_automatic_transfer_attempts : ℕ
max_automatic_transfer_attempts = 3

abbrev pub stale_processing_ms : ℕ
stale_processing_ms = 15 * 60 * 1000

-- `OPEN_STATUSES.includes(status)`
abbrev pub is_open : PayoutStatus → Bool
is_open PayoutStatus.queued = true
is_open PayoutStatus.retrying = true
is_open PayoutStatus.processing = true
is_open _ = false

abbrev pub paystack_bank_codes : List (String × String)
paystack_bank_codes =
    ("GTBank", "058")
    ∷ ("Access Bank", "044")
    ∷ ("First Bank", "011")
    ∷ ("UBA", "033")
    ∷ ("Zenith Bank", "057")
    ∷ ("Stanbic IBTC", "221")
    ∷ ("Sterling Bank", "232")
    ∷ ("Polaris Bank", "076")
    ∷ ("Wema Bank", "035")
    ∷ ("Union Bank", "032")
    ∷ ("Ecobank", "050")
    ∷ ("Fidelity Bank", "070")
    ∷ ("FCMB", "214")
    ∷ ("Kuda Bank", "090267")
    ∷ ("Opay", "999992")
    ∷ []

abbrev code_in : String → List (String × String) → Option String
code_in name [] = none
code_in name ((bank, code) ∷ codes) = if str_eq bank name then some code else code_in name codes

unfoldable pub resolve_bank_code : String → Option String
resolve_bank_code name = code_in name paystack_bank_codes

-- a text column that a test `!value` lets pass: not null, and not empty
abbrev pub present : Option String → Option String
present none = none
present (some t) = if str_eq t "" then none else some t

-- `stored ?? resolveBankCode(bankName)`, where the empty text counts as no code
abbrev pub bank_code_of : Option String → String → Option String
bank_code_of (some code) name = present (some code)
bank_code_of none name = resolve_bank_code name

-- the part of `resolveDestination` after the gate, the same for both kinds of owner
abbrev pub destination_at :
    LedgerAccountType
    → String
    → TransferReason
    → Option String
    → Option String
    → Option String
    → PayoutDestination
destination_at t name reason none code account = review (Review.missing_bank_details t)
destination_at t name reason (some bank) code none = review (Review.missing_bank_details t)
destination_at t name reason (some bank) code (some account) = elim (bank_code_of code bank) [
  | none ↦ review (Review.unknown_bank bank)
  | some code' ↦ send name code' account reason
]

abbrev pub entertainer_ready : Entertainer → Bool
entertainer_ready e = kyc_eq e.kyc_status KycStatus.verified && is_some e.account_confirmed_at

abbrev pub entertainer_destination : Option Entertainer → PayoutDestination
entertainer_destination none = review (Review.owner_not_found entertainer_payable)
entertainer_destination (some e) =
    if not (entertainer_ready e)
    then hold
    else destination_at entertainer_payable e.legal_name (tip_payout e.stage_name)
        (present e.bank_name) e.bank_code (present e.account_number)

abbrev pub or_name : Option String → String → String
or_name none name = name
or_name (some resolved) name = resolved

abbrev pub venue_destination : Option Venue → PayoutDestination
venue_destination none = review (Review.owner_not_found venue_payable)
venue_destination (some v) =
    if not (is_some v.account_confirmed_at)
    then hold
    else destination_at venue_payable (or_name v.resolved_account_name v.name) (venue_payout v.name)
        (present v.bank_name) v.bank_code (present v.account_number)

abbrev pub resolve_destination : LedgerAccountType → Option ℕ → Store → PayoutDestination
resolve_destination t none s = review (Review.no_owner t)
resolve_destination entertainer_payable (some owner) s =
    entertainer_destination (find_by (λ e. e.id == owner) s.entertainers)
resolve_destination venue_payable (some owner) s =
    venue_destination (find_by (λ v. v.id == owner) s.venues)
resolve_destination t (some owner) s = review (Review.unsupported_type t)
