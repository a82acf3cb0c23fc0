-- ===== src/Schema/Enums.antt =====
-- The enums of prisma/schema.prisma. A number for each value serves to compare two of them.
use splitcore.Base.{ℕ, ◌≡◌, ◌↔◌, Bool, true, arith, ◌==◌}

pub data Role : Type 0 where
  platform_admin venue_admin entertainer : Role

pub data KycStatus : Type 0 where
  not_started pending verified failed review suspended : KycStatus

abbrev pub kyc_code : KycStatus → ℕ
kyc_code KycStatus.not_started = 0
kyc_code KycStatus.pending = 1
kyc_code KycStatus.verified = 2
kyc_code KycStatus.failed = 3
kyc_code KycStatus.review = 4
kyc_code KycStatus.suspended = 5

abbrev pub kyc_eq : KycStatus → KycStatus → Bool
kyc_eq a b = kyc_code a == kyc_code b

pub data PaymentStatus : Type 0 where
  created pending success failed abandoned reversed refunded : PaymentStatus

pub data LedgerAccountType : Type 0 where
  entertainer_payable venue_payable platform_revenue processor_clearing : LedgerAccountType

abbrev pub account_code : LedgerAccountType → ℕ
account_code entertainer_payable = 0
account_code venue_payable = 1
account_code platform_revenue = 2
account_code processor_clearing = 3

abbrev pub account_eq : LedgerAccountType → LedgerAccountType → Bool
account_eq a b = account_code a == account_code b

pub account_eq_iff : (a b : LedgerAccountType) → (account_eq a b ≡ true) ↔ (a ≡ b)
account_eq_iff a b = ground arith

pub data LedgerDirection : Type 0 where
  debit credit : LedgerDirection

abbrev pub is_debit : LedgerDirection → Bool
is_debit debit = true
is_debit credit = Bool.false

pub data SplitRuleStatus : Type 0 where
  pending_entertainer_approval active rejected superseded withdrawn : SplitRuleStatus

abbrev pub rule_code : SplitRuleStatus → ℕ
rule_code SplitRuleStatus.pending_entertainer_approval = 0
rule_code SplitRuleStatus.active = 1
rule_code SplitRuleStatus.rejected = 2
rule_code SplitRuleStatus.superseded = 3
rule_code SplitRuleStatus.withdrawn = 4

abbrev pub rule_eq : SplitRuleStatus → SplitRuleStatus → Bool
rule_eq a b = rule_code a == rule_code b

pub data SplitRuleOrigin : Type 0 where
  venue_proposal admin_override : SplitRuleOrigin

pub data PayoutStatus : Type 0 where
  queued processing success failed retrying cancelled : PayoutStatus

abbrev pub payout_code : PayoutStatus → ℕ
payout_code PayoutStatus.queued = 0
payout_code PayoutStatus.processing = 1
payout_code PayoutStatus.success = 2
payout_code PayoutStatus.failed = 3
payout_code PayoutStatus.retrying = 4
payout_code PayoutStatus.cancelled = 5

abbrev pub payout_eq : PayoutStatus → PayoutStatus → Bool
payout_eq a b = payout_code a == payout_code b
