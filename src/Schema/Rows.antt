-- ===== src/Schema/Rows.antt =====
-- The tables of prisma/schema.prisma. An identifier (a uuid) is a number that is only compared; a
-- time is a number of milliseconds. Columns that no service of the model reads are left out.
use splitcore.Base.{ℕ, ◌&&◌, Bool, false, Option, none, some, List, String, ◌==◌, opt_eq}
use splitcore.Int.{ℤ}
use splitcore.Schema.Enums.{
  Role, KycStatus, PaymentStatus, LedgerAccountType, LedgerDirection, SplitRuleStatus,
  SplitRuleOrigin, PayoutStatus, account_eq,
}

-- The references that the code makes from templates, by what they are made from: `pay_<nanoid>`
-- and `po_<payout id>_<attempt>`; `other` is any text of another form.
pub data Reference : Type 0 where
  pay other : ℕ → Reference
  po : ℕ → ℕ → Reference

abbrev pub reference_eq : Reference → Reference → Bool
reference_eq (pay a) (pay b) = a == b
reference_eq (other a) (other b) = a == b
reference_eq (po a i) (po b j) = a == b && i == j
reference_eq _ _ = false

-- `where: { transferReference }` against a nullable column
abbrev pub is_reference : Reference → Option Reference → Bool
is_reference r none = false
is_reference r (some s) = reference_eq r s

pub record PaymentTransaction : Type 0 where
  pub id : ℕ
  pub external_reference : Reference
  pub venue_id : ℕ
  pub entertainer_id : Option ℕ
  pub guest_session_id : ℕ
  pub gross_amount_kobo : ℤ
  pub guest_display_name : Option String
  pub display_name_enabled : Bool
  pub split_rule_id : Option ℕ
  pub status : PaymentStatus

pub record SplitRule : Type 0 where
  pub id : ℕ
  pub venue_id : ℕ
  pub entertainer_bps : ℤ
  pub venue_bps : ℤ
  pub platform_bps : ℤ
  pub effective_from : Option ℕ
  pub effective_to : Option ℕ
  pub status : SplitRuleStatus
  pub origin : SplitRuleOrigin
  pub entertainer_id : Option ℕ
  pub proposed_by_user_id : Option ℕ
  pub proposed_at : ℕ
  pub responded_at : Option ℕ
  pub response_token_hash : Option ℕ

-- The audit events, each with the detail that is stored with it.
pub data AuditEvent : Type 0 where
  proposed : (entertainer_bps venue_bps platform_bps : ℤ) (entertainer_id withdrew : ℕ) → AuditEvent
  admin_override : (reason : String) (entertainer_bps venue_bps platform_bps : ℤ) → AuditEvent
  accepted rejected : AuditEvent
  superseded : (superseded_by : Option ℕ) → AuditEvent

pub data Actor : Type 0 where
  venue_admin_actor platform_admin_actor entertainer_actor system : Actor

pub record SplitRuleAuditEvent : Type 0 where
  pub split_rule_id : ℕ
  pub event : AuditEvent
  pub actor_type : Actor
  pub actor_id : Option ℕ

pub record LedgerAccount : Type 0 where
  pub id : ℕ
  pub type : LedgerAccountType
  pub owner_id : Option ℕ

-- `where: { type, ownerId }`
abbrev pub has_key : LedgerAccountType → Option ℕ → LedgerAccount → Bool
has_key t o a = account_eq t a.type && opt_eq o a.owner_id

pub record LedgerEntry : Type 0 where
  pub transaction_id : ℕ
  pub account_id : ℕ
  pub direction : LedgerDirection
  pub amount_kobo : ℤ

-- Why a payout is not paid: the texts of payouts.service.ts, by their parts.
pub data Review : Type 0 where
  no_owner unsupported_type owner_not_found missing_bank_details : LedgerAccountType → Review
  unknown_bank : String → Review
  exhausted : (reversed : Bool) (attempts : ℕ) (reason : Option String) → Review

pub data FailureReason : Type 0 where
  given : String → FailureReason
  transfer_reversed transfer_failed action_required : FailureReason
  manual_review : Review → FailureReason

pub record Payout : Type 0 where
  pub id : ℕ
  pub ledger_account_id : ℕ
  pub transaction_id : ℕ
  pub transfer_reference : Option Reference
  pub recipient_code : Option String
  pub amount_kobo : ℤ
  pub status : PayoutStatus
  pub attempts : ℕ
  pub attempted_at : Option ℕ
  pub completed_at : Option ℕ
  pub failure_reason : Option FailureReason
  pub updated_at : ℕ

pub record User : Type 0 where
  pub id : ℕ
  pub email : String
  pub password_hash : String
  pub role : Role
  pub venue_id : Option ℕ
  pub is_active : Bool

pub record Venue : Type 0 where
  pub id : ℕ
  pub name : String
  pub slug : String
  pub logo_url : Option String
  pub location : String
  pub is_active : Bool
  pub bank_name : Option String
  pub bank_code : Option String
  pub account_number : Option String
  pub resolved_account_name : Option String
  pub account_resolved_at : Option ℕ
  pub account_confirmed_at : Option ℕ

pub record Entertainer : Type 0 where
  pub id : ℕ
  pub stage_name : String
  pub legal_name : String
  pub phone : String
  pub is_active : Bool
  pub kyc_status : KycStatus
  pub bank_name : Option String
  pub bank_code : Option String
  pub account_number : Option String
  pub resolved_account_name : Option String
  pub account_resolved_at : Option ℕ
  pub account_confirmed_at : Option ℕ
  pub kyc_submitted_at : Option ℕ
  pub kyc_verified_at : Option ℕ
  pub kyc_failure_reason : Option String
  pub identity_check_type : Option String
  pub identity_checked_at : Option ℕ

pub record EntertainerLoginToken : Type 0 where
  pub id : ℕ
  pub entertainer_id : ℕ
  pub token_hash : ℕ
  pub expires_at : ℕ
  pub consumed_at : Option ℕ
  pub created_at : ℕ

pub record VenueEntertainer : Type 0 where
  pub id : ℕ
  pub venue_id : ℕ
  pub entertainer_id : ℕ

pub record PlatformSettings : Type 0 where
  pub platform_fee_bps : ℤ
  pub updated_by_user_id : Option ℕ

pub record QrCode : Type 0 where
  pub id : ℕ
  pub public_token : ℕ
  pub venue_id : ℕ
  pub entertainer_id : Option ℕ
  pub location : String
  pub is_active : Bool
  pub deactivated_at : Option ℕ

pub record GuestSession : Type 0 where
  pub id : ℕ
  pub qr_code_id : ℕ
  pub expires_at : ℕ

pub data ProcessingStatus : Type 0 where
  pending processing completed failed : ProcessingStatus

pub record WebhookEvent : Type 0 where
  pub id : ℕ
  pub event_type : String
  pub external_event_id : String × String
  pub reference : Option Reference
  pub processing_status : ProcessingStatus
  pub processed_at : Option ℕ

-- A call of a queue's `add` that was accepted.
pub data Job : Type 0 where
  process_payout : (payout_id delay : ℕ) → Job
  process_webhook : (webhook_event_id : ℕ) → Job

-- The database, with the number that the next uuid stands for, and the jobs in the queues.
pub record Store : Type 0 where
  pub payments : List PaymentTransaction
  pub split_rules : List SplitRule
  pub audit_events : List SplitRuleAuditEvent
  pub accounts : List LedgerAccount
  pub entries : List LedgerEntry
  pub payouts : List Payout
  pub users : List User
  pub login_tokens : List EntertainerLoginToken
  pub venues : List Venue
  pub entertainers : List Entertainer
  pub links : List VenueEntertainer
  pub settings : Option PlatformSettings
  pub qr_codes : List QrCode
  pub guest_sessions : List GuestSession
  pub webhook_events : List WebhookEvent
  pub next_id : ℕ
  pub jobs : List Job
