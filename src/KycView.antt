-- ===== src/KycView.antt =====
-- The onboarding as an entertainer sees it (src/kyc/kyc.service.ts): the next step, the masked
-- account number and the status view.
use splitcore.Base.{ℕ, ◌&&◌, ◌||◌, not, Bool, Option, none, some, String, is_some, if◌then◌else◌}
use splitcore.Schema.{KycStatus, kyc_eq, Entertainer}
use splitcore.Payouts.{present}
use splitcore.Names.{chars, string_of, mask}

pub data KycStep : Type 0 where
  bank_details_step resolve_account_step confirm_account_step verify_identity_step done_step :
      KycStep

pub record KycStatusView : Type 0 where
  pub entertainer_id : ℕ
  pub status : KycStatus
  pub next_step : KycStep
  pub bank_name : Option String
  pub bank_code : Option String
  pub account_number_masked : Option String
  pub resolved_account_name : Option String
  pub account_confirmed_at : Option ℕ
  pub identity_check_type : Option String
  pub identity_checked_at : Option ℕ
  pub failure_reason : Option String
  pub payouts_enabled : Bool

-- `!value` of a nullable text
abbrev pub missing : Option String → Bool
missing value = not (is_some (present value))

abbrev pub is_verified : Entertainer → Bool
is_verified e = kyc_eq e.kyc_status KycStatus.verified

unfoldable pub next_step_for : Entertainer → KycStep
next_step_for e =
    if missing e.account_number || missing e.bank_code
    then bank_details_step
    else if missing e.resolved_account_name
    then resolve_account_step
    else if not (is_some e.account_confirmed_at)
    then confirm_account_step
    else if is_verified e
    then done_step
    else verify_identity_step

abbrev pub mask_text : Option String → Option String
mask_text none = none
mask_text (some number) = some (string_of (mask (chars number)))

unfoldable pub mask_account_number : Option String → Option String
mask_account_number number = mask_text (present number)

unfoldable pub to_view : Entertainer → KycStatusView
to_view e = record {
  entertainer_id = e.id;
  status = e.kyc_status;
  next_step = next_step_for e;
  bank_name = e.bank_name;
  bank_code = e.bank_code;
  account_number_masked = mask_account_number e.account_number;
  resolved_account_name = e.resolved_account_name;
  account_confirmed_at = e.account_confirmed_at;
  identity_check_type = e.identity_check_type;
  identity_checked_at = e.identity_checked_at;
  failure_reason = e.kyc_failure_reason;
  payouts_enabled = is_verified e && is_some e.account_confirmed_at;
}
