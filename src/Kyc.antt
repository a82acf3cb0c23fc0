-- ===== src/Kyc.antt =====
-- KycService (src/kyc/kyc.service.ts): the onboarding of an entertainer, from bank details to a
-- verified identity. The list of banks, the provider and the clock are parameters.
pub mod Machine
pub mod Soundness
pub mod Onboarding
use Prim.Native.String.{◌++◌ as append}
use text.Mathlib.Text.{◌==◌ as str_eq}
use Prim.Native.Char.{Char}
use splitcore.Base.{
  ⊤, ℕ, ◌&&◌, ◌||◌, not, Bool, true, false, Option, none, some, List, [], ◌∷◌, String, ◌==◌,
  is_some, find_by, set_first, if◌then◌else◌,
}
use splitcore.Action.{
  Action, Result, ok, err, Error, ◌>>=◌, ◌>>◌, pure, throw, gets, lift, or_throw, throw_if,
}
use splitcore.Schema.{KycStatus, kyc_eq, Entertainer, Store}
use splitcore.Payouts.{present}
use splitcore.Banks.{Bank}
use splitcore.KycProvider.{
  Resolution, resolved, refused, DocumentType, bvn, nin, IdentityOutcome, IdentityCheckResult,
  IdentityParams,
}
use splitcore.KycView.{KycStatusView, missing, is_verified, to_view}
use splitcore.Names.{Text, chars, string_of, normalize_name, split_legal_name, mask}

pub record SubmitBankDetails : Type 0 where
  pub bank_name : Option String
  pub bank_code : Option String
  pub account_number : String

abbrev pub document_name : DocumentType → String
document_name bvn = "BVN"
document_name nin = "NIN"

pub data Decision : Type 0 where
  approve reject : Decision

abbrev pub is_approve : Decision → Bool
is_approve approve = true
is_approve reject = false

abbrev pub has_id : ℕ → Entertainer → Bool
has_id id e = e.id == id

unfoldable pub find_entertainer : ℕ → Action Store Entertainer
find_entertainer id s = (or_throw Error.not_found (find_by (has_id id) s.entertainers) s)

-- `update({ where: { id } })`, which returns the row that it leaves
abbrev pub update_found :
    ℕ → (Entertainer → Entertainer) → Option Entertainer → Action Store Entertainer
update_found id f none s = (err Error.external, s)
update_found id f (some e) s =
    (ok (f e), record s { entertainers = set_first (has_id id) f s.entertainers })

unfoldable pub update_entertainer : ℕ → (Entertainer → Entertainer) → Action Store Entertainer
update_entertainer id f s = update_found id f (find_by (has_id id) s.entertainers) s

abbrev pub save : ℕ → (Entertainer → Entertainer) → Action Store KycStatusView
save id f = do updated ← update_entertainer id f; pure (to_view updated)

abbrev pub is_suspended : Entertainer → Bool
is_suspended e = kyc_eq e.kyc_status KycStatus.suspended

abbrev pub assert_not_suspended : Entertainer → Action Store ⊤
assert_not_suspended e = throw_if (is_suspended e) Error.conflict

-- `stored === text` for a nullable text
abbrev pub same_text : Option String → String → Bool
same_text none text = false
same_text (some stored) text = str_eq stored text

unfoldable pub get_status : ℕ → Action Store KycStatusView
get_status id = do e ← find_entertainer id; pure (to_view e)

abbrev pub destination_changed : String → Bank → Entertainer → Bool
destination_changed account bank e =
    not (same_text e.account_number account) || not (same_text e.bank_code bank.code)

-- the data of the update, with the columns that a new destination resets
abbrev pub with_bank_details : ℕ → String → Bank → Entertainer → Entertainer
with_bank_details now account bank e = record e {
  bank_name = some bank.name;
  bank_code = some bank.code;
  account_number = some account;
  kyc_status = KycStatus.pending;
  kyc_submitted_at = some now;
}

abbrev pub reset_account : Entertainer → Entertainer
reset_account e = record e {
  resolved_account_name = none;
  account_resolved_at = none;
  account_confirmed_at = none;
  kyc_verified_at = none;
  identity_check_type = none;
  identity_checked_at = none;
  kyc_failure_reason = none;
}

abbrev pub bank_details_data : Bool → ℕ → String → Bank → Entertainer → Entertainer
bank_details_data changed now account bank e =
    if changed
    then reset_account (with_bank_details now account bank e)
    else with_bank_details now account bank e

unfoldable pub submit_bank_details :
    (SubmitBankDetails → Result Bank) → ℕ → ℕ → SubmitBankDetails → Action Store KycStatusView
submit_bank_details resolve_bank now id input = do
  e ← find_entertainer id
  assert_not_suspended e
  bank ← lift (resolve_bank input)
  save id (
      bank_details_data (destination_changed input.account_number bank e) now input.account_number
        bank)

abbrev pub with_resolved : ℕ → String → Entertainer → Entertainer
with_resolved now name e = record e {
  resolved_account_name = some name;
  account_resolved_at = some now;
  account_confirmed_at = none;
  kyc_status = KycStatus.pending;
  kyc_failure_reason = none;
}

abbrev pub with_refused : String → Entertainer → Entertainer
with_refused message e = record e {
  kyc_status = KycStatus.failed;
  kyc_failure_reason = some message;
}

-- the try block and its catch
unfoldable pub after_resolve : ℕ → ℕ → Result Resolution → Action Store KycStatusView
after_resolve now id (ok (resolved name)) = save id (with_resolved now name)
after_resolve now id (ok (refused message)) = do
  save id (with_refused message)
  throw Error.bad_request
after_resolve now id (err e) = throw e

-- after the guard `!accountNumber || !bankCode`
abbrev pub resolve_with :
    (String → String → Result Resolution)
    → ℕ
    → ℕ
    → Option String
    → Option String
    → Action Store KycStatusView
resolve_with provider now id (some account) (some code) =
    after_resolve now id (provider account code)
resolve_with provider now id _ _ = throw Error.bad_request

unfoldable pub resolve_account :
    (String → String → Result Resolution) → ℕ → ℕ → Action Store KycStatusView
resolve_account provider now id = do
  e ← find_entertainer id
  assert_not_suspended e
  resolve_with provider now id (present e.account_number) (present e.bank_code)

abbrev pub with_confirmed : ℕ → Entertainer → Entertainer
with_confirmed now e = record e {
  account_confirmed_at = some now;
  kyc_status = KycStatus.pending;
  kyc_failure_reason = none;
}

abbrev pub or_empty : Option String → String
or_empty none = ""
or_empty (some t) = t

abbrev pub same_name : (Char → Text) → String → String → Bool
same_name upper a b =
    str_eq (string_of (normalize_name upper (chars a))) (string_of (normalize_name upper (chars b)))

unfoldable pub confirm_account : (Char → Text) → ℕ → ℕ → String → Action Store KycStatusView
confirm_account upper now id confirmed_name = do
  e ← find_entertainer id
  assert_not_suspended e
  throw_if (missing e.resolved_account_name) Error.bad_request
  throw_if (not (same_name upper confirmed_name (or_empty e.resolved_account_name)))
      Error.bad_request
  save id (with_confirmed now)

abbrev pub or_text : Option String → String → String
or_text none text = text
or_text (some t) text = t

-- the data of the update after an identity check
abbrev pub with_checked :
    ℕ → DocumentType → IdentityOutcome → Option String → Entertainer → Entertainer
with_checked now document IdentityOutcome.verified reason e = record e {
  kyc_status = KycStatus.verified;
  kyc_verified_at = some now;
  identity_check_type = some (document_name document);
  identity_checked_at = some now;
  kyc_failure_reason = none;
}
with_checked now document IdentityOutcome.failed reason e = record e {
  kyc_status = KycStatus.failed;
  identity_check_type = some (document_name document);
  identity_checked_at = some now;
  kyc_failure_reason = some (or_text reason "Identity verification failed.");
}
with_checked now document IdentityOutcome.unavailable reason e = record e {
  kyc_status = KycStatus.review;
  identity_check_type = some (document_name document);
  identity_checked_at = none;
  kyc_failure_reason = some (or_text reason "Identity verification could not be completed.");
}

abbrev pub identity_params : DocumentType → String → Entertainer → IdentityParams
identity_params document number e =
    let names = split_legal_name (chars e.legal_name) in
    record {
      document_type = document;
      document_number = number;
      first_name = string_of names.first_name;
      last_name = string_of names.last_name;
      account_number = e.account_number;
      bank_code = e.bank_code;
    }

unfoldable pub verify_identity :
    (IdentityParams → Result IdentityCheckResult)
    → ℕ
    → ℕ
    → DocumentType
    → String
    → Action Store KycStatusView
verify_identity provider now id document number = do
  e ← find_entertainer id
  assert_not_suspended e
  throw_if (not (is_some e.account_confirmed_at)) Error.bad_request
  throw_if (is_verified e) Error.conflict
  result ← lift (provider (identity_params document number e))
  save id (with_checked now document result.outcome result.reason)

abbrev pub with_decision : ℕ → Decision → String → Entertainer → Entertainer
with_decision now approve reason e = record e {
  kyc_status = KycStatus.verified;
  kyc_verified_at = some now;
  kyc_failure_reason = some (append "Manually approved: " reason);
}
with_decision now reject reason e = record e {
  kyc_status = KycStatus.failed;
  kyc_failure_reason = some (append "Manually rejected: " reason);
}

unfoldable pub decide_review : ℕ → ℕ → Decision → String → Action Store KycStatusView
decide_review now id decision reason = do
  e ← find_entertainer id
  throw_if (not (kyc_eq e.kyc_status KycStatus.review)) Error.conflict
  throw_if (is_approve decision && not (is_some e.account_confirmed_at)) Error.bad_request
  save id (with_decision now decision reason)

-- What lies outside of the service, for one call.
pub record KycWorld : Type 0 where
  pub resolve_bank : SubmitBankDetails → Result Bank
  pub resolve : String → String → Result Resolution
  pub verify : IdentityParams → Result IdentityCheckResult
  pub upper : Char → Text
  pub now : ℕ

-- the calls of the service that write
pub data KycCall : Type 0 where
  submit : SubmitBankDetails → KycCall
  ask_bank : KycCall
  confirm : (name : String) → KycCall
  check_identity : (document : DocumentType) (number : String) → KycCall
  decide : (decision : Decision) (reason : String) → KycCall

unfoldable pub run_call : KycWorld → ℕ → KycCall → Action Store KycStatusView
run_call w id (submit input) = submit_bank_details w.resolve_bank w.now id input
run_call w id ask_bank = resolve_account w.resolve w.now id
run_call w id (confirm name) = confirm_account w.upper w.now id name
run_call w id (check_identity document number) = verify_identity w.verify w.now id document number
run_call w id (decide decision reason) = decide_review w.now id decision reason
