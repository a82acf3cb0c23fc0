-- ===== src/VenuePayoutAccount.antt =====
-- VenuePayoutAccountService (src/venue-payout-account/venue-payout-account.service.ts): where a
-- venue's share goes. The list of banks, the provider and the clock are parameters.
pub mod Soundness
use Prim.Native.Char.{Char}
use splitcore.Base.{
  ⊤, ℕ, ◌||◌, not, Bool, Option, none, some, String, ◌==◌, is_some, find_by, set_first,
  if◌then◌else◌,
}
use splitcore.Action.{
  Action, Result, ok, err, Error, ◌>>=◌, ◌>>◌, pure, throw, lift, or_throw, throw_if,
}
use splitcore.Schema.{Venue, Store}
use splitcore.Payouts.{present}
use splitcore.Names.{Text}
use splitcore.Kyc.{SubmitBankDetails, same_text, same_name, or_empty}
use splitcore.KycProvider.{Resolution, resolved, refused}
use splitcore.KycView.{missing, mask_account_number}
use splitcore.Banks.{Bank}

pub data PayoutAccountStep : Type 0 where
  bank_details_step resolve_account_step confirm_account_step done_step : PayoutAccountStep

pub record PayoutAccountView : Type 0 where
  pub venue_id : ℕ
  pub venue_name : String
  pub next_step : PayoutAccountStep
  pub bank_name : Option String
  pub bank_code : Option String
  pub account_number_masked : Option String
  pub resolved_account_name : Option String
  pub account_resolved_at : Option ℕ
  pub account_confirmed_at : Option ℕ
  pub payouts_enabled : Bool

unfoldable pub next_step_for : Venue → PayoutAccountStep
next_step_for v =
    if missing v.account_number || missing v.bank_code
    then bank_details_step
    else if missing v.resolved_account_name
    then resolve_account_step
    else if not (is_some v.account_confirmed_at)
    then confirm_account_step
    else done_step

unfoldable pub to_view : Venue → PayoutAccountView
to_view v = record {
  venue_id = v.id;
  venue_name = v.name;
  next_step = next_step_for v;
  bank_name = v.bank_name;
  bank_code = v.bank_code;
  account_number_masked = mask_account_number v.account_number;
  resolved_account_name = v.resolved_account_name;
  account_resolved_at = v.account_resolved_at;
  account_confirmed_at = v.account_confirmed_at;
  payouts_enabled = is_some v.account_confirmed_at;
}

abbrev pub has_id : ℕ → Venue → Bool
has_id id v = v.id == id

unfoldable pub find_venue : ℕ → Action Store Venue
find_venue id s = (or_throw Error.not_found (find_by (has_id id) s.venues) s)

-- `update({ where: { id } })`, which returns the row that it leaves
abbrev pub update_found : ℕ → (Venue → Venue) → Option Venue → Action Store Venue
update_found id f none s = (err Error.external, s)
update_found id f (some v) s = (ok (f v), record s { venues = set_first (has_id id) f s.venues })

unfoldable pub update_venue : ℕ → (Venue → Venue) → Action Store Venue
update_venue id f s = update_found id f (find_by (has_id id) s.venues) s

abbrev pub save : ℕ → (Venue → Venue) → Action Store PayoutAccountView
save id f = do updated ← update_venue id f; pure (to_view updated)

unfoldable pub get_status : ℕ → Action Store PayoutAccountView
get_status id = do v ← find_venue id; pure (to_view v)

abbrev pub destination_changed : String → Bank → Venue → Bool
destination_changed account bank v =
    not (same_text v.account_number account) || not (same_text v.bank_code bank.code)

abbrev pub with_bank_details : String → Bank → Venue → Venue
with_bank_details account bank v = record v {
  bank_name = some bank.name;
  bank_code = some bank.code;
  account_number = some account;
}

abbrev pub reset_account : Venue → Venue
reset_account v = record v {
  resolved_account_name = none;
  account_resolved_at = none;
  account_confirmed_at = none;
}

abbrev pub bank_details_data : Bool → String → Bank → Venue → Venue
bank_details_data changed account bank v =
    if changed
    then reset_account (with_bank_details account bank v)
    else with_bank_details account bank v

unfoldable pub submit_bank_details :
    (SubmitBankDetails → Result Bank) → ℕ → SubmitBankDetails → Action Store PayoutAccountView
submit_bank_details resolve_bank id input = do
  find_venue id
  bank ← lift (resolve_bank input)
  v ← find_venue id
  save id (
      bank_details_data (destination_changed input.account_number bank v) input.account_number bank)

abbrev pub with_resolved : ℕ → String → Venue → Venue
with_resolved now name v = record v {
  resolved_account_name = some name;
  account_resolved_at = some now;
  account_confirmed_at = none;
}

-- the try block and its catch
unfoldable pub after_resolve : ℕ → ℕ → Result Resolution → Action Store PayoutAccountView
after_resolve now id (ok (resolved name)) = save id (with_resolved now name)
after_resolve now id (ok (refused message)) = throw Error.bad_request
after_resolve now id (err e) = throw e

-- after the guard `!accountNumber || !bankCode`
abbrev pub resolve_with :
    (String → String → Result Resolution)
    → ℕ
    → ℕ
    → Option String
    → Option String
    → Action Store PayoutAccountView
resolve_with provider now id (some account) (some code) =
    after_resolve now id (provider account code)
resolve_with provider now id _ _ = throw Error.bad_request

unfoldable pub resolve_account :
    (String → String → Result Resolution) → ℕ → ℕ → Action Store PayoutAccountView
resolve_account provider now id = do
  v ← find_venue id
  resolve_with provider now id (present v.account_number) (present v.bank_code)

abbrev pub with_confirmed : ℕ → Venue → Venue
with_confirmed now v = record v { account_confirmed_at = some now }

unfoldable pub confirm_account : (Char → Text) → ℕ → ℕ → String → Action Store PayoutAccountView
confirm_account upper now id confirmed_name = do
  v ← find_venue id
  throw_if (missing v.resolved_account_name) Error.bad_request
  throw_if (not (same_name upper confirmed_name (or_empty v.resolved_account_name)))
      Error.bad_request
  save id (with_confirmed now)

-- What lies outside of the service, for one call.
pub record AccountWorld : Type 0 where
  pub resolve_bank : SubmitBankDetails → Result Bank
  pub resolve : String → String → Result Resolution
  pub upper : Char → Text
  pub now : ℕ

-- the calls of the service that write
pub data AccountCall : Type 0 where
  submit : SubmitBankDetails → AccountCall
  ask_bank : AccountCall
  confirm : (name : String) → AccountCall

unfoldable pub run_call : AccountWorld → ℕ → AccountCall → Action Store PayoutAccountView
run_call w id (submit input) = submit_bank_details w.resolve_bank id input
run_call w id ask_bank = resolve_account w.resolve w.now id
run_call w id (confirm name) = confirm_account w.upper w.now id name
