-- ===== src/Paystack/Verification.antt =====
-- PaystackKycProvider (src/kyc/providers/paystack-kyc.provider.ts).
use splitcore.Base.{
  ℕ, ◌&&◌, ◌||◌, not, Bool, true, false, Option, none, some, List, [], ◌∷◌, String, ◌==◌,
  if◌then◌else◌,
}
use splitcore.Result.{Result, ok, err, Error, ◌>>=◌}
use splitcore.Payouts.{present}
use splitcore.KycProvider.{
  Resolution, resolved, refused, IdentityOutcome, IdentityCheckResult, IdentityParams,
}
use splitcore.Banks.{ProviderBank}
use splitcore.Paystack.{is_ok}

-- a body: each field may be missing
pub record KycBody {ℓ} (D : Type ℓ) : Type ℓ where
  pub status : Option Bool
  pub message : Option String
  pub data_ : Option D

pub record BankRow : Type 0 where
  pub name : Option String
  pub code : Option String
  pub active : Option Bool
  pub supports_transfer : Option Bool

pub record AccountData : Type 0 where
  pub account_name : Option String

pub record MatchData : Type 0 where
  pub is_blacklisted : Option Bool
  pub first_name : Option Bool
  pub last_name : Option Bool

pub record KycResponse {ℓ} (D : Type ℓ) : Type ℓ where
  pub status : ℕ
  pub status_text : String
  -- none where the body is not JSON
  pub body : Option (KycBody D)

-- `b === true`, and `b !== false`
abbrev pub is_true : Option Bool → Bool
is_true (some true) = true
is_true _ = false

abbrev pub not_false : Option Bool → Bool
not_false (some false) = false
not_false _ = true

abbrev pub or_status_text : Option String → String → String
or_status_text none text = text
or_status_text (some message) text = message

module _ {ℓ} {D : Type ℓ} where
  abbrev pub says_ok : Option (KycBody D) → Bool
  says_ok none = false
  says_ok (some b) = is_true b.status

  -- `body?.message ?? response.statusText`
  abbrev pub message_of : Option (KycBody D) → String → String
  message_of none text = text
  message_of (some b) text = or_status_text b.message text

  abbrev pub data_in : Option (KycBody D) → Option D
  data_in none = none
  data_in (some b) = b.data_

abbrev pub provider_bank : Option String → Option String → BankRow → List ProviderBank
provider_bank (some name) (some code) b =
    record {
      name = name;
      code = code;
      active = not_false b.active;
      supports_transfer = not_false b.supports_transfer;
    }
    ∷ []
provider_bank _ _ b = []

abbrev pub provider_banks : List BankRow → List ProviderBank
provider_banks [] = []
provider_banks (b ∷ bs) = elim (provider_bank (present b.name) (present b.code) b) [
  | [] ↦ provider_banks bs
  | p ∷ _ ↦ p ∷ provider_banks bs
]

abbrev pub rows_or_throw : Option (List BankRow) → Result (List ProviderBank)
rows_or_throw none = err Error.external
rows_or_throw (some rows) = ok (provider_banks rows)

unfoldable pub list_banks : Result (KycResponse (List BankRow)) → Result (List ProviderBank)
list_banks fetched = do
  response ← fetched
  if not (is_ok response.status) || not (says_ok response.body)
      then err Error.external
      else rows_or_throw (data_in response.body)

abbrev pub name_in : Option AccountData → Option String
name_in none = none
name_in (some d) = present d.account_name

abbrev pub named_or_refused : String → Option String → Resolution
named_or_refused message none = refused message
named_or_refused message (some name) = resolved name

unfoldable pub resolve_account :
    (String → String → Result (KycResponse AccountData)) → String → String → Result Resolution
resolve_account fetch account_number bank_code = do
  response ← fetch account_number bank_code
  let message = message_of response.body response.status_text
  ok (
      if not (is_ok response.status) || not (says_ok response.body)
      then refused message
      else named_or_refused message (name_in (data_in response.body)))

-- the body of the request
pub record MatchRequest : Type 0 where
  pub bvn : String
  pub account_number : Option String
  pub bank_code : Option String
  pub first_name : String
  pub last_name : String

abbrev pub match_request : IdentityParams → MatchRequest
match_request params = record {
  bvn = params.document_number;
  account_number = params.account_number;
  bank_code = params.bank_code;
  first_name = params.first_name;
  last_name = params.last_name;
}

abbrev pub unavailable : String → IdentityCheckResult
unavailable reason = record { outcome = IdentityOutcome.unavailable; reason = some reason }

abbrev pub failed : String → IdentityCheckResult
failed reason = record { outcome = IdentityOutcome.failed; reason = some reason }

abbrev pub names_match : Option MatchData → Bool
names_match none = false
names_match (some d) = is_true d.first_name && is_true d.last_name

abbrev pub blacklisted : Option MatchData → Bool
blacklisted none = false
blacklisted (some d) = is_true d.is_blacklisted

unfoldable pub identity_verdict : KycResponse MatchData → IdentityCheckResult
identity_verdict response =
    if response.status == 404
    then unavailable
        "Identity verification is not enabled on the connected Paystack account. It requires the CAC-registered \"Registered Business\" tier with identity verification completed."
    else if not (is_ok response.status) || not (says_ok response.body)
    then failed (message_of response.body response.status_text)
    else if not (names_match (data_in response.body))
    then failed "The name on the identity document does not match the name provided."
    else if blacklisted (data_in response.body)
    then failed "The identity document is blacklisted."
    else record { outcome = IdentityOutcome.verified; reason = none }

-- the try block around `fetch`: what it throws is an answer too
abbrev pub verdict_or_unreachable : Result (KycResponse MatchData) → IdentityCheckResult
verdict_or_unreachable (err e) =
    unavailable "The identity verification provider could not be reached."
verdict_or_unreachable (ok response) = identity_verdict response

unfoldable pub verify_identity :
    (MatchRequest → Result (KycResponse MatchData)) → IdentityParams → Result IdentityCheckResult
verify_identity fetch params = ok (verdict_or_unreachable (fetch (match_request params)))
