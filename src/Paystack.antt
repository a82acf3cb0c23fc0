-- ===== src/Paystack.antt =====
-- The clients of Paystack's API (src/payments/providers, src/kyc/providers): what a response is, as far
-- as they read it. `fetch` is a parameter of each of them: it may throw, and so may the decoding of a
-- body.
pub mod Transfers
pub mod Charges
pub mod Verification
pub mod Verdicts
pub mod Identity
use splitcore.Base.{ℕ, ◌&&◌, not, Bool, true, false, Option, none, some, leb, if◌then◌else◌}
use splitcore.Action.{Result, ok, err, Error}

pub record HttpResponse {ℓ} (B : Type ℓ) : Type ℓ where
  pub status : ℕ
  pub json : Result B

-- `response.ok`
abbrev pub is_ok : ℕ → Bool
is_ok status = leb 200 status && leb status 299

-- `status` and `data` of a body, where both count only if they are truthy
pub record Body {ℓ} (D : Type ℓ) : Type ℓ where
  pub status : Bool
  pub data_ : Option D

module _ {ℓ} {D : Type ℓ} where
  abbrev pub data_of : Bool → Option D → Result D
  data_of true (some d) = ok d
  data_of _ _ = err Error.external

  abbrev pub body_data : Result (Body D) → Result D
  body_data (err e) = err e
  body_data (ok body) = data_of body.status body.data_

  -- the guards `!response.ok` and `!data.status || !data.data`, each of which throws
  unfoldable pub received : HttpResponse (Body D) → Result D
  received response =
      if not (is_ok response.status) then err Error.external else body_data response.json
