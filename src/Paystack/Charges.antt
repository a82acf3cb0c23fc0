-- ===== src/Paystack/Charges.antt =====
-- PaystackProvider (src/payments/providers/paystack.provider.ts). The HMAC and the decoding of hex are
-- parameters.
use text.Mathlib.Text.{◌==◌ as str_eq}
use splitcore.Base.{
  ℕ, ◌&&◌, ◌||◌, Bool, true, false, Option, List, [], ◌∷◌, String, ◌==◌, length, if◌then◌else◌,
}
use splitcore.Int.{ℤ}
use splitcore.Result.{Result, ok, ◌>>=◌}
use splitcore.Schema.{Reference}
use splitcore.Settlement.{VerificationStatus, PaymentVerification}
use splitcore.Payments.{InitializeParams, PaymentInit}
use splitcore.Paystack.{HttpResponse, Body, received}
use splitcore.Paystack.Transfers.{is_text}

pub record ChargeData : Type 0 where
  pub status : Option String
  pub amount : ℤ
  pub currency : Option String

unfoldable pub initialize_charge :
    (InitializeParams → Result (HttpResponse (Body PaymentInit)))
    → InitializeParams
    → Result PaymentInit
initialize_charge fetch params = do response ← fetch params; received response

unfoldable pub map_charge_status : Option String → VerificationStatus
map_charge_status status =
    if is_text "success" status
    then VerificationStatus.success
    else if is_text "failed" status
    then VerificationStatus.failed
    else if is_text "abandoned" status
    then VerificationStatus.abandoned
    else VerificationStatus.pending

unfoldable pub verify_charge :
    (Reference → Result (HttpResponse (Body ChargeData))) → Reference → Result PaymentVerification
verify_charge fetch reference = do
  response ← fetch reference
  txn ← received response
  ok (record {
    status = map_charge_status txn.status;
    amount_kobo = txn.amount;
    currency = txn.currency;
  })

-- `timingSafeEqual`, on buffers of one length
abbrev pub same_bytes : List ℕ → List ℕ → Bool
same_bytes [] [] = true
same_bytes (a ∷ as') (b ∷ bs) = a == b && same_bytes as' bs
same_bytes _ _ = false

module _ (hmac_sha512 : String → List ℕ → List ℕ) (of_hex : String → List ℕ) where
  unfoldable pub verify_webhook_signature : String → List ℕ → String → Bool
  verify_webhook_signature secret_key payload signature =
      if str_eq secret_key "" || str_eq signature ""
      then false
      else length (of_hex signature) == length (hmac_sha512 secret_key payload)
        && same_bytes (hmac_sha512 secret_key payload) (of_hex signature)
