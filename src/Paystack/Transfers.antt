-- ===== src/Paystack/Transfers.antt =====
-- PaystackPayoutProvider (src/payments/providers/paystack-payout.provider.ts).
use text.Mathlib.Text.{◌==◌ as str_eq}
use splitcore.Base.{Bool, false, Option, none, some, List, String, ◌==◌, find_by, if◌then◌else◌}
use splitcore.Int.{ℤ, pos}
use splitcore.Result.{Result, ok, ◌>>=◌}
use splitcore.Schema.{Reference}
use splitcore.Payouts.{
  RecipientParams, TransferParams, Transfer, TransferStatus, VerifiedStatus, PayoutProvider,
}
use splitcore.Paystack.{HttpResponse, Body, received}

pub record RecipientData : Type 0 where
  pub recipient_code : String

pub record TransferData : Type 0 where
  pub status : Option String
  pub failure_reason : Option String

pub record Balance : Type 0 where
  pub currency : String
  pub balance : Option ℤ

abbrev pub is_text : String → Option String → Bool
is_text t none = false
is_text t (some u) = str_eq u t

unfoldable pub map_transfer_status : Option String → TransferStatus
map_transfer_status status =
    if is_text "success" status
    then TransferStatus.success
    else if is_text "failed" status
    then TransferStatus.failed
    else if is_text "reversed" status
    then TransferStatus.reversed
    else if is_text "otp" status
    then TransferStatus.requires_action
    else if is_text "blocked" status
    then TransferStatus.requires_action
    else TransferStatus.pending

-- `txn.status === 'failed' ? txn.failure_reason : undefined`
abbrev pub reason_of : TransferData → Option String
reason_of txn = if is_text "failed" txn.status then txn.failure_reason else none

abbrev pub verified_status : TransferStatus → VerifiedStatus
verified_status TransferStatus.pending = VerifiedStatus.pending
verified_status TransferStatus.success = VerifiedStatus.success
verified_status TransferStatus.failed = VerifiedStatus.failed
verified_status TransferStatus.reversed = VerifiedStatus.reversed
verified_status TransferStatus.requires_action = VerifiedStatus.requires_action

unfoldable pub create_recipient :
    (RecipientParams → Result (HttpResponse (Body RecipientData))) → RecipientParams → Result String
create_recipient fetch params = do
  response ← fetch params
  recipient ← received response
  ok recipient.recipient_code

unfoldable pub initiate_transfer :
    (TransferParams → Result (HttpResponse (Body TransferData))) → TransferParams → Result Transfer
initiate_transfer fetch params = do
  response ← fetch params
  txn ← received response
  ok (record { status = map_transfer_status txn.status; failure_reason = reason_of txn })

-- after the answer, where 404 is told apart from every other failure
unfoldable pub verified_by : HttpResponse (Body TransferData) → Result VerifiedStatus
verified_by response =
    if response.status == 404
    then ok VerifiedStatus.not_found
    else do txn ← received response; ok (verified_status (map_transfer_status txn.status))

unfoldable pub verify_transfer :
    (Reference → Result (HttpResponse (Body TransferData))) → Reference → Result VerifiedStatus
verify_transfer fetch reference = do response ← fetch reference; verified_by response

-- `ngn?.balance ?? 0`
abbrev pub or_zero : Option ℤ → ℤ
or_zero none = pos 0
or_zero (some n) = n

abbrev pub balance_or_zero : Option Balance → ℤ
balance_or_zero none = pos 0
balance_or_zero (some b) = or_zero b.balance

unfoldable pub get_balance : Result (HttpResponse (Body (List Balance))) → Result ℤ
get_balance fetched = do
  response ← fetched
  balances ← received response
  ok (balance_or_zero (find_by (λ b. str_eq b.currency "NGN") balances))

-- The API of a transfer account: the requests that the client sends.
pub record TransferApi : Type 0 where
  pub post_recipient : RecipientParams → Result (HttpResponse (Body RecipientData))
  pub post_transfer : TransferParams → Result (HttpResponse (Body TransferData))
  pub get_transfer : Reference → Result (HttpResponse (Body TransferData))

abbrev pub paystack_payouts : TransferApi → PayoutProvider
paystack_payouts api = record {
  create_recipient = create_recipient api.post_recipient;
  initiate_transfer = initiate_transfer api.post_transfer;
  verify_transfer = verify_transfer api.get_transfer;
}
