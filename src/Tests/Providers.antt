-- ===== src/Tests/Providers.antt =====
-- Runs of the list of banks and of the clients of Paystack's API (src/banks, src/payments/providers,
-- src/kyc/providers).
use Prim.Native.Char.{Char}
use mathlib.Core.Path.{subst}
use splitcore.Int.{pos}
use splitcore.Result.{ok-injective}
use splitcore.Base.{
  ◌||◌, ℕ, ◌≡◌, ◌≢◌, ◌↔◌, ◌⊎◌, refl, inl, inr, true, false, none, some, List, [], ◌∷◌, arith,
  String,
}
use splitcore.Action.{Result, ok, err, Error}
use splitcore.Schema.{po, venue_payable, Payout, PayoutStatus, Store}
use splitcore.Names.{Text, chars}
use splitcore.KycProvider.{IdentityOutcome, IdentityCheckResult, IdentityParams, bvn}
use splitcore.Banks.{Bank}
use splitcore.Banks.{
  BankCache, ProviderBank, list, resolve_in, normalize_bank_name, strip_suffixes, suffix_length,
}
use splitcore.Banks.Listing.{Listed, list-Listed, resolve_in-All}
use splitcore.Paystack.{HttpResponse, Body, received}
use splitcore.Paystack.Charges.{verify_webhook_signature}
use splitcore.Paystack.Verification.{
  KycResponse, MatchData, MatchRequest, match_request, verify_identity,
}
use splitcore.Paystack.Identity.{IsMatch, verify_identity-verified}
use splitcore.Paystack.Transfers.{TransferApi, TransferData, paystack_payouts, is_text}
use splitcore.Paystack.Verdicts.{
  IsUnsettled, process_payout-unsettled, verify_webhook_signature_iff,
}
use splitcore.Payouts.Process.{process_payout}
use splitcore.System.{empty_store}

-- A provider that throws, and no cache.
list-Listed_example : Listed (list (λ bs. bs) (err Error.external) 5 none)
list-Listed_example = list-Listed (λ bs. bs) (err Error.external) 5 none tt

-- Upper case of the ASCII letters.
abbrev same_case : Char → Text
same_case c = c ∷ []

abbrev banks : List Bank
banks =
    record { name = "Access Bank"; code = "044" }
    ∷ record { name = "United Bank For Africa"; code = "033" }
    ∷ []

-- a code of three digits
abbrev IsListedCode : Bank → Type 0
IsListedCode b = (b.code ≡ "044") ⊎ (b.code ≡ "033")

found_by_code :
    resolve_in same_case banks (some "044") none
    ≡ ok (record { name = "Access Bank"; code = "044" })
unfolding resolve_in
found_by_code = refl

resolve_in-All_example :
    IsListedCode (record { name = "Access Bank"; code = "044" })
    × ((c : String) → some "044" ≡ some c → "044" ≡ c)
resolve_in-All_example =
    resolve_in-All IsListedCode same_case banks (inl refl, (inr refl, tt)) (some "044") none
      found_by_code

alias_run :
    resolve_in same_case banks none (some " UBA")
    ≡ ok (record { name = "United Bank For Africa"; code = "033" })
unfolding resolve_in splitcore.Banks.resolve_name normalize_bank_name strip_suffixes
    splitcore.Names.is_space suffix_length splitcore.Banks.resolve_alias
    splitcore.Payouts.resolve_bank_code
alias_run = refl

normalize_run :
    normalize_bank_name same_case (chars " GUARANTY TRUST  BANK, PLC.")
    ≡ chars "GUARANTY TRUST BANK"
unfolding normalize_bank_name strip_suffixes suffix_length splitcore.Names.is_space
normalize_run = refl

abbrev secret : String
secret = "sk"

abbrev signature : String
signature = "07"

verify_webhook_signature_iff_example :
    (verify_webhook_signature (λ key payload. payload) (λ hex. 7 ∷ []) secret (7 ∷ []) signature
      ≡ true)
    ↔ ((secret ≢ "") × (signature ≢ "") × (◌≡◌ {A = List ℕ} (7 ∷ []) (7 ∷ [])))
verify_webhook_signature_iff_example =
    verify_webhook_signature_iff (λ key payload. payload) (λ hex. 7 ∷ []) secret (7 ∷ []) signature

abbrev params : IdentityParams
params = record {
  document_type = bvn;
  document_number = "22222222222";
  first_name = "Ada";
  last_name = "Obi";
  account_number = none;
  bank_code = none;
}

abbrev matched : MatchRequest → Result (KycResponse MatchData)
matched request = ok (record {
  status = 200;
  status_text = "OK";
  body = some (record {
    status = some true;
    message = none;
    data_ = some (record { is_blacklisted = none; first_name = some true; last_name = some true });
  });
})

verify_identity-verified_example :
    (r : IdentityCheckResult) × (verify_identity matched params ≡ ok r)
    × ((r.outcome ≡ IdentityOutcome.verified) ↔ (
        (response : KycResponse MatchData) × (matched (match_request params) ≡ ok response)
        × IsMatch response))
verify_identity-verified_example = verify_identity-verified matched params

-- A payout that is under way, whose transfer waits for a one-time password.
abbrev sent : Payout
sent = record {
  id = 5;
  ledger_account_id = 3;
  transaction_id = 0;
  transfer_reference = some (po 5 1);
  recipient_code = some "RCP_1";
  amount_kobo = pos 2500;
  status = PayoutStatus.processing;
  attempts = 1;
  attempted_at = some 4;
  completed_at = none;
  failure_reason = none;
  updated_at = 4;
}

abbrev in_flight : Store
in_flight = record empty_store {
  accounts = record { id = 3; type = venue_payable; owner_id = some 10 } ∷ [];
  payouts = sent ∷ [];
}

abbrev otp_answer : HttpResponse (Body TransferData)
otp_answer = record {
  status = 200;
  json = ok (record {
    status = true;
    data_ = some (record { status = some "otp"; failure_reason = none });
  });
}

abbrev otp_api : TransferApi
otp_api = record {
  post_recipient = λ p. err Error.external;
  post_transfer = λ p. err Error.external;
  get_transfer = λ r. ok otp_answer;
}

abbrev ready_api : TransferApi
ready_api = record {
  post_recipient = λ p. ok (record {
    status = 201;
    json = ok (record { status = true; data_ = some (record { recipient_code = "RCP_2" }) });
  });
  post_transfer = λ p. ok (record {
    status = 200;
    json = ok (record {
      status = true;
      data_ = some (record { status = some "success"; failure_reason = none });
    });
  });
  get_transfer = λ r. ok otp_answer;
}

otp_open : IsUnsettled otp_answer
unfolding received
otp_open = (
  ground arith,
  λ txn h.
      subst (λ (t : TransferData). is_text "failed" t.status || is_text "reversed" t.status ≡ false)
        (ok-injective (record { status = some "otp"; failure_reason = none }) txn h) refl,
)

process_payout-unsettled_example :
    process_payout (paystack_payouts otp_api) (λ id delay. ok tt) 5 5 in_flight
    ≡ process_payout
        (paystack_payouts (record ready_api { get_transfer = otp_api.get_transfer }))
        (λ id delay. ok tt)
        5
        5
        in_flight
process_payout-unsettled_example =
    process_payout-unsettled otp_api ready_api (λ id delay. ok tt) 5 5 in_flight refl refl
      λ response h. subst IsUnsettled (ok-injective otp_answer response h) otp_open
