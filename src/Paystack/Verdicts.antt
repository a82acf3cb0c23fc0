-- ===== src/Paystack/Verdicts.antt =====
-- What the answers of Paystack (src/payments/providers, src/kyc/providers) are taken to mean.
use text.Mathlib.Text.{◌==◌ as str_eq}
use text.Mathlib.TextEquality.{eq_iff}
use splitcore.Base.{
  ⊤, ℕ, ◌≡◌, ◌≢◌, ◌↔◌, refl, sym, ap, ◌∙◌, inl, inr, ◌&&◌, ◌||◌, Bool, true, false, some, List, [],
  ◌∷◌, String, ◌==◌, ==_iff, ==_refl, length, find_by, Bool-cases,
}
use splitcore.Result.{Result, Result-cases, ok, ok-injective}
use splitcore.Schema.{Reference, Payout, Store}
use splitcore.Payouts.{VerifiedStatus, TransferStatus}
use splitcore.Payouts.Process.{unpaid, previous_of, process_payout}
use splitcore.Payouts.Once.{process_payout_settled}
use splitcore.Paystack.{HttpResponse, Body, received}
use splitcore.Paystack.Transfers.{
  TransferData, TransferApi, paystack_payouts, create_recipient, initiate_transfer, is_text,
  map_transfer_status, verified_status, verified_by, verify_transfer,
}
use splitcore.Paystack.Charges.{same_bytes, verify_webhook_signature}

not_found_status : (t : TransferStatus) → verified_status t ≢ VerifiedStatus.not_found
not_found_status TransferStatus.pending h = cc (h)
not_found_status TransferStatus.success h = cc (h)
not_found_status TransferStatus.failed h = cc (h)
not_found_status TransferStatus.reversed h = cc (h)
not_found_status TransferStatus.requires_action h = cc (h)

verified_by-not_found :
    (response : HttpResponse (Body TransferData))
    → verified_by response ≡ ok VerifiedStatus.not_found
    → response.status ≡ 404
unfolding verified_by
verified_by-not_found response h = elim (Bool-cases (response.status == 404)) [
  | inl a ↦ (==_iff response.status 404).0 a
  | inr a ↦ elim (Result-cases (received response)) [
    | inr (e, b) ↦ absurd (cc (rw (a, b) at h))
    | inl (txn, b) ↦ absurd (
        not_found_status (map_transfer_status txn.status)
          (ok-injective _ VerifiedStatus.not_found (rw (a, b) at h)))
  ]
]

verified_by_missing :
    (response : HttpResponse (Body TransferData))
    → response.status ≡ 404
    → verified_by response ≡ ok VerifiedStatus.not_found
unfolding verified_by
verified_by_missing response b = rw b refl

-- A transfer is reported as never created exactly when the API has answered with the status 404: not
-- when a call fails, and not for any other answer.
pub verify_transfer-not_found :
    (fetch : Reference → Result (HttpResponse (Body TransferData))) (reference : Reference)
    → (verify_transfer fetch reference ≡ ok VerifiedStatus.not_found) ↔ (
        (response : HttpResponse (Body TransferData)) × (fetch reference ≡ ok response)
        × (response.status ≡ 404))
unfolding verify_transfer
verify_transfer-not_found fetch reference = (forth, back)
  where
    forth :
        verify_transfer fetch reference ≡ ok VerifiedStatus.not_found
        → (response : HttpResponse (Body TransferData)) × (fetch reference ≡ ok response)
          × (response.status ≡ 404)
    forth h = elim (Result-cases (fetch reference)) [
      | inr (e, a) ↦ absurd (cc (rw a at h))
      | inl (response, a) ↦ (response, a, verified_by-not_found response (rw a at h))
    ]

    back :
        ((response : HttpResponse (Body TransferData)) × (fetch reference ≡ ok response)
          × (response.status ≡ 404))
        → verify_transfer fetch reference ≡ ok VerifiedStatus.not_found
    back (response, a, b) = rw a (verified_by_missing response b)

-- An answer after which a payout may not be sent again: not the status 404, and no transfer that is
-- called failed or reversed.
abbrev pub IsUnsettled : HttpResponse (Body TransferData) → Type 0
IsUnsettled response =
    (response.status ≢ 404)
    × ((txn : TransferData)
        → received response ≡ ok txn
        → is_text "failed" txn.status || is_text "reversed" txn.status ≡ false)

unsettled :
    (txn : TransferData)
    → is_text "failed" txn.status || is_text "reversed" txn.status ≡ false
    → previous_of (verified_status (map_transfer_status txn.status)) ≢ unpaid
unfolding map_transfer_status
unsettled txn h p = elim (Bool-cases (is_text "success" txn.status)) [
  | inl a ↦ cc (rw a at p)
  | inr a ↦ elim (Bool-cases (is_text "failed" txn.status)) [
    | inl b ↦ cc (rw b at h)
    | inr b ↦ elim (Bool-cases (is_text "reversed" txn.status)) [
      | inl c ↦ cc (rw (b, c) at h)
      | inr c ↦ elim (Bool-cases (is_text "otp" txn.status)) [
        | inl d ↦ cc (rw (a, b, c, d) at p)
        | inr d ↦ elim (Bool-cases (is_text "blocked" txn.status)) [
          | inl e ↦ cc (rw (a, b, c, d, e) at p)
          | inr e ↦ cc (rw (a, b, c, d, e) at p)
        ]
      ]
    ]
  ]
]

-- What such an answer is verified as does not call for another transfer.
unsettled_answer :
    (response : HttpResponse (Body TransferData)) (v : VerifiedStatus)
    → IsUnsettled response
    → verified_by response ≡ ok v
    → previous_of v ≢ unpaid
unfolding verified_by
unsettled_answer response v (there, open_txn) h p = elim (Bool-cases (response.status == 404)) [
  | inl a ↦ there ((==_iff response.status 404).0 a)
  | inr a ↦ elim (Result-cases (received response)) [
    | inr (e, b) ↦ cc (rw (a, b) at h)
    | inl (txn, b) ↦
        unsettled txn (open_txn txn b) (ap previous_of (ok-injective _ v (rw (a, b) at h)) ∙ p)
  ]
]

-- For a payout with an earlier attempt about which the API throws, or answers with another status than
-- 404 and a transfer that it does not call failed or reversed, a run of the worker does not depend on
-- what the API would answer to a new recipient or a new transfer. So a transfer that waits for a
-- one-time password is not sent twice.
pub process_payout-unsettled :
    (api api' : TransferApi) (add_job : ℕ → ℕ → Result ⊤) (now id : ℕ) (s : Store) {x : Payout}
    {r : Reference}
    → find_by (λ (p : Payout). p.id == id) s.payouts ≡ some x
    → x.transfer_reference ≡ some r
    → ((response : HttpResponse (Body TransferData))
        → api.get_transfer r ≡ ok response
        → IsUnsettled response)
    → process_payout (paystack_payouts api) add_job now id s
      ≡ process_payout
          (paystack_payouts (record api' { get_transfer = api.get_transfer }))
          add_job
          now
          id
          s
unfolding verify_transfer
process_payout-unsettled api api' add_job now id s {x} {r} found attempt answer =
    process_payout_settled (verify_transfer api.get_transfer) (create_recipient api.post_recipient)
      (create_recipient api'.post_recipient) (initiate_transfer api.post_transfer)
      (initiate_transfer api'.post_transfer) add_job now id s found attempt settled
  where
    settled :
        (v : VerifiedStatus) → verify_transfer api.get_transfer r ≡ ok v → previous_of v ≢ unpaid
    settled v known = elim (Result-cases (api.get_transfer r)) [
      | inr (e, a) ↦ absurd (cc (rw a at known))
      | inl (response, a) ↦ unsettled_answer response v (answer response a) (rw a at known)
    ]

same_bytes_iff : (xs ys : List ℕ) → (same_bytes xs ys ≡ true) ↔ (xs ≡ ys)
same_bytes_iff xs ys = (forth xs ys, λ e. rw e (back ys))
  where
    forth : (xs ys : List ℕ) → same_bytes xs ys ≡ true → xs ≡ ys
    forth [] [] h = refl
    forth [] (y ∷ ys) h = absurd (cc (h))
    forth (x ∷ xs) [] h = absurd (cc (h))
    forth (x ∷ xs) (y ∷ ys) h = elim (Bool-cases (x == y)) [
      | inr a ↦ absurd (cc (rw a at h))
      | inl a ↦ cc ((==_iff x y).0 a, forth xs ys (rw a at h))
    ]

    back : (ys : List ℕ) → same_bytes ys ys ≡ true
    back [] = refl
    back (y ∷ ys) = rw (==_refl y) (back ys)

second : (a b : Bool) → a && b ≡ true → b ≡ true
second true b h = h
second false b h = absurd (cc (h))

module _ (hmac : String → List ℕ → List ℕ) (of_hex : String → List ℕ) where
  -- A webhook's signature is accepted exactly when a secret is configured, a signature was sent, and
  -- its bytes are the HMAC of the payload under the secret.
  pub verify_webhook_signature_iff :
      (secret : String) (payload : List ℕ) (signature : String)
      → (verify_webhook_signature hmac of_hex secret payload signature ≡ true)
        ↔ ((secret ≢ "") × (signature ≢ "") × (of_hex signature ≡ hmac secret payload))
  unfolding verify_webhook_signature
  verify_webhook_signature_iff secret payload signature = elim (Bool-cases (str_eq secret "")) [
    | inl a ↦ (λ h. absurd (cc (rw a at h)), λ p. absurd (p.0 ((eq_iff secret "").0 a)))
    | inr a ↦ elim (Bool-cases (str_eq signature "")) [
      | inl b ↦ (λ h. absurd (cc (rw (a, b) at h)), λ p. absurd (p.1 ((eq_iff signature "").0 b)))
      | inr b ↦ (
        λ h. (
          λ e. cc (a, (eq_iff secret "").1 e),
          λ e. cc (b, (eq_iff signature "").1 e),
          sym (
              (same_bytes_iff _ _).0 (
                second (length (of_hex signature) == length (hmac secret payload)) _
                  (rw (a, b) at h))),
        ),
        λ p.
            rw (a, b, p.2, ==_refl (length (hmac secret payload)))
              ((same_bytes_iff (hmac secret payload) (hmac secret payload)).1 refl),
      )
    ]
  ]
