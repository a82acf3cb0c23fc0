-- ===== src/Guest/Visits.antt =====
-- The visit of a guest (src/guest/guest.service.ts) with the codes that they scan
-- (src/qr-codes/qr-codes.service.ts) and the payment that they start (src/payments/payments.service.ts).
use splitcore.Base.{
  ℕ, ◌≡◌, ◌≤◌, ◌+◌, refl, sym, ap, ◌∙◌, inl, inr, true, false, Option, none, some, String, arith,
  ◌==◌, ==_refl, ltb, find_by, any_by, set_first, Bool-cases, Option-cases, find_by-set_first_same,
  any_by-none,
}
use splitcore.Action.{Result, ok, err, Error}
use splitcore.Result.{ok-injective}
use splitcore.Int.{pos, ◌≤ℤ◌}
use splitcore.Schema.{Reference, pay, reference_eq, Venue, QrCode, SplitRule, Store}
use splitcore.SplitRules.{find_active_by_venue}
use splitcore.Kyc.{has_id}
use splitcore.QrCodes.{
  is_code, has_token, with_deactivated, same_place, new_code, insert_code, regenerate_code,
}
use splitcore.Payments.{
  InitializePaymentDto, InitializeParams, PaymentInit, PaymentInitResponse, initialize_params,
  max_int, is_storable, new_payment, entertainer_inactive, checked, after_initialize, start_payment,
  initialize_payment,
}
use splitcore.Guest.{
  ResolvedCode, session_ms, entertainer_of, is_closed, create_session, resolve_qr_code,
}

-- After a code is regenerated, a guest who scans the old one is refused as gone, and the token of the
-- new one is that of an active code at the same place.
pub resolve_qr_code-regenerate_code :
    (now later token id : ℕ) (s : Store) {q q' : QrCode}
    → find_by (is_code id) s.qr_codes ≡ some q
    → find_by (has_token q.public_token) s.qr_codes ≡ some q
    → (regenerate_code now token id s).0 ≡ ok q'
    → (resolve_qr_code later q.public_token (regenerate_code now token id s).1
        ≡ (err Error.gone, (regenerate_code now token id s).1))
      × (find_by (has_token token) (regenerate_code now token id s).1.qr_codes ≡ some q')
      × (q'.is_active ≡ true)
      × (same_place q' ≡ same_place q)
unfolding resolve_qr_code regenerate_code insert_code
resolve_qr_code-regenerate_code now later token id s {q} {q'} a b done =
    elim (Bool-cases
      (any_by (has_token token) (set_first (is_code id) (with_deactivated now) s.qr_codes))) [
        | inl taken ↦ absurd (cc (rw (a, taken) at done))
        | inr free ↦
            let other = any_by-none (has_token token) _ _ free old in
            let swapped : (token == q.public_token) ≡ false = ground (arith, other) in
            let made : new_code token (same_place q) s.next_id ≡ q' =
              ok-injective _ q' (rw (a, free) at done) in
            rw (a, free)
              (
                rw swapped (rw old refl),
                rw (==_refl token) (ap some made),
                ap (λ c. c.is_active) (sym made),
                ap same_place (sym made),
              )
      ]
  where
    old :
        find_by
          (has_token q.public_token)
          (set_first (is_code id) (with_deactivated now) s.qr_codes)
        ≡ some (with_deactivated now q)
    old =
        find_by-set_first_same (is_code id) (has_token q.public_token) (with_deactivated now)
          s.qr_codes (λ y. refl) a b

module _ (frontend callback : Option String)
    (url_of : String → Option ℕ → Reference → Option String) where
  same_closed :
      (o : Option ℕ) (s : Store)
      → entertainer_inactive frontend callback url_of s o ≡ is_closed (entertainer_of o s)
  same_closed none s = refl
  same_closed (some id) s = elim (Option-cases (find_by (has_id id) s.entertainers)) [
    | inl a ↦ rw a refl
    | inr (e, a) ↦ rw a refl
  ]

  module _ (initialize : InitializeParams → Result PaymentInit) (later : ℕ) where
    starts :
        (dto : InitializePaymentDto) (qr : QrCode) (rule : SplitRule) (nanoid : ℕ) (s : Store)
        → ((p : InitializeParams) → (init : PaymentInit) × (initialize p ≡ ok init))
        → checked frontend callback url_of initialize later dto s ≡ (ok (qr, rule), s)
        → is_storable (new_payment frontend callback url_of dto qr rule (pay nanoid) s.next_id) s
          ≡ true
        → (t : PaymentInitResponse) × ((initialize_payment frontend callback url_of initialize later
              dto nanoid s).0
            ≡ ok t)
    unfolding initialize_payment start_payment after_initialize
    starts dto qr rule nanoid s up passed stored =
        let (init, made) = up (
          initialize_params frontend callback url_of initialize later dto qr (pay nanoid)
            s.next_id) in
        rw (passed, stored, made) (_, refl)

    -- A guest who has scanned a code can start a payment for as long as the session lasts, if the code
    -- was not deactivated with a date, its venue has a rule in force, the amount is positive and fits
    -- its column, no payment has the new reference, and the provider answers.
    pub initialize_payment-resolve_qr_code :
        (now token : ℕ) (dto : InitializePaymentDto) (nanoid : ℕ) (s : Store) {q : QrCode}
        {r : ResolvedCode} {rule : SplitRule}
        → ((p : InitializeParams) → (init : PaymentInit) × (initialize p ≡ ok init))
        → (resolve_qr_code now token s).0 ≡ ok r
        → find_by (has_token token) s.qr_codes ≡ some q
        → find_by (is_code q.id) s.qr_codes ≡ some q
        → q.deactivated_at ≡ none
        → find_active_by_venue q.venue_id s ≡ some rule
        → dto.session_id ≡ r.session_id
        → later ≤ now + session_ms
        → pos 1 ≤ℤ dto.amount_kobo
        → dto.amount_kobo ≤ℤ pos max_int
        → any_by (λ q. reference_eq (pay nanoid) q.external_reference) s.payments ≡ false
        → (t : PaymentInitResponse) × ((initialize_payment frontend callback url_of initialize later
              dto nanoid
              (resolve_qr_code now token s).1).0
            ≡ ok t)
    unfolding resolve_qr_code create_session checked find_active_by_venue
    initialize_payment-resolve_qr_code now token dto nanoid s {q} {r} {rule} up done a b dated
          active mine fresh positive fits unused =
        elim (Bool-cases q.is_active) [
          | inr c ↦ absurd (cc (rw (a, c) at done))
          | inl c ↦ elim (Option-cases (find_by (λ (v : Venue). v.id == q.venue_id) s.venues)) [
            | inl d ↦ absurd (cc (rw (a, c, d) at done))
            | inr (venue, d) ↦ elim (Bool-cases venue.is_active) [
              | inr f ↦ absurd (cc (rw (a, c, d, f) at done))
              | inl f ↦ elim (Bool-cases (is_closed (entertainer_of q.entertainer_id s))) [
                | inl g ↦ absurd (cc (rw (a, c, d, f, g) at done))
                | inr g ↦
                    let card = ok-injective _ r (rw (a, c, d, f, g) at done) in
                    let id : dto.session_id ≡ s.next_id =
                      mine ∙ ap (λ x. x.session_id) (sym card) in
                    let in_time : ltb (now + session_ms) later ≡ false = ground (arith, fresh) in
                    rw (a, c, d, f, g)
                      (starts dto q rule nanoid _ up
                        (rw id (
                          rw (==_refl s.next_id) (
                            rw (in_time, b, c, dated, d, f)
                              (rw (same_closed q.entertainer_id s ∙ g) (rw active refl)))))
                        (ground (arith, positive, fits, unused)))
              ]
            ]
          ]
        ]
