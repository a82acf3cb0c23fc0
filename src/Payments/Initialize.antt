-- ===== src/Payments/Initialize.antt =====
-- `initializePayment` and `getPaymentStatus` (src/payments/payments.service.ts): what the start of a
-- payment writes, and the books.
use splitcore.Base.{
  ℕ, suc, ◌≡◌, ◌⊎◌, refl, inl, inr, ◌||◌, not, Option, some, List, ◌∷◌, String, arith, ◌==◌, ltb,
  is_some, find_by, any_by, false, Bool-cases, Option-cases,
}
use splitcore.Action.{gets, or_throw, Action, Result, Result-cases, ok, err, Error, ◌>>=◌}
use splitcore.Action.Keeps.{Keeps, gets-Keeps, or_throw_same}
use splitcore.Int.{pos, ◌≤ℤ◌}
use splitcore.Schema.{
  GuestSession, PaymentStatus, PaymentTransaction, Reference, pay, reference_eq, QrCode, SplitRule,
  Store,
}
use splitcore.Settlement.{unconfirmed}
use splitcore.SplitRules.{find_active_by_venue}
use splitcore.Books.{IsSound, IsSound-payments}
use splitcore.Books.Postings.{IsTable-weaken, HasIds-weaken}
use splitcore.Payments.{
  InitializePaymentDto, InitializeParams, PaymentInit, PaymentInitResponse, is_storable,
  new_payment, entertainer_inactive, initialize_params, after_initialize, start_payment, checked,
  initialize_payment, get_payment_status,
}

IsSound-created :
    (s : Store) (ps : List PaymentTransaction)
    → IsSound s
    → IsSound (record s { payments = ps; next_id = suc s.next_id })
IsSound-created s ps v = record {
  table = IsTable-weaken s.next_id (suc s.next_id) s.accounts (omega arith) v.table;
  posted_to = v.posted_to;
  ids = HasIds-weaken s.next_id (suc s.next_id) s.payouts (omega arith) v.ids;
  backed = v.backed;
  owes = v.owes;
  balanced = v.balanced;
}

-- The QR code of the session that a guest pays in.
pub record ScannedAt (now : ℕ) (dto : InitializePaymentDto) (s : Store) (qr : QrCode) : Type 0 where
  pub session : GuestSession
  pub opened :
      find_by (λ (g : GuestSession). g.id == dto.session_id) s.guest_sessions ≡ some session
  pub in_time : ltb session.expires_at now ≡ false
  pub found : find_by (λ (q : QrCode). q.id == session.qr_code_id) s.qr_codes ≡ some qr

-- A payment as it starts: CREATED, for the amount asked for, at the place of a code, under a rule.
pub record IsStarted (dto : InitializePaymentDto) (qr : QrCode) (rule : SplitRule)
    (p : PaymentTransaction) : Type 0 where
  pub status : p.status ≡ PaymentStatus.created
  pub amount : p.gross_amount_kobo ≡ dto.amount_kobo
  pub payable : pos 1 ≤ℤ p.gross_amount_kobo
  pub session : p.guest_session_id ≡ dto.session_id
  pub venue : p.venue_id ≡ qr.venue_id
  pub entertainer : p.entertainer_id ≡ qr.entertainer_id
  pub rule_stamped : p.split_rule_id ≡ some rule.id

module _ (frontend callback : Option String)
    (url_of : String → Option ℕ → Reference → Option String)
    (initialize : InitializeParams → Result PaymentInit) (now : ℕ) where
  -- What the checks of a payment come to: a refusal, or the QR code and its venue's rule in force.
  Checked : InitializePaymentDto → Store → Type 0
  Checked dto s =
      ((e : Error) × (checked frontend callback url_of initialize now dto s ≡ (err e, s)))
      ⊎ ((qr : QrCode) × (rule : SplitRule) × (checked frontend callback url_of initialize now dto s
            ≡ (ok (qr, rule), s))
          × ScannedAt now dto s qr
          × (find_active_by_venue qr.venue_id s ≡ some rule))

  Checked-cases : (dto : InitializePaymentDto) (s : Store) → Checked dto s
  unfolding Checked checked
  Checked-cases dto s =
      elim (Option-cases (find_by (λ g. g.id == dto.session_id) s.guest_sessions)) [
        | inl a ↦ inl (Error.not_found, rw a refl)
        | inr (visit, a) ↦ elim (Bool-cases (ltb visit.expires_at now)) [
          | inl b ↦ inl (Error.gone, rw (a, b) refl)
          | inr b ↦ elim (Option-cases (find_by (λ q. q.id == visit.qr_code_id) s.qr_codes)) [
            | inl c ↦ inl (Error.external, rw (a, b, c) refl)
            | inr (qr, c) ↦ elim (Bool-cases (not qr.is_active || is_some qr.deactivated_at)) [
              | inl d ↦ inl (Error.gone, rw (a, b, c, d) refl)
              | inr d ↦ elim (Option-cases (find_by (λ v. v.id == qr.venue_id) s.venues)) [
                | inl e ↦ inl (Error.external, rw (a, b, c, d, e) refl)
                | inr (venue, e) ↦ elim (Bool-cases venue.is_active) [
                  | inr f ↦ inl (Error.gone, rw (a, b, c, d, e, f) refl)
                  | inl f ↦
                      elim (Bool-cases
                        (entertainer_inactive frontend callback url_of s qr.entertainer_id)) [
                          | inl g ↦ inl (Error.gone, rw (a, b, c, d, e, f, g) refl)
                          | inr g ↦ elim (Option-cases (find_active_by_venue qr.venue_id s)) [
                            | inl h ↦ inl (Error.bad_request, rw (a, b, c, d, e, f, g, h) refl)
                            | inr (rule, h) ↦ inr (
                              qr,
                              rule,
                              rw (a, b, c, d, e, f, g, h) refl,
                              record { session = visit; opened = a; in_time = b; found = c },
                              h,
                            )
                          ]
                        ]
                ]
              ]
            ]
          ]
        ]
      ]

  -- When the call returns, it has written one payment, under the reference and the id that it returns
  -- and a reference that no payment had: CREATED, of the positive amount asked for, at the place of the
  -- QR code of the guest's session, which has not expired, and with the rule in force at that venue
  -- stamped on it; the other payments are as they were.
  pub initialize_payment-created :
      (dto : InitializePaymentDto) (nanoid : ℕ) (s : Store) {r : PaymentInitResponse}
      → (initialize_payment frontend callback url_of initialize now dto nanoid s).0 ≡ ok r
      → (qr : QrCode) × (rule : SplitRule) × (p : PaymentTransaction) × ScannedAt now dto s qr
        × (find_active_by_venue qr.venue_id s ≡ some rule)
        × IsStarted dto qr rule p
        × (any_by (λ q. reference_eq (pay nanoid) q.external_reference) s.payments ≡ false)
        × (p.external_reference ≡ r.reference)
        × (r.reference ≡ pay nanoid)
        × (p.id ≡ r.transaction_id)
        × ((initialize_payment frontend callback url_of initialize now dto nanoid s).1.payments
            ≡ p ∷ s.payments)
  unfolding initialize_payment start_payment after_initialize Checked
  initialize_payment-created dto nanoid s {r} done = elim (Checked-cases dto s) [
    | inl (e, refused) ↦ absurd (cc (rw refused at done))
    | inr (qr, rule, passed, scanned, active) ↦
        let made = new_payment frontend callback url_of dto qr rule (pay nanoid) s.next_id in
        let params =
          initialize_params frontend callback url_of initialize now dto qr (pay nanoid) s.next_id in
        elim (Bool-cases (is_storable made s)) [
          | inr refused ↦ absurd (cc (rw (passed, refused) at done))
          | inl stored ↦ elim (Result-cases (initialize params)) [
            | inr (e, failed) ↦ absurd (cc (rw (passed, stored, failed) at done))
            | inl (init, up) ↦
                let same = rw (passed, stored, up) at done in
                (
                  qr,
                  rule,
                  made,
                  scanned,
                  active,
                  record {
                    status = refl;
                    amount = refl;
                    payable = ground (arith, stored);
                    session = refl;
                    venue = refl;
                    entertainer = refl;
                    rule_stamped = refl;
                  },
                  ground (arith, stored),
                  cc (same),
                  cc (same),
                  cc (same),
                  rw (passed, stored, up) refl,
                )
          ]
        ]
  ]

  after_initialize-IsSound :
      (dto : InitializePaymentDto) (reference : Reference) (id : ℕ) (r : Result PaymentInit)
      → Keeps IsSound (after_initialize frontend callback url_of initialize now dto reference id r)
  unfolding after_initialize
  after_initialize-IsSound dto reference id (ok init) = record { run = λ s v. v }
  after_initialize-IsSound dto reference id (err e) = record { run = λ s v. IsSound-payments s _ v }

  -- Starting a payment moves no money: the books stay sound, however the call ends.
  pub initialize_payment-IsSound :
      (dto : InitializePaymentDto) (nanoid : ℕ)
      → Keeps IsSound (initialize_payment frontend callback url_of initialize now dto nanoid)
  unfolding initialize_payment start_payment Checked
  initialize_payment-IsSound dto nanoid = record {
    run = λ s v. elim (Checked-cases dto s) [
      | inl (e, refused) ↦ rw refused v
      | inr (qr, rule, passed, scanned, active) ↦
          let made = new_payment frontend callback url_of dto qr rule (pay nanoid) s.next_id in
          elim (Bool-cases (is_storable made s)) [
            | inr refused ↦ rw (passed, refused) v
            | inl stored ↦
                rw (passed, stored)
                  ((after_initialize-IsSound dto (pay nanoid) s.next_id (
                      initialize (
                        initialize_params frontend callback url_of initialize now dto qr
                          (pay nanoid) s.next_id))).run
                    _ (IsSound-created s _ v))
          ]
    ];
  }

module _ (settle : Reference → Action Store (Option PaymentTransaction))
    (settles : (r : Reference) → Keeps IsSound (settle r)) where
  reload-IsSound :
      (r : Reference)
      → Keeps IsSound (
          gets (λ s. find_by (λ p. reference_eq r p.external_reference) s.payments)
          >>= or_throw Error.external)
  reload-IsSound r = gets-Keeps λ found. or_throw_same Error.external found

  pub get_payment_status-IsSound : (r : Reference) → Keeps IsSound (get_payment_status settle r)
  unfolding get_payment_status
  get_payment_status-IsSound r = record {
    run = λ s v.
        elim (Option-cases (find_by (λ p. reference_eq r p.external_reference) s.payments)) [
          | inl missing ↦ rw missing v
          | inr (p, found) ↦ elim (Bool-cases (unconfirmed p.status)) [
            | inl open_payment ↦
                rw (found, open_payment) ((reload-IsSound r).run _ ((settles r).run s v))
            | inr closed ↦ rw (found, closed) ((reload-IsSound r).run s v)
          ]
        ];
  }
