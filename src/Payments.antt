-- ===== src/Payments.antt =====
-- PaymentsService (src/payments/payments.service.ts): the start of a payment, and the status that a
-- guest polls. The provider, the URL class of the platform, the clock and the random reference are
-- parameters.
pub mod Initialize
use splitcore.Base.{
  ⊤, ℕ, suc, ◌&&◌, ◌||◌, not, Bool, true, false, Option, none, some, List, [], ◌∷◌, String, ◌==◌,
  ltb, is_some, find_by, any_by, update_by, count_by, if◌then◌else◌,
}
use splitcore.Int.{ℤ, pos, ltb_ℤ, leb_ℤ}
use splitcore.Action.{
  Action, Result, ok, err, Error, ◌>>=◌, ◌>>◌, pure, throw, gets, or_throw, modify, throw_if, lift,
}
use splitcore.Schema.{
  PaymentStatus, PaymentTransaction, Reference, pay, reference_eq, QrCode, GuestSession, Venue,
  Entertainer, SplitRule, Store,
}
use splitcore.Settlement.{unconfirmed, update_payments, set_status}
use splitcore.SplitRules.{find_active_by_venue}

pub record InitializePaymentDto : Type 0 where
  pub session_id : ℕ
  pub amount_kobo : ℤ
  pub email : Option String
  pub guest_display_name : Option String
  pub display_name_enabled : Option Bool

pub record InitializeParams : Type 0 where
  pub reference : Reference
  pub amount_kobo : ℤ
  pub email : Option String
  pub callback_url : Option String
  pub transaction_id : ℕ
  pub venue_id : ℕ
  pub entertainer_id : Option ℕ

pub record PaymentInit : Type 0 where
  pub authorization_url : String
  pub access_code : String

pub record PaymentInitResponse : Type 0 where
  pub transaction_id : ℕ
  pub reference : Reference
  pub authorization_url : String
  pub access_code : String
  pub amount_kobo : ℤ
  pub status : PaymentStatus

abbrev pub or_false : Option Bool → Bool
or_false none = false
or_false (some b) = b

-- the largest number of the column `grossAmountKobo Int`
abbrev pub max_int : ℕ
max_int = 2147483647

-- What the database asks of a new payment: the check that the amount is positive, the 32 bits of its
-- column, and the unique `externalReference`.
abbrev pub is_storable : PaymentTransaction → Store → Bool
is_storable p s =
    ltb_ℤ (pos 0) p.gross_amount_kobo
    && leb_ℤ p.gross_amount_kobo (pos max_int)
    && not (any_by (λ q. reference_eq p.external_reference q.external_reference) s.payments)

abbrev pub insert_payment : Bool → PaymentTransaction → Action Store ℕ
insert_payment false p s = (err Error.external, s)
insert_payment true p s = (ok p.id, record s { payments = p ∷ s.payments; next_id = suc s.next_id })

-- The two settings, and the URL of a base: with the path of a QR code's token, or as it stands,
-- and the reference as a query parameter; none where the base is no URL.
module _ (frontend_url callback_url : Option String)
    (url_of : String → Option ℕ → Reference → Option String) where
  abbrev pub fallback_url : Reference → Option String → Option String
  fallback_url reference none = none
  fallback_url reference (some base) = url_of base none reference

  abbrev pub build_callback_url_from : Option String → Reference → ℕ → Option String
  build_callback_url_from none reference token = fallback_url reference callback_url
  build_callback_url_from (some base) reference token = url_of base (some token) reference

  unfoldable pub build_callback_url : Reference → ℕ → Option String
  build_callback_url = build_callback_url_from frontend_url

  -- the payment that `create` writes
  abbrev pub new_payment :
      InitializePaymentDto → QrCode → SplitRule → Reference → ℕ → PaymentTransaction
  new_payment dto qr rule reference id = record {
    id = id;
    external_reference = reference;
    venue_id = qr.venue_id;
    entertainer_id = qr.entertainer_id;
    guest_session_id = dto.session_id;
    gross_amount_kobo = dto.amount_kobo;
    guest_display_name = dto.guest_display_name;
    display_name_enabled = or_false dto.display_name_enabled;
    split_rule_id = some rule.id;
    status = PaymentStatus.created;
  }

  abbrev pub create_payment : (ℕ → PaymentTransaction) → Action Store ℕ
  create_payment make s = insert_payment (is_storable (make s.next_id) s) (make s.next_id) s

  -- `entertainer && !entertainer.isActive`
  abbrev pub inactive_of : Option Entertainer → Bool
  inactive_of none = false
  inactive_of (some e) = not e.is_active

  abbrev pub entertainer_inactive : Store → Option ℕ → Bool
  entertainer_inactive s none = false
  entertainer_inactive s (some id) = inactive_of (find_by (λ e. e.id == id) s.entertainers)

  module _ (initialize : InitializeParams → Result PaymentInit) (now : ℕ) where
    abbrev pub initialize_params : InitializePaymentDto → QrCode → Reference → ℕ → InitializeParams
    initialize_params dto qr reference id = record {
      reference = reference;
      amount_kobo = dto.amount_kobo;
      email = dto.email;
      callback_url = build_callback_url reference qr.public_token;
      transaction_id = id;
      venue_id = qr.venue_id;
      entertainer_id = qr.entertainer_id;
    }

    -- after the call of the provider: the checkout, or a payment that is FAILED
    unfoldable pub after_initialize :
        InitializePaymentDto → Reference → ℕ → Result PaymentInit → Action Store PaymentInitResponse
    after_initialize dto reference id (ok init) = pure (record {
      transaction_id = id;
      reference = reference;
      authorization_url = init.authorization_url;
      access_code = init.access_code;
      amount_kobo = dto.amount_kobo;
      status = PaymentStatus.created;
    })
    after_initialize dto reference id (err e) = do
      update_payments (λ p. p.id == id) (set_status PaymentStatus.failed)
      throw Error.bad_request

    unfoldable pub start_payment :
        InitializePaymentDto → QrCode → SplitRule → Reference → Action Store PaymentInitResponse
    start_payment dto qr rule reference = do
      id ← create_payment (new_payment dto qr rule reference)
      after_initialize dto reference id (initialize (initialize_params dto qr reference id))

    -- the checks of the session, its QR code, venue and entertainer, and the rule in force
    unfoldable pub checked : InitializePaymentDto → Action Store (QrCode × SplitRule)
    checked dto = do
      found ← gets (λ s. find_by (λ g. g.id == dto.session_id) s.guest_sessions)
      session ← or_throw Error.not_found found
      throw_if (ltb session.expires_at now) Error.gone
      found_qr ← gets (λ s. find_by (λ q. q.id == session.qr_code_id) s.qr_codes)
      qr ← or_throw Error.external found_qr
      throw_if (not qr.is_active || is_some qr.deactivated_at) Error.gone
      found_venue ← gets (λ s. find_by (λ v. v.id == qr.venue_id) s.venues)
      venue ← or_throw Error.external found_venue
      throw_if (not venue.is_active) Error.gone
      inactive ← gets (λ s. entertainer_inactive s qr.entertainer_id)
      throw_if inactive Error.gone
      active ← gets (find_active_by_venue qr.venue_id)
      rule ← or_throw Error.bad_request active
      pure (qr, rule)

    unfoldable pub initialize_payment : InitializePaymentDto → ℕ → Action Store PaymentInitResponse
    initialize_payment dto nanoid = do
      (qr, rule) ← checked dto
      start_payment dto qr rule (pay nanoid)

module _ (settle : Reference → Action Store (Option PaymentTransaction)) where
  -- `try { settle } catch`: a throw is logged, and what was written before it stays
  abbrev pub try_settle : Bool → Reference → Action Store ⊤
  try_settle true reference s = (ok tt, (settle reference s).1)
  try_settle false reference s = (ok tt, s)

  unfoldable pub get_payment_status : Reference → Action Store PaymentTransaction
  get_payment_status reference = do
    found ← gets (λ s. find_by (λ p. reference_eq reference p.external_reference) s.payments)
    existing ← or_throw Error.not_found found
    try_settle (unconfirmed existing.status) reference
    payment ← gets (λ s. find_by (λ p. reference_eq reference p.external_reference) s.payments)
    or_throw Error.external payment
