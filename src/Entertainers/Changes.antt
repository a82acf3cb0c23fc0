-- ===== src/Entertainers/Changes.antt =====
-- What the changes of EntertainersService (src/entertainers/entertainers.service.ts) come to for
-- payouts, payments and links.
use splitcore.Base.{
  ℕ, ◌<◌, ◌≡◌, refl, ap, ◌∙◌, inl, inr, not, Bool, true, false, Option, some, List, [], ◌∷◌, String,
  arith, ◌==◌, ==_refl, opt_eq, ltb, find_by, filter_by, update_by, any_by, All, Bool-cases,
  find_by-set_first, find_by-update_by,
}
use splitcore.Action.{Result, ok, err, Error}
use splitcore.Schema.{Reference, Entertainer, VenueEntertainer, QrCode, GuestSession, Store}
use splitcore.Payouts.{entertainer_ready}
use splitcore.Kyc.{has_id}
use splitcore.Payments.{
  InitializePaymentDto, InitializeParams, PaymentInit, checked, initialize_payment,
}
use splitcore.Entertainers.{
  with_code_off, UpdateEntertainerDto, with_dto, phone_taken, update, deactivate, is_link, can_link,
  link_to_venue, unlink_from_venue,
}

-- An update that is not refused leaves the test for payouts as it was, whatever account number it
-- writes: an entertainer whose payouts are enabled is paid to the new account, which no bank was
-- asked about and no one confirmed.
pub update-entertainer_ready :
    (id : ℕ) (dto : UpdateEntertainerDto) (account : String) (s : Store) {e : Entertainer}
    → dto.account_number ≡ some account
    → find_by (has_id id) s.entertainers ≡ some e
    → phone_taken id dto.phone s ≡ false
    → (e' : Entertainer) × (find_by (has_id id) (update id dto s).1.entertainers ≡ some e')
      × (e'.account_number ≡ some account)
      × (entertainer_ready e' ≡ entertainer_ready e)
unfolding update
update-entertainer_ready id dto account s {e} new a b = (
  with_dto dto e,
  rw (a, b)
      (find_by-set_first (λ (x : Entertainer). x.id) id id (with_dto dto) s.entertainers a refl
        ∙ rw (==_refl id) refl),
  rw new refl,
  refl,
)

filter_by-all :
    (p : VenueEntertainer → Bool) (ls : List VenueEntertainer)
    → All (λ l. p l ≡ true) ls
    → filter_by p ls ≡ ls
filter_by-all p [] all = refl
filter_by-all p (l ∷ ls) (h, all) = rw h (ap (λ xs. l ∷ xs) (filter_by-all p ls all))

others :
    (n : ℕ) (ls : List VenueEntertainer)
    → All (λ l. l.id < n) ls
    → All (λ l. not (l.id == n) ≡ true) ls
others n [] all = tt
others n (l ∷ ls) (h, all) = (ground arith, others n ls all)

-- Linking an entertainer and a venue that were not linked, and unlinking them, restores the links.
pub unlink_from_venue-link_to_venue :
    (entertainer venue : ℕ) (s : Store)
    → any_by (is_link entertainer venue) s.links ≡ false
    → can_link entertainer venue s ≡ true
    → All (λ l. l.id < s.next_id) s.links
    → (unlink_from_venue entertainer venue (link_to_venue entertainer venue s).1).0 ≡ ok tt
      × ((unlink_from_venue entertainer venue (link_to_venue entertainer venue s).1).1.links
          ≡ s.links)
unfolding unlink_from_venue link_to_venue
unlink_from_venue-link_to_venue entertainer venue s free known fresh =
    rw (free, known)
      (rw (==_refl venue, ==_refl entertainer)
        (refl, rw (==_refl s.next_id) (filter_by-all _ s.links (others s.next_id s.links fresh))))

module _ (frontend callback : Option String)
    (url_of : String → Option ℕ → Reference → Option String)
    (initialize : InitializeParams → Result PaymentInit) (now : ℕ) where
  -- After an entertainer is deactivated, no payment starts from a session at a QR code of theirs: it is
  -- refused as gone, and nothing is written.
  pub initialize_payment-deactivate :
      (id : ℕ) (dto : InitializePaymentDto) (nanoid : ℕ) (s : Store) {e : Entertainer}
      {g : GuestSession} {qr : QrCode}
      → find_by (has_id id) s.entertainers ≡ some e
      → find_by (λ (x : GuestSession). x.id == dto.session_id) s.guest_sessions ≡ some g
      → find_by (λ (q : QrCode). q.id == g.qr_code_id) s.qr_codes ≡ some qr
      → qr.entertainer_id ≡ some id
      → initialize_payment frontend callback url_of initialize now dto nanoid (deactivate id s).1
        ≡ (err Error.gone, (deactivate id s).1)
  unfolding initialize_payment checked deactivate
  initialize_payment-deactivate id dto nanoid s {e} {g} {qr} a b c d =
      elim (Bool-cases (ltb g.expires_at now)) [
        | inl late ↦ rw (a, b, late) refl
        | inr early ↦ rw (a, b, early) (rw shut refl)
      ]
    where
      shut :
          find_by
            (λ (q : QrCode). q.id == g.qr_code_id)
            (update_by (λ (q : QrCode). opt_eq (some id) q.entertainer_id) with_code_off s.qr_codes)
          ≡ some (with_code_off qr)
      shut =
          find_by-update_by (λ (q : QrCode). q.id) g.qr_code_id _ with_code_off s.qr_codes
            (λ q. refl) c
          ∙ rw d (rw (==_refl id) refl)
