-- ===== src/Entertainers.antt =====
-- EntertainersService (src/entertainers/entertainers.service.ts). That a phone number and a link are
-- unique, and that a link's venue and entertainer exist, is the database's; a field of an update is
-- there or not.
pub mod Changes
use text.Mathlib.Text.{◌==◌ as str_eq}
use splitcore.Base.{
  ⊤, ℕ, suc, ◌&&◌, not, Bool, true, false, Option, none, some, List, [], ◌∷◌, map, String, ◌==◌,
  opt_eq, is_some, find_by, filter_by, any_by, set_first, update_by, if◌then◌else◌,
}
use splitcore.Action.{
  Action, Result, ok, err, Error, ◌>>=◌, ◌>>◌, pure, throw, gets, or_throw, throw_if, modify,
  transaction,
}
use splitcore.Schema.{Role, KycStatus, User, Entertainer, VenueEntertainer, QrCode, Store}
use splitcore.Kyc.{has_id}
use splitcore.Venues.{user_venue, or_keep, or_keep_some}

pub record CreateEntertainerDto : Type 0 where
  pub stage_name : String
  pub legal_name : String
  pub phone : String
  pub bank_name : Option String
  pub account_number : Option String

pub record UpdateEntertainerDto : Type 0 where
  pub stage_name : Option String
  pub legal_name : Option String
  pub phone : Option String
  pub bank_name : Option String
  pub account_number : Option String
  pub is_active : Option Bool

-- `Entertainer & { venueIds }`
pub record EntertainerView : Type 0 where
  pub entertainer : Entertainer
  pub venue_ids : List ℕ

abbrev pub venue_ids_of : ℕ → Store → List ℕ
venue_ids_of id s = map (λ l. l.venue_id) (filter_by (λ l. l.entertainer_id == id) s.links)

abbrev pub with_venues : Store → Entertainer → EntertainerView
with_venues s e = record { entertainer = e; venue_ids = venue_ids_of e.id s }

abbrev pub new_entertainer : CreateEntertainerDto → ℕ → Entertainer
new_entertainer dto id = record {
  id = id;
  stage_name = dto.stage_name;
  legal_name = dto.legal_name;
  phone = dto.phone;
  is_active = true;
  kyc_status = KycStatus.not_started;
  bank_name = dto.bank_name;
  bank_code = none;
  account_number = dto.account_number;
  resolved_account_name = none;
  account_resolved_at = none;
  account_confirmed_at = none;
  kyc_submitted_at = none;
  kyc_verified_at = none;
  kyc_failure_reason = none;
  identity_check_type = none;
  identity_checked_at = none;
}

unfoldable pub create_entertainer : CreateEntertainerDto → Action Store EntertainerView
create_entertainer dto s =
    if any_by (λ e. str_eq e.phone dto.phone) s.entertainers then (err Error.conflict, s) else (
      ok (record { entertainer = new_entertainer dto s.next_id; venue_ids = [] }),
      record s {
        entertainers = new_entertainer dto s.next_id ∷ s.entertainers;
        next_id = suc s.next_id;
      },
    )

-- the entertainer of a link, with all of its venues
abbrev pub linked_views : Store → List VenueEntertainer → List EntertainerView
linked_views s [] = []
linked_views s (l ∷ ls) = elim (find_by (has_id l.entertainer_id) s.entertainers) [
  | none ↦ linked_views s ls
  | some e ↦ with_venues s e ∷ linked_views s ls
]

abbrev pub views_at : Option ℕ → Store → List EntertainerView
views_at none s = []
views_at (some venue) s = linked_views s (filter_by (λ l. l.venue_id == venue) s.links)

unfoldable pub find_all : ℕ → Role → Action Store (List EntertainerView)
find_all user Role.platform_admin = gets λ s. map (with_venues s) s.entertainers
find_all user role = gets λ s. views_at (user_venue user s) s

unfoldable pub find_one : ℕ → Action Store EntertainerView
find_one id = do
  found ← gets (λ s. find_by (has_id id) s.entertainers)
  e ← or_throw Error.not_found found
  gets (λ s. with_venues s e)

abbrev pub with_dto : UpdateEntertainerDto → Entertainer → Entertainer
with_dto dto e = record e {
  stage_name = or_keep dto.stage_name e.stage_name;
  legal_name = or_keep dto.legal_name e.legal_name;
  phone = or_keep dto.phone e.phone;
  bank_name = or_keep_some dto.bank_name e.bank_name;
  account_number = or_keep_some dto.account_number e.account_number;
  is_active = or_keep dto.is_active e.is_active;
}

-- the new phone number is that of another entertainer
abbrev pub phone_taken : ℕ → Option String → Store → Bool
phone_taken id none s = false
phone_taken id (some phone) s =
    any_by (λ e. not (has_id id e) && str_eq e.phone phone) s.entertainers

abbrev pub set_entertainer : ℕ → (Entertainer → Entertainer) → Store → Store
set_entertainer id f s = record s { entertainers = set_first (has_id id) f s.entertainers }

unfoldable pub update : ℕ → UpdateEntertainerDto → Action Store EntertainerView
update id dto = do
  found ← gets (λ s. find_by (has_id id) s.entertainers)
  e ← or_throw Error.not_found found
  taken ← gets (phone_taken id dto.phone)
  throw_if taken Error.conflict
  modify (set_entertainer id (with_dto dto))
  gets (λ s. with_venues s (with_dto dto e))

abbrev pub with_closed : Entertainer → Entertainer
with_closed e = record e { is_active = false }

abbrev pub with_code_off : QrCode → QrCode
with_code_off q = record q { is_active = false }

abbrev pub codes_off : ℕ → Store → Store
codes_off id s = record s {
  qr_codes = update_by (λ q. opt_eq (some id) q.entertainer_id) with_code_off s.qr_codes;
}

unfoldable pub deactivate : ℕ → Action Store EntertainerView
deactivate id = transaction (do
  found ← gets (λ s. find_by (has_id id) s.entertainers)
  e ← or_throw Error.not_found found
  modify (set_entertainer id with_closed)
  modify (codes_off id)
  gets (λ s. with_venues s (with_closed e)))

abbrev pub is_link : ℕ → ℕ → VenueEntertainer → Bool
is_link entertainer venue l = l.venue_id == venue && l.entertainer_id == entertainer

abbrev pub can_link : ℕ → ℕ → Store → Bool
can_link entertainer venue s =
    any_by (has_id entertainer) s.entertainers && any_by (λ v. v.id == venue) s.venues

abbrev pub new_link : ℕ → ℕ → ℕ → VenueEntertainer
new_link entertainer venue id = record { id = id; venue_id = venue; entertainer_id = entertainer }

abbrev pub add_link : ℕ → ℕ → Action Store VenueEntertainer
add_link entertainer venue s = (
  ok (new_link entertainer venue s.next_id),
  record s { links = new_link entertainer venue s.next_id ∷ s.links; next_id = suc s.next_id },
)

unfoldable pub link_to_venue : ℕ → ℕ → Action Store VenueEntertainer
link_to_venue entertainer venue = do
  linked ← gets (λ s. any_by (is_link entertainer venue) s.links)
  throw_if linked Error.conflict
  known ← gets (can_link entertainer venue)
  throw_if (not known) Error.external
  add_link entertainer venue

unfoldable pub unlink_from_venue : ℕ → ℕ → Action Store ⊤
unlink_from_venue entertainer venue = do
  found ← gets (λ s. find_by (is_link entertainer venue) s.links)
  link ← or_throw Error.not_found found
  modify (λ s. record s { links = filter_by (λ l. not (l.id == link.id)) s.links })
