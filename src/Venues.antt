-- ===== src/Venues.antt =====
-- VenuesService (src/venues/venues.service.ts). That a slug is unique is the database's; a field of
-- an update is there or not.
use text.Mathlib.Text.{◌==◌ as str_eq}
use splitcore.Base.{
  ℕ, suc, Bool, true, false, Option, none, some, List, [], ◌∷◌, String, ◌==◌, find_by, filter_by,
  any_by, set_first, if◌then◌else◌,
}
use splitcore.Action.{Action, ok, err, Error, gets, or_throw}
use splitcore.Schema.{Role, User, Venue, Store}
use splitcore.VenuePayoutAccount.{has_id}

pub record CreateVenueDto : Type 0 where
  pub name : String
  pub slug : String
  pub logo_url : Option String
  pub location : String

pub record UpdateVenueDto : Type 0 where
  pub name : Option String
  pub logo_url : Option String
  pub location : Option String
  pub is_active : Option Bool

abbrev pub new_venue : CreateVenueDto → ℕ → Venue
new_venue dto id = record {
  id = id;
  name = dto.name;
  slug = dto.slug;
  logo_url = dto.logo_url;
  location = dto.location;
  is_active = true;
  bank_name = none;
  bank_code = none;
  account_number = none;
  resolved_account_name = none;
  account_resolved_at = none;
  account_confirmed_at = none;
}

unfoldable pub create_venue : CreateVenueDto → Action Store Venue
create_venue dto s =
    if any_by (λ v. str_eq v.slug dto.slug) s.venues then (err Error.conflict, s) else (
      ok (new_venue dto s.next_id),
      record s { venues = new_venue dto s.next_id ∷ s.venues; next_id = suc s.next_id },
    )

-- `user?.venueId`
abbrev pub venue_of_user : Option User → Option ℕ
venue_of_user none = none
venue_of_user (some u) = u.venue_id

abbrev pub user_venue : ℕ → Store → Option ℕ
user_venue user s = venue_of_user (find_by (λ u. u.id == user) s.users)

abbrev pub venues_of : Option ℕ → Store → List Venue
venues_of none s = []
venues_of (some id) s = filter_by (has_id id) s.venues

unfoldable pub find_all_venues : ℕ → Role → Action Store (List Venue)
find_all_venues user Role.platform_admin = gets λ s. s.venues
find_all_venues user role = gets λ s. venues_of (user_venue user s) s

unfoldable pub find_one_venue : ℕ → Action Store Venue
find_one_venue id s = (or_throw Error.not_found (find_by (has_id id) s.venues) s)

abbrev pub or_keep {ℓ} : {A : Type ℓ} → Option A → A → A
or_keep none old = old
or_keep (some new) old = new

-- a field that is there replaces a nullable column
abbrev pub or_keep_some {ℓ} : {A : Type ℓ} → Option A → Option A → Option A
or_keep_some none old = old
or_keep_some (some new) old = some new

abbrev pub with_venue_dto : UpdateVenueDto → Venue → Venue
with_venue_dto dto v = record v {
  name = or_keep dto.name v.name;
  logo_url = or_keep_some dto.logo_url v.logo_url;
  location = or_keep dto.location v.location;
  is_active = or_keep dto.is_active v.is_active;
}

-- `update`, where a row that is missing is a NotFoundException
abbrev pub update_or_not_found : ℕ → (Venue → Venue) → Option Venue → Action Store Venue
update_or_not_found id f none s = (err Error.not_found, s)
update_or_not_found id f (some v) s =
    (ok (f v), record s { venues = set_first (has_id id) f s.venues })

unfoldable pub update_venue_details : ℕ → UpdateVenueDto → Action Store Venue
update_venue_details id dto s =
    update_or_not_found id (with_venue_dto dto) (find_by (has_id id) s.venues) s

abbrev pub with_closed : Venue → Venue
with_closed v = record v { is_active = false }

unfoldable pub deactivate_venue : ℕ → Action Store Venue
deactivate_venue id s = update_or_not_found id with_closed (find_by (has_id id) s.venues) s
