-- ===== src/QrCodes.antt =====
-- QrCodesService (src/qr-codes/qr-codes.service.ts). The random token is a parameter; that it is
-- unique is the database's.
use splitcore.Base.{
  ⊤, ℕ, suc, not, Bool, true, false, Option, none, some, List, [], ◌∷◌, String, ◌==◌, find_by,
  filter_by, any_by, set_first, if◌then◌else◌,
}
use splitcore.Action.{
  Action, ok, err, Error, ◌>>=◌, ◌>>◌, pure, gets, or_throw, throw_if, modify, transaction,
}
use splitcore.Schema.{Role, QrCode, Store}
use splitcore.Kyc.{has_id}
use splitcore.Venues.{user_venue}
use splitcore.Entertainers.{is_link}

pub record CreateQrCodeDto : Type 0 where
  pub venue_id : ℕ
  pub entertainer_id : Option ℕ
  pub location : String

abbrev pub is_code : ℕ → QrCode → Bool
is_code id q = q.id == id

abbrev pub has_token : ℕ → QrCode → Bool
has_token token q = q.public_token == token

abbrev pub new_code : ℕ → CreateQrCodeDto → ℕ → QrCode
new_code token dto id = record {
  id = id;
  public_token = token;
  venue_id = dto.venue_id;
  entertainer_id = dto.entertainer_id;
  location = dto.location;
  is_active = true;
  deactivated_at = none;
}

-- `qrCode.create`, which the unique column may refuse
unfoldable pub insert_code : ℕ → CreateQrCodeDto → Action Store QrCode
insert_code token dto s = if any_by (has_token token) s.qr_codes then (err Error.external, s) else (
  ok (new_code token dto s.next_id),
  record s { qr_codes = new_code token dto s.next_id ∷ s.qr_codes; next_id = suc s.next_id },
)

-- the checks of the entertainer, if there is one
unfoldable pub check_entertainer : ℕ → Option ℕ → Action Store ⊤
check_entertainer venue none = pure tt
check_entertainer venue (some id) = do
  known ← gets (λ s. any_by (has_id id) s.entertainers)
  throw_if (not known) Error.not_found
  linked ← gets (λ s. any_by (is_link id venue) s.links)
  throw_if (not linked) Error.bad_request

unfoldable pub create_code : ℕ → CreateQrCodeDto → Action Store QrCode
create_code token dto = do
  known ← gets (λ s. any_by (λ v. v.id == dto.venue_id) s.venues)
  throw_if (not known) Error.not_found
  check_entertainer dto.venue_id dto.entertainer_id
  insert_code token dto

abbrev pub codes_at : Option ℕ → Store → List QrCode
codes_at none s = []
codes_at (some venue) s = filter_by (λ q. q.venue_id == venue) s.qr_codes

unfoldable pub find_all_codes : ℕ → Role → Action Store (List QrCode)
find_all_codes user Role.platform_admin = gets λ s. s.qr_codes
find_all_codes user role = gets λ s. codes_at (user_venue user s) s

unfoldable pub find_one_code : ℕ → Action Store QrCode
find_one_code id s = (or_throw Error.not_found (find_by (is_code id) s.qr_codes) s)

abbrev pub with_deactivated : ℕ → QrCode → QrCode
with_deactivated now q = record q { is_active = false; deactivated_at = some now }

abbrev pub turn_off : ℕ → ℕ → Store → Store
turn_off now id s = record s { qr_codes = set_first (is_code id) (with_deactivated now) s.qr_codes }

unfoldable pub deactivate_code : ℕ → ℕ → Action Store QrCode
deactivate_code now id = do
  found ← gets (λ s. find_by (is_code id) s.qr_codes)
  code ← or_throw Error.not_found found
  modify (turn_off now id)
  pure (with_deactivated now code)

-- the data of the new code
abbrev pub same_place : QrCode → CreateQrCodeDto
same_place q = record {
  venue_id = q.venue_id;
  entertainer_id = q.entertainer_id;
  location = q.location;
}

unfoldable pub regenerate_code : ℕ → ℕ → ℕ → Action Store QrCode
regenerate_code now token id = transaction (do
  found ← gets (λ s. find_by (is_code id) s.qr_codes)
  old ← or_throw Error.not_found found
  modify (turn_off now id)
  insert_code token (same_place old))
