-- ===== src/Guest.antt =====
-- GuestService (src/guest/guest.service.ts): a guest scans a QR code and gets a session. The clock is
-- a parameter; twenty-four hours are those of a day without a change of the clock.
pub mod Visits
use splitcore.Base.{
  ⊤, ℕ, suc, ◌+◌, ◌*◌, not, Bool, false, Option, none, some, ◌∷◌, String, ◌==◌, find_by,
  if◌then◌else◌,
}
use splitcore.Action.{
  Action, Result, ok, err, Error, ◌>>=◌, ◌>>◌, pure, throw, gets, or_throw, throw_if,
}
use splitcore.Schema.{Entertainer, Venue, QrCode, GuestSession, Store}
use splitcore.Kyc.{has_id}
use splitcore.QrCodes.{has_token}

pub record VenueCard : Type 0 where
  pub id : ℕ
  pub name : String
  pub logo_url : Option String
  pub location : String

pub record EntertainerCard : Type 0 where
  pub id : ℕ
  pub stage_name : String

pub record ResolvedCode : Type 0 where
  pub venue : VenueCard
  pub entertainer : Option EntertainerCard
  pub location : String
  pub session_id : ℕ
  pub expires_at : ℕ

-- 24 hours, in milliseconds
abbrev pub session_ms : ℕ
session_ms = 24 * 60 * 60 * 1000

-- `include: { entertainer: true }`
abbrev pub entertainer_of : Option ℕ → Store → Option Entertainer
entertainer_of none s = none
entertainer_of (some id) s = find_by (has_id id) s.entertainers

-- `qrCode.entertainer && !qrCode.entertainer.isActive`
abbrev pub is_closed : Option Entertainer → Bool
is_closed none = false
is_closed (some e) = not e.is_active

abbrev pub venue_card : Venue → VenueCard
venue_card v = record { id = v.id; name = v.name; logo_url = v.logo_url; location = v.location }

abbrev pub entertainer_card : Option Entertainer → Option EntertainerCard
entertainer_card none = none
entertainer_card (some e) = some (record { id = e.id; stage_name = e.stage_name })

abbrev pub new_session : ℕ → ℕ → ℕ → GuestSession
new_session code expires id = record { id = id; qr_code_id = code; expires_at = expires }

unfoldable pub create_session : ℕ → ℕ → Action Store GuestSession
create_session code expires s = (
  ok (new_session code expires s.next_id),
  record s {
    guest_sessions = new_session code expires s.next_id ∷ s.guest_sessions;
    next_id = suc s.next_id;
  },
)

unfoldable pub resolve_qr_code : ℕ → ℕ → Action Store ResolvedCode
resolve_qr_code now token = do
  found ← gets (λ s. find_by (has_token token) s.qr_codes)
  code ← or_throw Error.not_found found
  throw_if (not code.is_active) Error.gone
  found_venue ← gets (λ s. find_by (λ v. v.id == code.venue_id) s.venues)
  venue ← or_throw Error.external found_venue
  throw_if (not venue.is_active) Error.gone
  entertainer ← gets (entertainer_of code.entertainer_id)
  throw_if (is_closed entertainer) Error.gone
  session ← create_session code.id (now + session_ms)
  pure (record {
    venue = venue_card venue;
    entertainer = entertainer_card entertainer;
    location = code.location;
    session_id = session.id;
    expires_at = session.expires_at;
  })
