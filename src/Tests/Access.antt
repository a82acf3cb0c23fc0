-- ===== src/Tests/Access.antt =====
-- Who signs in and who is locked out (src/auth, src/entertainer-auth), at concrete calls.
use text.Mathlib.Text.{◌==◌ as str_eq}
use splitcore.Base.{◌≡◌, refl, Bool, true, none, some, [], ◌∷◌, String, ◌==◌}
use splitcore.Action.{Result, ok, err, Error}
use splitcore.Schema.{Role, User, Store}
use splitcore.Auth.{validate}
use splitcore.Auth.Lockout.{validate-deactivate}
use splitcore.EntertainerAuth.{jwt_payload, issue_login_link, redeem}
use splitcore.Entertainers.{deactivate}
use splitcore.Tests.{tables}
use splitcore.Tests.Visits.{hash, sign, with_link, first_link, first_found}

validate-deactivate_example :
    (validate (jwt_payload 20) (deactivate 20 with_link).1
      ≡ (err Error.unauthorized, (deactivate 20 with_link).1))
    × (issue_login_link hash 7 none none "abcd" 20 (deactivate 20 with_link).1
        ≡ (err Error.unauthorized, (deactivate 20 with_link).1))
    × (redeem hash 7 sign "abc" (deactivate 20 with_link).1
        ≡ (err Error.unauthorized, (deactivate 20 with_link).1))
unfolding issue_login_link splitcore.EntertainerAuth.insert_token
validate-deactivate_example =
    validate-deactivate hash 7 none none "abcd" sign (jwt_payload 20) "abc" 20 with_link
      {c = first_link} refl refl refl first_found refl

abbrev admin : User
admin = record {
  id = 70;
  email = "admin@venue.example";
  password_hash = "hashed";
  role = Role.venue_admin;
  venue_id = some 10;
  is_active = true;
}

abbrev with_admin : Store
with_admin = record tables { users = admin ∷ [] }

abbrev compare : String → String → Result Bool
compare password stored = ok (str_eq password "secret")
