-- ===== src/Tests/Visits.antt =====
-- Runs of a guest's visit, of the sign-in of an entertainer and of the guards (src/guest,
-- src/qr-codes, src/entertainer-auth, src/common/guards).
use Prim.Native.String.{len}
use splitcore.Base.{ℕ, ◌≡◌, refl, true, none, some, arith, String, find_by, ◌==◌}
use splitcore.Action.{Result, ok, err, Error}
use splitcore.Schema.{Role, QrCode, Entertainer, EntertainerLoginToken, Store}
use splitcore.SplitRules.{find_active_by_venue}
use splitcore.Payments.{PaymentInitResponse, InitializePaymentDto, initialize_payment}
use splitcore.QrCodes.{has_token, same_place, insert_code, regenerate_code}
use splitcore.Guest.{create_session, resolve_qr_code}
use splitcore.Guest.Visits.{resolve_qr_code-regenerate_code, initialize_payment-resolve_qr_code}
use splitcore.Kyc.{has_id}
use splitcore.EntertainerAuth.{build_login_url, insert_token, claim_token, issue_login_link, redeem}
use splitcore.EntertainerAuth.Links.{redeem-once, redeem-superseded, redeem-issue_login_link}
use splitcore.Auth.{JwtPayload, RequestUser}
use splitcore.Guards.{venue_scoped_can_activate, entertainer_scoped_can_activate}
use splitcore.Guards.Access.{MayEnter, MayAct, Decides, can_activate-Decides}
use splitcore.Tests.{rule, tables, world, dto}

-- the code of `tables`, and its copy with another token
abbrev code : QrCode
code = record {
  id = 60;
  public_token = 61;
  venue_id = 10;
  entertainer_id = some 20;
  location = "Table 4";
  is_active = true;
  deactivated_at = none;
}

abbrev next_code : QrCode
next_code = record code { id = 0; public_token = 62 }

regenerated : (regenerate_code 5 62 60 tables).0 ≡ ok next_code
unfolding regenerate_code insert_code
regenerated = refl

resolve_qr_code-regenerate_code_example :
    (resolve_qr_code 6 61 (regenerate_code 5 62 60 tables).1
      ≡ (err Error.gone, (regenerate_code 5 62 60 tables).1))
    × (find_by (has_token 62) (regenerate_code 5 62 60 tables).1.qr_codes ≡ some next_code)
    × (next_code.is_active ≡ true)
    × (same_place next_code ≡ same_place code)
resolve_qr_code-regenerate_code_example =
    resolve_qr_code-regenerate_code 5 6 62 60 tables {q = code} {q' = next_code} refl refl
      regenerated

abbrev first_visit : InitializePaymentDto
first_visit = record dto { session_id = 0 }

scanned :
    (resolve_qr_code 5 61 tables).0
    ≡ ok (record {
      venue = record { id = 10; name = "Quilox"; logo_url = none; location = "Lagos" };
      entertainer = some (record { id = 20; stage_name = "DJ" });
      location = "Table 4";
      session_id = 0;
      expires_at = 86_400_005;
    })
unfolding resolve_qr_code create_session
scanned = refl

active : find_active_by_venue 10 tables ≡ some rule
unfolding find_active_by_venue
active = refl

initialize_payment-resolve_qr_code_example :
    (t : PaymentInitResponse) × ((initialize_payment world.frontend_url world.callback_url
        world.url_of world.initialize 1000 first_visit 1
        (resolve_qr_code 5 61 tables).1).0
      ≡ ok t)
initialize_payment-resolve_qr_code_example =
    initialize_payment-resolve_qr_code world.frontend_url world.callback_url world.url_of
      world.initialize 1000 5 61 first_visit 1 tables {q = code} {rule = rule} (λ p. (_, refl))
      scanned refl refl refl active refl (omega arith) (omega arith) (omega arith) refl

-- A link for the entertainer, with a hash that is the length of a token.
abbrev pub hash : String → ℕ
hash token = len token

abbrev pub sign : JwtPayload → Result String
sign payload = ok "jwt"

abbrev pub with_link : Store
with_link = (issue_login_link hash 5 none none "abc" 20 tables).1

issued :
    (issue_login_link hash 5 none none "abc" 20 tables).0
    ≡ ok (record {
      login_url = "http://localhost:3000/entertainer/login/abc";
      token = "abc";
      expires_at = 1_800_005;
    })
unfolding issue_login_link insert_token build_login_url
issued = refl

pub redeemed :
    (redeem hash 6 sign "abc" with_link).0
    ≡ ok (record { access_token = "jwt"; entertainer_id = 20; stage_name = "DJ" })
unfolding issue_login_link insert_token redeem claim_token
redeemed = refl

redeem-once_example :
    redeem hash 7 sign "abc" (redeem hash 6 sign "abc" with_link).1
    ≡ (err Error.unauthorized, (redeem hash 6 sign "abc" with_link).1)
redeem-once_example = redeem-once hash 6 7 sign sign "abc" with_link redeemed

redeem-issue_login_link_example :
    (e : Entertainer) × (find_by (has_id 20) tables.entertainers ≡ some e)
    × ((redeem hash 6 sign "abc" with_link).0
        ≡ ok (record { access_token = "jwt"; entertainer_id = 20; stage_name = e.stage_name }))
redeem-issue_login_link_example =
    redeem-issue_login_link hash 5 6 none none "abc" 20 tables sign issued (omega arith) refl

issued_again :
    (issue_login_link hash 6 none none "abcd" 20 with_link).0
    ≡ ok (record {
      login_url = "http://localhost:3000/entertainer/login/abcd";
      token = "abcd";
      expires_at = 1_800_006;
    })
unfolding issue_login_link insert_token build_login_url
issued_again = refl

abbrev pub first_link : EntertainerLoginToken
first_link = record {
  id = 0;
  entertainer_id = 20;
  token_hash = 3;
  expires_at = 1_800_005;
  consumed_at = none;
  created_at = 5;
}

pub first_found :
    find_by (λ (t : EntertainerLoginToken). t.token_hash == 3) with_link.login_tokens
    ≡ some first_link
unfolding issue_login_link insert_token
first_found = refl

redeem-superseded_example :
    redeem hash 7 sign "abc" (issue_login_link hash 6 none none "abcd" 20 with_link).1
    ≡ (err Error.unauthorized, (issue_login_link hash 6 none none "abcd" 20 with_link).1)
redeem-superseded_example =
    redeem-superseded hash 6 7 none none "abcd" 20 with_link sign "abc" {c = first_link}
      issued_again first_found refl

abbrev admin : RequestUser
admin = record {
  id = 70;
  user_id = some 70;
  entertainer_id = none;
  email = some "admin@venue.example";
  role = Role.venue_admin;
  venue_id = some 10;
}

can_activate-Decides_example :
    Decides (venue_scoped_can_activate true admin (some 11) none) (MayEnter admin (some 11))
    × Decides
        (entertainer_scoped_can_activate true (some admin) (some 20) none tables)
        (MayAct tables (some admin) (some 20))
can_activate-Decides_example =
    can_activate-Decides admin (some 11) none (some admin) (some 20) none tables
