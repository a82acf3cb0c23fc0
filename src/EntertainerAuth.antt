-- ===== src/EntertainerAuth.antt =====
-- EntertainerAuthService (src/entertainer-auth/entertainer-auth.service.ts): one-time links. The
-- random token, its hash, the clock, the settings and the signature of a session are parameters.
pub mod Redeemed
pub mod Links
use Prim.Native.Char.{code}
use Prim.Native.String.{String, ◌++◌ as append}
use splitcore.Base.{
  ⊤, ℕ, suc, ◌+◌, ◌*◌, ◌&&◌, not, Bool, true, false, Option, none, some, List, [], ◌∷◌, ◌==◌, ltb,
  is_some, find_by, any_by, update_by, count_by, if◌then◌else◌,
}
use splitcore.Action.{
  Action, Result, ok, err, Error, ◌>>=◌, ◌>>◌, pure, throw, gets, lift, or_throw, throw_if, modify,
}
use splitcore.Schema.{Role, Entertainer, EntertainerLoginToken, Store}
use splitcore.Names.{Text, chars, string_of, is_empty}
use splitcore.Auth.{JwtPayload}
use splitcore.Kyc.{has_id}

abbrev pub link_ttl_minutes : ℕ
link_ttl_minutes = 30

pub record IssuedLoginLink : Type 0 where
  pub login_url : String
  pub token : String
  pub expires_at : ℕ

pub record Session : Type 0 where
  pub access_token : String
  pub entertainer_id : ℕ
  pub stage_name : String

-- `replace(/\/+$/, '')`
abbrev pub trim_slashes : Text → Text
trim_slashes [] = []
trim_slashes (c ∷ s) =
    let rest = trim_slashes s in if code c == 47 && is_empty rest then [] else c ∷ rest

abbrev pub or_setting : Option String → Option String → String
or_setting none none = "http://localhost:3000"
or_setting none (some url) = url
or_setting (some url) _ = url

unfoldable pub build_login_url : Option String → Option String → String → String
build_login_url frontend_url app_url token =
    append (string_of (trim_slashes (chars (or_setting frontend_url app_url))))
      (append "/entertainer/login/" token)

abbrev pub is_open_of : ℕ → EntertainerLoginToken → Bool
is_open_of id t = t.entertainer_id == id && not (is_some t.consumed_at)

abbrev pub with_consumed : ℕ → EntertainerLoginToken → EntertainerLoginToken
with_consumed now t = record t { consumed_at = some now }

abbrev pub supersede : ℕ → ℕ → Store → Store
supersede now id s = record s {
  login_tokens = update_by (is_open_of id) (with_consumed now) s.login_tokens;
}

abbrev pub new_token : ℕ → ℕ → ℕ → ℕ → ℕ → EntertainerLoginToken
new_token entertainer hash expires now id = record {
  id = id;
  entertainer_id = entertainer;
  token_hash = hash;
  expires_at = expires;
  consumed_at = none;
  created_at = now;
}

-- `entertainerLoginToken.create`, which the unique column may refuse
unfoldable pub insert_token : ℕ → ℕ → ℕ → ℕ → Action Store ⊤
insert_token entertainer hash expires now s =
    if any_by (λ t. t.token_hash == hash) s.login_tokens then (err Error.external, s) else (
      ok tt,
      record s {
        login_tokens = new_token entertainer hash expires now s.next_id ∷ s.login_tokens;
        next_id = suc s.next_id;
      },
    )

abbrev pub is_claimable : ℕ → EntertainerLoginToken → Bool
is_claimable id t = t.id == id && not (is_some t.consumed_at)

abbrev pub jwt_payload : ℕ → JwtPayload
jwt_payload entertainer = record {
  sub = entertainer;
  email = "";
  role = Role.entertainer;
  entertainer_id = some entertainer;
}

module _ (hash_token : String → ℕ) (now : ℕ) where
  unfoldable pub issue_login_link :
      Option String → Option String → String → ℕ → Action Store IssuedLoginLink
  issue_login_link frontend_url app_url token id = do
    found ← gets (λ s. find_by (has_id id) s.entertainers)
    e ← or_throw Error.not_found found
    throw_if (not e.is_active) Error.unauthorized
    modify (supersede now id)
    insert_token id (hash_token token) (now + link_ttl_minutes * 60_000) now
    pure (record {
      login_url = build_login_url frontend_url app_url token;
      token = token;
      expires_at = now + link_ttl_minutes * 60_000;
    })

  -- the updateMany with the consumedAt guard
  unfoldable pub claim_token : ℕ → Action Store ℕ
  claim_token id s = (
    ok (count_by (is_claimable id) s.login_tokens),
    record s { login_tokens = update_by (is_claimable id) (with_consumed now) s.login_tokens },
  )

  unfoldable pub redeem : (JwtPayload → Result String) → String → Action Store Session
  redeem sign token = do
    found ← gets (λ s. find_by (λ t. t.token_hash == hash_token token) s.login_tokens)
    candidate ← or_throw Error.unauthorized found
    found_entertainer ← gets (λ s. find_by (has_id candidate.entertainer_id) s.entertainers)
    e ← or_throw Error.external found_entertainer
    throw_if (not (hash_token token == candidate.token_hash)) Error.unauthorized
    throw_if (is_some candidate.consumed_at) Error.unauthorized
    throw_if (ltb candidate.expires_at now) Error.unauthorized
    throw_if (not e.is_active) Error.unauthorized
    count ← claim_token candidate.id
    throw_if (count == 0) Error.unauthorized
    access_token ← lift (sign (jwt_payload candidate.entertainer_id))
    pure (record {
      access_token = access_token;
      entertainer_id = candidate.entertainer_id;
      stage_name = e.stage_name;
    })
