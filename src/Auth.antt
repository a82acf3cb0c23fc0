-- ===== src/Auth.antt =====
-- AuthService and JwtStrategy (src/auth/auth.service.ts, src/auth/strategies/jwt.strategy.ts): the
-- sign-in of a user, and whom the payload of a token stands for at a request. The comparison of a
-- password with its hash and the signature of a token are parameters; a payload is that of a token
-- which passport has verified.
pub mod SignIn
pub mod Lockout
use text.Mathlib.Text.{◌==◌ as str_eq}
use splitcore.Base.{⊤, ℕ, not, Bool, Option, none, some, List, String, ◌==◌, find_by, if◌then◌else◌}
use splitcore.Action.{
  Action, Result, ok, err, Error, ◌>>=◌, ◌>>◌, pure, throw, gets, lift, or_throw, throw_if,
}
use splitcore.Schema.{Role, User, Entertainer, Store}
use splitcore.Kyc.{has_id}

pub record JwtPayload : Type 0 where
  pub sub : ℕ
  pub email : String
  pub role : Role
  pub entertainer_id : Option ℕ

-- a user without the hash of the password
pub record SafeUser : Type 0 where
  pub id : ℕ
  pub email : String
  pub role : Role
  pub venue_id : Option ℕ
  pub is_active : Bool

-- What a request carries about its caller; `user_id` is there for users, `entertainer_id` for
-- entertainers.
pub record RequestUser : Type 0 where
  pub id : ℕ
  pub user_id : Option ℕ
  pub entertainer_id : Option ℕ
  pub email : Option String
  pub role : Role
  pub venue_id : Option ℕ

abbrev pub safe_user : User → SafeUser
safe_user u = record {
  id = u.id;
  email = u.email;
  role = u.role;
  venue_id = u.venue_id;
  is_active = u.is_active;
}

-- `!row || !row.isActive` refuses, for a user and for an entertainer
abbrev pub active_user : Option User → Result User
active_user none = err Error.unauthorized
active_user (some u) = if u.is_active then ok u else err Error.unauthorized

abbrev pub active_entertainer : Option Entertainer → Result Entertainer
active_entertainer none = err Error.unauthorized
active_entertainer (some e) = if e.is_active then ok e else err Error.unauthorized

unfoldable pub validate_user :
    (String → String → Result Bool) → String → String → Action Store SafeUser
validate_user compare email password = do
  found ← gets (λ s. find_by (λ u. str_eq u.email email) s.users)
  user ← lift (active_user found)
  matches ← lift (compare password user.password_hash)
  throw_if (not matches) Error.unauthorized
  pure (safe_user user)

abbrev pub payload_of : SafeUser → JwtPayload
payload_of user = record {
  sub = user.id;
  email = user.email;
  role = user.role;
  entertainer_id = none;
}

abbrev pub login : (JwtPayload → Result String) → SafeUser → Result String
login sign user = sign (payload_of user)

-- `payload.entertainerId ?? payload.sub`
abbrev pub or_sub : Option ℕ → ℕ → ℕ
or_sub none sub = sub
or_sub (some id) sub = id

abbrev pub entertainer_request : Entertainer → RequestUser
entertainer_request e = record {
  id = e.id;
  user_id = none;
  entertainer_id = some e.id;
  email = none;
  role = Role.entertainer;
  venue_id = none;
}

abbrev pub user_request : User → RequestUser
user_request u = record {
  id = u.id;
  user_id = some u.id;
  entertainer_id = none;
  email = some u.email;
  role = u.role;
  venue_id = u.venue_id;
}

abbrev pub validate_entertainer : ℕ → Action Store RequestUser
validate_entertainer id = do
  found ← gets (λ s. find_by (has_id id) s.entertainers)
  e ← lift (active_entertainer found)
  pure (entertainer_request e)

abbrev pub validate_signed_in : ℕ → Action Store RequestUser
validate_signed_in id = do
  found ← gets (λ s. find_by (λ u. u.id == id) s.users)
  user ← lift (active_user found)
  pure (user_request user)

abbrev pub validate_role : Role → JwtPayload → Action Store RequestUser
validate_role Role.entertainer payload =
    validate_entertainer (or_sub payload.entertainer_id payload.sub)
validate_role _ payload = validate_signed_in payload.sub

unfoldable pub validate : JwtPayload → Action Store RequestUser
validate payload = validate_role payload.role payload
