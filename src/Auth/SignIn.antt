-- ===== src/Auth/SignIn.antt =====
-- A user's sign-in and the requests after it (src/auth/auth.service.ts,
-- src/auth/strategies/jwt.strategy.ts).
use text.Mathlib.Text.{◌==◌ as str_eq}
use splitcore.Base.{◌≡◌, Bool, true, some, String, ◌==◌, find_by}
use splitcore.Action.{Result, ok}
use splitcore.Schema.{User, Store}
use splitcore.Auth.{SafeUser, safe_user}

-- the row of a user who signs in
record SignedIn (compare : String → String → Result Bool) (email password : String) (s : Store)
    (v : SafeUser) : Type 0 where
  pub row : User
  pub found : find_by (λ (u : User). str_eq u.email email) s.users ≡ some row
  pub active : row.is_active ≡ true
  pub matches : compare password row.password_hash ≡ ok true
  pub is_row : v ≡ safe_user row
