-- ===== src/Action.antt =====
-- A service method: it reads and writes the store, and returns or throws. What was written before
-- a throw stays written, except inside `prisma.$transaction`, which restores the store.
pub mod Keeps
pub use splitcore.Result.{Mismatch, Error, Result, ok, err, Result-cases}
use splitcore.Base.{⊤, Bool, Option, none, some, if◌then◌else◌}

abbrev pub Action : Type 0 → Type 0 → Type 0
Action S A = S → Result A × S

abbrev pub bind_result : {S A B : Type 0} → (A → Action S B) → Result A → Action S B
bind_result f (ok a) s = f a s
bind_result f (err e) s = (err e, s)

infixl 5 ◌>>=◌ ◌>>◌
abbrev pub ◌>>=◌ : {S A B : Type 0} → Action S A → (A → Action S B) → Action S B
◌>>=◌ m f s = let (r, s') = m s in bind_result f r s'

abbrev pub ◌>>◌ : {S A B : Type 0} → Action S A → Action S B → Action S B
m >> k = m >>= λ _. k

module _ {S A : Type 0} where
  abbrev pub pure : A → Action S A
  pure a s = (ok a, s)

  abbrev pub throw : Error → Action S A
  throw e s = (err e, s)

  abbrev pub gets : (S → A) → Action S A
  gets f s = (ok (f s), s)

  -- a value that may be a throw, such as a call of a provider
  abbrev pub lift : Result A → Action S A
  lift r s = (r, s)

  abbrev pub or_throw : Error → Option A → Action S A
  or_throw e none = throw e
  or_throw e (some a) = pure a

  abbrev pub settle_result : S → Result A × S → Result A × S
  settle_result before (ok a, after) = (ok a, after)
  settle_result before (err e, after) = (err e, before)

  -- `prisma.$transaction`: all of its writes, or none
  abbrev pub transaction : Action S A → Action S A
  transaction m s = settle_result s (m s)

module _ {S : Type 0} where
  abbrev pub modify : (S → S) → Action S ⊤
  modify f s = (ok tt, f s)

  abbrev pub throw_if : Bool → Error → Action S ⊤
  throw_if c e s = (if c then err e else ok tt, s)
