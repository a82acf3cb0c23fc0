-- ===== src/Result.antt =====
-- A value or a thrown exception, for the code that neither reads nor writes the store.
use splitcore.Base.{⊤, ◌≡◌, ◌⊎◌, inl, inr, refl, ap, Bool, if◌then◌else◌}

-- Why settlement stops for a person (SettlementIntegrityError).
pub data Mismatch : Type 0 where
  amount currency no_split_rule : Mismatch

-- The exception classes that the services throw. Their message texts are left out.
pub data Error : Type 0 where
  invalid_posting unbalanced_ledger : Error
  settlement_integrity : Mismatch → Error
  not_found bad_request conflict gone forbidden unauthorized : Error
  account_resolution : Error
  -- a rejected promise of a provider, the queue or the database
  external : Error

pub data Result {ℓ} (A : Type ℓ) : Type ℓ where
  ok : A → Result A
  err : Error → Result A

pub Result-cases {ℓ} :
    {A : Type ℓ} (r : Result A) → ((a : A) × (r ≡ ok a)) ⊎ ((e : Error) × (r ≡ err e))
Result-cases (ok a) = inl (a, refl)
Result-cases (err e) = inr (e, refl)

abbrev ok_or {ℓ} : {A : Type ℓ} → A → Result A → A
ok_or a (ok b) = b
ok_or a (err e) = a

pub ok-injective {ℓ} : {A : Type ℓ} (a b : A) → ok a ≡ ok b → a ≡ b
ok-injective a b e = ap (ok_or a) e

infixl 5 ◌>>=◌ ◌>>◌
abbrev pub ◌>>=◌ {ℓ κ} : {A : Type ℓ} {B : Type κ} → Result A → (A → Result B) → Result B
ok a >>= f = f a
err e >>= f = err e

abbrev pub ◌>>◌ {ℓ} : {B : Type ℓ} → Result ⊤ → Result B → Result B
m >> k = m >>= λ _. k

abbrev pub fail_if : Bool → Error → Result ⊤
fail_if c e = if c then err e else ok tt
