-- ===== src/Action/Keeps.antt =====
-- Rules for a property of the store that a method keeps, whatever it returns or throws.
use splitcore.Base.{◌≡◌, refl, Bool, true, false, Option, none, some, if◌then◌else◌}
use splitcore.Result.{Error, Result, ok, err}
use splitcore.Action.{
  Action, bind_result, ◌>>=◌, pure, throw, gets, lift, or_throw, settle_result, transaction,
}

pub record Keeps {S : Type 0} (P : S → Type 0) {A : Type 0} (m : Action S A) : Type 0 where
  pub run : (s : S) → P s → P (m s).1

settle_result-Keeps :
    {S A : Type 0} (P : S → Type 0) (before : S) (r : Result A) (after : S)
    → P before
    → P after
    → P (settle_result before (r, after)).1
settle_result-Keeps P before (ok a) after p q = q
settle_result-Keeps P before (err e) after p q = p

module _ {S : Type 0} {P : S → Type 0} where
  bind_result-Keeps :
      {A B : Type 0} (f : A → Action S B) (r : Result A)
      → ((a : A) → r ≡ ok a → Keeps P (f a))
      → (s : S) → P s
      → P (bind_result f r s).1
  bind_result-Keeps f (ok a) h s p = (h a refl).run s p
  bind_result-Keeps f (err e) h s p = p

  pub bind-Keeps :
      {A B : Type 0} {m : Action S A} {f : A → Action S B}
      → Keeps P m
      → ((a : A) → Keeps P (f a))
      → Keeps P (m >>= f)
  bind-Keeps {m} {f} hm hf = record {
    run = λ s p. bind_result-Keeps f (m s).0 (λ a _. hf a) (m s).1 (hm.run s p);
  }

  pub pure-Keeps : {A : Type 0} {a : A} → Keeps P (pure a)
  pure-Keeps = record { run = λ s p. p }

  pub throw-Keeps : {A : Type 0} {e : Error} → Keeps P (throw {A = A} e)
  throw-Keeps = record { run = λ s p. p }

  -- a value that was computed: what follows may use where it came from
  pub lift-Keeps :
      {A B : Type 0} {r : Result A} {f : A → Action S B}
      → ((a : A) → r ≡ ok a → Keeps P (f a))
      → Keeps P (lift r >>= f)
  lift-Keeps {r} {f} h = record { run = λ s p. bind_result-Keeps f r h s p }

  pub gets-Keeps :
      {A B : Type 0} {g : S → A} {f : A → Action S B}
      → ((a : A) → Keeps P (f a))
      → Keeps P (gets g >>= f)
  gets-Keeps {g} {f} h = record { run = λ s p. (h (g s)).run s p }

  pub if_Keeps :
      {A : Type 0} {c : Bool} {m k : Action S A}
      → (c ≡ true → Keeps P m)
      → (c ≡ false → Keeps P k)
      → Keeps P (if c then m else k)
  if_Keeps {c = true} h h' = h refl
  if_Keeps {c = false} h h' = h' refl

  pub transaction-Keeps : {A : Type 0} {m : Action S A} → Keeps P m → Keeps P (transaction m)
  transaction-Keeps {m} h = record {
    run = λ s p. settle_result-Keeps P s (m s).0 (m s).1 p (h.run s p);
  }

  pub or_throw_same : {A : Type 0} (e : Error) (o : Option A) → Keeps P (or_throw e o)
  or_throw_same e none = record { run = λ s p. p }
  or_throw_same e (some a) = record { run = λ s p. p }

-- The rule of a transaction for one call, whose body keeps the property where it is run.
pub transaction_run :
    {S A : Type 0} (P : S → Type 0) (m : Action S A) (s : S)
    → P s
    → P (m s).1
    → P (transaction m s).1
transaction_run P m s p q = settle_result-Keeps P s (m s).0 (m s).1 p q

pub bind_run :
    {S A B : Type 0} (P : S → Type 0) (m : Action S A) (f : A → Action S B) (s : S)
    → P (m s).1
    → ((a : A) → Keeps P (f a))
    → P ((m >>= f) s).1
bind_run P m f s p h = bind_result-Keeps f (m s).0 (λ a _. h a) (m s).1 p

settle_result-ok :
    {S A : Type 0} (P : S → Type 0) (before : S) (r : Result A) (after : S) {a : A}
    → P after
    → (settle_result before (r, after)).0 ≡ ok a
    → P (settle_result before (r, after)).1
settle_result-ok P before (ok x) after p h = p
settle_result-ok P before (err e) after p h = cc

-- A transaction that returns has the state that its body left.
pub settled-run :
    {S A : Type 0} (P : S → Type 0) (m : Action S A) (s : S) {a : A}
    → P (m s).1
    → (transaction m s).0 ≡ ok a
    → P (transaction m s).1
settled-run P m s p h = settle_result-ok P s (m s).0 (m s).1 p h
