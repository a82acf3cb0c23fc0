-- ===== src/Base/Keyed.antt =====
-- Tables whose rows have a unique number: the update of one row, and the lookups after it.
use Prim.Native.Nat.{ℕ}
use mathlib.Core.Path.{◌≡◌, refl, sym, ◌∙◌, ap, subst}
use mathlib.Core.Logic.{inl, inr}
use mathlib.Core.Bool.{Bool, true, false}
use mathlib.Core.Option.{some, some-injective}
use mathlib.Core.List.{List, [], ◌∷◌}
use native.Mathlib.Omega.{arith}
use splitcore.Base.Tests.{◌==◌, ==_iff, Bool-cases, if◌then◌else◌}
use splitcore.Base.Lists.{find_by, any_by, set_first, update_by, All}

module _ {ℓ κ} {A : Type ℓ} (P : A → Type κ) (p : A → Bool) (f : A → A) where
  -- Only the row that is found is changed.
  pub All-set_first :
      (xs : List A) {x : A}
      → find_by p xs ≡ some x
      → All P xs
      → (P x → P (f x))
      → All P (set_first p f xs)
  All-set_first [] h all keep = tt
  All-set_first (y ∷ ys) {x} h (py, rest) keep = elim (Bool-cases (p y)) [
    | inl a ↦ rw a (subst (λ z. P (f z)) (sym (found a)) (keep (subst P (found a) py)), rest)
    | inr a ↦ rw a (py, All-set_first ys (rw a at h) rest keep)
  ]
    where
      found : p y ≡ true → y ≡ x
      found a = some-injective y x (rw a at h)

module _ {ℓ} {A : Type ℓ} (key : A → ℕ) where
  pub find_by-key :
      (k : ℕ) (xs : List A) {x : A} → find_by (λ a. key a == k) xs ≡ some x → key x ≡ k
  find_by-key k [] h = absurd (cc (h))
  find_by-key k (y ∷ ys) {x} h = elim (Bool-cases (key y == k)) [
    | inl a ↦ ap key (sym (some-injective y x (rw a at h))) ∙ (==_iff (key y) k).0 a
    | inr a ↦ find_by-key k ys (rw a at h)
  ]

  -- The row with the number is the changed one; rows with other numbers are as they were.
  pub find_by-set_first :
      (k id : ℕ) (f : A → A) (xs : List A) {x : A}
      → find_by (λ a. key a == id) xs ≡ some x
      → key (f x) ≡ key x
      → find_by (λ a. key a == k) (set_first (λ a. key a == id) f xs)
        ≡ (if k == id then some (f x) else find_by (λ a. key a == k) xs)
  find_by-set_first k id f [] h same = absurd (cc (h))
  find_by-set_first k id f (y ∷ ys) {x} h same = elim (Bool-cases (key y == id)) [
    | inl a ↦
        let e : y ≡ x = some-injective y x (rw a at h) in
        let i : key y ≡ id = (==_iff (key y) id).0 a in
        let j : key (f y) ≡ id = rw e (same ∙ ap key (sym e) ∙ i) in
        elim (Bool-cases (k == id)) [
          | inl b ↦
              let c : (key (f y) == k) ≡ true = ground (arith, j, b) in
              rw (a, b) (rw c (ap (λ z. some (f z)) e))
          | inr b ↦
              let c : (key (f y) == k) ≡ false = ground (arith, j, b) in
              let d : (key y == k) ≡ false = ground (arith, i, b) in rw (a, b) (rw (c, d) refl)
        ]
    | inr a ↦ elim (Bool-cases (k == id)) [
      | inl b ↦
          let d : (key y == k) ≡ false = ground (arith, a, b) in
          rw (a, b) (rw d (find_by-set_first k id f ys (rw a at h) same ∙ rw b refl))
      | inr b ↦
          rw (a, b)
            (ap (λ z. if key y == k then some y else z)
              (find_by-set_first k id f ys (rw a at h) same ∙ rw b refl))
    ]
  ]

  -- A row looked up after `updateMany` is the changed one where the test holds.
  pub find_by-update_by :
      (k : ℕ) (p : A → Bool) (f : A → A) (xs : List A) {x : A}
      → ((y : A) → key (f y) ≡ key y)
      → find_by (λ a. key a == k) xs ≡ some x
      → find_by (λ a. key a == k) (update_by p f xs) ≡ some (if p x then f x else x)
  find_by-update_by k p f [] same h = absurd (cc (h))
  find_by-update_by k p f (y ∷ ys) {x} same h = elim (Bool-cases (key y == k)) [
    | inl a ↦
        let e : y ≡ x = some-injective y x (rw a at h) in
        rw (head_key a) (ap (λ z. some (if p z then f z else z)) e)
    | inr a ↦ rw (head_key_not a) (find_by-update_by k p f ys same (rw a at h))
  ]
    where
      key_head : key (if p y then f y else y) ≡ key y
      key_head = elim (Bool-cases (p y)) [ inl b ↦ rw b (same y) | inr b ↦ rw b refl ]

      head_key : (key y == k) ≡ true → (key (if p y then f y else y) == k) ≡ true
      head_key a = rw key_head a

      head_key_not : (key y == k) ≡ false → (key (if p y then f y else y) == k) ≡ false
      head_key_not a = rw key_head a

module _ {ℓ} {A : Type ℓ} where
  pub find_by_holds : (p : A → Bool) (xs : List A) {x : A} → find_by p xs ≡ some x → p x ≡ true
  find_by_holds p [] h = absurd (cc (h))
  find_by_holds p (y ∷ ys) {x} h = elim (Bool-cases (p y)) [
    | inl a ↦ sym (ap p (some-injective y x (rw a at h))) ∙ a
    | inr a ↦ find_by_holds p ys (rw a at h)
  ]

  -- A row found by a test that the update of it keeps is found, changed, by that test.
  pub find_by-set_first_same :
      (p q : A → Bool) (f : A → A) (xs : List A) {x : A}
      → ((y : A) → q (f y) ≡ q y)
      → find_by p xs ≡ some x
      → find_by q xs ≡ some x
      → find_by q (set_first p f xs) ≡ some (f x)
  find_by-set_first_same p q f [] same h h' = absurd (cc (h))
  find_by-set_first_same p q f (y ∷ ys) {x} same h h' = elim (Bool-cases (p y)) [
    | inl a ↦
        let e : y ≡ x = some-injective y x (rw a at h) in
        rw a (rw (same y ∙ ap q e ∙ find_by_holds q (y ∷ ys) h') (ap (λ z. some (f z)) e))
    | inr a ↦ elim (Bool-cases (q y)) [
      | inl b ↦
          let e : y ≡ x = some-injective y x (rw b at h') in
          absurd (cc (a, ap p e, find_by_holds p (y ∷ ys) h))
      | inr b ↦ rw a (rw b (find_by-set_first_same p q f ys same (rw a at h) (rw b at h')))
    ]
  ]

  pub any_by-none :
      (p q : A → Bool) (xs : List A) {x : A}
      → any_by p xs ≡ false
      → find_by q xs ≡ some x
      → p x ≡ false
  any_by-none p q [] none_such h = absurd (cc (h))
  any_by-none p q (y ∷ ys) {x} none_such h = elim (Bool-cases (p y)) [
    | inl a ↦ absurd (cc (rw a at none_such))
    | inr a ↦ elim (Bool-cases (q y)) [
      | inl b ↦ sym (ap p (some-injective y x (rw b at h))) ∙ a
      | inr b ↦ any_by-none p q ys (rw a at none_such) (rw b at h)
    ]
  ]
