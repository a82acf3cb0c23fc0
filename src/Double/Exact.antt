-- ===== src/Double/Exact.antt =====
-- Where the rounding of a quotient (Math.floor in src/ledger/ledger.service.ts) leaves no trace.
use native.Mathlib.Nat.{mul-le-mul_left, mul-le-mul_right, div-add-mod}
use splitcore.Base.{
  ℕ, zero, suc, ◌+◌, ◌*◌, ◌/◌, ◌%◌, ◌≤◌, ◌<◌, ◌≡◌, refl, ap, ◌⊎◌, inl, inr, true, false, arith,
  ◌==◌, ltb, Bool-cases,
}
use splitcore.Int.{pos, ltb_ℤ, pos-*ℤ}
use splitcore.Double.{two_53, half_even, scale_up, whole_of_double, times, floor_quotient}

-- The nearest natural number is the quotient, or the next one where the remainder is half or more.
half_even-cases :
    (n d : ℕ) → (half_even n d ≡ n / d) ⊎ ((half_even n d ≡ n / d + 1) × (d ≤ 2 * (n % d)))
half_even-cases n d = elim (Bool-cases (ltb (2 * (n % d)) d)) [
  | inl below ↦ inl (rw below refl)
  | inr above ↦ elim (Bool-cases (ltb d (2 * (n % d)))) [
    | inl over ↦ inr (rw (above, over) refl, ground arith)
    | inr tie ↦ elim (Bool-cases (n / d % 2 == 0)) [
      | inl even ↦ inl (rw (above, tie, even) refl)
      | inr odd ↦ inr (rw (above, tie, odd) refl, ground arith)
    ]
  ]
]

half_even-bounds : (n d : ℕ) → (n / d ≤ half_even n d) × (2 * (d * half_even n d) ≤ 2 * n + d)
half_even-bounds n d =
    let whole : d * (n / d) + n % d ≡ n = div-add-mod n d in
    elim (half_even-cases n d) [
      | inl e ↦ (omega (arith, e), rw e (omega (arith, whole)))
      | inr (e, h) ↦ (omega (arith, e), rw e (omega (arith, whole, h)))
    ]

scale_up-pos : (fuel n d : ℕ) → 1 ≤ scale_up fuel n d
unfolding scale_up
scale_up-pos zero n d = omega arith
scale_up-pos (suc fuel) n d = let rest = scale_up-pos fuel (2 * n) d in ground arith

scale_up-step :
    (fuel n d : ℕ) → 2 * n < two_53 * d → scale_up (suc fuel) n d ≡ 2 * scale_up fuel (2 * n) d
unfolding scale_up
scale_up-step fuel n d h = ground arith

by_order : (m n : ℕ) → (suc m ≤ n) ⊎ ((suc n ≤ m) ⊎ (m ≡ n))
by_order m n = elim (Bool-cases (ltb m n)) [
  | inl a ↦ inl (ground arith)
  | inr a ↦ elim (Bool-cases (ltb n m)) [
    | inl b ↦ inr (inl (ground arith))
    | inr b ↦ inr (inr (ground arith))
  ]
]

-- A quotient by its bounds.
quotient_unique : (a q x : ℕ) → q * x ≤ a → a < q * x + x → a / x ≡ q
quotient_unique a q x low high = elim (by_order (a / x) q) [
  | inl below ↦ absurd (omega (arith, by_unknown, mul-le-mul_right x below))
  | inr (inl above) ↦ absurd (omega (arith, by_unknown, mul-le-mul_right x above))
  | inr (inr same) ↦ same
]
  where
    by_unknown : (x * (a / x) + a % x ≡ a) × (a % x < x)
    by_unknown = (div-add-mod a x, omega (arith, low, high))

quotient_least : (k m d : ℕ) → 0 < d → k * d ≤ m → k ≤ m / d
quotient_least k m d h low = elim (Bool-cases (ltb (m / d) k)) [
  | inl above ↦
      let step : suc (m / d) ≤ k = ground arith in
      absurd (omega (arith, div-add-mod m d, mul-le-mul_right d step))
  | inr fine ↦ ground arith
]

-- Rounding to 53 bits does not reach the next whole number when the last place is finer than half of
-- 1 / d.
module _ (n d : ℕ) (positive : 0 < d) (fine : d < 2 * scale_up 66 n d) where
  parts : (d * (n / d) + n % d) * scale_up 66 n d ≡ n * scale_up 66 n d
  parts = ap (λ t. t * scale_up 66 n d) (div-add-mod n d)

  floor_low : n / d * scale_up 66 n d ≤ half_even (n * scale_up 66 n d) d
  floor_low =
      let x = scale_up 66 n d in
      let least = quotient_least (n / d * x) (n * x) d positive (omega (arith, parts)) in
      omega (arith, least, (half_even-bounds (n * x) d).0)

  floor_high : half_even (n * scale_up 66 n d) d < n / d * scale_up 66 n d + scale_up 66 n d
  floor_high =
      let x = scale_up 66 n d in
      let h = half_even (n * x) d in
      elim (Bool-cases (ltb h (n / d * x + x))) [
        | inl below ↦ ground arith
        | inr above ↦
            let reached : n / d * x + x ≤ h = ground arith in
            let rest : suc (n % d) ≤ d = omega arith in
            absurd (
              omega (
                arith,
                parts,
                (half_even-bounds (n * x) d).1,
                mul-le-mul_left d reached,
                mul-le-mul_right x rest,
                fine,
              ))
      ]

  whole_of_double-exact : n < two_53 * d → whole_of_double false n d ≡ n / d
  unfolding whole_of_double
  whole_of_double-exact small =
      let inside : ltb n (two_53 * d) ≡ true = ground (arith, small) in
      rw inside (quotient_unique _ (n / d) (scale_up 66 n d) floor_low floor_high)

doubled : ℕ → ℕ → ℕ
doubled zero n = n
doubled (suc j) n = doubled j (2 * n)

n-doubled : (j n : ℕ) → n ≤ doubled j n
unfolding doubled
n-doubled zero n = omega arith
n-doubled (suc j) n = omega (arith, n-doubled j (2 * n))

more : ℕ → ℕ → ℕ
more zero fuel = fuel
more (suc j) fuel = suc (more j fuel)

two_pow : ℕ → ℕ
two_pow zero = 1
two_pow (suc j) = 2 * two_pow j

-- Where j doublings stay below 2^53 * d, the scale is at least 2^j.
scale_up-doubled :
    (j fuel n d : ℕ) → doubled j n < two_53 * d → two_pow j ≤ scale_up (more j fuel) n d
unfolding doubled more two_pow
scale_up-doubled zero fuel n d h = scale_up-pos fuel n d
scale_up-doubled (suc j) fuel n d h =
    let once = scale_up-step (more j fuel) n d (omega (arith, n-doubled j (2 * n), h)) in
    omega (arith, once, scale_up-doubled j fuel (2 * n) d h)

pub times-exact : (a b : ℕ) → a * b < two_53 → times (pos a) (pos b) ≡ pos (a * b)
unfolding times
times-exact a b h =
    let whole : whole_of_double false (a * b + 0) 1 ≡ (a * b + 0) / 1 =
      whole_of_double-exact (a * b + 0) 1 (omega arith)
        (omega (arith, scale_up-pos 66 (a * b + 0) 1)) (omega (arith, h)) in
    let natural : ltb_ℤ (pos (a * b)) (pos 0) ≡ false = ground arith in
    rw pos-*ℤ (rw (natural, whole) (ap pos (omega arith)))

pub floor_quotient-exact : (n : ℕ) → n < two_53 → floor_quotient (pos n) 10000 ≡ pos (n / 10000)
unfolding floor_quotient doubled more two_pow
floor_quotient-exact n h =
    let scale : 8192 ≤ scale_up 66 n 10000 = scale_up-doubled 13 53 n 10000 (omega (arith, h)) in
    ap pos (whole_of_double-exact n 10000 (omega arith) (omega (arith, scale)) (omega (arith, h)))
