-- ===== src/Double.antt =====
-- JavaScript's numbers, as far as the rounding of a quotient goes (Math.floor of a product over 10000
-- in src/ledger/ledger.service.ts): a double has 53 bits, and the nearest one is taken, the even one
-- of two. The fuel is enough for dividends and divisors below 2^106 and 2^14.
pub mod Exact
use splitcore.Base.{
  ℕ, zero, suc, ◌+◌, ◌-◌, ◌*◌, ◌/◌, ◌%◌, Bool, true, false, ◌==◌, ltb, leb, if◌then◌else◌,
}
use splitcore.Int.{ℤ, pos, negsuc, pos_part, neg_part, ◌-ℤ◌, ◌*ℤ◌, ltb_ℤ}

-- 2^53, below which every natural number is a double
abbrev pub two_53 : ℕ
two_53 = 9007199254740992

-- the natural number nearest to n / d, the even one of two
abbrev pub half_even : ℕ → ℕ → ℕ
half_even n d =
    let q = n / d in
    if ltb (2 * (n % d)) d
    then q
    else if ltb d (2 * (n % d))
    then q + 1
    else if q % 2 == 0
    then q
    else q + 1

-- the power of two that brings n / d to 53 bits from below
unfoldable pub scale_up : ℕ → ℕ → ℕ → ℕ
scale_up zero n d = 1
scale_up (suc fuel) n d =
    let rest = scale_up fuel (2 * n) d in if leb (two_53 * d) (2 * n) then 1 else 2 * rest

-- the power of two that brings n / d to 53 bits from above
unfoldable pub scale_down : ℕ → ℕ → ℕ → ℕ
scale_down zero n d = 1
scale_down (suc fuel) n d =
    let rest = scale_down fuel n (2 * d) in if ltb n (two_53 * d) then 1 else 2 * rest

-- A double is `mantissa / scale`, or a multiple of a power of two; its floor, and its ceiling.
abbrev pub whole_part : Bool → ℕ → ℕ → ℕ
whole_part false mantissa scale = mantissa / scale
whole_part true mantissa scale = (mantissa + (scale - 1)) / scale

-- The floor, or the ceiling, of the double nearest to n / d.
unfoldable pub whole_of_double : Bool → ℕ → ℕ → ℕ
whole_of_double up n d =
    if ltb n (two_53 * d)
    then whole_part up (half_even (n * scale_up 66 n d) d) (scale_up 66 n d)
    else half_even n (d * scale_down 64 n d) * scale_down 64 n d

-- the product of two integers, as a double
unfoldable pub times : ℤ → ℤ → ℤ
times a b =
    let n = whole_of_double false (pos_part (a *ℤ b) + neg_part (a *ℤ b)) 1 in
    if ltb_ℤ (a *ℤ b) (pos 0) then pos 0 -ℤ pos n else pos n

-- `Math.floor(a / d)` for an integer `a` and a positive number `d`
unfoldable pub floor_quotient : ℤ → ℕ → ℤ
floor_quotient (pos n) d = pos (whole_of_double false n d)
floor_quotient (negsuc n) d = pos 0 -ℤ pos (whole_of_double true (suc n) d)
