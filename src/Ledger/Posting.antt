-- ===== src/Ledger/Posting.antt =====
-- What LedgerService (src/ledger/ledger.service.ts) posts for a payment, a payout and a reversal.
use splitcore.Base.{
  ℕ, ◌+◌, ◌*◌, ◌/◌, ◌≤◌, ◌<◌, ◌≡◌, ◌↔◌, ◌∙◌, sym, inl, inr, arith, ap, Option-cases, Bool-cases,
  not, ◌||◌, true,
}
use splitcore.Int.{
  ℤ, pos, pos_part, neg_part, ◌+ℤ◌, ◌-ℤ◌, ◌≤ℤ◌, leb_ℤ, int_laws, eq_ℤ_iff, pos-pos_part,
  neg_part_nonneg,
}
use native.Mathlib.Nat.{mul-le-mul}
use splitcore.Double.{two_53, times, floor_quotient}
use splitcore.Double.Exact.{times-exact, floor_quotient-exact}
use splitcore.Result.{ok}
use splitcore.Ledger.{
  PaymentForPosting, SplitForPosting, max_safe_integer, is_safe_integer, basis_points_total,
  apply_basis_points, assert_valid_split, entertainer_share, venue_share,
}

-- A split that may divide money: shares of zero or more that sum to 10000 basis points.
pub record IsSplit (s : SplitForPosting) : Type 0 where
  pub entertainer : pos 0 ≤ℤ s.entertainer_bps
  pub venue : pos 0 ≤ℤ s.venue_bps
  pub platform : pos 0 ≤ℤ s.platform_bps
  pub total : s.entertainer_bps +ℤ s.venue_bps +ℤ s.platform_bps ≡ pos basis_points_total

-- A gross amount that may be posted.
abbrev pub IsGross : ℤ → Type 0
IsGross a = (pos 1 ≤ℤ a) × (pos_part a + neg_part a ≤ max_safe_integer)

pub gross_test : (a : ℤ) → ¬ (IsGross a) → (not (is_safe_integer a) || leb_ℤ a (pos 0)) ≡ true
gross_test a bad = elim (Bool-cases (not (is_safe_integer a) || leb_ℤ a (pos 0))) [
  | inl e ↦ e
  | inr e ↦ absurd (bad (ground arith, ground arith))
]

pub assert_valid_split_iff : (s : SplitForPosting) → (assert_valid_split s ≡ ok tt) ↔ IsSplit s
unfolding assert_valid_split
assert_valid_split_iff s = (
  λ h. record {
    entertainer = ground arith;
    venue = ground arith;
    platform = ground arith;
    total =
        ground (arith, eq_ℤ_iff (s.entertainer_bps +ℤ s.venue_bps +ℤ s.platform_bps) (pos 10000));
  },
  λ v.
      ground
        (arith, eq_ℤ_iff (s.entertainer_bps +ℤ s.venue_bps +ℤ s.platform_bps) (pos 10000), v.total),
)

-- The amounts whose products with basis points are below 2^53, so that no double is rounded: up to
-- 900719925474 kobo, more than the 32 bits of the column hold.
abbrev pub IsExact : ℤ → Type 0
IsExact a = (pos 1 ≤ℤ a) × (pos_part a ≤ 900719925474)

pub IsExact-IsGross : (a : ℤ) → IsExact a → IsGross a
IsExact-IsGross a (low, high) = (low, omega (arith, neg_part_nonneg a (omega (arith, low))))

-- On amounts of zero or more a share is the quotient of numbers, as long as their product is a double.
pub apply_basis_points_nonneg :
    (a b : ℤ)
    → pos 0 ≤ℤ a
    → pos 0 ≤ℤ b
    → pos_part a * pos_part b < two_53
    → apply_basis_points a b ≡ pos (pos_part a * pos_part b / 10000)
unfolding apply_basis_points
apply_basis_points_nonneg a b h k small =
    ap (λ x. floor_quotient x 10000)
      (ap (λ x. times x b) (sym (pos-pos_part a h))
        ∙ ap (λ x. times (pos (pos_part a)) x) (sym (pos-pos_part b k))
        ∙ times-exact (pos_part a) (pos_part b) small)
    ∙ floor_quotient-exact (pos_part a * pos_part b) small

-- A product with basis points is a double.
small_product : (g b : ℕ) → g ≤ 900719925474 → b ≤ 10000 → g * b < two_53
small_product g b h k = omega (arith, mul-le-mul h k)

-- A product with a sum of basis points.
bps_product : (g e v p : ℕ) → e + v + p ≡ 10000 → g * e + g * v + g * p ≡ g * 10000
bps_product g e v p h = omega (arith, ap (λ (t : ℕ). g * t) h)

-- g × b / 10000, rounded down, as a quotient of numbers
abbrev pub floor_part : ℤ → ℤ → ℤ
floor_part g b = pos (pos_part g * pos_part b / 10000)

-- Two floored shares and the remainder, against the floored third share.
abbrev pub Divides : ℤ → ℤ → ℤ → ℤ → Type 0
Divides g e v q =
    (pos 0 ≤ℤ e)
    × (pos 0 ≤ℤ v)
    × (pos 0 ≤ℤ g -ℤ e -ℤ v)
    × (floor_part g q ≤ℤ g -ℤ e -ℤ v)
    × (g -ℤ e -ℤ v ≤ℤ floor_part g q +ℤ pos 2)
    × (e +ℤ v +ℤ (g -ℤ e -ℤ v) ≡ g)

-- A share of a valid split, for an amount whose shares are exact.
pub apply_basis_points-floor_part :
    (g b : ℤ)
    → IsExact g
    → pos 0 ≤ℤ b
    → pos_part b ≤ 10000
    → apply_basis_points g b ≡ floor_part g b
apply_basis_points-floor_part g b exact h k =
    apply_basis_points_nonneg g b (omega (arith, exact.0)) h
      (small_product (pos_part g) (pos_part b) exact.1 k)

floors_divide :
    (g e v q : ℤ)
    → IsExact g
    → pos 0 ≤ℤ e
    → pos 0 ≤ℤ v
    → pos 0 ≤ℤ q
    → e +ℤ v +ℤ q ≡ pos 10000
    → Divides g (apply_basis_points g e) (apply_basis_points g v) q
floors_divide g e v q exact he hv hq total =
    let parts : pos_part e + pos_part v + pos_part q ≡ 10000 = omega (
      int_laws,
      ap pos_part total,
      ap neg_part total,
      neg_part_nonneg e he,
      neg_part_nonneg v hv,
      neg_part_nonneg q hq,
    ) in
    rw
      (
        apply_basis_points-floor_part g e exact he (omega (arith, parts)),
        apply_basis_points-floor_part g v exact hv (omega (arith, parts)),
      )
      (let product = bps_product (pos_part g) (pos_part e) (pos_part v) (pos_part q) parts in
        (
          omega int_laws,
          omega int_laws,
          omega (int_laws, neg_part_nonneg g (omega (arith, exact.0))),
          omega (int_laws, neg_part_nonneg g (omega (arith, exact.0))),
          omega (int_laws, neg_part_nonneg g (omega (arith, exact.0))),
          omega int_laws,
        ))

apply_basis_points_zero : (g : ℤ) → IsExact g → apply_basis_points g (pos 0) ≡ pos 0
apply_basis_points_zero g exact =
    rw (apply_basis_points_nonneg g (pos 0) (omega (arith, exact.0)) (omega arith) (omega arith))
      (ap pos (omega arith))

pub shares_Divides :
    (p : PaymentForPosting) (s : SplitForPosting)
    → IsSplit s
    → IsExact p.gross_amount_kobo
    → Divides p.gross_amount_kobo (entertainer_share p s) (venue_share p s) s.platform_bps
shares_Divides p s split exact = elim (Option-cases p.entertainer_id) [
  | inl alone ↦ rw alone (
      rw (apply_basis_points_zero p.gross_amount_kobo exact) at (
        floors_divide p.gross_amount_kobo (pos 0) (s.venue_bps +ℤ s.entertainer_bps) s.platform_bps
          exact (omega arith) (omega (int_laws, split.entertainer, split.venue)) split.platform
          (omega (int_laws, ap pos_part split.total, ap neg_part split.total))))
  | inr (x, found) ↦ rw found (
      floors_divide p.gross_amount_kobo s.entertainer_bps s.venue_bps s.platform_bps exact
        split.entertainer split.venue split.platform split.total)
]
