-- ===== src/Ledger/Totals.antt =====
-- When `assertBalanced` (src/ledger/ledger.service.ts) accepts a posting.
use splitcore.Base.{
  ◌+◌, ◌≤◌, ◌≡◌, ◌≢◌, ◌↔◌, refl, inl, inr, List, [], ◌∷◌, arith, All, if◌then◌else◌,
}
use splitcore.Int.{ℤ, pos, pos_part, neg_part, ◌+ℤ◌, ◌≤ℤ◌, +ℤ_assoc, +ℤ_zero, zero_+ℤ, eq_ℤ_iff}
use splitcore.Result.{ok, err, Error, Result-cases}
use splitcore.Schema.{is_debit}
use splitcore.Ledger.{LedgerEntrySpec, max_safe_integer, add_totals, assert_balanced}

-- A line that the ledger may hold: a positive safe integer.
abbrev pub IsPosting : LedgerEntrySpec → Type 0
IsPosting e =
    (pos 1 ≤ℤ e.amount_kobo) × (pos_part e.amount_kobo + neg_part e.amount_kobo ≤ max_safe_integer)

abbrev pub debits : List LedgerEntrySpec → ℤ
debits [] = pos 0
debits (e ∷ es) = (if is_debit e.direction then e.amount_kobo else pos 0) +ℤ debits es

abbrev pub credits : List LedgerEntrySpec → ℤ
credits [] = pos 0
credits (e ∷ es) = (if is_debit e.direction then pos 0 else e.amount_kobo) +ℤ credits es

-- A posting that balances: not empty, of positive lines, with equal debits and credits.
pub record IsBalanced (es : List LedgerEntrySpec) : Type 0 where
  pub some_line : es ≢ []
  pub lines : All IsPosting es
  pub equal : debits es ≡ credits es

pub add_totals-posting :
    (d c : ℤ) (es : List LedgerEntrySpec)
    → All IsPosting es
    → add_totals (d, c) es ≡ ok (d +ℤ debits es, c +ℤ credits es)
unfolding add_totals
add_totals-posting d c [] h = rw (+ℤ_zero d, +ℤ_zero c)
add_totals-posting d c (e ∷ es) h = ground (
  arith,
  add_totals-posting (d +ℤ e.amount_kobo) c es h.1,
  add_totals-posting d (c +ℤ e.amount_kobo) es h.1,
  +ℤ_assoc d e.amount_kobo (debits es),
  +ℤ_assoc c e.amount_kobo (credits es),
  zero_+ℤ (debits es),
  zero_+ℤ (credits es),
)

add_totals-lines :
    (t t' : ℤ × ℤ) (es : List LedgerEntrySpec) → add_totals t es ≡ ok t' → All IsPosting es
unfolding add_totals
add_totals-lines t t' [] h = tt
add_totals-lines (d, c) t' (e ∷ es) h = ground (
  arith,
  add_totals-lines (d +ℤ e.amount_kobo, c) t' es,
  add_totals-lines (d, c +ℤ e.amount_kobo) t' es,
)

-- `assertBalanced` accepts exactly the balanced postings.
assert_balanced_complete : (es : List LedgerEntrySpec) → IsBalanced es → assert_balanced es ≡ ok tt
unfolding assert_balanced
assert_balanced_complete [] b = absurd (b.some_line refl)
assert_balanced_complete (e ∷ es) b =
    let total = add_totals-posting (pos 0) (pos 0) (e ∷ es) b.lines in
    rw (total, assert_balanced)
      (ground (
        arith,
        b.equal,
        zero_+ℤ (debits (e ∷ es)),
        zero_+ℤ (credits (e ∷ es)),
        eq_ℤ_iff (debits (e ∷ es)) (credits (e ∷ es)),
      ))

assert_balanced_empty : assert_balanced [] ≡ err Error.unbalanced_ledger
unfolding assert_balanced add_totals
assert_balanced_empty = refl

assert_balanced_sound : (es : List LedgerEntrySpec) → assert_balanced es ≡ ok tt → IsBalanced es
unfolding assert_balanced
assert_balanced_sound [] h = absurd (cc (assert_balanced_empty, h))
assert_balanced_sound (e ∷ es) h = elim (Result-cases (add_totals (pos 0, pos 0) (e ∷ es))) [
  | inl (t, p) ↦
      let lines = add_totals-lines (pos 0, pos 0) t (e ∷ es) p in
      let total = add_totals-posting (pos 0) (pos 0) (e ∷ es) lines in
      record {
        some_line = λ q. cc;
        lines = lines;
        equal = ground (
          arith,
          total,
          zero_+ℤ (debits (e ∷ es)),
          zero_+ℤ (credits (e ∷ es)),
          eq_ℤ_iff (debits (e ∷ es)) (credits (e ∷ es)),
        );
      }
  | inr (x, p) ↦ absurd (ground (arith, p))
]

-- `assertBalanced` accepts exactly the postings that balance: not empty, every amount a positive safe
-- integer, and debits equal to credits.
pub assert_balanced_iff : (es : List LedgerEntrySpec) → (assert_balanced es ≡ ok tt) ↔ IsBalanced es
assert_balanced_iff es = (assert_balanced_sound es, assert_balanced_complete es)
