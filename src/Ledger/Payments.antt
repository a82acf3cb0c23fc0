-- ===== src/Ledger/Payments.antt =====
-- The posting of a guest payment (`computePaymentEntries` of src/ledger/ledger.service.ts).
use mathlib.Core.List.{append-nil}
use splitcore.Base.{
  ◌+◌, ◌≤◌, ◌≡◌, refl, sym, inl, inr, List, [], ◌∷◌, ◌++◌, ◌∙◌, arith, All, Bool-cases, ap,
}
use splitcore.Int.{
  pos, pos_part, neg_part, ◌+ℤ◌, ◌≤ℤ◌, ltb_ℤ, int_laws, zero_+ℤ, +ℤ_zero, +ℤ_assoc, neg_part_nonneg,
}
use splitcore.Schema.{debit, credit}
use splitcore.Ledger.{
  LedgerEntrySpec, PaymentForPosting, SplitForPosting, max_safe_integer, push_positive,
  payment_lines,
}
use splitcore.Ledger.Totals.{IsPosting, IsBalanced, debits, credits}
use splitcore.Ledger.Posting.{IsSplit, IsGross, IsExact, IsExact-IsGross, shares_Divides}

-- What a credit line adds, if its amount is not negative.
module _ (a : LedgerEntrySpec) (is_credit : a.direction ≡ credit)
    (nonneg : pos 0 ≤ℤ a.amount_kobo) where
  push_positive-credits :
      (es : List LedgerEntrySpec) → credits (push_positive a ++ es) ≡ a.amount_kobo +ℤ credits es
  push_positive-credits es = elim (Bool-cases (ltb_ℤ (pos 0) a.amount_kobo)) [
    | inl positive ↦ rw (positive, is_credit) refl
    | inr zero_amount ↦
        let e : a.amount_kobo ≡ pos 0 = ground arith in
        rw (zero_amount, e) (sym (zero_+ℤ (credits es)))
  ]

  push_positive-debits : (es : List LedgerEntrySpec) → debits (push_positive a ++ es) ≡ debits es
  push_positive-debits es = elim (Bool-cases (ltb_ℤ (pos 0) a.amount_kobo)) [
    | inl positive ↦ rw (positive, is_credit) (zero_+ℤ (debits es))
    | inr zero_amount ↦ rw zero_amount
  ]

  push_positive-All :
      (es : List LedgerEntrySpec)
      → pos_part a.amount_kobo + neg_part a.amount_kobo ≤ max_safe_integer
      → All IsPosting es
      → All IsPosting (push_positive a ++ es)
  push_positive-All es bound h = ground arith

-- Up to three credit lines below a debit of their sum.
module _ (d a b c : LedgerEntrySpec) (da : d.direction ≡ debit) (ca : a.direction ≡ credit)
    (cb : b.direction ≡ credit) (ccr : c.direction ≡ credit) (na : pos 0 ≤ℤ a.amount_kobo)
    (nb : pos 0 ≤ℤ b.amount_kobo) (nc : pos 0 ≤ℤ c.amount_kobo) (gross : IsGross d.amount_kobo)
    (total : a.amount_kobo +ℤ b.amount_kobo +ℤ c.amount_kobo ≡ d.amount_kobo) where
  credits_total :
      credits (d ∷ (push_positive a ++ (push_positive b ++ push_positive c))) ≡ d.amount_kobo
  credits_total =
      rw
        (
          push_positive-credits a ca na (push_positive b ++ push_positive c),
          push_positive-credits b cb nb (push_positive c),
          ← append-nil (push_positive c),
          push_positive-credits c ccr nc [],
          da,
        )
        (rw (zero_+ℤ, +ℤ_zero, ← +ℤ_assoc) total)

  debits_total :
      debits (d ∷ (push_positive a ++ (push_positive b ++ push_positive c))) ≡ d.amount_kobo
  debits_total =
      rw
        (
          push_positive-debits a ca na (push_positive b ++ push_positive c),
          push_positive-debits b cb nb (push_positive c),
          ← append-nil (push_positive c),
          push_positive-debits c ccr nc [],
          da,
        )
        (+ℤ_zero d.amount_kobo)

  -- no share is larger than the gross amount
  bounds :
      (pos_part a.amount_kobo + neg_part a.amount_kobo ≤ max_safe_integer)
      × (pos_part b.amount_kobo + neg_part b.amount_kobo ≤ max_safe_integer)
      × (pos_part c.amount_kobo + neg_part c.amount_kobo ≤ max_safe_integer)
  bounds = omega (
    int_laws,
    ap pos_part total,
    ap neg_part total,
    neg_part_nonneg a.amount_kobo na,
    neg_part_nonneg b.amount_kobo nb,
    neg_part_nonneg c.amount_kobo nc,
    neg_part_nonneg d.amount_kobo (omega arith),
  )

  four_lines-IsBalanced : IsBalanced (d ∷ (push_positive a ++ (push_positive b ++ push_positive c)))
  four_lines-IsBalanced = record {
    some_line = λ q. cc;
    lines = (
      gross,
      push_positive-All a ca na _ bounds.0 (
          push_positive-All b cb nb _ bounds.1
            (rw (← append-nil (push_positive c)) (push_positive-All c ccr nc [] bounds.2 tt))),
    );
    equal = debits_total ∙ sym credits_total;
  }

pub payment_lines-IsBalanced :
    (p : PaymentForPosting) (s : SplitForPosting)
    → IsSplit s
    → IsExact p.gross_amount_kobo
    → IsBalanced (payment_lines p s)
payment_lines-IsBalanced p s split exact =
    let (e, v, rest, low, high, sum) = shares_Divides p s split exact in
    four_lines-IsBalanced _ _ _ _ refl refl refl refl e v rest
      (IsExact-IsGross p.gross_amount_kobo exact) sum
