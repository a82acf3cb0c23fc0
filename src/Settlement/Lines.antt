-- ===== src/Settlement/Lines.antt =====
-- The lines of a payment's posting (src/ledger/ledger.service.ts) as settlement uses them.
use splitcore.Base.{
  ◌≡◌, refl, inl, inr, true, none, List, [], ◌++◌, arith, is_some, All, Bool-cases,
}
use splitcore.Int.{ltb_ℤ, pos}
use splitcore.Action.{Result-cases, ok}
use splitcore.Schema.{platform_revenue, credit}
use splitcore.Ledger.{
  assert_balanced, platform_share, PaymentForPosting, SplitForPosting, push_positive, payment_lines,
  entertainer_share, compute_payment_entries, LedgerEntrySpec,
}
use splitcore.Ledger.Totals.{assert_balanced_iff, IsBalanced}
use splitcore.Settlement.Obligations.{IsCreditLine}
use mathlib.Core.List.{append-nil}
use mathlib.Core.Path.{subst}

push_positive-All {κ} :
    (P : LedgerEntrySpec → Type κ) (e : LedgerEntrySpec) (es : List LedgerEntrySpec)
    → (ltb_ℤ (pos 0) e.amount_kobo ≡ true → P e)
    → All P es
    → All P (push_positive e ++ es)
push_positive-All P e es h t = elim (Bool-cases (ltb_ℤ (pos 0) e.amount_kobo)) [
  | inl positive ↦ rw positive (h positive, t)
  | inr other ↦ rw other t
]

entertainer_owner :
    (p : PaymentForPosting) (s : SplitForPosting)
    → ltb_ℤ (pos 0) (entertainer_share p s) ≡ true
    → is_some p.entertainer_id ≡ true
entertainer_owner p s h = ground arith

abbrev platform_line : PaymentForPosting → SplitForPosting → LedgerEntrySpec
platform_line p s = record {
  account_type = platform_revenue;
  owner_id = none;
  direction = credit;
  amount_kobo = platform_share p s;
}

platform_credit :
    (p : PaymentForPosting) (s : SplitForPosting)
    → All IsCreditLine (push_positive (platform_line p s))
platform_credit p s =
    (rw (← append-nil (push_positive (platform_line p s)))
      (push_positive-All IsCreditLine (platform_line p s) [] (λ _ h. cc) tt))

-- The lines of a payment credit the entertainer, if there is one, and the venue.
payment_lines-credit :
    (p : PaymentForPosting) (s : SplitForPosting) → All IsCreditLine (payment_lines p s)
payment_lines-credit p s = (
  λ h. cc,
  push_positive-All IsCreditLine _ _ (λ pos' _. (refl, entertainer_owner p s pos'))
      (push_positive-All IsCreditLine _ _ (λ _ _. (refl, refl)) (platform_credit p s)),
)

-- What `computePaymentEntries` returns balances, and credits payable accounts only.
pub compute_payment_entries-ok :
    (p : PaymentForPosting) (s : SplitForPosting) (es : List LedgerEntrySpec)
    → compute_payment_entries p s ≡ ok es
    → IsBalanced es × All IsCreditLine es
unfolding compute_payment_entries
compute_payment_entries-ok p s es h = elim (Result-cases (assert_balanced (payment_lines p s))) [
  | inl (u, e) ↦
      let same : payment_lines p s ≡ es = ground (arith, e, h) in
      subst (λ l. IsBalanced l × All IsCreditLine l) same
        ((assert_balanced_iff (payment_lines p s)).0 e, payment_lines-credit p s)
  | inr (x, e) ↦ absurd (ground (arith, e, h))
]
