-- ===== src/Ledger/Payouts.antt =====
-- The postings of a payout and of its reversal, and the balance of an account
-- (src/ledger/ledger.service.ts).
use splitcore.Base.{
  ◌≡◌, List, [], ◌∷◌, arith, true, is_some, map, if◌then◌else◌, Bool-cases, inl, inr, ◌∙◌,
}
use splitcore.Int.{ℤ, pos, ◌+ℤ◌, ◌-ℤ◌, int_laws, zero_+ℤ}
use splitcore.Result.{ok, err, Error}
use splitcore.Schema.{
  LedgerAccountType, processor_clearing, account_eq, LedgerDirection, is_debit, debit, credit,
}
use splitcore.Ledger.{
  PayoutForPosting, is_payable, payout_lines, compute_payout_entries, opposite,
  compute_payout_reversal_entries, normal_sign, sum_from, balance_of, assert_balanced, add_totals,
}
use splitcore.Ledger.Totals.{IsBalanced, assert_balanced_iff}
use splitcore.Ledger.Posting.{IsGross, gross_test}

-- A payout that may be posted: a payable account with an owner, and a positive safe amount.
pub record IsPayout (p : PayoutForPosting) : Type 0 where
  pub payable : is_payable p.account_type ≡ true
  pub owned : is_some p.owner_id ≡ true
  pub amount : IsGross p.amount_kobo

payout_lines-IsBalanced :
    (p : PayoutForPosting) → IsGross p.amount_kobo → IsBalanced (payout_lines p)
payout_lines-IsBalanced p g = record {
  some_line = λ q. cc;
  lines = (g, (g, tt));
  equal = omega int_laws;
}

-- A payout of a positive amount from an owned payable account debits that account, credits the
-- clearing account, and balances; its reversal is the same lines with the directions swapped.
pub compute_payout_entries-lines :
    (p : PayoutForPosting)
    → IsPayout p
    → (compute_payout_entries p ≡ ok (payout_lines p))
      × (compute_payout_reversal_entries p ≡ ok (map opposite (payout_lines p)))
      × IsBalanced (payout_lines p)
      × IsBalanced (map opposite (payout_lines p))
unfolding compute_payout_entries compute_payout_reversal_entries
compute_payout_entries-lines p v =
    let b = payout_lines-IsBalanced p v.amount in
    let e = (assert_balanced_iff (payout_lines p)).1 b in
    (
      ground (arith, e),
      ground (arith, e),
      b,
      record { some_line = λ q. cc; lines = b.lines; equal = omega int_laws },
    )

-- Anything else is refused, a reversal as well as a payout.
pub compute_payout_entries-invalid :
    (p : PayoutForPosting)
    → ¬ (IsPayout p)
    → (compute_payout_entries p ≡ err Error.invalid_posting)
      × (compute_payout_reversal_entries p ≡ err Error.invalid_posting)
unfolding compute_payout_entries compute_payout_reversal_entries assert_balanced add_totals
compute_payout_entries-invalid p bad = elim (Bool-cases (is_payable p.account_type)) [
  | inr e ↦ (rw e, rw e)
  | inl payable ↦ elim (Bool-cases (is_some p.owner_id)) [
    | inr e ↦ (rw (payable, e), rw (payable, e))
    | inl owned ↦
        let t =
          gross_test p.amount_kobo
            (λ g. bad (record { payable = payable; owned = owned; amount = g })) in
        (rw (payable, owned, t), rw (payable, owned, t))
  ]
]

-- The totals of each direction.
abbrev pub total_of : LedgerDirection → List (LedgerDirection × ℤ) → ℤ
total_of debit [] = pos 0
total_of credit [] = pos 0
total_of debit ((d, a) ∷ es) = (if is_debit d then a else pos 0) +ℤ total_of debit es
total_of credit ((d, a) ∷ es) = (if is_debit d then pos 0 else a) +ℤ total_of credit es

-- A balance in the account's normal sense: debits less credits for PROCESSOR_CLEARING, credits
-- less debits for every other account.
abbrev pub normal_balance : LedgerAccountType → List (LedgerDirection × ℤ) → ℤ
normal_balance t es =
    if account_eq t processor_clearing
    then total_of debit es -ℤ total_of credit es
    else total_of credit es -ℤ total_of debit es

sum_from-normal :
    (t : LedgerAccountType) (acc : ℤ) (es : List (LedgerDirection × ℤ))
    → sum_from t acc es ≡ acc +ℤ normal_balance t es
unfolding sum_from
sum_from-normal t acc [] = elim (Bool-cases (account_eq t processor_clearing)) [
  | inl e ↦ rw e (omega int_laws)
  | inr e ↦ rw e (omega int_laws)
]
sum_from-normal t acc ((debit, a) ∷ es) = elim (Bool-cases (account_eq t processor_clearing)) [
  | inl e ↦ rw (sum_from-normal t (acc +ℤ normal_sign t debit a) es, e) (omega int_laws)
  | inr e ↦ rw (sum_from-normal t (acc +ℤ normal_sign t debit a) es, e) (omega int_laws)
]
sum_from-normal t acc ((credit, a) ∷ es) = elim (Bool-cases (account_eq t processor_clearing)) [
  | inl e ↦ rw (sum_from-normal t (acc +ℤ normal_sign t credit a) es, e) (omega int_laws)
  | inr e ↦ rw (sum_from-normal t (acc +ℤ normal_sign t credit a) es, e) (omega int_laws)
]

-- `balanceOf` is the normal balance of the entries.
pub balance_of-normal :
    (t : LedgerAccountType) (es : List (LedgerDirection × ℤ))
    → balance_of t es ≡ normal_balance t es
unfolding balance_of
balance_of-normal t es = sum_from-normal t (pos 0) es ∙ zero_+ℤ (normal_balance t es)
