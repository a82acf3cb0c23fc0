-- ===== src/Books/Sums.antt =====
-- The sums of the books under the writes that postings make.
use splitcore.Base.{
  ℕ, ◌≡◌, refl, sym, inl, inr, not, Bool, true, none, List, [], ◌∷◌, ◌++◌, map, arith, ◌==◌,
  is_some, All, Bool-cases, ==_iff,
}
use splitcore.Int.{pos, ◌+ℤ◌, +ℤ_assoc, zero_+ℤ}
use splitcore.Schema.{is_debit, LedgerAccount, LedgerEntry}
use splitcore.Ledger.{LedgerEntrySpec}
use splitcore.Ledger.Totals.{debits, credits}
use splitcore.Ledger.Repository.{sum_where}
use splitcore.Ledger.Repository.Postings.{entry_of}
use splitcore.Books.{credit_balance, find_account}

pub sum_where-append :
    (p : LedgerEntry → Bool) (xs ys : List LedgerEntry)
    → sum_where p (xs ++ ys) ≡ sum_where p xs +ℤ sum_where p ys
sum_where-append p [] ys = sym (zero_+ℤ (sum_where p ys))
sum_where-append p (x ∷ xs) ys = rw (sum_where-append p xs ys) (sym (+ℤ_assoc _ _ _))

pub credit_balance-append :
    (id : ℕ) (xs ys : List LedgerEntry)
    → credit_balance id (xs ++ ys) ≡ credit_balance id xs +ℤ credit_balance id ys
credit_balance-append id [] ys = sym (zero_+ℤ (credit_balance id ys))
credit_balance-append id (x ∷ xs) ys = rw (credit_balance-append id xs ys) (sym (+ℤ_assoc _ _ _))

pub sum_where-debits :
    (tx : ℕ) (accts : List LedgerAccount) (es : List LedgerEntrySpec)
    → sum_where (λ e. is_debit e.direction) (map (entry_of tx accts) es) ≡ debits es
sum_where-debits tx accts [] = refl
sum_where-debits tx accts (e ∷ es) = rw (sum_where-debits tx accts es)

pub sum_where-credits :
    (tx : ℕ) (accts : List LedgerAccount) (es : List LedgerEntrySpec)
    → sum_where (λ e. not (is_debit e.direction)) (map (entry_of tx accts) es) ≡ credits es
sum_where-credits tx accts [] = refl
sum_where-credits tx accts (e ∷ es) = rw (sum_where-credits tx accts es) (ground arith)

-- An account that no entry is posted to has a balance of zero.
pub credit_balance_unknown :
    (id : ℕ) (accts : List LedgerAccount) (es : List LedgerEntry)
    → find_account id accts ≡ none
    → All (λ e. is_some (find_account e.account_id accts) ≡ true) es
    → credit_balance id es ≡ pos 0
credit_balance_unknown id accts [] m h = refl
credit_balance_unknown id accts (e ∷ es) m h = elim (Bool-cases (e.account_id == id)) [
  | inl same ↦ absurd (cc ((==_iff e.account_id id).0 same, m, h.0))
  | inr other ↦ rw (other, credit_balance_unknown id accts es m h.1) (zero_+ℤ (pos 0))
]
