-- ===== src/Books/Postings.antt =====
-- The books under a posting (`post` of src/ledger/ledger.repository.ts).
use native.Mathlib.Nat.{le_trans}
use splitcore.Base.{
  ℕ, ◌≤◌, ◌≡◌, refl, inl, inr, not, true, Option, List, [], ◌∷◌, ◌++◌, map, arith, is_some, All,
  Option-cases,
}
use splitcore.Schema.{LedgerAccountType, LedgerAccount, is_debit, Payout, Store, LedgerEntry}
use splitcore.Ledger.{LedgerEntrySpec}
use splitcore.Ledger.Totals.{IsBalanced}
use splitcore.Ledger.Repository.{insert_row, sum_where}
use splitcore.Ledger.Repository.Accounts.{IsTable, insert_rows, insert_rows-IsTable, book_of}
use splitcore.Ledger.Repository.Postings.{entry_of, posted}
use splitcore.Books.{find_account, is_owed, HasIds, IsSound}
use splitcore.Books.Accounts.{
  HasAccount, IsBacked, insert_rows-HasAccount, insert_rows-find, line_account,
}
use splitcore.Books.Sums.{sum_where-append, sum_where-debits, sum_where-credits}

insert_row-le :
    (t : LedgerAccountType) (o : Option ℕ) (b : ℕ × List LedgerAccount) → b.0 ≤ (insert_row t o b).0
insert_row-le t o b = ground arith

pub insert_rows-le :
    (es : List LedgerEntrySpec) (b : ℕ × List LedgerAccount) → b.0 ≤ (insert_rows es b).0
insert_rows-le [] b = omega arith
insert_rows-le (e ∷ es) b =
    le_trans (insert_row-le e.account_type e.owner_id b)
      (insert_rows-le es (insert_row e.account_type e.owner_id b))

pub IsTable-weaken :
    (n m : ℕ) (accts : List LedgerAccount) → n ≤ m → IsTable n accts → IsTable m accts
IsTable-weaken n m [] le h = tt
IsTable-weaken n m (a ∷ accts) le h = (omega arith, h.1, h.2, IsTable-weaken n m accts le h.3)

pub HasIds-weaken : (n m : ℕ) (ps : List Payout) → n ≤ m → HasIds n ps → HasIds m ps
HasIds-weaken n m [] le h = tt
HasIds-weaken n m (a ∷ ps) le h = (omega arith, h.1, HasIds-weaken n m ps le h.2)

posted_to-lines :
    (n tx : ℕ) (accts : List LedgerAccount) (es : List LedgerEntrySpec)
    → IsTable n accts
    → All (HasAccount accts) es
    → All (λ e. is_some (find_account e.account_id accts) ≡ true) (map (entry_of tx accts) es)
posted_to-lines n tx accts [] t h = tt
posted_to-lines n tx accts (e ∷ es) t h =
    let (a, found, st, so) = line_account n accts e t h.0 in
    (rw found, posted_to-lines n tx accts es t h.1)

known_extended :
    (es : List LedgerEntrySpec) (b : ℕ × List LedgerAccount) (id : ℕ)
    → IsTable b.0 b.1
    → is_some (find_account id b.1) ≡ true
    → is_some (find_account id (insert_rows es b).1) ≡ true
known_extended es b id t h = elim (Option-cases (find_account id b.1)) [
  | inl missing ↦ absurd (cc (missing, h))
  | inr (a, found) ↦ rw (insert_rows-find es b id t found)
]

owed_account_extended :
    (es : List LedgerEntrySpec) (b : ℕ × List LedgerAccount) (id : ℕ)
    → IsTable b.0 b.1
    → is_owed (find_account id b.1) ≡ true
    → is_owed (find_account id (insert_rows es b).1) ≡ true
owed_account_extended es b id t h = elim (Option-cases (find_account id b.1)) [
  | inl missing ↦ absurd (cc (missing, h))
  | inr (a, found) ↦ rw (insert_rows-find es b id t found) (rw found at h)
]

posted_to-append :
    (accts : List LedgerAccount) (xs ys : List LedgerEntry)
    → All (λ e. is_some (find_account e.account_id accts) ≡ true) xs
    → All (λ e. is_some (find_account e.account_id accts) ≡ true) ys
    → All (λ e. is_some (find_account e.account_id accts) ≡ true) (xs ++ ys)
posted_to-append accts [] ys hx hy = hy
posted_to-append accts (x ∷ xs) ys hx hy = (hx.0, posted_to-append accts xs ys hx.1 hy)

posted_to-old :
    (es : List LedgerEntrySpec) (b : ℕ × List LedgerAccount) (xs : List LedgerEntry)
    → IsTable b.0 b.1
    → All (λ e. is_some (find_account e.account_id b.1) ≡ true) xs
    → All (λ e. is_some (find_account e.account_id (insert_rows es b).1) ≡ true) xs
posted_to-old es b [] t h = tt
posted_to-old es b (x ∷ xs) t h =
    (known_extended es b x.account_id t h.0, posted_to-old es b xs t h.1)

pub IsBacked-old :
    (es : List LedgerEntrySpec) (b : ℕ × List LedgerAccount) (ps : List Payout)
    → IsTable b.0 b.1
    → All (IsBacked b.1) ps
    → All (IsBacked (insert_rows es b).1) ps
IsBacked-old es b [] t h = tt
IsBacked-old es b (p ∷ ps) t h =
    ((owed_account_extended es b p.ledger_account_id t h.0.0, h.0.1), IsBacked-old es b ps t h.1)

module _ (tx : ℕ) (es : List LedgerEntrySpec) (s : Store) (v : IsSound s) where
  pub posted_to-posted :
      All
        (λ e. is_some (find_account e.account_id (posted tx es s).accounts) ≡ true)
        (posted tx es s).entries
  posted_to-posted =
      posted_to-append _ (map (entry_of tx (insert_rows es (book_of s)).1) es) s.entries
        (posted_to-lines (insert_rows es (book_of s)).0 tx (insert_rows es (book_of s)).1 es
          (insert_rows-IsTable es (book_of s) v.table) (insert_rows-HasAccount es (book_of s)))
        (posted_to-old es (book_of s) s.entries v.table v.posted_to)

  pub balanced-posted :
      IsBalanced es
      → sum_where (λ e. is_debit e.direction) (posted tx es s).entries
        ≡ sum_where (λ e. not (is_debit e.direction)) (posted tx es s).entries
  balanced-posted b =
      rw
        (
          sum_where-append (λ e. is_debit e.direction)
              (map (entry_of tx (insert_rows es (book_of s)).1) es) s.entries,
          sum_where-append (λ e. not (is_debit e.direction))
              (map (entry_of tx (insert_rows es (book_of s)).1) es) s.entries,
          sum_where-debits tx (insert_rows es (book_of s)).1 es,
          sum_where-credits tx (insert_rows es (book_of s)).1 es,
          b.equal,
          v.balanced,
        )
        refl
