-- ===== src/Books/Accounts.antt =====
-- The account table of the books under the inserts of a posting (src/ledger/ledger.repository.ts).
use mathlib.Core.Option.{some-injective}
use mathlib.Core.Path.{subst}
use splitcore.Base.{
  ==_refl, ℕ, ◌≡◌, refl, sym, ◌∙◌, inl, inr, true, Option, none, some, List, [], ◌∷◌, arith, ◌==◌,
  is_some, find_by, All, Bool-cases, Option-cases, ==_iff,
}
use splitcore.Int.{pos, zero_+ℤ}
use splitcore.Schema.{LedgerAccountType, LedgerAccount, has_key, Payout, Store}
use splitcore.Ledger.{LedgerEntrySpec}
use splitcore.Ledger.Posting.{IsGross}
use splitcore.Ledger.Repository.{insert_row}
use splitcore.Ledger.Repository.Accounts.{
  IsTable, IsTable-fresh, insert_row-IsTable, insert_row-found, insert_rows, insert_rows-kept,
  has_key_iff, book_of,
}
use splitcore.Ledger.Repository.Postings.{id_of}
use splitcore.Books.{credit_balance, owed, find_account, is_owed, IsSound}
use splitcore.Books.Sums.{credit_balance_unknown}

insert_row-find :
    (t : LedgerAccountType) (o : Option ℕ) (b : ℕ × List LedgerAccount) (id : ℕ) {a : LedgerAccount}
    → IsTable b.0 b.1
    → find_account id b.1 ≡ some a
    → find_account id (insert_row t o b).1 ≡ some a
insert_row-find t o (n, accts) id h e = elim (Option-cases (find_by (has_key t o) accts)) [
  | inr (x, found) ↦ rw found e
  | inl missing ↦ elim (Bool-cases (n == id)) [
    | inl same ↦ absurd (cc (e, IsTable-fresh n accts h id (omega (arith, (==_iff n id).0 same))))
    | inr other ↦ rw (missing, other) e
  ]
]

pub insert_rows-find :
    (es : List LedgerEntrySpec) (b : ℕ × List LedgerAccount) (id : ℕ) {a : LedgerAccount}
    → IsTable b.0 b.1
    → find_account id b.1 ≡ some a
    → find_account id (insert_rows es b).1 ≡ some a
insert_rows-find [] b id h e = e
insert_rows-find (x ∷ es) b id h e =
    insert_rows-find es (insert_row x.account_type x.owner_id b) id
      (insert_row-IsTable x.account_type x.owner_id b h)
      (insert_row-find x.account_type x.owner_id b id h e)

-- An account that is found by type and owner is also found by its id.
pub find_account_of_key :
    (n : ℕ) (accts : List LedgerAccount) (t : LedgerAccountType) (o : Option ℕ) {a : LedgerAccount}
    → IsTable n accts
    → find_by (has_key t o) accts ≡ some a
    → (find_account a.id accts ≡ some a) × (t ≡ a.type) × (o ≡ a.owner_id)
find_account_of_key n [] t o h e = cc
find_account_of_key n (x ∷ accts) t o {a} h e = elim (Bool-cases (has_key t o x)) [
  | inl here ↦
      let (st, so) = (has_key_iff t o x).0 here in
      subst (λ y. (find_account y.id (x ∷ accts) ≡ some y) × (t ≡ y.type) × (o ≡ y.owner_id))
        (some-injective x a (rw here at e)) (rw (==_refl x.id), st, so)
  | inr later ↦
      let (found, st, so) = find_account_of_key n accts t o h.3 (rw later at e) in
      elim (Bool-cases (x.id == a.id)) [
        | inl same ↦
            absurd
              (cc (found, subst (λ k. find_account k accts ≡ none) ((==_iff x.id a.id).0 same) h.1))
        | inr other ↦ (rw other found, st, so)
      ]
]

-- Every line of a posting has its account afterwards.
abbrev pub HasAccount : List LedgerAccount → LedgerEntrySpec → Type 0
HasAccount accts e = is_some (find_by (has_key e.account_type e.owner_id) accts) ≡ true

pub insert_rows-HasAccount :
    (es : List LedgerEntrySpec) (b : ℕ × List LedgerAccount)
    → All (HasAccount (insert_rows es b).1) es
insert_rows-HasAccount [] b = tt
insert_rows-HasAccount (e ∷ es) b =
    let (a, found) = insert_row-found e.account_type e.owner_id b in
    (
      rw (
          insert_rows-kept e.account_type e.owner_id es (insert_row e.account_type e.owner_id b)
            found),
      insert_rows-HasAccount es (insert_row e.account_type e.owner_id b),
    )

pub line_account :
    (n : ℕ) (accts : List LedgerAccount) (e : LedgerEntrySpec)
    → IsTable n accts
    → HasAccount accts e
    → (a : LedgerAccount) × (find_account (id_of e.account_type e.owner_id accts) accts ≡ some a)
      × (e.account_type ≡ a.type)
      × (e.owner_id ≡ a.owner_id)
line_account n accts e table h =
    elim (Option-cases (find_by (has_key e.account_type e.owner_id) accts)) [
      | inl missing ↦ absurd (cc (missing, h))
      | inr (a, found) ↦
          let (by_id, st, so) = find_account_of_key n accts e.account_type e.owner_id table found in
          (a, rw (found, id_of) by_id, st, so)
    ]

abbrev pub IsBacked : List LedgerAccount → Payout → Type 0
IsBacked accts p = (is_owed (find_account p.ledger_account_id accts) ≡ true) × IsGross p.amount_kobo

owed_unknown :
    (id : ℕ) (accts : List LedgerAccount) (ps : List Payout)
    → find_account id accts ≡ none
    → All (IsBacked accts) ps
    → owed id ps ≡ pos 0
owed_unknown id accts [] m h = refl
owed_unknown id accts (p ∷ ps) m h = elim (Bool-cases (p.ledger_account_id == id)) [
  | inl same ↦ absurd (cc ((==_iff p.ledger_account_id id).0 same, m, h.0.0))
  | inr other ↦ rw (other, owed_unknown id accts ps m h.1) (zero_+ℤ (pos 0))
]

-- The accounts that a posting adds change no balance by themselves.
pub owes_extended :
    (s : Store) (es : List LedgerEntrySpec) (id : ℕ)
    → IsSound s
    → is_owed (find_account id (insert_rows es (book_of s)).1) ≡ true
    → credit_balance id s.entries ≡ owed id s.payouts
owes_extended s es id v h = elim (Option-cases (find_account id s.accounts)) [
  | inl missing ↦
      credit_balance_unknown id s.accounts s.entries missing v.posted_to
      ∙ sym (owed_unknown id s.accounts s.payouts missing v.backed)
  | inr (a, found) ↦
      v.owes id (rw found (rw (insert_rows-find es (book_of s) id v.table found) at h))
]
