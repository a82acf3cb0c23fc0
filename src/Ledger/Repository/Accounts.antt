-- ===== src/Ledger/Repository/Accounts.antt =====
-- Accounts of the ledger (`resolveAccountId` and `post` of src/ledger/ledger.repository.ts), by type
-- and owner.
use splitcore.Base.{
  ⊤, ℕ, suc, ◌<◌, ◌≤◌, ◌≡◌, ◌↔◌, refl, inl, inr, true, Option, none, some, List, [], ◌∷◌, arith,
  ◌==◌, opt_eq_iff, find_by, Bool-cases, Option-cases,
}
use splitcore.Action.{ok}
use splitcore.Schema.{LedgerAccountType, account_eq_iff, LedgerAccount, has_key, Store}
use splitcore.Ledger.{LedgerEntrySpec}
use splitcore.Ledger.Repository.{insert_row, insert_account, account_id, resolve_account_id}

-- No two accounts share an id, or a type and owner; ids are below the next one.
abbrev pub IsTable : ℕ → List LedgerAccount → Type 0
IsTable n [] = ⊤
IsTable n (a ∷ accts) =
    (a.id < n)
    × (find_by (λ b. b.id == a.id) accts ≡ none)
    × (find_by (has_key a.type a.owner_id) accts ≡ none)
    × IsTable n accts

abbrev pub lookup_id : LedgerAccountType → Option ℕ → List LedgerAccount → Option ℕ
lookup_id t o accts = account_id (find_by (has_key t o) accts)

pub has_key_iff :
    (t : LedgerAccountType) (o : Option ℕ) (a : LedgerAccount)
    → (has_key t o a ≡ true) ↔ ((t ≡ a.type) × (o ≡ a.owner_id))
has_key_iff t o a = ground (arith, account_eq_iff t a.type, opt_eq_iff o a.owner_id)

pub has_key_self :
    (t : LedgerAccountType) (o : Option ℕ) (n : ℕ)
    → has_key t o (record { id = n; type = t; owner_id = o }) ≡ true
has_key_self t o n = (has_key_iff t o (record { id = n; type = t; owner_id = o })).1 (refl, refl)

pub insert_row-found :
    (t : LedgerAccountType) (o : Option ℕ) (b : ℕ × List LedgerAccount)
    → (a : LedgerAccount) × (find_by (has_key t o) (insert_row t o b).1 ≡ some a)
insert_row-found t o (n, accts) = elim (Option-cases (find_by (has_key t o) accts)) [
  | inl missing ↦ (record { id = n; type = t; owner_id = o }, rw (missing, has_key_self t o n))
  | inr (a, found) ↦ (a, rw (found, found))
]

pub insert_row-kept :
    (t t' : LedgerAccountType) (o o' : Option ℕ) (b : ℕ × List LedgerAccount) {a : LedgerAccount}
    → find_by (has_key t o) b.1 ≡ some a
    → find_by (has_key t o) (insert_row t' o' b).1 ≡ some a
insert_row-kept t t' o o' (n, accts) {a} h = elim (Option-cases (find_by (has_key t' o') accts)) [
  | inr (x, found) ↦ rw found h
  | inl missing ↦ elim (Bool-cases (has_key t o (record { id = n; type = t'; owner_id = o' }))) [
    | inl same ↦
        let (st, so) = (has_key_iff t o (record { id = n; type = t'; owner_id = o' })).0 same in
        absurd (cc (missing, h, st, so))
    | inr other ↦ rw (missing, other) h
  ]
]

IsTable-suc : (n : ℕ) (accts : List LedgerAccount) → IsTable n accts → IsTable (suc n) accts
IsTable-suc n [] h = tt
IsTable-suc n (a ∷ accts) h = (omega arith, h.1, h.2, IsTable-suc n accts h.3)

pub IsTable-fresh :
    (n : ℕ) (accts : List LedgerAccount)
    → IsTable n accts
    → (k : ℕ) → n ≤ k
    → find_by (λ b. b.id == k) accts ≡ none
IsTable-fresh n [] h k le = refl
IsTable-fresh n (a ∷ accts) h k le = ground (arith, IsTable-fresh n accts h.3 k le)

pub insert_row-IsTable :
    (t : LedgerAccountType) (o : Option ℕ) (b : ℕ × List LedgerAccount)
    → IsTable b.0 b.1
    → IsTable (insert_row t o b).0 (insert_row t o b).1
insert_row-IsTable t o (n, accts) h = elim (Option-cases (find_by (has_key t o) accts)) [
  | inr (x, found) ↦ rw found h
  | inl missing ↦
      rw missing
        (omega arith, IsTable-fresh n accts h n (omega arith), missing, IsTable-suc n accts h)
]

-- the accounts that a posting needs, made in the order of its lines
abbrev pub insert_rows : List LedgerEntrySpec → ℕ × List LedgerAccount → ℕ × List LedgerAccount
insert_rows [] b = b
insert_rows (e ∷ es) b = insert_rows es (insert_row e.account_type e.owner_id b)

pub insert_rows-IsTable :
    (es : List LedgerEntrySpec) (b : ℕ × List LedgerAccount)
    → IsTable b.0 b.1
    → IsTable (insert_rows es b).0 (insert_rows es b).1
insert_rows-IsTable [] b h = h
insert_rows-IsTable (e ∷ es) b h =
    insert_rows-IsTable es (insert_row e.account_type e.owner_id b)
      (insert_row-IsTable e.account_type e.owner_id b h)

pub insert_rows-kept :
    (t : LedgerAccountType) (o : Option ℕ) (es : List LedgerEntrySpec) (b : ℕ × List LedgerAccount)
    {a : LedgerAccount}
    → find_by (has_key t o) b.1 ≡ some a
    → find_by (has_key t o) (insert_rows es b).1 ≡ some a
insert_rows-kept t o [] b h = h
insert_rows-kept t o (e ∷ es) b h =
    insert_rows-kept t o es (insert_row e.account_type e.owner_id b)
      (insert_row-kept t e.account_type o e.owner_id b h)

abbrev pub with_accounts : Store → ℕ × List LedgerAccount → Store
with_accounts s b = record s { accounts = b.1; next_id = b.0 }

abbrev pub book_of : Store → ℕ × List LedgerAccount
book_of s = (s.next_id, s.accounts)

-- `resolveAccountId` returns the id of the one account of its type and owner, made if need be.
pub resolve_account_id_lem :
    (t : LedgerAccountType) (o : Option ℕ) (s : Store)
    → (a : LedgerAccount) × (find_by (has_key t o) (insert_row t o (book_of s)).1 ≡ some a)
      × (resolve_account_id t o s ≡ (ok a.id, insert_account t o s))
unfolding resolve_account_id
resolve_account_id_lem t o s =
    let (a, found) = insert_row-found t o (book_of s) in (a, found, rw found)
