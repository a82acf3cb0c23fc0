-- ===== src/Ledger/Repository/Postings.antt =====
-- The accounts and entries of a posting (`post` of src/ledger/ledger.repository.ts).
use splitcore.Base.{
  ⊤, ℕ, ◌≡◌, refl, inl, inr, ◌&&◌, true, Option, none, some, List, [], ◌∷◌, ◌++◌, map, arith,
  opt_eq, opt_eq_iff, is_some, find_by, Bool-cases, Option-cases, All,
}
use splitcore.Action.{ok}
use splitcore.Schema.{
  LedgerAccountType, account_eq, account_eq_iff, LedgerAccount, has_key, LedgerEntry, Store,
}
use splitcore.Ledger.{LedgerEntrySpec}
use splitcore.Ledger.Totals.{IsBalanced, assert_balanced_iff}
use splitcore.Ledger.Repository.{
  insert_row, insert_account, AccountIds, get_id, resolve_entry, resolve_entries, entry_rows, post,
}
use splitcore.Ledger.Repository.Accounts.{
  lookup_id, has_key_self, insert_row-kept, insert_rows, with_accounts, book_of,
  resolve_account_id_lem,
}

-- The map of `post` holds the ids of the accounts in the table.
abbrev Agrees : AccountIds → List LedgerAccount → Type 0
Agrees [] accts = ⊤
Agrees ((t, o, id) ∷ ids) accts = (lookup_id t o accts ≡ some id) × Agrees ids accts

Agrees-get :
    (t : LedgerAccountType) (o : Option ℕ) (ids : AccountIds) (accts : List LedgerAccount) {id : ℕ}
    → Agrees ids accts
    → get_id t o ids ≡ some id
    → lookup_id t o accts ≡ some id
Agrees-get t o [] accts h e = cc
Agrees-get t o ((t', o', id') ∷ ids) accts h e =
    elim (Bool-cases (account_eq t t' && opt_eq o o')) [
      | inl same ↦ ground (arith, account_eq_iff t t', opt_eq_iff o o', h.0, e, same)
      | inr other ↦ Agrees-get t o ids accts h.1 (rw other at e)
    ]

Agrees-kept :
    (ids : AccountIds) (t' : LedgerAccountType) (o' : Option ℕ) (b : ℕ × List LedgerAccount)
    → Agrees ids b.1
    → Agrees ids (insert_row t' o' b).1
Agrees-kept [] t' o' b h = tt
Agrees-kept ((t, o, id) ∷ ids) t' o' b h = (
  elim (Option-cases (find_by (has_key t o) b.1)) [
    | inl m ↦ absurd (cc (m, h.0))
    | inr (a, found) ↦ rw (insert_row-kept t t' o o' b found) (rw found at (h.0))
  ],
  Agrees-kept ids t' o' b h.1,
)

key_self : (t : LedgerAccountType) (o : Option ℕ) → (account_eq t t && opt_eq o o) ≡ true
key_self t o = has_key_self t o 0

-- What the loop of `post` has done after some entries.
record Resolved (es : List LedgerEntrySpec) (ids : AccountIds) (s : Store) : Type 0 where
  result : AccountIds
  runs : resolve_entries es ids s ≡ (ok result, with_accounts s (insert_rows es (book_of s)))
  agrees : Agrees result (insert_rows es (book_of s)).1
  covers : All (λ e. is_some (get_id e.account_type e.owner_id result) ≡ true) es
  keeps :
      (t : LedgerAccountType) (o : Option ℕ)
      → is_some (get_id t o ids) ≡ true
      → is_some (get_id t o result) ≡ true

resolve_entry_known :
    (e : LedgerEntrySpec) (ids : AccountIds) (s : Store)
    → Agrees ids s.accounts
    → is_some (get_id e.account_type e.owner_id ids) ≡ true
    → (resolve_entry e ids s ≡ (ok ids, s))
      × (insert_row e.account_type e.owner_id (book_of s) ≡ book_of s)
unfolding resolve_entry
resolve_entry_known e ids s h known = (
  rw known,
  elim (Option-cases (get_id e.account_type e.owner_id ids)) [
    | inl missing ↦ absurd (cc (missing, known))
    | inr (id, e') ↦ elim (Option-cases (find_by (has_key e.account_type e.owner_id) s.accounts)) [
      | inl absent ↦ absurd (cc (absent, Agrees-get e.account_type e.owner_id ids s.accounts h e'))
      | inr (a, found) ↦ rw found
    ]
  ],
)

resolve_entries_lem :
    (es : List LedgerEntrySpec) (ids : AccountIds) (s : Store)
    → Agrees ids s.accounts
    → Resolved es ids s
unfolding resolve_entries resolve_entry
resolve_entries_lem [] ids s h = record {
  result = ids;
  runs = refl;
  agrees = h;
  covers = tt;
  keeps = λ t o k. k;
}
resolve_entries_lem (e ∷ es) ids s h =
    elim (Bool-cases (is_some (get_id e.account_type e.owner_id ids))) [
      | inl known ↦
          let (runs, same) = resolve_entry_known e ids s h known in
          let r = resolve_entries_lem es ids s h in
          record {
            result = r.result;
            runs = rw (runs, same, insert_rows) r.runs;
            agrees = rw (same, insert_rows) r.agrees;
            covers = (r.keeps e.account_type e.owner_id known, r.covers);
            keeps = r.keeps;
          }
      | inr unknown ↦
          let (a, found, runs) = resolve_account_id_lem e.account_type e.owner_id s in
          let ids' : AccountIds = (e.account_type, e.owner_id, a.id) ∷ ids in
          let r =
            resolve_entries_lem es ids' (insert_account e.account_type e.owner_id s)
              (rw found, Agrees-kept ids e.account_type e.owner_id (book_of s) h) in
          record {
            result = r.result;
            runs = rw (unknown, runs, resolve_entry) r.runs;
            agrees = r.agrees;
            covers = (
              r.keeps e.account_type e.owner_id (rw (key_self e.account_type e.owner_id)),
              r.covers,
            );
            keeps = λ t o k. r.keeps t o (ground (arith, k));
          }
    ]

-- the entry of a line, on the account of its type and owner
abbrev pub id_of : LedgerAccountType → Option ℕ → List LedgerAccount → ℕ
id_of t o accts = elim (find_by (has_key t o) accts) [ none ↦ 0 | some a ↦ a.id ]

abbrev pub entry_of : ℕ → List LedgerAccount → LedgerEntrySpec → LedgerEntry
entry_of tx accts e = record {
  transaction_id = tx;
  account_id = id_of e.account_type e.owner_id accts;
  direction = e.direction;
  amount_kobo = e.amount_kobo;
}

abbrev pub posted : ℕ → List LedgerEntrySpec → Store → Store
posted tx es s =
    let b = insert_rows es (book_of s) in
    record s { accounts = b.1; next_id = b.0; entries = map (entry_of tx b.1) es ++ s.entries }

id_of-lookup :
    (t : LedgerAccountType) (o : Option ℕ) (accts : List LedgerAccount) {id : ℕ}
    → lookup_id t o accts ≡ some id
    → id ≡ id_of t o accts
id_of-lookup t o accts h = ground arith

entry_rows_lem :
    (tx : ℕ) (ids : AccountIds) (accts : List LedgerAccount) (es : List LedgerEntrySpec)
    → Agrees ids accts
    → All (λ e. is_some (get_id e.account_type e.owner_id ids) ≡ true) es
    → entry_rows tx ids es ≡ ok (map (entry_of tx accts) es)
unfolding entry_rows
entry_rows_lem tx ids accts [] h c = refl
entry_rows_lem tx ids accts (e ∷ es) h c =
    elim (Option-cases (get_id e.account_type e.owner_id ids)) [
      | inl missing ↦ absurd (cc (missing, c.0))
      | inr (id, found) ↦ rw (
        entry_rows_lem tx ids accts es h c.1,
        found,
        ← id_of-lookup e.account_type e.owner_id accts
            (Agrees-get e.account_type e.owner_id ids accts h found),
      )
    ]

-- Posting balanced lines always succeeds: it makes the accounts that are missing, adds one entry
-- for each line on the account of the line's type and owner, and changes no other table.
pub post-posted :
    (tx : ℕ) (es : List LedgerEntrySpec) (s : Store)
    → IsBalanced es
    → post tx es s ≡ (ok tt, posted tx es s)
unfolding post
post-posted tx es s b =
    let r = resolve_entries_lem es [] s tt in
    let rows = entry_rows_lem tx r.result (insert_rows es (book_of s)).1 es r.agrees r.covers in
    rw ((assert_balanced_iff es).1 b, r.runs, rows)
