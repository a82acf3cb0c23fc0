-- ===== src/Ledger/Repository.antt =====
-- LedgerRepository (src/ledger/ledger.repository.ts): find-or-create of accounts, postings, and the
-- sums over the stored entries.
pub mod Accounts
pub mod Postings
use splitcore.Base.{
  ⊤, ℕ, suc, ◌&&◌, ◌||◌, not, Bool, Option, none, some, List, [], ◌∷◌, ◌++◌, map, ◌==◌, opt_eq,
  is_some, find_by, any_by, false, if◌then◌else◌,
}
use splitcore.Int.{ℤ, pos, ◌+ℤ◌, ◌-ℤ◌}
use splitcore.Action.{
  Action, Error, Result, ok, err, ◌>>=◌, ◌>>◌, pure, throw, gets, lift, or_throw, modify,
}
use splitcore.Schema.{
  LedgerAccountType, account_eq, LedgerDirection, debit, credit, is_debit, LedgerAccount, has_key,
  LedgerEntry, Store,
}
use splitcore.Ledger.{LedgerEntrySpec, assert_balanced, balance_of}

-- `INSERT … ON CONFLICT DO NOTHING`, on the next uuid and the table
abbrev pub insert_row :
    LedgerAccountType → Option ℕ → ℕ × List LedgerAccount → ℕ × List LedgerAccount
insert_row t o (n, accts) =
    if is_some (find_by (has_key t o) accts)
    then (n, accts)
    else (suc n, record { id = n; type = t; owner_id = o } ∷ accts)

abbrev pub insert_account : LedgerAccountType → Option ℕ → Store → Store
insert_account t o s =
    let r = insert_row t o (s.next_id, s.accounts) in record s { accounts = r.1; next_id = r.0 }

abbrev pub account_id : Option LedgerAccount → Option ℕ
account_id none = none
account_id (some a) = some a.id

unfoldable pub resolve_account_id : LedgerAccountType → Option ℕ → Action Store ℕ
resolve_account_id t o = do
  modify (insert_account t o)
  account ← gets (λ s. find_by (has_key t o) s.accounts)
  or_throw Error.external (account_id account)

-- The map of `post`, from the keys `${accountType}:${ownerId ?? ''}` to account ids.
abbrev pub AccountIds : Type 0
AccountIds = List (LedgerAccountType × Option ℕ × ℕ)

abbrev pub get_id : LedgerAccountType → Option ℕ → AccountIds → Option ℕ
get_id t o [] = none
get_id t o ((t', o', id) ∷ ids) = if account_eq t t' && opt_eq o o' then some id else get_id t o ids

-- one round of the loop of `post`
unfoldable pub resolve_entry : LedgerEntrySpec → AccountIds → Action Store AccountIds
resolve_entry e ids = if is_some (get_id e.account_type e.owner_id ids) then pure ids else do
  id ← resolve_account_id e.account_type e.owner_id
  pure ((e.account_type, e.owner_id, id) ∷ ids)

unfoldable pub resolve_entries : List LedgerEntrySpec → AccountIds → Action Store AccountIds
resolve_entries [] ids = pure ids
resolve_entries (e ∷ es) ids = do ids' ← resolve_entry e ids; resolve_entries es ids'

-- The rows of `createMany`; a row without an account id would be refused by the database.
abbrev pub row : ℕ → LedgerEntrySpec → Option ℕ → List LedgerEntry → Result (List LedgerEntry)
row tx e none rows = err Error.external
row tx e (some id) rows = ok (
    record {
      transaction_id = tx;
      account_id = id;
      direction = e.direction;
      amount_kobo = e.amount_kobo;
    }
    ∷ rows)

abbrev pub add_row :
    ℕ → LedgerEntrySpec → Option ℕ → Result (List LedgerEntry) → Result (List LedgerEntry)
add_row tx e id (err x) = err x
add_row tx e id (ok rows) = row tx e id rows

unfoldable pub entry_rows : ℕ → AccountIds → List LedgerEntrySpec → Result (List LedgerEntry)
entry_rows tx ids [] = ok []
entry_rows tx ids (e ∷ es) =
    add_row tx e (get_id e.account_type e.owner_id ids) (entry_rows tx ids es)

unfoldable pub post : ℕ → List LedgerEntrySpec → Action Store ⊤
post tx entries = do
  lift (assert_balanced entries)
  ids ← resolve_entries entries []
  rows ← lift (entry_rows tx ids entries)
  modify (λ s. record s { entries = rows ++ s.entries })

-- the amounts of the entries that satisfy a test
abbrev pub sum_where : (LedgerEntry → Bool) → List LedgerEntry → ℤ
sum_where p [] = pos 0
sum_where p (e ∷ es) = (if p e then e.amount_kobo else pos 0) +ℤ sum_where p es

-- `JOIN "ledger_accounts" a ON a."id" = e."account_id" WHERE …`
abbrev pub holds_of : (LedgerAccount → Bool) → Option LedgerAccount → Bool
holds_of p none = false
holds_of p (some a) = p a

abbrev pub joined : (LedgerAccount → Bool) → List LedgerAccount → LedgerEntry → Bool
joined p accounts e = holds_of p (find_by (λ a. a.id == e.account_id) accounts)

-- a row of `GROUP BY e."direction"`: only a direction that occurs has one
abbrev pub group_row :
    LedgerDirection → (LedgerEntry → Bool) → List LedgerEntry → List (LedgerDirection × ℤ)
group_row d p es = if any_by p es then (d, sum_where p es) ∷ [] else []

unfoldable pub get_balance : LedgerAccountType → Option ℕ → Store → ℤ
get_balance t o s =
    let on_account = joined (has_key t o) s.accounts in
    balance_of t (
      group_row debit (λ e. on_account e && is_debit e.direction) s.entries
      ++ group_row credit (λ e. on_account e && not (is_debit e.direction)) s.entries)

-- total debits and total credits
unfoldable pub get_trial_balance : Store → ℤ × ℤ
get_trial_balance s = (
  sum_where (λ e. is_debit e.direction) s.entries,
  sum_where (λ e. not (is_debit e.direction)) s.entries,
)
