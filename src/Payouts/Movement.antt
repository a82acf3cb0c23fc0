-- ===== src/Payouts/Movement.antt =====
-- The postings of payouts against the books (src/payouts/payouts.service.ts): the lines that a
-- delivered or reversed payout writes, and what they leave owed.
use mathlib.Core.Option.{some-injective}
use mathlib.Core.Path.{subst}
use splitcore.Base.{
  ℕ, ◌≡◌, refl, sym, ap, inl, inr, true, false, none, some, List, [], ◌∷◌, map, ◌==◌, ==_iff,
  find_by, All, if◌then◌else◌, Bool-cases,
}
use splitcore.Int.{ℤ, pos, pos_part, neg_part, ◌+ℤ◌, ◌-ℤ◌, int_laws}
use splitcore.Schema.{processor_clearing, debit, credit, LedgerAccount, has_key, Payout, Store}
use splitcore.Ledger.{LedgerEntrySpec, is_payable, payout_lines, opposite}
use splitcore.Ledger.Totals.{IsBalanced}
use splitcore.Ledger.Repository.Accounts.{
  IsTable, insert_rows, insert_rows-IsTable, insert_rows-kept, has_key_iff, book_of,
}
use splitcore.Ledger.Repository.Postings.{id_of, entry_of, posted}
use splitcore.Books.{credit_balance, owed, find_account, is_owed, HasIds, IsSound}
use splitcore.Books.Accounts.{
  HasAccount, IsBacked, insert_rows-HasAccount, line_account, owes_extended,
}
use splitcore.Books.Sums.{credit_balance-append}
use splitcore.Books.Postings.{
  insert_rows-le, HasIds-weaken, posted_to-posted, IsBacked-old, balanced-posted,
}
use splitcore.Payouts.Transfers.{posting_of}

-- An account that is found by its id is the one of its type and owner.
pub find_key :
    (n : ℕ) (accts : List LedgerAccount) (id : ℕ) {a : LedgerAccount}
    → IsTable n accts
    → find_account id accts ≡ some a
    → (find_by (has_key a.type a.owner_id) accts ≡ some a) × (a.id ≡ id)
find_key n [] id h e = cc
find_key n (x ∷ accts) id {a} h e = elim (Bool-cases (x.id == id)) [
  | inl here ↦
      subst (λ y. (find_by (has_key y.type y.owner_id) (x ∷ accts) ≡ some y) × (y.id ≡ id))
        (some-injective x a (rw here at e))
        (rw ((has_key_iff x.type x.owner_id x).1 (refl, refl)), (==_iff x.id id).0 here)
  | inr later ↦
      let (found, same) = find_key n accts id h.3 (rw later at e) in
      elim (Bool-cases (has_key a.type a.owner_id x)) [
        | inl twice ↦
            let (st, so) = (has_key_iff a.type a.owner_id x).0 twice in
            absurd (
              cc (found, subst (λ t. find_by (has_key t x.owner_id) accts ≡ none) (sym st) h.2, so))
        | inr once ↦ (rw once found, same)
      ]
]

-- A posting together with a change of payouts keeps the books sound when both change what is owed
-- by the same amounts.
pub moved-IsSound :
    (tx : ℕ) (es : List LedgerEntrySpec) (s : Store) (ps : List Payout)
    → IsSound s
    → IsBalanced es
    → HasIds s.next_id ps
    → All (IsBacked s.accounts) ps
    → ((id : ℕ)
        → is_owed (find_account id (insert_rows es (book_of s)).1) ≡ true
        → credit_balance id (map (entry_of tx (insert_rows es (book_of s)).1) es)
            +ℤ owed id s.payouts
          ≡ owed id ps)
    → IsSound (posted tx es (record s { payouts = ps }))
moved-IsSound tx es s ps v b ids backed moves = record {
  table = insert_rows-IsTable es (book_of s) v.table;
  posted_to = posted_to-posted tx es s v;
  ids = HasIds-weaken s.next_id _ ps (insert_rows-le es (book_of s)) ids;
  backed = IsBacked-old es (book_of s) ps v.table backed;
  owes = λ id due.
      rw
        (
          credit_balance-append id (map (entry_of tx (insert_rows es (book_of s)).1) es) s.entries,
          owes_extended s es id v due,
        )
        (moves id due);
  balanced = balanced-posted tx es s v b;
}

not_owed :
    (n : ℕ) (accts : List LedgerAccount) (e : LedgerEntrySpec) (id : ℕ)
    → IsTable n accts
    → HasAccount accts e
    → is_payable e.account_type ≡ false
    → is_owed (find_account id accts) ≡ true
    → (id_of e.account_type e.owner_id accts == id) ≡ false
not_owed n accts e id table has refused due =
    elim (Bool-cases (id_of e.account_type e.owner_id accts == id)) [
      | inr other ↦ other
      | inl same ↦
          let (x, by_id, st, so) = line_account n accts e table has in
          let here = subst (λ k. find_account k accts ≡ some x) ((==_iff _ id).0 same) by_id in
          let payable = rw here at due in
          let closed = rw st at refused in absurd (cc (rw closed at payable))
    ]

paid_out : (a o u : ℤ) → u +ℤ a ≡ o +ℤ pos 0 → (pos 0 -ℤ a) +ℤ (pos 0 +ℤ pos 0) +ℤ o ≡ u
paid_out a o u h = omega (int_laws, ap pos_part h, ap neg_part h)

brought_back : (a o u : ℤ) → u +ℤ pos 0 ≡ o +ℤ a → a +ℤ (pos 0 +ℤ pos 0) +ℤ o ≡ u
brought_back a o u h = omega (int_laws, ap pos_part h, ap neg_part h)

none_moved : (o u : ℤ) → u +ℤ pos 0 ≡ o +ℤ pos 0 → pos 0 +ℤ (pos 0 +ℤ pos 0) +ℤ o ≡ u
none_moved o u h = omega (int_laws, ap pos_part h, ap neg_part h)

module _ (s : Store) (v : IsSound s) (p : Payout) (a : LedgerAccount)
    (found : find_account p.ledger_account_id s.accounts ≡ some a) (tx : ℕ) (id : ℕ) where
  payable_id :
      (es : List LedgerEntrySpec)
      → id_of a.type a.owner_id (insert_rows es (book_of s)).1 ≡ p.ledger_account_id
  payable_id es =
      let (here, same) = find_key s.next_id s.accounts p.ledger_account_id v.table found in
      rw (insert_rows-kept a.type a.owner_id es (book_of s) here, id_of) same

  pub payout_moves :
      (u : ℤ)
      → let es = payout_lines (posting_of a p) in
        let b = insert_rows es (book_of s) in
        is_owed (find_account id b.1) ≡ true
        → u +ℤ (if p.ledger_account_id == id then p.amount_kobo else pos 0)
          ≡ owed id s.payouts +ℤ (if p.ledger_account_id == id then pos 0 else pos 0)
        → credit_balance id (map (entry_of tx b.1) es) +ℤ owed id s.payouts ≡ u
  payout_moves u due h =
      let es = payout_lines (posting_of a p) in
      let b = insert_rows es (book_of s) in
      let clearing : LedgerEntrySpec = record {
        account_type = processor_clearing;
        owner_id = none;
        direction = credit;
        amount_kobo = p.amount_kobo;
      } in
      let has = insert_rows-HasAccount es (book_of s) in
      let other =
        not_owed b.0 b.1 clearing id (insert_rows-IsTable es (book_of s) v.table) has.1.0 refl
          due in
      elim (Bool-cases (p.ledger_account_id == id)) [
        | inl mine ↦
            rw (payable_id es, mine, other)
              (paid_out p.amount_kobo (owed id s.payouts) u (rw mine at h))
        | inr not_mine ↦
            rw (payable_id es, not_mine, other)
              (none_moved (owed id s.payouts) u (rw not_mine at h))
      ]

  pub reversal_moves :
      (u : ℤ)
      → let es = map opposite (payout_lines (posting_of a p)) in
        let b = insert_rows es (book_of s) in
        is_owed (find_account id b.1) ≡ true
        → u +ℤ (if p.ledger_account_id == id then pos 0 else pos 0)
          ≡ owed id s.payouts +ℤ (if p.ledger_account_id == id then p.amount_kobo else pos 0)
        → credit_balance id (map (entry_of tx b.1) es) +ℤ owed id s.payouts ≡ u
  reversal_moves u due h =
      let es = map opposite (payout_lines (posting_of a p)) in
      let b = insert_rows es (book_of s) in
      let clearing : LedgerEntrySpec = record {
        account_type = processor_clearing;
        owner_id = none;
        direction = debit;
        amount_kobo = p.amount_kobo;
      } in
      let has = insert_rows-HasAccount es (book_of s) in
      let other =
        not_owed b.0 b.1 clearing id (insert_rows-IsTable es (book_of s) v.table) has.1.0 refl
          due in
      elim (Bool-cases (p.ledger_account_id == id)) [
        | inl mine ↦
            rw (payable_id es, mine, other)
              (brought_back p.amount_kobo (owed id s.payouts) u (rw mine at h))
        | inr not_mine ↦
            rw (payable_id es, not_mine, other)
              (none_moved (owed id s.payouts) u (rw not_mine at h))
      ]
