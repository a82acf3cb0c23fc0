-- ===== src/Settlement/Soundness.antt =====
-- The database after a settlement (src/payments/payment-settlement.service.ts), and the books.
use native.Mathlib.Nat.{le_trans}
use splitcore.Base.{ℕ, ◌≤◌, ◌≡◌, some, List, [], ◌∷◌, map, arith, All}
use splitcore.Action.{ok}
use splitcore.Schema.{LedgerAccount, Payout, Store}
use splitcore.Ledger.{LedgerEntrySpec}
use splitcore.Ledger.Totals.{IsBalanced}
use splitcore.Ledger.Repository.Accounts.{insert_rows, insert_rows-IsTable, book_of}
use splitcore.Ledger.Repository.Postings.{entry_of, posted, post-posted}
use splitcore.Books.{IsSound}
use splitcore.Books.Accounts.{insert_rows-HasAccount, owes_extended}
use splitcore.Books.Sums.{credit_balance-append}
use splitcore.Books.Postings.{
  insert_rows-le, IsTable-weaken, HasIds-weaken, posted_to-posted, IsBacked-old, balanced-posted,
}
use splitcore.Settlement.{post_and_create}
use splitcore.Settlement.Obligations.{
  add_payout, add_payouts, new_ids, with_payouts, create_payouts_lem, owed-add_payouts,
  IsCreditLine, credit_balance-payable_sum, add_payouts-IsBacked, add_payouts-HasIds,
}

-- the store after the posting and the payouts
abbrev pub settled : ℕ → ℕ → List LedgerEntrySpec → Store → Store
settled now tx es s =
    let b = insert_rows es (book_of s) in
    with_payouts (posted tx es s) (add_payouts now tx b.1 es (b.0, s.payouts))

pub post_and_create_lem :
    (now tx : ℕ) (es : List LedgerEntrySpec) (s : Store)
    → IsBalanced es
    → post_and_create now tx es s
      ≡ (ok (some (new_ids es (insert_rows es (book_of s)).0)), settled now tx es s)
unfolding post_and_create
post_and_create_lem now tx es s b = rw (
  post-posted tx es s b,
  create_payouts_lem now tx es (posted tx es s) (insert_rows-HasAccount es (book_of s)),
)

add_payout-le :
    (now tx : ℕ) (accts : List LedgerAccount) (e : LedgerEntrySpec) (b : ℕ × List Payout)
    → b.0 ≤ (add_payout now tx accts e b).0
add_payout-le now tx accts e b = ground arith

add_payouts-le :
    (now tx : ℕ) (accts : List LedgerAccount) (es : List LedgerEntrySpec) (b : ℕ × List Payout)
    → b.0 ≤ (add_payouts now tx accts es b).0
add_payouts-le now tx accts [] b = omega arith
add_payouts-le now tx accts (e ∷ es) b =
    le_trans (add_payout-le now tx accts e b)
      (add_payouts-le now tx accts es (add_payout now tx accts e b))

module _ (now tx : ℕ) (es : List LedgerEntrySpec) (s : Store) (v : IsSound s) (b : IsBalanced es)
    (c : All IsCreditLine es) where
  pub settled-IsSound : IsSound (settled now tx es s)
  settled-IsSound =
      let g = insert_rows es (book_of s) in
      let t = insert_rows-IsTable es (book_of s) v.table in
      let has = insert_rows-HasAccount es (book_of s) in
      record {
        table = IsTable-weaken g.0 _ g.1 (add_payouts-le now tx g.1 es (g.0, s.payouts)) t;
        posted_to = posted_to-posted tx es s v;
        ids =
            add_payouts-HasIds now tx g.1 es (g.0, s.payouts)
              (HasIds-weaken s.next_id g.0 s.payouts (insert_rows-le es (book_of s)) v.ids);
        backed =
            add_payouts-IsBacked now tx g.0 g.1 es (g.0, s.payouts) t has c b.lines
              (IsBacked-old es (book_of s) s.payouts v.table v.backed);
        owes = λ id due. rw (
          credit_balance-append id (map (entry_of tx g.1) es) s.entries,
          owed-add_payouts now tx id g.1 es (g.0, s.payouts),
          credit_balance-payable_sum g.0 tx id g.1 es t has c due,
          owes_extended s es id v due,
        );
        balanced = balanced-posted tx es s v b;
      }
