-- ===== src/Books.antt =====
-- The books across src/ledger, src/payments and src/payouts: the balances of accounts, what payouts
-- still owe, and what it means for the two to agree.
pub mod Sums
pub mod Accounts
pub mod Postings
pub mod Updates
use splitcore.Base.{
  ⊤, ℕ, ◌<◌, ◌≡◌, ◌&&◌, not, Bool, true, false, Option, none, some, List, [], ◌∷◌, ◌==◌, is_some,
  find_by, All, if◌then◌else◌,
}
use splitcore.Int.{ℤ, pos, ◌+ℤ◌, ◌-ℤ◌}
use splitcore.Schema.{
  LedgerAccountType, is_debit, payout_eq, PayoutStatus, LedgerAccount, LedgerEntry, Payout, Store,
  PaymentTransaction, Job,
}
use splitcore.Ledger.{is_payable}
use splitcore.Ledger.Posting.{IsGross}
use splitcore.Ledger.Repository.{sum_where}
use splitcore.Ledger.Repository.Accounts.{IsTable}

abbrev pub is_success : PayoutStatus → Bool
is_success PayoutStatus.success = true
is_success _ = false

-- credits less debits of one account
abbrev pub credit_balance : ℕ → List LedgerEntry → ℤ
credit_balance id [] = pos 0
credit_balance id (e ∷ es) =
    (if e.account_id == id
      then (if is_debit e.direction then pos 0 -ℤ e.amount_kobo else e.amount_kobo)
      else pos 0)
    +ℤ credit_balance id es

-- what a payout still owes
abbrev pub outstanding : Payout → ℤ
outstanding p = if is_success p.status then pos 0 else p.amount_kobo

-- what is still to be paid out of one account
abbrev pub owed : ℕ → List Payout → ℤ
owed id [] = pos 0
owed id (p ∷ ps) = (if p.ledger_account_id == id then outstanding p else pos 0) +ℤ owed id ps

abbrev pub find_account : ℕ → List LedgerAccount → Option LedgerAccount
find_account id accts = find_by (λ a. a.id == id) accts

-- an account that money is owed on: payable, with an owner
abbrev pub is_owed : Option LedgerAccount → Bool
is_owed none = false
is_owed (some a) = is_payable a.type && is_some a.owner_id

-- Payout ids are distinct, and below the next uuid.
abbrev pub HasIds : ℕ → List Payout → Type 0
HasIds n [] = ⊤
HasIds n (p ∷ ps) = (p.id < n) × (find_by (λ q. q.id == p.id) ps ≡ none) × HasIds n ps

pub record IsSound (s : Store) : Type 0 where
  pub table : IsTable s.next_id s.accounts
  pub posted_to : All (λ e. is_some (find_account e.account_id s.accounts) ≡ true) s.entries
  pub ids : HasIds s.next_id s.payouts
  pub backed :
      All
        (λ p.
          (is_owed (find_account p.ledger_account_id s.accounts) ≡ true) × IsGross p.amount_kobo)
        s.payouts
  pub owes :
      (id : ℕ)
      → is_owed (find_account id s.accounts) ≡ true
      → credit_balance id s.entries ≡ owed id s.payouts
  pub balanced :
      sum_where (λ e. is_debit e.direction) s.entries
      ≡ sum_where (λ e. not (is_debit e.direction)) s.entries

-- The books do not read the payments or the queue.
pub IsSound-payments :
    (s : Store) (ps : List PaymentTransaction) → IsSound s → IsSound (record s { payments = ps })
IsSound-payments s ps v = record {
  table = v.table;
  posted_to = v.posted_to;
  ids = v.ids;
  backed = v.backed;
  owes = v.owes;
  balanced = v.balanced;
}

pub IsSound-jobs : (s : Store) (js : List Job) → IsSound s → IsSound (record s { jobs = js })
IsSound-jobs s js v = record {
  table = v.table;
  posted_to = v.posted_to;
  ids = v.ids;
  backed = v.backed;
  owes = v.owes;
  balanced = v.balanced;
}
