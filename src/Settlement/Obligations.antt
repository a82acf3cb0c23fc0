-- ===== src/Settlement/Obligations.antt =====
-- The payouts that a settlement creates (src/payments/payment-settlement.service.ts).
use mathlib.Core.Bool.{and-eq-true_iff}
use splitcore.Base.{
  ℕ, suc, ◌≤◌, ◌≡◌, refl, sym, inl, inr, ◌&&◌, not, true, none, List, [], ◌∷◌, map, arith, ◌==◌,
  is_some, find_by, All, if◌then◌else◌, Bool-cases, Option-cases, ==_iff,
}
use splitcore.Int.{ℤ, pos, ◌+ℤ◌, zero_+ℤ, int_laws}
use splitcore.Action.{ok, ◌>>=◌}
use splitcore.Schema.{LedgerAccount, credit, is_debit, has_key, Payout, Store}
use splitcore.Ledger.{LedgerEntrySpec, is_payable}
use splitcore.Ledger.Totals.{IsPosting}
use splitcore.Ledger.Repository.{resolve_account_id}
use splitcore.Ledger.Repository.Accounts.{IsTable}
use splitcore.Ledger.Repository.Postings.{id_of, entry_of}
use splitcore.Books.{credit_balance, owed, find_account, is_owed, HasIds}
use splitcore.Books.Accounts.{HasAccount, IsBacked, line_account}
use splitcore.Settlement.{is_payable_line, new_payout, create_payout, create_payouts}

module _ (now tx : ℕ) (accts : List LedgerAccount) where
  abbrev pub add_payout : LedgerEntrySpec → ℕ × List Payout → ℕ × List Payout
  add_payout e (n, ps) =
      if is_payable_line e
      then (suc n, new_payout now n (id_of e.account_type e.owner_id accts) tx e.amount_kobo ∷ ps)
      else (n, ps)

  abbrev pub add_payouts : List LedgerEntrySpec → ℕ × List Payout → ℕ × List Payout
  add_payouts [] b = b
  add_payouts (e ∷ es) b = add_payouts es (add_payout e b)

abbrev pub new_ids : List LedgerEntrySpec → ℕ → List ℕ
new_ids [] n = []
new_ids (e ∷ es) n = if is_payable_line e then n ∷ new_ids es (suc n) else new_ids es n

abbrev pub with_payouts : Store → ℕ × List Payout → Store
with_payouts s b = record s { payouts = b.1; next_id = b.0 }

resolve_account_id_known :
    (e : LedgerEntrySpec) (s : Store)
    → HasAccount s.accounts e
    → resolve_account_id e.account_type e.owner_id s
      ≡ (ok (id_of e.account_type e.owner_id s.accounts), s)
unfolding resolve_account_id
resolve_account_id_known e s h =
    elim (Option-cases (find_by (has_key e.account_type e.owner_id) s.accounts)) [
      | inl missing ↦ absurd (cc (missing, h))
      | inr (a, found) ↦ rw (found, found, id_of)
    ]

pub create_payouts_lem :
    (now tx : ℕ) (es : List LedgerEntrySpec) (s : Store)
    → All (HasAccount s.accounts) es
    → create_payouts now tx es s ≡ (
      ok (new_ids es s.next_id),
      with_payouts s (add_payouts now tx s.accounts es (s.next_id, s.payouts)),
    )
unfolding create_payouts create_payout
create_payouts_lem now tx [] s h = refl
create_payouts_lem now tx (e ∷ es) s h = elim (Bool-cases (is_payable_line e)) [
  | inl payable ↦
      let account = id_of e.account_type e.owner_id s.accounts in
      let ih =
        create_payouts_lem now tx es
          (with_payouts s
            (suc s.next_id, new_payout now s.next_id account tx e.amount_kobo ∷ s.payouts))
          h.1 in
      rw (payable, resolve_account_id_known e s h.0, ih, ◌>>=◌, add_payouts)
  | inr other ↦ rw (other, create_payouts_lem now tx es s h.1, add_payouts)
]

-- what the payable lines add to what is owed on an account
abbrev pub payable_sum : ℕ → List LedgerAccount → List LedgerEntrySpec → ℤ
payable_sum id accts [] = pos 0
payable_sum id accts (e ∷ es) =
    (if is_payable_line e
      then (if id_of e.account_type e.owner_id accts == id then e.amount_kobo else pos 0)
      else pos 0)
    +ℤ payable_sum id accts es

pub owed-add_payouts :
    (now tx id : ℕ) (accts : List LedgerAccount) (es : List LedgerEntrySpec) (b : ℕ × List Payout)
    → owed id (add_payouts now tx accts es b).1 ≡ payable_sum id accts es +ℤ owed id b.1
owed-add_payouts now tx id accts [] b = sym (zero_+ℤ (owed id b.1))
owed-add_payouts now tx id accts (e ∷ es) b = elim (Bool-cases (is_payable_line e)) [
  | inl payable ↦
      rw (owed-add_payouts now tx id accts es (add_payout now tx accts e b), payable)
        (omega int_laws)
  | inr other ↦
      rw (owed-add_payouts now tx id accts es (add_payout now tx accts e b), other) (omega int_laws)
]

-- A line on a payable account credits it, and the account has an owner.
abbrev pub IsCreditLine : LedgerEntrySpec → Type 0
IsCreditLine e =
    is_payable e.account_type ≡ true → (e.direction ≡ credit) × (is_some e.owner_id ≡ true)

line_payable :
    (n id : ℕ) (accts : List LedgerAccount) (e : LedgerEntrySpec)
    → IsTable n accts
    → HasAccount accts e
    → is_owed (find_account id accts) ≡ true
    → id_of e.account_type e.owner_id accts ≡ id
    → is_payable e.account_type ≡ true
line_payable n id accts e table h due same =
    let (a, found, st, so) = line_account n accts e table h in
    let due' : is_owed (find_account (id_of e.account_type e.owner_id accts) accts) ≡ true =
      rw same due in
    let both : (is_payable a.type && is_some a.owner_id) ≡ true = rw found at due' in
    rw st ((and-eq-true_iff _ _).0 both).0

-- A posting moves the balance of a payable account by what its payouts will owe.
pub credit_balance-payable_sum :
    (n tx id : ℕ) (accts : List LedgerAccount) (es : List LedgerEntrySpec)
    → IsTable n accts
    → All (HasAccount accts) es
    → All IsCreditLine es
    → is_owed (find_account id accts) ≡ true
    → credit_balance id (map (entry_of tx accts) es) ≡ payable_sum id accts es
credit_balance-payable_sum n tx id accts [] table h c due = refl
credit_balance-payable_sum n tx id accts (e ∷ es) table h c due =
    elim (Bool-cases (id_of e.account_type e.owner_id accts == id)) [
      | inl same ↦
          let payable = line_payable n id accts e table h.0 due ((==_iff _ _).0 same) in
          rw (
            credit_balance-payable_sum n tx id accts es table h.1 c.1 due,
            same,
            (c.0 payable).0,
            payable,
          )
      | inr other ↦
          rw (credit_balance-payable_sum n tx id accts es table h.1 c.1 due, other) (ground arith)
    ]

add_payout-IsBacked :
    (now tx n : ℕ) (accts : List LedgerAccount) (e : LedgerEntrySpec) (b : ℕ × List Payout)
    → IsTable n accts
    → HasAccount accts e
    → IsCreditLine e
    → IsPosting e
    → All (IsBacked accts) b.1
    → All (IsBacked accts) (add_payout now tx accts e b).1
add_payout-IsBacked now tx n accts e b table h c l old = elim (Bool-cases (is_payable_line e)) [
  | inl due ↦
      let (a, found, st, so) = line_account n accts e table h in
      let payable =
        (and-eq-true_iff (not (is_debit e.direction)) (is_payable e.account_type)).0 due in
      let owned = (c payable.1).1 in rw due ((rw found (rw (← st, ← so, payable.1, owned)), l), old)
  | inr other ↦ rw other old
]

-- The payouts that are added are backed by owned payable accounts, with positive amounts.
pub add_payouts-IsBacked :
    (now tx n : ℕ) (accts : List LedgerAccount) (es : List LedgerEntrySpec) (b : ℕ × List Payout)
    → IsTable n accts
    → All (HasAccount accts) es
    → All IsCreditLine es
    → All IsPosting es
    → All (IsBacked accts) b.1
    → All (IsBacked accts) (add_payouts now tx accts es b).1
add_payouts-IsBacked now tx n accts [] b table h c l old = old
add_payouts-IsBacked now tx n accts (e ∷ es) b table h c l old =
    add_payouts-IsBacked now tx n accts es (add_payout now tx accts e b) table h.1 c.1 l.1
      (add_payout-IsBacked now tx n accts e b table h.0 c.0 l.0 old)

HasIds-suc : (n : ℕ) (ps : List Payout) → HasIds n ps → HasIds (suc n) ps
HasIds-suc n [] h = tt
HasIds-suc n (p ∷ ps) h = (omega arith, h.1, HasIds-suc n ps h.2)

HasIds-fresh :
    (n : ℕ) (ps : List Payout) → HasIds n ps → (k : ℕ) → n ≤ k → find_by (λ q. q.id == k) ps ≡ none
HasIds-fresh n [] h k le = refl
HasIds-fresh n (p ∷ ps) h k le = ground (arith, HasIds-fresh n ps h.2 k le)

add_payout-HasIds :
    (now tx : ℕ) (accts : List LedgerAccount) (e : LedgerEntrySpec) (b : ℕ × List Payout)
    → HasIds b.0 b.1
    → HasIds (add_payout now tx accts e b).0 (add_payout now tx accts e b).1
add_payout-HasIds now tx accts e b h = elim (Bool-cases (is_payable_line e)) [
  | inl due ↦ rw due (omega arith, HasIds-fresh b.0 b.1 h b.0 (omega arith), HasIds-suc b.0 b.1 h)
  | inr other ↦ rw other h
]

pub add_payouts-HasIds :
    (now tx : ℕ) (accts : List LedgerAccount) (es : List LedgerEntrySpec) (b : ℕ × List Payout)
    → HasIds b.0 b.1
    → HasIds (add_payouts now tx accts es b).0 (add_payouts now tx accts es b).1
add_payouts-HasIds now tx accts [] b h = h
add_payouts-HasIds now tx accts (e ∷ es) b h =
    add_payouts-HasIds now tx accts es (add_payout now tx accts e b)
      (add_payout-HasIds now tx accts e b h)
