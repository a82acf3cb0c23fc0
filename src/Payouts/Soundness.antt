-- ===== src/Payouts/Soundness.antt =====
-- The claims of PayoutsService and the books (src/payouts/payouts.service.ts).
use mathlib.Core.Option.{some-injective}
use mathlib.Core.Path.{subst}
use splitcore.Base.{
  ℕ, ◌≡◌, refl, sym, inl, inr, ◌&&◌, Bool, true, Option, none, some, List, [], ◌∷◌, map, arith,
  ◌==◌, ==_iff, ==_refl, find_by, update_by, count_by, All, String, Bool-cases,
}
use splitcore.Int.{pos}
use splitcore.Schema.{LedgerAccount, Reference, Payout, Store}
use splitcore.Ledger.{payout_lines, opposite}
use splitcore.Ledger.Payouts.{IsPayout, compute_payout_entries-lines}
use splitcore.Ledger.Repository.Postings.{post-posted}
use splitcore.Books.{outstanding, owed, find_account, HasIds, IsSound}
use splitcore.Books.Accounts.{IsBacked}
use splitcore.Books.Updates.{
  relabels, IsRelabel, update_by-HasIds, update_by-IsBacked, update_one, update_none,
}
use splitcore.Payouts.Transfers.{
  unpaid_with, paid_with, posting_of, update_payouts, set_succeeded, claim_success, set_reversed,
  claim_reversal,
}
use splitcore.Payouts.Movement.{moved-IsSound, payout_moves, reversal_moves}

-- the change that `update_payouts` makes to a row
abbrev pub stamped : ℕ → (Payout → Payout) → Payout → Payout
stamped now f x = record (f x) { updated_at = now }

pub relabel : (now : ℕ) (f : Payout → Payout) → IsRelabel f → IsRelabel (stamped now f)
relabel now f r = record {
  same_id = λ x. r.same_id x;
  same_account = λ x. r.same_account x;
  same_amount = λ x. r.same_amount x;
}

pub find-id :
    (key : ℕ) (ps : List Payout) {x : Payout} → find_by (λ q. q.id == key) ps ≡ some x → x.id ≡ key
find-id key [] e = cc
find-id key (y ∷ ps) {x} e = elim (Bool-cases (y.id == key)) [
  | inl here ↦ cc (rw here at e, (==_iff y.id key).0 here)
  | inr later ↦ find-id key ps (rw later at e)
]

pub find_own :
    (n : ℕ) (p : Payout → Bool) (ps : List Payout) {x : Payout}
    → HasIds n ps
    → find_by p ps ≡ some x
    → find_by (λ q. q.id == x.id) ps ≡ some x
find_own n p [] h e = cc
find_own n p (y ∷ ps) {x} h e = elim (Bool-cases (p y)) [
  | inl here ↦
      subst (λ z. find_by (λ q. q.id == z.id) (y ∷ ps) ≡ some z) (some-injective y x (rw here at e))
        (rw (==_refl y.id) refl)
  | inr later ↦
      let found = find_own n p ps h.2 (rw later at e) in
      elim (Bool-cases (y.id == x.id)) [
        | inl same ↦ absurd (
            cc (
              found,
              subst (λ k. find_by (λ q. q.id == k) ps ≡ none) ((==_iff y.id x.id).0 same) h.1,
            ))
        | inr other ↦ rw other found
      ]
]

-- What is known of a payout that was read from the table.
pub find-IsBacked :
    (accts : List LedgerAccount) (p : Payout → Bool) (ps : List Payout) {x : Payout}
    → All (IsBacked accts) ps
    → find_by p ps ≡ some x
    → IsBacked accts x
find-IsBacked accts p [] h e = cc
find-IsBacked accts p (y ∷ ps) {x} h e = elim (Bool-cases (p y)) [
  | inl here ↦ subst (IsBacked accts) (some-injective y x (rw here at e)) h.0
  | inr later ↦ find-IsBacked accts p ps h.1 (rw later at e)
]

pub backed-IsPayout :
    (s : Store) (x : Payout) (a : LedgerAccount)
    → IsBacked s.accounts x
    → find_account x.ledger_account_id s.accounts ≡ some a
    → IsPayout (posting_of a x)
backed-IsPayout s x a h e =
    let o = rw e at (h.0) in
    record { payable = ground (arith, o); owned = ground (arith, o); amount = h.1 }

unpaid_with-outstanding :
    (reference : Reference) (x : Payout)
    → unpaid_with reference x ≡ true
    → outstanding x ≡ x.amount_kobo
unpaid_with-outstanding reference x h = ground (arith, h)

paid_with-outstanding :
    (reference : Reference) (x : Payout) → paid_with reference x ≡ true → outstanding x ≡ pos 0
paid_with-outstanding reference x h = ground (arith, h)

module _ (now : ℕ) where
  -- An update of one row that no row meets leaves the books as they are.
  lost_claim :
      (p : Payout → Bool) (f : Payout → Payout) (s : Store)
      → count_by p s.payouts ≡ 0
      → IsSound s
      → IsSound (update_payouts now p f s).1
  lost_claim p f s none_met v =
      subst (λ ps. IsSound (record s { payouts = ps }))
        (sym (update_none p (stamped now f) s.payouts none_met)) v

  succeeded-IsRelabel : IsRelabel (stamped now (set_succeeded now))
  succeeded-IsRelabel = relabels _ λ x. (refl, refl, refl)

  reversed-IsRelabel : (reason : Option String) → IsRelabel (stamped now (set_reversed now reason))
  reversed-IsRelabel reason = relabels _ λ x. (refl, refl, refl)

  module _ (reference : Reference) (s : Store) (x : Payout) (a : LedgerAccount) (v : IsSound s)
      (found : find_by (λ p. p.id == x.id) s.payouts ≡ some x)
      (account : find_account x.ledger_account_id s.accounts ≡ some a) where
    pub payout : IsPayout (posting_of a x)
    payout =
        backed-IsPayout s x a
          (find-IsBacked s.accounts (λ p. p.id == x.id) s.payouts v.backed found) account

    pub claim_success-IsSound :
        IsSound
          (claim_success now x.id reference x.transaction_id (payout_lines (posting_of a x)) s).1
    unfolding claim_success
    claim_success-IsSound =
        let f = stamped now (set_succeeded now) in
        let r = succeeded-IsRelabel in
        let p : Payout → Bool = λ q. q.id == x.id && unpaid_with reference q in
        let ps = update_by p f s.payouts in
        let (count, o) =
          update_one x.id (unpaid_with reference) f r s.next_id s.payouts v.ids found in
        let b = (compute_payout_entries-lines (posting_of a x) payout).2 in
        elim (Bool-cases (unpaid_with reference x)) [
          | inr lost ↦ rw (count, lost) (lost_claim p (set_succeeded now) s (rw lost at count) v)
          | inl won ↦
              rw
                (
                  count,
                  won,
                  post-posted x.transaction_id (payout_lines (posting_of a x))
                      (record s { payouts = ps }) b,
                )
                (moved-IsSound x.transaction_id (payout_lines (posting_of a x)) s ps v b
                  (update_by-HasIds p f r s.next_id s.payouts v.ids)
                  (update_by-IsBacked p f r s.accounts s.payouts v.backed)
                  λ id due.
                    payout_moves s v x a account x.transaction_id id (owed id ps) due
                      (rw (unpaid_with-outstanding reference x won) at (o id won)))
        ]

    pub claim_reversal-IsSound :
        (reason : Option String)
        → IsSound
            (claim_reversal now x.id reference reason x.transaction_id
              (map opposite (payout_lines (posting_of a x)))
              s).1
    unfolding claim_reversal
    claim_reversal-IsSound reason =
        let f = stamped now (set_reversed now reason) in
        let r = reversed-IsRelabel reason in
        let p : Payout → Bool = λ q. q.id == x.id && paid_with reference q in
        let es = map opposite (payout_lines (posting_of a x)) in
        let ps = update_by p f s.payouts in
        let (count, o) =
          update_one x.id (paid_with reference) f r s.next_id s.payouts v.ids found in
        let b = (compute_payout_entries-lines (posting_of a x) payout).3 in
        elim (Bool-cases (paid_with reference x)) [
          | inr lost ↦
              rw (count, lost) (lost_claim p (set_reversed now reason) s (rw lost at count) v)
          | inl won ↦
              rw (count, won, post-posted x.transaction_id es (record s { payouts = ps }) b)
                (moved-IsSound x.transaction_id es s ps v b
                  (update_by-HasIds p f r s.next_id s.payouts v.ids)
                  (update_by-IsBacked p f r s.accounts s.payouts v.backed)
                  λ id due.
                    reversal_moves s v x a account x.transaction_id id (owed id ps) due
                      (rw (paid_with-outstanding reference x won) at (o id won)))
        ]
