-- ===== src/Books/Updates.antt =====
-- The invariant of the books under an `updateMany` on payouts (src/payouts/payouts.service.ts).
use mathlib.Core.Option.{some-injective}
use mathlib.Core.Path.{subst}
use splitcore.Base.{
  ℕ, ◌≡◌, refl, sym, ◌∙◌, ap, inl, inr, ◌&&◌, Bool, true, none, some, List, [], ◌∷◌, arith, ◌==◌,
  ==_iff, find_by, update_by, count_by, All, if◌then◌else◌, Bool-cases,
}
use splitcore.Int.{ℤ, pos, ◌+ℤ◌, int_laws, +ℤ_assoc}
use splitcore.Schema.{LedgerAccount, Payout, Store}
use splitcore.Books.{outstanding, owed, HasIds, IsSound}
use splitcore.Books.Accounts.{IsBacked}

-- An update that leaves a payout's identity, account and amount as they were.
pub record IsRelabel (f : Payout → Payout) : Type 0 where
  pub same_id : (x : Payout) → (f x).id ≡ x.id
  pub same_account : (x : Payout) → (f x).ledger_account_id ≡ x.ledger_account_id
  pub same_amount : (x : Payout) → (f x).amount_kobo ≡ x.amount_kobo

pub relabels :
    (f : Payout → Payout)
    → ((x : Payout)
        → ((f x).id ≡ x.id)
          × ((f x).ledger_account_id ≡ x.ledger_account_id)
          × ((f x).amount_kobo ≡ x.amount_kobo))
    → IsRelabel f
relabels f h = record {
  same_id = λ x. (h x).0;
  same_account = λ x. (h x).1;
  same_amount = λ x. (h x).2;
}

module _ (p : Payout → Bool) (f : Payout → Payout) (r : IsRelabel f) where
  find-update_by :
      (id : ℕ) (ps : List Payout)
      → find_by (λ q. q.id == id) ps ≡ none
      → find_by (λ q. q.id == id) (update_by p f ps) ≡ none
  find-update_by id [] h = refl
  find-update_by id (x ∷ ps) h = elim (Bool-cases (x.id == id)) [
    | inl same ↦ absurd (cc (same, h))
    | inr other ↦ elim (Bool-cases (p x)) [
      | inl hit ↦ rw (hit, r.same_id x, other) (find-update_by id ps (rw other at h))
      | inr miss ↦ rw (miss, other) (find-update_by id ps (rw other at h))
    ]
  ]

  pub update_by-HasIds : (n : ℕ) (ps : List Payout) → HasIds n ps → HasIds n (update_by p f ps)
  update_by-HasIds n [] h = tt
  update_by-HasIds n (x ∷ ps) h = elim (Bool-cases (p x)) [
    | inl hit ↦ rw (hit, r.same_id x) (h.0, find-update_by x.id ps h.1, update_by-HasIds n ps h.2)
    | inr miss ↦ rw miss (h.0, find-update_by x.id ps h.1, update_by-HasIds n ps h.2)
  ]

  pub update_by-IsBacked :
      (accts : List LedgerAccount) (ps : List Payout)
      → All (IsBacked accts) ps
      → All (IsBacked accts) (update_by p f ps)
  update_by-IsBacked accts [] h = tt
  update_by-IsBacked accts (x ∷ ps) h = elim (Bool-cases (p x)) [
    | inl hit ↦ rw (hit, r.same_account x, r.same_amount x) (h.0, update_by-IsBacked accts ps h.1)
    | inr miss ↦ rw miss (h.0, update_by-IsBacked accts ps h.1)
  ]

  owed-update_by :
      ((x : Payout) → p x ≡ true → outstanding (f x) ≡ outstanding x)
      → (id : ℕ) (ps : List Payout) → owed id (update_by p f ps) ≡ owed id ps
  owed-update_by same id [] = refl
  owed-update_by same id (x ∷ ps) = elim (Bool-cases (p x)) [
    | inl hit ↦ rw (hit, owed-update_by same id ps, owed, r.same_account x, same x hit) refl
    | inr miss ↦ rw (miss, owed-update_by same id ps) refl
  ]

  -- An update that changes no outstanding amount keeps the books sound.
  pub update_by-IsSound :
      ((x : Payout) → p x ≡ true → outstanding (f x) ≡ outstanding x)
      → (s : Store) → IsSound s
      → IsSound (record s { payouts = update_by p f s.payouts })
  update_by-IsSound same s v = record {
    table = v.table;
    posted_to = v.posted_to;
    ids = update_by-HasIds s.next_id s.payouts v.ids;
    backed = update_by-IsBacked s.accounts s.payouts v.backed;
    owes = λ id due. v.owes id due ∙ sym (owed-update_by same id s.payouts);
    balanced = v.balanced;
  }

+ℤ_shift : (a b c d e : ℤ) → b +ℤ d ≡ c +ℤ e → (a +ℤ b) +ℤ d ≡ (a +ℤ c) +ℤ e
+ℤ_shift a b c d e h = +ℤ_assoc a b d ∙ ap (λ z. a +ℤ z) h ∙ sym (+ℤ_assoc a c e)

abbrev pub share_of : ℕ → Payout → ℤ
share_of id x = if x.ledger_account_id == id then outstanding x else pos 0

module _ (key : ℕ) (g : Payout → Bool) (f : Payout → Payout) (r : IsRelabel f) where
  absent-count :
      (ps : List Payout)
      → find_by (λ q. q.id == key) ps ≡ none
      → count_by (λ q. q.id == key && g q) ps ≡ 0
  absent-count [] h = refl
  absent-count (x ∷ ps) h = elim (Bool-cases (x.id == key)) [
    | inl same ↦ absurd (cc (same, h))
    | inr other ↦ rw (other, absent-count ps (rw other at h)) refl
  ]

  absent-owed :
      (id : ℕ) (ps : List Payout)
      → find_by (λ q. q.id == key) ps ≡ none
      → owed id (update_by (λ q. q.id == key && g q) f ps) ≡ owed id ps
  absent-owed id [] h = refl
  absent-owed id (x ∷ ps) h = elim (Bool-cases (x.id == key)) [
    | inl same ↦ absurd (cc (same, h))
    | inr other ↦ rw (other, absent-owed id ps (rw other at h)) refl
  ]

  -- An update of one payout, by its id: it is claimed at most once, and what is owed changes by it.
  pub update_one :
      (n : ℕ) (ps : List Payout) {x : Payout}
      → HasIds n ps
      → find_by (λ q. q.id == key) ps ≡ some x
      → (count_by (λ q. q.id == key && g q) ps ≡ (if g x then 1 else 0))
        × ((id : ℕ)
            → g x ≡ true
            → owed id (update_by (λ q. q.id == key && g q) f ps) +ℤ share_of id x
              ≡ owed id ps +ℤ share_of id (f x))
  update_one n [] h e = cc
  update_one n (y ∷ ps) {x} h e = elim (Bool-cases (y.id == key)) [
    | inl here ↦
        let missing =
          subst (λ k. find_by (λ q. q.id == k) ps ≡ none) ((==_iff y.id key).0 here) h.1 in
        subst
          (λ x.
            (count_by (λ q. q.id == key && g q) (y ∷ ps) ≡ (if g x then 1 else 0))
            × ((id : ℕ)
                → g x ≡ true
                → owed id (update_by (λ q. q.id == key && g q) f (y ∷ ps)) +ℤ share_of id x
                  ≡ owed id (y ∷ ps) +ℤ share_of id (f x)))
          (some-injective y x (rw here at e))
          (
            rw (here, absent-count ps missing) refl,
            λ id hit. rw (here, hit, absent-owed id ps missing, owed) (omega int_laws),
          )
    | inr later ↦
        let (c, o) = update_one n ps h.2 (rw later at e) in
        (rw later c, λ id hit. rw later (+ℤ_shift (share_of id y) _ _ _ _ (o id hit)))
  ]

-- An update that meets no row changes nothing.
pub update_none :
    (p : Payout → Bool) (f : Payout → Payout) (ps : List Payout)
    → count_by p ps ≡ 0
    → update_by p f ps ≡ ps
update_none p f [] h = refl
update_none p f (x ∷ ps) h = elim (Bool-cases (p x)) [
  | inl hit ↦ absurd (ground (arith, rw hit at h))
  | inr miss ↦ rw (miss, update_none p f ps (rw miss at h)) refl
]
