-- ===== src/Kyc/Onboarding.antt =====
-- What onboarding promises to the payouts (src/kyc/kyc.service.ts), for every call of the service.
use splitcore.Base.{
  ℕ, ◌≡◌, refl, sym, ap, ◌∙◌, ◌⊎◌, inl, inr, true, false, some, arith, ◌==◌, ==_iff, ◌↔◌,
  if◌then◌else◌, is_some, find_by, All, Bool-cases, All-set_first, find_by-set_first,
}
use mathlib.Core.Option.{some-injective}
use mathlib.Core.Path.{subst}
use splitcore.Schema.{Entertainer, Store}
use splitcore.Payouts.{entertainer_ready}
use splitcore.Kyc.{
  KycWorld, KycCall, submit, ask_bank, confirm, check_identity, decide, run_call, has_id,
}
use splitcore.KycView.{next_step_for, done_step, to_view}
use splitcore.Kyc.Machine.{
  SameDestination, Move, same_details, new_details, named, confirmed, passed, stopped, Outcome,
  IsVetted,
}
use splitcore.Kyc.Soundness.{
  submit_bank_details-Outcome, resolve_account-Outcome, confirm_account-Outcome,
  verify_identity-Outcome, decide_review-Outcome,
}

-- A call, with any answers of the bank and the provider, leaves the database as it was, or makes one
-- move of the machine with the row of its entertainer and leaves all else as it was.
pub run_call-Outcome :
    (w : KycWorld) (id : ℕ) (c : KycCall) (s : Store) → Outcome id s (run_call w id c s).1
unfolding run_call
run_call-Outcome w id (submit input) s = submit_bank_details-Outcome w.resolve_bank w.now id input s
run_call-Outcome w id ask_bank s = resolve_account-Outcome w.resolve w.now id s
run_call-Outcome w id (confirm name) s = confirm_account-Outcome w.upper w.now id name s
run_call-Outcome w id (check_identity document number) s =
    verify_identity-Outcome w.verify w.now id document number s
run_call-Outcome w id (decide decision reason) s = decide_review-Outcome w.now id decision reason s

move-IsVetted : {e e' : Entertainer} → Move e e' → IsVetted e → IsVetted e'
move-IsVetted {e} {e'} (same_details a d c k) v = record {
  named_account = rw (d.holder, d.account, d.bank) v.named_account;
  confirmed_holder = rw (c, d.holder) v.confirmed_holder;
  verified_account = inl (rw k refl);
}
move-IsVetted {e} {e'} (new_details a n c k) v = record {
  named_account = inl n;
  confirmed_holder = inl (rw c refl);
  verified_account = inl (rw k refl);
}
move-IsVetted {e} {e'} (named a p b i c k) v = record {
  named_account = inr (rw (b, i) p);
  confirmed_holder = inl (rw c refl);
  verified_account = inl (rw k refl);
}
move-IsVetted {e} {e'} (confirmed a p d k) v = record {
  named_account = rw (d.holder, d.account, d.bank) v.named_account;
  confirmed_holder = inr (rw d.holder p);
  verified_account = inl (rw k refl);
}
move-IsVetted {e} {e'} (passed a p d c k) v = record {
  named_account = rw (d.holder, d.account, d.bank) v.named_account;
  confirmed_holder = rw (c, d.holder) v.confirmed_holder;
  verified_account = inr (rw c p);
}
move-IsVetted {e} {e'} (stopped a d c k) v = record {
  named_account = rw (d.holder, d.account, d.bank) v.named_account;
  confirmed_holder = rw (c, d.holder) v.confirmed_holder;
  verified_account = inl (ground (arith, k));
}

Outcome-IsVetted :
    {id : ℕ} {s s' : Store}
    → Outcome id s s'
    → All IsVetted s.entertainers
    → All IsVetted s'.entertainers
Outcome-IsVetted {id} {s} {s'} (inl same) all =
    subst (λ t. All IsVetted t.entertainers) (sym same) all
Outcome-IsVetted {id} {s} {s'} (inr m) all =
    subst (λ t. All IsVetted t.entertainers) (sym m.left)
      (All-set_first IsVetted (has_id id) m.change s.entertainers m.found all
        (move-IsVetted m.move))

-- Every call keeps the rows of all entertainers vetted: a holder's name is only stored beside an
-- account and a bank, a confirmation only beside a holder's name that is not empty, and who is
-- VERIFIED has a confirmed account.
pub run_call-IsVetted :
    (w : KycWorld) (id : ℕ) (c : KycCall) (s : Store)
    → All IsVetted s.entertainers
    → All IsVetted (run_call w id c s).1.entertainers
run_call-IsVetted w id c s all = Outcome-IsVetted (run_call-Outcome w id c s) all

-- How the row of one entertainer, any one, stands after a call to how it stood before.
pub data Change (e e' : Entertainer) : Type 0 where
  unchanged : e' ≡ e → Change e e'
  moved : Move e e' → Change e e'

details_before_after :
    {id : ℕ} {s s' : Store} (k : ℕ) {e e' : Entertainer}
    → Outcome id s s'
    → find_by (has_id k) s.entertainers ≡ some e
    → find_by (has_id k) s'.entertainers ≡ some e'
    → Change e e'
details_before_after {id} {s} {s'} k {e} {e'} (inl same) h h' =
    unchanged (some-injective e' e (sym h' ∙ ap (λ t. find_by (has_id k) t.entertainers) same ∙ h))
details_before_after {id} {s} {s'} k {e} {e'} (inr m) h h' = elim (Bool-cases (k == id)) [
  | inl b ↦
      let i : k ≡ id = (==_iff k id).0 b in
      let before : m.row ≡ e =
        some-injective m.row e
          (sym m.found ∙ ap (λ n. find_by (has_id n) s.entertainers) (sym i) ∙ h) in
      let after : m.change m.row ≡ e' =
        some-injective (m.change m.row) e' (sym (look ∙ rw b refl) ∙ h') in
      moved (subst (λ x. Move x e') before (subst (λ x. Move m.row x) after m.move))
  | inr b ↦ unchanged (some-injective e' e (sym h' ∙ look ∙ rw b h))
]
  where
    look :
        find_by (has_id k) s'.entertainers
        ≡ (if k == id then some (m.change m.row) else find_by (has_id k) s.entertainers)
    look =
        ap (λ t. find_by (has_id k) t.entertainers) m.left
        ∙ find_by-set_first (λ (x : Entertainer). x.id) k id m.change s.entertainers m.found
            m.same_id

-- Payouts of an entertainer are enabled, by the test of the payouts.
abbrev pub Enabled : Entertainer → Type 0
Enabled e = entertainer_ready e ≡ true

opens :
    {e e' : Entertainer}
    → Change e e'
    → entertainer_ready e ≡ false
    → Enabled e'
    → (is_some e.account_confirmed_at ≡ true)
      × SameDestination e e'
      × (e'.account_confirmed_at ≡ e.account_confirmed_at)
opens {e} {e'} (unchanged same) shut ready = absurd (cc (same, shut, ready))
opens {e} {e'} (moved (passed a p d c k)) shut ready = (p, d, c)
opens {e} {e'} (moved (same_details a d c k)) shut ready = absurd (cc (rw k at ready))
opens {e} {e'} (moved (new_details a n c k)) shut ready = absurd (cc (rw k at ready))
opens {e} {e'} (moved (named a p b i c k)) shut ready = absurd (cc (rw k at ready))
opens {e} {e'} (moved (confirmed a p d k)) shut ready = absurd (cc (rw k at ready))
opens {e} {e'} (moved (stopped a d c k)) shut ready = absurd (ground (arith, k, ready))

closes : {e e' : Entertainer} → Change e e' → SameDestination e e' ⊎ (entertainer_ready e' ≡ false)
closes {e} {e'} (unchanged same) =
    inl (record { bank = rw same refl; account = rw same refl; holder = rw same refl })
closes {e} {e'} (moved (passed a p d c k)) = inl d
closes {e} {e'} (moved (same_details a d c k)) = inl d
closes {e} {e'} (moved (new_details a n c k)) = inr (rw k refl)
closes {e} {e'} (moved (named a p b i c k)) = inr (rw k refl)
closes {e} {e'} (moved (confirmed a p d k)) = inl d
closes {e} {e'} (moved (stopped a d c k)) = inl d

module _ (w : KycWorld) (id : ℕ) (c : KycCall) (s : Store) (k : ℕ) {e e' : Entertainer} where
  -- When a call enables the payouts of an entertainer, the account was confirmed before the call, and
  -- neither the account nor its bank, holder or confirmation is another one after it.
  pub run_call-opens :
      find_by (has_id k) s.entertainers ≡ some e
      → find_by (has_id k) (run_call w id c s).1.entertainers ≡ some e'
      → entertainer_ready e ≡ false
      → entertainer_ready e' ≡ true
      → (is_some e.account_confirmed_at ≡ true)
        × SameDestination e e'
        × (e'.account_confirmed_at ≡ e.account_confirmed_at)
  run_call-opens h h' shut ready =
      opens (details_before_after k (run_call-Outcome w id c s) h h') shut ready

  -- After a call an entertainer has the account, bank and holder of before, or no payouts enabled.
  pub run_call-closes :
      find_by (has_id k) s.entertainers ≡ some e
      → find_by (has_id k) (run_call w id c s).1.entertainers ≡ some e'
      → SameDestination e e' ⊎ (entertainer_ready e' ≡ false)
  run_call-closes h h' = closes (details_before_after k (run_call-Outcome w id c s) h h')

-- For a vetted row the status view says DONE exactly when it says that payouts are enabled, and that
-- is the test of the payouts.
pub next_step_for-done :
    (e : Entertainer)
    → IsVetted e
    → ((next_step_for e ≡ done_step) ↔ ((to_view e).payouts_enabled ≡ true))
      × ((to_view e).payouts_enabled ≡ entertainer_ready e)
unfolding next_step_for to_view
next_step_for-done e v = (ground arith, refl)
