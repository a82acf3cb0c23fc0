-- ===== src/Payouts/Events.antt =====
-- The outcomes of transfers against the invariant of the books: `markSucceeded`, `markForReview`,
-- `flagForOperator` and `handleTransferEvent` (src/payouts/payouts.service.ts).
use mathlib.Core.Path.{subst}
use splitcore.Base.{
  ⊤, ℕ, ◌≡◌, refl, inl, inr, ◌&&◌, not, Bool, true, Option, some, map, arith, ◌==◌, leb, find_by,
  String, if◌then◌else◌, Bool-cases, Option-cases,
}
use splitcore.Action.{pure, Result, Result-cases, transaction}
use splitcore.Action.Keeps.{Keeps, bind-Keeps, transaction_run, bind_run, pure-Keeps, if_Keeps}
use splitcore.Schema.{Reference, is_reference, Review, exhausted, Payout, Store}
use splitcore.Ledger.{payout_lines, opposite}
use splitcore.Ledger.Payouts.{compute_payout_entries-lines}
use splitcore.Books.{is_success, outstanding, find_account, IsSound, IsSound-jobs}
use splitcore.Books.Updates.{relabels, IsRelabel, update_by-IsSound}
use splitcore.Payouts.{TransferOutcome, max_automatic_transfer_attempts}
use splitcore.Payouts.Transfers.{
  is_reversed, unpaid_with, posting_of, account_of, update_payouts, claim_success, mark_succeeded,
  set_review, mark_for_review, set_flag, flag_for_operator, claim_reversal, set_retrying, enqueue,
  retry_or_review, reverse_payout, fail_attempt, transfer_event, handle_transfer_event,
}
use splitcore.Payouts.Soundness.{
  stamped, relabel, find-id, find_own, payout, claim_success-IsSound, claim_reversal-IsSound,
}

module _ (now : ℕ) where
  pub mark_succeeded-IsSound :
      (id : ℕ) (reference : Reference) (s : Store)
      → IsSound s
      → IsSound (mark_succeeded now id reference s).1
  unfolding mark_succeeded account_of
  mark_succeeded-IsSound id reference s v =
      elim (Option-cases (find_by (λ p. p.id == id) s.payouts)) [
        | inl missing ↦ rw missing v
        | inr (x, found) ↦ elim (Option-cases (find_account x.ledger_account_id s.accounts)) [
          | inl missing ↦ rw (found, missing) v
          | inr (a, account) ↦
              let own = find_own s.next_id (λ p. p.id == id) s.payouts v.ids found in
              let entries =
                (compute_payout_entries-lines (posting_of a x)
                  (payout now reference s x a v own account)).0 in
              let claim = claim_success-IsSound now reference s x a v own account in
              rw (found, account, entries)
                (transaction_run IsSound
                  (claim_success now id reference x.transaction_id (payout_lines (posting_of a x)))
                  s v
                  (subst
                    (λ k.
                      IsSound
                        (claim_success now k reference x.transaction_id
                          (payout_lines (posting_of a x)) s).1)
                    (find-id id s.payouts found) claim))
        ]
      ]

  -- A change of the payouts' state that leaves what is outstanding.
  pub update_payouts-IsSound :
      (p : Payout → Bool) (f : Payout → Payout)
      → IsRelabel f
      → ((x : Payout) → p x ≡ true → outstanding (stamped now f x) ≡ outstanding x)
      → Keeps IsSound (update_payouts now p f)
  update_payouts-IsSound p f r same = record {
    run = λ s v. update_by-IsSound p (stamped now f) (relabel now f r) same s v;
  }

  pub mark_for_review-IsSound :
      (id : ℕ) (reason : Review) → Keeps IsSound (mark_for_review now id reason)
  unfolding mark_for_review
  mark_for_review-IsSound id reason = record {
    run =
        (update_payouts-IsSound (λ p. p.id == id && not (is_success p.status))
          (set_review now reason) (relabels _ λ x. (refl, refl, refl))
          λ x h. ground (arith, h)).run;
  }

  pub flag_for_operator-IsSound : (id : ℕ) → Keeps IsSound (flag_for_operator now id)
  unfolding flag_for_operator
  flag_for_operator-IsSound id = record {
    run =
        (update_payouts-IsSound (λ p. p.id == id) (set_flag now)
          (relabels _ λ x. (refl, refl, refl)) λ x h. refl).run;
  }

  module _ (add_job : ℕ → ℕ → Result ⊤) where
    pub enqueue-IsSound : (id delay : ℕ) → Keeps IsSound (enqueue now add_job id delay)
    enqueue-IsSound id delay = record {
      run = λ s v. elim (Result-cases (add_job id delay)) [
        | inl (u, e) ↦ rw e (IsSound-jobs s _ v)
        | inr (x, e) ↦ rw e v
      ];
    }

    retry_or_review-IsSound :
        (outcome : TransferOutcome) (reason : Option String) (x : Payout)
        → Keeps IsSound (retry_or_review now add_job outcome reason x)
    unfolding retry_or_review
    retry_or_review-IsSound outcome reason x = record {
      run = λ s v. elim (Bool-cases (leb max_automatic_transfer_attempts x.attempts)) [
        | inl last ↦ rw last (
            (mark_for_review-IsSound x.id (exhausted (is_reversed outcome) x.attempts reason)).run s
              v)
        | inr more ↦ rw more ((enqueue-IsSound x.id 60000).run s v)
      ];
    }

    fail_attempt-IsSound :
        (reference : Reference) (outcome : TransferOutcome) (reason : Option String) (x : Payout)
        → Keeps IsSound (fail_attempt now add_job reference outcome reason x)
    unfolding fail_attempt
    fail_attempt-IsSound reference outcome reason x =
        bind-Keeps
          (update_payouts-IsSound (λ p. p.id == x.id && unpaid_with reference p)
            (set_retrying now outcome reason) (relabels _ λ x. (refl, refl, refl))
            λ y h. ground (arith, h))
          λ _. retry_or_review-IsSound outcome reason x

    reverse_payout-IsSound :
        (reference : Reference) (outcome : TransferOutcome) (reason : Option String) (s : Store)
        (x : Payout)
        → IsSound s
        → find_by (λ p. p.id == x.id) s.payouts ≡ some x
        → IsSound (reverse_payout now add_job reference outcome reason x s).1
    unfolding reverse_payout account_of
    reverse_payout-IsSound reference outcome reason s x v own =
        elim (Option-cases (find_account x.ledger_account_id s.accounts)) [
          | inl missing ↦ rw missing v
          | inr (a, account) ↦
              let es = map opposite (payout_lines (posting_of a x)) in
              let entries =
                (compute_payout_entries-lines (posting_of a x)
                  (payout now reference s x a v own account)).1 in
              let claim = claim_reversal-IsSound now reference s x a v own account reason in
              rw (account, entries)
                (bind_run IsSound
                  (transaction (claim_reversal now x.id reference reason x.transaction_id es))
                  (λ reversed.
                    if reversed then retry_or_review now add_job outcome reason x else pure tt)
                  s
                  (transaction_run IsSound
                    (claim_reversal now x.id reference reason x.transaction_id es) s v claim)
                  λ reversed.
                    if_Keeps (λ _. retry_or_review-IsSound outcome reason x) λ _. pure-Keeps)
        ]

    transfer_event-IsSound :
        (reference : Reference) (outcome : TransferOutcome) (reason : Option String) (s : Store)
        (x : Payout)
        → IsSound s
        → find_by (λ p. p.id == x.id) s.payouts ≡ some x
        → IsSound (transfer_event now add_job reference outcome reason (some x) s).1
    unfolding transfer_event
    transfer_event-IsSound reference TransferOutcome.success reason s x v own =
        mark_succeeded-IsSound x.id reference s v
    transfer_event-IsSound reference TransferOutcome.failed reason s x v own =
        elim (Bool-cases (is_success x.status)) [
          | inl paid ↦ rw paid v
          | inr unpaid ↦
              rw unpaid ((fail_attempt-IsSound reference TransferOutcome.failed reason x).run s v)
        ]
    transfer_event-IsSound reference TransferOutcome.reversed reason s x v own =
        elim (Bool-cases (is_success x.status)) [
          | inl paid ↦
              rw paid (reverse_payout-IsSound reference TransferOutcome.reversed reason s x v own)
          | inr unpaid ↦
              rw unpaid ((fail_attempt-IsSound reference TransferOutcome.reversed reason x).run s v)
        ]

    -- An event of the provider about a transfer keeps the books sound, whichever it is and whenever
    -- it comes.
    pub handle_transfer_event-IsSound :
        (reference : Reference) (outcome : TransferOutcome) (reason : Option String) (s : Store)
        → IsSound s
        → IsSound (handle_transfer_event now add_job reference outcome reason s).1
    unfolding handle_transfer_event transfer_event
    handle_transfer_event-IsSound reference outcome reason s v =
        elim (Option-cases (find_by (λ p. is_reference reference p.transfer_reference) s.payouts)) [
          | inl missing ↦ rw missing v
          | inr (x, found) ↦ rw found (
              transfer_event-IsSound reference outcome reason s x v (
                find_own s.next_id (λ p. is_reference reference p.transfer_reference) s.payouts
                  v.ids found))
        ]
