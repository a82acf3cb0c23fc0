-- ===== src/Payouts/Worker.antt =====
-- The worker and the sweep against the invariant of the books: `processPayout`, `retryPayout` and
-- `enqueueDuePayouts` (src/payouts/payouts.service.ts).
use splitcore.Base.{
  ⊤, ℕ, ◌≡◌, refl, inl, inr, ◌&&◌, Bool, true, Option, none, some, List, [], ◌∷◌, arith, ◌==◌, ◌+◌,
  find_by, count_by, String, length, Bool-cases, Option-cases,
}
use splitcore.Action.{pure, Result, Result-cases, Error}
use splitcore.Action.Keeps.{
  Keeps, bind-Keeps, pure-Keeps, if_Keeps, bind_run, gets-Keeps, or_throw_same, throw-Keeps,
}
use splitcore.Schema.{LedgerAccount, Reference, PayoutStatus, payout_eq, po, Payout, Store}
use splitcore.Books.Updates.{relabels}
use splitcore.Books.{find_account, IsSound}
use splitcore.Payouts.{PayoutProvider}
use splitcore.Payouts.Transfers.{account_of, update_payouts}
use splitcore.Payouts.{
  TransferStatus, TransferReason, PayoutDestination, send, hold, review, is_open,
  resolve_destination,
}
use splitcore.Payouts.Process.{
  Previous, paid, waiting, parked, unpaid, previous_of, set_status, set_attempt, set_recipient,
  clear_failure, hold_payout, after_transfer, recipient_params, transfer_params, send_transfer,
  transfer_claimed, claim_attempt, send_payout, start_transfer, after_previous, check_previous,
  process_found, process_payout, retry_payout, refuse_retry, due_payouts, enqueue_all,
  enqueue_due_payouts,
}
use splitcore.Payouts.Events.{
  mark_succeeded-IsSound, update_payouts-IsSound, mark_for_review-IsSound,
  flag_for_operator-IsSound, enqueue-IsSound, handle_transfer_event-IsSound,
}

module _ (provider : PayoutProvider) (add_job : ℕ → ℕ → Result ⊤) (now : ℕ) where
  hold_payout-IsSound :
      (x : Payout) → is_open x.status ≡ true → Keeps IsSound (hold_payout provider add_job now x)
  hold_payout-IsSound x opened = record {
    run = λ s v. elim (Bool-cases (payout_eq x.status PayoutStatus.queued)) [
      | inl queued ↦ rw queued v
      | inr other ↦ rw other (
          (update_payouts-IsSound now (λ p. p.id == x.id && payout_eq p.status x.status)
              (set_status PayoutStatus.queued) (relabels _ λ x. (refl, refl, refl))
              λ y h. ground (arith, h, opened)).run
            s v)
    ];
  }

  after_transfer-IsSound :
      (id : ℕ) (reference : Reference) (reason : Option String) (status : TransferStatus)
      → Keeps IsSound (after_transfer provider add_job now id reference reason status)
  unfolding after_transfer
  after_transfer-IsSound id reference reason TransferStatus.success = record {
    run = mark_succeeded-IsSound now id reference;
  }
  after_transfer-IsSound id reference reason TransferStatus.failed = record {
    run = handle_transfer_event-IsSound now add_job reference _ reason;
  }
  after_transfer-IsSound id reference reason TransferStatus.reversed = record {
    run = handle_transfer_event-IsSound now add_job reference _ reason;
  }
  after_transfer-IsSound id reference reason TransferStatus.requires_action =
      flag_for_operator-IsSound now id
  after_transfer-IsSound id reference reason TransferStatus.pending = record { run = λ s v. v }

  send_transfer-IsSound :
      (x : Payout) (reference : Reference) (reason : TransferReason) (recipient : String)
      → Keeps IsSound (send_transfer provider add_job now x reference reason recipient)
  unfolding send_transfer
  send_transfer-IsSound x reference reason recipient = record {
    run = λ s v.
        elim (Result-cases
          (provider.initiate_transfer (transfer_params x reference reason recipient))) [
            | inl (transfer, sent) ↦ rw sent (
                (after_transfer-IsSound x.id reference transfer.failure_reason transfer.status).run
                  s v)
            | inr (e, refused) ↦ rw refused v
          ];
  }

  set_recipient-IsSound :
      (x : Payout) (recipient : String)
      → Keeps IsSound (update_payouts now (λ p. p.id == x.id) (set_recipient recipient))
  set_recipient-IsSound x recipient =
      update_payouts-IsSound now (λ p. p.id == x.id) (set_recipient recipient)
        (relabels _ λ x. (refl, refl, refl)) λ y h. refl

  transfer_claimed-IsSound :
      (x : Payout) (a : LedgerAccount) (reference : Reference) (name code number : String)
      (reason : TransferReason)
      → Keeps IsSound (transfer_claimed provider add_job now x a reference name code number reason)
  unfolding transfer_claimed
  transfer_claimed-IsSound x a reference name code number reason = record {
    run = λ s v.
        elim (Result-cases (provider.create_recipient (recipient_params a name code number))) [
          | inl (recipient, made) ↦ rw made (
              (bind-Keeps (set_recipient-IsSound x recipient)
                  λ _. send_transfer-IsSound x reference reason recipient).run
                s v)
          | inr (e, refused) ↦ rw refused v
        ];
  }

  claim_attempt-IsSound :
      (x : Payout) (reference : Reference)
      → Keeps IsSound (claim_attempt provider add_job now x reference)
  unfolding claim_attempt
  claim_attempt-IsSound x reference = record {
    run =
        (update_payouts-IsSound now
          (λ p. p.id == x.id && is_open p.status && p.attempts == x.attempts)
          (set_attempt now (x.attempts + 1) reference) (relabels _ λ x. (refl, refl, refl))
          λ y h. ground (arith, h)).run;
  }

  send_payout-IsSound :
      (x : Payout) (a : LedgerAccount) (destination : PayoutDestination)
      → is_open x.status ≡ true
      → Keeps IsSound (send_payout provider add_job now x a destination)
  unfolding send_payout
  send_payout-IsSound x a (review reason) opened = mark_for_review-IsSound now x.id reason
  send_payout-IsSound x a hold opened = hold_payout-IsSound x opened
  send_payout-IsSound x a (send name code number reason) opened =
      let reference = po x.id (x.attempts + 1) in
      bind-Keeps (claim_attempt-IsSound x reference) λ count.
        if_Keeps {c = count == 0} {m = pure tt}
          {k = transfer_claimed provider add_job now x a reference name code number reason}
          (λ _. pure-Keeps) λ _. transfer_claimed-IsSound x a reference name code number reason

  start_transfer-IsSound :
      (x : Payout) (a : LedgerAccount)
      → is_open x.status ≡ true
      → Keeps IsSound (start_transfer provider add_job now x a)
  unfolding start_transfer
  start_transfer-IsSound x a opened = record {
    run = λ s v. (send_payout-IsSound x a (resolve_destination a.type a.owner_id s) opened).run s v;
  }

  after_previous-IsSound :
      (x : Payout) (a : LedgerAccount) (reference : Reference) (previous : Previous)
      → is_open x.status ≡ true
      → Keeps IsSound (after_previous provider add_job now x a reference previous)
  unfolding after_previous
  after_previous-IsSound x a reference paid opened = record {
    run = mark_succeeded-IsSound now x.id reference;
  }
  after_previous-IsSound x a reference waiting opened = pure-Keeps
  after_previous-IsSound x a reference parked opened = flag_for_operator-IsSound now x.id
  after_previous-IsSound x a reference unpaid opened = start_transfer-IsSound x a opened

  check_previous-IsSound :
      (x : Payout) (a : LedgerAccount) (reference : Option Reference)
      → is_open x.status ≡ true
      → Keeps IsSound (check_previous provider add_job now x a reference)
  unfolding check_previous
  check_previous-IsSound x a none opened = start_transfer-IsSound x a opened
  check_previous-IsSound x a (some reference) opened = record {
    run = λ s v. elim (Result-cases (provider.verify_transfer reference)) [
      | inl (status, known) ↦
          rw known ((after_previous-IsSound x a reference (previous_of status) opened).run s v)
      | inr (e, refused) ↦ rw refused v
    ];
  }

  process_found-IsSound :
      (found : Option Payout) → Keeps IsSound (process_found provider add_job now found)
  unfolding process_found account_of
  process_found-IsSound none = pure-Keeps
  process_found-IsSound (some x) = record {
    run = λ s v. elim (Option-cases (find_account x.ledger_account_id s.accounts)) [
      | inl missing ↦ rw missing v
      | inr (a, account) ↦ elim (Bool-cases (is_open x.status)) [
        | inl opened ↦
            rw (account, opened) ((check_previous-IsSound x a x.transfer_reference opened).run s v)
        | inr closed ↦ rw (account, closed) v
      ]
    ];
  }

  -- A run of the worker on a payout keeps the books sound, whatever the provider and the queue
  -- answer, and however the run ends.
  pub process_payout-IsSound :
      (id : ℕ) (s : Store) → IsSound s → IsSound (process_payout provider add_job now id s).1
  unfolding process_payout
  process_payout-IsSound id s v =
      (process_found-IsSound (find_by (λ p. p.id == id) s.payouts)).run s v

  clear_failure-IsSound :
      (id : ℕ)
      → Keeps IsSound (
          update_payouts now
            (λ p. p.id == id && payout_eq p.status PayoutStatus.failed)
            clear_failure)
  clear_failure-IsSound id =
      update_payouts-IsSound now (λ p. p.id == id && payout_eq p.status PayoutStatus.failed)
        clear_failure (relabels _ λ x. (refl, refl, refl)) λ y h. ground (arith, h)

  refuse_retry-IsSound :
      (found : Option Payout) → Keeps IsSound (refuse_retry provider add_job now found)
  refuse_retry-IsSound none = throw-Keeps
  refuse_retry-IsSound (some x) = throw-Keeps

  enqueue_all-IsSound : (ps : List Payout) → Keeps IsSound (enqueue_all provider add_job now ps)
  unfolding enqueue_all
  enqueue_all-IsSound [] = pure-Keeps
  enqueue_all-IsSound (p ∷ ps) =
      bind-Keeps (enqueue-IsSound now add_job p.id 0) λ _. enqueue_all-IsSound ps

  -- The sweep keeps the books sound.
  pub enqueue_due_payouts-IsSound :
      (s : Store) → IsSound s → IsSound (enqueue_due_payouts provider add_job now s).1
  unfolding enqueue_due_payouts
  enqueue_due_payouts-IsSound s v =
      bind_run IsSound (enqueue_all provider add_job now (due_payouts provider add_job now s))
        (λ _. pure (length (due_payouts provider add_job now s))) s
        ((enqueue_all-IsSound (due_payouts provider add_job now s)).run s v) λ _. pure-Keeps

  -- A manual retry keeps the books sound.
  pub retry_payout-IsSound :
      (id : ℕ) (s : Store) → IsSound s → IsSound (retry_payout provider add_job now id s).1
  unfolding retry_payout
  retry_payout-IsSound id s v =
      let p : Payout → Bool = λ q. q.id == id && payout_eq q.status PayoutStatus.failed in
      let v' = (clear_failure-IsSound id).run s v in
      let s' = (update_payouts now p clear_failure s).1 in
      elim (Bool-cases (count_by p s.payouts == 0)) [
        | inl lost ↦
            rw lost ((refuse_retry-IsSound (find_by (λ q. q.id == id) s'.payouts)).run s' v')
        | inr won ↦ rw won (
            (bind-Keeps (enqueue-IsSound now add_job id 0)
                λ _. gets-Keeps λ found. or_throw_same Error.external found).run
              s' v')
      ]
