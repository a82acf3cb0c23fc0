-- ===== src/System/Invariant.antt =====
-- The books of every database that the services can reach (src).
use splitcore.Base.{ℕ, ◌≡◌, refl, true, none}
use splitcore.Action.Keeps.{Keeps, bind-Keeps, pure-Keeps}
use splitcore.Schema.{Reference, Store}
use splitcore.Ledger.Repository.{get_trial_balance}
use splitcore.Settlement.Handlers.{settle-IsSound}
use splitcore.Payouts.{TransferOutcome}
use splitcore.Payouts.Events.{handle_transfer_event-IsSound}
use splitcore.Payouts.Worker.{
  process_payout-IsSound, retry_payout-IsSound, enqueue_due_payouts-IsSound,
}
use splitcore.Webhooks.Soundness.{handle-IsSound, ingest-IsSound}
use splitcore.Payments.Initialize.{initialize_payment-IsSound, get_payment_status-IsSound}
use splitcore.Books.{credit_balance, owed, find_account, is_owed, IsSound}
use splitcore.System.{
  World, settle_only, transfer_only, Step, start_payment, poll_payment, receive_webhook,
  work_webhook, work_payout, sweep_payouts, retry, Reachable, start, step, administer,
}

settle_only-IsSound : (w : World) (r : Reference) → Keeps IsSound (settle_only w r)
settle_only-IsSound w r =
    bind-Keeps
      (record { run = settle-IsSound w.verify_payment (λ id. w.add_payout_job id 0) w.now r })
      λ _. pure-Keeps

transfer_only-IsSound :
    (w : World) (r : Reference) (o : TransferOutcome) → Keeps IsSound (transfer_only w r o)
transfer_only-IsSound w r o = record {
  run = handle_transfer_event-IsSound w.now w.add_payout_job r o none;
}

step-IsSound : {s t : Store} → Step s t → IsSound s → IsSound t
step-IsSound {s} (start_payment w dto nanoid) v =
    (initialize_payment-IsSound w.frontend_url w.callback_url w.url_of w.initialize w.now dto
        nanoid).run
      s v
step-IsSound {s} (poll_payment w r) v =
    (get_payment_status-IsSound _
        (λ r. record {
          run = settle-IsSound w.verify_payment (λ id. w.add_payout_job id 0) w.now r;
        })
        r).run
      s v
step-IsSound {s} (receive_webhook w signature payload) v =
    (ingest-IsSound (settle_only w) (transfer_only w) w.now (settle_only-IsSound w)
        (transfer_only-IsSound w) w.verify_signature w.add_webhook_job w.queue_enabled signature
        payload).run
      s v
step-IsSound {s} (work_webhook w id) v =
    (handle-IsSound (settle_only w) (transfer_only w) w.now (settle_only-IsSound w)
        (transfer_only-IsSound w) id).run
      s v
step-IsSound {s} (work_payout w id) v =
    process_payout-IsSound w.provider w.add_payout_job w.now id s v
step-IsSound {s} (sweep_payouts w) v =
    enqueue_due_payouts-IsSound w.provider w.add_payout_job w.now s v
step-IsSound {s} (retry w id) v = retry_payout-IsSound w.provider w.add_payout_job w.now id s v

-- In every reachable database the books are sound: accounts are unique by id and by type and owner,
-- entries and payouts refer to accounts that exist, payouts are of positive amounts on payable
-- accounts that have an owner, the credits less the debits of such an account are the sum of its
-- payouts that are not SUCCESS, and all debits equal all credits.
pub Reachable-IsSound : {s : Store} → Reachable s → IsSound s
Reachable-IsSound start = record {
  table = tt;
  posted_to = tt;
  ids = tt;
  backed = tt;
  owes = λ id due. refl;
  balanced = refl;
}
Reachable-IsSound (step r next) = step-IsSound next (Reachable-IsSound r)
Reachable-IsSound (administer tables r) =
    let v = Reachable-IsSound r in
    record {
      table = v.table;
      posted_to = v.posted_to;
      ids = v.ids;
      backed = v.backed;
      owes = v.owes;
      balanced = v.balanced;
    }

-- In every reachable database the two totals of the trial balance are equal.
pub Reachable-get_trial_balance :
    {s : Store} → Reachable s → (get_trial_balance s).0 ≡ (get_trial_balance s).1
unfolding get_trial_balance
Reachable-get_trial_balance r = (Reachable-IsSound r).balanced

-- In every reachable database, for every payable account with an owner, the credits less the debits
-- on it are the sum of its payouts that are not SUCCESS.
pub Reachable-owed :
    {s : Store} (id : ℕ)
    → Reachable s
    → is_owed (find_account id s.accounts) ≡ true
    → credit_balance id s.entries ≡ owed id s.payouts
Reachable-owed id r due = (Reachable-IsSound r).owes id due
