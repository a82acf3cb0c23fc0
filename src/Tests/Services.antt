-- ===== src/Tests/Services.antt =====
-- Runs of the services over one database (src), and the theorems at concrete calls.
use splitcore.Base.{◌⊎◌, inl, inr, ◌≡◌, refl, true, false, none, some, [], ◌∷◌, arith}
use splitcore.Int.{ℤ, pos, ◌+ℤ◌, ◌-ℤ◌}
use splitcore.Reconciliation.{report_of, run}
use splitcore.Reconciliation.Identity.{HouseAccounts, run-identity}
use splitcore.Action.{ok, err, Error, Result}
use splitcore.Schema.{
  Reference, Payout, PayoutStatus, venue_payable, pay, po, PaymentStatus, PaymentTransaction, Store,
}
use splitcore.Settlement.{claim_and_post, settle}
use splitcore.Settlement.Handlers.{settle-IsSound}
use splitcore.Settlement.Once.{IsFinal, claim_and_post-once, settle-IsFinal}
use splitcore.Ledger.{PayoutForPosting, payout_lines}
use splitcore.Ledger.Payouts.{compute_payout_entries-lines}
use splitcore.Ledger.Totals.{IsBalanced}
use splitcore.Ledger.Repository.{get_trial_balance}
use splitcore.Payouts.{VerifiedStatus, TransferOutcome}
use splitcore.Payouts.Transfers.{handle_transfer_event}
use splitcore.Payouts.Process.{process_payout}
use splitcore.Payouts.Events.{handle_transfer_event-IsSound}
use splitcore.Payouts.Once.{MayPay, still_pending, process_payout-no_transfer}
use splitcore.Payouts.Worker.{process_payout-IsSound}
use splitcore.SplitRules.{find_active_by_venue}
use splitcore.Payments.{PaymentInitResponse, get_payment_status, new_payment, initialize_payment}
use splitcore.Books.{IsSound, find_account, is_owed}
use splitcore.System.{
  empty_store, Reachable, start, step, administer, start_payment, poll_payment, work_payout,
}
use splitcore.System.Invariant.{Reachable-IsSound}
use splitcore.Tests.{tables, verified, world, dto}

-- A guest starts a payment, and the provider confirms it.
abbrev pub started : Store
started =
    (initialize_payment world.frontend_url world.callback_url world.url_of world.initialize
      world.now dto 1 tables).1

-- The guest's page asks for the status, which settles the payment.
abbrev polled : Store
polled =
    (get_payment_status (settle world.verify_payment (λ id. world.add_payout_job id 0) world.now)
      (pay 1) started).1

-- The worker pays the venue's share, and the provider confirms the transfer.
abbrev paid : Store
paid = (process_payout world.provider world.add_payout_job world.now 5 polled).1

started-Reachable : Reachable started
started-Reachable = step (administer tables start) (start_payment world dto 1)

polled-Reachable : Reachable polled
polled-Reachable = step started-Reachable (poll_payment world (pay 1))

paid-Reachable : Reachable paid
paid-Reachable = step polled-Reachable (work_payout world 5)

polled_owes : is_owed (find_account 2 polled.accounts) ≡ true
unfolding get_payment_status initialize_payment splitcore.Payments.checked find_active_by_venue
    splitcore.Payments.start_payment splitcore.Payments.after_initialize settle
    splitcore.Ledger.compute_payment_entries splitcore.Int.◌+ℤ◌ splitcore.Ledger.assert_balanced
    splitcore.Ledger.add_totals splitcore.Ledger.apply_basis_points splitcore.Double.floor_quotient
    splitcore.Double.times splitcore.Double.whole_of_double splitcore.Double.scale_up
    splitcore.Int.◌*ℤ◌ splitcore.Int.◌-ℤ◌ claim_and_post splitcore.Ledger.Repository.post
    splitcore.Ledger.Repository.entry_rows splitcore.Ledger.Repository.resolve_account_id
    splitcore.Ledger.Repository.resolve_entries splitcore.Ledger.Repository.resolve_entry
    splitcore.Ledger.assert_valid_split splitcore.Payments.build_callback_url
    splitcore.Settlement.enqueue_payouts splitcore.Settlement.reload
    splitcore.Settlement.create_payouts splitcore.Settlement.create_payout
polled_owes = refl

polled-HouseAccounts : HouseAccounts polled.accounts
unfolding get_payment_status initialize_payment splitcore.Payments.checked find_active_by_venue
    splitcore.Payments.start_payment splitcore.Payments.after_initialize settle
    splitcore.Ledger.compute_payment_entries splitcore.Int.◌+ℤ◌ splitcore.Ledger.assert_balanced
    splitcore.Ledger.add_totals splitcore.Ledger.apply_basis_points splitcore.Double.floor_quotient
    splitcore.Double.times splitcore.Double.whole_of_double splitcore.Double.scale_up
    splitcore.Int.◌*ℤ◌ splitcore.Int.◌-ℤ◌ claim_and_post splitcore.Ledger.Repository.post
    splitcore.Ledger.Repository.entry_rows splitcore.Ledger.Repository.resolve_account_id
    splitcore.Ledger.Repository.resolve_entries splitcore.Ledger.Repository.resolve_entry
    splitcore.Ledger.assert_valid_split splitcore.Payments.build_callback_url
    splitcore.Settlement.enqueue_payouts splitcore.Settlement.reload
    splitcore.Settlement.create_payouts splitcore.Settlement.create_payout
polled-HouseAccounts = (inr refl, (inl refl, (inl refl, (inr refl, tt))))

Reachable-IsSound_example : IsSound paid
Reachable-IsSound_example = Reachable-IsSound paid-Reachable

settle-IsSound_example : IsSound (settle verified (λ id. ok tt) 5 (pay 1) started).1
settle-IsSound_example =
    settle-IsSound verified (λ id. ok tt) 5 (pay 1) started (Reachable-IsSound started-Reachable)

process_payout-IsSound_example : IsSound paid
process_payout-IsSound_example =
    process_payout-IsSound world.provider world.add_payout_job world.now 5 polled
      (Reachable-IsSound polled-Reachable)

handle_transfer_event-IsSound_example :
    IsSound
      (handle_transfer_event 6 (λ id delay. ok tt) (po 5 1) TransferOutcome.reversed none paid).1
handle_transfer_event-IsSound_example =
    handle_transfer_event-IsSound 6 (λ id delay. ok tt) (po 5 1) TransferOutcome.reversed none paid
      (Reachable-IsSound paid-Reachable)

abbrev lines : PayoutForPosting
lines = record { account_type = venue_payable; owner_id = some 10; amount_kobo = pos 2500 }

lines_balance : IsBalanced (payout_lines lines)
lines_balance =
    (compute_payout_entries-lines lines
      (record { payable = refl; owned = refl; amount = (omega arith, omega arith) })).2

claim_and_post-once_example :
    claim_and_post 7 0 [] (claim_and_post 6 0 (payout_lines lines) started).1
    ≡ (ok none, (claim_and_post 6 0 (payout_lines lines) started).1)
claim_and_post-once_example =
    claim_and_post-once 0 6 7 (payout_lines lines) [] started lines_balance

-- A payment that is settled.
abbrev done : PaymentTransaction
done = record {
  id = 0;
  external_reference = pay 1;
  venue_id = 10;
  entertainer_id = some 20;
  guest_session_id = 70;
  gross_amount_kobo = pos 100000;
  guest_display_name = none;
  display_name_enabled = false;
  split_rule_id = some 50;
  status = PaymentStatus.success;
}

abbrev after : Store
after = record empty_store { payments = done ∷ [] }

settle-IsFinal_example :
    (IsFinal PaymentStatus.success
      × (settle verified (λ id. ok tt) 5 (pay 1) after ≡ (ok (some done), after)))
    ⊎ ((IsFinal PaymentStatus.success → ⊥)
        × (settle (λ r. err Error.external) (λ id. ok tt) 5 (pay 1) after
            ≡ (err Error.external, after)))
settle-IsFinal_example =
    settle-IsFinal verified (λ id. ok tt) 5 Error.external (pay 1) after {p = done} refl

-- A payout whose transfer is still pending at the provider.
abbrev sent : Payout
sent = record {
  id = 5;
  ledger_account_id = 3;
  transaction_id = 0;
  transfer_reference = some (po 5 1);
  recipient_code = some "RCP_1";
  amount_kobo = pos 2500;
  status = PayoutStatus.processing;
  attempts = 1;
  attempted_at = some 4;
  completed_at = none;
  failure_reason = none;
  updated_at = 4;
}

abbrev in_flight : Store
in_flight = record empty_store {
  accounts = record { id = 3; type = venue_payable; owner_id = some 10 } ∷ [];
  payouts = sent ∷ [];
}

abbrev pending_transfer : Reference → Result VerifiedStatus
pending_transfer reference = ok VerifiedStatus.pending

pending_waits : (v : VerifiedStatus) → pending_transfer (po 5 1) ≡ ok v → MayPay v
pending_waits VerifiedStatus.pending known = still_pending
pending_waits v known = absurd (cc (known))

process_payout-no_transfer_example :
    process_payout
      (record {
        create_recipient = λ p. ok "A";
        initiate_transfer = λ p. err Error.external;
        verify_transfer = pending_transfer;
      })
      (λ id delay. ok tt)
      5
      5
      in_flight
    ≡ process_payout
        (record {
          create_recipient = λ p. err Error.external;
          initiate_transfer = λ p. err Error.gone;
          verify_transfer = pending_transfer;
        })
        (λ id delay. ok tt)
        5
        5
        in_flight
process_payout-no_transfer_example =
    process_payout-no_transfer pending_transfer (λ p. ok "A") (λ p. err Error.external)
      (λ p. err Error.external) (λ p. err Error.gone) (λ id delay. ok tt) 5 5 in_flight refl refl
      pending_waits

reported : (run (ok (pos 90000)) 6 polled).0 ≡ ok (report_of 6 (pos 90000) polled)
unfolding run
reported = refl

run-identity_example :
    ((report_of 6 (pos 90000) polled).trial_balanced ≡ true)
    × ((report_of 6 (pos 90000) polled).ledger_clearing_kobo
        ≡ (report_of 6 (pos 90000) polled).platform_revenue_kobo
          +ℤ (report_of 6 (pos 90000) polled).entertainer_payable_kobo
          +ℤ (report_of 6 (pos 90000) polled).venue_payable_kobo)
    × ((report_of 6 (pos 90000) polled).drift_kobo
        ≡ (report_of 6 (pos 90000) polled).provider_balance_kobo
          -ℤ (report_of 6 (pos 90000) polled).platform_revenue_kobo
          -ℤ (report_of 6 (pos 90000) polled).entertainer_payable_kobo
          -ℤ (report_of 6 (pos 90000) polled).venue_payable_kobo
          +ℤ (report_of 6 (pos 90000) polled).in_flight_payouts_kobo)
run-identity_example =
    run-identity (ok (pos 90000)) 6 polled (Reachable-IsSound polled-Reachable) polled-HouseAccounts
      reported
