-- ===== src/Payouts/Once.antt =====
-- A payout whose earlier attempt may still pay (`processPayout` of src/payouts/payouts.service.ts).
use splitcore.Base.{
  ⊤, ℕ, ◌≡◌, ◌≢◌, refl, inl, inr, some, ◌==◌, find_by, String, Bool-cases, Option-cases,
}
use splitcore.Action.{Result, Result-cases, ok}
use splitcore.Schema.{Reference, LedgerAccount, Payout, Store}
use splitcore.Books.{find_account}
use splitcore.Payouts.{
  PayoutProvider, RecipientParams, TransferParams, Transfer, VerifiedStatus, is_open,
}
use splitcore.Payouts.Transfers.{account_of}
use splitcore.Payouts.Process.{
  Previous, paid, waiting, parked, unpaid, previous_of, after_previous, check_previous,
  process_found, process_payout,
}

-- An answer under which an earlier transfer may have paid, or may still pay.
pub data MayPay : VerifiedStatus → Type 0 where
  has_paid : MayPay VerifiedStatus.success
  still_pending : MayPay VerifiedStatus.pending
  needs_action : MayPay VerifiedStatus.requires_action

MayPay-previous_of : {v : VerifiedStatus} → MayPay v → previous_of v ≢ unpaid
MayPay-previous_of has_paid = λ e. cc e
MayPay-previous_of still_pending = λ e. cc e
MayPay-previous_of needs_action = λ e. cc e

module _ (verify : Reference → Result VerifiedStatus)
    (create create' : RecipientParams → Result String)
    (initiate initiate' : TransferParams → Result Transfer) (add_job : ℕ → ℕ → Result ⊤)
    (now : ℕ) where
  one : PayoutProvider
  one = record { create_recipient = create; initiate_transfer = initiate; verify_transfer = verify }

  other : PayoutProvider
  other = record {
    create_recipient = create';
    initiate_transfer = initiate';
    verify_transfer = verify;
  }

  same_after :
      (x : Payout) (a : LedgerAccount) (r : Reference) (p : Previous) (s : Store)
      → p ≢ unpaid
      → after_previous one add_job now x a r p s ≡ after_previous other add_job now x a r p s
  unfolding after_previous
  same_after x a r paid s settled = refl
  same_after x a r waiting s settled = refl
  same_after x a r parked s settled = refl
  same_after x a r unpaid s settled = absurd (settled refl)

  -- The same, by what the code makes of the answer.
  pub process_payout_settled :
      (id : ℕ) (s : Store) {x : Payout} {r : Reference}
      → find_by (λ p. p.id == id) s.payouts ≡ some x
      → x.transfer_reference ≡ some r
      → ((v : VerifiedStatus) → verify r ≡ ok v → previous_of v ≢ unpaid)
      → process_payout
          (record {
            create_recipient = create;
            initiate_transfer = initiate;
            verify_transfer = verify;
          })
          add_job
          now
          id
          s
        ≡ process_payout
            (record {
              create_recipient = create';
              initiate_transfer = initiate';
              verify_transfer = verify;
            })
            add_job
            now
            id
            s
  unfolding process_payout process_found check_previous account_of one other
  process_payout_settled id s {x} {r} found attempt settled =
      elim (Option-cases (find_account x.ledger_account_id s.accounts)) [
        | inl missing ↦ rw (found, missing) refl
        | inr (a, account) ↦ elim (Bool-cases (is_open x.status)) [
          | inr closed ↦ rw (found, account, closed) refl
          | inl opened ↦ elim (Result-cases (verify r)) [
            | inr (e, refused) ↦ rw (found, account, opened, attempt, refused) refl
            | inl (v, known) ↦
                rw (found, account, opened, attempt, known)
                  (same_after _ a r (previous_of v) s (settled v known))
          ]
        ]
      ]

  -- For a payout with an earlier attempt whose verification throws, or answers
  -- success, pending or requires_action, a run of the worker does not depend on what the provider
  -- would answer to a new recipient or a new transfer.
  pub process_payout-no_transfer :
      (id : ℕ) (s : Store) {x : Payout} {r : Reference}
      → find_by (λ p. p.id == id) s.payouts ≡ some x
      → x.transfer_reference ≡ some r
      → ((v : VerifiedStatus) → verify r ≡ ok v → MayPay v)
      → process_payout
          (record {
            create_recipient = create;
            initiate_transfer = initiate;
            verify_transfer = verify;
          })
          add_job
          now
          id
          s
        ≡ process_payout
            (record {
              create_recipient = create';
              initiate_transfer = initiate';
              verify_transfer = verify;
            })
            add_job
            now
            id
            s
  process_payout-no_transfer id s found attempt settled =
      process_payout_settled id s found attempt λ v known. MayPay-previous_of (settled v known)
