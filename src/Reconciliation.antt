-- ===== src/Reconciliation.antt =====
-- ReconciliationService (src/reconciliation/reconciliation.service.ts): the ledger against the balance
-- at the provider, whose answer is a parameter.
pub mod Identity
use splitcore.Base.{⊤, ℕ, Bool, none, List, [], ◌∷◌, if◌then◌else◌}
use splitcore.Int.{ℤ, pos, ◌+ℤ◌, ◌-ℤ◌, eq_ℤ}
use splitcore.Action.{Action, Result, ◌>>=◌, gets, lift, pure}
use splitcore.Schema.{
  LedgerAccountType, entertainer_payable, venue_payable, platform_revenue, processor_clearing,
  account_eq, is_debit, LedgerEntry, Payout, PayoutStatus, payout_eq, Store,
}
use splitcore.Ledger.Repository.{joined, get_balance, get_trial_balance}

pub record ReconciliationReport : Type 0 where
  pub checked_at : ℕ
  pub trial_balanced : Bool
  pub total_debits_kobo : ℤ
  pub total_credits_kobo : ℤ
  pub ledger_clearing_kobo : ℤ
  pub in_flight_payouts_kobo : ℤ
  pub expected_provider_balance_kobo : ℤ
  pub provider_balance_kobo : ℤ
  pub drift_kobo : ℤ
  pub entertainer_payable_kobo : ℤ
  pub venue_payable_kobo : ℤ
  pub platform_revenue_kobo : ℤ

-- `CASE WHEN e."direction" = 'CREDIT' THEN e."amount_kobo" ELSE -e."amount_kobo" END`
abbrev pub credited : LedgerEntry → ℤ
credited e = if is_debit e.direction then pos 0 -ℤ e.amount_kobo else e.amount_kobo

abbrev pub credit_sum : (LedgerEntry → Bool) → List LedgerEntry → ℤ
credit_sum p [] = pos 0
credit_sum p (e ∷ es) = (if p e then credited e else pos 0) +ℤ credit_sum p es

unfoldable pub sum_by_type : LedgerAccountType → Store → ℤ
sum_by_type t s = credit_sum (joined (λ a. account_eq t a.type) s.accounts) s.entries

abbrev pub processing_sum : List Payout → ℤ
processing_sum [] = pos 0
processing_sum (p ∷ ps) =
    (if payout_eq p.status PayoutStatus.processing then p.amount_kobo else pos 0)
    +ℤ processing_sum ps

unfoldable pub report_of : ℕ → ℤ → Store → ReconciliationReport
report_of now provider_balance s =
    let clearing = get_balance processor_clearing none s in
    let in_flight = processing_sum s.payouts in
    record {
      checked_at = now;
      trial_balanced = eq_ℤ (get_trial_balance s).0 (get_trial_balance s).1;
      total_debits_kobo = (get_trial_balance s).0;
      total_credits_kobo = (get_trial_balance s).1;
      ledger_clearing_kobo = clearing;
      in_flight_payouts_kobo = in_flight;
      expected_provider_balance_kobo = clearing -ℤ in_flight;
      provider_balance_kobo = provider_balance;
      drift_kobo = provider_balance -ℤ (clearing -ℤ in_flight);
      entertainer_payable_kobo = sum_by_type entertainer_payable s;
      venue_payable_kobo = sum_by_type venue_payable s;
      platform_revenue_kobo = get_balance platform_revenue none s;
    }

-- The reads come before the call of the provider, which may throw; nothing is written.
unfoldable pub run : Result ℤ → ℕ → Action Store ReconciliationReport
run provider_balance now = do balance ← lift provider_balance; gets (report_of now balance)
