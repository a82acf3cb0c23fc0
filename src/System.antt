-- ===== src/System.antt =====
-- The services over one database (src): the calls that the routes and the workers make, in any
-- order, with any answers of the providers and the queues, and the states that they can reach.
pub mod Invariant
use splitcore.Base.{⊤, ℕ, Bool, Option, none, [], String, if◌then◌else◌}
use splitcore.Action.{Action, Result, ok, err, Error, ◌>>=◌, ◌>>◌, pure}
use splitcore.Schema.{Reference, Store}
use splitcore.Settlement.{PaymentVerification, settle}
use splitcore.Payouts.{PayoutProvider, TransferOutcome}
use splitcore.Payouts.Transfers.{handle_transfer_event}
use splitcore.Payouts.Process.{process_payout, retry_payout, enqueue_due_payouts}
use splitcore.Webhooks.{PaystackWebhookPayload, handle, ingest}
use splitcore.Payments.{
  InitializePaymentDto, InitializeParams, PaymentInit, initialize_payment, get_payment_status,
}

abbrev pub empty_store : Store
empty_store = record {
  payments = [];
  split_rules = [];
  audit_events = [];
  accounts = [];
  entries = [];
  payouts = [];
  users = [];
  login_tokens = [];
  venues = [];
  entertainers = [];
  links = [];
  settings = none;
  qr_codes = [];
  guest_sessions = [];
  webhook_events = [];
  next_id = 0;
  jobs = [];
}

-- What lies outside of the program, for one call: the providers, the queues, the clock, the
-- settings, the URL class and the check of a signature.
pub record World : Type 0 where
  pub verify_payment : Reference → Result PaymentVerification
  pub initialize : InitializeParams → Result PaymentInit
  pub provider : PayoutProvider
  pub add_payout_job : ℕ → ℕ → Result ⊤
  pub add_webhook_job : ℕ → Result ⊤
  pub verify_signature : String → Bool
  pub queue_enabled : Bool
  pub frontend_url : Option String
  pub callback_url : Option String
  pub url_of : String → Option ℕ → Reference → Option String
  pub now : ℕ

-- `settle`, for a caller that drops its result
abbrev pub settle_only : World → Reference → Action Store ⊤
settle_only w reference =
    settle w.verify_payment (λ id. w.add_payout_job id 0) w.now reference >> pure tt

-- A transfer event that a webhook brings has no reason.
abbrev pub transfer_only : World → Reference → TransferOutcome → Action Store ⊤
transfer_only w reference outcome =
    handle_transfer_event w.now w.add_payout_job reference outcome none

-- A call, and what it does to the database; it may return or throw.
pub data Step (s : Store) : Store → Type 0 where
  start_payment :
      (w : World) (dto : InitializePaymentDto) (nanoid : ℕ)
      → Step s
          (initialize_payment w.frontend_url w.callback_url w.url_of w.initialize w.now dto nanoid
            s).1
  poll_payment :
      (w : World) (reference : Reference)
      → Step s
          (get_payment_status
            (settle w.verify_payment (λ id. w.add_payout_job id 0) w.now)
            reference
            s).1
  receive_webhook :
      (w : World) (signature : Option String) (payload : PaystackWebhookPayload)
      → Step s
          (ingest
            (settle_only w)
            (transfer_only w)
            w.now
            w.verify_signature
            w.add_webhook_job
            w.queue_enabled
            signature
            payload
            s).1
  work_webhook :
      (w : World) (id : ℕ) → Step s (handle (settle_only w) (transfer_only w) w.now id s).1
  work_payout :
      (w : World) (id : ℕ) → Step s (process_payout w.provider w.add_payout_job w.now id s).1
  sweep_payouts : (w : World) → Step s (enqueue_due_payouts w.provider w.add_payout_job w.now s).1
  retry : (w : World) (id : ℕ) → Step s (retry_payout w.provider w.add_payout_job w.now id s).1

-- A database that calls lead to, from an empty ledger: the tables that the calls do not write, such
-- as the venues and the split rules, may be changed by others in between.
pub data Reachable : Store → Type 0 where
  start : Reachable empty_store
  step : {s t : Store} → Reachable s → Step s t → Reachable t
  administer :
      {s : Store} (tables : Store)
      → Reachable s
      → Reachable (record s {
        split_rules = tables.split_rules;
        users = tables.users;
        login_tokens = tables.login_tokens;
        venues = tables.venues;
        entertainers = tables.entertainers;
        links = tables.links;
        settings = tables.settings;
        qr_codes = tables.qr_codes;
        guest_sessions = tables.guest_sessions;
        audit_events = tables.audit_events;
      })
