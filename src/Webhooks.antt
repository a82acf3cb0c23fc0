-- ===== src/Webhooks.antt =====
-- WebhooksService and WebhookEventHandler (src/webhooks/webhooks.service.ts,
-- src/webhooks/webhook-event-handler.service.ts): the ingest of signed events, and what an event
-- does. The check of a signature, the queue and the two services that events call are parameters.
pub mod Soundness
pub mod Ingest
use text.Mathlib.Text.{◌==◌ as str_eq}
use splitcore.Base.{
  ⊤, ℕ, suc, ◌&&◌, not, Bool, true, false, Option, none, some, List, [], ◌∷◌, ◌++◌, String, ◌==◌,
  find_by, update_by, if◌then◌else◌,
}
use splitcore.Action.{
  Action, Result, ok, err, Error, ◌>>=◌, ◌>>◌, pure, throw, gets, or_throw, modify, throw_if,
}
use splitcore.Schema.{Reference, ProcessingStatus, WebhookEvent, Job, Store}
use splitcore.Payouts.{TransferOutcome}

-- The payload, by the parts that the code reads: `event` where it is a text, `data.id ??
-- data.reference` as the text of a template, and `data.reference` where it is a text.
pub record PaystackWebhookPayload : Type 0 where
  pub event : Option String
  pub event_key : Option String
  pub reference : Option Reference

pub data IngestResult : Type 0 where
  queued duplicate : IngestResult

abbrev pub is_completed : ProcessingStatus → Bool
is_completed ProcessingStatus.completed = true
is_completed _ = false

abbrev pub same_event : String × String → String × String → Bool
same_event (t, k) (t', k') = str_eq t t' && str_eq k k'

abbrev pub put_event : ℕ → (WebhookEvent → WebhookEvent) → Store → Store
put_event id f s = record s { webhook_events = update_by (λ e. e.id == id) f s.webhook_events }

abbrev pub set_processing : ProcessingStatus → WebhookEvent → WebhookEvent
set_processing status e = record e { processing_status = status }

abbrev pub set_completed : ℕ → WebhookEvent → WebhookEvent
set_completed now e = record e {
  processing_status = ProcessingStatus.completed;
  processed_at = some now;
}

-- `setStatus`
abbrev pub set_event_status : ℕ → ProcessingStatus → Action Store ⊤
set_event_status id status = modify (put_event id (set_processing status))

module _ (settle : Reference → Action Store ⊤)
    (transfer : Reference → TransferOutcome → Action Store ⊤) (now : ℕ) where
  -- the `switch` on the event's type
  unfoldable pub dispatch : String → Option Reference → Action Store ⊤
  dispatch event_type none = pure tt
  dispatch event_type (some reference) =
      if str_eq event_type "charge.success"
      then settle reference
      else (if str_eq event_type "transfer.success"
          then transfer reference TransferOutcome.success
          else (if str_eq event_type "transfer.failed"
              then transfer reference TransferOutcome.failed
              else (if str_eq event_type "transfer.reversed"
                  then transfer reference TransferOutcome.reversed
                  else pure tt)))

  -- what follows the `try`: a failure of integrity is parked, any other one is thrown again
  unfoldable pub after_dispatch : ℕ → Result ⊤ → Action Store ⊤
  after_dispatch id (ok u) = modify (put_event id (set_completed now))
  after_dispatch id (err (Error.settlement_integrity m)) =
      set_event_status id ProcessingStatus.failed
  after_dispatch id (err e) = do set_event_status id ProcessingStatus.failed; throw e

  -- `try { dispatch } catch`: what was written before the throw stays
  abbrev pub attempt : ℕ → Result ⊤ × Store → Result ⊤ × Store
  attempt id (r, s) = after_dispatch id r s

  unfoldable pub handle_event : Option WebhookEvent → Action Store ⊤
  handle_event none = pure tt
  handle_event (some e) =
      if is_completed e.processing_status
      then pure tt
      else (set_event_status e.id ProcessingStatus.processing >> λ s.
          attempt e.id (dispatch e.event_type e.reference s))

  unfoldable pub handle : ℕ → Action Store ⊤
  handle id = do event ← gets (λ s. find_by (λ e. e.id == id) s.webhook_events); handle_event event

  module _ (verify_signature : String → Bool) (add_job : ℕ → Result ⊤) (queue_enabled : Bool) where
    abbrev pub added_webhook : ℕ → Result ⊤ → Action Store ⊤
    added_webhook id (ok u) s = (ok tt, record s { jobs = s.jobs ++ Job.process_webhook id ∷ [] })
    added_webhook id (err e) s = (err e, s)

    unfoldable pub enqueue_webhook : ℕ → Action Store ⊤
    enqueue_webhook id = if not queue_enabled then handle id else added_webhook id (add_job id)

    abbrev pub is_signed : Option String → Bool
    is_signed none = false
    is_signed (some signature) = not (str_eq signature "") && verify_signature signature

    abbrev pub new_event : ℕ → String → String → Option Reference → WebhookEvent
    new_event id event_type key reference = record {
      id = id;
      event_type = event_type;
      external_event_id = (event_type, key);
      reference = reference;
      processing_status = ProcessingStatus.pending;
      processed_at = none;
    }

    abbrev pub create_event : String → String → Option Reference → Action Store ℕ
    create_event event_type key reference s = (
      ok s.next_id,
      record s {
        webhook_events = new_event s.next_id event_type key reference ∷ s.webhook_events;
        next_id = suc s.next_id;
      },
    )

    -- after the insert, which the unique `externalEventId` refuses for an event that is there
    unfoldable pub store_event :
        String → String → Option Reference → Option WebhookEvent → Action Store IngestResult
    store_event event_type key reference none = do
      id ← create_event event_type key reference
      enqueue_webhook id
      pure queued
    store_event event_type key reference (some existing) =
        if is_completed existing.processing_status
        then pure duplicate
        else do enqueue_webhook existing.id; pure duplicate

    unfoldable pub ingest : Option String → PaystackWebhookPayload → Action Store IngestResult
    ingest signature payload = do
      throw_if (not (is_signed signature)) Error.unauthorized
      event_type ← or_throw Error.bad_request payload.event
      key ← or_throw Error.bad_request payload.event_key
      existing ←
          gets
            (λ s. find_by (λ e. same_event (event_type, key) e.external_event_id) s.webhook_events)
      store_event event_type key payload.reference existing
