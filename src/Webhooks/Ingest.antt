-- ===== src/Webhooks/Ingest.antt =====
-- The deliveries of one event (src/webhooks/webhooks.service.ts).
use text.Mathlib.Text.{◌==◌ as str_eq}
use text.Mathlib.TextEquality.{eq_iff}
use splitcore.Base.{
  ⊤, ℕ, ◌≡◌, ◌≢◌, ◌∙◌, sym, find_by_holds, ap, inl, inr, Bool-cases, Option-cases, refl, Bool, true,
  false, Option, some, String, ◌==◌, find_by,
}
use splitcore.Action.{Action, Result, Result-cases, ok, err, Error}
use splitcore.Schema.{Reference, ProcessingStatus, WebhookEvent, Store}
use splitcore.Payouts.{TransferOutcome}
use splitcore.Webhooks.{
  PaystackWebhookPayload, IngestResult, queued, is_completed, enqueue_webhook, same_event,
  handle_event, handle, is_signed, store_event, ingest,
}

same_event-pair : (a b : String × String) → same_event a b ≡ true → a ≡ b
same_event-pair (t, k) (t', k') h = elim (Bool-cases (str_eq t t')) [
  | inr a ↦ absurd (cc (rw a at h))
  | inl a ↦ cc ((eq_iff t t').0 a, (eq_iff k k').0 (rw a at h))
]

same_self : (t k : String) → same_event (t, k) (t, k) ≡ true
same_self t k = rw ((eq_iff t t).1 refl, (eq_iff k k).1 refl) refl

module _ (settle : Reference → Action Store ⊤)
    (transfer : Reference → TransferOutcome → Action Store ⊤) (now : ℕ)
    (verify_signature : String → Bool) (add_job : ℕ → Result ⊤) (queue_enabled : Bool) where
  -- An event whose signature is missing, empty or wrong is refused as unauthorized, and nothing is
  -- stored, queued or processed.
  pub ingest-unsigned :
      (signature : Option String) (payload : PaystackWebhookPayload) (s : Store)
      → is_signed settle transfer now verify_signature add_job queue_enabled signature ≡ false
      → ingest settle transfer now verify_signature add_job queue_enabled signature payload s
        ≡ (err Error.unauthorized, s)
  unfolding ingest
  ingest-unsigned signature payload s unsigned = rw unsigned refl

  -- A job for an event that is completed changes nothing.
  pub handle-completed :
      (id : ℕ) (s : Store) {e : WebhookEvent}
      → find_by (λ x. x.id == id) s.webhook_events ≡ some e
      → e.processing_status ≡ ProcessingStatus.completed
      → handle settle transfer now id s ≡ (ok tt, s)
  unfolding handle handle_event
  handle-completed id s found done = rw (found, done) refl

-- With the queue on, deliveries wait for its worker.
module _ (settle : Reference → Action Store ⊤)
    (transfer : Reference → TransferOutcome → Action Store ⊤) (now : ℕ)
    (verify_signature : String → Bool) (add_job : ℕ → Result ⊤) where
  abbrev delivered : Option String → PaystackWebhookPayload → Action Store IngestResult
  delivered = ingest settle transfer now verify_signature add_job true

  abbrev stored : String → String → Store → Option WebhookEvent
  stored t k s = find_by (λ x. same_event (t, k) x.external_event_id) s.webhook_events

  -- An event that is stored is not stored again.
  known_event :
      (signature : Option String) (payload : PaystackWebhookPayload) (s : Store) {t k : String}
      {e : WebhookEvent}
      → payload.event ≡ some t
      → payload.event_key ≡ some k
      → stored t k s ≡ some e
      → ((delivered signature payload s).1.webhook_events ≡ s.webhook_events)
        × ((delivered signature payload s).0 ≢ ok queued)
  unfolding ingest store_event enqueue_webhook
  known_event signature payload s {t} {k} {e} event key found =
      elim (Bool-cases (is_signed settle transfer now verify_signature add_job true signature)) [
        | inr unsigned ↦ rw unsigned (refl, λ q. cc q)
        | inl signed ↦ elim (Bool-cases (is_completed e.processing_status)) [
          | inl done ↦ rw (signed, event, key, found, done) (refl, λ q. cc q)
          | inr todo ↦ elim (Result-cases (add_job e.id)) [
            | inl (u, added) ↦ rw (signed, event, key, found, todo, added) (refl, λ q. cc q)
            | inr (x, refused) ↦ rw (signed, event, key, found, todo, refused) (refl, λ q. cc q)
          ]
        ]
      ]

  -- A signed delivery leaves its event stored.
  delivered-stored :
      (signature : Option String) (payload : PaystackWebhookPayload) (s : Store) {t k : String}
      → is_signed settle transfer now verify_signature add_job true signature ≡ true
      → payload.event ≡ some t
      → payload.event_key ≡ some k
      → (e : WebhookEvent) × (stored t k (delivered signature payload s).1 ≡ some e)
  unfolding ingest store_event enqueue_webhook
  delivered-stored signature payload s {t} {k} signed event key =
      elim (Option-cases (stored t k s)) [
        | inr (e, found) ↦ (
          e,
          ap (λ es. find_by (λ x. same_event (t, k) x.external_event_id) es)
                (known_event signature payload s event key found).0
              ∙ found,
        )
        | inl fresh ↦ elim (Result-cases (add_job s.next_id)) [
          | inl (u, added) ↦ rw (signed, event, key, fresh, added) (rw (same_self t k) (_, refl))
          | inr (x, refused) ↦
              rw (signed, event, key, fresh, refused) (rw (same_self t k) (_, refl))
        ]
      ]

  -- With the queue on, after a signed delivery, whether the queue took its job or not, an event is stored
  -- under its type and key, and every further delivery of that type and key, with whatever signature and
  -- reference, stores no event and is not reported as queued.
  pub ingest-stored_once :
      (signature signature' : Option String) (payload payload' : PaystackWebhookPayload) (s : Store)
      {t k : String}
      → is_signed settle transfer now verify_signature add_job true signature ≡ true
      → payload.event ≡ some t
      → payload.event_key ≡ some k
      → payload'.event ≡ some t
      → payload'.event_key ≡ some k
      → (e : WebhookEvent) × (find_by
            (λ x. same_event (t, k) x.external_event_id)
            (ingest settle transfer now verify_signature add_job true signature payload
              s).1.webhook_events
          ≡ some e)
        × (e.external_event_id ≡ (t, k))
        × ((ingest settle transfer now verify_signature add_job true signature' payload'
              (ingest settle transfer now verify_signature add_job true signature payload
                s).1).1.webhook_events
            ≡ (ingest settle transfer now verify_signature add_job true signature payload
                s).1.webhook_events)
        × ((ingest settle transfer now verify_signature add_job true signature' payload'
              (ingest settle transfer now verify_signature add_job true signature payload s).1).0
            ≢ ok queued)
  ingest-stored_once signature signature' payload payload' s {t} {k} signed event key event' key' =
      let (e, found) = delivered-stored signature payload s signed event key in
      let (same, again) =
        known_event signature' payload' (delivered signature payload s).1 event' key' found in
      let id =
        same_event-pair (t, k) e.external_event_id
          (find_by_holds (λ (x : WebhookEvent). same_event (t, k) x.external_event_id)
            (delivered signature payload s).1.webhook_events found) in
      (e, found, sym id, same, again)
