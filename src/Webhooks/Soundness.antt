-- ===== src/Webhooks/Soundness.antt =====
-- Ingest and handling of webhooks against the invariant of the books (src/webhooks).
use text.Mathlib.Text.{◌==◌ as str_eq}
use splitcore.Base.{
  ⊤, ℕ, suc, ◌≤◌, inl, inr, Bool, Option, none, some, String, arith, ◌==◌, List, find_by,
  Bool-cases, Option-cases,
}
use splitcore.Action.{Action, Result, Result-cases, ok, err, Error}
use splitcore.Action.Keeps.{Keeps, bind-Keeps, pure-Keeps}
use splitcore.Schema.{Reference, ProcessingStatus, WebhookEvent, Store}
use splitcore.Books.{IsSound, IsSound-jobs}
use splitcore.Books.Postings.{IsTable-weaken, HasIds-weaken}
use splitcore.Payouts.{TransferOutcome}
use splitcore.Webhooks.{
  PaystackWebhookPayload, is_completed, same_event, put_event, set_processing, dispatch,
  after_dispatch, handle_event, handle, enqueue_webhook, is_signed, create_event, store_event,
  ingest,
}

IsSound-events :
    (s : Store) (es : List WebhookEvent) (n : ℕ)
    → s.next_id ≤ n
    → IsSound s
    → IsSound (record s { webhook_events = es; next_id = n })
IsSound-events s es n le v = record {
  table = IsTable-weaken s.next_id n s.accounts le v.table;
  posted_to = v.posted_to;
  ids = HasIds-weaken s.next_id n s.payouts le v.ids;
  backed = v.backed;
  owes = v.owes;
  balanced = v.balanced;
}

module _ (settle : Reference → Action Store ⊤)
    (transfer : Reference → TransferOutcome → Action Store ⊤) (now : ℕ)
    (settles : (r : Reference) → Keeps IsSound (settle r))
    (transfers : (r : Reference) (o : TransferOutcome) → Keeps IsSound (transfer r o)) where
  dispatch-IsSound :
      (t : String) (r : Option Reference) → Keeps IsSound (dispatch settle transfer now t r)
  unfolding dispatch
  dispatch-IsSound t none = pure-Keeps
  dispatch-IsSound t (some r) = record {
    run = λ s v. elim (Bool-cases (str_eq t "charge.success")) [
      | inl a ↦ rw a ((settles r).run s v)
      | inr a ↦ elim (Bool-cases (str_eq t "transfer.success")) [
        | inl b ↦ rw (a, b) ((transfers r TransferOutcome.success).run s v)
        | inr b ↦ elim (Bool-cases (str_eq t "transfer.failed")) [
          | inl c ↦ rw (a, b, c) ((transfers r TransferOutcome.failed).run s v)
          | inr c ↦ elim (Bool-cases (str_eq t "transfer.reversed")) [
            | inl d ↦ rw (a, b, c, d) ((transfers r TransferOutcome.reversed).run s v)
            | inr d ↦ rw (a, b, c, d) v
          ]
        ]
      ]
    ];
  }

  put_event-IsSound :
      (id : ℕ) (f : WebhookEvent → WebhookEvent) (s : Store)
      → IsSound s
      → IsSound (put_event id f s)
  put_event-IsSound id f s v = IsSound-events s _ s.next_id (omega arith) v

  after_dispatch-IsSound :
      (id : ℕ) (r : Result ⊤) (s : Store)
      → IsSound s
      → IsSound (after_dispatch settle transfer now id r s).1
  unfolding after_dispatch
  after_dispatch-IsSound id (ok u) s v = put_event-IsSound id _ s v
  after_dispatch-IsSound id (err (Error.settlement_integrity m)) s v = put_event-IsSound id _ s v
  after_dispatch-IsSound id (err e) s v = put_event-IsSound id _ s v

  handle_event-IsSound :
      (e : Option WebhookEvent) → Keeps IsSound (handle_event settle transfer now e)
  unfolding handle_event
  handle_event-IsSound none = pure-Keeps
  handle_event-IsSound (some e) = record {
    run = λ s v. elim (Bool-cases (is_completed e.processing_status)) [
      | inl done ↦ rw done v
      | inr fresh ↦
          let s' = put_event e.id (set_processing ProcessingStatus.processing) s in
          let r = dispatch settle transfer now e.event_type e.reference s' in
          rw fresh (
            after_dispatch-IsSound e.id r.0 r.1
              ((dispatch-IsSound e.event_type e.reference).run s' (put_event-IsSound e.id _ s v)))
    ];
  }

  -- Handling an event keeps the books sound, provided that settling and transfer events do.
  pub handle-IsSound : (id : ℕ) → Keeps IsSound (handle settle transfer now id)
  unfolding handle
  handle-IsSound id = record {
    run = λ s v. (handle_event-IsSound (find_by (λ e. e.id == id) s.webhook_events)).run s v;
  }

  module _ (verify_signature : String → Bool) (add_job : ℕ → Result ⊤) (queue_enabled : Bool) where
    enqueue_webhook-IsSound :
        (id : ℕ)
        → Keeps IsSound
            (enqueue_webhook settle transfer now verify_signature add_job queue_enabled id)
    unfolding enqueue_webhook
    enqueue_webhook-IsSound id = record {
      run = λ s v. elim (Bool-cases queue_enabled) [
        | inr inline ↦ rw inline ((handle-IsSound id).run s v)
        | inl queue ↦ elim (Result-cases (add_job id)) [
          | inl (u, e) ↦ rw (queue, e) (IsSound-jobs s _ v)
          | inr (x, e) ↦ rw (queue, e) v
        ]
      ];
    }

    store_event-IsSound :
        (t k : String) (r : Option Reference) (found : Option WebhookEvent) (s : Store)
        → IsSound s
        → IsSound
            (store_event settle transfer now verify_signature add_job queue_enabled t k r found s).1
    unfolding store_event
    store_event-IsSound t k r none s v =
        (bind-Keeps (enqueue_webhook-IsSound s.next_id) λ _. pure-Keeps).run
          (create_event settle transfer now verify_signature add_job queue_enabled t k r s).1
          (IsSound-events s _ (suc s.next_id) (omega arith) v)
    store_event-IsSound t k r (some e) s v = elim (Bool-cases (is_completed e.processing_status)) [
      | inl done ↦ rw done v
      | inr fresh ↦ rw fresh ((bind-Keeps (enqueue_webhook-IsSound e.id) λ _. pure-Keeps).run s v)
    ]

    pub ingest-IsSound :
        (signature : Option String) (payload : PaystackWebhookPayload)
        → Keeps IsSound
            (ingest settle transfer now verify_signature add_job queue_enabled signature payload)
    unfolding ingest
    ingest-IsSound signature payload = record {
      run = λ s v.
          elim (Bool-cases
            (is_signed settle transfer now verify_signature add_job queue_enabled signature)) [
              | inr unsigned ↦ rw unsigned v
              | inl signed ↦ elim (Option-cases payload.event) [
                | inl missing ↦ rw (signed, missing) v
                | inr (t, event) ↦ elim (Option-cases payload.event_key) [
                  | inl missing ↦ rw (signed, event, missing) v
                  | inr (k, key) ↦
                      rw (signed, event, key)
                        (store_event-IsSound t k payload.reference
                          (find_by (λ e. same_event (t, k) e.external_event_id) s.webhook_events) s
                          v)
                ]
              ]
            ];
    }
