-- ===== src/Tests/Calls.antt =====
-- Single calls of SplitRules, Webhooks and Payments (src), and their theorems there.
use splitcore.Base.{◌≡◌, refl, true, some, ◌∷◌, filter_by}
use splitcore.Int.{pos}
use splitcore.Action.{ok, err, Error}
use splitcore.Schema.{pay, QrCode, SplitRule, WebhookEvent, Store}
use splitcore.SplitRules.{
  CreateSplitRuleDto, accept, reject, in_force, find_active_by_venue, propose, respond,
}
use splitcore.SplitRules.Consent.{propose-in_force, respond-once}
use splitcore.Webhooks.{PaystackWebhookPayload, ingest}
use splitcore.Webhooks.Ingest.{ingest-stored_once}
use splitcore.Webhooks.{queued, same_event}
use splitcore.Base.{◌≢◌, none, find_by}
use splitcore.Payments.{PaymentInitResponse, get_payment_status, new_payment, initialize_payment}
use splitcore.Schema.{PaymentTransaction, reference_eq}
use splitcore.Base.{any_by, false}
use splitcore.Payments.Initialize.{ScannedAt, IsStarted, initialize_payment-created}
use splitcore.System.{settle_only, transfer_only, empty_store}
use splitcore.Tests.Services.{started}
use splitcore.Tests.{tables, world, dto}

abbrev proposed : CreateSplitRuleDto
proposed = record {
  venue_id = 10;
  entertainer_id = 20;
  entertainer_bps = pos 6000;
  venue_bps = pos 3500;
}

propose-in_force_example :
    filter_by (in_force 10) (propose (λ token. token) 5 proposed 30 88 tables).1.split_rules
    ≡ filter_by (in_force 10) tables.split_rules
propose-in_force_example = propose-in_force (λ token. token) 5 10 proposed 30 88 tables

answered : (r : SplitRule) × ((respond (λ token. token) 5 51 77 accept tables).0 ≡ ok r)
unfolding respond splitcore.SplitRules.find_by_consent_token splitcore.SplitRules.answer
    splitcore.SplitRules.finish_answer splitcore.SplitRules.close_out_active
    splitcore.SplitRules.close_rules splitcore.SplitRules.record_answer
answered = (_, refl)

respond-once_example :
    respond (λ token. token) 5 51 77 reject (respond (λ token. token) 5 51 77 accept tables).1
    ≡ (err Error.not_found, (respond (λ token. token) 5 51 77 accept tables).1)
respond-once_example = respond-once (λ token. token) 5 51 77 77 accept reject tables answered.1

abbrev received : PaystackWebhookPayload
received = record {
  event = some "charge.success";
  event_key = some "302961";
  reference = some (pay 1);
}

-- the same event with another reference
abbrev received_again : PaystackWebhookPayload
received_again = record received { reference = none }

abbrev delivered : Store
delivered =
    (ingest (settle_only world) (transfer_only world) 5 world.verify_signature world.add_webhook_job
      true (some "sig") received empty_store).1

ingest-stored_once_example :
    (e : WebhookEvent) × (find_by
        (λ (x : WebhookEvent). same_event ("charge.success", "302961") x.external_event_id)
        delivered.webhook_events
      ≡ some e)
    × (e.external_event_id ≡ ("charge.success", "302961"))
    × ((ingest
          (settle_only world)
          (transfer_only world)
          5
          world.verify_signature
          world.add_webhook_job
          true
          none
          received_again
          delivered).1.webhook_events
        ≡ delivered.webhook_events)
    × ((ingest
          (settle_only world)
          (transfer_only world)
          5
          world.verify_signature
          world.add_webhook_job
          true
          none
          received_again
          delivered).0
        ≢ ok queued)
ingest-stored_once_example =
    ingest-stored_once (settle_only world) (transfer_only world) 5 world.verify_signature
      world.add_webhook_job (some "sig") none received received_again empty_store refl refl refl
      refl refl

started_ok :
    (r : PaymentInitResponse) × ((initialize_payment world.frontend_url world.callback_url
        world.url_of world.initialize world.now dto 1 tables).0
      ≡ ok r)
unfolding initialize_payment splitcore.Payments.checked find_active_by_venue
    splitcore.Payments.start_payment splitcore.Payments.after_initialize
started_ok = (_, refl)

initialize_payment-created_example :
    (qr : QrCode) × (rule : SplitRule) × (p : PaymentTransaction) × ScannedAt world.now dto tables
      qr
    × (find_active_by_venue qr.venue_id tables ≡ some rule)
    × IsStarted dto qr rule p
    × (any_by (λ q. reference_eq (pay 1) q.external_reference) tables.payments ≡ false)
    × (p.external_reference ≡ started_ok.0.reference)
    × (started_ok.0.reference ≡ pay 1)
    × (p.id ≡ started_ok.0.transaction_id)
    × (started.payments ≡ p ∷ tables.payments)
initialize_payment-created_example =
    initialize_payment-created world.frontend_url world.callback_url world.url_of world.initialize
      world.now dto 1 tables started_ok.1
