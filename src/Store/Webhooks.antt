-- ===== src/Store/Webhooks.antt =====
-- store/payments.go: webhook events.
use text.Mathlib.Text.{◌==◌ as str_eq}
use gig.Base.{
  ℕ, ◌+◌, Bool, true, false, ◌&&◌, [], ◌∷◌, ◌++◌, String, ◌==◌, if◌then◌else◌, find, update_where,
  count_where,
}
use gig.Base.Text.{Bytes}
use gig.Base.Result.{ok}
use gig.Db.{StoreError, Action, statement, WebhookEvent, webhook_received, webhook_processed}
use gig.Store.Orders.{or_not_found}

abbrev pub is_event : String → String → WebhookEvent → Bool
is_event provider event e = str_eq e.provider provider && str_eq e.event_id event

-- `ON CONFLICT (provider, event_id) DO NOTHING`: the flag tells whether a row was inserted.
unfoldable pub insert_webhook_event : String → String → String → Bytes → Action StoreError Bool
unfolding statement
insert_webhook_event provider event type payload = statement λ db.
    if count_where (is_event provider event) db.webhook_events == 0
    then (
      ok true,
      record db {
        webhook_events =
            db.webhook_events
            ++ record {
              id = db.next_id;
              provider = provider;
              event_id = event;
              event_type = type;
              payload = payload;
              status = webhook_received;
              attempts = 0;
            }
              ∷ [];
        next_id = db.next_id + 1;
      },
    )
    else (ok false, db)

unfoldable pub get_webhook_event_by_provider_event_id :
    String → String → Action StoreError WebhookEvent
unfolding statement
get_webhook_event_by_provider_event_id provider event =
    statement λ db. or_not_found (find (is_event provider event) db.webhook_events) db

abbrev pub has_event_id : ℕ → WebhookEvent → Bool
has_event_id i e = e.id == i

unfoldable pub mark_webhook_processed : ℕ → Action StoreError (Unit {0})
unfolding statement
mark_webhook_processed i = statement λ db. (
  ok tt,
  record db {
    webhook_events =
        update_where (has_event_id i)
          (λ e. record e { status = webhook_processed; attempts = e.attempts + 1 })
          db.webhook_events;
  },
)
