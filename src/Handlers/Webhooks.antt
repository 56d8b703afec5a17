-- ===== src/Handlers/Webhooks.antt =====
-- receiveWebhookEvent of handlers/payments.go: a provider that delivers an event again.
use text.Mathlib.TextPositions.{eq_refl}
use gig.Base.{
  ◌≡◌, refl, inl, inr, Bool, true, false, List, [], ◌∷◌, ◌++◌, arith, ◌==◌, count_where, Bool-cases,
}
use gig.Base.Text.{Bytes}
use gig.Base.Result.{ok}
use gig.Db.{Db, WebhookEvent, webhook_received, ◌>>=◌}
use gig.Store.Webhooks.{insert_webhook_event, is_event}
use gig.Store.Jobs.{enqueue_job}
use gig.Handlers.Checkout.{VerifiedEvent, receive_webhook_event}

count_where-append :
    {A : Type 0} (p : A → Bool) (xs : List A) (a : A)
    → p a ≡ true
    → (count_where p (xs ++ a ∷ []) == 0) ≡ false
count_where-append p [] a h = rw h refl
count_where-append p (x ∷ xs) a h = elim (Bool-cases (p x)) [
  | inl hit ↦ rw hit (ground arith)
  | inr missed ↦ rw missed (count_where-append p xs a h)
]

recorded :
    (w : WebhookEvent) (rows : List WebhookEvent)
    → (count_where (is_event w.provider w.event_id) (rows ++ w ∷ []) == 0) ≡ false
recorded w rows =
    count_where-append (is_event w.provider w.event_id) rows w
      (rw (eq_refl w.provider, eq_refl w.event_id) refl)

abbrev event_row : VerifiedEvent → Bytes → Db → WebhookEvent
event_row e body db = record {
  id = db.next_id;
  provider = e.provider;
  event_id = e.event_id;
  event_type = e.event_type;
  payload = body;
  status = webhook_received;
  attempts = 0;
}

-- While no call of the database fails, receiving an event a second time, with any body, is answered
-- without an error and leaves the tables as the first receipt left them.
pub receive_webhook_event_twice :
    (e : VerifiedEvent) (body again : Bytes) (db : Db)
    → let first = (receive_webhook_event e body (record db { faults = [] })).1 in
      receive_webhook_event e again first ≡ (ok tt, first)
unfolding receive_webhook_event ◌>>=◌ insert_webhook_event enqueue_job
receive_webhook_event_twice e body again db =
    elim (Bool-cases (count_where (is_event e.provider e.event_id) db.webhook_events == 0)) [
      | inl new ↦ rw (new, recorded (event_row e body db) db.webhook_events) refl
      | inr known ↦ rw (known, known) refl
    ]
