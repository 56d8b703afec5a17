-- ===== src/Lifecycle/ShopTests.antt =====
-- Requests by strangers, events that come twice, jobs that wait and a capture that fails, in the shop of
-- Lifecycle.Tests.
use gig.Base.{find, Option, Bool, sym, ◌==◌, ◌≡◌, refl, ap, false, none, some, List, [], ◌∷◌}
use gig.Base.Int.{pos}
use gig.Base.Text.{codes}
use gig.Status.{succeeded, pending_payment, paid}
use gig.Db.{
  Session, success, PaymentIntent, Job, job_queued, job_claimed, job_done, Db, Order, ◌>>=◌,
  for_each,
}
use gig.Handlers.Checkout.{receive_webhook_event}
use gig.Handlers.Strangers.{IsStranger, IsRefused, handle, handle-IsRefused}
use gig.Handlers.Webhooks.{receive_webhook_event_twice}
use gig.Store.Claims.{IsFirst, next_job-IsFirst}
use gig.Store.Jobs.{next_job}
use gig.Base.Result.{ok, err}
use gig.Worker.{WorkerError}
use gig.Worker.Payments.{capture_payment_for_order}
use gig.Worker.Gap.{third_fails, capture_payment_for_order_gap}
use gig.Store.Orders.{has_id, set_order_status}
use gig.Lifecycle.Tests.{event, paid_order, noon}

abbrev bought_by_stranger : Option Order → Bool
bought_by_stranger none = false
bought_by_stranger (some o) = o.buyer_id == 99

abbrev sold_by_stranger : Option Order → Bool
sold_by_stranger none = false
sold_by_stranger (some o) = o.seller_id == 99

stranger : IsStranger 99 (some 1) noon
stranger = (refl, λ o found. (sym (ap bought_by_stranger found), sym (ap sold_by_stranger found)))

-- The stranger's session, with a flash that waits.
abbrev stranger_session : Session
stranger_session = record {
  id = 8;
  user_id = some 99;
  token_hash = codes "cookie";
  csrf_token = codes "csrf";
  expires_at = 5000;
  flash = some record { kind = success; text = codes "Welcome back." };
  revoked_at = none;
  last_seen_at = 100;
  created_at = 100;
}

abbrev noon_session : Db
noon_session = record noon { sessions = stranger_session ∷ [] }

handle-IsRefused_example :
    IsRefused
      (some stranger_session)
      (handle 99 (some 1) gig.Handlers.Strangers.accept)
      noon_session
handle-IsRefused_example =
    handle-IsRefused 99 (some stranger_session) (some 1) gig.Handlers.Strangers.accept noon_session
      stranger

receive_webhook_event_twice_example :
    receive_webhook_event event
      (codes "again")
      (receive_webhook_event event (codes "paid") (record noon { faults = [] })).1
    ≡ (ok tt, (receive_webhook_event event (codes "paid") (record noon { faults = [] })).1)
receive_webhook_event_twice_example =
    receive_webhook_event_twice event (codes "paid") (codes "again") noon

-- A job that waits, one whose worker is gone, and one that is done.
abbrev waiting_job : Job
waiting_job = record {
  id = 4;
  kind = "notification.email";
  payload = gig.Db.no_payload;
  status = job_queued;
  attempts = 0;
  max_attempts = 3;
  run_at = 80;
  locked_by = none;
  locked_at = none;
  last_error = none;
  updated_at = 80;
}

abbrev jobs_at_noon : List Job
jobs_at_noon =
    waiting_job
    ∷ record waiting_job {
      id = 2;
      status = job_claimed;
      run_at = 50;
      locked_by = some 1;
      locked_at = some 60;
    }
    ∷ record waiting_job { id = 1; status = job_done; run_at = 10 }
    ∷ []

next_job-IsFirst_example : IsFirst 500 300 jobs_at_noon (next_job 500 300 jobs_at_noon)
next_job-IsFirst_example = next_job-IsFirst 500 300 jobs_at_noon

-- The order before it is paid, and its intent.
abbrev waiting_order : Order
waiting_order = record paid_order { status = pending_payment; paid_at = none }

abbrev waiting_shop : Db
waiting_shop = record noon { orders = waiting_order ∷ [] }

abbrev card_intent : PaymentIntent
card_intent = record {
  id = 9;
  order_id = 1;
  provider = "stripe";
  provider_ref = "cs_1";
  charge_ref = "";
  method = "card";
  status = succeeded;
  amount_minor = pos 11000;
  currency = codes "usd";
  idempotency_key = "checkout:1:0";
  checkout_url = "https://pay";
  expires_at = none;
  succeeded_at = none;
  failed_at = none;
  canceled_at = none;
  created_at = 100;
  updated_at = 100;
}

capture_payment_for_order_gap_example :
    let first = capture_payment_for_order card_intent (third_fails waiting_shop) in
    let after = record first.1 { faults = [] } in
    ((e : WorkerError) × (first.0 ≡ err e))
    × (after.ledger_entries ≡ waiting_shop.ledger_entries)
    × (find (has_id card_intent.order_id) after.orders
        ≡ some (set_order_status paid waiting_shop.now waiting_order))
    × (capture_payment_for_order card_intent after ≡ (ok tt, after))
capture_payment_for_order_gap_example =
    capture_payment_for_order_gap card_intent waiting_shop waiting_order refl refl
