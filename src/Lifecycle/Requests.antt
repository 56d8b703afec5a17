-- ===== src/Lifecycle/Requests.antt =====
-- Sequences of requests and jobs. A turn is one of them, with the time at which it runs and the
-- faults that its calls of the database meet; turns run one after the other.
use gig.Base.{ℕ, Bool, Option, List, [], ◌∷◌, String}
use gig.Base.Text.{Bytes}
use gig.Db.{Db, JobPayload}
use gig.Providers.{Registry}
use gig.Handlers.Orders.{
  Upload, order_message_create, order_deliver, order_revise, order_accept, order_cancel_request,
  Decision, order_cancel_resolve, order_review_create,
}
use gig.Handlers.Disputes.{order_dispute_open, order_dispute_resolve, Outcome}
use gig.Handlers.Adjustment.{Adjustment, admin_ledger_adjust}
use gig.Handlers.Refunds.{admin_order_refund}
use gig.Handlers.Checkout.{
  Settings, Checkout, checkout_confirm, VerifiedEvent, receive_webhook_event,
}
use gig.Worker.Orders.{Config, order_auto_accept_sweep}
use gig.Worker.Payments.{process_payment_webhook, payment_reconcile_sweep}
use gig.Lifecycle.Effects.{CallRules}
use gig.Lifecycle.Handlers.{
  order_message_create-Keeps, order_deliver-Keeps, order_revise-Keeps, order_accept-Keeps,
  order_cancel_request-Keeps, order_cancel_resolve-Keeps, order_review_create-Keeps,
  order_dispute_open-Keeps, order_dispute_resolve-Keeps,
}
use gig.Lifecycle.Worker.{
  admin_order_refund-Keeps, admin_ledger_adjust-Keeps, checkout_confirm-Keeps,
  receive_webhook_event-Keeps, order_auto_accept_sweep-Keeps, process_payment_webhook-Keeps,
  payment_reconcile_sweep-Keeps,
}

pub data Request : Type 0 where
  message_create : ℕ → Option ℕ → Option (Bytes × Bool) → Request
  deliver : ℕ → Option ℕ → Option (Bytes × Upload) → Request
  revise : ℕ → Option ℕ → Option Bytes → Request
  accept : ℕ → Option ℕ → Request
  cancel_request : ℕ → Option ℕ → Option Bytes → Request
  cancel_resolve : ℕ → Option ℕ → Option Decision → Request
  review_create : ℕ → Option ℕ → Option (Option ℕ × Bytes) → Request
  dispute_open : ℕ → Option ℕ → Option (Bytes × Upload) → Request
  dispute_resolve : ℕ → Option ℕ → Option (Bytes × Outcome) → Request
  confirm : Settings → ℕ → Checkout → Option String → Request
  refund : Registry → (ℕ → String) → ℕ → Option ℕ → Option Bytes → Request
  adjust : ℕ → Option Adjustment → Request
  webhook : VerifiedEvent → Bytes → Request
  webhook_job : Registry → JobPayload → Request
  auto_accept_job : Config → Request
  reconcile_job : Config → Bool → Registry → Request

-- What a request leaves in the tables, however it is answered.
unfoldable pub run : Request → Db → Db
run (message_create u p f) db = (order_message_create u p f db).1
run (deliver u p f) db = (order_deliver u p f db).1
run (revise u p f) db = (order_revise u p f db).1
run (accept u p) db = (order_accept u p db).1
run (cancel_request u p f) db = (order_cancel_request u p f db).1
run (cancel_resolve u p f) db = (order_cancel_resolve u p f db).1
run (review_create u p f) db = (order_review_create u p f db).1
run (dispute_open u p f) db = (order_dispute_open u p f db).1
run (dispute_resolve u p f) db = (order_dispute_resolve u p f db).1
run (confirm cfg u c f) db = (checkout_confirm cfg u c f db).1
run (refund providers key u p f) db = (admin_order_refund providers key u p f db).1
run (adjust u f) db = (admin_ledger_adjust u f db).1
run (webhook e body) db = (receive_webhook_event e body db).1
run (webhook_job providers p) db = (process_payment_webhook providers p db).1
run (auto_accept_job cfg) db = (order_auto_accept_sweep cfg db).1
run (reconcile_job cfg configured providers) db =
    (payment_reconcile_sweep cfg configured providers db).1

pub record Turn : Type 0 where
  pub now : ℕ
  pub faults : List Bool
  pub request : Request

unfoldable pub serve : Turn → Db → Db
unfolding run
serve t db = run t.request (record db { now = t.now; faults = t.faults })

unfoldable pub serve_all : List Turn → Db → Db
serve_all [] db = db
serve_all (t ∷ ts) db = serve_all ts (serve t db)

module _ {I : Db → Type 0} (rule : CallRules I) where
  run-Keeps : (r : Request) (db : Db) → I db → I (run r db)
  unfolding run
  run-Keeps (message_create u p f) = (order_message_create-Keeps rule u p f).at
  run-Keeps (deliver u p f) = (order_deliver-Keeps rule u p f).at
  run-Keeps (revise u p f) = (order_revise-Keeps rule u p f).at
  run-Keeps (accept u p) = (order_accept-Keeps rule u p).at
  run-Keeps (cancel_request u p f) = (order_cancel_request-Keeps rule u p f).at
  run-Keeps (cancel_resolve u p f) = (order_cancel_resolve-Keeps rule u p f).at
  run-Keeps (review_create u p f) = (order_review_create-Keeps rule u p f).at
  run-Keeps (dispute_open u p f) = (order_dispute_open-Keeps rule u p f).at
  run-Keeps (dispute_resolve u p f) = (order_dispute_resolve-Keeps rule u p f).at
  run-Keeps (confirm cfg u c f) = (checkout_confirm-Keeps rule cfg u c f).at
  run-Keeps (refund providers key u p f) = (admin_order_refund-Keeps rule providers key u p f).at
  run-Keeps (adjust u f) = (admin_ledger_adjust-Keeps rule u f).at
  run-Keeps (webhook e body) = (receive_webhook_event-Keeps rule e body).at
  run-Keeps (webhook_job providers p) = (process_payment_webhook-Keeps rule providers p).at
  run-Keeps (auto_accept_job cfg) = (order_auto_accept_sweep-Keeps rule cfg).at
  run-Keeps (reconcile_job cfg configured providers) =
      (payment_reconcile_sweep-Keeps rule cfg configured providers).at

  pub serve-Keeps :
      (t : Turn) (db : Db) → I (record db { now = t.now; faults = t.faults }) → I (serve t db)
  unfolding serve
  serve-Keeps t db h = run-Keeps t.request (record db { now = t.now; faults = t.faults }) h

  -- For what says nothing of the time.
  pub serve_all-Keeps :
      (free : (d : Db) (now : ℕ) (faults : List Bool)
        → I d
        → I (record d { now = now; faults = faults }))
      (ts : List Turn) (db : Db)
      → I db
      → I (serve_all ts db)
  unfolding serve_all
  serve_all-Keeps free [] db h = h
  serve_all-Keeps free (t ∷ ts) db h =
      serve_all-Keeps free ts (serve t db) (serve-Keeps t db (free db t.now t.faults h))
