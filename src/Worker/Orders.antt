-- ===== src/Worker/Orders.antt =====
-- orders.go: the sweep that accepts deliveries whose review window has passed.
use gig.Base.{ℕ, ◌+◌, ◌-◌, some, String}
use gig.Db.{Order, Action, ◌>>=◌, ◌>>◌, pure, catch, for_each, no_payload}
use gig.Store.Orders.{auto_accept_orders}
use gig.Store.Jobs.{enqueue_job}
use gig.Handlers.Response.{notify}
use gig.Handlers.Earnings.{release_seller_earnings}
use gig.Worker.{WorkerError, job_error}

-- The settings that the sweeps read.
pub record Config : Type 0 where
  pub auto_accept_after : ℕ
  pub maintenance_interval : ℕ
  pub payment_reconcile_interval : ℕ
  pub job_max_attempts : ℕ

abbrev pub order_auto_accept_sweep_kind : String
order_auto_accept_sweep_kind = "order.autoaccept_sweep"

-- `time.Now()`
unfoldable pub read_clock : Action WorkerError ℕ
unfolding pure
read_clock db = pure db.now db

unfoldable pub settle_accepted : Order → Action WorkerError (Unit {0})
settle_accepted o = do release_seller_earnings o; notify o.seller_id "order.accepted" o.id

unfoldable pub order_auto_accept_sweep : Config → Action WorkerError (Unit {0})
order_auto_accept_sweep cfg = do
  now ← read_clock
  orders ←
      catch (auto_accept_orders (now - cfg.auto_accept_after)) (λ _. job_error "auto-accept orders")
  for_each orders settle_accepted
  _ ←
      catch
        (enqueue_job order_auto_accept_sweep_kind no_payload (some (now + cfg.maintenance_interval))
          cfg.job_max_attempts)
        (λ _. job_error "reschedule order auto-accept sweep")
  pure tt
