-- ===== src/Handlers/Refunds.antt =====
-- adminOrderRefund of handlers/payments.go: a full refund of an order's succeeded payment.
use text.Mathlib.Text.{◌==◌ as str_eq}
use gig.Base.{ℕ, Bool, true, false, not, ◌&&◌, Option, none, some, String, if◌then◌else◌}
use gig.Base.Int.{◌-ℤ◌, wrap64}
use gig.Base.Text.{Bytes, trim_space, is_empty, to_lower}
use gig.Status.{succeeded, payment_eq}
use gig.Ledger.{refund_issued}
use gig.Db.{
  Order, PaymentIntent, StoreError, not_found, duplicate, ◌>>=◌, ◌>>◌, pure, raise, guard, catch,
  branch,
}
use gig.Store.Orders.{get_order}
use gig.Store.Payments.{latest_payment_intent_for_order}
use gig.Store.Refunds.{get_refund_for_order, create_refund, set_refund_status}
use gig.Providers.{Registry}
use gig.Handlers.Response.{Response, server_error, flash_error, Handler, or_render, notify, audit}
use gig.Handlers.Access.{path_id, missing_or_error}
use gig.Handlers.Orders.{form_or}
use gig.Handlers.Earnings.{post_built}

abbrev pub some_or_flash : {A : Type 0} → Option A → String → Handler A
some_or_flash none text = raise (flash_error text)
some_or_flash (some a) text = pure a

-- The read succeeds when there is a refund already.
abbrev pub no_refund_or_error : StoreError → Handler (Unit {0})
no_refund_or_error not_found = pure tt
no_refund_or_error _ = raise server_error

abbrev pub already_refunded : Response
already_refunded = flash_error "This order already has a refund in progress or completed."

abbrev pub refunded_or_error : StoreError → Response
refunded_or_error duplicate = already_refunded
refunded_or_error _ = server_error

-- `order.AcceptedAt != nil`
abbrev pub is_set : Option ℕ → Bool
is_set none = false
is_set (some t) = true

-- The postings and the notice of a refund that the provider reports as done.
unfoldable pub settle_refund : Order → PaymentIntent → Handler (Unit {0})
settle_refund o intent = do
  let amount = o.total_minor_units
  let fee_refund = o.platform_fee_minor_units
  let payable_refund = wrap64 (amount -ℤ fee_refund)
  post_built (
      refund_issued o.id o.seller_id amount fee_refund payable_refund (is_set o.accepted_at)
        (to_lower intent.currency))
  notify o.buyer_id "payment.refunded" o.id

-- `refund_key` is the request's idempotency key, which fmt.Sprintf writes.
unfoldable pub admin_order_refund :
    Registry → (ℕ → String) → ℕ → Option ℕ → Option Bytes → Handler (Unit {0})
unfolding settle_refund
admin_order_refund providers refund_key admin path form = do
  i ← path_id path
  text ← form_or form server_error
  let reason = trim_space text
  guard (not (is_empty reason)) (flash_error "A refund reason is required.")
  o ← catch (get_order i) missing_or_error
  intent ←
      catch (latest_payment_intent_for_order i)
        (λ _. flash_error "This order has no refundable payment.")
  guard (payment_eq intent.status succeeded && not (str_eq intent.charge_ref ""))
      (flash_error "This order has no refundable payment.")
  branch (get_refund_for_order i) (λ _. raise already_refunded) no_refund_or_error
  provider ← some_or_flash (providers intent.provider) "Payments are not enabled."
  let amount = o.total_minor_units
  result ←
      some_or_flash (provider.refund intent.charge_ref amount intent.currency reason (refund_key i))
        "The refund could not be issued. Please try again."
  refund_id ←
      catch (create_refund i intent.id (some admin) reason amount intent.currency) refunded_or_error
  or_render (set_refund_status refund_id result.status result.provider_ref)
  if payment_eq result.status succeeded then settle_refund o intent else pure tt
  audit (some admin) "payment.refund_issued" i
