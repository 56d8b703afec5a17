-- ===== src/Handlers/Checkout.antt =====
-- checkoutConfirm of handlers/checkout.go, checkFraudSignals of handlers/fraud.go with the thresholds
-- of services/fraud.go, and startPayment and receiveWebhookEvent of handlers/payments.go. The draft
-- and the gig of a checkout are given as they were read.
use text.Mathlib.Text.{◌==◌ as str_eq}
use gig.Base.{
  ℕ, ◌-◌, Bool, not, ◌&&◌, ◌||◌, Option, none, some, List, ◌∷◌, map, String, ltb, if◌then◌else◌,
}
use gig.Base.Int.{ℤ, pos, leb_ℤ}
use gig.Base.Text.{Bytes, trim_space, is_empty, to_lower}
use gig.Status.{pending, payment_eq}
use gig.Status.Totals.{OrderTotals, calculate_order_totals}
use gig.Db.{
  Order, OrderItemInput, package_item, addon_item, PaymentIntent, StoreError,
  duplicate_idempotency_key, Action, ◌>>=◌, ◌>>◌, pure, raise, guard, branch, ignore,
  webhook_payload,
}
use gig.Store.Orders.{create_order_from_draft, count_recent_orders_by_buyer}
use gig.Store.Payments.{
  create_payment_intent, get_payment_intent_by_idempotency_key, set_payment_intent_session,
}
use gig.Store.Webhooks.{insert_webhook_event}
use gig.Store.Jobs.{enqueue_job}
use gig.Providers.{Provider, Registry}
use gig.Handlers.Response.{server_error, requirements_missing, Handler, or_render, audit}
use gig.Handlers.Orders.{form_or}
use gig.Handlers.Refunds.{some_or_flash}

-- What a request reads of the server; `checkout_key` is an intent's idempotency key, by fmt.Sprintf.
pub record Settings : Type 0 where
  pub payments_enabled : Bool
  pub configured : Bool
  pub providers : Registry
  pub checkout_key : ℕ → String
  pub platform_fee_bps : ℤ
  pub velocity_window : ℕ

abbrev pub velocity_threshold : ℕ
velocity_threshold = 5

abbrev pub is_velocity_suspicious : ℕ → Bool
is_velocity_suspicious recent = ltb velocity_threshold recent

abbrev pub high_value_threshold_minor_units : ℤ
high_value_threshold_minor_units = pos 200000

abbrev pub is_high_value : ℤ → Bool
is_high_value amount = leb_ℤ high_value_threshold_minor_units amount

unfoldable pub read_time : {E : Type 0} → Action E ℕ
unfolding pure
read_time db = pure db.now db

-- Alerts go to the audit log; nothing is refused.
unfoldable pub check_fraud_signals : Settings → ℕ → Order → Handler (Unit {0})
unfolding read_time
check_fraud_signals cfg buyer o = do
  now ← read_time
  branch (count_recent_orders_by_buyer buyer (now - cfg.velocity_window))
      (λ n. if is_velocity_suspicious n then audit none "fraud.velocity_alert" o.id else pure tt)
      (λ _. pure tt)
  if is_high_value o.total_minor_units then audit none "fraud.high_value_alert" o.id else pure tt

abbrev pub is_one_of : String → String → String → Bool
is_one_of s a b = str_eq s a || str_eq s b

-- The `switch` on the method of payment.
unfoldable pub payment_method_provider : String → String
payment_method_provider method =
    if is_one_of method "bitcoin" "lightning"
    then "btcpay"
    else (if is_one_of method "usdc-base" "usdt-base"
        then "evm-base"
        else (if is_one_of method "usdc-polygon" "usdt-polygon" then "evm-polygon" else "stripe"))

abbrev pub or_card : String → String
or_card method = if str_eq method "" then "card" else method

-- A second confirmation finds the intent of the first.
abbrev pub existing_intent : String → StoreError → Handler PaymentIntent
existing_intent key duplicate_idempotency_key =
    or_render (get_payment_intent_by_idempotency_key key)
existing_intent key _ = raise server_error

abbrev pub could_not_start : String
could_not_start = "We could not start payment for this order. Please try again."

unfoldable pub open_session : Provider → ℕ → Order → PaymentIntent → Handler (Unit {0})
open_session provider user o intent = do
  session ←
      some_or_flash
        (provider.create_payment o.id o.total_minor_units (to_lower o.currency)
          intent.idempotency_key)
        could_not_start
  or_render (
      set_payment_intent_session intent.id session.provider_ref session.checkout_url
        session.expires_at)
  audit (some user) "payment.intent_created" intent.id

abbrev pub has_open_session : PaymentIntent → Bool
has_open_session intent = not (str_eq intent.checkout_url "") && payment_eq intent.status pending

unfoldable pub start_payment : Settings → ℕ → Order → String → Handler (Unit {0})
unfolding open_session payment_method_provider
start_payment cfg user o chosen = do
  if not cfg.payments_enabled || not cfg.configured then pure tt else do
    let method = or_card chosen
    provider ←
        some_or_flash (cfg.providers (payment_method_provider method))
          "That payment method is not available right now. Please choose another."
    let key = cfg.checkout_key o.id
    intent ←
        branch
          (create_payment_intent o.id provider.name method o.total_minor_units (to_lower o.currency)
            key)
          pure (existing_intent key)
    if has_open_session intent then pure tt else open_session provider user o intent

pub record Package : Type 0 where
  pub name : Bytes
  pub description : Bytes
  pub price_minor_units : ℤ
  pub currency : Bytes
  pub delivery_days : ℕ
  pub revisions : ℕ

pub record Addon : Type 0 where
  pub name : Bytes
  pub description : Bytes
  pub price_minor_units : ℤ
  pub currency : Bytes

-- The draft of a checkout with the package and the add-ons that it selects.
pub record Checkout : Type 0 where
  pub draft_id : ℕ
  pub seller_id : ℕ
  pub gig_id : ℕ
  pub requirements : Bytes
  pub selected : Package
  pub addons : List Addon

unfoldable pub addon_price : Addon → ℤ
addon_price a = a.price_minor_units

unfoldable pub addon_line : Addon → OrderItemInput
addon_line a = record {
  kind = addon_item;
  name = a.name;
  description = a.description;
  price_minor_units = a.price_minor_units;
  currency = a.currency;
  delivery_days = none;
}

unfoldable pub checkout_items : Package → List Addon → List OrderItemInput
unfolding addon_line
checkout_items pkg addons =
    record {
      kind = package_item;
      name = pkg.name;
      description = pkg.description;
      price_minor_units = pkg.price_minor_units;
      currency = pkg.currency;
      delivery_days = some pkg.delivery_days;
    }
    ∷ map addon_line addons

unfoldable pub checkout_totals : Settings → Package → List Addon → OrderTotals
unfolding calculate_order_totals addon_price
checkout_totals cfg pkg addons =
    calculate_order_totals pkg.price_minor_units (map addon_price addons) cfg.platform_fee_bps

-- `form` holds the method of payment.
unfoldable pub checkout_confirm : Settings → ℕ → Checkout → Option String → Handler (Unit {0})
unfolding check_fraud_signals start_payment checkout_totals checkout_items
checkout_confirm cfg user c form = do
  guard (not (is_empty (trim_space c.requirements))) requirements_missing
  method ← form_or form server_error
  let totals = checkout_totals cfg c.selected c.addons
  o ← or_render (
      create_order_from_draft c.draft_id user c.seller_id c.gig_id c.requirements
        (checkout_items c.selected c.addons) totals.subtotal_minor_units
        totals.platform_fee_minor_units totals.total_minor_units c.selected.currency
        c.selected.revisions)
  audit (some user) "order.created" o.id
  check_fraud_signals cfg user o
  start_payment cfg user o method

abbrev pub payment_webhook_job_kind : String
payment_webhook_job_kind = "payment.webhook_process"

-- A verified event: recorded once, and handed to the worker when it is new.
pub record VerifiedEvent : Type 0 where
  pub provider : String
  pub event_id : String
  pub event_type : String

unfoldable pub receive_webhook_event : VerifiedEvent → Bytes → Handler (Unit {0})
receive_webhook_event e body = do
  inserted ← or_render (insert_webhook_event e.provider e.event_id e.event_type body)
  if inserted
      then ignore
          (enqueue_job payment_webhook_job_kind (webhook_payload e.provider e.event_id) none 8)
      else pure tt
