-- ===== src/Lifecycle/Worker.antt =====
-- The checkout, the refund, the webhooks and the jobs of the worker keep what obeys a rule.
use gig.Base.{ℕ, ◌≡◌, refl, true, Bool, Option, none, some, List, String}
use gig.Base.Text.{Bytes}
use gig.Base.Result.{Result, ok, err}
use gig.Status.{
  PaymentStatus, pending_payment, paid, in_progress, payment_failed, can_transition_order,
}
use gig.Db.{
  Db, Order, PaymentIntent, WebhookEvent, StoreError, not_found, duplicate_idempotency_key,
  JobPayload, webhook_payload,
}
use gig.Db.Keeps.{Keeps, keeps_rules}
use gig.Ledger.{AccountKind, Entry, LedgerError}
use gig.Providers.{Provider, Payment, Account, ParsedEvent, Registry}
use gig.Handlers.Adjustment.{
  Adjustment, positive_amount, known_kind, balanced_or_flash, admin_ledger_adjust,
}
use gig.Base.Int.{ℤ}
use gig.Handlers.Refunds.{some_or_flash, no_refund_or_error, settle_refund, admin_order_refund}
use gig.Handlers.Checkout.{
  Settings, read_time, check_fraud_signals, existing_intent, open_session, start_payment, Checkout,
  checkout_confirm, VerifiedEvent, receive_webhook_event,
}
use gig.Worker.Orders.{Config, read_clock, settle_accepted, order_auto_accept_sweep}
use gig.Worker.Payments.{
  some_or_fail, unless_raced, built_or_fail, post_capture, capture_payment_for_order,
  fail_payment_for_order, settle_order, apply_payment, unknown_intent, apply_payment_of,
  apply_event, decode_payload, process_payment_webhook, reconcile_payment, reconcile_with,
  payment_reconcile_sweep,
}
use gig.Lifecycle.Effects.{CallRules}
use gig.Lifecycle.Handlers.{path_id-Keeps, side_rules}

paid_allowed : can_transition_order pending_payment paid ≡ true
unfolding can_transition_order
paid_allowed = refl

failure_allowed : can_transition_order pending_payment payment_failed ≡ true
unfolding can_transition_order
failure_allowed = refl

start_allowed : can_transition_order paid in_progress ≡ true
unfolding can_transition_order
start_allowed = refl

module _ {I : Db → Type 0} (rule : CallRules I) where
  read_time-Keeps : {E : Type 0} → Keeps {E = E} I read_time
  unfolding read_time
  read_time-Keeps = record { at = λ db h. h }

  read_clock-Keeps : Keeps I read_clock
  unfolding read_clock
  read_clock-Keeps = record { at = λ db h. h }

  some_or_flash-Keeps : {A : Type 0} (o : Option A) (text : String) → Keeps I (some_or_flash o text)
  some_or_flash-Keeps none text = search keeps_rules
  some_or_flash-Keeps (some a) text = search keeps_rules

  no_refund_or_error-Keeps : (e : StoreError) → Keeps I (no_refund_or_error e)
  no_refund_or_error-Keeps not_found = search keeps_rules
  no_refund_or_error-Keeps _ = search keeps_rules

  settle_refund-Keeps : (o : Order) (p : PaymentIntent) → Keeps I (settle_refund o p)
  unfolding settle_refund
  settle_refund-Keeps o p = search (side_rules, rule) depth 30

  pub admin_order_refund-Keeps :
      (providers : Registry) (key : ℕ → String) (u : ℕ) (p : Option ℕ) (f : Option Bytes)
      → Keeps I (admin_order_refund providers key u p f)
  unfolding admin_order_refund
  admin_order_refund-Keeps providers key u p f =
      search
        (
          side_rules, rule, path_id-Keeps, some_or_flash-Keeps, no_refund_or_error-Keeps,
          settle_refund-Keeps,
        )
        depth 30

  check_fraud_signals-Keeps :
      (cfg : Settings) (u : ℕ) (o : Order) → Keeps I (check_fraud_signals cfg u o)
  unfolding check_fraud_signals
  check_fraud_signals-Keeps cfg u o = search (side_rules, rule, read_time-Keeps) depth 30

  existing_intent-Keeps : (key : String) (e : StoreError) → Keeps I (existing_intent key e)
  existing_intent-Keeps key duplicate_idempotency_key = search (side_rules, rule)
  existing_intent-Keeps key _ = search keeps_rules

  open_session-Keeps :
      (provider : Provider) (u : ℕ) (o : Order) (p : PaymentIntent)
      → Keeps I (open_session provider u o p)
  unfolding open_session
  open_session-Keeps provider u o p = search (side_rules, rule, some_or_flash-Keeps) depth 30

  start_payment-Keeps :
      (cfg : Settings) (u : ℕ) (o : Order) (method : String)
      → Keeps I (start_payment cfg u o method)
  unfolding start_payment
  start_payment-Keeps cfg u o method =
      search (side_rules, rule, some_or_flash-Keeps, existing_intent-Keeps, open_session-Keeps)
        depth 30

  pub checkout_confirm-Keeps :
      (cfg : Settings) (u : ℕ) (c : Checkout) (f : Option String)
      → Keeps I (checkout_confirm cfg u c f)
  unfolding checkout_confirm
  checkout_confirm-Keeps cfg u c f =
      search (side_rules, rule, check_fraud_signals-Keeps, start_payment-Keeps) depth 30

  pub receive_webhook_event-Keeps :
      (e : VerifiedEvent) (body : Bytes) → Keeps I (receive_webhook_event e body)
  unfolding receive_webhook_event
  receive_webhook_event-Keeps e body = search (side_rules, rule) depth 30

  settle_accepted-Keeps : (o : Order) → Keeps I (settle_accepted o)
  unfolding settle_accepted
  settle_accepted-Keeps o = search (side_rules, rule) depth 30

  pub order_auto_accept_sweep-Keeps : (cfg : Config) → Keeps I (order_auto_accept_sweep cfg)
  unfolding order_auto_accept_sweep
  order_auto_accept_sweep-Keeps cfg =
      search (side_rules, rule, read_clock-Keeps, settle_accepted-Keeps) depth 30

  some_or_fail-Keeps : {A : Type 0} (o : Option A) (text : String) → Keeps I (some_or_fail o text)
  some_or_fail-Keeps none text = search keeps_rules
  some_or_fail-Keeps (some a) text = search keeps_rules

  unless_raced-Keeps : (e : StoreError) (text : String) → Keeps I (unless_raced e text)
  unless_raced-Keeps not_found text = search keeps_rules
  unless_raced-Keeps _ text = search keeps_rules

  built_or_fail-Keeps : (r : Result LedgerError (List Entry)) → Keeps I (built_or_fail r)
  built_or_fail-Keeps (ok es) = search keeps_rules
  built_or_fail-Keeps (err e) = search keeps_rules

  post_capture-Keeps : (o : Order) → Keeps I (post_capture o)
  unfolding post_capture
  post_capture-Keeps o = search (side_rules, rule, built_or_fail-Keeps, start_allowed) depth 30

  capture_payment_for_order-Keeps : (p : PaymentIntent) → Keeps I (capture_payment_for_order p)
  unfolding capture_payment_for_order
  capture_payment_for_order-Keeps p =
      search (side_rules, rule, post_capture-Keeps, unless_raced-Keeps, paid_allowed) depth 30

  fail_payment_for_order-Keeps : (p : PaymentIntent) → Keeps I (fail_payment_for_order p)
  unfolding fail_payment_for_order
  fail_payment_for_order-Keeps p =
      search (side_rules, rule, unless_raced-Keeps, failure_allowed) depth 30

  settle_order-Keeps : (s : PaymentStatus) (p : PaymentIntent) → Keeps I (settle_order s p)
  unfolding settle_order
  settle_order-Keeps s p =
      search (side_rules, rule, capture_payment_for_order-Keeps, fail_payment_for_order-Keeps) depth
        30

  apply_payment-Keeps :
      (e : WebhookEvent) (p : PaymentIntent) (q : Payment) → Keeps I (apply_payment e p q)
  unfolding apply_payment
  apply_payment-Keeps e p q = search (side_rules, rule, settle_order-Keeps) depth 30

  unknown_intent-Keeps : (e : WebhookEvent) (s : StoreError) → Keeps I (unknown_intent e s)
  unknown_intent-Keeps e not_found = search (side_rules, rule) depth 30
  unknown_intent-Keeps e _ = search keeps_rules

  apply_payment_of-Keeps :
      (e : WebhookEvent) (parsed : ParsedEvent) (q : Option Payment)
      → Keeps I (apply_payment_of e parsed q)
  apply_payment_of-Keeps e parsed none = search (side_rules, rule) depth 30
  apply_payment_of-Keeps e parsed (some q) =
      search (side_rules, rule, apply_payment-Keeps, unknown_intent-Keeps) depth 30

  apply_event-Keeps :
      (e : WebhookEvent) (parsed : ParsedEvent) (a : Option Account)
      → Keeps I (apply_event e parsed a)
  apply_event-Keeps e parsed none = apply_payment_of-Keeps e parsed parsed.payment
  apply_event-Keeps e parsed (some a) = search (side_rules, rule) depth 30

  decode_payload-Keeps : (p : JobPayload) → Keeps I (decode_payload p)
  decode_payload-Keeps (webhook_payload provider event) = search keeps_rules
  decode_payload-Keeps _ = search keeps_rules

  pub process_payment_webhook-Keeps :
      (providers : Registry) (p : JobPayload) → Keeps I (process_payment_webhook providers p)
  unfolding process_payment_webhook
  process_payment_webhook-Keeps providers p =
      search (side_rules, rule, decode_payload-Keeps, some_or_fail-Keeps, apply_event-Keeps) depth
        30

  reconcile_payment-Keeps : (p : PaymentIntent) (q : Payment) → Keeps I (reconcile_payment p q)
  unfolding reconcile_payment
  reconcile_payment-Keeps p q = search (side_rules, rule, settle_order-Keeps) depth 30

  reconcile_with-Keeps : (p : PaymentIntent) (q : Option Payment) → Keeps I (reconcile_with p q)
  reconcile_with-Keeps p none = search keeps_rules
  reconcile_with-Keeps p (some q) = reconcile_payment-Keeps p q

  pub payment_reconcile_sweep-Keeps :
      (cfg : Config) (configured : Bool) (providers : Registry)
      → Keeps I (payment_reconcile_sweep cfg configured providers)
  unfolding payment_reconcile_sweep
  payment_reconcile_sweep-Keeps cfg configured providers =
      search (side_rules, rule, reconcile_with-Keeps, read_clock-Keeps) depth 30

  positive_amount-Keeps : (n : Option ℤ) → Keeps I (positive_amount n)
  positive_amount-Keeps none = search keeps_rules
  positive_amount-Keeps (some n) = search keeps_rules

  known_kind-Keeps : (kind : Option AccountKind) → Keeps I (known_kind kind)
  known_kind-Keeps none = search keeps_rules
  known_kind-Keeps (some kind) = search keeps_rules

  balanced_or_flash-Keeps : (r : Result LedgerError (List Entry)) → Keeps I (balanced_or_flash r)
  balanced_or_flash-Keeps (ok es) = search keeps_rules
  balanced_or_flash-Keeps (err e) = search keeps_rules

  pub admin_ledger_adjust-Keeps :
      (u : ℕ) (f : Option Adjustment) → Keeps I (admin_ledger_adjust u f)
  unfolding admin_ledger_adjust
  admin_ledger_adjust-Keeps u f =
      search (side_rules, rule, positive_amount-Keeps, known_kind-Keeps, balanced_or_flash-Keeps)
        depth 30
