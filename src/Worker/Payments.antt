-- ===== src/Worker/Payments.antt =====
-- payments.go: what the worker does with a payment webhook, and the sweep that asks the providers
-- directly.
use text.Mathlib.Text.{◌==◌ as str_eq}
use gig.Base.{
  ◌+◌, Bool, true, false, not, ◌&&◌, ◌||◌, Option, none, some, List, String, if◌then◌else◌,
}
use gig.Status.{
  pending_payment, paid, in_progress, payment_failed, order_eq, PaymentStatus, succeeded, failed,
  expired, payment_eq, can_transition_payment,
}
use gig.Base.Result.{Result, ok, err}
use gig.Ledger.{Entry, LedgerError, payment_captured}
use gig.Db.{
  Order, PaymentIntent, WebhookEvent, WebhookStatus, webhook_processed, StoreError, not_found,
  Action, ◌>>=◌, ◌>>◌, pure, raise, catch, ignore, branch, for_each, JobPayload, no_payload,
  webhook_payload,
}
use gig.Store.Orders.{get_order, transition_order}
use gig.Store.Payments.{
  set_stripe_account_capabilities, get_payment_intent_by_provider_ref, record_payment_attempt,
  set_payment_intent_charge_ref, transition_payment_intent, list_stale_payment_intents,
}
use gig.Store.Webhooks.{get_webhook_event_by_provider_event_id, mark_webhook_processed}
use gig.Store.Ledger.{post_ledger_entries}
use gig.Store.Jobs.{enqueue_job}
use gig.Handlers.Response.{notify}
use gig.Providers.{Payment, Account, ParsedEvent, Provider, Registry}
use gig.Worker.{WorkerError, job_error}
use gig.Worker.Orders.{Config, read_clock}

abbrev pub Worker : Type 0 → Type 0
Worker A = Action WorkerError A

-- `if err != nil { return fmt.Errorf(...) }`
abbrev pub or_fail : {A : Type 0} → Action StoreError A → String → Worker A
or_fail m cause = catch m (λ _. job_error cause)

abbrev pub some_or_fail : {A : Type 0} → Option A → String → Worker A
some_or_fail none cause = raise (job_error cause)
some_or_fail (some a) cause = pure a

-- The two transitions that leave pending_payment: another delivery may have taken one first.
abbrev pub unless_raced : StoreError → String → Worker (Unit {0})
unless_raced not_found cause = pure tt
unless_raced _ cause = raise (job_error cause)

abbrev pub built_or_fail : Result LedgerError (List Entry) → Worker (List Entry)
built_or_fail (ok es) = pure es
built_or_fail (err e) = raise (job_error "build capture ledger entries")

unfoldable pub post_capture : Order → Worker (Unit {0})
post_capture o = do
  entries ←
      built_or_fail (
        payment_captured o.id o.seller_id o.total_minor_units o.platform_fee_minor_units o.currency)
  _ ← or_fail (post_ledger_entries entries) "post capture ledger entries"
  or_fail (transition_order o.id paid in_progress) "transition order to in_progress"
  notify o.buyer_id "payment.succeeded" o.id
  notify o.seller_id "order.started" o.id

unfoldable pub capture_payment_for_order : PaymentIntent → Worker (Unit {0})
unfolding post_capture
capture_payment_for_order intent = do
  o ← or_fail (get_order intent.order_id) "load order for payment capture"
  if order_eq o.status pending_payment
      then branch (transition_order o.id pending_payment paid) (λ _. post_capture o)
          (λ e. unless_raced e "transition order to paid")
      else pure tt

unfoldable pub fail_payment_for_order : PaymentIntent → Worker (Unit {0})
fail_payment_for_order intent = do
  o ← or_fail (get_order intent.order_id) "load order for payment failure"
  if order_eq o.status pending_payment
      then branch (transition_order o.id pending_payment payment_failed)
          (λ _. notify o.buyer_id "payment.failed" o.id)
          (λ e. unless_raced e "transition order to payment_failed")
      else pure tt

-- `payment.ChargeRef != "" && payment.ChargeRef != intent.ChargeRef`
abbrev pub is_new_charge : Payment → PaymentIntent → Bool
is_new_charge p intent = not (str_eq p.charge_ref "") && not (str_eq p.charge_ref intent.charge_ref)

-- What a payment's status means for the order.
unfoldable pub settle_order : PaymentStatus → PaymentIntent → Worker (Unit {0})
unfolding capture_payment_for_order fail_payment_for_order
settle_order status intent =
    if payment_eq status succeeded
    then capture_payment_for_order intent
    else (if payment_eq status failed || payment_eq status expired
        then fail_payment_for_order intent
        else pure tt)

unfoldable pub apply_payment : WebhookEvent → PaymentIntent → Payment → Worker (Unit {0})
unfolding settle_order
apply_payment event intent p = do
  or_fail (record_payment_attempt intent.id p.status p.failure_code p.failure_reason)
      "record payment attempt"
  if is_new_charge p intent
      then or_fail (set_payment_intent_charge_ref intent.id p.charge_ref)
          "set payment intent charge ref"
      else pure tt
  if can_transition_payment intent.status p.status
      then or_fail (transition_payment_intent intent.id intent.status p.status)
          "transition payment intent"
      else pure tt
  settle_order p.status intent
  or_fail (mark_webhook_processed event.id) "mark webhook processed"

-- An intent that is not there is acked; any other error is the job's.
abbrev pub unknown_intent : WebhookEvent → StoreError → Worker (Unit {0})
unknown_intent event not_found = or_fail (mark_webhook_processed event.id) "mark webhook processed"
unknown_intent event _ = raise (job_error "load payment intent")

abbrev pub apply_payment_of : WebhookEvent → ParsedEvent → Option Payment → Worker (Unit {0})
apply_payment_of event parsed none =
    or_fail (mark_webhook_processed event.id) "mark webhook processed"
apply_payment_of event parsed (some p) =
    branch (get_payment_intent_by_provider_ref parsed.provider parsed.provider_ref)
      (λ intent. apply_payment event intent p) (unknown_intent event)

abbrev pub apply_event : WebhookEvent → ParsedEvent → Option Account → Worker (Unit {0})
apply_event event parsed none = apply_payment_of event parsed parsed.payment
apply_event event parsed (some a) = do
  or_fail (set_stripe_account_capabilities a.account_id a.charges_enabled a.payouts_enabled)
      "update seller connect account"
  or_fail (mark_webhook_processed event.id) "mark webhook processed"

abbrev pub is_processed : WebhookStatus → Bool
is_processed webhook_processed = true
is_processed _ = false

abbrev pub decode_payload : JobPayload → Worker (String × String)
decode_payload (webhook_payload provider event) = pure (provider, event)
decode_payload _ = raise (job_error "decode webhook job payload")

unfoldable pub process_payment_webhook : Registry → JobPayload → Worker (Unit {0})
unfolding apply_payment
process_payment_webhook providers payload = do
  (name, event_id) ← decode_payload payload
  provider ← some_or_fail (providers name) "provider is not configured"
  event ← or_fail (get_webhook_event_by_provider_event_id name event_id) "load webhook event"
  if is_processed event.status then pure tt else do
    parsed ← some_or_fail (provider.parse_event event.payload) "parse webhook payload"
    apply_event event parsed parsed.account

unfoldable pub reconcile_payment : PaymentIntent → Payment → Worker (Unit {0})
unfolding settle_order
reconcile_payment intent p = do
  if is_new_charge p intent
      then ignore (set_payment_intent_charge_ref intent.id p.charge_ref)
      else pure tt
  if can_transition_payment intent.status p.status
      then branch (transition_payment_intent intent.id intent.status p.status)
          (λ _. ignore (settle_order p.status intent)) (λ _. pure tt)
      else pure tt

abbrev pub reconcile_with : PaymentIntent → Option Payment → Worker (Unit {0})
reconcile_with intent none = pure tt
reconcile_with intent (some p) = reconcile_payment intent p

abbrev pub fetch_from : Option Provider → String → Option Payment
fetch_from none ref = none
fetch_from (some provider) ref = provider.fetch_payment ref

abbrev pub payment_reconcile_sweep_kind : String
payment_reconcile_sweep_kind = "payment.reconcile_sweep"

-- `configured` is `!Providers.Empty()`.
unfoldable pub payment_reconcile_sweep : Config → Bool → Registry → Worker (Unit {0})
unfolding reconcile_payment
payment_reconcile_sweep cfg configured providers = do
  if configured
      then (do
        intents ←
            or_fail (list_stale_payment_intents cfg.payment_reconcile_interval 100)
              "list stale payment intents"
        for_each intents (λ intent.
            reconcile_with intent (fetch_from (providers intent.provider) intent.provider_ref)))
      else pure tt
  now ← read_clock
  _ ←
      or_fail
        (enqueue_job payment_reconcile_sweep_kind no_payload
          (some (now + cfg.payment_reconcile_interval)) cfg.job_max_attempts)
        "reschedule payment reconcile sweep"
  pure tt
