-- ===== src/Lifecycle/PaymentCalls.antt =====
-- The store's calls on payments keep what the rules on effects keep.
use gig.Base.{ℕ, refl, inl, inr, Bool, ◌||◌, Option, String, ◌==◌, count_where, Bool-cases}
use gig.Base.Int.{ℤ}
use gig.Base.Text.{Bytes}
use gig.Status.{PaymentStatus}
use gig.Db.{Db}
use gig.Db.Keeps.{Keeps}
use gig.Store.Payments.{
  create_payment_intent, get_payment_intent_by_idempotency_key, get_payment_intent_by_provider_ref,
  latest_payment_intent_for_order, list_stale_payment_intents, set_payment_intent_session,
  set_payment_intent_charge_ref, transition_payment_intent, record_payment_attempt,
  set_stripe_account_capabilities, is_known_provider, has_key,
}
use gig.Store.Webhooks.{
  insert_webhook_event, get_webhook_event_by_provider_event_id, mark_webhook_processed, is_event,
}
use gig.Store.Refunds.{
  create_refund, get_refund_for_order, set_refund_status, blocks_refund, is_refund_status,
  has_refund_id,
}
use gig.Lifecycle.Effects.{CallRules, same_rows}
use gig.Lifecycle.Calls.{or_not_found-rows, order_call_rules}

module _ {I : Db → Type 0} (rule : CallRules I) where
  pub create_payment_intent-Keeps :
      (k : ℕ) (provider method : String) (amount : ℤ) (cur : Bytes) (key : String)
      → Keeps I (create_payment_intent k provider method amount cur key)
  unfolding create_payment_intent
  create_payment_intent-Keeps k provider method amount cur key = same_rows rule _ (λ db.
      elim (Bool-cases (is_known_provider provider)) [
        | inl known ↦ elim (Bool-cases (count_where (has_key key) db.payment_intents == 0)) [
          | inl fresh ↦ rw (known, fresh)
          | inr taken ↦ rw (known, taken)
        ]
        | inr unknown ↦ rw unknown
      ])

  pub get_payment_intent_by_idempotency_key-Keeps :
      (key : String) → Keeps I (get_payment_intent_by_idempotency_key key)
  unfolding get_payment_intent_by_idempotency_key
  get_payment_intent_by_idempotency_key-Keeps key = same_rows rule _ (λ db. or_not_found-rows _ db)

  pub get_payment_intent_by_provider_ref-Keeps :
      (provider ref : String) → Keeps I (get_payment_intent_by_provider_ref provider ref)
  unfolding get_payment_intent_by_provider_ref
  get_payment_intent_by_provider_ref-Keeps provider ref =
      same_rows rule _ (λ db. or_not_found-rows _ db)

  pub latest_payment_intent_for_order-Keeps : (k : ℕ) → Keeps I (latest_payment_intent_for_order k)
  unfolding latest_payment_intent_for_order
  latest_payment_intent_for_order-Keeps k = same_rows rule _ (λ db. or_not_found-rows _ db)

  pub list_stale_payment_intents-Keeps : (t n : ℕ) → Keeps I (list_stale_payment_intents t n)
  unfolding list_stale_payment_intents
  list_stale_payment_intents-Keeps t n = same_rows rule _ (λ db. refl)

  pub set_payment_intent_session-Keeps :
      (k : ℕ) (ref url : String) (t : Option ℕ) → Keeps I (set_payment_intent_session k ref url t)
  unfolding set_payment_intent_session
  set_payment_intent_session-Keeps k ref url t = same_rows rule _ (λ db. refl)

  pub set_payment_intent_charge_ref-Keeps :
      (k : ℕ) (ref : String) → Keeps I (set_payment_intent_charge_ref k ref)
  unfolding set_payment_intent_charge_ref
  set_payment_intent_charge_ref-Keeps k ref = same_rows rule _ (λ db. refl)

  pub transition_payment_intent-Keeps :
      (k : ℕ) (from to : PaymentStatus) → Keeps I (transition_payment_intent k from to)
  unfolding transition_payment_intent
  transition_payment_intent-Keeps k from to = same_rows rule _ (λ db. refl)

  pub record_payment_attempt-Keeps :
      (k : ℕ) (to : PaymentStatus) (code text : String)
      → Keeps I (record_payment_attempt k to code text)
  unfolding record_payment_attempt
  record_payment_attempt-Keeps k to code text = same_rows rule _ (λ db. refl)

  pub insert_webhook_event-Keeps :
      (p e t : String) (body : Bytes) → Keeps I (insert_webhook_event p e t body)
  unfolding insert_webhook_event
  insert_webhook_event-Keeps p e t body = same_rows rule _ (λ db.
      elim (Bool-cases (count_where (is_event p e) db.webhook_events == 0)) [
        | inl h ↦ rw h
        | inr h ↦ rw h
      ])

  pub get_webhook_event-Keeps :
      (p e : String) → Keeps I (get_webhook_event_by_provider_event_id p e)
  unfolding get_webhook_event_by_provider_event_id
  get_webhook_event-Keeps p e = same_rows rule _ (λ db. or_not_found-rows _ db)

  pub mark_webhook_processed-Keeps : (k : ℕ) → Keeps I (mark_webhook_processed k)
  unfolding mark_webhook_processed
  mark_webhook_processed-Keeps k = same_rows rule _ (λ db. refl)

  pub create_refund-Keeps :
      (k p : ℕ) (u : Option ℕ) (reason : Bytes) (amount : ℤ) (cur : Bytes)
      → Keeps I (create_refund k p u reason amount cur)
  unfolding create_refund
  create_refund-Keeps k p u reason amount cur = same_rows rule _ (λ db.
      elim (Bool-cases (count_where (blocks_refund k) db.refunds == 0)) [
        | inl e ↦ rw e
        | inr e ↦ rw e
      ])

  pub get_refund_for_order-Keeps : (k : ℕ) → Keeps I (get_refund_for_order k)
  unfolding get_refund_for_order
  get_refund_for_order-Keeps k = same_rows rule _ (λ db. or_not_found-rows _ db)

  pub set_refund_status-Keeps :
      (k : ℕ) (to : PaymentStatus) (ref : String) → Keeps I (set_refund_status k to ref)
  unfolding set_refund_status
  set_refund_status-Keeps k to ref = same_rows rule _ (λ db.
      elim (Bool-cases (is_refund_status to || count_where (has_refund_id k) db.refunds == 0)) [
        | inl e ↦ rw e
        | inr e ↦ rw e
      ])

  pub set_stripe_account_capabilities-Keeps :
      (a : String) (c p : Bool) → Keeps I (set_stripe_account_capabilities a c p)
  unfolding set_stripe_account_capabilities
  set_stripe_account_capabilities-Keeps a c p = same_rows rule _ (λ db. refl)

pub ruleset call_rules = (
  order_call_rules, create_payment_intent-Keeps, get_payment_intent_by_idempotency_key-Keeps,
  get_payment_intent_by_provider_ref-Keeps, latest_payment_intent_for_order-Keeps,
  list_stale_payment_intents-Keeps, set_payment_intent_session-Keeps,
  set_payment_intent_charge_ref-Keeps, transition_payment_intent-Keeps,
  record_payment_attempt-Keeps, insert_webhook_event-Keeps, get_webhook_event-Keeps,
  mark_webhook_processed-Keeps, create_refund-Keeps, get_refund_for_order-Keeps,
  set_refund_status-Keeps, set_stripe_account_capabilities-Keeps,
)
