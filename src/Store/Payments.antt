-- ===== src/Store/Payments.antt =====
-- store/payments.go: payment intents, and what store/sellers.go records of a connected account.
use text.Mathlib.Text.{◌==◌ as str_eq}
use gig.Base.{
  ℕ, ◌+◌, ◌-◌, Bool, ◌&&◌, ◌||◌, not, Option, none, some, List, [], ◌∷◌, ◌++◌, String, ◌==◌, ltb,
  if◌then◌else◌, find, update_where, count_where,
}
use gig.Base.Int.{ℤ}
use gig.Base.Text.{Bytes}
use gig.Base.Result.{ok, err}
use gig.Status.{
  PaymentStatus, pending, processing, succeeded, failed as payment_failed, canceled, payment_eq,
}
use gig.Db.{StoreError, duplicate_idempotency_key, failed, Action, statement, PaymentIntent}
use gig.Store.Orders.{or_not_found, rows_affected}
use gig.Store.Fulfillment.{last_of}

-- The constraint payment_intents_provider_check of migrations/0006_payments.sql.
abbrev pub is_known_provider : String → Bool
is_known_provider p = str_eq p "stripe" || (str_eq p "btcpay" || str_eq p "evm")

pub new_intent : ℕ → ℕ → ℕ → String → String → ℤ → Bytes → String → PaymentIntent
new_intent id now order provider method amount currency key = record {
  id = id;
  order_id = order;
  provider = provider;
  provider_ref = "";
  charge_ref = "";
  method = method;
  status = pending;
  amount_minor = amount;
  currency = currency;
  idempotency_key = key;
  checkout_url = "";
  expires_at = none;
  succeeded_at = none;
  failed_at = none;
  canceled_at = none;
  created_at = now;
  updated_at = now;
}

abbrev pub has_key : String → PaymentIntent → Bool
has_key key p = str_eq p.idempotency_key key

unfoldable pub create_payment_intent :
    ℕ → String → String → ℤ → Bytes → String → Action StoreError PaymentIntent
unfolding statement new_intent
create_payment_intent order provider method amount currency key = statement λ db.
    if is_known_provider provider
    then (if count_where (has_key key) db.payment_intents == 0
        then (let p = new_intent db.next_id db.now order provider method amount currency key in
            (
              ok p,
              record db {
                payment_intents = db.payment_intents ++ p ∷ [];
                next_id = db.next_id + 1;
              },
            ))
        else (err duplicate_idempotency_key, db))
    else (err failed, db)

unfoldable pub get_payment_intent_by_idempotency_key : String → Action StoreError PaymentIntent
unfolding statement
get_payment_intent_by_idempotency_key key =
    statement λ db. or_not_found (find (has_key key) db.payment_intents) db

abbrev pub has_ref : String → String → PaymentIntent → Bool
has_ref provider ref p = str_eq p.provider provider && str_eq p.provider_ref ref

unfoldable pub get_payment_intent_by_provider_ref :
    String → String → Action StoreError PaymentIntent
unfolding statement
get_payment_intent_by_provider_ref provider ref =
    statement λ db. or_not_found (find (has_ref provider ref) db.payment_intents) db

unfoldable pub latest_payment_intent_for_order : ℕ → Action StoreError PaymentIntent
unfolding statement
latest_payment_intent_for_order order =
    statement λ db. or_not_found (last_of (λ p. p.order_id == order) db.payment_intents) db

-- `status IN ('pending', 'processing') AND provider_ref <> '' AND created_at < $1`
abbrev pub is_stale : ℕ → PaymentIntent → Bool
is_stale cutoff p =
    (payment_eq p.status pending || payment_eq p.status processing)
    && (not (str_eq p.provider_ref "") && ltb p.created_at cutoff)

-- `LIMIT $2`
abbrev pub take_where {ℓ} : {A : Type ℓ} → ℕ → (A → Bool) → List A → List A
take_where n p [] = []
take_where n p (x ∷ xs) =
    let rest = take_where (if p x then n - 1 else n) p xs in
    if p x && ltb 0 n then x ∷ rest else rest

abbrev pub clamp_limit : ℕ → ℕ
clamp_limit limit = if ltb limit 1 || ltb 500 limit then 100 else limit

unfoldable pub list_stale_payment_intents : ℕ → ℕ → Action StoreError (List PaymentIntent)
unfolding statement
list_stale_payment_intents older_than limit = statement λ db.
    (ok (take_where (clamp_limit limit) (is_stale (db.now - older_than)) db.payment_intents), db)

abbrev pub has_intent_id : ℕ → PaymentIntent → Bool
has_intent_id i p = p.id == i

unfoldable pub set_payment_intent_session :
    ℕ → String → String → Option ℕ → Action StoreError (Unit {0})
unfolding statement
set_payment_intent_session i ref url expires = statement λ db. (
  rows_affected (count_where (has_intent_id i) db.payment_intents),
  record db {
    payment_intents =
        update_where (has_intent_id i)
          (λ p. record p {
            provider_ref = ref;
            checkout_url = url;
            expires_at = expires;
            updated_at = db.now;
          })
          db.payment_intents;
  },
)

unfoldable pub set_payment_intent_charge_ref : ℕ → String → Action StoreError (Unit {0})
unfolding statement
set_payment_intent_charge_ref i ref = statement λ db. (
  ok tt,
  record db {
    payment_intents =
        update_where (has_intent_id i) (λ p. record p { charge_ref = ref; updated_at = db.now })
          db.payment_intents;
  },
)

abbrev pub stamp_payment : PaymentStatus → PaymentStatus → ℕ → Option ℕ → Option ℕ
stamp_payment milestone to now old = if payment_eq to milestone then some now else old

pub set_payment_status : PaymentStatus → ℕ → PaymentIntent → PaymentIntent
set_payment_status to now p = record p {
  status = to;
  succeeded_at = stamp_payment succeeded to now p.succeeded_at;
  failed_at = stamp_payment payment_failed to now p.failed_at;
  canceled_at = stamp_payment canceled to now p.canceled_at;
  updated_at = now;
}

-- `WHERE id = $1 AND status = $2`
abbrev pub is_payment_at : ℕ → PaymentStatus → PaymentIntent → Bool
is_payment_at i from p = p.id == i && payment_eq p.status from

unfoldable pub transition_payment_intent :
    ℕ → PaymentStatus → PaymentStatus → Action StoreError (Unit {0})
unfolding statement set_payment_status
transition_payment_intent i from to = statement λ db. (
  rows_affected (count_where (is_payment_at i from) db.payment_intents),
  record db {
    payment_intents =
        update_where (is_payment_at i from) (set_payment_status to db.now) db.payment_intents;
  },
)

unfoldable pub record_payment_attempt :
    ℕ → PaymentStatus → String → String → Action StoreError (Unit {0})
unfolding statement
record_payment_attempt intent status code message = statement λ db. (
  ok tt,
  record db {
    payment_attempts =
        db.payment_attempts
        ++ record {
          id = db.next_id;
          payment_intent_id = intent;
          provider_status = status;
          failure_code = code;
          failure_message = message;
        }
          ∷ [];
    next_id = db.next_id + 1;
  },
)

-- store/sellers.go: what the provider reports of a connected account.
unfoldable pub set_stripe_account_capabilities : String → Bool → Bool → Action StoreError (Unit {0})
unfolding statement
set_stripe_account_capabilities account charges payouts = statement λ db. (
  ok tt,
  record db {
    seller_onboarding =
        update_where (λ s. str_eq s.stripe_account_id account)
          (λ s. record s { charges_enabled = charges; payouts_enabled = payouts })
          db.seller_onboarding;
  },
)
