-- ===== src/Lifecycle/Tests.antt =====
-- A day of the shop, from the checkout of an order to its acceptance, and the theorems on it.
use gig.Base.{◌⊎◌, ◌≡◌, ◌≤◌, refl, ap, inl, true, false, none, some, List, [], ◌∷◌}
use gig.Base.Int.{pos, ◌+ℤ◌, ◌-ℤ◌, ◌*ℤ◌, quot, wrap64}
use gig.Base.Text.{codes, bytes_eq, to_lower, to_lower_byte, trim_space}
use gig.Status.{
  delivered, succeeded, in_progress, accepted, closed, can_transition_order, can_transition_payment,
}
use gig.Status.Life.{Life, IsPayout}
use gig.Db.{PaymentIntent, Job, job_queued, job_claimed, job_done, Db, Order, ◌>>=◌, for_each}
use gig.Providers.{Provider, Registry}
use gig.Handlers.Orders.{no_file, order_deliver, order_accept, save_optional_order_file}
use gig.Handlers.Disputes.{order_dispute_open}
use gig.Handlers.Access.{load_order_access}
use gig.Handlers.Earnings.{release_seller_earnings}
use gig.Store.Fulfillment.{create_delivery}
use gig.Handlers.Response.{audit, notify}
use gig.Store.Orders.{
  create_order_from_draft, write_audit, count_recent_orders_by_buyer, create_notification,
  get_order, transition_order, user_has_role,
}
use gig.Store.Payments.{
  latest_payment_intent_for_order, create_payment_intent, set_payment_intent_session,
  record_payment_attempt, get_payment_intent_by_provider_ref, set_payment_intent_charge_ref,
  transition_payment_intent,
}
use gig.Store.Webhooks.{
  insert_webhook_event, get_webhook_event_by_provider_event_id, mark_webhook_processed,
}
use gig.Store.Jobs.{enqueue_job}
use gig.Store.Ledger.{post_ledger_entries}
use gig.Ledger.{payment_captured, validate}
use gig.Worker.Payments.{process_payment_webhook}
use gig.Handlers.Checkout.{
  Settings, Checkout, VerifiedEvent, checkout_confirm, receive_webhook_event,
}
use gig.Lifecycle.Requests.{
  Turn, run, serve, serve_all, confirm, webhook, webhook_job, deliver, accept, dispute_open,
}
use gig.Lifecycle.Books.{InBalance, serve_all-InBalance}
use gig.Lifecycle.Orders.{
  order_at, status_of, serve_all-Life, serve_all-final, serve_all-not-IsPayout, serve_all-revisions,
  serve_all-terms, HasTerms, serve-stamped, IsUnmoved, IsTimed,
}

abbrev pub empty_shop : Db
empty_shop = record {
  orders = [];
  order_items = [];
  draft_orders = 3 ∷ [];
  deliveries = [];
  revision_requests = [];
  cancellation_requests = [];
  disputes = [];
  reviews = [];
  order_attachments = [];
  order_messages = [];
  payment_intents = [];
  payment_attempts = [];
  webhook_events = [];
  refunds = [];
  seller_onboarding = [];
  ledger_accounts = [];
  ledger_entries = [];
  payouts = [];
  payouts_paused = false;
  jobs = [];
  notifications = [];
  audit_log = [];
  users = [];
  user_roles = [];
  sessions = [];
  auth_tokens = [];
  seller_wallets = [];
  next_id = 1;
  now = 0;
  faults = [];
}

-- A card provider that reports every payment as succeeded.
abbrev pub card : Provider
card = record {
  name = "stripe";
  parse_event = λ body. some record {
    provider = "stripe";
    provider_ref = "cs_1";
    account = none;
    payment =
        some record {
          status = succeeded;
          charge_ref = "ch_1";
          failure_code = "";
          failure_reason = "";
        };
  };
  fetch_payment = λ ref. none;
  create_payment = λ order amount currency key.
      some record { provider_ref = "cs_1"; checkout_url = "https://pay"; expires_at = none };
  refund =
      λ ref amount currency reason key. some record { status = succeeded; provider_ref = "re_1" };
}

abbrev pub registry : Registry
registry name = some card

abbrev settings : Settings
settings = record {
  payments_enabled = true;
  configured = true;
  providers = registry;
  checkout_key = λ i. "checkout:1:0";
  platform_fee_bps = pos 1000;
  velocity_window = 3600;
}

abbrev pub checkout : Checkout
checkout = record {
  draft_id = 3;
  seller_id = 20;
  gig_id = 5;
  requirements = codes "a logo";
  selected = record {
    name = codes "basic";
    description = [];
    price_minor_units = pos 10000;
    currency = codes "USD";
    delivery_days = 3;
    revisions = 2;
  };
  addons = [];
}

abbrev pub event : VerifiedEvent
event = record {
  provider = "stripe";
  event_id = "evt_1";
  event_type = "checkout.session.completed";
}

-- The buyer 10 orders from the seller 20 and pays.
abbrev morning : List Turn
morning =
    record { now = 100; faults = []; request = confirm settings 10 checkout (some "card") }
    ∷ record { now = 110; faults = []; request = webhook event (codes "paid") }
    ∷ record {
      now = 120;
      faults = [];
      request = webhook_job registry (gig.Db.webhook_payload "stripe" "evt_1");
    }
    ∷ []

-- The seller delivers and the buyer accepts; a stranger's dispute on the way is turned away, and one
-- call of the acceptance fails.
abbrev afternoon : List Turn
afternoon =
    record { now = 200; faults = []; request = deliver 20 (some 1) (some (codes "done", no_file)) }
    ∷ record {
      now = 210;
      faults = [];
      request = dispute_open 99 (some 1) (some (codes "mine", no_file));
    }
    ∷ record { now = 220; faults = false ∷ false ∷ true ∷ []; request = accept 10 (some 1) }
    ∷ record { now = 230; faults = []; request = accept 10 (some 1) }
    ∷ []

serve_all-Life_example :
    Life (status_of (order_at 1 empty_shop)) (status_of (order_at 1 (serve_all morning empty_shop)))
serve_all-Life_example = serve_all-Life 1 morning empty_shop

-- The order as it is paid, with 10% on top of its price.
abbrev pub paid_order : Order
paid_order = record {
  id = 1;
  buyer_id = 10;
  seller_id = 20;
  gig_id = 5;
  status = in_progress;
  requirements = codes "a logo";
  revisions_used = 0;
  revisions_allowed = 2;
  subtotal_minor_units = pos 10000;
  platform_fee_minor_units = pos 1000;
  total_minor_units = pos 11000;
  currency = codes "USD";
  paid_at = some 120;
  delivered_at = none;
  accepted_at = none;
  cancelled_at = none;
  closed_at = none;
  created_at = 100;
  updated_at = 120;
}

abbrev accepted_order : Order
accepted_order = record paid_order {
  status = accepted;
  delivered_at = some 200;
  accepted_at = some 230;
  updated_at = 230;
}

absent_at_first : order_at 1 empty_shop ≡ none
absent_at_first = refl

paid_in_the_morning : order_at 1 (serve_all morning empty_shop) ≡ some paid_order
unfolding serve_all serve run checkout_confirm process_payment_webhook receive_webhook_event ◌>>=◌
    insert_webhook_event get_webhook_event_by_provider_event_id trim_space create_order_from_draft
    audit notify write_audit count_recent_orders_by_buyer wrap64 ◌+ℤ◌ ◌-ℤ◌ quot ◌*ℤ◌
    create_payment_intent set_payment_intent_session to_lower to_lower_byte bytes_eq enqueue_job
    create_notification record_payment_attempt get_payment_intent_by_provider_ref
    set_payment_intent_charge_ref transition_payment_intent mark_webhook_processed get_order
    transition_order can_transition_payment payment_captured validate post_ledger_entries
paid_in_the_morning = refl

-- The shop when it opens for the afternoon.
abbrev pub noon : Db
noon = record empty_shop { orders = paid_order ∷ []; next_id = 40 }

accepted_in_the_afternoon : order_at 1 (serve_all afternoon noon) ≡ some accepted_order
unfolding serve_all serve run checkout_confirm process_payment_webhook receive_webhook_event ◌>>=◌
    insert_webhook_event get_webhook_event_by_provider_event_id trim_space create_order_from_draft
    audit notify write_audit count_recent_orders_by_buyer wrap64 ◌+ℤ◌ ◌-ℤ◌ quot ◌*ℤ◌
    create_payment_intent set_payment_intent_session to_lower to_lower_byte bytes_eq enqueue_job
    create_notification record_payment_attempt get_payment_intent_by_provider_ref
    set_payment_intent_charge_ref transition_payment_intent mark_webhook_processed get_order
    transition_order can_transition_payment payment_captured validate post_ledger_entries
    order_deliver create_delivery order_dispute_open order_accept load_order_access user_has_role
    can_transition_order save_optional_order_file release_seller_earnings
    latest_payment_intent_for_order
accepted_in_the_afternoon = refl

-- A shop whose only order is closed.
abbrev closed_shop : Db
closed_shop = record empty_shop {
  orders = record accepted_order { status = closed; closed_at = some 300 } ∷ [];
  next_id = 40;
}

serve_all-final_example : status_of (order_at 1 (serve_all afternoon closed_shop)) ≡ some closed
serve_all-final_example = serve_all-final 1 afternoon closed_shop closed refl (inl refl)

serve_all-not-IsPayout_example : ¬ IsPayout in_progress
serve_all-not-IsPayout_example =
    serve_all-not-IsPayout 1 morning empty_shop in_progress absent_at_first
      (ap status_of paid_in_the_morning)

serve_all-revisions_example : paid_order.revisions_used ≤ paid_order.revisions_allowed
serve_all-revisions_example =
    serve_all-revisions 1 morning empty_shop paid_order absent_at_first paid_in_the_morning

serve_all-terms_example : HasTerms paid_order (order_at 1 (serve_all afternoon noon))
serve_all-terms_example = serve_all-terms 1 afternoon noon paid_order refl

-- The order is back with the seller, who delivers a second time.
abbrev redelivery : Turn
redelivery = record {
  now = 250;
  faults = [];
  request = deliver 20 (some 1) (some (codes "again", no_file));
}

abbrev returned_shop : Db
returned_shop = record noon { orders = record paid_order { delivered_at = some 200 } ∷ [] }

abbrev redelivered_order : Order
redelivered_order = record paid_order {
  status = delivered;
  delivered_at = some 250;
  updated_at = 250;
}

delivered_again : order_at 1 (serve redelivery returned_shop) ≡ some redelivered_order
unfolding serve run ◌>>=◌ trim_space audit notify write_audit enqueue_job create_notification
    get_order transition_order order_deliver create_delivery load_order_access user_has_role
    can_transition_order save_optional_order_file
delivered_again = refl

serve-stamped_example :
    IsUnmoved (order_at 1 returned_shop) redelivered_order
    ⊎ IsTimed redelivered_order.status redelivered_order 250
serve-stamped_example = serve-stamped 1 redelivery returned_shop redelivered_order delivered_again

empty_shop-InBalance : InBalance empty_shop
unfolding wrap64
empty_shop-InBalance = (λ c. refl, tt)

serve_all-InBalance_example : InBalance (serve_all morning empty_shop)
serve_all-InBalance_example = serve_all-InBalance morning empty_shop empty_shop-InBalance
