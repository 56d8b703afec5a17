-- ===== src/Store/Fulfillment.antt =====
-- store/fulfillment.go, store/disputes.go and store/reviews.go: deliveries, revisions, cancellations,
-- disputes and the review of an order.
use gig.Base.{
  ℕ, ◌+◌, Bool, true, false, ◌&&◌, Option, none, some, List, [], ◌∷◌, ◌++◌, ◌==◌, leb,
  if◌then◌else◌, find, update_where, count_where,
}
use gig.Base.Text.{Bytes}
use gig.Base.Result.{Result, ok, err}
use gig.Db.{
  Db, StoreError, not_found, failed, revision_limit_reached, already_reviewed, Action, statement,
  Order, Delivery, CancellationRequest, CancellationStatus, cancellation_pending,
  cancellation_approved, cancellation_declined, Dispute, DisputeStatus, dispute_open,
  dispute_resolved, Review,
}
use gig.Store.Orders.{has_id, or_not_found, rows_affected}

-- `coalesce(max(version), 0)` over the deliveries of an order.
abbrev pub max_version : ℕ → List Delivery → ℕ
max_version order [] = 0
max_version order (d ∷ ds) =
    let rest = max_version order ds in
    if d.order_id == order then (if leb d.version rest then rest else d.version) else rest

-- What a call does once the order's row is there; a row that refers to no order is refused.
abbrev pub if_order :
    {A : Type 0} → Option Order → (Order → Result StoreError A × Db) → Db → Result StoreError A × Db
if_order none f db = (err failed, db)
if_order (some o) f db = f o

unfoldable pub create_delivery : ℕ → ℕ → Bytes → Action StoreError Delivery
unfolding statement
create_delivery order seller message = statement λ db.
    let d : Delivery = record {
      id = db.next_id;
      order_id = order;
      seller_id = seller;
      version = max_version order db.deliveries + 1;
      message = message;
      created_at = db.now;
    } in
    if_order (find (has_id order) db.orders)
      (λ _. (ok d, record db { deliveries = db.deliveries ++ d ∷ []; next_id = db.next_id + 1 })) db

unfoldable pub use_revision : ℕ → Order → Order
use_revision now o = record o { revisions_used = o.revisions_used + 1; updated_at = now }

abbrev pub revise_order : ℕ → ℕ → Bytes → Option Order → Db → Result StoreError (Unit {0}) × Db
revise_order order buyer reason none db = (err not_found, db)
revise_order order buyer reason (some o) db =
    if leb o.revisions_allowed o.revisions_used then (err revision_limit_reached, db) else (
      ok tt,
      record db {
        orders = update_where (has_id order) (use_revision db.now) db.orders;
        revision_requests =
            db.revision_requests
            ++ record {
              id = db.next_id;
              order_id = order;
              buyer_id = buyer;
              reason = reason;
              created_at = db.now;
            }
              ∷ [];
        next_id = db.next_id + 1;
      },
    )

unfoldable pub create_revision_request : ℕ → ℕ → Bytes → Action StoreError (Unit {0})
unfolding statement use_revision
create_revision_request order buyer reason =
    statement λ db. revise_order order buyer reason (find (has_id order) db.orders) db

unfoldable pub create_cancellation_request : ℕ → ℕ → Bytes → Action StoreError (Unit {0})
unfolding statement
create_cancellation_request order user reason = statement λ db. (
  ok tt,
  record db {
    cancellation_requests =
        db.cancellation_requests
        ++ record {
          id = db.next_id;
          order_id = order;
          requested_by = user;
          reason = reason;
          status = cancellation_pending;
          resolved_at = none;
          created_at = db.now;
        }
          ∷ [];
    next_id = db.next_id + 1;
  },
)

abbrev pub is_pending_status : CancellationStatus → Bool
is_pending_status cancellation_pending = true
is_pending_status cancellation_approved = false
is_pending_status cancellation_declined = false

-- `ORDER BY created_at DESC LIMIT 1`: the row inserted last.
abbrev pub last_of {ℓ} : {A : Type ℓ} → (A → Bool) → List A → Option A
last_of p [] = none
last_of p (x ∷ xs) = elim (last_of p xs) [ some y ↦ some y | none ↦ if p x then some x else none ]

unfoldable pub get_open_cancellation_request : ℕ → Action StoreError CancellationRequest
unfolding statement
get_open_cancellation_request order = statement λ db.
    or_not_found
      (last_of (λ c. c.order_id == order && is_pending_status c.status) db.cancellation_requests) db

unfoldable pub resolve_cancellation_request : ℕ → CancellationStatus → Action StoreError (Unit {0})
unfolding statement
resolve_cancellation_request i to = statement λ db.
    let hit : CancellationRequest → Bool = λ c. c.id == i && is_pending_status c.status in
    (
      rows_affected (count_where hit db.cancellation_requests),
      record db {
        cancellation_requests =
            update_where hit (λ c. record c { status = to; resolved_at = some db.now })
              db.cancellation_requests;
      },
    )

unfoldable pub create_dispute : ℕ → ℕ → Bytes → Action StoreError (Unit {0})
unfolding statement
create_dispute order user reason = statement λ db. (
  ok tt,
  record db {
    disputes =
        db.disputes
        ++ record {
          id = db.next_id;
          order_id = order;
          opened_by = user;
          reason = reason;
          status = dispute_open;
          decision = [];
          resolved_by = none;
          resolved_at = none;
          created_at = db.now;
        }
          ∷ [];
    next_id = db.next_id + 1;
  },
)

abbrev pub is_open_status : DisputeStatus → Bool
is_open_status dispute_open = true
is_open_status dispute_resolved = false

unfoldable pub get_open_dispute : ℕ → Action StoreError Dispute
unfolding statement
get_open_dispute order = statement λ db.
    or_not_found (last_of (λ d. d.order_id == order && is_open_status d.status) db.disputes) db

unfoldable pub resolve_dispute : ℕ → ℕ → Bytes → Action StoreError (Unit {0})
unfolding statement
resolve_dispute i admin decision = statement λ db.
    let hit : Dispute → Bool = λ d. d.id == i && is_open_status d.status in
    (
      rows_affected (count_where hit db.disputes),
      record db {
        disputes =
            update_where hit
              (λ d. record d {
                status = dispute_resolved;
                decision = decision;
                resolved_by = some admin;
                resolved_at = some db.now;
              })
              db.disputes;
      },
    )

abbrev pub review_of : ℕ → Review → Bool
review_of order r = r.order_id == order

-- The order of a review is unique. The seller's rating summary, which the call recomputes, is not
-- part of the model.
unfoldable pub create_review : ℕ → ℕ → ℕ → ℕ → ℕ → Bytes → Action StoreError (Unit {0})
unfolding statement
create_review order gig buyer seller rating body = statement λ db.
    if count_where (review_of order) db.reviews == 0
    then (
      ok tt,
      record db {
        reviews =
            db.reviews
            ++ record {
              id = db.next_id;
              order_id = order;
              gig_id = gig;
              buyer_id = buyer;
              seller_id = seller;
              rating = rating;
              body = body;
            }
              ∷ [];
        next_id = db.next_id + 1;
      },
    )
    else (err already_reviewed, db)
