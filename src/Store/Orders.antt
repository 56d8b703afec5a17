-- ===== src/Store/Orders.antt =====
-- store/orders.go, store/messages.go, store/notifications.go and the audit log: the rows of an order.
use gig.Base.{
  ℕ, ◌+◌, Bool, true, false, ◌&&◌, Option, none, some, List, [], ◌∷◌, ◌++◌, String, ◌==◌, ltb, leb,
  if◌then◌else◌, find, update_where, count_where,
}
use gig.Base.Int.{ℤ}
use gig.Base.Text.{Bytes}
use gig.Base.Result.{Result, ok, err}
use gig.Status.{
  OrderStatus, pending_payment, paid, delivered, accepted, cancelled, closed, order_eq,
}
use gig.Db.{
  Db, StoreError, not_found, Action, statement, Order, OrderItemInput, OrderItem, AttachmentKind,
  Role, buyer_role, seller_role, admin_role, UserRole,
}

-- `SELECT ... WHERE id = $1`
abbrev pub has_id : ℕ → Order → Bool
has_id i o = o.id == i

abbrev pub or_not_found : {A : Type 0} → Option A → Db → Result StoreError A × Db
or_not_found none db = (err not_found, db)
or_not_found (some a) db = (ok a, db)

unfoldable pub get_order : ℕ → Action StoreError Order
unfolding statement
get_order i = statement λ db. or_not_found (find (has_id i) db.orders) db

-- `CASE WHEN $3 = 'paid' THEN now() ELSE paid_at END`
abbrev pub stamp : OrderStatus → OrderStatus → ℕ → Option ℕ → Option ℕ
stamp milestone to now old = if order_eq to milestone then some now else old

unfoldable pub set_order_status : OrderStatus → ℕ → Order → Order
set_order_status to now o = record o {
  status = to;
  paid_at = stamp paid to now o.paid_at;
  delivered_at = stamp delivered to now o.delivered_at;
  accepted_at = stamp accepted to now o.accepted_at;
  cancelled_at = stamp cancelled to now o.cancelled_at;
  closed_at = stamp closed to now o.closed_at;
  updated_at = now;
}

-- `WHERE id = $1 AND status = $2`
abbrev pub is_at : ℕ → OrderStatus → Order → Bool
is_at i from o = o.id == i && order_eq o.status from

-- `n, _ := res.RowsAffected(); n == 0`
abbrev pub rows_affected : ℕ → Result StoreError (Unit {0})
rows_affected n = if n == 0 then err not_found else ok tt

unfoldable pub transition_order : ℕ → OrderStatus → OrderStatus → Action StoreError (Unit {0})
unfolding statement set_order_status
transition_order i from to = statement λ db. (
  rows_affected (count_where (is_at i from) db.orders),
  record db { orders = update_where (is_at i from) (set_order_status to db.now) db.orders },
)

-- `status = 'delivered' AND delivered_at < $1`; a comparison with NULL is not true.
abbrev pub before : Option ℕ → ℕ → Bool
before none cutoff = false
before (some t) cutoff = ltb t cutoff

abbrev pub is_overdue : ℕ → Order → Bool
is_overdue cutoff o = order_eq o.status delivered && before o.delivered_at cutoff

unfoldable pub accept_order : ℕ → Order → Order
accept_order now o = record o { status = accepted; accepted_at = some now; updated_at = now }

-- The rows that the statement returns.
abbrev pub accepted_rows : ℕ → ℕ → List Order → List Order
accepted_rows cutoff now [] = []
accepted_rows cutoff now (o ∷ os) =
    let rest = accepted_rows cutoff now os in
    if is_overdue cutoff o then accept_order now o ∷ rest else rest

unfoldable pub auto_accept_orders : ℕ → Action StoreError (List Order)
unfolding statement accept_order
auto_accept_orders cutoff = statement λ db. (
  ok (accepted_rows cutoff db.now db.orders),
  record db { orders = update_where (is_overdue cutoff) (accept_order db.now) db.orders },
)

-- `for _, it := range items { INSERT INTO order_items ... }`
abbrev pub item_rows : ℕ → ℕ → List OrderItemInput → List OrderItem
item_rows order next [] = []
item_rows order next (it ∷ items) =
    record { id = next; order_id = order; item = it } ∷ item_rows order (next + 1) items

abbrev pub item_count : List OrderItemInput → ℕ
item_count [] = 0
item_count (it ∷ items) = 1 + item_count items

abbrev pub without : ℕ → List ℕ → List ℕ
without i [] = []
without i (j ∷ js) = let rest = without i js in if j == i then rest else j ∷ rest

pub new_order : ℕ → ℕ → ℕ → ℕ → ℕ → Bytes → ℤ → ℤ → ℤ → Bytes → ℕ → Order
new_order id now buyer seller gig requirements subtotal fee total currency revisions = record {
  id = id;
  buyer_id = buyer;
  seller_id = seller;
  gig_id = gig;
  status = pending_payment;
  requirements = requirements;
  revisions_used = 0;
  revisions_allowed = revisions;
  subtotal_minor_units = subtotal;
  platform_fee_minor_units = fee;
  total_minor_units = total;
  currency = currency;
  paid_at = none;
  delivered_at = none;
  accepted_at = none;
  cancelled_at = none;
  closed_at = none;
  created_at = now;
  updated_at = now;
}

unfoldable pub create_order_from_draft :
    ℕ → ℕ → ℕ → ℕ → Bytes → List OrderItemInput → ℤ → ℤ → ℤ → Bytes → ℕ → Action StoreError Order
unfolding statement new_order
create_order_from_draft draft buyer seller gig requirements items subtotal fee total currency
      revisions =
    statement λ db.
      let o =
        new_order db.next_id db.now buyer seller gig requirements subtotal fee total currency
          revisions in
      (
        ok o,
        record db {
          orders = db.orders ++ o ∷ [];
          order_items = db.order_items ++ item_rows o.id (db.next_id + 1) items;
          draft_orders = without draft db.draft_orders;
          next_id = db.next_id + 1 + item_count items;
        },
      )

-- `buyer_id = $1 AND created_at >= $2`
unfoldable pub count_recent_orders_by_buyer : ℕ → ℕ → Action StoreError ℕ
unfolding statement
count_recent_orders_by_buyer buyer since =
    statement
      λ db. (ok (count_where (λ o. o.buyer_id == buyer && leb since o.created_at) db.orders), db)

unfoldable pub create_order_message : ℕ → ℕ → Bytes → Bool → Action StoreError (Unit {0})
unfolding statement
create_order_message order sender body info = statement λ db. (
  ok tt,
  record db {
    order_messages =
        db.order_messages
        ++ record {
          id = db.next_id;
          order_id = order;
          sender_id = sender;
          body = body;
          is_info_request = info;
        }
          ∷ [];
    next_id = db.next_id + 1;
  },
)

unfoldable pub create_order_attachment :
    ℕ → ℕ → AttachmentKind → String → String → Action StoreError (Unit {0})
unfolding statement
create_order_attachment order uploader kind path name = statement λ db. (
  ok tt,
  record db {
    order_attachments =
        db.order_attachments
        ++ record {
          id = db.next_id;
          order_id = order;
          uploader_id = uploader;
          kind = kind;
          file_path = path;
          file_name = name;
        }
          ∷ [];
    next_id = db.next_id + 1;
  },
)

unfoldable pub create_notification : ℕ → String → ℕ → Action StoreError (Unit {0})
unfolding statement
create_notification user kind order = statement λ db. (
  ok tt,
  record db {
    notifications =
        db.notifications
        ++ record { id = db.next_id; user_id = user; kind = kind; order_id = order } ∷ [];
    next_id = db.next_id + 1;
  },
)

unfoldable pub write_audit : Option ℕ → String → ℕ → Action StoreError (Unit {0})
unfolding statement
write_audit actor action target = statement λ db. (
  ok tt,
  record db {
    audit_log =
        db.audit_log
        ++ record { id = db.next_id; actor = actor; action = action; target_id = target } ∷ [];
    next_id = db.next_id + 1;
  },
)

abbrev pub is_role : Role → Role → Bool
is_role buyer_role buyer_role = true
is_role seller_role seller_role = true
is_role admin_role admin_role = true
is_role _ _ = false

-- `EXISTS (SELECT 1 FROM user_roles WHERE user_id = $1 AND role = $2)`
abbrev pub has_role : ℕ → Role → List UserRole → Bool
has_role i r [] = false
has_role i r (x ∷ xs) = if x.user_id == i && is_role x.role r then true else has_role i r xs

-- UserHasRole
unfoldable pub user_has_role : ℕ → Role → Action StoreError Bool
unfolding statement
user_has_role user role = statement λ db. (ok (has_role user role db.user_roles), db)
