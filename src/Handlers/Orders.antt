-- ===== src/Handlers/Orders.antt =====
-- The order handlers of handlers/orders.go: messages, deliveries, revisions, acceptance, reviews and
-- cancellations. A request carries the signed-in user, the path value and the parsed form; a form or
-- upload that could not be read is `none`.
use gig.Base.{ℕ, Bool, not, ◌&&◌, ◌||◌, Option, none, some, String, ◌==◌, leb, if◌then◌else◌}
use gig.Base.Text.{Bytes, trim_space, is_empty, take}
use gig.Status.{
  OrderStatus, in_progress, delivered, revision_requested, accepted, cancel_requested, cancelled,
  order_eq, can_transition_order,
}
use gig.Db.{
  StoreError, not_found, revision_limit_reached, already_reviewed, ◌>>=◌, ◌>>◌, pure, raise, guard,
  catch, ignore, AttachmentKind, attachment_delivery, CancellationStatus, cancellation_approved,
  cancellation_declined,
}
use gig.Store.Orders.{transition_order, create_order_message, create_order_attachment}
use gig.Store.Fulfillment.{
  create_delivery, create_revision_request, create_cancellation_request,
  get_open_cancellation_request, resolve_cancellation_request, create_review,
}
use gig.Handlers.Response.{
  Response, forbidden, unprocessable, server_error, flash_error, Handler, or_render, notify, audit,
}
use gig.Handlers.Access.{OrderAccess, load_order_access}
use gig.Handlers.Earnings.{release_seller_earnings}

abbrev pub max_order_message_len : ℕ
max_order_message_len = 4000

abbrev pub max_order_reason_len : ℕ
max_order_reason_len = 2000

-- `if err := r.ParseForm(); err != nil`
abbrev pub form_or : {A : Type 0} → Option A → Response → Handler A
form_or none r = raise r
form_or (some a) r = pure a

unfoldable pub order_message_create : ℕ → Option ℕ → Option (Bytes × Bool) → Handler (Unit {0})
order_message_create user path form = do
  access ← load_order_access user path
  guard (access.is_buyer || access.is_seller) forbidden
  (text, request_info) ← form_or form server_error
  let body = trim_space text
  guard (not (is_empty body)) (flash_error "Message cannot be empty.")
  let info = access.is_seller && request_info
  or_render (create_order_message access.order.id user (take max_order_message_len body) info)
  notify (if access.is_seller then access.order.buyer_id else access.order.seller_id)
      (if info then "order.info_requested" else "order.message") access.order.id

-- The optional file of a form: left out, unreadable or refused by the storage, or stored.
pub data Upload : Type 0 where
  no_file refused_file : Upload
  stored_file : String → String → Upload

-- An error of this is shown to the user, and the handler goes on.
unfoldable pub save_optional_order_file : ℕ → ℕ → Upload → AttachmentKind → Handler (Unit {0})
save_optional_order_file order user no_file kind = pure tt
save_optional_order_file order user refused_file kind = pure tt
save_optional_order_file order user (stored_file path name) kind =
    ignore (create_order_attachment order user kind path name)

unfoldable pub order_deliver : ℕ → Option ℕ → Option (Bytes × Upload) → Handler (Unit {0})
order_deliver user path form = do
  access ← load_order_access user path
  guard access.is_seller forbidden
  let from = access.order.status
  guard (can_transition_order from delivered)
      (flash_error "This order cannot be delivered in its current state.")
  (text, upload) ← form_or form (flash_error "The upload was too large or malformed.")
  let message = trim_space text
  guard (not (is_empty message)) (flash_error "Please describe what you are delivering.")
  _ ← or_render (create_delivery access.order.id user message)
  save_optional_order_file access.order.id user upload attachment_delivery
  or_render (transition_order access.order.id from delivered)
  audit (some user) "order.delivered" access.order.id
  notify access.order.buyer_id "order.delivered" access.order.id

abbrev pub limit_or_error : StoreError → Response
limit_or_error revision_limit_reached = flash_error "This order has no revisions remaining."
limit_or_error _ = server_error

unfoldable pub order_revise : ℕ → Option ℕ → Option Bytes → Handler (Unit {0})
order_revise user path form = do
  access ← load_order_access user path
  guard access.is_buyer forbidden
  let from = access.order.status
  guard (can_transition_order from revision_requested)
      (flash_error "A revision cannot be requested in this order's current state.")
  text ← form_or form server_error
  let reason = trim_space text
  guard (not (is_empty reason)) (flash_error "Please describe what needs to change.")
  catch (create_revision_request access.order.id user (take max_order_reason_len reason))
      limit_or_error
  or_render (transition_order access.order.id from revision_requested)
  audit (some user) "order.revision_requested" access.order.id
  notify access.order.seller_id "order.revision_requested" access.order.id

unfoldable pub order_accept : ℕ → Option ℕ → Handler (Unit {0})
order_accept user path = do
  access ← load_order_access user path
  guard access.is_buyer forbidden
  let from = access.order.status
  guard (can_transition_order from accepted)
      (flash_error "This order cannot be accepted in its current state.")
  or_render (transition_order access.order.id from accepted)
  release_seller_earnings access.order
  audit (some user) "order.accepted" access.order.id
  notify access.order.seller_id "order.accepted" access.order.id

-- The other party of an order.
abbrev pub counterparty : OrderAccess → ℕ
counterparty access = if access.is_seller then access.order.buyer_id else access.order.seller_id

unfoldable pub order_cancel_request : ℕ → Option ℕ → Option Bytes → Handler (Unit {0})
order_cancel_request user path form = do
  access ← load_order_access user path
  guard (access.is_buyer || access.is_seller) forbidden
  let from = access.order.status
  guard (can_transition_order from cancel_requested)
      (flash_error "Cancellation cannot be requested in this order's current state.")
  text ← form_or form server_error
  let reason = trim_space text
  guard (not (is_empty reason)) (flash_error "Please explain why you are requesting cancellation.")
  or_render (create_cancellation_request access.order.id user (take max_order_reason_len reason))
  or_render (transition_order access.order.id from cancel_requested)
  audit (some user) "order.cancel_requested" access.order.id
  notify (counterparty access) "order.cancel_requested" access.order.id

abbrev pub no_request_or_error : StoreError → Response
no_request_or_error not_found = flash_error "There is no pending cancellation request."
no_request_or_error _ = server_error

-- The form's decision; `other` is any text but the two that the handler knows.
pub data Decision : Type 0 where
  approve decline other : Decision

abbrev pub resolution : Decision → Handler (OrderStatus × CancellationStatus)
resolution approve = pure (cancelled, cancellation_approved)
resolution decline = pure (in_progress, cancellation_declined)
resolution other = raise unprocessable

unfoldable pub order_cancel_resolve : ℕ → Option ℕ → Option Decision → Handler (Unit {0})
order_cancel_resolve user path form = do
  access ← load_order_access user path
  guard (access.is_buyer || access.is_seller) forbidden
  cancellation ← catch (get_open_cancellation_request access.order.id) no_request_or_error
  guard (not (cancellation.requested_by == user)) forbidden
  decision ← form_or form server_error
  let from = access.order.status
  (to, outcome) ← resolution decision
  guard (can_transition_order from to)
      (flash_error "This order's state changed before the cancellation could be resolved.")
  or_render (resolve_cancellation_request cancellation.id outcome)
  or_render (transition_order access.order.id from to)
  audit (some user) "order.cancel_resolved" access.order.id
  notify cancellation.requested_by "order.cancel_resolved" access.order.id

abbrev pub reviewed_or_error : StoreError → Response
reviewed_or_error already_reviewed = flash_error "You have already reviewed this order."
reviewed_or_error _ = server_error

-- The rating of the form, if it is a number.
abbrev pub rating_in_range : Option ℕ → Handler ℕ
rating_in_range none = raise (flash_error "Please choose a rating between 1 and 5.")
rating_in_range (some n) =
    if leb 1 n && leb n 5
    then pure n
    else raise (flash_error "Please choose a rating between 1 and 5.")

unfoldable pub order_review_create : ℕ → Option ℕ → Option (Option ℕ × Bytes) → Handler (Unit {0})
order_review_create user path form = do
  access ← load_order_access user path
  guard access.is_buyer forbidden
  guard (order_eq access.order.status accepted)
      (flash_error "You can review an order once you have accepted delivery.")
  (rating, text) ← form_or form server_error
  n ← rating_in_range rating
  catch
      (create_review access.order.id access.order.gig_id user access.order.seller_id n
        (trim_space text))
      reviewed_or_error
  audit (some user) "order.reviewed" access.order.id
  notify access.order.seller_id "order.reviewed" access.order.id
