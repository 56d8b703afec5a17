-- ===== src/Handlers/Disputes.antt =====
-- The dispute handlers of handlers/orders.go: either party escalates, an admin decides.
use gig.Base.{ℕ, not, ◌||◌, Option, some}
use gig.Base.Text.{Bytes, trim_space, is_empty, take}
use gig.Status.{OrderStatus, in_progress, disputed, cancelled, closed, can_transition_order}
use gig.Db.{StoreError, not_found, ◌>>=◌, ◌>>◌, pure, raise, guard, catch, attachment_dispute}
use gig.Store.Orders.{transition_order}
use gig.Store.Fulfillment.{create_dispute, get_open_dispute, resolve_dispute}
use gig.Handlers.Response.{
  Response, forbidden, unprocessable, server_error, flash_error, Handler, or_render, notify, audit,
}
use gig.Handlers.Access.{load_order_access}
use gig.Handlers.Orders.{
  form_or, max_order_reason_len, counterparty, Upload, save_optional_order_file,
}

unfoldable pub order_dispute_open : ℕ → Option ℕ → Option (Bytes × Upload) → Handler (Unit {0})
order_dispute_open user path form = do
  access ← load_order_access user path
  guard (access.is_buyer || access.is_seller) forbidden
  let from = access.order.status
  guard (can_transition_order from disputed)
      (flash_error "A dispute cannot be opened in this order's current state.")
  (text, upload) ← form_or form (flash_error "The upload was too large or malformed.")
  let reason = trim_space text
  guard (not (is_empty reason)) (flash_error "Please describe the issue.")
  or_render (create_dispute access.order.id user (take max_order_reason_len reason))
  save_optional_order_file access.order.id user upload attachment_dispute
  or_render (transition_order access.order.id from disputed)
  audit (some user) "order.dispute_opened" access.order.id
  notify (counterparty access) "order.dispute_opened" access.order.id

abbrev pub max_order_decision_len : ℕ
max_order_decision_len = 2000

abbrev pub no_dispute_or_error : StoreError → Response
no_dispute_or_error not_found = flash_error "There is no open dispute on this order."
no_dispute_or_error _ = server_error

-- The outcomes that the form may name; `other_outcome` is any other text.
pub data Outcome : Type 0 where
  to_in_progress to_cancelled to_closed other_outcome : Outcome

abbrev pub outcome_status : Outcome → Handler OrderStatus
outcome_status to_in_progress = pure in_progress
outcome_status to_cancelled = pure cancelled
outcome_status to_closed = pure closed
outcome_status other_outcome = raise unprocessable

unfoldable pub order_dispute_resolve : ℕ → Option ℕ → Option (Bytes × Outcome) → Handler (Unit {0})
order_dispute_resolve user path form = do
  access ← load_order_access user path
  guard access.is_admin forbidden
  dispute ← catch (get_open_dispute access.order.id) no_dispute_or_error
  (text, choice) ← form_or form server_error
  let note = trim_space text
  guard (not (is_empty note)) (flash_error "Please record a decision note.")
  outcome ← outcome_status choice
  let from = access.order.status
  guard (can_transition_order from outcome)
      (flash_error "That outcome is not valid for this order's current state.")
  or_render (resolve_dispute dispute.id user (take max_order_decision_len note))
  or_render (transition_order access.order.id from outcome)
  audit (some user) "order.dispute_resolved" access.order.id
  notify access.order.buyer_id "order.dispute_resolved" access.order.id
  notify access.order.seller_id "order.dispute_resolved" access.order.id
