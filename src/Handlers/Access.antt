-- ===== src/Handlers/Access.antt =====
-- loadOrderAccess of handlers/orders.go: who may see an order. The page of a 404 is rendered at the end,
-- by `respond` of Handlers.Answers.
use gig.Base.{ℕ, Bool, ◌||◌, Option, none, some, ◌==◌}
use gig.Db.{Order, StoreError, not_found, admin_role, ◌>>=◌, ◌>>◌, pure, raise, guard, catch}
use gig.Store.Orders.{get_order, user_has_role}
use gig.Handlers.Response.{Response, page_not_found, server_error, Handler, or_render}

pub record OrderAccess : Type 0 where
  pub order : Order
  pub is_buyer : Bool
  pub is_seller : Bool
  pub is_admin : Bool

-- An order that is not there is a 404; any other error is a 500.
abbrev pub missing_or_error : StoreError → Response
missing_or_error not_found = page_not_found
missing_or_error _ = server_error

-- The path value, if it is a number.
abbrev pub path_id : Option ℕ → Handler ℕ
path_id none = raise page_not_found
path_id (some i) = pure i

unfoldable pub access_of : ℕ → Order → Bool → OrderAccess
access_of user o admin = record {
  order = o;
  is_buyer = o.buyer_id == user;
  is_seller = o.seller_id == user;
  is_admin = admin;
}

unfoldable pub load_order_access : ℕ → Option ℕ → Handler OrderAccess
unfolding access_of
load_order_access user path = do
  i ← path_id path
  o ← catch (get_order i) missing_or_error
  admin ← or_render (user_has_role user admin_role)
  let access = access_of user o admin
  guard (access.is_buyer || (access.is_seller || access.is_admin)) page_not_found
  pure access
