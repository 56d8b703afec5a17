-- ===== src/Lifecycle/Handlers.antt =====
-- Every handler keeps what obeys a rule.
use gig.Base.{ℕ, Bool, Option, none, some, List, String}
use gig.Base.Text.{Bytes}
use gig.Base.Result.{Result, ok, err}
use gig.Db.{Db, Order, AttachmentKind}
use gig.Db.Keeps.{Keeps, keeps_rules}
use gig.Ledger.{Entry, LedgerError}
use gig.Handlers.Response.{Response, notify, audit}
use gig.Handlers.Access.{path_id, load_order_access}
use gig.Handlers.Earnings.{post_built, release_seller_earnings}
use gig.Handlers.Orders.{
  form_or, Upload, no_file, refused_file, stored_file, save_optional_order_file,
  order_message_create, order_deliver, order_revise, order_accept, order_cancel_request, Decision,
  approve, decline, other, resolution, order_cancel_resolve, order_review_create, rating_in_range,
}
use gig.Handlers.Disputes.{
  order_dispute_open, order_dispute_resolve, Outcome, to_in_progress, outcome_status,
}
use gig.Lifecycle.Effects.{CallRules}
use gig.Lifecycle.PaymentCalls.{call_rules}

module _ {I : Db → Type 0} (rule : CallRules I) where
  pub notify-Keeps :
      {E : Type 0} (u : ℕ) (kind : String) (k : ℕ) → Keeps {E = E} I (notify u kind k)
  unfolding notify
  notify-Keeps u kind k = search (keeps_rules, call_rules, rule)

  pub audit-Keeps : {E : Type 0} (u : Option ℕ) (a : String) (k : ℕ) → Keeps {E = E} I (audit u a k)
  unfolding audit
  audit-Keeps u a k = search (keeps_rules, call_rules, rule)

  pub path_id-Keeps : (p : Option ℕ) → Keeps I (path_id p)
  path_id-Keeps none = search keeps_rules
  path_id-Keeps (some k) = search keeps_rules

  pub load_order_access-Keeps : (u : ℕ) (p : Option ℕ) → Keeps I (load_order_access u p)
  unfolding load_order_access
  load_order_access-Keeps u p = search (keeps_rules, call_rules, rule, path_id-Keeps)

  pub form_or-Keeps : {A : Type 0} (form : Option A) (r : Response) → Keeps I (form_or form r)
  form_or-Keeps none r = search keeps_rules
  form_or-Keeps (some a) r = search keeps_rules

  pub save_optional_order_file-Keeps :
      (k u : ℕ) (upload : Upload) (kind : AttachmentKind)
      → Keeps I (save_optional_order_file k u upload kind)
  unfolding save_optional_order_file
  save_optional_order_file-Keeps k u no_file kind = search keeps_rules
  save_optional_order_file-Keeps k u refused_file kind = search keeps_rules
  save_optional_order_file-Keeps k u (stored_file path name) kind =
      search (keeps_rules, call_rules, rule)

  pub post_built-Keeps :
      {E : Type 0} (r : Result LedgerError (List Entry)) → Keeps {E = E} I (post_built r)
  post_built-Keeps (ok es) = search (keeps_rules, call_rules, rule)
  post_built-Keeps (err e) = search keeps_rules

  pub release_seller_earnings-Keeps :
      {E : Type 0} (o : Order) → Keeps {E = E} I (release_seller_earnings o)
  unfolding release_seller_earnings
  release_seller_earnings-Keeps o = search (keeps_rules, call_rules, rule, post_built-Keeps)

pub ruleset side_rules = (
  keeps_rules, call_rules, notify-Keeps, audit-Keeps, load_order_access-Keeps, form_or-Keeps,
  save_optional_order_file-Keeps, post_built-Keeps, release_seller_earnings-Keeps,
)

module _ {I : Db → Type 0} (rule : CallRules I) where
  pub order_message_create-Keeps :
      (u : ℕ) (p : Option ℕ) (f : Option (Bytes × Bool)) → Keeps I (order_message_create u p f)
  unfolding order_message_create
  order_message_create-Keeps u p f = search (side_rules, rule) depth 30

  pub order_deliver-Keeps :
      (u : ℕ) (p : Option ℕ) (f : Option (Bytes × Upload)) → Keeps I (order_deliver u p f)
  unfolding order_deliver
  order_deliver-Keeps u p f = search (side_rules, rule) depth 30

  pub order_revise-Keeps : (u : ℕ) (p : Option ℕ) (f : Option Bytes) → Keeps I (order_revise u p f)
  unfolding order_revise
  order_revise-Keeps u p f = search (side_rules, rule) depth 30

  pub order_accept-Keeps : (u : ℕ) (p : Option ℕ) → Keeps I (order_accept u p)
  unfolding order_accept
  order_accept-Keeps u p = search (side_rules, rule) depth 30

  pub order_cancel_request-Keeps :
      (u : ℕ) (p : Option ℕ) (f : Option Bytes) → Keeps I (order_cancel_request u p f)
  unfolding order_cancel_request
  order_cancel_request-Keeps u p f = search (side_rules, rule) depth 30

  resolution-Keeps : (d : Decision) → Keeps I (resolution d)
  resolution-Keeps approve = search keeps_rules
  resolution-Keeps decline = search keeps_rules
  resolution-Keeps other = search keeps_rules

  rating_in_range-Keeps : (r : Option ℕ) → Keeps I (rating_in_range r)
  rating_in_range-Keeps none = search keeps_rules
  rating_in_range-Keeps (some n) = search keeps_rules

  outcome_status-Keeps : (d : Outcome) → Keeps I (outcome_status d)
  outcome_status-Keeps to_in_progress = search keeps_rules
  outcome_status-Keeps _ = search keeps_rules

  pub order_cancel_resolve-Keeps :
      (u : ℕ) (p : Option ℕ) (f : Option Decision) → Keeps I (order_cancel_resolve u p f)
  unfolding order_cancel_resolve
  order_cancel_resolve-Keeps u p f = search (side_rules, rule, resolution-Keeps) depth 30

  pub order_review_create-Keeps :
      (u : ℕ) (p : Option ℕ) (f : Option (Option ℕ × Bytes)) → Keeps I (order_review_create u p f)
  unfolding order_review_create
  order_review_create-Keeps u p f = search (side_rules, rule, rating_in_range-Keeps) depth 30

  pub order_dispute_open-Keeps :
      (u : ℕ) (p : Option ℕ) (f : Option (Bytes × Upload)) → Keeps I (order_dispute_open u p f)
  unfolding order_dispute_open
  order_dispute_open-Keeps u p f = search (side_rules, rule) depth 30

  pub order_dispute_resolve-Keeps :
      (u : ℕ) (p : Option ℕ) (f : Option (Bytes × Outcome)) → Keeps I (order_dispute_resolve u p f)
  unfolding order_dispute_resolve
  order_dispute_resolve-Keeps u p f = search (side_rules, rule, outcome_status-Keeps) depth 30
