-- ===== src/Lifecycle/Calls.antt =====
-- The store's calls on orders and on the ledger keep what the rules on effects keep.
use gig.Base.{
  ℕ, ◌+◌, ◌≡◌, refl, inl, inr, true, Bool, Option, none, some, List, String, ◌==◌, leb, find,
  count_where, Bool-cases, Option-cases,
}
use gig.Base.Int.{ℤ}
use gig.Base.Text.{Bytes}
use gig.Base.Result.{Result, ok, err}
use gig.Status.{OrderStatus, can_transition_order}
use gig.Db.{Db, Order, OrderItemInput, AttachmentKind, CancellationStatus, JobPayload, Role}
use gig.Db.Keeps.{Keeps, Keeps-statement}
use gig.Store.Orders.{
  get_order, transition_order, auto_accept_orders, create_order_from_draft,
  count_recent_orders_by_buyer, create_order_message, create_order_attachment, create_notification,
  write_audit, user_has_role, or_not_found, has_id,
}
use gig.Store.Fulfillment.{
  create_delivery, create_revision_request, create_cancellation_request,
  get_open_cancellation_request, resolve_cancellation_request, create_dispute, get_open_dispute,
  resolve_dispute, create_review, use_revision, revise_order, review_of,
}
use gig.Store.Ledger.{post_ledger_entries, post_validated}
use gig.Store.Jobs.{enqueue_job}
use gig.Ledger.{Entry, LedgerError, validate}
use gig.Lifecycle.Effects.{CallRules, in_view, same_rows, fault_free}

pub or_not_found-rows :
    {A : Type 0} (o : Option A) (db : Db) → in_view (or_not_found o db).1 ≡ in_view db
or_not_found-rows none db = refl
or_not_found-rows (some a) db = refl

module _ {I : Db → Type 0} (rule : CallRules I) where
  pub get_order-Keeps : (k : ℕ) → Keeps I (get_order k)
  unfolding get_order
  get_order-Keeps k = same_rows rule _ (λ db. or_not_found-rows _ db)

  pub user_has_role-Keeps : (u : ℕ) (r : Role) → Keeps I (user_has_role u r)
  unfolding user_has_role
  user_has_role-Keeps u r = same_rows rule _ (λ db. refl)

  pub count_recent-Keeps : (b since : ℕ) → Keeps I (count_recent_orders_by_buyer b since)
  unfolding count_recent_orders_by_buyer
  count_recent-Keeps b since = same_rows rule _ (λ db. refl)

  pub create_order_message-Keeps :
      (k u : ℕ) (body : Bytes) (info : Bool) → Keeps I (create_order_message k u body info)
  unfolding create_order_message
  create_order_message-Keeps k u body info = same_rows rule _ (λ db. refl)

  pub create_order_attachment-Keeps :
      (k u : ℕ) (kind : AttachmentKind) (path name : String)
      → Keeps I (create_order_attachment k u kind path name)
  unfolding create_order_attachment
  create_order_attachment-Keeps k u kind path name = same_rows rule _ (λ db. refl)

  pub create_notification-Keeps :
      (u : ℕ) (kind : String) (k : ℕ) → Keeps I (create_notification u kind k)
  unfolding create_notification
  create_notification-Keeps u kind k = same_rows rule _ (λ db. refl)

  pub write_audit-Keeps :
      (u : Option ℕ) (action : String) (k : ℕ) → Keeps I (write_audit u action k)
  unfolding write_audit
  write_audit-Keeps u action k = same_rows rule _ (λ db. refl)

  pub enqueue_job-Keeps :
      (kind : String) (job : JobPayload) (run_at : Option ℕ) (n : ℕ)
      → Keeps I (enqueue_job kind job run_at n)
  unfolding enqueue_job
  enqueue_job-Keeps kind job run_at n = same_rows rule _ (λ db. refl)

  pub create_delivery-Keeps :
      (k seller : ℕ) (message : Bytes) → Keeps I (create_delivery k seller message)
  unfolding create_delivery
  create_delivery-Keeps k seller message =
      same_rows rule _
        (λ db. elim (Option-cases (find (has_id k) db.orders)) [ inl n ↦ rw n | inr (o, s) ↦ rw s ])

  pub create_cancellation_request-Keeps :
      (k u : ℕ) (reason : Bytes) → Keeps I (create_cancellation_request k u reason)
  unfolding create_cancellation_request
  create_cancellation_request-Keeps k u reason = same_rows rule _ (λ db. refl)

  pub get_open_cancellation_request-Keeps : (k : ℕ) → Keeps I (get_open_cancellation_request k)
  unfolding get_open_cancellation_request
  get_open_cancellation_request-Keeps k = same_rows rule _ (λ db. or_not_found-rows _ db)

  pub resolve_cancellation_request-Keeps :
      (k : ℕ) (to : CancellationStatus) → Keeps I (resolve_cancellation_request k to)
  unfolding resolve_cancellation_request
  resolve_cancellation_request-Keeps k to = same_rows rule _ (λ db. refl)

  pub create_dispute-Keeps : (k u : ℕ) (reason : Bytes) → Keeps I (create_dispute k u reason)
  unfolding create_dispute
  create_dispute-Keeps k u reason = same_rows rule _ (λ db. refl)

  pub get_open_dispute-Keeps : (k : ℕ) → Keeps I (get_open_dispute k)
  unfolding get_open_dispute
  get_open_dispute-Keeps k = same_rows rule _ (λ db. or_not_found-rows _ db)

  pub resolve_dispute-Keeps : (k u : ℕ) (d : Bytes) → Keeps I (resolve_dispute k u d)
  unfolding resolve_dispute
  resolve_dispute-Keeps k u d = same_rows rule _ (λ db. refl)

  pub create_review-Keeps : (k g b s r : ℕ) (body : Bytes) → Keeps I (create_review k g b s r body)
  unfolding create_review
  create_review-Keeps k g b s r body = same_rows rule _ (λ db.
      elim (Bool-cases (count_where (review_of k) db.reviews == 0)) [ inl e ↦ rw e | inr e ↦ rw e ])

  post_validated-Holds :
      (r : Result LedgerError (Unit {0})) (es : List Entry) (db : Db)
      → validate es ≡ r
      → I db
      → I (post_validated r es db).1
  post_validated-Holds (ok _) es db e h =
      rule.post (record db { next_id = db.next_id + 1 }) db.next_id es e (rule.same db _ refl h)
  post_validated-Holds (err x) es db e h = h

  pub post_ledger_entries-Keeps : (es : List Entry) → Keeps I (post_ledger_entries es)
  unfolding post_ledger_entries
  post_ledger_entries-Keeps es =
      Keeps-statement _ (fault_free rule)
        record { at = λ db h. post_validated-Holds (validate es) es db refl h }

  -- The transition of an order that the table allows.
  pub transition_order-Keeps :
      (k : ℕ) (from to : OrderStatus)
      → can_transition_order from to ≡ true
      → Keeps I (transition_order k from to)
  unfolding transition_order
  transition_order-Keeps k from to allowed =
      Keeps-statement _ (fault_free rule) record { at = λ db h. rule.move db k from to allowed h }

  pub auto_accept_orders-Keeps : (cutoff : ℕ) → Keeps I (auto_accept_orders cutoff)
  unfolding auto_accept_orders
  auto_accept_orders-Keeps cutoff =
      Keeps-statement _ (fault_free rule) record { at = λ db h. rule.overdue db cutoff h }

  pub create_order_from_draft-Keeps :
      (draft buyer seller gig : ℕ) (req : Bytes) (items : List OrderItemInput) (sub fee total : ℤ)
      (cur : Bytes) (rev : ℕ)
      → Keeps I (create_order_from_draft draft buyer seller gig req items sub fee total cur rev)
  unfolding create_order_from_draft
  create_order_from_draft-Keeps draft buyer seller gig req items sub fee total cur rev =
      Keeps-statement _ (fault_free rule)
        record { at = λ db h. rule.same _ _ refl (rule.place db _ (refl, refl) h) }

  revise_order-Holds :
      (k u : ℕ) (reason : Bytes) (r : Option Order) (db : Db)
      → find (has_id k) db.orders ≡ r
      → I db
      → I (revise_order k u reason r db).1
  unfolding use_revision
  revise_order-Holds k u reason none db e h = h
  revise_order-Holds k u reason (some o) db e h =
      elim (Bool-cases (leb o.revisions_allowed o.revisions_used)) [
        | inl used_up ↦ rw used_up h
        | inr left ↦ rw left (rule.same _ _ refl (rule.revise db k o e left h))
      ]

  pub create_revision_request-Keeps :
      (k u : ℕ) (reason : Bytes) → Keeps I (create_revision_request k u reason)
  unfolding create_revision_request
  create_revision_request-Keeps k u reason =
      Keeps-statement _ (fault_free rule)
        record { at = λ db h. revise_order-Holds k u reason _ db refl h }

-- The calls on orders.
pub ruleset order_call_rules = (
  get_order-Keeps, user_has_role-Keeps, count_recent-Keeps, create_order_message-Keeps,
  create_order_attachment-Keeps, create_notification-Keeps, write_audit-Keeps, enqueue_job-Keeps,
  create_delivery-Keeps, create_cancellation_request-Keeps, get_open_cancellation_request-Keeps,
  resolve_cancellation_request-Keeps, create_dispute-Keeps, get_open_dispute-Keeps,
  resolve_dispute-Keeps, create_review-Keeps, post_ledger_entries-Keeps, transition_order-Keeps,
  auto_accept_orders-Keeps, create_order_from_draft-Keeps, create_revision_request-Keeps,
)
