-- ===== src/Lifecycle/Effects.antt =====
-- The interface between the store's calls and what is kept through them: what a call may do to the
-- orders and to the postings, each with a rule; the time stands still. The other tables are free.
use gig.Base.{ℕ, ◌≡◌, refl, Bool, true, false, some, List, [], ◌∷◌, ◌++◌, leb, find, update_where}
use gig.Base.Result.{ok}
use gig.Status.{OrderStatus, pending_payment, can_transition_order}
use gig.Ledger.{Entry, validate}
use gig.Db.{Db, Order, LedgerEntry, StoreError, Action, statement}
use gig.Db.Keeps.{Keeps, Keeps-statement}
use gig.Store.Orders.{has_id, set_order_status, accept_order, is_at, is_overdue}
use gig.Store.Fulfillment.{use_revision}
use gig.Store.Ledger.{post_entries}

-- A row as a checkout inserts it.
abbrev pub IsNew : Order → Type 0
IsNew o = (o.status ≡ pending_payment) × (o.revisions_used ≡ 0)

-- What an invariant may speak of.
abbrev pub in_view : Db → List Order × List LedgerEntry × ℕ
in_view db = (db.orders, db.ledger_entries, db.now)

-- `I` is kept by the effects of the calls: a transition that the table allows, a revision of an order
-- that has one left, the acceptance of overdue deliveries, a new order, and the posting of entries
-- that Validate accepts.
pub record CallRules (I : Db → Type 0) : Type 0 where
  pub same : (d e : Db) → in_view e ≡ in_view d → I d → I e
  pub move :
      (d : Db) (k : ℕ) (from to : OrderStatus)
      → can_transition_order from to ≡ true
      → I d
      → I (record d { orders = update_where (is_at k from) (set_order_status to d.now) d.orders })
  pub revise :
      (d : Db) (k : ℕ) (o : Order)
      → find (has_id k) d.orders ≡ some o
      → leb o.revisions_allowed o.revisions_used ≡ false
      → I d
      → I (record d { orders = update_where (has_id k) (use_revision d.now) d.orders })
  pub overdue :
      (d : Db) (cutoff : ℕ)
      → I d
      → I (record d { orders = update_where (is_overdue cutoff) (accept_order d.now) d.orders })
  pub place : (d : Db) (o : Order) → IsNew o → I d → I (record d { orders = d.orders ++ o ∷ [] })
  pub post :
      (d : Db) (group : ℕ) (es : List Entry)
      → validate es ≡ ok tt
      → I d
      → I (post_entries group es d)

module _ {I : Db → Type 0} (rule : CallRules I) where
  pub fault_free : (d : Db) (rest : List Bool) → I d → I (record d { faults = rest })
  fault_free d rest h = rule.same d _ refl h

  -- A call that leaves the orders and the postings alone.
  pub same_rows :
      {A : Type 0} (f : Action StoreError A)
      → ((db : Db) → in_view (f db).1 ≡ in_view db)
      → Keeps I (statement f)
  same_rows f same =
      Keeps-statement f fault_free record { at = λ db h. rule.same db (f db).1 (same db) h }
