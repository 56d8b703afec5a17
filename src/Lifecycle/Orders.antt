-- ===== src/Lifecycle/Orders.antt =====
-- What any sequence of requests and jobs keeps of each order.
use gig.Base.{ℕ, ◌≡◌, ◌≤◌, refl, ap, ◌⊎◌, inl, inr, Option, none, some, List, arith, find}
use gig.Status.{OrderStatus, paid, delivered, accepted, cancelled, closed, can_transition_order}
use gig.Status.Life.{
  can_transition_order_iff, Life, stay, placed, moved, IsFinal, final_stays, IsPayout,
  IsPayout-unreached,
}
use gig.Db.{Db, Order}
use gig.Store.Orders.{has_id, set_order_status, accept_order}
use gig.Store.Fulfillment.{use_revision}
use gig.Lifecycle.Rule.{order_rules, OrderRule}
use gig.Lifecycle.Requests.{Turn, serve, serve-Keeps, serve_all, serve_all-Keeps}

-- The order that a read by its number returns.
abbrev pub order_at : ℕ → Db → Option Order
order_at i db = find (has_id i) db.orders

abbrev pub status_of : Option Order → Option OrderStatus
status_of none = none
status_of (some o) = some o.status

abbrev LivesFrom : Option OrderStatus → Option Order → Type 0
LivesFrom s r = Life s (status_of r)

life_rule : (s : Option OrderStatus) → OrderRule (λ _. LivesFrom s)
unfolding set_order_status accept_order use_revision can_transition_order
life_rule s = record {
  move = λ o to now allowed q. moved q ((can_transition_order_iff o.status to).0 allowed);
  revise = λ o now left q. q;
  overdue = λ o now at q. moved q ((can_transition_order_iff o.status accepted).0 (rw at));
  place = λ o now new q. rw new.0 (placed q);
}

-- Whatever requests and jobs run, in any order, at any times and under any faults of the database,
-- the status of every order moves only along the arrows of the life cycle.
pub serve_all-Life :
    (i : ℕ) (ts : List Turn) (db : Db)
    → Life (status_of (order_at i db)) (status_of (order_at i (serve_all ts db)))
serve_all-Life i ts db =
    serve_all-Keeps (order_rules (life_rule (status_of (order_at i db))) i) (λ d now faults q. q) ts
      db stay

-- An order that is closed or cancelled keeps that status through any sequence of requests and jobs.
pub serve_all-final :
    (i : ℕ) (ts : List Turn) (db : Db) (s : OrderStatus)
    → status_of (order_at i db) ≡ some s
    → IsFinal s
    → status_of (order_at i (serve_all ts db)) ≡ some s
serve_all-final i ts db s at final = final_stays s final (rw at at (serve_all-Life i ts db))

-- An order that did not exist before a sequence of requests and jobs is not in a payout status after it.
pub serve_all-not-IsPayout :
    (i : ℕ) (ts : List Turn) (db : Db) (s : OrderStatus)
    → order_at i db ≡ none
    → status_of (order_at i (serve_all ts db)) ≡ some s
    → ¬ IsPayout s
serve_all-not-IsPayout i ts db s absent at =
    let life : Life none (some s) = rw (ap status_of absent, at) at (serve_all-Life i ts db) in
    IsPayout-unreached life

abbrev WithinRevisions : Option Order → Type 0
WithinRevisions none = Unit
WithinRevisions (some o) = o.revisions_used ≤ o.revisions_allowed

revisions_rule : OrderRule (λ _. WithinRevisions)
unfolding set_order_status accept_order use_revision
revisions_rule = record {
  move = λ o to now allowed h. h;
  revise = λ o now left h. omega arith;
  overdue = λ o now at h. h;
  place = λ o now new h. rw new.1 (omega arith);
}

-- An order that did not exist before a sequence of requests and jobs has never more revisions used
-- than were sold with it.
pub serve_all-revisions :
    (i : ℕ) (ts : List Turn) (db : Db) (o : Order)
    → order_at i db ≡ none
    → order_at i (serve_all ts db) ≡ some o
    → o.revisions_used ≤ o.revisions_allowed
serve_all-revisions i ts db o absent at =
    rw at at
      (serve_all-Keeps (order_rules revisions_rule i) (λ d now faults q. q) ts db (rw absent tt))

-- What was agreed at the checkout.
abbrev pub SameTerms : Order → Order → Type 0
SameTerms a b =
    (a.buyer_id ≡ b.buyer_id)
    × (a.seller_id ≡ b.seller_id)
    × (a.gig_id ≡ b.gig_id)
    × (a.requirements ≡ b.requirements)
    × (a.revisions_allowed ≡ b.revisions_allowed)
    × (a.subtotal_minor_units ≡ b.subtotal_minor_units)
    × (a.platform_fee_minor_units ≡ b.platform_fee_minor_units)
    × (a.total_minor_units ≡ b.total_minor_units)
    × (a.currency ≡ b.currency)

abbrev pub HasTerms : Order → Option Order → Type 0
HasTerms a none = ⊥
HasTerms a (some b) = SameTerms a b

terms_rule : (a : Order) → OrderRule (λ _. HasTerms a)
unfolding set_order_status accept_order use_revision
terms_rule a = record {
  move = λ o to now allowed h. h;
  revise = λ o now left h. h;
  overdue = λ o now at h. h;
  place = λ o now new h. absurd h;
}

-- No request and no job removes an order, or changes its parties, its gig, its requirements, the
-- revisions sold with it or its amounts.
pub serve_all-terms :
    (i : ℕ) (ts : List Turn) (db : Db) (o : Order)
    → order_at i db ≡ some o
    → HasTerms o (order_at i (serve_all ts db))
serve_all-terms i ts db o at =
    serve_all-Keeps (order_rules (terms_rule o) i) (λ d now faults q. q) ts db
      (rw at (refl, refl, refl, refl, refl, refl, refl, refl, refl))

-- The times of an order's milestones.
abbrev pub SameTimes : Order → Order → Type 0
SameTimes a b =
    (a.paid_at ≡ b.paid_at)
    × (a.delivered_at ≡ b.delivered_at)
    × (a.accepted_at ≡ b.accepted_at)
    × (a.cancelled_at ≡ b.cancelled_at)
    × (a.closed_at ≡ b.closed_at)

-- The time of the milestone that the status is, if it is one.
abbrev pub IsTimed : OrderStatus → Order → ℕ → Type 0
IsTimed paid o now = o.paid_at ≡ some now
IsTimed delivered o now = o.delivered_at ≡ some now
IsTimed accepted o now = o.accepted_at ≡ some now
IsTimed cancelled o now = o.cancelled_at ≡ some now
IsTimed closed o now = o.closed_at ≡ some now
IsTimed _ o now = Unit

-- The order stands in the status that it had, with the same times.
abbrev pub IsUnmoved : Option Order → Order → Type 0
IsUnmoved none o = ⊥
IsUnmoved (some p) o = (o.status ≡ p.status) × SameTimes o p

-- From the row before a turn, at its time.
abbrev Stamps : Option Order → ℕ → ℕ → Option Order → Type 0
Stamps before start now none = now ≡ start
Stamps before start now (some o) = (now ≡ start) × (IsUnmoved before o ⊎ IsTimed o.status o start)

IsTimed-move : (to : OrderStatus) (now : ℕ) (o : Order) → IsTimed to (set_order_status to now o) now
unfolding set_order_status
IsTimed-move paid now o = refl
IsTimed-move delivered now o = refl
IsTimed-move accepted now o = refl
IsTimed-move cancelled now o = refl
IsTimed-move closed now o = refl
IsTimed-move _ now o = tt

IsTimed-revision :
    (s : OrderStatus) (start now : ℕ) (o : Order)
    → IsTimed s o start
    → IsTimed s (use_revision now o) start
unfolding use_revision
IsTimed-revision paid start now o h = h
IsTimed-revision _ start now o h = h

IsUnmoved-revision :
    (before : Option Order) (now : ℕ) (o : Order)
    → IsUnmoved before o
    → IsUnmoved before (use_revision now o)
unfolding use_revision
IsUnmoved-revision none now o h = elim h [ ]
IsUnmoved-revision (some p) now o h = h

revised :
    (before : Option Order) (start now : ℕ) (o : Order)
    → IsUnmoved before o ⊎ IsTimed o.status o start
    → IsUnmoved before (use_revision now o)
      ⊎ IsTimed (use_revision now o).status (use_revision now o) start
unfolding use_revision
revised before start now o (inl h) = inl (IsUnmoved-revision before now o h)
revised before start now o (inr h) = inr (IsTimed-revision o.status start now o h)

Stamps-rule : (before : Option Order) (start : ℕ) → OrderRule (Stamps before start)
unfolding set_order_status accept_order use_revision
Stamps-rule before start = record {
  move = λ o to now allowed h. (h.0, inr (rw⁻¹ h.0 (IsTimed-move to now o)));
  revise = λ o now left h. (h.0, revised before start now o h.1);
  overdue = λ o now at h. (h.0, inr (ap some h.0));
  place = λ o now new h. (h, inr (rw new.0 tt));
}

Stamps-first : (before : Option Order) (now : ℕ) → Stamps before now now before
Stamps-first none now = refl
Stamps-first (some p) now = (refl, inl (refl, (refl, refl, refl, refl, refl)))

stamped :
    (before r : Option Order) (start now : ℕ) (o : Order)
    → r ≡ some o
    → Stamps before start now r
    → IsUnmoved before o ⊎ IsTimed o.status o start
stamped before r start now o e h = (rw e at h).1

-- What a request or a job at some time does to an order, under any faults of the database: the order
-- keeps its status with the times of all its milestones, or, if the status that it has then is paid,
-- delivered, accepted, cancelled or closed, the time of that milestone is the time of the request, also
-- where the order had an earlier one (a second delivery). So it is for an order that it creates.
pub serve-stamped :
    (i : ℕ) (t : Turn) (db : Db) (o : Order)
    → order_at i (serve t db) ≡ some o
    → IsUnmoved (order_at i db) o ⊎ IsTimed o.status o t.now
serve-stamped i t db o at =
    stamped (order_at i db) (order_at i (serve t db)) t.now (serve t db).now o at (
      serve-Keeps (order_rules (Stamps-rule (order_at i db) t.now) i) t db
        (Stamps-first (order_at i db) t.now))
