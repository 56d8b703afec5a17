-- ===== src/Lifecycle/Rule.antt =====
-- The rules that a property of one order's row may obey, and the effects that then keep it.
use gig.Base.{
  ℕ, ◌≡◌, ◌<◌, refl, ap, sym, ◌∙◌, arith, leb, ◌==◌, ==_iff, and_split, true, false, Bool, Option,
  none, some, List, [], ◌∷◌, ◌++◌, find, update_where, if◌then◌else◌,
}
use gig.Status.{OrderStatus, delivered, order_eq→≡, can_transition_order}
use gig.Db.{Db, Order, LedgerAccount}
use gig.Db.Table.{map_option, or_else, find-update_where, find-append, find-passes}
use gig.Store.Orders.{has_id, set_order_status, accept_order, is_at, is_overdue, before}
use gig.Store.Ledger.{post_entries, post_entry, add_account}
use gig.Ledger.{Entry, AccountKind}
use gig.Base.Text.{Bytes}
use gig.Lifecycle.Effects.{CallRules, IsNew}
use gig.Store.Fulfillment.{use_revision}

-- `J` holds of a row through the table's transitions, through a revision that is still left, through
-- the automatic acceptance of a delivery, and of a new row, all at one time.
pub record OrderRule (J : ℕ → Option Order → Type 0) : Type 0 where
  pub move :
      (o : Order) (to : OrderStatus) (now : ℕ)
      → can_transition_order o.status to ≡ true
      → J now (some o)
      → J now (some (set_order_status to now o))
  pub revise :
      (o : Order) (now : ℕ)
      → o.revisions_used < o.revisions_allowed
      → J now (some o)
      → J now (some (use_revision now o))
  pub overdue :
      (o : Order) (now : ℕ)
      → o.status ≡ delivered
      → J now (some o)
      → J now (some (accept_order now o))
  pub place : (o : Order) (now : ℕ) → IsNew o → J now none → J now (some o)

-- `J` of the time and of the row that a read of the order `i` finds.
abbrev pub Holds : (ℕ → Option Order → Type 0) → ℕ → Db → Type 0
Holds J i db = J db.now (find (has_id i) db.orders)

-- The orders and the time.
abbrev rows_and_time : Db → List Order × ℕ
rows_and_time db = (db.orders, db.now)

add_account-same :
    (kind : AccountKind) (owner : Option ℕ) (currency : Bytes) (a : Option LedgerAccount) (db : Db)
    → rows_and_time (add_account kind owner currency a db).1 ≡ rows_and_time db
add_account-same kind owner currency none db = refl
add_account-same kind owner currency (some a) db = refl

post_entry-same :
    (group : ℕ) (e : Entry) (db : Db) → rows_and_time (post_entry group e db) ≡ rows_and_time db
unfolding post_entry
post_entry-same group e db = add_account-same _ _ _ _ db

post_entries-same :
    (group : ℕ) (es : List Entry) (db : Db)
    → rows_and_time (post_entries group es db) ≡ rows_and_time db
unfolding post_entries
post_entries-same group [] db = refl
post_entries-same group (e ∷ es) db =
    post_entries-same group es (post_entry group e db) ∙ post_entry-same group e db

abbrev limit_reached : Option Order → Bool
limit_reached none = true
limit_reached (some o) = leb o.revisions_allowed o.revisions_used

module _ {J : ℕ → Option Order → Type 0} (rule : OrderRule J) (i : ℕ) where
  if_hit :
      {now : ℕ} (b : Bool) (o p : Order)
      → (b ≡ true → J now (some p))
      → J now (some o)
      → J now (some (if b then p else o))
  if_hit true o p k h = k refl
  if_hit false o p k h = h

  mapped :
      {now : ℕ} (hit : Order → Bool) (f : Order → Order) (r : Option Order)
      → ((o : Order) → r ≡ some o → hit o ≡ true → J now (some o) → J now (some (f o)))
      → J now r
      → J now (map_option (λ x. if hit x then f x else x) r)
  mapped hit f none keep h = h
  mapped hit f (some o) keep h = if_hit (hit o) o (f o) (λ e. keep o refl e h) h

  -- Rows that an UPDATE hits, when each row it may hit and that is read keeps `J`.
  pub updated :
      {now : ℕ} (hit : Order → Bool) (f : Order → Order) (rows : List Order)
      → ((o : Order) → has_id i (f o) ≡ has_id i o)
      → ((o : Order)
          → find (has_id i) rows ≡ some o
          → hit o ≡ true
          → J now (some o)
          → J now (some (f o)))
      → J now (find (has_id i) rows)
      → J now (find (has_id i) (update_where hit f rows))
  updated hit f rows same keep h =
      rw (find-update_where (has_id i) hit f rows same) (mapped hit f (find (has_id i) rows) keep h)

  placed_row :
      {now : ℕ} (b : Bool) (o : Order) (r : Option Order)
      → IsNew o
      → J now r
      → J now (or_else r (if b then some o else none))
  placed_row true o none new h = rule.place o _ new h
  placed_row false o none new h = h
  placed_row b o (some p) new h = h

  pub inserted :
      {now : ℕ} (o : Order) (rows : List Order)
      → IsNew o
      → J now (find (has_id i) rows)
      → J now (find (has_id i) (rows ++ o ∷ []))
  inserted o rows new h =
      rw (find-append (has_id i) rows (o ∷ []))
        (placed_row (has_id i o) o (find (has_id i) rows) new h)

  at_from :
      (k : ℕ) (from to : OrderStatus) (o : Order)
      → can_transition_order from to ≡ true
      → is_at k from o ≡ true
      → can_transition_order o.status to ≡ true
  at_from k from to o allowed hit =
      rw (order_eq→≡ o.status from (and_split (o.id == k) _ hit).1) allowed

  row_left_of :
      (o p : Order)
      → some o ≡ some p
      → leb o.revisions_allowed o.revisions_used ≡ false
      → p.revisions_used < p.revisions_allowed
  row_left_of o p one left =
      let same = ap limit_reached one in
      let open_still : leb p.revisions_allowed p.revisions_used ≡ false = sym same ∙ left in
      ground arith

  -- The row that is read is the one that the call checked, if the call changes it.
  row_left :
      (k : ℕ) (o p : Order) (rows : List Order)
      → find (has_id k) rows ≡ some o
      → find (has_id i) rows ≡ some p
      → has_id k p ≡ true
      → leb o.revisions_allowed o.revisions_used ≡ false
      → p.revisions_used < p.revisions_allowed
  row_left k o p rows e found hit left =
      let read = find-passes (has_id i) rows p found in
      let same : i ≡ k = omega (arith, (==_iff p.id i).0 read, (==_iff p.id k).0 hit) in
      let one : some o ≡ some p = cc in row_left_of o p one left

  revised :
      (db : Db) (k : ℕ) (o : Order)
      → find (has_id k) db.orders ≡ some o
      → leb o.revisions_allowed o.revisions_used ≡ false
      → Holds J i db
      → Holds J i (record db { orders = update_where (has_id k) (use_revision db.now) db.orders })
  unfolding use_revision
  revised db k o e left h =
      updated (has_id k) (use_revision db.now) db.orders (λ p. refl)
        (λ p found hit j. rule.revise p db.now (row_left k o p db.orders e found hit left) j) h

  moved_on :
      (db : Db) (k : ℕ) (from to : OrderStatus)
      → can_transition_order from to ≡ true
      → Holds J i db
      → Holds J i (record db {
        orders = update_where (is_at k from) (set_order_status to db.now) db.orders;
      })
  unfolding set_order_status
  moved_on db k from to allowed h =
      updated (is_at k from) (set_order_status to db.now) db.orders (λ o. refl)
        (λ o found hit j. rule.move o to db.now (at_from k from to o allowed hit) j) h

  accepted_late :
      (db : Db) (cutoff : ℕ)
      → Holds J i db
      → Holds J i
          (record db { orders = update_where (is_overdue cutoff) (accept_order db.now) db.orders })
  unfolding accept_order
  accepted_late db cutoff h =
      updated (is_overdue cutoff) (accept_order db.now) db.orders (λ o. refl)
        (λ o found hit j.
          rule.overdue o db.now
            (order_eq→≡ o.status delivered (and_split _ (before o.delivered_at cutoff) hit).0) j)
        h

  -- A rule on rows is kept by the effects of the calls.
  pub order_rules : CallRules (Holds J i)
  order_rules = record {
    same = λ d e eq h.
        let rows : e.orders ≡ d.orders = ap (λ p. p.0) eq in
        let time : e.now ≡ d.now = ap (λ p. p.2) eq in rw (rows, time) h;
    move = moved_on;
    revise = revised;
    overdue = accepted_late;
    place = λ d o new h. inserted o d.orders new h;
    post = λ d group es valid h.
        let both = post_entries-same group es d in
        let rows : (post_entries group es d).orders ≡ d.orders = ap (λ p. p.0) both in
        let time : (post_entries group es d).now ≡ d.now = ap (λ p. p.1) both in rw (rows, time) h;
  }
