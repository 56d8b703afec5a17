-- ===== src/Worker/Gap.antt =====
-- capturePaymentForOrder of payments.go when posting the capture fails after the order has moved.
use gig.Base.{
  ℕ, ◌≡◌, refl, ap, ◌∙◌, inl, inr, Bool, true, false, some, List, [], ◌∷◌, arith, ◌==◌, ==_refl,
  find, update_where, count_where, Bool-cases,
}
use gig.Base.Result.{Result, ok, err}
use gig.Status.{pending_payment, paid, order_eq}
use gig.Ledger.{Entry, LedgerError}
use gig.Db.{Db, Order, PaymentIntent, ◌>>=◌}
use gig.Db.Table.{find-update_where}
use gig.Store.Orders.{has_id, is_at, get_order, transition_order, set_order_status}
use gig.Store.Ledger.{post_ledger_entries}
use gig.Worker.{WorkerError}
use gig.Worker.Payments.{built_or_fail, or_fail, post_capture, capture_payment_for_order, Worker}

found_counts :
    (p q : Order → Bool) (rows : List Order) (o : Order)
    → find p rows ≡ some o
    → q o ≡ true
    → (count_where q rows == 0) ≡ false
found_counts p q [] o h k = grind arith
found_counts p q (x ∷ rows) o h k = elim (Bool-cases (q x)) [
  | inl hit ↦ rw hit (ground arith)
  | inr missed ↦ elim (Bool-cases (p x)) [
    | inl found ↦ let e : some x ≡ some o = rw found at h in absurd (grind arith)
    | inr passed ↦ rw missed (found_counts p q rows o (rw passed at h) k)
  ]
]

-- The call that fails: the read and the transition answer, the posting does not.
abbrev pub third_fails : Db → Db
third_fails db = record db { faults = false ∷ false ∷ true ∷ [] }

built_fails :
    (r : Result LedgerError (List Entry)) (f : ℕ → Worker (Unit {0})) (db : Db)
    → (e : WorkerError) × (rest : List Bool) × ((built_or_fail r >>= λ es.
            or_fail (post_ledger_entries es) "post capture ledger entries" >>= f)
          (record db { faults = true ∷ [] })
        ≡ (err e, record db { faults = rest }))
unfolding ◌>>=◌ post_ledger_entries
built_fails (ok es) f db = (_, [], refl)
built_fails (err x) f db = (_, true ∷ [], refl)

post_capture_fails :
    (o : Order) (db : Db)
    → (e : WorkerError) × (rest : List Bool) × (post_capture o (record db { faults = true ∷ [] })
        ≡ (err e, record db { faults = rest }))
unfolding post_capture
post_capture_fails o db = built_fails _ _ db

-- The order has moved to paid, and nothing else.
abbrev moved : Order → Db → Db
moved o db = record db {
  orders = update_where (is_at o.id pending_payment) (set_order_status paid db.now) db.orders;
}

module _ (intent : PaymentIntent) (db : Db) (o : Order)
    (found : find (has_id intent.order_id) db.orders ≡ some o)
    (waiting : order_eq o.status pending_payment ≡ true) where
  hit : is_at o.id pending_payment o ≡ true
  hit = rw (==_refl o.id, waiting) refl

  capture_fails :
      (e : WorkerError) × (rest : List Bool) × (capture_payment_for_order intent (third_fails db)
        ≡ (err e, record (moved o db) { faults = rest }))
  unfolding capture_payment_for_order ◌>>=◌ get_order transition_order
  capture_fails =
      let (e, rest, run) = post_capture_fails o (moved o db) in
      let counted =
        found_counts (has_id intent.order_id) (is_at o.id pending_payment) db.orders o found hit in
      (e, rest, rw (found, waiting, counted, run) refl)

  now_paid :
      find (has_id intent.order_id) (moved o db).orders ≡ some (set_order_status paid db.now o)
  unfolding set_order_status
  now_paid =
      rw
        (
          find-update_where (has_id intent.order_id) (is_at o.id pending_payment)
              (set_order_status paid db.now) db.orders (λ x. refl),
          found,
          hit,
        )
        refl

  retry_skips :
      capture_payment_for_order intent (record (moved o db) { faults = [] })
      ≡ (ok tt, record (moved o db) { faults = [] })
  unfolding capture_payment_for_order ◌>>=◌ get_order set_order_status
  retry_skips = rw now_paid refl

-- For an order that waits for its payment, when the read and the move to paid succeed and the third
-- call of the database fails, capturePaymentForOrder returns an error, the order is paid and nothing
-- is posted; capturing again without faults then returns no error and changes nothing.
pub capture_payment_for_order_gap :
    (intent : PaymentIntent) (db : Db) (o : Order)
    → find (has_id intent.order_id) db.orders ≡ some o
    → order_eq o.status pending_payment ≡ true
    → let first = capture_payment_for_order intent (third_fails db) in
      let after = record first.1 { faults = [] } in
      ((e : WorkerError) × (first.0 ≡ err e))
      × (after.ledger_entries ≡ db.ledger_entries)
      × (find (has_id intent.order_id) after.orders ≡ some (set_order_status paid db.now o))
      × (capture_payment_for_order intent after ≡ (ok tt, after))
capture_payment_for_order_gap intent db o found waiting =
    let (e, rest, run) = capture_fails intent db o found waiting in
    (
      (e, ap (λ x. x.0) run),
      ap (λ x. x.1.ledger_entries) run,
      ap (λ x. find (has_id intent.order_id) x.1.orders) run ∙ now_paid intent db o found waiting,
      rw run (retry_skips intent db o found waiting),
    )
