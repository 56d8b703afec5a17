-- ===== src/Lifecycle/Payouts.antt =====
-- What the administrators' requests on payouts keep of each payout.
use gig.Base.{
  ℕ, Bool, true, Option, none, some, List, [], ◌∷◌, find, if◌then◌else◌, Bool-cases, and_split, ◌≡◌,
  refl, inl, inr, arith,
}
use mathlib.Core.Path.{subst}
use gig.Base.{String}
use gig.Base.Text.{Bytes}
use gig.Db.{Db, Payout, PayoutStatus, payout_needs_manual_review, payout_ready, payout_completed}
use gig.Db.Keeps.{Keeps, Keeps-statement, keeps_rules}
use gig.Db.Table.{find-update_where, map_option}
use gig.Store.Orders.{write_audit}
use gig.Store.Payouts.{
  has_payout_id, is_payout_status, is_payout_in, move_payout, get_payout, transition_payout,
  set_payouts_paused,
}
use gig.Handlers.Response.{Response, audit}
use gig.Handlers.Access.{path_id}
use gig.Handlers.Orders.{form_or}
use gig.Handlers.Payouts.{admin_payouts_pause, admin_payout_approve, admin_payout_complete}

-- The moves of a payout's status: review, then execution by hand.
pub data PayoutLife : PayoutStatus → PayoutStatus → Type 0 where
  stays : (s : PayoutStatus) → PayoutLife s s
  reviewed : PayoutLife payout_needs_manual_review payout_ready
  executed : PayoutLife payout_ready payout_completed
  reviewed_and_executed : PayoutLife payout_needs_manual_review payout_completed

life_trans : (a b c : PayoutStatus) → PayoutLife a b → PayoutLife b c → PayoutLife a c
life_trans a b c (stays s) q = q
life_trans a b c reviewed (stays s) = reviewed
life_trans a b c reviewed executed = reviewed_and_executed
life_trans a b c executed (stays s) = executed
life_trans a b c reviewed_and_executed (stays s) = reviewed_and_executed

-- The same seller, wallet, amount and currency, and a status that moved along the life.
abbrev pub IsLater : Payout → Payout → Type 0
IsLater p q =
    (q.seller_id ≡ p.seller_id)
    × (q.wallet_id ≡ p.wallet_id)
    × (q.amount_minor ≡ p.amount_minor)
    × (q.currency ≡ p.currency)
    × PayoutLife p.status q.status

-- A payout that was there is there, later.
abbrev pub KeepsPayout : Option Payout → Option Payout → Type 0
KeepsPayout none o = Unit
KeepsPayout (some p) none = ⊥
KeepsPayout (some p) (some q) = IsLater p q

abbrev pub payout_at : ℕ → Db → Option Payout
payout_at i db = find (has_payout_id i) db.payouts

status_same : (s t : PayoutStatus) → is_payout_status s t ≡ true → s ≡ t
status_same s t e = ground arith

moved :
    (k now : ℕ) (from to : PayoutStatus) (reviewer : Option ℕ) (hash : Bytes) (o : Option Payout)
    (p : Option Payout)
    → PayoutLife from to
    → KeepsPayout o p
    → KeepsPayout o (
        map_option (λ x. if is_payout_in k from x then move_payout now to reviewer hash x else x) p)
unfolding move_payout
moved k now from to reviewer hash none p life h = tt
moved k now from to reviewer hash (some a) none life h = h
moved k now from to reviewer hash (some a) (some x) life
      (seller, wallet, amount, currency, so_far) =
    elim (Bool-cases (is_payout_in k from x)) [
      | inl e ↦
          let same : from ≡ x.status =
            status_same from x.status (and_split (has_payout_id k x) _ e).1 in
          rw e (
            seller,
            wallet,
            amount,
            currency,
            life_trans a.status x.status to so_far (subst (λ s. PayoutLife s to) same life),
          )
      | inr e ↦ rw e (seller, wallet, amount, currency, so_far)
    ]

module _ (i : ℕ) (o : Option Payout) where
  Holds : Db → Type 0
  Holds db = KeepsPayout o (payout_at i db)

  transition_payout-Keeps :
      (k : ℕ) (from to : PayoutStatus) (reviewer : Option ℕ) (hash : Bytes)
      → PayoutLife from to
      → Keeps Holds (transition_payout k from to reviewer hash)
  unfolding transition_payout Holds move_payout
  transition_payout-Keeps k from to reviewer hash life =
      Keeps-statement _ (λ d rest h. h)
        (record {
          at = λ db h.
              rw
                (find-update_where (has_payout_id i) (is_payout_in k from)
                  (move_payout db.now to reviewer hash) db.payouts (λ x. refl))
                (moved k db.now from to reviewer hash o (payout_at i db) life h);
        })

  set_payouts_paused-Keeps : (paused : Bool) → Keeps Holds (set_payouts_paused paused)
  unfolding set_payouts_paused Holds
  set_payouts_paused-Keeps paused = Keeps-statement _ (λ d rest h. h) (record { at = λ db h. h })

  get_payout-Keeps : (k : ℕ) → Keeps Holds (get_payout k)
  unfolding get_payout Holds
  get_payout-Keeps k = Keeps-statement _ (λ d rest h. h) (record { at = λ db h. h })

  write_audit-Keeps :
      (actor : Option ℕ) (action : String) (target : ℕ)
      → Keeps Holds (write_audit actor action target)
  unfolding write_audit Holds
  write_audit-Keeps actor action target =
      Keeps-statement _ (λ d rest h. h) (record { at = λ db h. h })

  audit-Keeps :
      {E : Type 0} (actor : Option ℕ) (action : String) (target : ℕ)
      → Keeps {E = E} Holds (audit actor action target)
  unfolding audit
  audit-Keeps actor action target = search (keeps_rules, write_audit-Keeps)

  path_id-Keeps : (path : Option ℕ) → Keeps Holds (path_id path)
  path_id-Keeps none = search keeps_rules
  path_id-Keeps (some k) = search keeps_rules

  form_or-Keeps : {A : Type 0} (form : Option A) (r : Response) → Keeps Holds (form_or form r)
  form_or-Keeps none r = search keeps_rules
  form_or-Keeps (some a) r = search keeps_rules

  admin_payouts_pause-Keeps :
      (admin : ℕ) (form : Option Bool) → Keeps Holds (admin_payouts_pause admin form)
  unfolding admin_payouts_pause
  admin_payouts_pause-Keeps admin form =
      search (keeps_rules, set_payouts_paused-Keeps, audit-Keeps, form_or-Keeps)

  admin_payout_approve-Keeps :
      (admin : ℕ) (path : Option ℕ) → Keeps Holds (admin_payout_approve admin path)
  unfolding admin_payout_approve
  admin_payout_approve-Keeps admin path =
      search
        (
          keeps_rules, transition_payout-Keeps, get_payout-Keeps, audit-Keeps, path_id-Keeps,
          reviewed,
        )
        depth 30

  admin_payout_complete-Keeps :
      (admin : ℕ) (path : Option ℕ) (form : Option Bytes)
      → Keeps Holds (admin_payout_complete admin path form)
  unfolding admin_payout_complete
  admin_payout_complete-Keeps admin path form =
      search
        (keeps_rules, transition_payout-Keeps, audit-Keeps, path_id-Keeps, form_or-Keeps, executed)
        depth 30

-- A request of an administrator on the payouts.
pub data PayoutRequest : Type 0 where
  pause : ℕ → Option Bool → PayoutRequest
  approve : ℕ → Option ℕ → PayoutRequest
  complete : ℕ → Option ℕ → Option Bytes → PayoutRequest

unfoldable pub run_payout : PayoutRequest → Db → Db
run_payout (pause admin form) db = (admin_payouts_pause admin form db).1
run_payout (approve admin path) db = (admin_payout_approve admin path db).1
run_payout (complete admin path form) db = (admin_payout_complete admin path form db).1

run_payout-Keeps :
    (i : ℕ) (o : Option Payout) (r : PayoutRequest) (db : Db)
    → KeepsPayout o (payout_at i db)
    → KeepsPayout o (payout_at i (run_payout r db))
unfolding run_payout Holds
run_payout-Keeps i o (pause admin form) db h = (admin_payouts_pause-Keeps i o admin form).at db h
run_payout-Keeps i o (approve admin path) db h = (admin_payout_approve-Keeps i o admin path).at db h
run_payout-Keeps i o (complete admin path form) db h =
    (admin_payout_complete-Keeps i o admin path form).at db h

-- Each with its time and the faults that its calls meet.
unfoldable pub run_payouts : List (ℕ × List Bool × PayoutRequest) → Db → Db
unfolding run_payout
run_payouts [] db = db
run_payouts ((now, faults, r) ∷ rest) db =
    run_payouts rest (run_payout r (record db { now = now; faults = faults }))

run_payouts-Keeps :
    (i : ℕ) (o : Option Payout) (requests : List (ℕ × List Bool × PayoutRequest)) (db : Db)
    → KeepsPayout o (payout_at i db)
    → KeepsPayout o (payout_at i (run_payouts requests db))
unfolding run_payouts
run_payouts-Keeps i o [] db h = h
run_payouts-Keeps i o ((now, faults, r) ∷ rest) db h =
    run_payouts-Keeps i o rest _
      (run_payout-Keeps i o r (record db { now = now; faults = faults }) h)

KeepsPayout-refl : (o : Option Payout) → KeepsPayout o o
KeepsPayout-refl none = tt
KeepsPayout-refl (some p) = (refl, refl, refl, refl, stays p.status)

-- Whatever administrators request of the payouts, at any times and under any faults of the database: a
-- payout stays in the table with its seller, wallet, amount and currency, and its status moves only
-- from manual review to ready and from ready to completed, so that a queued payout stays queued.
pub run_payouts-KeepsPayout :
    (i : ℕ) (requests : List (ℕ × List Bool × PayoutRequest)) (db : Db)
    → KeepsPayout (payout_at i db) (payout_at i (run_payouts requests db))
run_payouts-KeepsPayout i requests db =
    run_payouts-Keeps i (payout_at i db) requests db (KeepsPayout-refl (payout_at i db))
