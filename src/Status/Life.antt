-- ===== src/Status/Life.antt =====
-- What the transition tables allow, as relations: every edge, every life of an order, and the rank
-- that a payment intent climbs.
use gig.Base.{ℕ, ◌≤◌, ◌<◌, ◌≡◌, ◌↔◌, ◌⊎◌, inl, refl, true, Option, none, some, arith}
use gig.Status.{
  OrderStatus, pending_payment, payment_failed, paid, in_progress, delivered, revision_requested,
  accepted, disputed, cancel_requested, cancelled, payout_pending, paid_out, closed,
  can_transition_order, PaymentStatus, pending, processing, can_transition_payment,
}

-- The diagram of the order life cycle, one constructor for each arrow.
infix 40 ◌⟶◌
pub data ◌⟶◌ : OrderStatus → OrderStatus → Type 0 where
  pay : pending_payment ⟶ paid
  decline_payment : pending_payment ⟶ payment_failed
  retry_payment : payment_failed ⟶ pending_payment
  start : paid ⟶ in_progress
  deliver : in_progress ⟶ delivered
  ask_to_cancel : in_progress ⟶ cancel_requested
  dispute_work : in_progress ⟶ disputed
  revise : delivered ⟶ revision_requested
  accept : delivered ⟶ accepted
  dispute_delivery : delivered ⟶ disputed
  deliver_again : revision_requested ⟶ delivered
  dispute_revision : revision_requested ⟶ disputed
  close : accepted ⟶ closed
  dispute_accepted : accepted ⟶ disputed
  cancel : cancel_requested ⟶ cancelled
  keep_going : cancel_requested ⟶ in_progress
  resume : disputed ⟶ in_progress
  settle : disputed ⟶ closed
  void : disputed ⟶ cancelled
  finish_payout : payout_pending ⟶ paid_out

ruleset arrows = (
  pay, decline_payment, retry_payment, start, deliver, ask_to_cancel, dispute_work, revise, accept,
  dispute_delivery, deliver_again, dispute_revision, close, dispute_accepted, cancel, keep_going,
  resume, settle, void, finish_payout,
)

arrow_sound : (a b : OrderStatus) → can_transition_order a b ≡ true → a ⟶ b
unfolding can_transition_order
arrow_sound pending_payment b h = grind (arith, arrows)
arrow_sound _ b h = grind (arith, arrows)

arrow_complete : {a b : OrderStatus} → a ⟶ b → can_transition_order a b ≡ true
unfolding can_transition_order
arrow_complete pay = refl
arrow_complete _ = refl

-- `CanTransitionOrder` answers true for the arrows of the diagram and for no other pair.
pub can_transition_order_iff : (a b : OrderStatus) → (can_transition_order a b ≡ true) ↔ (a ⟶ b)
can_transition_order_iff a b = (arrow_sound a b, arrow_complete)

-- The life of one order row: absent until it is placed, then along the arrows of the diagram.
pub data Life (s : Option OrderStatus) : Option OrderStatus → Type 0 where
  stay : Life s s
  placed : Life s none → Life s (some pending_payment)
  moved : {a b : OrderStatus} → Life s (some a) → a ⟶ b → Life s (some b)

pub Life-trans : {s t u : Option OrderStatus} → Life s t → Life t u → Life s u
Life-trans p stay = p
Life-trans p (placed q) = placed (Life-trans p q)
Life-trans p (moved q e) = moved (Life-trans p q) e

-- No arrow leaves `closed` or `cancelled`.
abbrev pub IsFinal : OrderStatus → Type 0
IsFinal s = (s ≡ closed) ⊎ (s ≡ cancelled)

no_arrow : {a b : OrderStatus} → IsFinal a → a ⟶ b → ⊥
no_arrow h pay = ground arith
no_arrow h _ = ground arith

-- A closed or cancelled order stays so for the rest of its life.
pub final_stays :
    (a : OrderStatus) {t : Option OrderStatus} → IsFinal a → Life (some a) t → t ≡ some a
final_stays a h stay = refl
final_stays a h (placed q) = absurd (cc (final_stays a h q))
final_stays a h (moved {a = b} q e) =
    let same = final_stays a h q in let same' : b ≡ a = cc in absurd (no_arrow (rw same' h) e)

-- The statuses of real payouts, which nothing reaches.
abbrev pub IsPayout : OrderStatus → Type 0
IsPayout s = (s ≡ payout_pending) ⊎ (s ≡ paid_out)

abbrev NotPayout : Option OrderStatus → Type 0
NotPayout none = Unit
NotPayout (some s) = ¬ IsPayout s

arrow_keeps : {a b : OrderStatus} → a ⟶ b → ¬ IsPayout a → ¬ IsPayout b
arrow_keeps pay h p = ground arith
arrow_keeps finish_payout h p = absurd (h (inl refl))
arrow_keeps _ h p = ground arith

Life-NotPayout : {s t : Option OrderStatus} → NotPayout s → Life s t → NotPayout t
Life-NotPayout h stay = h
Life-NotPayout h (placed q) = λ p. ground arith
Life-NotPayout h (moved q e) = arrow_keeps e (Life-NotPayout h q)

-- An order that is placed never comes to a payout status, as long as it lives by the table.
pub IsPayout-unreached : {s : OrderStatus} → Life none (some s) → ¬ IsPayout s
IsPayout-unreached q = Life-NotPayout tt q

-- How far a payment intent has come.
abbrev pub rank : PaymentStatus → ℕ
rank pending = 0
rank processing = 1
rank _ = 2

-- Every allowed change of a payment intent takes it strictly further, so an intent changes at most
-- twice, and one that has succeeded, failed, expired or been canceled never changes again.
pub can_transition_payment-rank :
    (a b : PaymentStatus) → can_transition_payment a b ≡ true → (rank a < rank b) × (rank b ≤ 2)
unfolding can_transition_payment
can_transition_payment-rank pending b h = ground arith
can_transition_payment-rank _ b h = ground arith
