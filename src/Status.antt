-- ===== src/Status.antt =====
-- services/orders.go and services/payments.go: the life cycles of an order and of a payment intent
-- as transition tables, the check that consults them, and the totals of a checkout.
pub mod Life
pub mod Totals
mod Tests
use gig.Base.{ℕ, ◌≡◌, ◌*◌, ◌/◌, Bool, true, false, List, [], ◌∷◌, arith, ◌==◌, if◌then◌else◌}
use gig.Base.Int.{ℤ, pos, negsuc, ◌+ℤ◌, wrap64}

pub data OrderStatus : Type 0 where
  pending_payment payment_failed paid in_progress delivered revision_requested : OrderStatus
  accepted disputed cancel_requested cancelled payout_pending paid_out closed : OrderStatus

-- The number of a status: two statuses are one when their numbers are.
abbrev pub order_code : OrderStatus → ℕ
order_code pending_payment = 0
order_code payment_failed = 1
order_code paid = 2
order_code in_progress = 3
order_code delivered = 4
order_code revision_requested = 5
order_code accepted = 6
order_code disputed = 7
order_code cancel_requested = 8
order_code cancelled = 9
order_code payout_pending = 10
order_code paid_out = 11
order_code closed = 12

-- `==` on two statuses.
abbrev pub order_eq : OrderStatus → OrderStatus → Bool
order_eq a b = order_code a == order_code b

pub order_eq→≡ : (a b : OrderStatus) → order_eq a b ≡ true → a ≡ b
order_eq→≡ pending_payment b h = ground arith
order_eq→≡ _ b h = ground arith

unfoldable pub order_transitions : OrderStatus → List OrderStatus
order_transitions pending_payment = paid ∷ payment_failed ∷ []
order_transitions payment_failed = pending_payment ∷ []
order_transitions paid = in_progress ∷ []
order_transitions in_progress = delivered ∷ cancel_requested ∷ disputed ∷ []
order_transitions delivered = revision_requested ∷ accepted ∷ disputed ∷ []
order_transitions revision_requested = delivered ∷ disputed ∷ []
order_transitions accepted = closed ∷ disputed ∷ []
order_transitions cancel_requested = cancelled ∷ in_progress ∷ []
order_transitions disputed = in_progress ∷ closed ∷ cancelled ∷ []
order_transitions cancelled = []
order_transitions closed = []
order_transitions payout_pending = paid_out ∷ []
order_transitions paid_out = []

-- `for _, allowed := range ... { if allowed == to { return true } }`
abbrev pub order_allows : List OrderStatus → OrderStatus → Bool
order_allows [] to = false
order_allows (allowed ∷ rest) to = if order_eq allowed to then true else order_allows rest to

unfoldable pub can_transition_order : OrderStatus → OrderStatus → Bool
unfolding order_transitions
can_transition_order from to = order_allows (order_transitions from) to

pub data PaymentStatus : Type 0 where
  pending processing succeeded failed canceled expired : PaymentStatus

abbrev pub payment_code : PaymentStatus → ℕ
payment_code pending = 0
payment_code processing = 1
payment_code succeeded = 2
payment_code failed = 3
payment_code canceled = 4
payment_code expired = 5

abbrev pub payment_eq : PaymentStatus → PaymentStatus → Bool
payment_eq a b = payment_code a == payment_code b

unfoldable pub payment_transitions : PaymentStatus → List PaymentStatus
payment_transitions pending = processing ∷ succeeded ∷ failed ∷ canceled ∷ expired ∷ []
payment_transitions processing = succeeded ∷ failed ∷ []
payment_transitions succeeded = []
payment_transitions failed = []
payment_transitions canceled = []
payment_transitions expired = []

abbrev pub payment_allows : List PaymentStatus → PaymentStatus → Bool
payment_allows [] to = false
payment_allows (allowed ∷ rest) to = if payment_eq allowed to then true else payment_allows rest to

unfoldable pub can_transition_payment : PaymentStatus → PaymentStatus → Bool
unfolding payment_transitions
can_transition_payment from to =
    if payment_eq from to then false else payment_allows (payment_transitions from) to
