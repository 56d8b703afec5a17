-- ===== src/Status/Tests.antt =====
-- The theorems on the life cycles and the totals at concrete statuses and prices.
use gig.Base.{◌≡◌, ◌≤◌, ◌<◌, ◌+◌, ◌*◌, ◌/◌, ◌↔◌, refl, true, [], ◌∷◌, map, arith}
use gig.Base.Int.{pos}
use gig.Status.{
  delivered, accepted, pending, processing, can_transition_order, can_transition_payment,
}
use gig.Status.Life.{◌⟶◌, can_transition_order_iff, rank, can_transition_payment-rank}
use gig.Status.Totals.{calculate_order_totals, calculate_order_totals_exact, sum}

can_transition_order_iff_example :
    (can_transition_order delivered accepted ≡ true) ↔ (delivered ⟶ accepted)
can_transition_order_iff_example = can_transition_order_iff delivered accepted

starts_processing : can_transition_payment pending processing ≡ true
unfolding can_transition_payment
starts_processing = refl

can_transition_payment-rank_example : (rank pending < rank processing) × (rank processing ≤ 2)
can_transition_payment-rank_example =
    can_transition_payment-rank pending processing starts_processing

-- A package of 80.00 with two add-ons and a fee of 10%.
calculate_order_totals_exact_example :
    let s = 8000 + sum (1500 ∷ 500 ∷ []) in
    let t = calculate_order_totals (pos 8000) (map pos (1500 ∷ 500 ∷ [])) (pos 1000) in
    (t.subtotal_minor_units ≡ pos s)
    × (t.platform_fee_minor_units ≡ pos (s * 1000 / 10000))
    × (s * 1000 / 10000 ≤ s)
    × (t.total_minor_units ≡ pos (s + s * 1000 / 10000))
calculate_order_totals_exact_example =
    calculate_order_totals_exact 8000 (1500 ∷ 500 ∷ []) 1000 (omega arith) (omega arith)
