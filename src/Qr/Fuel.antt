-- ===== src/Qr/Fuel.antt =====
-- The rounds given to placeQRData (services/qrcode.go) are enough: more of them change nothing.
use gig.Base.{
  ℕ, zero, suc, ◌-◌, ◌<◌, true, leb, ◌==◌, if◌then◌else◌, Bool-cases, ◌≡◌, refl, inl, inr, arith,
}
use gig.Qr.Mask.{Placing, place_columns, place_loop}

column_after : (right : ℕ) → leb 1 right ≡ true → (if right == 6 then 5 else right) - 2 < right
column_after right h = ground arith

-- From column `right` on, one round more than its number is enough.
pub place_loop_enough :
    (fuel right : ℕ) (s : Placing)
    → right < fuel
    → place_loop (suc fuel) right s ≡ place_loop fuel right s
unfolding place_loop
place_loop_enough zero right s h = absurd (omega arith)
place_loop_enough (suc fuel) right s h = elim (Bool-cases (leb 1 right)) [
  | inl more ↦
      let at = if right == 6 then 5 else right in
      let later = column_after right more in
      rw more (place_loop_enough fuel (at - 2) (place_columns at s) (omega (arith, later)))
  | inr done ↦ rw done refl
]
