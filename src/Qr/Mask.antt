-- ===== src/Qr/Mask.antt =====
-- The data on the grid of services/qrcode.go: placeQRData, qrMaskBit and applyQRMask.
use gig.Base.{
  ℕ, zero, suc, ◌+◌, ◌-◌, ◌*◌, ◌/◌, ◌%◌, Bool, false, not, List, [], ◌∷◌, leb, ◌==◌, if◌then◌else◌,
}
use gig.Base.Loops.{for_range}
use gig.Qr.Matrix.{Matrix, cell, set_cell}

-- The grid and the bits that are still to be placed.
pub record Placing : Type 0 where
  pub grid : Matrix
  pub left_over : List Bool

abbrev pub set_module : ℕ → ℕ → Bool → Matrix → Matrix
set_module x y v m = record m { modules = set_cell m.modules x y v }

-- When the bits have run out, the module is light.
unfoldable pub next_bit : List Bool → Bool × List Bool
next_bit [] = (false, [])
next_bit (b ∷ bits) = (b, bits)

unfoldable pub place_module : ℕ → ℕ → Placing → Placing
unfolding cell set_cell next_bit
place_module x y s =
    if cell s.grid.is_function x y
    then s
    else let (bit, more) = next_bit s.left_over in
      record { grid = set_module x y bit s.grid; left_over = more }

abbrev pub row_of : ℕ → ℕ → ℕ → ℕ
row_of size right vert = if (right + 1) / 2 % 2 == 0 then size - 1 - vert else vert

-- `for j := 0; j < 2; j++`
unfoldable pub place_pair : ℕ → ℕ → ℕ → Placing → Placing
unfolding for_range place_module
place_pair size right vert = for_range 2 0 (λ j. place_module (right - j) (row_of size right vert))

-- The two columns `right` and `right - 1`, upward or downward.
unfoldable pub place_columns : ℕ → Placing → Placing
unfolding for_range place_pair
place_columns right s = for_range s.grid.size 0 (place_pair s.grid.size right) s

-- `for right := m.size - 1; right >= 1; right -= 2`; there are no more rounds than the size.
unfoldable pub place_loop : ℕ → ℕ → Placing → Placing
unfolding place_columns
place_loop zero right s = s
place_loop (suc fuel) right s =
    let at = if right == 6 then 5 else right in
    let rest = place_loop fuel (at - 2) (place_columns at s) in if leb 1 right then rest else s

unfoldable pub place_qr_data : Matrix → List Bool → Matrix
unfolding place_loop
place_qr_data m bits = (place_loop m.size (m.size - 1) (record { grid = m; left_over = bits })).grid

unfoldable pub qr_mask_bit : ℕ → ℕ → ℕ → Bool
qr_mask_bit mask x y =
    if mask == 0
    then (x + y) % 2 == 0
    else if mask == 1
    then y % 2 == 0
    else if mask == 2
    then x % 3 == 0
    else if mask == 3
    then (x + y) % 3 == 0
    else if mask == 4
    then (x / 3 + y / 2) % 2 == 0
    else if mask == 5
    then x * y % 2 + x * y % 3 == 0
    else if mask == 6
    then (x * y % 2 + x * y % 3) % 2 == 0
    else ((x + y) % 2 + x * y % 3) % 2 == 0

-- The body of the two loops of applyQRMask.
unfoldable pub mask_module : ℕ → ℕ → ℕ → Matrix → Matrix
unfolding cell set_cell qr_mask_bit
mask_module mask y x m =
    if cell m.is_function x y
    then m
    else if qr_mask_bit mask x y
    then set_module x y (not (cell m.modules x y)) m
    else m

unfoldable pub apply_qr_mask : ℕ → Matrix → Matrix
unfolding for_range mask_module
apply_qr_mask mask m = for_range m.size 0 (λ y. for_range m.size 0 (mask_module mask y)) m
