-- ===== src/Qr/Undo.antt =====
-- What the trials of encodeQRMatrix (services/qrcode.go) leave of the modules that carry data.
use gig.Base.{ℕ, ◌+◌, ◌-◌, ◌<◌, ◌≤◌, Bool, true, ◌≡◌, refl, ◌∙◌, ◌≢◌, ◌⊎◌, inl, inr, arith}
use gig.Base.Loops.{for_range, for_range-quiet}
use gig.Qr.Matrix.{Matrix, cell, set_function, draw_format_info, bit_of, format_bits}
use gig.Qr.Grid.{cell-set_cell_other}

-- A position of neither copy of the format information, nor the dark module.
unfoldable pub IsClear : ℕ → ℕ → ℕ → Type 0
IsClear size x y = ((x ≢ 8) ⊎ ((8 < y) × (y < size - 8))) × ((y ≢ 8) ⊎ ((8 < x) × (x < size - 8)))

-- What is seen of a matrix at one position.
unfoldable pub seen : ℕ → ℕ → Matrix → ℕ × Bool × Bool
seen x y m = (m.size, cell m.modules x y, cell m.is_function x y)

set_function-seen :
    (x y x' y' : ℕ) (v : Bool) (m : Matrix)
    → (x' ≢ x) ⊎ (y' ≢ y)
    → seen x y (set_function x' y' v m) ≡ seen x y m
unfolding seen set_function
set_function-seen x y x' y' v m other =
    rw
      (
        cell-set_cell_other m.modules x' y' x y v other,
        cell-set_cell_other m.is_function x' y' x y true other,
      )
      refl

-- Of a position (8, y') that the format information takes.
off_column : (size x y y' : ℕ) → IsClear size x y → (y' ≤ 8) ⊎ (size - 8 ≤ y') → (8 ≢ x) ⊎ (y' ≢ y)
unfolding IsClear
off_column size x y y' (inl n, _) h = inl (λ e. n (omega arith))
off_column size x y y' (inr (lo, hi), _) (inl h) = inr (λ e. absurd (omega arith))
off_column size x y y' (inr (lo, hi), _) (inr h) = inr (λ e. absurd (omega arith))

off_row : (size x y x' : ℕ) → IsClear size x y → (x' ≤ 8) ⊎ (size - 8 ≤ x') → (x' ≢ x) ⊎ (8 ≢ y)
unfolding IsClear
off_row size x y x' (_, inl n) h = inr (λ e. n (omega arith))
off_row size x y x' (_, inr (lo, hi)) (inl h) = inl (λ e. absurd (omega arith))
off_row size x y x' (_, inr (lo, hi)) (inr h) = inl (λ e. absurd (omega arith))

cells_seen :
    (x y rounds i : ℕ) (column row : ℕ → ℕ) (bit : ℕ → Bool) (m : Matrix)
    → ((j : ℕ) → i ≤ j → j < i + rounds → (column j ≢ x) ⊎ (row j ≢ y))
    → seen x y (for_range rounds i (λ j. set_function (column j) (row j) (bit j)) m) ≡ seen x y m
cells_seen x y rounds i column row bit m off =
    for_range-quiet (seen x y) (λ j. set_function (column j) (row j) (bit j)) rounds i m
      (λ j b lo hi. set_function-seen x y (column j) (row j) (bit j) b (off j lo hi))

pub draw_format_info-seen :
    (mask x y : ℕ) (m : Matrix)
    → 16 ≤ m.size
    → IsClear m.size x y
    → seen x y (draw_format_info mask m) ≡ seen x y m
unfolding draw_format_info
draw_format_info-seen mask x y m large clear =
    let n = m.size in
    let bit = bit_of (format_bits mask) in
    set_function-seen x y 8 (n - 8) true _ (off_column n x y (n - 8) clear (omega arith))
    ∙ (cells_seen x y 7 8 (λ j. 8) (λ j. n - 15 + j) bit _
          (λ j lo hi. off_column n x y (n - 15 + j) clear (omega arith))
        ∙ (cells_seen x y 8 0 (λ j. n - 1 - j) (λ j. 8) bit _
              (λ j lo hi. off_row n x y (n - 1 - j) clear (omega arith))
            ∙ (cells_seen x y 6 9 (λ j. 14 - j) (λ j. 8) bit _
                  (λ j lo hi. off_row n x y (14 - j) clear (omega arith))
                ∙ (set_function-seen x y 7 8 (bit 8) _ (off_row n x y 7 clear (omega arith))
                    ∙ (set_function-seen x y 8 8 (bit 7) _ (off_row n x y 8 clear (omega arith))
                        ∙ (set_function-seen x y 8 7 (bit 6) _
                              (off_column n x y 7 clear (omega arith))
                            ∙ cells_seen x y 6 0 (λ j. 8) (λ j. j) bit m
                                (λ j lo hi. off_column n x y j clear (omega arith))))))))
