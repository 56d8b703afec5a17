-- ===== src/Qr/Trials.antt =====
-- The modules that carry data through the trials of encodeQRMatrix (services/qrcode.go).
use gig.Base.{
  ℕ, zero, suc, ◌+◌, ◌-◌, some, ◌<◌, ◌≤◌, Bool, true, not, if◌then◌else◌, ◌≡◌, refl, sym, ap, ◌∙◌,
}
use gig.Base.Loops.{for_range, for_range-induct}
use gig.Qr.Matrix.{Grid, Matrix, cell, set_function, bit_of, format_bits, draw_format_info}
use gig.Qr.Grid.{IsSquare, set_cell-IsSquare}
use gig.Qr.Mask.{qr_mask_bit, apply_qr_mask}
use gig.Qr.Masking.{Alike, masked, masked_twice, apply_qr_mask-cell, apply_qr_mask-Alike}
use gig.Qr.Undo.{IsClear, seen, draw_format_info-seen}
use gig.Qr.Encode.{Search, trial, try_mask, best_modules, search_masks}
use gig.Qr.Best.{before, before-suc, candidate, score_at, IsFirstBest, search_masks-IsFirstBest}
use mathlib.Core.Path.{subst}

-- A matrix of size n whose modules are a square.
unfoldable pub HasSquare : ℕ → Matrix → Type 0
HasSquare n m = (m.size ≡ n) × IsSquare n m.modules

pub set_function-HasSquare :
    (n x y : ℕ) (v : Bool) (m : Matrix) → HasSquare n m → HasSquare n (set_function x y v m)
unfolding HasSquare set_function
set_function-HasSquare n x y v m (size, square) = (size, set_cell-IsSquare n m.modules x y v square)

cells-HasSquare :
    (n rounds i : ℕ) (column row : ℕ → ℕ) (bit : ℕ → Bool) (m : Matrix)
    → HasSquare n m
    → HasSquare n (for_range rounds i (λ j. set_function (column j) (row j) (bit j)) m)
cells-HasSquare n rounds i column row bit m h =
    for_range-induct (HasSquare n) rounds i (λ j. set_function (column j) (row j) (bit j)) m
      (λ j b. set_function-HasSquare n (column j) (row j) (bit j) b) h

draw_format_info-HasSquare :
    (n mask : ℕ) (m : Matrix) → HasSquare n m → HasSquare n (draw_format_info mask m)
unfolding draw_format_info
draw_format_info-HasSquare n mask m h =
    let s = m.size in
    let bit = bit_of (format_bits mask) in
    set_function-HasSquare n 8 (s - 8) true _ (
      cells-HasSquare n 7 8 (λ j. 8) (λ j. s - 15 + j) bit _
        (cells-HasSquare n 8 0 (λ j. s - 1 - j) (λ j. 8) bit _
          (cells-HasSquare n 6 9 (λ j. 14 - j) (λ j. 8) bit _
            (set_function-HasSquare n 7 8 (bit 8) _ (
              set_function-HasSquare n 8 8 (bit 7) _ (
                set_function-HasSquare n 8 7 (bit 6) _
                  (cells-HasSquare n 6 0 (λ j. 8) (λ j. j) bit m h)))))))

masked_alike :
    (a b : Matrix) (mask x y : ℕ) (v : Bool)
    → cell a.is_function x y ≡ cell b.is_function x y
    → masked a mask x y v ≡ masked b mask x y v
unfolding masked
masked_alike a b mask x y v e =
    ap (λ f. if f then v else if qr_mask_bit mask x y then not v else v) e

module _ (n x y : ℕ) (large : 16 ≤ n) (hx : x < n) (hy : y < n) (clear : IsClear n x y) where
  -- The same square size, and the same at the position.
  Same : Matrix → Matrix → Type 0
  Same m0 m =
      HasSquare n m
      × (cell m.modules x y ≡ cell m0.modules x y)
      × (cell m.is_function x y ≡ cell m0.is_function x y)

  apply_qr_mask-at :
      (mask : ℕ) (m : Matrix)
      → HasSquare n m
      → HasSquare n (apply_qr_mask mask m)
        × (cell (apply_qr_mask mask m).modules x y ≡ masked m mask x y (cell m.modules x y))
        × (cell (apply_qr_mask mask m).is_function x y ≡ cell m.is_function x y)
  unfolding HasSquare Alike
  apply_qr_mask-at mask m (size, square) =
      let own : IsSquare m.size m.modules = rw size square in
      let (size', square', fun) = apply_qr_mask-Alike mask m (refl, own, refl) in
      (
        (size' ∙ size, subst (λ k. IsSquare k (apply_qr_mask mask m).modules) size square'),
        apply_qr_mask-cell mask m x y (rw size hx) (rw size hy) (refl, own, refl),
        ap (λ f. cell f x y) fun,
      )

  draw_format_info-at :
      (mask : ℕ) (m : Matrix)
      → HasSquare n m
      → HasSquare n (draw_format_info mask m)
        × (cell (draw_format_info mask m).modules x y ≡ cell m.modules x y)
        × (cell (draw_format_info mask m).is_function x y ≡ cell m.is_function x y)
  unfolding HasSquare seen
  draw_format_info-at mask m (size, square) =
      let same = draw_format_info-seen mask x y m (rw size large) (rw size clear) in
      (draw_format_info-HasSquare n mask m (size, square), ap (λ t. t.1) same, ap (λ t. t.2) same)

  trial-at :
      (mask : ℕ) (m0 m : Matrix)
      → Same m0 m
      → HasSquare n (trial mask m)
        × (cell (trial mask m).modules x y ≡ masked m0 mask x y (cell m0.modules x y))
        × (cell (trial mask m).is_function x y ≡ cell m0.is_function x y)
  unfolding Same
  trial-at mask m0 m (square, same, fun) =
      let (square1, same1, fun1) = apply_qr_mask-at mask m square in
      let (square2, same2, fun2) = draw_format_info-at mask (apply_qr_mask mask m) square1 in
      (
        square2,
        same2 ∙ (same1 ∙ (masked_alike m m0 mask x y _ fun ∙ ap (masked m0 mask x y) same)),
        fun2 ∙ (fun1 ∙ fun),
      )

  try_mask-Same :
      (mask : ℕ) (m0 : Matrix) (s : Search) → Same m0 s.current → Same m0 (try_mask mask s).current
  unfolding Same try_mask
  try_mask-Same mask m0 s same =
      let (square, tried, fun) = trial-at mask m0 s.current same in
      let (square', undone, fun') = apply_qr_mask-at mask (trial mask s.current) square in
      (
        square',
        undone
            ∙ (masked_alike _ m0 mask x y _ fun
                ∙ (ap (masked m0 mask x y) tried ∙ masked_twice m0 mask x y _)),
        fun' ∙ fun,
      )

  before-Same : (m0 : Matrix) (k : ℕ) → HasSquare n m0 → Same m0 (before m0 k).current
  unfolding Same before
  before-Same m0 zero h = (h, refl, refl)
  before-Same m0 (suc k) h =
      rw (before-suc m0 k) (try_mask-Same k m0 (before m0 k) (before-Same m0 k h))

  candidate-at :
      (m0 : Matrix) (k : ℕ)
      → HasSquare n m0
      → HasSquare n (candidate m0 k)
        × (cell (candidate m0 k).modules x y ≡ masked m0 k x y (cell m0.modules x y))
  unfolding candidate
  candidate-at m0 k h =
      let (square, same, _) = trial-at k m0 (before m0 k).current (before-Same m0 k h) in
      (square, same)

-- On a matrix whose modules are a square of its size, at least 16: if the search ends with mask k,
-- its score and its modules, then each module at a position outside the format information is the
-- given one under mask k (inverted where it is no function module and the mask's bit is set), and
-- no mask has a smaller score in its trial; a smaller mask has a greater one.
pub search_masks-masked :
    (m : Matrix) (k score : ℕ) (modules : Grid) (x y : ℕ)
    → 16 ≤ m.size
    → IsSquare m.size m.modules
    → x < m.size
    → y < m.size
    → IsClear m.size x y
    → (search_masks m).best ≡ some (k, score, modules)
    → (cell modules x y ≡ masked m k x y (cell m.modules x y))
      × (score ≡ score_at m k)
      × IsFirstBest m 8 k
unfolding HasSquare
search_masks-masked m k score modules x y large square hx hy clear e =
    let (k', found, first) = search_masks-IsFirstBest m in
    let same : k' ≡ k = cc in
    let scores : score ≡ score_at m k' = cc in
    let grids : modules ≡ (candidate m k').modules = cc in
    let (_, at) = candidate-at m.size x y large hx hy clear m k' (refl, square) in
    subst
      (λ j.
        (cell modules x y ≡ masked m j x y (cell m.modules x y))
        × (score ≡ score_at m j)
        × IsFirstBest m 8 j)
      same (ap (λ g. cell g x y) grids ∙ at, scores, first)

apply_qr_mask-HasSquare :
    (n mask : ℕ) (m : Matrix) → HasSquare n m → HasSquare n (apply_qr_mask mask m)
unfolding HasSquare Alike
apply_qr_mask-HasSquare n mask m (size, square) =
    let (size', square', _) =
      apply_qr_mask-Alike mask m
        (refl, subst (λ k. IsSquare k m.modules) (sym size) square, refl) in
    (size' ∙ size, subst (λ k. IsSquare k (apply_qr_mask mask m).modules) size square')

trial-HasSquare : (n mask : ℕ) (m : Matrix) → HasSquare n m → HasSquare n (trial mask m)
trial-HasSquare n mask m h =
    draw_format_info-HasSquare n mask _ (apply_qr_mask-HasSquare n mask m h)

try_mask-HasSquare :
    (n mask : ℕ) (s : Search) → HasSquare n s.current → HasSquare n (try_mask mask s).current
unfolding try_mask
try_mask-HasSquare n mask s h =
    apply_qr_mask-HasSquare n mask _ (trial-HasSquare n mask s.current h)

before-HasSquare : (n : ℕ) (m : Matrix) (k : ℕ) → HasSquare n m → HasSquare n (before m k).current
unfolding before
before-HasSquare n m k h =
    for_range-induct (λ (s : Search). HasSquare n s.current) k 0 try_mask _
      (λ j s. try_mask-HasSquare n j s) h

-- The search ends with a square of the same size.
pub search_masks-HasSquare :
    (n : ℕ) (m : Matrix)
    → HasSquare n m
    → HasSquare n
        (record ((search_masks m).current) { modules = best_modules (search_masks m).best })
unfolding HasSquare candidate search_masks before best_modules
search_masks-HasSquare n m h =
    let (k, found, _) = search_masks-IsFirstBest m in
    let (size, _) = before-HasSquare n m 8 h in
    let (_, square) = trial-HasSquare n k (before m k).current (before-HasSquare n m k h) in
    (size, subst (λ o. IsSquare n (best_modules o)) (sym found) square)
