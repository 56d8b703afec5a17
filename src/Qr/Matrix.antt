-- ===== src/Qr/Matrix.antt =====
-- The grid of services/qrcode.go and what is drawn on it: qrMatrix, newQRMatrix, setFunction, the
-- finder, timing and alignment patterns, the format information and the data.
use gig.Base.{
  ℕ, ◌+◌, ◌-◌, ◌*◌, ◌/◌, ◌%◌, ◌^◌, Bool, true, false, not, ◌&&◌, ◌||◌, List, [], replicate, get_or,
  set, leb, ◌==◌, if◌then◌else◌,
}
use gig.Base.Loops.{for_range}
use Prim.Native.Nat.{bit_or, bit_xor}

abbrev pub Grid : Type 0
Grid = List (List Bool)

-- The cell in row y and column x. The code reads and writes within the grid only.
unfoldable pub cell : Grid → ℕ → ℕ → Bool
cell g x y = get_or false (get_or [] g y) x

unfoldable pub set_cell : Grid → ℕ → ℕ → Bool → Grid
set_cell g x y v = set g y (set (get_or [] g y) x v)

-- qrMatrix
pub record Matrix : Type 0 where
  pub size : ℕ
  pub modules : Grid
  pub is_function : Grid

abbrev pub new_qr_matrix : ℕ → Matrix
new_qr_matrix n = record {
  size = n;
  modules = replicate n (replicate n false);
  is_function = replicate n (replicate n false);
}

unfoldable pub set_function : ℕ → ℕ → Bool → Matrix → Matrix
unfolding set_cell
set_function x y dark m = record m {
  modules = set_cell m.modules x y dark;
  is_function = set_cell m.is_function x y true;
}

abbrev between : ℕ → ℕ → ℕ → Bool
between lo hi i = leb lo i && leb i hi

-- The body of the loops of drawFinderPattern, at `dx + 1` and `dy + 1`, which are 0 to 8.
unfoldable pub finder_module : ℕ → ℕ → ℕ → ℕ → Matrix → Matrix
unfolding set_function
finder_module left top dy1 dx1 m =
    let dark =
      between 1 7 dx1
      && between 1 7 dy1
      && (dx1 == 1 || dx1 == 7 || dy1 == 1 || dy1 == 7 || (between 3 5 dx1 && between 3 5 dy1)) in
    if between 1 m.size (left + dx1) && between 1 m.size (top + dy1)
    then set_function (left + dx1 - 1) (top + dy1 - 1) dark m
    else m

unfoldable pub draw_finder_pattern : ℕ → ℕ → Matrix → Matrix
unfolding for_range finder_module
draw_finder_pattern left top = for_range 9 0 (λ dy1. for_range 9 0 (finder_module left top dy1))

-- `if !m.isFunction[y][x] { m.setFunction(x, y, dark) }`
abbrev pub set_if_free : ℕ → ℕ → Bool → Matrix → Matrix
set_if_free x y dark m = if cell m.is_function x y then m else set_function x y dark m

unfoldable pub timing_modules : ℕ → Matrix → Matrix
unfolding set_function cell
timing_modules i m = set_if_free 6 i (i % 2 == 0) (set_if_free i 6 (i % 2 == 0) m)

unfoldable pub draw_timing_patterns : Matrix → Matrix
unfolding for_range timing_modules
draw_timing_patterns m = for_range (m.size - 8 - 8) 8 timing_modules m

-- The body of the loops of drawAlignmentPattern, at `dx + 2` and `dy + 2`, which are 0 to 4.
unfoldable pub alignment_module : ℕ → ℕ → ℕ → ℕ → Matrix → Matrix
unfolding set_function
alignment_module cx cy dy2 dx2 =
    set_function (cx + dx2 - 2) (cy + dy2 - 2)
      (dx2 == 0 || dx2 == 4 || dy2 == 0 || dy2 == 4 || (dx2 == 2 && dy2 == 2))

unfoldable pub draw_alignment_pattern : ℕ → ℕ → Matrix → Matrix
unfolding for_range alignment_module
draw_alignment_pattern cx cy = for_range 5 0 (λ dy2. for_range 5 0 (alignment_module cx cy dy2))

-- `rem = (rem << 1) ^ ((rem >> 9) * 0x537)`, ten times, on 32 bits.
unfoldable pub format_remainder : ℕ → ℕ
unfolding for_range
format_remainder =
    for_range 10 0 (λ i rem. bit_xor (rem * 2 % 2 ^ 32) (rem / 2 ^ 9 * 0x537 % 2 ^ 32))

-- `((data << 10) | rem) ^ 0x5412`, of which fifteen bits stay.
unfoldable pub format_bits : ℕ → ℕ
unfolding format_remainder
format_bits mask =
    let info = bit_or (0x1 * 2 ^ 3) mask in
    bit_xor (bit_or (info * 2 ^ 10 % 2 ^ 32) (format_remainder info)) 0x5412 % 2 ^ 15

abbrev pub bit_of : ℕ → ℕ → Bool
bit_of bits i = not (bits / 2 ^ i % 2 == 0)

unfoldable pub draw_format_info : ℕ → Matrix → Matrix
unfolding for_range set_function format_bits
draw_format_info mask m0 =
    let bit = bit_of (format_bits mask) in
    let m1 = for_range 6 0 (λ i. set_function 8 i (bit i)) m0 in
    let m2 = set_function 7 8 (bit 8) (set_function 8 8 (bit 7) (set_function 8 7 (bit 6) m1)) in
    let m3 = for_range 6 9 (λ i. set_function (14 - i) 8 (bit i)) m2 in
    let m4 = for_range 8 0 (λ i. set_function (m0.size - 1 - i) 8 (bit i)) m3 in
    let m5 = for_range 7 8 (λ i. set_function 8 (m0.size - 15 + i) (bit i)) m4 in
    set_function 8 (m0.size - 8) true m5
