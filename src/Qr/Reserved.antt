-- ===== src/Qr/Reserved.antt =====
-- Which modules are free when encodeQRMatrix (services/qrcode.go) places the data.
use gig.Base.{
  sym, ◌+◌, ◌*◌, replicate, ℕ, ◌-◌, ◌<◌, Bool, true, false, not, ◌&&◌, All, get_or, and_split, ◌≡◌,
  refl, arith,
}
use gig.Base.Every.{all_below, all_below_sound, forall_in, forall_in-All}
use gig.Base.Loops.{for_range}
use gig.Qr.Bits.{Version, version_of, qr_versions}
use gig.Qr.Grid.{get_or-All}
use gig.Qr.Matrix.{
  Matrix, cell, set_cell, set_function, draw_finder_pattern, draw_timing_patterns,
  draw_alignment_pattern, format_remainder, format_bits, draw_format_info,
}
use gig.Qr.Mask.{place_qr_data, place_loop, place_columns, place_pair, place_module}
use gig.Qr.Encode.{draw_patterns}

-- The modules where the data is placed, with all bits of the version set, or none.
unfoldable pub filled : Version → Bool → Matrix
unfolding draw_patterns place_qr_data
filled v bit =
    place_qr_data (draw_patterns v)
      (replicate ((v.total_data_codewords + v.ecc_per_block * v.num_blocks) * 8) bit)

-- The module carries a bit of the data when the data is placed, and is no function module. After the
-- format information is drawn it is a function module and does not depend on the data any more.
abbrev pub IsOverwritten : Version → ℕ → ℕ → ℕ → Type 0
IsOverwritten v mask x y =
    (cell (filled v false).is_function x y ≡ false)
    × (cell (filled v true).modules x y ≡ true)
    × (cell (filled v false).modules x y ≡ false)
    × (cell (draw_format_info mask (filled v false)).is_function x y ≡ true)
    × (cell (draw_format_info mask (filled v true)).modules x y
        ≡ cell (draw_format_info mask (filled v false)).modules x y)

same_bit : Bool → Bool → Bool
same_bit true b = b
same_bit false b = not b

-- The tests on the matrix with no bit set, the one with all set, and both after the drawing.
is_overwritten : Matrix → Matrix → Matrix → Matrix → ℕ → ℕ → Bool
is_overwritten clear full clear_drawn full_drawn x y =
    not (cell clear.is_function x y)
    && (cell full.modules x y
        && (not (cell clear.modules x y)
            && (cell clear_drawn.is_function x y
                && same_bit (cell full_drawn.modules x y) (cell clear_drawn.modules x y))))

in_row : Matrix → Matrix → Matrix → Matrix → ℕ → Bool
in_row clear full clear_drawn full_drawn i =
    is_overwritten clear full clear_drawn full_drawn (clear.size - 1 - i) 8

in_column : Matrix → Matrix → Matrix → Matrix → ℕ → Bool
in_column clear full clear_drawn full_drawn i =
    is_overwritten clear full clear_drawn full_drawn 8 (clear.size - 1 - i)

both : Matrix → Matrix → Matrix → Matrix → Bool
both clear full clear_drawn full_drawn =
    all_below (in_row clear full clear_drawn full_drawn) 8
    && all_below (in_column clear full clear_drawn full_drawn) 7

with_mask : Matrix → Matrix → ℕ → Bool
with_mask clear full mask =
    both clear full (draw_format_info mask clear) (draw_format_info mask full)

second_copy : Version → Bool
second_copy v = all_below (with_mask (filled v false) (filled v true)) 8

table : forall_in second_copy qr_versions ≡ true
unfolding second_copy with_mask both in_row in_column all_below forall_in is_overwritten
    draw_patterns for_range cell set_cell set_function draw_finder_pattern draw_timing_patterns
    draw_alignment_pattern format_remainder format_bits draw_format_info filled place_qr_data
    place_loop place_columns place_pair place_module same_bit
table = refl

not-true : (b : Bool) → not b ≡ true → b ≡ false
not-true b e = ground arith

same_bit_sound : (a b : Bool) → same_bit a b ≡ true → a ≡ b
unfolding same_bit
same_bit_sound true b e = sym e
same_bit_sound false b e = sym (not-true b e)

overwritten :
    (clear full clear_drawn full_drawn : Matrix) (x y : ℕ)
    → is_overwritten clear full clear_drawn full_drawn x y ≡ true
    → (cell clear.is_function x y ≡ false)
      × (cell full.modules x y ≡ true)
      × (cell clear.modules x y ≡ false)
      × (cell clear_drawn.is_function x y ≡ true)
      × (cell full_drawn.modules x y ≡ cell clear_drawn.modules x y)
unfolding is_overwritten
overwritten clear full clear_drawn full_drawn x y e =
    let (free, e1) = and_split (not (cell clear.is_function x y)) _ e in
    let (set, e2) = and_split (cell full.modules x y) _ e1 in
    let (unset, e3) = and_split (not (cell clear.modules x y)) _ e2 in
    let (covered, same) = and_split (cell clear_drawn.is_function x y) _ e3 in
    (
      not-true (cell clear.is_function x y) free,
      set,
      not-true (cell clear.modules x y) unset,
      covered,
      same_bit_sound _ _ same,
    )

-- Row 8 from the right edge on, and column 8 from the lower edge on, as far as the second copy of
-- the format information reaches.
abbrev SecondCopyIsOverwritten : Version → Type 0
SecondCopyIsOverwritten v =
    (mask : ℕ)
    → mask < 8
    → ((i : ℕ) → i < 8 → IsOverwritten v mask ((filled v false).size - 1 - i) 8)
      × ((i : ℕ) → i < 7 → IsOverwritten v mask 8 ((filled v false).size - 1 - i))

second_copy_sound : (v : Version) → second_copy v ≡ true → SecondCopyIsOverwritten v
unfolding second_copy with_mask both in_row in_column
second_copy_sound v e mask h =
    let clear = filled v false in
    let full = filled v true in
    let clear_drawn = draw_format_info mask clear in
    let full_drawn = draw_format_info mask full in
    let masked = all_below_sound (with_mask clear full) 8 mask e h in
    let (row, column) =
      and_split (all_below (in_row clear full clear_drawn full_drawn) 8)
        (all_below (in_column clear full clear_drawn full_drawn) 7) masked in
    (
      λ i hi.
          overwritten clear full clear_drawn full_drawn _ _
            (all_below_sound (in_row clear full clear_drawn full_drawn) 8 i row hi),
      λ i hi.
          overwritten clear full clear_drawn full_drawn _ _
            (all_below_sound (in_column clear full clear_drawn full_drawn) 7 i column hi),
    )

each_version : All SecondCopyIsOverwritten qr_versions
each_version = forall_in-All second_copy SecondCopyIsOverwritten second_copy_sound qr_versions table

-- Version k of the table.
abbrev pub version_at : ℕ → Version
version_at k = get_or (version_of 1 19 1 7) qr_versions k

-- For each of the six versions of the table and each mask, at the fifteen modules of the second copy of
-- the format information (row 8 from the right edge, column 8 from the lower edge): when the data is
-- placed they are no function modules, and each is set if all bits of the version's codewords are, and
-- not set if none is, so that it carries a bit of the data. After the format information is drawn they
-- are function modules, and are the same for both data: the bits of the data are lost.
pub draw_patterns-IsOverwritten :
    (k mask i j : ℕ)
    → k < 6
    → mask < 8
    → i < 8
    → j < 7
    → IsOverwritten (version_at k) mask ((filled (version_at k) false).size - 1 - i) 8
      × IsOverwritten (version_at k) mask 8 ((filled (version_at k) false).size - 1 - j)
draw_patterns-IsOverwritten k mask i j hk hm hi hj =
    let (row, column) =
      get_or-All (version_of 1 19 1 7) SecondCopyIsOverwritten qr_versions k each_version hk mask
        hm in
    (row i hi, column j hj)
