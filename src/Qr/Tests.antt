-- ===== src/Qr/Tests.antt =====
-- The encoder of services/qrcode.go on short payloads.
use gig.Base.{
  false, ◌+◌, ◌-◌, ◌*◌, ◌<◌, ◌≤◌, true, [], ◌∷◌, ◌++◌, length, get_or, some, ◌≡◌, refl, ◌⊎◌, inl,
  arith,
}
use gig.Base.Result.{ok, err}
use gig.Base.Text.{Bytes, drop}
use gig.Qr.Bits.{
  Version, version_of, payload_too_large, first_fitting, choose_qr_version, encode_qr_data_bits,
  bits_to_bytes, bytes_to_bits,
}
use gig.Qr.RoundTrip.{read_payload, read_payload-encode_qr_data_bits}
use gig.Qr.ReedSolomon.{
  gf_mul, init, reed_solomon_divisor, reed_solomon_remainder, interleave_qr_codewords,
}
use gig.Qr.Tables.{times, horner, power, gf_mul-times}
use gig.Qr.Codewords.{reed_solomon_remainder_vanishes}
use gig.Qr.Interleave.{interleave_qr_codewords-places}
use gig.Qr.Matrix.{draw_format_info, Grid, Matrix, cell, set_cell, set_function, new_qr_matrix}
use gig.Qr.Grid.{IsSquare}
use gig.Qr.Mask.{place_qr_data, apply_qr_mask}
use gig.Qr.Masking.{masked, apply_qr_mask_twice}
use gig.Qr.Choice.{IsSmallest}
use gig.Qr.Encode.{best_modules, draw_patterns, search_masks, encode_qr_matrix}
use gig.Qr.Best.{score_at, IsFirstBest}
use gig.Qr.Reserved.{filled, IsOverwritten, version_at, draw_patterns-IsOverwritten}
use gig.Qr.Undo.{IsClear}
use gig.Qr.Trials.{HasSquare, search_masks-masked}
use gig.Qr.Shape.{place_qr_data-HasSquare, draw_patterns-HasSquare, encode_qr_matrix-HasSquare}

abbrev hi : Bytes
hi = 72 ∷ 105 ∷ []

abbrev version_one : Version
version_one = version_of 1 19 1 7

hi-chosen : choose_qr_version (length hi) ≡ ok version_one
unfolding choose_qr_version first_fitting
hi-chosen = refl

read_payload-encode_qr_data_bits_example :
    (length (bits_to_bytes (encode_qr_data_bits hi version_one)) ≡ 19)
    × (read_payload (bytes_to_bits (bits_to_bytes (encode_qr_data_bits hi version_one))) ≡ some hi)
read_payload-encode_qr_data_bits_example =
    read_payload-encode_qr_data_bits hi version_one (omega arith, (omega arith, tt)) hi-chosen

gf_mul-times_example : gf_mul init 0x53 0xCA ≡ times 8 0x53 0xCA
gf_mul-times_example = gf_mul-times 0x53 0xCA (omega arith) (omega arith)

reed_solomon_remainder_vanishes_example :
    let rem = reed_solomon_remainder init hi (reed_solomon_divisor init 7) in
    (length rem ≡ 7) × (horner (power 3) 0 (hi ++ rem) ≡ 0)
reed_solomon_remainder_vanishes_example =
    reed_solomon_remainder_vanishes 0 3 hi (omega arith) (omega arith)
      (omega arith, (omega arith, tt))

-- Two blocks of two codewords.
abbrev two_blocks : Version
two_blocks = version_of 6 4 2 3

abbrev four : Bytes
four = 10 ∷ 20 ∷ 30 ∷ 40 ∷ []

interleave_qr_codewords-places_example :
    (length (interleave_qr_codewords init four two_blocks) ≡ 2 * (2 + 3))
    × (get_or 0 (interleave_qr_codewords init four two_blocks) (0 * 2 + 1)
        ≡ get_or 0 four (1 * 2 + 0))
    × (get_or 0 (interleave_qr_codewords init four two_blocks) (2 * 2 + (2 * 2 + 1))
        ≡ get_or 0 (reed_solomon_remainder init (30 ∷ 40 ∷ []) (reed_solomon_divisor init 3)) 2)
unfolding drop
interleave_qr_codewords-places_example =
    interleave_qr_codewords-places init four two_blocks 1 0 2 (omega arith) (omega arith)
      (omega arith)

-- Three by three modules, with a function module in the middle.
abbrev small : Matrix
small = set_function 1 1 true (new_qr_matrix 3)

small-IsSquare : IsSquare small.size small.modules
unfolding IsSquare set_function set_cell
small-IsSquare = (refl, (refl, (refl, (refl, tt))))

apply_qr_mask_twice_example :
    (cell (apply_qr_mask 0 small).modules 2 0 ≡ masked small 0 2 0 (cell small.modules 2 0))
    × ((apply_qr_mask 0 small).is_function ≡ small.is_function)
    × (cell (apply_qr_mask 0 (apply_qr_mask 0 small)).modules 2 0 ≡ cell small.modules 2 0)
unfolding set_function
apply_qr_mask_twice_example =
    apply_qr_mask_twice 0 small 2 0 small-IsSquare (omega arith) (omega arith)

encode_qr_matrix-HasSquare_example :
    ((v : Version) × (m : Matrix) × (encode_qr_matrix init hi ≡ ok m)
      × IsSmallest v 2
      × (2 ≤ 134)
      × HasSquare (v.version * 4 + 17) m)
    ⊎ ((encode_qr_matrix init hi ≡ err payload_too_large) × (134 < 2))
encode_qr_matrix-HasSquare_example = encode_qr_matrix-HasSquare init hi

-- Version one with the bits of two codewords on it.
grid_one : Matrix
unfolding place_qr_data draw_patterns bytes_to_bits
grid_one = place_qr_data (draw_patterns version_one) (bytes_to_bits hi)

grid_one-HasSquare : HasSquare 21 grid_one
unfolding grid_one
grid_one-HasSquare =
    place_qr_data-HasSquare 21 (draw_patterns version_one) (bytes_to_bits hi)
      (draw_patterns-HasSquare version_one)

grid_one_size : grid_one.size ≡ 21
unfolding HasSquare
grid_one_size = grid_one-HasSquare.0

grid_one-IsSquare : IsSquare grid_one.size grid_one.modules
unfolding HasSquare
grid_one-IsSquare = rw grid_one_size grid_one-HasSquare.1

chosen_modules : Grid
chosen_modules = best_modules (search_masks grid_one).best

grid_one_best : (search_masks grid_one).best ≡ some (0, 200, chosen_modules)
unfolding search_masks grid_one place_qr_data draw_patterns bytes_to_bits chosen_modules
    best_modules draw_format_info apply_qr_mask
grid_one_best = refl

twelve_ten-IsClear : IsClear grid_one.size 12 10
unfolding IsClear
twelve_ten-IsClear = (inl (λ e. absurd (omega arith)), inl (λ e. absurd (omega arith)))

search_masks-masked_example :
    (cell chosen_modules 12 10 ≡ masked grid_one 0 12 10 (cell grid_one.modules 12 10))
    × (200 ≡ score_at grid_one 0)
    × IsFirstBest grid_one 8 0
search_masks-masked_example =
    search_masks-masked grid_one 0 200 chosen_modules 12 10 (rw grid_one_size (omega arith))
      grid_one-IsSquare (rw grid_one_size (omega arith)) (rw grid_one_size (omega arith))
      twelve_ten-IsClear grid_one_best

draw_patterns-IsOverwritten_example :
    IsOverwritten (version_at 2) 3 ((filled (version_at 2) false).size - 1 - 4) 8
    × IsOverwritten (version_at 2) 3 8 ((filled (version_at 2) false).size - 1 - 5)
draw_patterns-IsOverwritten_example =
    draw_patterns-IsOverwritten 2 3 4 5 (omega arith) (omega arith) (omega arith) (omega arith)
