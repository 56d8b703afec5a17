-- ===== src/Qr/Encode.antt =====
-- The choice of the mask and the whole encoder of services/qrcode.go: encodeQRMatrix.
-- The SVG text is not modelled.
use gig.Base.{ℕ, ◌+◌, ◌-◌, ◌*◌, Bool, true, [], ltb, leb, if◌then◌else◌, Option, none, some}
use gig.Base.Loops.{for_range}
use gig.Base.Result.{Result, ok, ◌>>=◌}
use gig.Base.Text.{Bytes}
use gig.Base.{length}
use gig.Qr.Bits.{
  Version, QrError, choose_qr_version, encode_qr_data_bits, bits_to_bytes, bytes_to_bits,
}
use gig.Qr.ReedSolomon.{Tables, interleave_qr_codewords}
use gig.Qr.Matrix.{
  Grid, Matrix, new_qr_matrix, set_function, draw_finder_pattern, draw_timing_patterns,
  draw_alignment_pattern, draw_format_info,
}
use gig.Qr.Penalty.{qr_penalty_score}
use gig.Qr.Mask.{place_qr_data, apply_qr_mask}

-- The loop's state: the grid, and the number, score and modules of the best mask so far.
pub record Search : Type 0 where
  pub current : Matrix
  pub best : Option (ℕ × ℕ × Grid)

-- `bestMask == -1 || score < bestScore`
abbrev pub improves : ℕ → Option (ℕ × ℕ × Grid) → Bool
improves score none = true
improves score (some b) = ltb score b.1

abbrev pub trial : ℕ → Matrix → Matrix
trial mask m = draw_format_info mask (apply_qr_mask mask m)

unfoldable pub try_mask : ℕ → Search → Search
unfolding qr_penalty_score
try_mask mask s =
    let m = trial mask s.current in
    let score = qr_penalty_score m in
    record {
      current = apply_qr_mask mask m;
      best = if improves score s.best then some (mask, score, m.modules) else s.best;
    }

-- `m.modules = bestModules`, which is nil before the first trial.
unfoldable pub best_modules : Option (ℕ × ℕ × Grid) → Grid
best_modules none = []
best_modules (some (mask, score, grid)) = grid

-- The patterns of a version, as they are drawn before the data.
unfoldable pub draw_patterns : Version → Matrix
unfolding draw_finder_pattern draw_timing_patterns draw_alignment_pattern set_function
draw_patterns ver =
    let size = ver.version * 4 + 17 in
    let m1 =
      draw_finder_pattern 0 (size - 7)
        (draw_finder_pattern (size - 7) 0 (draw_finder_pattern 0 0 (new_qr_matrix size))) in
    let m2 = draw_timing_patterns m1 in
    let pos = ver.version * 4 + 10 in
    let m3 = if leb 2 ver.version then draw_alignment_pattern pos pos m2 else m2 in
    set_function 8 (size - 8) true m3

unfoldable pub search_masks : Matrix → Search
unfolding for_range try_mask
search_masks m = for_range 8 0 try_mask (record { current = m; best = none })

-- encodeQRMatrix
unfoldable pub encode_qr_matrix : Tables → Bytes → Result QrError Matrix
unfolding search_masks best_modules draw_patterns
encode_qr_matrix t payload = do
  ver ← choose_qr_version (length payload)
  let codewords = bits_to_bytes (encode_qr_data_bits payload ver)
  let final = interleave_qr_codewords t codewords ver
  let m = place_qr_data (draw_patterns ver) (bytes_to_bits final)
  let s = search_masks m
  ok (record (s.current) { modules = best_modules s.best })
