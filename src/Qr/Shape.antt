-- ===== src/Qr/Shape.antt =====
-- The shape of what encodeQRMatrix (services/qrcode.go) returns.
use gig.Base.{
  ℕ, zero, suc, ◌+◌, ◌-◌, ◌*◌, ◌%◌, ◌<◌, ◌≤◌, Bool, true, false, List, length, replicate, All, leb,
  ◌==◌, if◌then◌else◌, Bool-cases, ◌≡◌, refl, ap, ◌⊎◌, inl, inr,
}
use gig.Base.Loops.{for_range, for_range-induct}
use gig.Base.Result.{ok, err}
use gig.Base.Text.{Bytes}
use gig.Qr.Bits.{Version, payload_too_large, encode_qr_data_bits, bits_to_bytes, bytes_to_bits}
use gig.Qr.Choice.{IsSmallest, choose_qr_version-IsSmallest}
use gig.Qr.ReedSolomon.{Tables, interleave_qr_codewords}
use gig.Qr.Matrix.{
  Matrix, new_qr_matrix, finder_module, draw_finder_pattern, set_if_free, timing_modules,
  draw_timing_patterns, alignment_module, draw_alignment_pattern, cell,
}
use gig.Qr.Grid.{IsSquare, set_cell-IsSquare}
use gig.Qr.Mask.{
  Placing, place_module, row_of, place_pair, place_columns, place_loop, place_qr_data, next_bit,
}
use gig.Qr.Encode.{draw_patterns, encode_qr_matrix}
use gig.Qr.Trials.{HasSquare, set_function-HasSquare, search_masks-HasSquare}

if-Keeps : {A : Type 0} (P : A → Type 0) (b : Bool) (x y : A) → P x → P y → P (if b then x else y)
if-Keeps P true x y p q = p
if-Keeps P false x y p q = q

length-replicate : {A : Type 0} (n : ℕ) (a : A) → length (replicate n a) ≡ n
length-replicate zero a = refl
length-replicate (suc n) a = ap suc (length-replicate n a)

All-replicate : {A : Type 0} (P : A → Type 0) (n : ℕ) (a : A) → P a → All P (replicate n a)
All-replicate P zero a p = tt
All-replicate P (suc n) a p = (p, All-replicate P n a p)

new_qr_matrix-HasSquare : (n : ℕ) → HasSquare n (new_qr_matrix n)
unfolding HasSquare IsSquare
new_qr_matrix-HasSquare n =
    (refl, (length-replicate n _, All-replicate _ n _ (length-replicate n false)))

module _ (n : ℕ) where
  for_range-HasSquare :
      (rounds i : ℕ) (step : ℕ → Matrix → Matrix) (m : Matrix)
      → ((j : ℕ) (b : Matrix) → HasSquare n b → HasSquare n (step j b))
      → HasSquare n m
      → HasSquare n (for_range rounds i step m)
  for_range-HasSquare = for_range-induct (HasSquare n)

  finder_module-HasSquare :
      (left top dy1 dx1 : ℕ) (m : Matrix)
      → HasSquare n m
      → HasSquare n (finder_module left top dy1 dx1 m)
  unfolding finder_module
  finder_module-HasSquare left top dy1 dx1 m h =
      if-Keeps (HasSquare n) _ _ _ (set_function-HasSquare n (left + dx1 - 1) (top + dy1 - 1) _ m h)
        h

  draw_finder_pattern-HasSquare :
      (left top : ℕ) (m : Matrix) → HasSquare n m → HasSquare n (draw_finder_pattern left top m)
  unfolding draw_finder_pattern
  draw_finder_pattern-HasSquare left top m =
      for_range-HasSquare 9 0 (λ dy1. for_range 9 0 (finder_module left top dy1)) m
        (λ dy1 b.
          for_range-HasSquare 9 0 (finder_module left top dy1) b
            (finder_module-HasSquare left top dy1))

  set_if_free-HasSquare :
      (x y : ℕ) (dark : Bool) (m : Matrix) → HasSquare n m → HasSquare n (set_if_free x y dark m)
  set_if_free-HasSquare x y dark m h =
      if-Keeps (HasSquare n) _ _ _ h (set_function-HasSquare n x y dark m h)

  draw_timing_patterns-HasSquare :
      (m : Matrix) → HasSquare n m → HasSquare n (draw_timing_patterns m)
  unfolding draw_timing_patterns timing_modules
  draw_timing_patterns-HasSquare m =
      for_range-HasSquare (m.size - 8 - 8) 8 timing_modules m (λ i b h.
        set_if_free-HasSquare 6 i (i % 2 == 0) _ (set_if_free-HasSquare i 6 (i % 2 == 0) b h))

  draw_alignment_pattern-HasSquare :
      (cx cy : ℕ) (m : Matrix) → HasSquare n m → HasSquare n (draw_alignment_pattern cx cy m)
  unfolding draw_alignment_pattern alignment_module
  draw_alignment_pattern-HasSquare cx cy m =
      for_range-HasSquare 5 0 (λ dy2. for_range 5 0 (alignment_module cx cy dy2)) m
        (λ dy2 b.
          for_range-HasSquare 5 0 (alignment_module cx cy dy2) b
            (λ dx2 a. set_function-HasSquare n (cx + dx2 - 2) (cy + dy2 - 2) _ a))

  -- The same of the state of the placing.
  Placed : Placing → Type 0
  Placed s = HasSquare n s.grid

  place_module-Placed : (x y : ℕ) (s : Placing) → Placed s → Placed (place_module x y s)
  unfolding Placed place_module HasSquare
  place_module-Placed x y s (size, square) = elim (Bool-cases (cell s.grid.is_function x y)) [
    | inl e ↦ rw e (size, square)
    | inr e ↦ rw e (size, set_cell-IsSquare n s.grid.modules x y (next_bit s.left_over).0 square)
  ]

  place_columns-Placed : (right : ℕ) (s : Placing) → Placed s → Placed (place_columns right s)
  unfolding place_columns place_pair
  place_columns-Placed right s =
      for_range-induct Placed s.grid.size 0 (place_pair s.grid.size right) s (λ vert a.
        for_range-induct Placed 2 0 (λ j. place_module (right - j) (row_of s.grid.size right vert))
          a (λ j b. place_module-Placed (right - j) (row_of s.grid.size right vert) b))

  place_loop-Placed : (fuel right : ℕ) (s : Placing) → Placed s → Placed (place_loop fuel right s)
  unfolding place_loop
  place_loop-Placed zero right s h = h
  place_loop-Placed (suc fuel) right s h =
      if-Keeps Placed _ _ _ (place_loop-Placed fuel _ _ (place_columns-Placed _ s h)) h

  pub place_qr_data-HasSquare :
      (m : Matrix) (bits : List Bool) → HasSquare n m → HasSquare n (place_qr_data m bits)
  unfolding place_qr_data Placed
  place_qr_data-HasSquare m bits h =
      place_loop-Placed m.size (m.size - 1) (record { grid = m; left_over = bits }) h

pub draw_patterns-HasSquare : (v : Version) → HasSquare (v.version * 4 + 17) (draw_patterns v)
unfolding draw_patterns
draw_patterns-HasSquare v =
    let n = v.version * 4 + 17 in
    let pos = v.version * 4 + 10 in
    let finders = draw_finder_pattern-HasSquare n 0 (n - 7) _ (
      draw_finder_pattern-HasSquare n (n - 7) 0 _
        (draw_finder_pattern-HasSquare n 0 0 _ (new_qr_matrix-HasSquare n))) in
    let timing = draw_timing_patterns-HasSquare n _ finders in
    set_function-HasSquare n 8 (n - 8) true _ (
      if-Keeps (HasSquare n) (leb 2 v.version) _ _
        (draw_alignment_pattern-HasSquare n pos pos _ timing) timing)

-- A payload of up to 134 bytes, and no longer one, is encoded, in the smallest of the six versions of the
-- table that holds it: the result is a matrix of size 4 * version + 17 with as many rows and columns of
-- modules. A payload of more than 134 bytes, and no shorter one, is refused.
pub encode_qr_matrix-HasSquare :
    (t : Tables) (payload : Bytes)
    → ((v : Version) × (m : Matrix) × (encode_qr_matrix t payload ≡ ok m)
        × IsSmallest v (length payload)
        × (length payload ≤ 134)
        × HasSquare (v.version * 4 + 17) m)
      ⊎ ((encode_qr_matrix t payload ≡ err payload_too_large) × (134 < length payload))
unfolding encode_qr_matrix
encode_qr_matrix-HasSquare t payload = elim (choose_qr_version-IsSmallest (length payload)) [
  | inl (v, e, smallest, short) ↦
      let bits =
        bytes_to_bits
          (interleave_qr_codewords t (bits_to_bytes (encode_qr_data_bits payload v)) v) in
      let m = place_qr_data (draw_patterns v) bits in
      inl (
        v,
        _,
        rw e refl,
        smallest,
        short,
        search_masks-HasSquare _ m (place_qr_data-HasSquare _ _ bits (draw_patterns-HasSquare v)),
      )
  | inr (e, long, _) ↦ inr (rw e refl, long)
]
