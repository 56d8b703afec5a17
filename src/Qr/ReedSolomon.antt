-- ===== src/Qr/ReedSolomon.antt =====
-- The error correction of services/qrcode.go: the tables of GF(256), qrGFMul, reedSolomonDivisor,
-- reedSolomonRemainder and interleaveQRCodewords. A byte is a number below 256.
use gig.Base.{
  ℕ, zero, suc, ◌+◌, ◌-◌, ◌*◌, ◌/◌, ◌%◌, ◌||◌, List, [], ◌∷◌, ◌++◌, length, replicate, get_or, set,
  leb, ◌==◌, if◌then◌else◌, map,
}
use gig.Base.Text.{Bytes, take, drop}
use gig.Qr.Bits.{Version}
use Prim.Native.Nat.{bit_xor}

-- qrGFExp and qrGFLog, with the state of the loop of init.
pub record Tables : Type 0 where
  pub gf_exp : Bytes
  pub gf_log : Bytes

-- `x <<= 1; if x >= 256 { x ^= 0x11D }`
abbrev pub next_power : ℕ → ℕ
next_power x = let twice = x * 2 in if leb 256 twice then bit_xor twice 0x11D else twice

-- `for i := 0; i < 255; i++`, with `rounds` to go.
unfoldable pub powers : ℕ → ℕ → ℕ → Tables → Tables
powers zero i x t = t
powers (suc rounds) i x t =
    powers rounds (i + 1) (next_power x)
      (record { gf_exp = set t.gf_exp i (x % 256); gf_log = set t.gf_log x (i % 256) })

-- `for i := 255; i < 512; i++ { qrGFExp[i] = qrGFExp[i-255] }`
unfoldable pub repeat_powers : ℕ → ℕ → Bytes → Bytes
repeat_powers zero i exp = exp
repeat_powers (suc rounds) i exp = repeat_powers rounds (i + 1) (set exp i (get_or 0 exp (i - 255)))

unfoldable pub init : Tables
unfolding powers repeat_powers
init =
    let t = powers 255 0 1 (record { gf_exp = replicate 512 0; gf_log = replicate 256 0 }) in
    record t { gf_exp = repeat_powers 257 255 t.gf_exp }

-- `copy(rem, rem[1:]); rem[len(rem)-1] = 0`
abbrev pub shift_left : Bytes → Bytes
shift_left [] = []
shift_left (r ∷ rem) = rem ++ 0 ∷ []

-- `for _, b := range blocks { out = append(out, b[col]) }`
unfoldable pub column : ℕ → List Bytes → Bytes
column col [] = []
column col (b ∷ bs) = get_or 0 b col ∷ column col bs

-- `for col := 0; col < n; col++`, with `rounds` to go.
unfoldable pub columns : ℕ → ℕ → List Bytes → Bytes
unfolding column
columns zero col bs = []
columns (suc rounds) col bs = column col bs ++ columns rounds (col + 1) bs

-- The operations read the tables that init left.
module _ (t : Tables) where
  unfoldable pub gf_mul : ℕ → ℕ → ℕ
  gf_mul a b =
      if a == 0 || b == 0 then 0 else get_or 0 t.gf_exp (get_or 0 t.gf_log a + get_or 0 t.gf_log b)

  -- `for j := 0; j < degree; j++`, from left to right: the neighbour on the right is still the old one.
  unfoldable pub multiply_by_root : ℕ → Bytes → Bytes
  unfolding gf_mul
  multiply_by_root root [] = []
  multiply_by_root root (c ∷ []) = gf_mul c root ∷ []
  multiply_by_root root (c ∷ next ∷ rest) =
      bit_xor (gf_mul c root) next ∷ multiply_by_root root (next ∷ rest)

  unfoldable pub divisor_loop : ℕ → ℕ → Bytes → Bytes
  unfolding multiply_by_root gf_mul
  divisor_loop zero root coeffs = coeffs
  divisor_loop (suc rounds) root coeffs =
      divisor_loop rounds (gf_mul root 2) (multiply_by_root root coeffs)

  unfoldable pub reed_solomon_divisor : ℕ → Bytes
  unfolding divisor_loop
  reed_solomon_divisor degree = divisor_loop degree 1 (set (replicate degree 0) (degree - 1) 1)

  -- `for i, c := range divisor { rem[i] ^= qrGFMul(c, factor) }`
  unfoldable pub add_multiple : Bytes → Bytes → ℕ → Bytes
  unfolding gf_mul
  add_multiple [] divisor factor = []
  add_multiple (r ∷ rem) [] factor = r ∷ rem
  add_multiple (r ∷ rem) (c ∷ divisor) factor =
      bit_xor r (gf_mul c factor) ∷ add_multiple rem divisor factor

  unfoldable pub remainder_step : Bytes → Bytes → ℕ → Bytes
  unfolding add_multiple
  remainder_step divisor rem d = add_multiple (shift_left rem) divisor (bit_xor d (get_or 0 rem 0))

  unfoldable pub remainder_loop : Bytes → Bytes → Bytes → Bytes
  unfolding remainder_step
  remainder_loop divisor rem [] = rem
  remainder_loop divisor rem (d ∷ rest) = remainder_loop divisor (remainder_step divisor rem d) rest

  unfoldable pub reed_solomon_remainder : Bytes → Bytes → Bytes
  unfolding remainder_loop
  reed_solomon_remainder payload divisor =
      remainder_loop divisor (replicate (length divisor) 0) payload

  -- `for i := 0; i < ver.numBlocks; i++`: the block's bytes and its remainder.
  unfoldable pub blocks : ℕ → ℕ → ℕ → Bytes → Bytes → List (Bytes × Bytes)
  unfolding drop
  blocks zero i block_size divisor payload = []
  blocks (suc rounds) i block_size divisor payload =
      let block = take block_size (drop (i * block_size) payload) in
      (block, reed_solomon_remainder block divisor)
      ∷ blocks rounds (i + 1) block_size divisor payload

  -- interleaveQRCodewords
  unfoldable pub interleave_qr_codewords : Bytes → Version → Bytes
  unfolding blocks columns map
  interleave_qr_codewords payload ver =
      let block_size = ver.total_data_codewords / ver.num_blocks in
      let parts =
        blocks ver.num_blocks 0 block_size (reed_solomon_divisor ver.ecc_per_block) payload in
      columns block_size 0 (map (λ p. p.0) parts)
      ++ columns ver.ecc_per_block 0 (map (λ p. p.1) parts)
