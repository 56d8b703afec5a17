-- ===== src/Qr/Tables.antt =====
-- The tables of GF(256) in services/qrcode.go, checked entry by entry.
use gig.Base.{
  ℕ, zero, suc, ◌+◌, ◌-◌, ◌*◌, ltb, ◌/◌, ◌%◌, ◌<◌, Bool, [], ◌∷◌, length, All, and_split,
  if◌then◌else◌, true, ◌&&◌, ◌==◌, ==_iff, ◌≡◌, refl,
}
use gig.Base.Every.{all_below, all_below_sound, forall_in, forall_in-All}
use gig.Qr.ReedSolomon.{
  Tables, gf_mul, multiply_by_root, divisor_loop, reed_solomon_divisor, powers, repeat_powers, init,
}
use gig.Base.Text.{Bytes}
use gig.Qr.Bits.{Version, qr_versions}
use Prim.Native.Nat.{bit_xor}

-- A polynomial of degree below 8 times X, modulo X^8 + X^4 + X^3 + X^2 + 1, which is 0x11D.
unfoldable pub doubled : ℕ → ℕ
doubled a = if ltb a 128 then a * 2 else bit_xor (a * 2 - 256) (16 + 8 + 4 + 1)

-- Multiplication of polynomials over GF(2) modulo 0x11D, digit by digit of `b`, the lowest first.
unfoldable pub times : ℕ → ℕ → ℕ → ℕ
unfolding doubled
times zero a b = 0
times (suc digits) a b =
    let rest = times digits (doubled a) (b / 2) in if b % 2 == 0 then rest else bit_xor a rest

row : Tables → ℕ → Bool
row t a = all_below (λ b. gf_mul t a b == times 8 a b) 256

products : (λ (t : Tables). all_below (row t) 256) init ≡ true
unfolding all_below init powers repeat_powers row gf_mul times
products = refl

-- The product by the tables is the product of polynomials over GF(2) modulo 0x11D, for any two bytes.
pub gf_mul-times : (a b : ℕ) → a < 256 → b < 256 → gf_mul init a b ≡ times 8 a b
unfolding row
gf_mul-times a b ha hb =
    (==_iff _ _).0 (all_below_sound _ 256 b (all_below_sound (row init) 256 a products ha) hb)

-- The value of a polynomial at a point, its coefficients from the highest on.
unfoldable pub horner : ℕ → ℕ → Bytes → ℕ
horner x acc [] = acc
horner x acc (c ∷ rest) = horner x (bit_xor (times 8 acc x) c) rest

-- The powers of the generator 2.
pub power : ℕ → ℕ
power zero = 1
power (suc i) = times 8 (power i) 2

vanishes_at_powers : Tables → Version → Bool
vanishes_at_powers t v =
    let divisor = reed_solomon_divisor t v.ecc_per_block in
    (length divisor == v.ecc_per_block)
    && all_below (λ i. horner (power i) 0 (1 ∷ divisor) == 0) v.ecc_per_block

roots : (λ (t : Tables). forall_in (vanishes_at_powers t) qr_versions) init ≡ true
unfolding all_below init powers repeat_powers gf_mul times horner power vanishes_at_powers forall_in
    reed_solomon_divisor divisor_loop multiply_by_root
roots = refl

-- The divisor has the degree asked for, and the monic polynomial of its coefficients is zero at the
-- first powers of the generator, as many as the degree.
abbrev pub IsGenerator : Version → Type 0
IsGenerator v =
    (length (reed_solomon_divisor init v.ecc_per_block) ≡ v.ecc_per_block)
    × ((i : ℕ)
        → i < v.ecc_per_block
        → horner (power i) 0 (1 ∷ reed_solomon_divisor init v.ecc_per_block) ≡ 0)

vanishes_at_powers_sound : (v : Version) → vanishes_at_powers init v ≡ true → IsGenerator v
unfolding vanishes_at_powers
vanishes_at_powers_sound v e =
    let (size, rest) = and_split _ _ e in
    ((==_iff _ _).0 size, λ i h. (==_iff _ _).0 (all_below_sound _ v.ecc_per_block i rest h))

-- For each version of the table the divisor has as many coefficients as a block has error correction
-- codewords, n say, and the monic polynomial with these coefficients is zero at the powers 0 to n - 1
-- of 2 in GF(256): it is the generator polynomial of the Reed-Solomon code.
pub reed_solomon_divisor-IsGenerator : All IsGenerator qr_versions
reed_solomon_divisor-IsGenerator =
    forall_in-All _ IsGenerator vanishes_at_powers_sound qr_versions roots
