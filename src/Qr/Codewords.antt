-- ===== src/Qr/Codewords.antt =====
-- The codewords of services/qrcode.go: a block with the remainder that reedSolomonRemainder makes of it,
-- as a polynomial over GF(256).
use gig.Base.{
  ℕ, zero, suc, ◌<◌, [], ◌∷◌, ◌++◌, length, length-append, replicate, All, Bool, true, ltb, ◌≡◌,
  refl, sym, ap, ◌∙◌, arith,
}
use gig.Base.Every.{forall_in, forall_in-All}
use gig.Base.Text.{Bytes}
use gig.Base.Rows.{All-append_one}
use gig.Base.Xor.{bit_xor_self, bit_xor-zero, bit_xor_comm, bit_xor_assoc, bit_xor_swap}
use gig.Qr.Bits.{Version, version_of, qr_versions}
use gig.Qr.ReedSolomon.{
  init, gf_mul, add_multiple, remainder_step, remainder_loop, reed_solomon_remainder,
  reed_solomon_divisor, divisor_loop, multiply_by_root, powers, repeat_powers,
}
use gig.Qr.Tables.{
  times, horner, power, gf_mul-times, IsGenerator, reed_solomon_divisor-IsGenerator,
}
use gig.Qr.Field.{
  IsByte, times_one, bit_xor-IsByte, times-IsByte, times-zero, times-bit_xor, times_swap,
  horner-append, step-IsByte,
}
use gig.Qr.Grid.{get_or-All}
use gig.Qr.Reserved.{version_at}
use Prim.Native.Nat.{bit_xor}

-- The values at a point are zero, if all coefficients are.
horner-zeros : (x n : ℕ) → horner x 0 (replicate n 0) ≡ 0
unfolding horner
horner-zeros x zero = refl
horner-zeros x (suc n) =
    ap (λ y. horner x y (replicate n 0)) (bit_xor-zero (times 8 0 x) ∙ times-zero 8 x)
    ∙ horner-zeros x n

length-replicate : (n : ℕ) → length (replicate {A = ℕ} n 0) ≡ n
length-replicate zero = refl
length-replicate (suc n) = omega (arith, length-replicate n)

All-zeros : (n : ℕ) → All IsByte (replicate n 0)
All-zeros zero = tt
All-zeros (suc n) = (omega arith, All-zeros n)

add_multiple-IsByte :
    (rem divisor : Bytes) (f : ℕ)
    → All IsByte rem
    → All IsByte divisor
    → IsByte f
    → All IsByte (add_multiple init rem divisor f)
unfolding add_multiple
add_multiple-IsByte [] divisor f rems divs h = tt
add_multiple-IsByte (r ∷ rem) [] f rems divs h = rems
add_multiple-IsByte (r ∷ rem) (c ∷ divisor) f (r_byte, rems) (c_byte, divs) h = (
  rw (gf_mul-times c f c_byte h) (bit_xor-IsByte r _ r_byte (times-IsByte 8 c f c_byte)),
  add_multiple-IsByte rem divisor f rems divs h,
)

length-add_multiple :
    (rem divisor : Bytes) (f : ℕ) → length (add_multiple init rem divisor f) ≡ length rem
unfolding add_multiple
length-add_multiple [] divisor f = refl
length-add_multiple (r ∷ rem) [] f = refl
length-add_multiple (r ∷ rem) (c ∷ divisor) f = omega (arith, length-add_multiple rem divisor f)

-- The value of a sum of polynomials, one of them times a byte.
horner-add_multiple :
    (x a b : ℕ) (rem divisor : Bytes) (f : ℕ)
    → length rem ≡ length divisor
    → IsByte a
    → IsByte b
    → All IsByte rem
    → All IsByte divisor
    → IsByte f
    → horner x (bit_xor a (times 8 b f)) (add_multiple init rem divisor f)
      ≡ bit_xor (horner x a rem) (times 8 (horner x b divisor) f)
unfolding horner add_multiple
horner-add_multiple x a b [] [] f e ha hb rems divs h = refl
horner-add_multiple x a b [] (c ∷ divisor) f e ha hb rems divs h = absurd (omega (arith, e))
horner-add_multiple x a b (r ∷ rem) [] f e ha hb rems divs h = absurd (omega (arith, e))
horner-add_multiple x a b (r ∷ rem) (c ∷ divisor) f e ha hb (r_byte, rems) (c_byte, divs) h =
    let sum : bit_xor (times 8 (bit_xor a (times 8 b f)) x) (bit_xor r (gf_mul init c f))
        ≡ bit_xor (bit_xor (times 8 a x) r) (times 8 (bit_xor (times 8 b x) c) f) =
      ap (λ y. bit_xor y (bit_xor r (gf_mul init c f)))
        (times-bit_xor 8 a (times 8 b f) x ha (times-IsByte 8 b f hb))
      ∙ ap (λ y. bit_xor (bit_xor (times 8 a x) y) (bit_xor r (gf_mul init c f)))
          (times_swap 8 8 b x f hb)
      ∙ ap (λ y. bit_xor (bit_xor (times 8 a x) (times 8 (times 8 b x) f)) (bit_xor r y))
          (gf_mul-times c f c_byte h)
      ∙ bit_xor_swap (times 8 a x) (times 8 (times 8 b x) f) r (times 8 c f)
      ∙ ap (bit_xor (bit_xor (times 8 a x) r))
          (sym (times-bit_xor 8 (times 8 b x) c f (times-IsByte 8 b x hb) c_byte)) in
    ap (λ y. horner x y (add_multiple init rem divisor f)) sum
    ∙ horner-add_multiple x (bit_xor (times 8 a x) r) (bit_xor (times 8 b x) c) rem divisor f
        (omega (arith, e)) (step-IsByte x a r ha r_byte) (step-IsByte x b c hb c_byte) rems divs h

-- A divisor of bytes whose monic polynomial is zero at the point.
module _ (x : ℕ) (divisor : Bytes) (bytes : All IsByte divisor)
    (root : horner x 0 (1 ∷ divisor) ≡ 0) where
  root_one : horner x 1 divisor ≡ 0
  unfolding horner
  root_one = ap (λ y. horner x (bit_xor y 1) divisor) (sym (times-zero 8 x)) ∙ root

  factor : ℕ → ℕ → ℕ
  factor d r = bit_xor d r

  again : (d r v : ℕ) → bit_xor v d ≡ bit_xor (bit_xor v r) (bit_xor d r)
  again d r v = sym (
      ap (bit_xor (bit_xor v r)) (bit_xor_comm d r)
      ∙ bit_xor_assoc v r (bit_xor r d)
      ∙ ap (bit_xor v) (
          sym (bit_xor_assoc r r d)
          ∙ ap (λ y. bit_xor y d) (bit_xor_self r)
          ∙ bit_xor_comm 0 d
          ∙ bit_xor-zero d))

  shifted :
      (v r : ℕ) (rem : Bytes)
      → horner x v (r ∷ rem) ≡ 0
      → horner x (bit_xor (times 8 v x) r) (rem ++ 0 ∷ []) ≡ 0
  unfolding horner
  shifted v r rem e =
      horner-append x (bit_xor (times 8 v x) r) rem (0 ∷ [])
      ∙ bit_xor-zero _
      ∙ ap (λ y. times 8 y x) e
      ∙ times-zero 8 x

  -- A round keeps the value of all that is read, followed by the remainder, at zero.
  round :
      (v d : ℕ) (rem : Bytes)
      → length rem ≡ length divisor
      → 0 < length divisor
      → IsByte v
      → IsByte d
      → All IsByte rem
      → horner x v rem ≡ 0
      → horner x (bit_xor (times 8 v x) d) (remainder_step init divisor rem d) ≡ 0
  unfolding remainder_step
  round v d [] e some_left hv hd rems h = absurd (omega (arith, e))
  round v d (r ∷ rem) e some_left hv hd (r_byte, rems) h =
      let f = bit_xor d r in
      let f_byte = bit_xor-IsByte d r hd r_byte in
      let start : bit_xor (times 8 v x) d ≡ bit_xor (bit_xor (times 8 v x) r) (times 8 1 f) =
        again d r (times 8 v x)
        ∙ ap (bit_xor (bit_xor (times 8 v x) r)) (sym (times_one f f_byte)) in
      ap (λ y. horner x y (add_multiple init (rem ++ 0 ∷ []) divisor f)) start
      ∙ horner-add_multiple x (bit_xor (times 8 v x) r) 1 (rem ++ 0 ∷ []) divisor f
          (omega (arith, e, length-append rem (0 ∷ []))) (step-IsByte x v r hv r_byte) (omega arith)
          (All-append_one IsByte rem 0 rems (omega arith)) bytes f_byte
      ∙ ap (λ y. bit_xor y (times 8 (horner x 1 divisor) f)) (shifted v r rem h)
      ∙ ap (λ y. bit_xor 0 (times 8 y f)) root_one
      ∙ ap (bit_xor 0) (times-zero 8 f)

  step_bytes :
      (d : ℕ) (rem : Bytes)
      → IsByte d
      → All IsByte rem
      → All IsByte (remainder_step init divisor rem d)
  unfolding remainder_step
  step_bytes d [] hd rems =
      add_multiple-IsByte [] divisor _ tt bytes (bit_xor-IsByte d 0 hd (omega arith))
  step_bytes d (r ∷ rem) hd (r_byte, rems) =
      add_multiple-IsByte (rem ++ 0 ∷ []) divisor (bit_xor d r)
        (All-append_one IsByte rem 0 rems (omega arith)) bytes (bit_xor-IsByte d r hd r_byte)

  length-remainder_step :
      (d : ℕ) (rem : Bytes) → length (remainder_step init divisor rem d) ≡ length rem
  unfolding remainder_step
  length-remainder_step d [] = refl
  length-remainder_step d (r ∷ rem) =
      omega (
        arith,
        length-add_multiple (rem ++ 0 ∷ []) divisor (bit_xor d r),
        length-append rem (0 ∷ []),
      )

  rounds :
      (v : ℕ) (rem payload : Bytes)
      → length rem ≡ length divisor
      → 0 < length divisor
      → IsByte v
      → All IsByte rem
      → All IsByte payload
      → horner x v rem ≡ 0
      → horner x (horner x v payload) (remainder_loop init divisor rem payload) ≡ 0
  unfolding remainder_loop horner
  rounds v rem [] e left hv rems payloads h = h
  rounds v rem (d ∷ rest) e left hv rems (d_byte, payloads) h =
      rounds (bit_xor (times 8 v x) d) (remainder_step init divisor rem d) rest
        (length-remainder_step d rem ∙ e) left (step-IsByte x v d hv d_byte)
        (step_bytes d rem d_byte rems) payloads (round v d rem e left hv d_byte rems h)

  length-remainder_loop :
      (rem payload : Bytes) → length (remainder_loop init divisor rem payload) ≡ length rem
  unfolding remainder_loop
  length-remainder_loop rem [] = refl
  length-remainder_loop rem (d ∷ rest) =
      length-remainder_loop (remainder_step init divisor rem d) rest ∙ length-remainder_step d rem

  codeword_zero :
      (payload : Bytes)
      → 0 < length divisor
      → All IsByte payload
      → horner x 0 (payload ++ reed_solomon_remainder init payload divisor) ≡ 0
  unfolding reed_solomon_remainder
  codeword_zero payload left payloads =
      horner-append x 0 payload _
      ∙ rounds 0 (replicate (length divisor) 0) payload (length-replicate (length divisor)) left
          (omega arith) (All-zeros (length divisor)) payloads (horner-zeros x (length divisor))

divisor_bytes : Version → Bool
divisor_bytes v = forall_in (λ c. ltb c 256) (reed_solomon_divisor init v.ecc_per_block)

all_bytes : forall_in divisor_bytes qr_versions ≡ true
unfolding divisor_bytes forall_in reed_solomon_divisor divisor_loop multiply_by_root init powers
    repeat_powers gf_mul
all_bytes = refl

abbrev HasBytes : Version → Type 0
HasBytes v = All IsByte (reed_solomon_divisor init v.ecc_per_block)

each_bytes : All HasBytes qr_versions
unfolding divisor_bytes
each_bytes =
    forall_in-All divisor_bytes HasBytes
      (λ v. forall_in-All (λ c. ltb c 256) IsByte (λ c e. ground (arith, e)) _) qr_versions
      all_bytes

-- For the version of each of the six rows of the table and a block of bytes of any length: the block,
-- followed by the remainder that is made of it with the version's divisor, is zero, as a polynomial over
-- GF(256) with its coefficients from the highest on, at the powers of 2 from 0 on, as many as a block has
-- error correction codewords. The remainder has that many codewords. These values are the syndromes
-- that a reader computes.
pub reed_solomon_remainder_vanishes :
    (k i : ℕ) (payload : Bytes)
    → k < 6
    → i < (version_at k).ecc_per_block
    → All IsByte payload
    → let rem =
        reed_solomon_remainder init payload
          (reed_solomon_divisor init (version_at k).ecc_per_block) in
      (length rem ≡ (version_at k).ecc_per_block) × (horner (power i) 0 (payload ++ rem) ≡ 0)
unfolding reed_solomon_remainder
reed_solomon_remainder_vanishes k i payload hk hi payloads =
    let divisor = reed_solomon_divisor init (version_at k).ecc_per_block in
    let bytes = get_or-All (version_of 1 19 1 7) HasBytes qr_versions k each_bytes hk in
    let (size, roots) =
      get_or-All (version_of 1 19 1 7) IsGenerator qr_versions k reed_solomon_divisor-IsGenerator
        hk in
    (
      length-remainder_loop (power i) divisor bytes (roots i hi) (replicate (length divisor) 0)
            payload
          ∙ length-replicate (length divisor)
          ∙ size,
      codeword_zero (power i) divisor bytes (roots i hi) payload (omega (arith, size)) payloads,
    )
