-- ===== src/Qr/Length.antt =====
-- How far the loops of encodeQRDataBits (services/qrcode.go) bring the bit stream.
use gig.Base.{
  ℕ, zero, suc, ◌+◌, ◌*◌, ◌%◌, ◌≤◌, Bool, false, List, [], ◌∷◌, ◌++◌, length, length-append, ltb,
  if◌then◌else◌, ◌==◌, ==_iff, Bool-cases, inl, inr, ◌≡◌, refl, sym, arith,
}
use gig.Base.Text.{Bytes}
use gig.Qr.Bits.{bits_of, append_bits, append_bytes, terminate, align, pad, header_and_payload}
use mathlib.Core.List.{append-nil, append_assoc}

-- A stream that begins with `bits`.
unfoldable pub Extends : List Bool → List Bool → Type 0
Extends longer bits = (tail : List Bool) × (longer ≡ bits ++ tail)

Extends-refl : (bits : List Bool) → Extends bits bits
unfolding Extends
Extends-refl bits = ([], sym (append-nil bits))

Extends-append :
    (longer bits more : List Bool) → Extends longer (bits ++ more) → Extends longer bits
unfolding Extends
Extends-append longer bits more (tail, e) = (more ++ tail, rw e (append_assoc bits more tail))

pub Extends-trans : (a b c : List Bool) → Extends a b → Extends b c → Extends a c
unfolding Extends
Extends-trans a b c (tail, e) (more, f) = (more ++ tail, rw (e, f) (append_assoc c more tail))

pub length-bits_of : (n v : ℕ) → length (bits_of n v) ≡ n
unfolding bits_of
length-bits_of zero v = refl
length-bits_of (suc n) v = omega (arith, length-bits_of n v)

length-append_bits : (bits : List Bool) (v n : ℕ) → length (append_bits bits v n) ≡ length bits + n
length-append_bits bits v n = omega (arith, length-append bits (bits_of n v), length-bits_of n v)

length-append_bytes :
    (bits : List Bool) (payload : Bytes)
    → length (append_bytes bits payload) ≡ length bits + 8 * length payload
unfolding append_bytes
length-append_bytes bits [] = omega arith
length-append_bytes bits (b ∷ rest) =
    omega (arith, length-append_bytes (append_bits bits b 8) rest, length-append_bits bits b 8)

pub length-header_and_payload :
    (payload : Bytes) → length (header_and_payload payload) ≡ 12 + 8 * length payload
unfolding header_and_payload
length-header_and_payload payload = omega (
  arith,
  length-append_bytes (append_bits (append_bits [] 4 4) (length payload) 8) payload,
  length-append_bits (append_bits [] 4 4) (length payload) 8,
  length-append_bits [] 4 4,
)

pub terminate-Extends :
    (rounds capacity : ℕ) (bits : List Bool)
    → length bits ≤ capacity
    → Extends (terminate rounds capacity bits) bits
      × (length (terminate rounds capacity bits) ≤ capacity)
unfolding terminate
terminate-Extends zero capacity bits h = (Extends-refl bits, h)
terminate-Extends (suc rounds) capacity bits h = elim (Bool-cases (ltb (length bits) capacity)) [
  | inl e ↦ rw e (
      let (longer, bound) =
        terminate-Extends rounds capacity (bits ++ false ∷ [])
          (grind (arith, length-append bits (false ∷ []))) in
      (Extends-append _ bits (false ∷ []) longer, bound))
  | inr e ↦ rw e (Extends-refl bits, h)
]

-- The bits are whole bytes within the capacity when the rounds reach the next multiple of eight.
pub align-Extends :
    (fuel codewords : ℕ) (bits : List Bool)
    → length bits ≤ codewords * 8
    → 8 ≤ fuel + ((length bits + 7) % 8 + 1)
    → Extends (align fuel bits) bits
      × (length (align fuel bits) ≤ codewords * 8)
      × (length (align fuel bits) % 8 ≡ 0)
unfolding align
align-Extends zero codewords bits h enough = (Extends-refl bits, h, omega arith)
align-Extends (suc fuel) codewords bits h enough = elim (Bool-cases (length bits % 8 == 0)) [
  | inl e ↦ rw e (Extends-refl bits, h, (==_iff _ _).0 e)
  | inr e ↦
      let one = length-append bits (false ∷ []) in
      let (longer, bound, whole) =
        align-Extends fuel codewords (bits ++ false ∷ []) (grind (arith, one))
          (grind (arith, one)) in
      rw e (Extends-append _ bits (false ∷ []) longer, bound, whole)
]

-- As many rounds as there are codewords fill the capacity.
pub pad-Extends :
    (fuel i codewords : ℕ) (bits : List Bool)
    → length bits ≤ codewords * 8
    → length bits % 8 ≡ 0
    → codewords * 8 ≤ length bits + fuel * 8
    → Extends (pad fuel i (codewords * 8) bits) bits
      × (length (pad fuel i (codewords * 8) bits) ≡ codewords * 8)
unfolding pad
pad-Extends zero i codewords bits h whole enough = (Extends-refl bits, omega arith)
pad-Extends (suc fuel) i codewords bits h whole enough =
    elim (Bool-cases (ltb (length bits) (codewords * 8))) [
      | inl e ↦
          let byte = if i % 2 == 0 then 0xEC else 0x11 in
          let more = length-append_bits bits byte 8 in
          let (longer, full) =
            pad-Extends fuel (i + 1) codewords (append_bits bits byte 8) (grind (arith, more))
              (omega (arith, more)) (omega (arith, more)) in
          rw e (Extends-append _ bits (bits_of 8 byte) longer, full)
      | inr e ↦ rw e (Extends-refl bits, grind arith)
    ]
