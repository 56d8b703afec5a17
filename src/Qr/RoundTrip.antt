-- ===== src/Qr/RoundTrip.antt =====
-- The bit stream of services/qrcode.go, read back by a decoder of the byte mode, and its length.
use gig.Base.{
  ℕ, zero, suc, ◌+◌, ◌*◌, ◌/◌, ◌%◌, ◌^◌, ◌≤◌, ◌<◌, Bool, not, List, [], ◌∷◌, ◌++◌, length, All,
  ◌==◌, if◌then◌else◌, Option, none, some, ◌≡◌, refl, ap, arith,
}
use gig.Base.Text.{Bytes}
use mathlib.Core.List.{append-nil, append_assoc}
use native.Mathlib.Nat.{div-add-mod, div-div-eq-div-mul, pow-suc, mul-add, mul_assoc, mul_comm}
use gig.Base.Result.{ok}
use gig.Qr.Choice.{choose_qr_version-Holds}
use gig.Qr.Length.{
  Extends, Extends-trans, length-header_and_payload, terminate-Extends, align-Extends, pad-Extends,
}
use gig.Qr.Bytes.{bytes_to_bits-bits_to_bytes, length-bits_to_bytes}
use gig.Qr.Bits.{bits_to_bytes, choose_qr_version}
use gig.Qr.Bits.{
  Version, bits_of, append_bits, append_bytes, terminate, align, header_and_payload,
  encode_qr_data_bits, bytes_to_bits,
}

infixl 5 ◌>>=◌
abbrev ◌>>=◌ : {A B : Type 0} → Option A → (A → Option B) → Option B
none >>= f = none
some a >>= f = f a

-- A number of `n` bits, the highest first, and the bits behind it.
unfoldable pub take_bits : ℕ → ℕ → List Bool → Option (ℕ × List Bool)
take_bits zero acc bits = some (acc, bits)
take_bits (suc n) acc [] = none
take_bits (suc n) acc (b ∷ bits) = take_bits n (acc * 2 + (if b then 1 else 0)) bits

bit_value : (n : ℕ) → (if not (n % 2 == 0) then 1 else 0) ≡ n % 2
bit_value n = ground arith

mod_parts :
    (p q a r m v m2 : ℕ) → p * 2 * a + m2 ≡ v → p * q + m ≡ v → 2 * a + r ≡ q → m2 ≡ r * p + m
mod_parts p q a r m v m2 whole half parity =
    omega (arith, ap (λ x. p * x) parity, mul-add p (2 * a) r, mul_assoc p 2 a, mul_comm p r)

mod_double : (p v : ℕ) → v % (p * 2) ≡ v / p % 2 * p + v % p
mod_double p v =
    mod_parts p (v / p) (v / p / 2) _ _ v _ (rw (div-div-eq-div-mul v p 2) (div-add-mod v (p * 2)))
      (div-add-mod v p) (div-add-mod (v / p) 2)

take_bits-bits_of :
    (n acc v : ℕ) (rest : List Bool)
    → take_bits n acc (bits_of n v ++ rest) ≡ some (acc * 2 ^ n + v % 2 ^ n, rest)
unfolding take_bits bits_of
take_bits-bits_of zero acc v rest = grind arith
take_bits-bits_of (suc n) acc v rest =
    rw (bit_value (v / 2 ^ n), take_bits-bits_of n (acc * 2 + v / 2 ^ n % 2) v rest)
      (grind (arith, pow-suc 2 n, mod_double (2 ^ n) v))

-- `n` bytes.
unfoldable pub take_bytes : ℕ → List Bool → Option Bytes
take_bytes zero bits = some []
take_bytes (suc n) bits = do
  (b, more) ← take_bits 8 0 bits
  rest ← take_bytes n more
  some (b ∷ rest)

-- A reader of the byte mode: the mode 4, a length of eight bits, the bytes; what follows is padding.
unfoldable pub read_payload : List Bool → Option Bytes
read_payload bits = do
  (mode, rest) ← take_bits 4 0 bits
  (n, body) ← take_bits 8 0 rest
  if mode == 4 then take_bytes n body else none

append_bytes-append :
    (bits : List Bool) (payload : Bytes) → append_bytes bits payload ≡ bits ++ bytes_to_bits payload
unfolding append_bytes bytes_to_bits
append_bytes-append bits [] = simp append-nil
append_bytes-append bits (b ∷ rest) =
    rw (append_bytes-append (bits ++ bits_of 8 b) rest)
      (append_assoc bits (bits_of 8 b) (bytes_to_bits rest))

take_bits-byte :
    (b : ℕ) (more : List Bool) → b < 256 → take_bits 8 0 (bits_of 8 b ++ more) ≡ some (b, more)
take_bits-byte b more byte = rw (take_bits-bits_of 8 0 b more) (grind arith)

take_bytes-bytes_to_bits :
    (payload : Bytes) (tail : List Bool)
    → All (λ b. b < 256) payload
    → take_bytes (length payload) (bytes_to_bits payload ++ tail) ≡ some payload
unfolding take_bytes bytes_to_bits
take_bytes-bytes_to_bits [] tail bytes = refl
take_bytes-bytes_to_bits (b ∷ rest) tail (byte, bytes) =
    rw
      (
        append_assoc (bits_of 8 b) (bytes_to_bits rest) tail,
        take_bits-byte b (bytes_to_bits rest ++ tail) byte,
        take_bytes-bytes_to_bits rest tail bytes,
      )
      refl

read_payload-append :
    (payload : Bytes) (tail : List Bool)
    → All (λ b. b < 256) payload
    → length payload < 256
    → read_payload (header_and_payload payload ++ tail) ≡ some payload
unfolding read_payload header_and_payload
read_payload-append payload tail bytes short =
    rw
      (
        append_bytes-append (append_bits (append_bits [] 4 4) (length payload) 8) payload,
        append_assoc (bits_of 4 4 ++ bits_of 8 (length payload)) (bytes_to_bits payload) tail,
        append_assoc (bits_of 4 4) (bits_of 8 (length payload)) (bytes_to_bits payload ++ tail),
        take_bits-bits_of 4 0 4 (bits_of 8 (length payload) ++ (bytes_to_bits payload ++ tail)),
        take_bits-byte (length payload) (bytes_to_bits payload ++ tail) short,
        take_bytes-bytes_to_bits payload tail bytes,
      )
      refl

encode_qr_data_bits-Extends :
    (payload : Bytes) (v : Version)
    → 12 + length payload * 8 ≤ v.total_data_codewords * 8
    → Extends (encode_qr_data_bits payload v) (header_and_payload payload)
      × (length (encode_qr_data_bits payload v) ≡ v.total_data_codewords * 8)
unfolding encode_qr_data_bits
encode_qr_data_bits-Extends payload v h =
    let start = header_and_payload payload in
    let words = v.total_data_codewords in
    let (ends, within) =
      terminate-Extends 4 (words * 8) start (omega (arith, length-header_and_payload payload)) in
    let (aligned, below, whole) =
      align-Extends 8 words (terminate 4 (words * 8) start) within (omega arith) in
    let (padded, full) =
      pad-Extends words 0 words (align 8 (terminate 4 (words * 8) start)) below whole
        (omega arith) in
    (Extends-trans _ _ _ padded (Extends-trans _ _ _ aligned ends), full)

-- For a payload of bytes and the version that is chosen for it, the codewords are as many as the
-- version has, and the reader of the byte mode gets the payload back from their bits.
pub read_payload-encode_qr_data_bits :
    (payload : Bytes) (v : Version)
    → All (λ b. b < 256) payload
    → choose_qr_version (length payload) ≡ ok v
    → let codewords = bits_to_bytes (encode_qr_data_bits payload v) in
      (length codewords ≡ v.total_data_codewords)
      × (read_payload (bytes_to_bits codewords) ≡ some payload)
unfolding Extends
read_payload-encode_qr_data_bits payload v bytes chosen =
    let (holds, short) = choose_qr_version-Holds (length payload) v chosen in
    let ((tail, e), full) = encode_qr_data_bits-Extends payload v holds in
    (
      length-bits_to_bytes v.total_data_codewords _ full,
      rw (bytes_to_bits-bits_to_bytes v.total_data_codewords _ full, e)
          (read_payload-append payload tail bytes (omega arith)),
    )
