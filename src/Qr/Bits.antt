-- ===== src/Qr/Bits.antt =====
-- The bit stream of services/qrcode.go: chooseQRVersion, encodeQRDataBits, bitsToBytes, bytesToBits.
-- A byte is a number below 256, a bit is a Boolean; `val>>i&1` is `val / 2 ^ i % 2`.
use gig.Base.{
  ℕ, zero, suc, ◌+◌, ◌*◌, ◌/◌, ◌%◌, ◌^◌, Bool, false, not, List, [], ◌∷◌, ◌++◌, length, ltb, leb,
  ◌==◌, if◌then◌else◌,
}
use gig.Base.Text.{Bytes}
use gig.Base.Result.{Result, ok, err}

-- qrVersionInfo
pub record Version : Type 0 where
  pub version : ℕ
  pub total_data_codewords : ℕ
  pub num_blocks : ℕ
  pub ecc_per_block : ℕ

abbrev pub version_of : ℕ → ℕ → ℕ → ℕ → Version
version_of v total blocks ecc = record {
  version = v;
  total_data_codewords = total;
  num_blocks = blocks;
  ecc_per_block = ecc;
}

abbrev pub qr_versions : List Version
qr_versions =
    version_of 1 19 1 7
    ∷ version_of 2 34 1 10
    ∷ version_of 3 55 1 15
    ∷ version_of 4 80 1 20
    ∷ version_of 5 108 1 26
    ∷ version_of 6 136 2 18
    ∷ []

pub data QrError : Type 0 where
  payload_too_large : QrError

-- `headerBits+dataLen*8 <= v.totalDataCodewords*8`
abbrev pub fits : ℕ → Version → Bool
fits data_len v = leb (4 + 8 + data_len * 8) (v.total_data_codewords * 8)

unfoldable pub first_fitting : ℕ → List Version → Result QrError Version
first_fitting data_len [] = err payload_too_large
first_fitting data_len (v ∷ vs) = if fits data_len v then ok v else first_fitting data_len vs

unfoldable pub choose_qr_version : ℕ → Result QrError Version
unfolding first_fitting
choose_qr_version data_len = first_fitting data_len qr_versions

-- The `n` low bits of a value, from the highest.
unfoldable pub bits_of : ℕ → ℕ → List Bool
bits_of zero val = []
bits_of (suc i) val = not (val / 2 ^ i % 2 == 0) ∷ bits_of i val

abbrev pub append_bits : List Bool → ℕ → ℕ → List Bool
append_bits bits val n = bits ++ bits_of n val

-- `for _, b := range data { appendBits(uint32(b), 8) }`
unfoldable pub append_bytes : List Bool → Bytes → List Bool
append_bytes bits [] = bits
append_bytes bits (b ∷ rest) = append_bytes (append_bits bits b 8) rest

-- `for i := 0; i < 4 && len(bits) < capacityBits; i++`, with `rounds` to go.
unfoldable pub terminate : ℕ → ℕ → List Bool → List Bool
terminate zero capacity bits = bits
terminate (suc rounds) capacity bits =
    let more = terminate rounds capacity (bits ++ false ∷ []) in
    if ltb (length bits) capacity then more else bits

-- `for len(bits)%8 != 0`
unfoldable pub align : ℕ → List Bool → List Bool
align zero bits = bits
align (suc fuel) bits =
    let more = align fuel (bits ++ false ∷ []) in if length bits % 8 == 0 then bits else more

abbrev pad_byte : ℕ → ℕ
pad_byte i = if i % 2 == 0 then 0xEC else 0x11

-- `for i := 0; len(bits) < capacityBits; i++`
unfoldable pub pad : ℕ → ℕ → ℕ → List Bool → List Bool
pad zero i capacity bits = bits
pad (suc fuel) i capacity bits =
    let more = pad fuel (i + 1) capacity (append_bits bits (pad_byte i) 8) in
    if ltb (length bits) capacity then more else bits

-- The mode, the length and the payload.
unfoldable pub header_and_payload : Bytes → List Bool
unfolding append_bytes
header_and_payload payload =
    append_bytes (append_bits (append_bits [] 4 4) (length payload) 8) payload

-- Eight rounds align the stream, and as many as the version has codewords fill it.
unfoldable pub encode_qr_data_bits : Bytes → Version → List Bool
unfolding header_and_payload terminate align pad
encode_qr_data_bits payload ver =
    let capacity = ver.total_data_codewords * 8 in
    pad ver.total_data_codewords 0 capacity
      (align 8 (terminate 4 capacity (header_and_payload payload)))

-- `b <<= 1; if bit { b |= 1 }`: the low bit is clear after the shift.
abbrev pub shift_in : ℕ → Bool → ℕ
shift_in b bit = b * 2 % 256 + (if bit then 1 else 0)

-- A byte from eight bits, the highest first.
abbrev pub byte_of : Bool → Bool → Bool → Bool → Bool → Bool → Bool → Bool → ℕ
byte_of a b c d e f g h =
    shift_in
      (shift_in (shift_in (shift_in (shift_in (shift_in (shift_in (shift_in 0 a) b) c) d) e) f) g) h

-- The bits that are left over at the end, fewer than eight, are dropped.
unfoldable pub bits_to_bytes : List Bool → Bytes
bits_to_bytes (a ∷ b ∷ c ∷ d ∷ e ∷ f ∷ g ∷ h ∷ rest) = byte_of a b c d e f g h ∷ bits_to_bytes rest
bits_to_bytes _ = []

unfoldable pub bytes_to_bits : Bytes → List Bool
unfolding bits_of
bytes_to_bits [] = []
bytes_to_bits (b ∷ rest) = bits_of 8 b ++ bytes_to_bits rest
