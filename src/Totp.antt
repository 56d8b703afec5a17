-- ===== src/Totp.antt =====
-- services/totp.go: the one-time codes of the second factor. A time is a number of seconds since 1970,
-- at least 150, so that the windows that are looked at lie after 1970. HMAC-SHA1 and the decoding of
-- base32 are parameters.
mod Accepts
mod Tests
use gig.Base.{
  ℕ, zero, suc, ◌+◌, ◌-◌, ◌*◌, ◌/◌, ◌%◌, ◌^◌, Bool, true, false, ◌&&◌, List, [], ◌∷◌, ◌++◌, length,
  get_or, Option, none, some, ltb, leb, ◌==◌, if◌then◌else◌, map,
}
use gig.Base.Int.{ℤ, pos, negsuc}
use gig.Base.Text.{Bytes, bytes_eq, trim_space, is_empty}
use gig.Base.Result.{Result, ok, err, ◌>>=◌}
use Prim.Native.Nat.{bit_and, bit_or}

pub data TotpError : Type 0 where
  secret_empty secret_undecodable : TotpError

-- strings.ReplaceAll(s, " ", "")
unfoldable pub without_blanks : Bytes → Bytes
without_blanks [] = []
without_blanks (c ∷ s) = let rest = without_blanks s in if c == 32 then rest else c ∷ rest

-- strings.ToUpper on an ASCII text.
abbrev pub to_upper_byte : ℕ → ℕ
to_upper_byte c = if leb b'a' c && leb c b'z' then c - 32 else c

-- normalizeCode
unfoldable pub normalize_code : Bytes → Bytes
unfolding without_blanks trim_space
normalize_code code = trim_space (without_blanks code)

-- binary.BigEndian.PutUint64, `n` bytes to go.
unfoldable pub big_endian : ℕ → ℕ → Bytes
big_endian zero v = []
big_endian (suc n) v = v / 256 ^ n % 256 ∷ big_endian n v

-- `fmt.Sprintf("%06d", code)` for a code below 1000000.
abbrev pub six_digits : ℕ → Bytes
six_digits code =
    let digit : ℕ → ℕ = λ place. b'0' + code / 10 ^ place % 10 in
    digit 5 ∷ digit 4 ∷ digit 3 ∷ digit 2 ∷ digit 1 ∷ digit 0 ∷ []

-- The four bytes from the offset on, without the sign bit.
unfoldable pub truncated : Bytes → ℕ
truncated sum =
    let offset = bit_and (get_or 0 sum (length sum - 1)) 0x0f in
    bit_or
      (bit_or
        (bit_or (bit_and (get_or 0 sum offset) 0x7f * 2 ^ 24) (get_or 0 sum (offset + 1) * 2 ^ 16))
        (get_or 0 sum (offset + 2) * 2 ^ 8))
      (get_or 0 sum (offset + 3))

-- `if skew < 0 { skew = 0 }; if skew > 5 { skew = 5 }`
abbrev pub clamp_skew : ℤ → ℕ
clamp_skew (pos n) = if ltb 5 n then 5 else n
clamp_skew (negsuc n) = 0

abbrev pub decoded : Option Bytes → Result TotpError Bytes
decoded none = err secret_undecodable
decoded (some key) = ok key

module _ (hmac : Bytes → Bytes → Bytes) (base32_decode : Bytes → Option Bytes) where
  -- decodeTOTPSecret
  unfoldable pub decode_totp_secret : Bytes → Result TotpError Bytes
  unfolding without_blanks trim_space map
  decode_totp_secret secret =
      let s = without_blanks (map to_upper_byte (trim_space secret)) in
      if is_empty s then err secret_empty else decoded (base32_decode s)

  abbrev pub code_of : Bytes → ℕ → Bytes
  code_of key now = six_digits (truncated (hmac key (big_endian 8 (now / 30))) % 1000000)

  -- TOTPCode
  unfoldable pub totp_code : Bytes → ℕ → Result TotpError Bytes
  unfolding decode_totp_secret truncated big_endian
  totp_code secret now = decode_totp_secret secret >>= λ key. ok (code_of key now)

  -- `for i := 1; i <= skew; i++`, with `rounds` to go.
  unfoldable pub verify_loop : ℕ → ℕ → Bytes → Bytes → ℕ → Result TotpError Bool
  unfolding totp_code normalize_code
  verify_loop zero i secret code now = ok false
  verify_loop (suc rounds) i secret code now =
      let rest = verify_loop rounds (i + 1) secret code now in
      totp_code secret (now - i * 30) >>= λ before.
      if bytes_eq (normalize_code code) before then ok true else rest

  -- VerifyTOTP at the time `now`.
  unfoldable pub verify_totp : Bytes → Bytes → ℤ → ℕ → Result TotpError Bool
  unfolding totp_code normalize_code verify_loop
  verify_totp secret code skew now = totp_code secret now >>= λ expected.
      if bytes_eq (normalize_code code) expected
      then ok true
      else verify_loop (clamp_skew skew) 1 secret code now
