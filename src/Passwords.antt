-- ===== src/Passwords.antt =====
-- services/passwords.go: the policy for new passwords, and argon2id hashes in the PHC string format.
-- argon2, base64 and the scanning of the numbers are a library's.
use gig.Base.{
  ℕ, Bool, not, List, [], ◌∷◌, ◌++◌, length, Option, none, some, ltb, ◌==◌, if◌then◌else◌,
}
use gig.Base.Text.{Bytes, bytes_eq, codes}
use gig.Base.Result.{Result, ok, err, ◌>>=◌, ◌>>◌, fail_if}

pub record PasswordLibrary : Type 0 where
  -- argon2.IDKey: password, salt, time, memory, threads and the length of the key.
  pub argon2_key : Bytes → Bytes → ℕ → ℕ → ℕ → ℕ → Bytes
  -- base64.RawStdEncoding
  pub base64_encode : Bytes → Bytes
  pub base64_decode : Bytes → Option Bytes
  -- fmt.Sscanf with "v=%d" and with "m=%d,t=%d,p=%d"
  pub scan_version : Bytes → Option ℕ
  pub scan_parameters : Bytes → Option (ℕ × ℕ × ℕ)

pub data PasswordError : Type 0 where
  password_too_short password_too_long invalid_hash unsupported_version : PasswordError

abbrev pub min_password_len : ℕ
min_password_len = 10

-- ValidatePassword
unfoldable pub validate_password : Bytes → Result PasswordError (Unit {0})
validate_password password = do
  fail_if (ltb (length password) min_password_len) password_too_short
  fail_if (ltb 128 (length password)) password_too_long
  ok tt

abbrev pub dollar : ℕ
dollar = b'$'

-- strings.Split(s, "$"), the part so far in front.
unfoldable pub split_dollars : Bytes → Bytes → List Bytes
split_dollars part [] = part ∷ []
split_dollars part (b ∷ s) =
    let cut = split_dollars [] s in
    let on = split_dollars (part ++ b ∷ []) s in if b == dollar then part ∷ cut else on

abbrev pub scanned : {A : Type 0} → Option A → Result PasswordError A
scanned none = err invalid_hash
scanned (some a) = ok a

module _ (lib : PasswordLibrary) where
  -- HashPassword, with the salt that was read.
  unfoldable pub hash_password : Bytes → Bytes → Bytes
  hash_password salt password =
      codes "$argon2id$v=19$m=65536,t=1,p=4$"
      ++ (lib.base64_encode salt
          ++ (dollar ∷ lib.base64_encode (lib.argon2_key password salt 1 65536 4 32)))

  abbrev pub verify_key : Bytes → Bytes → Bytes → Bytes → Bytes → Result PasswordError Bool
  verify_key password version parameters salt key = do
    v ← scanned (lib.scan_version version)
    (memory, time, threads) ← scanned (lib.scan_parameters parameters)
    fail_if (not (v == 19)) unsupported_version
    salt_bytes ← scanned (lib.base64_decode salt)
    expected ← scanned (lib.base64_decode key)
    ok (
        bytes_eq (lib.argon2_key password salt_bytes time memory threads (length expected))
          expected)

  -- `if len(parts) != 6 || parts[1] != "argon2id"`
  abbrev pub verify_parts : Bytes → List Bytes → Result PasswordError Bool
  verify_parts password (start ∷ name ∷ version ∷ parameters ∷ salt ∷ key ∷ []) =
      if bytes_eq name (codes "argon2id")
      then verify_key password version parameters salt key
      else err invalid_hash
  verify_parts password _ = err invalid_hash

  -- VerifyPassword
  unfoldable pub verify_password : Bytes → Bytes → Result PasswordError Bool
  unfolding split_dollars bytes_eq
  verify_password password encoded = verify_parts password (split_dollars [] encoded)
