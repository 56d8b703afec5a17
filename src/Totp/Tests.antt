-- ===== src/Totp/Tests.antt =====
-- services/totp.go with a keyed function in the place of HMAC-SHA1 and no encoding of the secret.
use gig.Base.{true, Option, some, [], ◌∷◌, ◌++◌, map, ◌≡◌, refl, ◌↔◌}
use gig.Base.Int.{pos}
use gig.Base.Text.{Bytes, trim_space}
use gig.Base.Result.{ok}
use gig.Totp.{without_blanks, decode_totp_secret, verify_totp, clamp_skew}
use gig.Totp.Accepts.{IsRecent, verify_totp_iff}

abbrev keyed : Bytes → Bytes → Bytes
keyed key message = message ++ key

abbrev plain : Bytes → Option Bytes
plain s = some s

abbrev secret : Bytes
secret = 74 ∷ 66 ∷ []

abbrev entered : Bytes
entered = 49 ∷ 50 ∷ 51 ∷ 32 ∷ 52 ∷ 53 ∷ 54 ∷ []

secret-decodes : decode_totp_secret keyed plain secret ≡ ok secret
unfolding decode_totp_secret without_blanks trim_space map
secret-decodes = refl

verify_totp_iff_example :
    (verify_totp keyed plain secret entered (pos 1) 1700000000 ≡ ok true)
    ↔ IsRecent keyed plain (clamp_skew (pos 1)) secret entered 1700000000
verify_totp_iff_example =
    verify_totp_iff keyed plain secret secret entered (pos 1) 1700000000 secret-decodes
