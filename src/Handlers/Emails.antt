-- ===== src/Handlers/Emails.antt =====
-- emailPattern of handlers/auth.go, on the bytes of a text.
use gig.Base.{ℕ, Bool, true, false, not, ◌&&◌, ◌||◌, [], ◌∷◌, leb, ◌==◌, if◌then◌else◌}
use gig.Base.Text.{Bytes, is_empty}

-- `\s`
abbrev pub is_blank : ℕ → Bool
is_blank b = b == 32 || ((leb 9 b && leb b 10) || (leb 12 b && leb b 13))

-- `[^@\s]`
abbrev pub is_email_byte : ℕ → Bool
is_email_byte b = not (b == b'@' || is_blank b)

-- `[^@\s]*$`
abbrev pub ends_email : Bytes → Bool
ends_email [] = true
ends_email (b ∷ s) = is_email_byte b && ends_email s

-- `[^@\s]*\.[^@\s]+$`
abbrev pub has_dotted_end : Bytes → Bool
has_dotted_end [] = false
has_dotted_end (b ∷ s) =
    let later = has_dotted_end s in
    (b == b'.' && (not (is_empty s) && ends_email s)) || (is_email_byte b && later)

-- `[^@\s]+\.[^@\s]+$`
abbrev pub is_domain : Bytes → Bool
is_domain [] = false
is_domain (b ∷ s) = is_email_byte b && has_dotted_end s

-- `[^@\s]*@[^@\s]+\.[^@\s]+$`
abbrev pub has_domain : Bytes → Bool
has_domain [] = false
has_domain (b ∷ s) =
    let later = has_domain s in if b == b'@' then is_domain s else is_email_byte b && later

-- emailPattern
unfoldable pub email_pattern : Bytes → Bool
email_pattern [] = false
email_pattern (b ∷ s) = is_email_byte b && has_domain s
