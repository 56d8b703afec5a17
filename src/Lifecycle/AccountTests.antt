-- ===== src/Lifecycle/AccountTests.antt =====
-- Accounts at small inputs, with stand-ins for the libraries.
use gig.Base.{ℕ, Bool, true, false, none, some, List, [], ◌∷◌, ◌++◌, ◌≡◌, refl, arith, map}
use gig.Base.Int.{pos}
use gig.Base.Text.{Bytes, codes}
use gig.Base.Result.{ok}
use gig.Passwords.{PasswordLibrary, verify_password}
use gig.Db.{Db, User, user_active, Session}
use gig.Handlers.Session.{Crypto, AccountSettings, WebRequest, with_csrf, ensure_session, flash}
use gig.Handlers.Auth.{login}
use gig.Store.Users.{get_user_by_email, normalize_email, login_blocked, set_last_login}
use gig.Store.Sessions.{get_session_by_token, rotate_session, set_flash}
use gig.Store.Orders.{write_audit}
use gig.Handlers.Checkout.{read_time}
use gig.Accounts.{AccountRequest, logs_in, forgets_password, verifies_email, serve_requests}
use gig.Accounts.Sessions.{IsSignedOut}
use gig.Accounts.SignedOut.{NeverPasses, serve_requests-IsSignedOut}
use gig.Lifecycle.Tests.{empty_shop}

abbrev toy_passwords : PasswordLibrary
toy_passwords = record {
  argon2_key = λ password salt time memory threads n. password ++ salt;
  base64_encode = λ s. s;
  base64_decode = λ s. some s;
  scan_version = λ s. some 19;
  scan_parameters = λ s. some (65536, 1, 4);
}

abbrev pub toy : Crypto
toy = record {
  sha256_hex = λ s. s;
  passwords = toy_passwords;
  hmac = λ key message. [];
  base32_decode = λ s. some s;
}

abbrev pub settings : AccountSettings
settings = record {
  session_ttl = 86400;
  auth_token_ttl = 86400;
  max_login_attempts = 5;
  login_lockout = 900;
  totp_skew = pos 1;
  wallet_change_cooldown = 172800;
}

abbrev pub alice : User
alice = record {
  id = 7;
  email = codes "Alice@example.com";
  email_lower = codes "alice@example.com";
  password_hash = codes "$argon2id$v=19$m=65536,t=1,p=4$salt$correct horsesalt";
  name = codes "Alice";
  locale = codes "en";
  status = user_active;
  email_verified_at = none;
  totp_secret = none;
  totp_enabled_at = none;
  failed_login_attempts = 0;
  locked_until = none;
  last_login_at = none;
  restriction_reason = [];
  created_at = 10;
  updated_at = 10;
}

abbrev pub anonymous : Session
anonymous = record {
  id = 9;
  user_id = none;
  token_hash = codes "cookie";
  csrf_token = codes "csrf";
  expires_at = 5000;
  flash = none;
  revoked_at = none;
  last_seen_at = 100;
  created_at = 100;
}

abbrev pub site : Db
site = record empty_shop { users = alice ∷ []; sessions = anonymous ∷ []; next_id = 20 }

abbrev pub browser : WebRequest
browser = record {
  cookie = some (codes "cookie");
  csrf = codes "csrf";
  is_rate_limited = false;
  anonymous_tokens = none;
  rotated_tokens = some (codes "fresh", codes "fresh csrf");
  mailed_token = some (codes "mailed");
  salt = some (codes "salt");
}

abbrev login_with : Bytes → AccountRequest
login_with password =
    logs_in
      (some record { email = codes " alice@EXAMPLE.com"; password = password; totp_code = [] })

verified : verify_password toy_passwords (codes "correct horse") alice.password_hash ≡ ok true
unfolding verify_password
verified = refl

-- The right password opens a session for the user and closes the one before.
abbrev after_login : Db
after_login =
    serve_requests toy settings none ((200, [], browser, login_with (codes "correct horse")) ∷ [])
      site

signed_in :
    (map (λ (s : Session). s.user_id) after_login.sessions ≡ none ∷ some 7 ∷ [])
    × (map (λ (s : Session). s.revoked_at) after_login.sessions ≡ some 200 ∷ none ∷ [])
unfolding serve_requests map get_session_by_token with_csrf login ensure_session get_user_by_email
    read_time set_last_login rotate_session flash set_flash write_audit
signed_in = (refl, refl)

abbrev guesses : List (ℕ × List Bool × WebRequest × AccountRequest)
guesses =
    (200, [], browser, login_with (codes "wrong horse"))
    ∷ (300, [], browser, forgets_password (some (codes "alice@example.com")))
    ∷ (400, [], browser, verifies_email (codes "mailed"))
    ∷ []

guesses_fail : NeverPasses 7 toy settings none guesses site
unfolding verify_password normalize_email login_blocked
guesses_fail = (refl, (tt, (tt, tt)))

serve_requests-IsSignedOut_example : IsSignedOut 7 (serve_requests toy settings none guesses site)
serve_requests-IsSignedOut_example =
    serve_requests-IsSignedOut 7 toy settings none guesses site guesses_fail
      ((refl, tt), omega arith)
