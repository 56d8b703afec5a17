-- ===== src/Handlers/Session.antt =====
-- handlers/session.go and handlers/middleware.go: who makes a request. SHA-256 and what Passwords and
-- Totp take are a library's; random tokens and salts, and the answer of the limiter (Limits), come
-- with the request.
use gig.Base.{ℕ, Bool, false, ◌||◌, Option, none, some, if◌then◌else◌}
use gig.Base.Int.{ℤ}
use gig.Base.Text.{Bytes, bytes_eq, is_empty}
use gig.Passwords.{PasswordLibrary}
use gig.Db.{
  StoreError, failed, Action, ◌>>=◌, ◌>>◌, pure, raise, guard, branch, ignore, Session, User, Role,
  FlashKind, TokenKind,
}
use gig.Store.Sessions.{
  create_session, get_session_by_token, rotate_session, set_flash, new_session, create_auth_token,
}
use gig.Store.Users.{get_user_by_id}
use gig.Store.Orders.{user_has_role}
use gig.Handlers.Response.{Handler, forbidden, server_error, login_required, or_render, or_answer}
use gig.Handlers.Checkout.{read_time}

pub record Crypto : Type 0 where
  -- sha256.Sum256, written in hexadecimal digits.
  pub sha256_hex : Bytes → Bytes
  pub passwords : PasswordLibrary
  pub hmac : Bytes → Bytes → Bytes
  pub base32_decode : Bytes → Option Bytes

-- Of config.Config, what accounts and wallets need. Durations are numbers of seconds.
pub record AccountSettings : Type 0 where
  pub session_ttl : ℕ
  pub auth_token_ttl : ℕ
  pub max_login_attempts : ℕ
  pub login_lockout : ℕ
  pub totp_skew : ℤ
  pub wallet_change_cooldown : ℕ

-- A pair is a session token and a CSRF token; `none` stands for a generator that failed.
pub record WebRequest : Type 0 where
  pub cookie : Option Bytes
  pub csrf : Bytes
  pub is_rate_limited : Bool
  pub anonymous_tokens : Option (Bytes × Bytes)
  pub rotated_tokens : Option (Bytes × Bytes)
  pub mailed_token : Option Bytes
  pub salt : Option Bytes

-- The request with the session and the user of its context.
pub record Visitor : Type 0 where
  pub request : WebRequest
  pub session : Option Session
  pub user : Option User

abbrev pub visitor : WebRequest → Option Session → Option User → Visitor
visitor r s u = record { request = r; session = s; user = u }

-- VerifyCSRF of services/csrf.go
unfoldable pub verify_csrf : Bytes → Bytes → Bool
unfolding bytes_eq
verify_csrf submitted stored =
    if is_empty submitted || is_empty stored then false else bytes_eq submitted stored

-- `sess.UserID`, and the user that it names.
unfoldable pub with_user : WebRequest → Session → Option ℕ → Handler Visitor
unfolding pure
with_user r s none = pure (visitor r (some s) none)
with_user r s (some i) =
    branch (get_user_by_id i) (λ u. pure (visitor r (some s) (some u)))
      (λ _. pure (visitor r (some s) none))

-- withCSRF, for a request that changes state.
unfoldable pub with_csrf : Visitor → Option Session → Handler (Unit {0})
unfolding verify_csrf pure raise guard
with_csrf v none = raise forbidden
with_csrf v (some s) = guard (verify_csrf v.request.csrf s.csrf_token) forbidden

-- requireAuth
abbrev pub require_auth : Visitor → Handler User
require_auth v = or_answer v.user login_required

-- requireRole
unfoldable pub require_role : Role → Visitor → Handler User
unfolding ◌>>=◌
require_role role v = do
  u ← require_auth v
  held ← branch (user_has_role u.id role) pure (λ _. pure false)
  guard held forbidden
  pure u

-- A message on the session, whose failure is only logged.
unfoldable pub flash : ℕ → FlashKind → Bytes → Handler (Unit {0})
flash session kind text = ignore (set_flash session (some (record { kind = kind; text = text })))

-- flashError and flashNotice of handlers/orders.go
unfoldable pub flash_on : Option Session → FlashKind → Bytes → Handler (Unit {0})
unfolding flash pure
flash_on none kind text = pure tt
flash_on (some s) kind text = flash s.id kind text

module _ (c : Crypto) (cfg : AccountSettings) where
  -- withSession
  unfoldable pub with_session : WebRequest → Option Bytes → Handler Visitor
  unfolding with_user
  with_session r none = pure (visitor r none none)
  with_session r (some value) =
      branch (get_session_by_token (c.sha256_hex value)) (λ s. with_user r s s.user_id)
        (λ _. pure (visitor r none none))

  -- ensureSession
  unfoldable pub ensure_session : Visitor → Option Session → Handler Session
  unfolding ◌>>=◌
  ensure_session v (some s) = pure s
  ensure_session v none = do
    (raw, csrf) ← or_answer v.request.anonymous_tokens server_error
    id ← or_render (create_session none (c.sha256_hex raw) csrf cfg.session_ttl)
    now ← read_time
    pure (new_session id now none (c.sha256_hex raw) csrf cfg.session_ttl)

  -- GenerateSessionToken, GenerateCSRF and RotateSession: the new session and its token for the cookie.
  unfoldable pub rotate : Visitor → Session → ℕ → Handler (ℕ × Bytes)
  unfolding ◌>>=◌
  rotate v s user = do
    (raw, csrf) ← or_answer v.request.rotated_tokens server_error
    id ← or_render (rotate_session s.id user (c.sha256_hex raw) csrf cfg.session_ttl)
    pure (id, raw)

  -- What sendVerificationEmail and sendPasswordReset of handlers/auth.go store; the mail is left out.
  abbrev pub mail_token : Option Bytes → ℕ → TokenKind → Action StoreError ℕ
  mail_token none user kind = raise failed
  mail_token (some raw) user kind =
      create_auth_token user kind (c.sha256_hex raw) cfg.auth_token_ttl
