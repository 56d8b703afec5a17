-- ===== src/Handlers/Auth.antt =====
-- handlers/auth.go: registration, login and logout. The pages of the forms are left out, and so is the
-- mail.
use gig.Base.{ℕ, Bool, true, false, not, ◌&&◌, Option, none, some, ◌++◌, length, leb, if◌then◌else◌}
use gig.Base.Text.{Bytes, bytes_eq, codes, trim_space, is_empty}
use gig.Base.Result.{Result, ok, err}
use gig.Passwords.{PasswordError, validate_password, hash_password, verify_password}
use gig.Totp.{TotpError, verify_totp}
use gig.Db.{
  StoreError, not_found, email_taken, ◌>>=◌, ◌>>◌, pure, raise, guard, catch, branch, ignore,
  Session, User, UserStatus, user_active, user_disabled, user_deleted, email_verification, success,
}
use gig.Store.Sessions.{is_none, revoke_session}
use gig.Store.Users.{
  create_user, get_user_by_email, get_totp_secret, set_last_login, record_login_failure,
  login_blocked,
}
use gig.Handlers.Response.{
  Response, Handler, unprocessable, server_error, or_render, or_answer, audit,
}
use gig.Handlers.Checkout.{read_time}
use gig.Handlers.Session.{
  Crypto, AccountSettings, Visitor, ensure_session, rotate, mail_token, flash,
}
use gig.Handlers.Emails.{email_pattern}

pub record RegisterForm : Type 0 where
  pub name : Bytes
  pub email : Bytes
  pub password : Bytes
  pub password_confirm : Bytes

pub record LoginForm : Type 0 where
  pub email : Bytes
  pub password : Bytes
  pub totp_code : Bytes

abbrev pub max_name_len : ℕ
max_name_len = 100

abbrev pub succeeded : {E A : Type 0} → Result E A → Bool
succeeded (ok a) = true
succeeded (err e) = false

abbrev pub is_name : Bytes → Bool
is_name name = not (is_empty name) && leb (length name) max_name_len

-- validateRegistration finds nothing wrong.
unfoldable pub validate_registration : Bytes → Bytes → Bytes → Bytes → Bool
unfolding email_pattern validate_password bytes_eq
validate_registration name email password confirm =
    is_name name
    && (email_pattern email
        && (succeeded (validate_password password) && bytes_eq password confirm))

abbrev pub taken_or_error : StoreError → Response
taken_or_error email_taken = unprocessable
taken_or_error _ = server_error

abbrev pub is_active : UserStatus → Bool
is_active user_active = true
is_active user_disabled = false
is_active user_deleted = false

-- Log an attempt and answer with the form, if the test says so.
abbrev pub refuse_if : Bool → Handler (Unit {0}) → Response → Handler (Unit {0})
refuse_if true log r = log >> raise r
refuse_if false log r = pure tt

abbrev pub missing_login : StoreError → Handler User
missing_login not_found = audit none "user.login_failed" 0 >> raise unprocessable
missing_login _ = raise server_error

abbrev pub is_match : Result PasswordError Bool → Bool
is_match (ok b) = b
is_match (err e) = false

abbrev pub or_broken : Result TotpError Bool → Handler Bool
or_broken (ok b) = pure b
or_broken (err e) = raise server_error

-- `if user.LoginBlocked(time.Now())`, and `if user.Status != store.UserActive`
unfoldable pub check_account : User → Handler (Unit {0})
unfolding ◌>>=◌ login_blocked audit
check_account u = do
  now ← read_time
  refuse_if (login_blocked now u) (audit (some u.id) "user.login_blocked" u.id) unprocessable
  refuse_if (not (is_active u.status)) (audit (some u.id) "user.login_failed" u.id) unprocessable

module _ (c : Crypto) (cfg : AccountSettings) where
  abbrev pub hash_with : Option Bytes → Bytes → Handler Bytes
  hash_with none password = raise server_error
  hash_with (some salt) password = pure (hash_password c.passwords salt password)

  -- What follows the INSERT of the user.
  unfoldable pub welcome : Visitor → Session → ℕ → Handler Bytes
  unfolding ◌>>=◌ audit rotate
  welcome v sess id = do
    ignore (mail_token c cfg v.request.mailed_token id email_verification)
    (new, raw) ← rotate c cfg v sess id
    flash new success (codes "Account created. Check your email to verify your address.")
    audit (some id) "user.registered" id
    pure raw

  unfoldable pub enroll : Visitor → Session → Bytes → Bytes → Bytes → Handler Bytes
  unfolding ◌>>=◌ welcome
  enroll v sess email hash name =
      catch (create_user email hash name (codes "en")) taken_or_error >>= λ id. welcome v sess id

  unfoldable pub register : Visitor → Option RegisterForm → Handler Bytes
  unfolding ◌>>=◌ trim_space validate_registration enroll
  register v form = do
    sess ← ensure_session c cfg v v.session
    f ← or_answer form unprocessable
    let name = trim_space f.name
    let email = trim_space f.email
    guard (validate_registration name email f.password f.password_confirm) unprocessable
    hash ← hash_with v.request.salt f.password
    enroll v sess email hash name

  abbrev pub log_failure : User → Handler (Unit {0})
  log_failure u = do
    ignore (record_login_failure u.id cfg.max_login_attempts cfg.login_lockout)
    audit (some u.id) "user.login_failed" u.id

  unfoldable pub check_password : User → Bytes → Handler (Unit {0})
  unfolding verify_password
  check_password u password =
      refuse_if (not (is_match (verify_password c.passwords password u.password_hash)))
        (log_failure u) unprocessable

  -- `if user.TotpEnabled`
  unfoldable pub check_code : User → Bytes → Handler (Unit {0})
  unfolding ◌>>=◌ verify_totp
  check_code u code = if is_none u.totp_enabled_at then pure tt else do
    secret ← or_render (get_totp_secret u.id)
    guard (not (is_empty code)) unprocessable
    now ← read_time
    valid ← or_broken (verify_totp c.hmac c.base32_decode secret code cfg.totp_skew now)
    refuse_if (not valid) (log_failure u) unprocessable

  -- After the checks: a new session for the user.
  unfoldable pub sign_in : Visitor → Session → User → Handler Bytes
  unfolding ◌>>=◌ audit rotate
  sign_in v sess u = do
    ignore (set_last_login u.id)
    (new, raw) ← rotate c cfg v sess u.id
    flash new success (codes "Welcome back, " ++ (u.name ++ codes "."))
    audit (some u.id) "user.login" u.id
    pure raw

  -- login, once the form is read.
  unfoldable pub attempt_login : Visitor → Session → LoginForm → Handler Bytes
  unfolding ◌>>=◌ trim_space check_account check_password check_code sign_in
  attempt_login v sess f = do
    let email = trim_space f.email
    guard (not (is_empty email) && not (is_empty f.password)) unprocessable
    guard (not v.request.is_rate_limited) unprocessable
    u ← branch (get_user_by_email email) pure missing_login
    check_account u
    check_password u f.password
    check_code u (trim_space f.totp_code)
    sign_in v sess u

  unfoldable pub login : Visitor → Option LoginForm → Handler Bytes
  unfolding ◌>>=◌ attempt_login
  login v form = do
    sess ← ensure_session c cfg v v.session
    f ← or_answer form server_error
    attempt_login v sess f

  abbrev pub revoke_if : Visitor → Option Session → Handler (Unit {0})
  revoke_if v none = pure tt
  revoke_if v (some s) = do
    ignore (revoke_session s.id)
    audit (elim v.user [ none ↦ none | some u ↦ some u.id ]) "user.logout" 0

  -- The cookie is cleared, whatever the call returns.
  unfoldable pub logout : Visitor → Handler (Unit {0})
  logout v = revoke_if v v.session
