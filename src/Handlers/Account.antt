-- ===== src/Handlers/Account.antt =====
-- handlers/account.go, adminUserStatus of handlers/admin.go and maintenanceSweep of maintenance.go:
-- the changes to an account by its user, its suspension, and the clean-up of sessions and tokens.
use gig.Base.{
  ℕ, ◌+◌, Bool, true, false, not, ◌&&◌, Option, none, some, length, ◌==◌, if◌then◌else◌, String,
}
use gig.Base.Text.{Bytes, bytes_eq, codes, trim_space, is_empty}
use gig.Base.Result.{Result, ok, err}
use gig.Passwords.{validate_password, verify_password}
use gig.Totp.{TotpError, verify_totp}
use gig.Db.{
  StoreError, Action, ◌>>=◌, ◌>>◌, pure, guard, catch, ignore, Session, User, UserStatus,
  user_disabled, user_deleted, email_verification, success, no_payload,
}
use gig.Store.Sessions.{
  is_none, revoke_user_sessions, delete_expired_sessions, delete_expired_auth_tokens,
}
use gig.Store.Users.{
  normalize_email, update_name, update_email, update_password, set_totp, disable_totp,
  set_user_status_admin,
}
use gig.Store.Jobs.{enqueue_job}
use gig.Handlers.Response.{
  Handler, unprocessable, server_error, flash_error, or_render, or_answer, audit,
}
use gig.Handlers.Access.{path_id}
use gig.Handlers.Checkout.{read_time}
use gig.Handlers.Session.{
  Crypto, AccountSettings, Visitor, ensure_session, rotate, mail_token, flash,
}
use gig.Handlers.Auth.{is_name, is_match, succeeded, taken_or_error, hash_with}
use gig.Handlers.Emails.{email_pattern}

pub record PasswordForm : Type 0 where
  pub current_password : Bytes
  pub new_password : Bytes
  pub new_password_confirm : Bytes

abbrev pub is_valid_code : Result TotpError Bool → Bool
is_valid_code (ok b) = b
is_valid_code (err e) = false

-- `if status == store.UserDisabled && reason == ""`
abbrev pub needs_reason : UserStatus → Bool
needs_reason user_disabled = true
needs_reason _ = false

-- A status that may be set by hand.
abbrev pub is_settable : UserStatus → Bool
is_settable user_deleted = false
is_settable _ = true

-- The session of the user is not touched.
unfoldable pub admin_user_status :
    ℕ → Option ℕ → Option (Option UserStatus × Bytes) → Handler (Unit {0})
unfolding ◌>>=◌ trim_space audit
admin_user_status admin path form = do
  i ← path_id path
  (text, why) ← or_answer form server_error
  status ← or_answer text (flash_error "Invalid status.")
  let reason = trim_space why
  guard (is_settable status) (flash_error "Invalid status.")
  guard (not (needs_reason status && is_empty reason))
      (flash_error "A reason is required to suspend a user.")
  or_render (set_user_status_admin i status reason)
  audit (some admin) "user.status_changed" i

-- maintenanceSweep, and its next run.
unfoldable pub maintenance_sweep : ℕ → ℕ → Action StoreError (Unit {0})
unfolding ◌>>=◌
maintenance_sweep interval max_attempts = do
  n ← delete_expired_sessions
  k ← delete_expired_auth_tokens
  now ← read_time
  job ← enqueue_job "maintenance.sweep" no_payload (some (now + interval)) max_attempts
  pure tt

module _ (c : Crypto) (cfg : AccountSettings) where
  abbrev pub rename_if : User → Bytes → Handler (Unit {0})
  rename_if u name =
      if bytes_eq name u.name
      then pure tt
      else do or_render (update_name u.id name); audit (some u.id) "user.name_changed" u.id

  abbrev pub change_email_if : Visitor → User → Bytes → Handler (Unit {0})
  change_email_if v u email =
      if bytes_eq (normalize_email email) (normalize_email u.email) then pure tt else do
        catch (update_email u.id email) taken_or_error
        ignore (mail_token c cfg v.request.mailed_token u.id email_verification)
        audit (some u.id) "user.email_changed" u.id

  unfoldable pub account_update : Visitor → User → Option (Bytes × Bytes) → Handler (Unit {0})
  unfolding ◌>>=◌ trim_space email_pattern audit bytes_eq normalize_email
  account_update v u form = do
    sess ← ensure_session c cfg v v.session
    (name_text, email_text) ← or_answer form server_error
    let name = trim_space name_text
    let email = trim_space email_text
    guard (is_name name && email_pattern email) unprocessable
    rename_if u name
    change_email_if v u email
    flash sess.id success (codes "Your account was updated.")

  unfoldable pub password_update : Visitor → User → Option PasswordForm → Handler Bytes
  unfolding ◌>>=◌ validate_password verify_password bytes_eq audit rotate
  password_update v u form = do
    sess ← ensure_session c cfg v v.session
    f ← or_answer form server_error
    guard
        (is_match (verify_password c.passwords f.current_password u.password_hash)
          && (succeeded (validate_password f.new_password)
              && bytes_eq f.new_password f.new_password_confirm))
        unprocessable
    hash ← hash_with c cfg v.request.salt f.new_password
    or_render (update_password u.id hash)
    ignore (revoke_user_sessions u.id sess.id)
    (new, raw) ← rotate c cfg v sess u.id
    audit (some u.id) "user.password_changed" u.id
    flash new success (codes "Your password was changed.")
    pure raw

  -- rotateAfterSecurityChange
  unfoldable pub rotate_after_security_change :
      Visitor → Session → ℕ → String → Bytes → Handler Bytes
  unfolding ◌>>=◌ audit rotate
  rotate_after_security_change v sess user action text = do
    (new, raw) ← rotate c cfg v sess user
    audit (some user) action user
    flash new success text
    pure raw

  unfoldable pub mfa_confirm : Visitor → Session → User → Bytes → Bytes → Handler (Option Bytes)
  unfolding ◌>>=◌ verify_totp rotate_after_security_change
  mfa_confirm v sess u secret code = do
    guard (not (is_empty secret)) unprocessable
    guard (length code == 6) unprocessable
    now ← read_time
    guard (is_valid_code (verify_totp c.hmac c.base32_decode secret code cfg.totp_skew now))
        unprocessable
    or_render (set_totp u.id secret)
    raw ←
        rotate_after_security_change v sess u.id "user.mfa_enabled"
          (codes "Two-factor authentication is now enabled.")
    pure (some raw)

  -- Once two-factor authentication is on, the request is only sent back to its page.
  unfoldable pub mfa_enable : Visitor → User → Option (Bytes × Bytes) → Handler (Option Bytes)
  unfolding ◌>>=◌ trim_space mfa_confirm
  mfa_enable v u form = do
    sess ← ensure_session c cfg v v.session
    (secret, code) ← or_answer form server_error
    if is_none u.totp_enabled_at
        then mfa_confirm v sess u (trim_space secret) (trim_space code)
        else pure none

  unfoldable pub mfa_disable : Visitor → User → Handler Bytes
  unfolding ◌>>=◌ rotate_after_security_change
  mfa_disable v u = do
    sess ← ensure_session c cfg v v.session
    (if is_none u.totp_enabled_at then pure tt else or_render (disable_totp u.id))
    rotate_after_security_change v sess u.id "user.mfa_disabled"
        (codes "Two-factor authentication is now disabled.")
