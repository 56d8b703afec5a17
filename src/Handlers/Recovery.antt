-- ===== src/Handlers/Recovery.antt =====
-- handlers/auth.go: the verification of an email and the reset of a password. The pages of the forms are
-- left out, and so is the mail.
use gig.Base.{ℕ, not, ◌&&◌, Option, some}
use gig.Base.Text.{Bytes, bytes_eq, codes, trim_space, is_empty}
use gig.Passwords.{validate_password}
use gig.Db.{
  StoreError, not_found, ◌>>=◌, ◌>>◌, pure, raise, guard, catch, branch, ignore, email_verification,
  password_reset, success,
}
use gig.Store.Sessions.{revoke_user_sessions, get_auth_token, use_auth_token}
use gig.Store.Users.{get_user_by_email, set_email_verified, update_password}
use gig.Handlers.Response.{
  Handler, unprocessable, server_error, bad_request, too_many_requests, or_render, or_answer, audit,
}
use gig.Handlers.Session.{Crypto, AccountSettings, Visitor, ensure_session, mail_token, flash}
use gig.Handlers.Emails.{email_pattern}
use gig.Handlers.Auth.{succeeded, hash_with}

pub record ResetForm : Type 0 where
  pub token : Bytes
  pub password : Bytes
  pub password_confirm : Bytes

module _ (c : Crypto) (cfg : AccountSettings) where
  unfoldable pub verify_email : Visitor → Bytes → Handler (Unit {0})
  unfolding ◌>>=◌ trim_space audit
  verify_email v raw = do
    let token = trim_space raw
    guard (not (is_empty token)) bad_request
    tok ← catch (get_auth_token email_verification (c.sha256_hex token)) (λ e. bad_request)
    or_render (set_email_verified tok.user_id)
    ignore (use_auth_token tok.id)
    audit (some tok.user_id) "user.email_verified" tok.user_id
    branch (ensure_session c cfg v v.session)
        (λ s. flash s.id success (codes "Your email is verified. You can now log in."))
        (λ e. pure tt)

  -- The answer is the same whether there is an account or not.
  abbrev pub missing_account : StoreError → Handler (Unit {0})
  missing_account not_found = pure tt
  missing_account _ = raise server_error

  unfoldable pub forgot_password : Visitor → Option Bytes → Handler (Unit {0})
  unfolding ◌>>=◌ trim_space email_pattern
  forgot_password v form = do
    sess ← ensure_session c cfg v v.session
    text ← or_answer form server_error
    let email = trim_space text
    guard (email_pattern email) unprocessable
    guard (not v.request.is_rate_limited) too_many_requests
    branch (get_user_by_email email)
        (λ u. ignore (mail_token c cfg v.request.mailed_token u.id password_reset)) missing_account

  -- `UpdatePassword`, `UseAuthToken` and `RevokeUserSessions`; the errors of the last two are logged.
  unfoldable pub replace_password : ℕ → ℕ → Bytes → Handler (Unit {0})
  unfolding ◌>>=◌
  replace_password user token hash = do
    or_render (update_password user hash)
    ignore (use_auth_token token)
    ignore (revoke_user_sessions user 0)

  unfoldable pub reset_password : Visitor → Option ResetForm → Handler (Unit {0})
  unfolding ◌>>=◌ trim_space validate_password bytes_eq audit replace_password
  reset_password v form = do
    sess ← ensure_session c cfg v v.session
    f ← or_answer form server_error
    let token = trim_space f.token
    guard
        (not (is_empty token)
          && (succeeded (validate_password f.password) && bytes_eq f.password f.password_confirm))
        unprocessable
    tok ← catch (get_auth_token password_reset (c.sha256_hex token)) (λ e. unprocessable)
    hash ← hash_with c cfg v.request.salt f.password
    replace_password tok.user_id tok.id hash
    audit (some tok.user_id) "user.password_reset" tok.user_id
    flash sess.id success (codes "Your password was reset. Log in with your new password.")
