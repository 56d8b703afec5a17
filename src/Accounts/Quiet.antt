-- ===== src/Accounts/Quiet.antt =====
-- The handlers that sign nobody else in: each keeps a user without an open session, if the user whom it
-- acts for is another.
use gig.Base.{ℕ, ◌==◌, Bool, true, false, Option, none, some, String, ◌≡◌}
use gig.Base.Text.{Bytes}
use gig.Db.{Db, StoreError, Action, ◌>>=◌, Session, User, UserStatus, TokenKind, FlashKind}
use gig.Db.Keeps.{Keeps}
use gig.Db.{PayoutStatus}
use gig.Handlers.Response.{Response, Handler}
use gig.Handlers.Access.{path_id}
use gig.Handlers.Session.{Crypto, AccountSettings, Visitor, ensure_session, rotate, mail_token}
use gig.Handlers.Auth.{hash_with, log_failure, revoke_if, logout, sign_in, refuse_if}
use gig.Handlers.Recovery.{
  ResetForm, verify_email, forgot_password, missing_account, replace_password, reset_password,
}
use gig.Handlers.Account.{
  PasswordForm, rename_if, change_email_if, account_update, password_update,
  rotate_after_security_change, mfa_confirm, mfa_enable, mfa_disable, admin_user_status,
}
use gig.Accounts.Sessions.{Holds, session_rules}

module _ (u : ℕ) (c : Crypto) (cfg : AccountSettings) where
  pub ensure_session-Keeps :
      (v : Visitor) (s : Option Session) → Keeps (Holds u) (ensure_session c cfg v s)
  unfolding ensure_session
  ensure_session-Keeps v none = search session_rules depth 30
  ensure_session-Keeps v (some s) = search session_rules

  pub mail_token-Keeps :
      (raw : Option Bytes) (i : ℕ) (kind : TokenKind)
      → Keeps (Holds u) (mail_token c cfg raw i kind)
  mail_token-Keeps none i kind = search session_rules
  mail_token-Keeps (some raw) i kind = search session_rules

  pub hash_with-Keeps :
      (salt : Option Bytes) (password : Bytes) → Keeps (Holds u) (hash_with c cfg salt password)
  hash_with-Keeps none password = search session_rules
  hash_with-Keeps (some salt) password = search session_rules

  pub rotate-Keeps :
      (v : Visitor) (s : Session) (i : ℕ) → (i == u) ≡ false → Keeps (Holds u) (rotate c cfg v s i)
  unfolding rotate
  rotate-Keeps v s i differs = search session_rules depth 30

  pub refuse_if-Keeps :
      (b : Bool) (log : Handler (Unit {0})) (r : Response)
      → Keeps (Holds u) log
      → Keeps (Holds u) (refuse_if b log r)
  refuse_if-Keeps true log r k = search session_rules
  refuse_if-Keeps false log r k = search session_rules

  pub log_failure-Keeps : (x : User) → Keeps (Holds u) (log_failure c cfg x)
  log_failure-Keeps x = search session_rules depth 30

  pub sign_in-Keeps :
      (v : Visitor) (s : Session) (x : User)
      → (x.id == u) ≡ false
      → Keeps (Holds u) (sign_in c cfg v s x)
  unfolding sign_in
  sign_in-Keeps v s x differs = search (session_rules, rotate-Keeps) depth 40

  revoke_if-Keeps : (v : Visitor) (s : Option Session) → Keeps (Holds u) (revoke_if c cfg v s)
  revoke_if-Keeps v none = search session_rules
  revoke_if-Keeps v (some s) = search session_rules depth 30

  pub logout-Keeps : (v : Visitor) → Keeps (Holds u) (logout c cfg v)
  unfolding logout
  logout-Keeps v = revoke_if-Keeps v v.session

  pub verify_email-Keeps : (v : Visitor) (raw : Bytes) → Keeps (Holds u) (verify_email c cfg v raw)
  unfolding verify_email
  verify_email-Keeps v raw = search (session_rules, ensure_session-Keeps) depth 40

  missing_account-Keeps : (e : StoreError) → Keeps (Holds u) (missing_account c cfg e)
  missing_account-Keeps gig.Db.not_found = search session_rules
  missing_account-Keeps e = search session_rules

  pub forgot_password-Keeps :
      (v : Visitor) (form : Option Bytes) → Keeps (Holds u) (forgot_password c cfg v form)
  unfolding forgot_password
  forgot_password-Keeps v form =
      search (session_rules, ensure_session-Keeps, mail_token-Keeps, missing_account-Keeps) depth 40

  replace_password-Keeps :
      (i k : ℕ) (hash : Bytes) → Keeps (Holds u) (replace_password c cfg i k hash)
  unfolding replace_password
  replace_password-Keeps i k hash = search session_rules depth 30

  pub reset_password-Keeps :
      (v : Visitor) (form : Option ResetForm) → Keeps (Holds u) (reset_password c cfg v form)
  unfolding reset_password
  reset_password-Keeps v form =
      search (session_rules, ensure_session-Keeps, hash_with-Keeps, replace_password-Keeps) depth 40
        fits 8000

  module _ (v : Visitor) (x : User) (differs : (x.id == u) ≡ false) where
    rename_if-Keeps : (name : Bytes) → Keeps (Holds u) (rename_if c cfg x name)
    rename_if-Keeps name = search session_rules depth 30

    change_email_if-Keeps : (email : Bytes) → Keeps (Holds u) (change_email_if c cfg v x email)
    change_email_if-Keeps email = search (session_rules, mail_token-Keeps) depth 30

    pub account_update-Keeps :
        (form : Option (Bytes × Bytes)) → Keeps (Holds u) (account_update c cfg v x form)
    unfolding account_update
    account_update-Keeps form =
        search (session_rules, ensure_session-Keeps, rename_if-Keeps, change_email_if-Keeps) depth
          40 fits 8000

    pub password_update-Keeps :
        (form : Option PasswordForm) → Keeps (Holds u) (password_update c cfg v x form)
    unfolding password_update
    password_update-Keeps form =
        search (session_rules, ensure_session-Keeps, hash_with-Keeps, rotate-Keeps) depth 40 fits
          8000

    rotated-Keeps :
        (s : Session) (action : String) (text : Bytes)
        → Keeps (Holds u) (rotate_after_security_change c cfg v s x.id action text)
    unfolding rotate_after_security_change
    rotated-Keeps s action text = search (session_rules, rotate-Keeps) depth 40

    mfa_confirm-Keeps :
        (s : Session) (secret code : Bytes) → Keeps (Holds u) (mfa_confirm c cfg v s x secret code)
    unfolding mfa_confirm
    mfa_confirm-Keeps s secret code = search (session_rules, rotated-Keeps) depth 40 fits 8000

    pub mfa_enable-Keeps :
        (form : Option (Bytes × Bytes)) → Keeps (Holds u) (mfa_enable c cfg v x form)
    unfolding mfa_enable
    mfa_enable-Keeps form =
        search (session_rules, ensure_session-Keeps, mfa_confirm-Keeps) depth 40 fits 8000

    pub mfa_disable-Keeps : Keeps (Holds u) (mfa_disable c cfg v x)
    unfolding mfa_disable
    mfa_disable-Keeps =
        search (session_rules, ensure_session-Keeps, rotated-Keeps) depth 40 fits 8000

path_id-Keeps : (u : ℕ) (path : Option ℕ) → Keeps (Holds u) (path_id path)
path_id-Keeps u none = search session_rules
path_id-Keeps u (some i) = search session_rules

pub admin_user_status-Keeps :
    (u admin : ℕ) (path : Option ℕ) (form : Option (Option UserStatus × Bytes))
    → Keeps (Holds u) (admin_user_status admin path form)
unfolding admin_user_status
admin_user_status-Keeps u admin path form = search (session_rules, path_id-Keeps) depth 40 fits 8000
