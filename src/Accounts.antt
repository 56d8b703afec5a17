-- ===== src/Accounts.antt =====
-- The requests on accounts and wallets as handlers/server.go routes them: withSession, withCSRF where a
-- request changes state, requireAuth or requireRole, and the handler.
pub mod Sessions
pub mod Quiet
pub mod WalletRequests
pub mod Passing
pub mod Checks
pub mod Login
pub mod Registration
pub mod Visitors
pub mod SignedOut
pub mod Links
pub mod Unconfirmed
pub mod Available
pub mod Notes
pub mod Untouched
pub mod Promise
pub mod Reads
pub mod Overdraw
pub mod Freed
use gig.Base.{ℕ, Bool, true, false, Option, none, some, List, [], ◌∷◌}
use gig.Base.Text.{Bytes}
use gig.Db.{Db, ◌>>=◌, ◌>>◌, pure, UserStatus, seller_role, admin_role}
use gig.Handlers.Response.{Handler}
use gig.Handlers.Session.{
  Crypto, AccountSettings, WebRequest, Visitor, with_session, with_csrf, require_auth, require_role,
}
use gig.Handlers.Auth.{RegisterForm, LoginForm, register, login, logout}
use gig.Handlers.Recovery.{ResetForm, verify_email, forgot_password, reset_password}
use gig.Handlers.Account.{
  PasswordForm, account_update, password_update, mfa_enable, mfa_disable, admin_user_status,
}
use gig.Handlers.SellerWallets.{
  WalletForm, PayoutForm, submit_wallet, confirm_wallet_link, submit_payout_request,
}

-- A form is `none` where it cannot be parsed.
pub data AccountRequest : Type 0 where
  registers : Option RegisterForm → AccountRequest
  logs_in : Option LoginForm → AccountRequest
  logs_out : AccountRequest
  verifies_email : Bytes → AccountRequest
  forgets_password : Option Bytes → AccountRequest
  resets_password : Option ResetForm → AccountRequest
  updates_account : Option (Bytes × Bytes) → AccountRequest
  changes_password : Option PasswordForm → AccountRequest
  enables_mfa : Option (Bytes × Bytes) → AccountRequest
  disables_mfa : AccountRequest
  sets_user_status : Option ℕ → Option (Option UserStatus × Bytes) → AccountRequest
  submits_wallet : Option WalletForm → AccountRequest
  confirms_wallet : Bytes → ℕ → AccountRequest
  requests_payout : Option PayoutForm → AccountRequest

-- The answer's cookie and body are left out.
unfoldable pub done : {A : Type 0} → Handler A → Handler (Unit {0})
unfolding ◌>>=◌
done m = m >>= λ _. pure tt

module _ (c : Crypto) (cfg : AccountSettings) (encrypt : Option (Bytes → Option Bytes)) where
  abbrev pub is_enabled : Bool
  is_enabled = elim encrypt [ none ↦ false | some f ↦ true ]

  abbrev pub post : Visitor → Handler (Unit {0}) → Handler (Unit {0})
  post v m = with_csrf v v.session >> m

  -- Routes
  unfoldable pub dispatch : Visitor → AccountRequest → Handler (Unit {0})
  unfolding ◌>>=◌ done require_role
  dispatch v (registers form) = post v (done (register c cfg v form))
  dispatch v (logs_in form) = post v (done (login c cfg v form))
  dispatch v logs_out = post v (logout c cfg v)
  dispatch v (verifies_email token) = verify_email c cfg v token
  dispatch v (forgets_password form) = post v (forgot_password c cfg v form)
  dispatch v (resets_password form) = post v (reset_password c cfg v form)
  dispatch v (updates_account form) = post v (require_auth v >>= λ u. account_update c cfg v u form)
  dispatch v (changes_password form) =
      post v (require_auth v >>= λ u. done (password_update c cfg v u form))
  dispatch v (enables_mfa form) = post v (require_auth v >>= λ u. done (mfa_enable c cfg v u form))
  dispatch v disables_mfa = post v (require_auth v >>= λ u. done (mfa_disable c cfg v u))
  dispatch v (sets_user_status path form) =
      post v (require_role admin_role v >>= λ u. admin_user_status u.id path form)
  dispatch v (submits_wallet form) =
      post v (require_role seller_role v >>= λ u. submit_wallet c cfg encrypt v u form)
  dispatch v (confirms_wallet token i) =
      require_auth v >>= λ u. confirm_wallet_link c cfg v u token i
  dispatch v (requests_payout form) =
      post v (require_role seller_role v >>= λ u. done (submit_payout_request is_enabled v u form))

  -- Chain
  unfoldable pub serve : WebRequest → AccountRequest → Handler (Unit {0})
  unfolding ◌>>=◌ dispatch with_session
  serve r a = with_session c cfg r r.cookie >>= λ v. dispatch v a

  -- Requests, each with its time and the faults that its calls meet.
  unfoldable pub serve_requests : List (ℕ × List Bool × WebRequest × AccountRequest) → Db → Db
  unfolding serve
  serve_requests [] db = db
  serve_requests ((now, faults, r, a) ∷ rest) db =
      serve_requests rest (serve r a (record db { now = now; faults = faults })).1
