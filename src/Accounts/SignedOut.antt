-- ===== src/Accounts/SignedOut.antt =====
-- A user without an open session, through any sequence of requests of Accounts.
use gig.Base.{ℕ, ◌==◌, Bool, false, Option, none, some, List, [], ◌∷◌, ◌≡◌, refl}
use gig.Base.Text.{Bytes}
use gig.Db.{Db, ◌>>=◌, ◌>>◌, raise, Session, User, Role, seller_role, admin_role}
use gig.Db.Keeps.{Keeps, Keeps-bind, keeps_rules}
use gig.Db.Leads.{
  Leads, Leads-Keeps, Leads-bind, Leads-branch, Leads-pure, Leads-raise, Leads-pre, outcome_both,
}
use gig.Handlers.Response.{Response, Handler, or_answer}
use gig.Handlers.Session.{
  Crypto, AccountSettings, WebRequest, Visitor, with_session, with_csrf, require_auth, require_role,
}
use gig.Handlers.Auth.{LoginForm, login}
use gig.Accounts.{
  AccountRequest, registers, logs_in, logs_out, verifies_email, forgets_password, resets_password,
  updates_account, changes_password, enables_mfa, disables_mfa, sets_user_status, submits_wallet,
  confirms_wallet, requests_payout, done, dispatch, serve, serve_requests,
}
use gig.Accounts.Sessions.{IsSignedOut, Holds, session_rules}
use gig.Accounts.Quiet.{
  ensure_session-Keeps, logout-Keeps, verify_email-Keeps, forgot_password-Keeps,
  reset_password-Keeps, account_update-Keeps, password_update-Keeps, mfa_enable-Keeps,
  mfa_disable-Keeps, admin_user_status-Keeps,
}
use gig.Accounts.WalletRequests.{
  submit_payout_request-Keeps, submit_wallet-Keeps, confirm_wallet_link-Keeps,
}
use gig.Accounts.Passing.{passes_login}
use gig.Accounts.Login.{login-Leads}
use gig.Accounts.Registration.{register-Keeps}
use gig.Accounts.Visitors.{NotUser, Start, Apart, with_session-Leads}

module _ (u : ℕ) (c : Crypto) (cfg : AccountSettings) where
  module _ (now0 : ℕ) (users0 : List User) where
    with_csrf-Keeps : {I : Db → Type 0} (v : Visitor) (s : Option Session) → Keeps I (with_csrf v s)
    unfolding with_csrf
    with_csrf-Keeps v none = search keeps_rules
    with_csrf-Keeps v (some s) = search keeps_rules

    done-Keeps : {A : Type 0} (m : Handler A) → Keeps (Holds u) m → Keeps (Holds u) (done m)
    unfolding done
    done-Keeps m k = search keeps_rules

    authed-Keeps :
        {A : Type 0} (o : Option User) (r : Response) (f : User → Handler A)
        → NotUser u o
        → ((x : User) → (x.id == u) ≡ false → Keeps (Holds u) (f x))
        → Keeps (Holds u) (or_answer o r >>= f)
    unfolding ◌>>=◌
    authed-Keeps none r f differs k = record { at = λ db h. h }
    authed-Keeps (some x) r f differs k = record { at = λ db h. (k x differs).at db h }

    require_role-Keeps : (role : Role) (v : Visitor) → Keeps (Holds u) (require_role role v)
    unfolding require_role
    require_role-Keeps role v = search session_rules depth 30

    start_holds : (d : Db) → Start u c cfg now0 users0 d → Holds u d
    unfolding Start
    start_holds d h = h.0

    -- A form that cannot be read.
    unread_login-Keeps : (v : Visitor) → Keeps (Holds u) (login c cfg v none)
    unfolding login
    unread_login-Keeps v = search (session_rules, ensure_session-Keeps) depth 30

    done-login :
        (v : Visitor) (f : LoginForm)
        → passes_login c cfg u now0 users0 f ≡ false
        → Leads (Start u c cfg now0 users0) (λ _. Holds u) (Holds u) (done (login c cfg v (some f)))
    unfolding done Start
    done-login v f h =
        Leads-bind _ _ (login-Leads c cfg u now0 users0 v f h) (λ _. Leads-pure tt (λ d k. k))

    -- A login of the request, if it is one, does not pass.
    abbrev pub CannotPass : AccountRequest → Type 0
    CannotPass (logs_in (some f)) = passes_login c cfg u now0 users0 f ≡ false
    CannotPass _ = Unit

    module _ (encrypt : Option (Bytes → Option Bytes)) (v : Visitor)
        (differs : NotUser u v.user) where
      kept :
          (m : Handler (Unit {0}))
          → Keeps (Holds u) m
          → Leads (Start u c cfg now0 users0) (λ _. Holds u) (Holds u) m
      unfolding Start
      kept m k = Leads-pre m (λ d h. h.0) (Leads-Keeps m (λ d h. h) k)

      account_dispatch-Keeps :
          (f : User → Handler (Unit {0}))
          → ((x : User) → (x.id == u) ≡ false → Keeps (Holds u) (f x))
          → Keeps (Holds u) (with_csrf v v.session >> (require_auth v >>= f))
      account_dispatch-Keeps f k =
          Keeps-bind _ _ (with_csrf-Keeps v v.session) (λ _. authed-Keeps v.user _ f differs k)

      role_dispatch-Keeps :
          (role : Role) (f : User → Handler (Unit {0}))
          → ((x : User) → Keeps (Holds u) (f x))
          → Keeps (Holds u) (with_csrf v v.session >> (require_role role v >>= f))
      role_dispatch-Keeps role f k =
          Keeps-bind _ _ (with_csrf-Keeps v v.session)
            (λ _. Keeps-bind _ _ (require_role-Keeps role v) k)

      post-Keeps :
          (m : Handler (Unit {0}))
          → Keeps (Holds u) m
          → Keeps (Holds u) (with_csrf v v.session >> m)
      post-Keeps m k = Keeps-bind _ _ (with_csrf-Keeps v v.session) (λ _. k)

      dispatch-Leads :
          (a : AccountRequest)
          → CannotPass a
          → Leads (Start u c cfg now0 users0) (λ _. Holds u) (Holds u) (dispatch c cfg encrypt v a)
      unfolding dispatch
      dispatch-Leads (registers form) h =
          kept _ (post-Keeps _ (done-Keeps _ (register-Keeps u c cfg v form)))
      dispatch-Leads (logs_in none) h = kept _ (post-Keeps _ (done-Keeps _ (unread_login-Keeps v)))
      dispatch-Leads (logs_in (some f)) h =
          Leads-bind _ _ (Leads-Keeps _ start_holds (with_csrf-Keeps v v.session))
            λ _. done-login v f h
      dispatch-Leads logs_out h = kept _ (post-Keeps _ (logout-Keeps u c cfg v))
      dispatch-Leads (verifies_email token) h = kept _ (verify_email-Keeps u c cfg v token)
      dispatch-Leads (forgets_password form) h =
          kept _ (post-Keeps _ (forgot_password-Keeps u c cfg v form))
      dispatch-Leads (resets_password form) h =
          kept _ (post-Keeps _ (reset_password-Keeps u c cfg v form))
      dispatch-Leads (updates_account form) h =
          kept _ (account_dispatch-Keeps _ (λ x q. account_update-Keeps u c cfg v x q form))
      dispatch-Leads (changes_password form) h = kept _ (
          account_dispatch-Keeps _ (λ x q. done-Keeps _ (password_update-Keeps u c cfg v x q form)))
      dispatch-Leads (enables_mfa form) h =
          kept _
            (account_dispatch-Keeps _ (λ x q. done-Keeps _ (mfa_enable-Keeps u c cfg v x q form)))
      dispatch-Leads disables_mfa h =
          kept _ (account_dispatch-Keeps _ (λ x q. done-Keeps _ (mfa_disable-Keeps u c cfg v x q)))
      dispatch-Leads (sets_user_status path form) h =
          kept _ (role_dispatch-Keeps admin_role _ (λ x. admin_user_status-Keeps u x.id path form))
      dispatch-Leads (submits_wallet form) h =
          kept _
            (role_dispatch-Keeps seller_role _ (λ x. submit_wallet-Keeps u c cfg v x encrypt form))
      dispatch-Leads (confirms_wallet token i) h =
          kept _
            (authed-Keeps v.user _ _ differs (λ x q. confirm_wallet_link-Keeps u c cfg v x token i))
      dispatch-Leads (requests_payout form) h = kept _ (
          role_dispatch-Keeps seller_role _
            (λ x. done-Keeps _ (submit_payout_request-Keeps u v _ x form)))

    serve-Leads :
        (encrypt : Option (Bytes → Option Bytes)) (r : WebRequest) (a : AccountRequest)
        → CannotPass a
        → Leads (Start u c cfg now0 users0) (λ _. Holds u) (Holds u) (serve c cfg encrypt r a)
    unfolding serve Apart Start ◌>>=◌
    serve-Leads encrypt r a h =
        Leads-branch (with_session c cfg r r.cookie) _ raise
          (with_session-Leads u c cfg now0 users0 r r.cookie)
          (λ v. record { at = λ db k. (dispatch-Leads encrypt v k.1 a h).at db k.0 })
          (λ e. Leads-pre _ (λ d k. k.0) (Leads-raise e))

  -- No login of the sequence passes.
  abbrev pub NeverPasses :
      Option (Bytes → Option Bytes)
      → List (ℕ × List Bool × WebRequest × AccountRequest)
      → Db
      → Type 0
  NeverPasses encrypt [] db = Unit
  NeverPasses encrypt ((now, faults, r, a) ∷ rest) db =
      CannotPass now db.users a
      × NeverPasses encrypt rest
          (serve c cfg encrypt r a (record db { now = now; faults = faults })).1

  -- A user with a number that is given and without an open session, whose logins all fail (for want of
  -- the email, the password, the second factor, or an account that is active and not locked), has no
  -- open session after any sequence of requests on accounts and wallets, by whomever, at any times and
  -- under any faults of the database.
  pub serve_requests-IsSignedOut :
      (encrypt : Option (Bytes → Option Bytes))
      (requests : List (ℕ × List Bool × WebRequest × AccountRequest)) (db : Db)
      → NeverPasses encrypt requests db
      → IsSignedOut u db
      → IsSignedOut u (serve_requests c cfg encrypt requests db)
  unfolding serve_requests Holds Start
  serve_requests-IsSignedOut encrypt [] db never h = h
  serve_requests-IsSignedOut encrypt ((now, faults, r, a) ∷ rest) db (cannot, never) h =
      let first = record db { now = now; faults = faults } in
      serve_requests-IsSignedOut encrypt rest (serve c cfg encrypt r a first).1 never (
        outcome_both (Holds u) (serve c cfg encrypt r a first).0 (serve c cfg encrypt r a first).1
          ((serve-Leads now db.users encrypt r a cannot).at first (h, (refl, refl))))
