-- ===== src/Accounts/Login.antt =====
-- login of handlers/auth.go: what it takes to get to its end.
use gig.Base.{ℕ, ◌==◌, true, false, not, ◌&&◌, some, List, find, ◌≡◌, sym, ap, ◌∙◌, arith}
use gig.Base.Text.{trim_space, is_empty}
use gig.Passwords.{verify_password}
use gig.Db.{Db, ◌>>=◌, pure, User, Session}
use gig.Db.Leads.{Leads, Leads-Keeps, Leads-bind, Leads-branch, Leads-pure, Leads-guard, Leads-pre}
use gig.Store.Users.{normalize_email, has_email, login_blocked, get_user_by_email}
use gig.Handlers.Response.{unprocessable}
use gig.Handlers.Session.{Crypto, AccountSettings, Visitor}
use gig.Handlers.Auth.{LoginForm, is_active, is_match, missing_login, sign_in, attempt_login, login}
use gig.Accounts.Sessions.{Holds}
use gig.Accounts.Quiet.{ensure_session-Keeps, sign_in-Keeps}
use gig.Accounts.Passing.{
  passes_code, passes_as, passes_found, passes_login, Front, to_holds, both, ensure_session-Same,
  get_user_by_email-Leads,
}
use gig.Accounts.Checks.{
  missing_login-Leads, check_account-Leads, check_password-Leads, check_code-Leads,
}

module _ (c : Crypto) (cfg : AccountSettings) (u : ℕ) (now0 : ℕ) (users0 : List User) where
  Found : LoginForm → User → Db → Type 0
  Found f x d =
      Front c cfg u now0 users0 d
      × (find (has_email (normalize_email (trim_space f.email))) users0 ≡ some x)

  passed :
      (f : LoginForm) (x : User)
      → find (has_email (normalize_email (trim_space f.email))) users0 ≡ some x
      → login_blocked now0 x ≡ false
      → is_active x.status ≡ true
      → is_match (verify_password c.passwords f.password x.password_hash) ≡ true
      → passes_code c cfg u now0 users0 (trim_space f.totp_code) x ≡ true
      → passes_login c cfg u now0 users0 f ≡ (x.id == u)
  passed f x e blocked active matches code =
      ap (passes_found c cfg u now0 users0 f) e
      ∙ (let same : (passes_as c cfg u now0 users0) f x ≡ (x.id == u) = ground arith in same)

  attempt_login-Leads :
      (v : Visitor) (sess : Session) (f : LoginForm)
      → passes_login c cfg u now0 users0 f ≡ false
      → Leads (Front c cfg u now0 users0) (λ _. Holds u) (Holds u) (attempt_login c cfg v sess f)
  unfolding attempt_login Found Holds
  attempt_login-Leads v sess f refused =
      Leads-bind _ _
        (Leads-guard (not (is_empty (trim_space f.email)) && not (is_empty f.password))
          unprocessable (to_holds c cfg u now0 users0))
        λ _.
          Leads-bind _ _ (Leads-guard (not v.request.is_rate_limited) unprocessable (λ d h. h.0.0))
            λ _.
              Leads-bind {Q = Found f} _ _
                (Leads-branch (get_user_by_email (trim_space f.email)) pure missing_login
                  (Leads-pre _ (λ d h. h.0.0)
                    (get_user_by_email-Leads c cfg u now0 users0 (trim_space f.email)))
                  (λ x. Leads-pure x (λ d h. h)) (missing_login-Leads c cfg u now0 users0))
                λ x.
                  let front : (d : Db) → Found f x d → Front c cfg u now0 users0 d = λ d h. h.0 in
                  Leads-bind _ _ (check_account-Leads c cfg u now0 users0 x (Found f x) front) λ _.
                    Leads-bind _ _
                      (check_password-Leads c cfg u now0 users0 x f.password _ (λ d h. h.0.0))
                      λ _.
                        Leads-bind _ _
                          (check_code-Leads c cfg u now0 users0 x (trim_space f.totp_code) _
                            (λ d h. h.0.0.0) (λ d rest h. h))
                          λ _. record {
                            at = λ db h.
                                (Leads-Keeps (sign_in c cfg v sess x) (λ d k. k)
                                    (sign_in-Keeps u c cfg v sess x (
                                      sym (passed f x h.0.0.0.1 h.0.0.1 h.0.0.2 h.0.1 h.1)
                                      ∙ refused))).at
                                  db h.0.0.0.0.0;
                          }

  -- A login that does not pass signs nobody in as the user.
  pub login-Leads :
      (v : Visitor) (f : LoginForm)
      → passes_login c cfg u now0 users0 f ≡ false
      → Leads (Front c cfg u now0 users0) (λ _. Holds u) (Holds u) (login c cfg v (some f))
  unfolding login ◌>>=◌
  login-Leads v f refused =
      Leads-bind _ _
        (both c cfg u now0 users0 _ (ensure_session-Keeps u c cfg v v.session)
          (ensure_session-Same c cfg u now0 users0 v v.session))
        λ sess. record { at = λ db h. (attempt_login-Leads v sess f refused).at db h }
