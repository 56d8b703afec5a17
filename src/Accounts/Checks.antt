-- ===== src/Accounts/Checks.antt =====
-- The checks of login in handlers/auth.go: each passes, or ends the login.
use gig.Base.{ℕ, Bool, true, false, not, List, find, Bool-cases, ◌≡◌, inl, inr, refl, sym, arith}
use gig.Base.Text.{Bytes, is_empty}
use gig.Base.Result.{Result, ok, err}
use gig.Totp.{TotpError, verify_totp}
use gig.Passwords.{verify_password}
use gig.Db.{Db, StoreError, not_found, ◌>>◌, pure, raise, catch, User}
use gig.Db.Keeps.{Keeps}
use gig.Db.Leads.{
  Leads, Leads-Keeps, Leads-bind, Leads-branch, Leads-pure, Leads-raise, Leads-guard,
  Leads-statement, Leads-post, Outcome,
}
use gig.Store.Users.{has_user_id, login_blocked, secret_of, get_totp_secret}
use gig.Store.Sessions.{is_none}
use gig.Handlers.Response.{Response, Handler, unprocessable, server_error, or_render}
use gig.Handlers.Session.{Crypto, AccountSettings}
use gig.Handlers.Auth.{
  is_active, is_match, check_account, check_password, check_code, missing_login, refuse_if,
  or_broken,
}
use gig.Handlers.Account.{is_valid_code}
use gig.Handlers.Checkout.{read_time}
use gig.Accounts.Sessions.{Holds, audit-Keeps}
use gig.Accounts.Quiet.{log_failure-Keeps}
use gig.Accounts.Passing.{passes_code, Front}

module _ (c : Crypto) (cfg : AccountSettings) (u : ℕ) (now0 : ℕ) (users0 : List User) where
  -- What is logged before the answer.
  logged :
      {A : Type 0} {P : Db → Type 0} {Q : A → Db → Type 0} (log : Handler (Unit {0})) (r : Response)
      → ((d : Db) → P d → Holds u d)
      → Keeps (Holds u) log
      → Leads P Q (Holds u) (log >> raise r)
  logged {Q = Q} log r weaker k = record {
    at = λ db h.
        (Leads-bind {Q = λ _. Holds u} {Q' = Q} log (λ _. raise r) (Leads-Keeps log (λ d q. q) k)
            (λ _. Leads-raise r)).at
          db (weaker db h);
  }

  raised :
      {A : Type 0} {P : Db → Type 0} {Q : A → Db → Type 0} (r : Response)
      → ((d : Db) → P d → Holds u d)
      → Leads P Q (Holds u) (raise r)
  unfolding raise
  raised r weaker = record { at = weaker }

  pub missing_login-Leads :
      {Q : User → Db → Type 0} (e : StoreError) → Leads (Holds u) Q (Holds u) (missing_login e)
  missing_login-Leads not_found = logged _ unprocessable (λ d h. h) (audit-Keeps u _ _ _)
  missing_login-Leads e = Leads-raise server_error

  refuse_if-Leads :
      (P : Db → Type 0) (b : Bool) (log : Handler (Unit {0})) (r : Response)
      → ((d : Db) → P d → Holds u d)
      → Keeps (Holds u) log
      → Leads P (λ _ d. P d × (b ≡ false)) (Holds u) (refuse_if b log r)
  refuse_if-Leads P true log r weaker k = logged log r weaker k
  refuse_if-Leads P false log r weaker k = Leads-pure tt (λ d h. (h, refl))

  read_time-Leads :
      (P : Db → Type 0)
      → ((d : Db) → P d → Front c cfg u now0 users0 d)
      → Leads {E = Response} P (λ t d. P d × (t ≡ now0)) (Holds u) read_time
  unfolding read_time pure
  read_time-Leads P front = record { at = λ db h. (h, (front db h).1.1) }

  pub check_account-Leads :
      (x : User) (P : Db → Type 0)
      → ((d : Db) → P d → Front c cfg u now0 users0 d)
      → Leads P
          (λ _ d. P d × (login_blocked now0 x ≡ false) × (is_active x.status ≡ true))
          (Holds u)
          (check_account x)
  unfolding check_account
  check_account-Leads x P front = Leads-bind read_time _ (read_time-Leads P front) λ t.
      Leads-bind _ _
        (refuse_if-Leads (λ d. P d × (t ≡ now0)) (login_blocked t x) _ unprocessable
          (λ d h. (front d h.0).0) (audit-Keeps u _ _ _))
        λ _.
          Leads-post _ (λ a d h. (h.0.0.0, rw (← h.0.0.1) h.0.1, ground (arith, h.1)))
            (refuse_if-Leads (λ d. (P d × (t ≡ now0)) × (login_blocked t x ≡ false))
              (not (is_active x.status)) _ unprocessable (λ d h. (front d h.0.0).0)
              (audit-Keeps u _ _ _))

  pub check_password-Leads :
      (x : User) (password : Bytes) (P : Db → Type 0)
      → ((d : Db) → P d → Front c cfg u now0 users0 d)
      → Leads P
          (λ _ d. P d × (is_match (verify_password c.passwords password x.password_hash) ≡ true))
          (Holds u)
          (check_password c cfg x password)
  unfolding check_password
  check_password-Leads x password P front =
      Leads-post _ (λ a d h. (h.0, ground (arith, h.1)))
        (refuse_if-Leads P _ _ unprocessable (λ d h. (front d h).0) (log_failure-Keeps u c cfg x))

  secret_read :
      (i : ℕ) (P : Db → Type 0) (r : Result StoreError Bytes) (db : Db)
      → r ≡ secret_of (find (has_user_id i) users0)
      → P db
      → Holds u db
      → Outcome (λ s d. P d × (secret_of (find (has_user_id i) users0) ≡ ok s)) (Holds u) r db
  secret_read i P (ok s) db e h k = (h, sym e)
  secret_read i P (err x) db e h k = k

  secret-Leads :
      (x : User) (P : Db → Type 0)
      → ((d : Db) → P d → Front c cfg u now0 users0 d)
      → ((d : Db) (rest : List Bool) → P d → P (record d { faults = rest }))
      → Leads P
          (λ s d. P d × (secret_of (find (has_user_id x.id) users0) ≡ ok s))
          (Holds u)
          (or_render (get_totp_secret x.id))
  unfolding get_totp_secret catch
  secret-Leads x P front free =
      Leads-branch (get_totp_secret x.id) pure (λ e. raise server_error)
        (Leads-statement _ free (λ d h. (front d h).0)
          (record {
            at = λ db h. secret_read x.id P _ db (rw (front db h).1.0 refl) h (front db h).0;
          }))
        (λ s. Leads-pure s (λ d h. h)) (λ e. Leads-raise server_error)

  or_broken-Leads :
      (r : Result TotpError Bool) (P : Db → Type 0)
      → ((d : Db) → P d → Holds u d)
      → Leads P (λ b d. P d × (r ≡ ok b)) (Holds u) (or_broken r)
  or_broken-Leads (ok b) P weaker = Leads-pure b (λ d h. (h, refl))
  or_broken-Leads (err e) P weaker = raised server_error weaker

  code_ok :
      {r : Result StoreError Bytes} (s code : Bytes) (t : ℕ) (b : Bool)
      → r ≡ ok s
      → t ≡ now0
      → verify_totp c.hmac c.base32_decode s code cfg.totp_skew t ≡ ok b
      → not b ≡ false
      → elim r as (λ x. Bool) [
        | ok secret ↦
            is_valid_code (verify_totp c.hmac c.base32_decode secret code cfg.totp_skew now0)
        | err e ↦ false
      ]
        ≡ true
  code_ok s code t b e same valid h = rw e (
      let now : verify_totp c.hmac c.base32_decode s code cfg.totp_skew now0 ≡ ok b =
        rw (← same) valid in
      rw now (ground arith))

  pub check_code-Leads :
      (x : User) (code : Bytes) (P : Db → Type 0)
      → ((d : Db) → P d → Front c cfg u now0 users0 d)
      → ((d : Db) (rest : List Bool) → P d → P (record d { faults = rest }))
      → Leads P
          (λ _ d. P d × (passes_code c cfg u now0 users0 code x ≡ true))
          (Holds u)
          (check_code c cfg x code)
  unfolding check_code
  check_code-Leads x code P front free = elim (Bool-cases (is_none x.totp_enabled_at)) [
    | inl off ↦ rw off (Leads-pure tt (λ d h. (h, refl)))
    | inr on ↦
        let Secret : Bytes → Db → Type 0 =
          λ s d. P d × (secret_of (find (has_user_id x.id) users0) ≡ ok s) in
        rw on (
          Leads-bind _ _ (secret-Leads x P front free) λ s.
            Leads-bind _ _ (Leads-guard _ unprocessable (λ d h. (front d h.0).0)) λ _.
              Leads-bind read_time _
                (read_time-Leads (λ d. Secret s d × (not (is_empty code) ≡ true))
                  (λ d h. front d h.0.0))
                λ t.
                  Leads-bind _ _
                    (or_broken-Leads _
                      (λ d. (Secret s d × (not (is_empty code) ≡ true)) × (t ≡ now0))
                      (λ d h. (front d h.0.0.0).0))
                    λ b.
                      Leads-post _
                        (λ a d h. (h.0.0.0.0.0, code_ok s code t b h.0.0.0.0.1 h.0.0.1 h.0.1 h.1))
                        (refuse_if-Leads _ (not b) _ unprocessable (λ d h. (front d h.0.0.0.0).0)
                          (log_failure-Keeps u c cfg x)))
  ]
