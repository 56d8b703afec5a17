-- ===== src/Accounts/Sessions.antt =====
-- What the calls of store/sessions.go, store/users.go and the others do to the sessions of a user who
-- has none that is open.
use gig.Base.{
  ℕ, ◌<◌, ◌==◌, false, ◌&&◌, Option, none, some, List, String, All, count_where, Bool-cases, ◌≡◌,
  inl, inr, refl, arith,
}
use gig.Base.Rows.{All-append_one, All-update_where}
use gig.Base.Text.{Bytes, is_empty}
use gig.Db.{
  Db, StoreError, Action, statement, pure, failed, Session, Flash, FlashKind, TokenKind, User,
  UserStatus, Role,
}
use gig.Db.Keeps.{Keeps, Keeps-statement, keeps_rules, Keeps-raise, Keeps-if}
use gig.Store.Orders.{write_audit, user_has_role, or_not_found}
use gig.Store.Users.{
  add_role, get_user_by_email, get_user_by_id, update_user, set_email_verified, update_name,
  update_email, update_password, set_totp, get_totp_secret, disable_totp, set_last_login,
  record_login_failure, set_user_status_admin,
}
use gig.Store.Sessions.{
  is_none, belongs_to, revoke, has_session_hash, new_session, add_session, create_session,
  get_session_by_token, rotate_session, revoke_session, revoke_user_sessions, set_flash,
  create_auth_token, get_auth_token, use_auth_token, is_open_at,
}
use gig.Store.Balances.{get_wallet}
use gig.Handlers.Response.{Response, audit, or_answer}
use gig.Handlers.Checkout.{read_time}
use gig.Handlers.Session.{flash, flash_on}

-- Not an open session of the user.
abbrev pub IsClosed : ℕ → Session → Type 0
IsClosed u s = (belongs_to u s && is_none s.revoked_at) ≡ false

-- The user has a number, and no session that is open.
abbrev pub IsSignedOut : ℕ → Db → Type 0
IsSignedOut u db = All (IsClosed u) db.sessions × (u < db.next_id)

revoked-IsClosed : (u now : ℕ) (s : Session) → IsClosed u (revoke now s)
revoked-IsClosed u now s = ground arith

or_not_found-same :
    {A : Type 0} (I : Db → Type 0) (o : Option A) (db : Db) → I db → I (or_not_found o db).1
or_not_found-same I none db h = h
or_not_found-same I (some a) db h = h

module _ (u : ℕ) where
  unfoldable pub Holds : Db → Type 0
  Holds db = IsSignedOut u db

  add_session-Keeps :
      (user : Option ℕ) (hash csrf : Bytes) (ttl : ℕ) (sessions : List Session) (db : Db)
      → IsClosed u (new_session db.next_id db.now user hash csrf ttl)
      → All (IsClosed u) sessions
      → Holds db
      → Holds (add_session user hash csrf ttl sessions db).1
  unfolding Holds
  add_session-Keeps user hash csrf ttl sessions db new all (old, low) =
      elim (Bool-cases (count_where (has_session_hash hash) sessions == 0)) [
        | inl e ↦ rw e (All-append_one (IsClosed u) sessions _ all new, omega arith)
        | inr e ↦ rw e (old, low)
      ]

  pub create_session-Keeps :
      (hash csrf : Bytes) (ttl : ℕ) → Keeps Holds (create_session none hash csrf ttl)
  unfolding create_session Holds
  create_session-Keeps hash csrf ttl =
      Keeps-if (is_empty csrf) _ _ (λ e. Keeps-raise failed)
        (λ e.
          Keeps-statement (λ db. add_session none hash csrf ttl db.sessions db) (λ d rest h. h)
            (record {
              at = λ db h. add_session-Keeps none hash csrf ttl db.sessions db refl h.0 h;
            }))

  pub rotate_session-Keeps :
      (old user : ℕ) (hash csrf : Bytes) (ttl : ℕ)
      → (user == u) ≡ false
      → Keeps Holds (rotate_session old user hash csrf ttl)
  unfolding rotate_session Holds
  rotate_session-Keeps old user hash csrf ttl differs =
      Keeps-statement _ (λ d rest h. h)
        (record {
          at = λ db h.
              add_session-Keeps (some user) hash csrf ttl _ db (rw differs refl)
                (All-update_where (IsClosed u) (is_open_at old) (revoke db.now) db.sessions
                  (λ s e q. revoked-IsClosed u db.now s) h.0)
                h;
        })

  pub revoke_session-Keeps : (i : ℕ) → Keeps Holds (revoke_session i)
  unfolding revoke_session Holds
  revoke_session-Keeps i =
      Keeps-statement _ (λ d rest h. h)
        (record {
          at = λ db h. (
            All-update_where (IsClosed u) _ (revoke db.now) db.sessions
                (λ s e q. revoked-IsClosed u db.now s) h.0,
            h.1,
          );
        })

  pub revoke_user_sessions-Keeps : (i k : ℕ) → Keeps Holds (revoke_user_sessions i k)
  unfolding revoke_user_sessions Holds
  revoke_user_sessions-Keeps i k =
      Keeps-statement _ (λ d rest h. h)
        (record {
          at = λ db h. (
            All-update_where (IsClosed u) _ (revoke db.now) db.sessions
                (λ s e q. revoked-IsClosed u db.now s) h.0,
            h.1,
          );
        })

  pub set_flash-Keeps : (i : ℕ) (f : Option Flash) → Keeps Holds (set_flash i f)
  unfolding set_flash Holds
  set_flash-Keeps i f =
      Keeps-statement _ (λ d rest h. h)
        (record {
          at = λ db h. (
            All-update_where (IsClosed u) _ (λ s. record s { flash = f }) db.sessions (λ s e q. q)
                h.0,
            h.1,
          );
        })

  pub flash-Keeps : (i : ℕ) (kind : FlashKind) (text : Bytes) → Keeps Holds (flash i kind text)
  unfolding flash
  flash-Keeps i kind text = search (keeps_rules, set_flash-Keeps)

  pub flash_on-Keeps :
      (s : Option Session) (kind : FlashKind) (text : Bytes) → Keeps Holds (flash_on s kind text)
  unfolding flash_on
  flash_on-Keeps none kind text = search keeps_rules
  flash_on-Keeps (some s) kind text = flash-Keeps s.id kind text

  pub write_audit-Keeps :
      (actor : Option ℕ) (action : String) (target : ℕ)
      → Keeps Holds (write_audit actor action target)
  unfolding write_audit Holds
  write_audit-Keeps actor action target =
      Keeps-statement _ (λ d rest h. h) (record { at = λ db h. (h.0, omega arith) })

  pub audit-Keeps :
      {E : Type 0} (actor : Option ℕ) (action : String) (target : ℕ)
      → Keeps {E = E} Holds (audit actor action target)
  unfolding audit
  audit-Keeps actor action target = search (keeps_rules, write_audit-Keeps)

  -- A call that writes no session and gives no number back.
  pub quiet :
      {A : Type 0} (f : Action StoreError A)
      → ((db : Db) → ((f db).1.sessions ≡ db.sessions) × ((f db).1.next_id ≡ db.next_id))
      → Keeps Holds (statement f)
  unfolding Holds
  quiet f same =
      Keeps-statement _ (λ d rest h. h) (record { at = λ db h. rw ((same db).0, (same db).1) h })

  pub read_time-Keeps : {E : Type 0} → Keeps {E = E} Holds read_time
  unfolding read_time Holds pure
  read_time-Keeps = record { at = λ db h. h }

  pub or_answer-Keeps : {A : Type 0} (o : Option A) (r : Response) → Keeps Holds (or_answer o r)
  or_answer-Keeps none r = search keeps_rules
  or_answer-Keeps (some a) r = search keeps_rules

  pub user_has_role-Keeps : (i : ℕ) (r : Role) → Keeps Holds (user_has_role i r)
  unfolding user_has_role
  user_has_role-Keeps i r = quiet _ (λ db. (refl, refl))

  pub add_role-Keeps : (i : ℕ) (r : Role) → Keeps Holds (add_role i r)
  unfolding add_role
  add_role-Keeps i r = quiet _ (λ db. (refl, refl))

  read-Keeps :
      {A : Type 0} (read : Db → Option A) → Keeps Holds (statement λ db. or_not_found (read db) db)
  unfolding Holds
  read-Keeps read =
      Keeps-statement _ (λ d rest h. h)
        (record { at = λ db h. or_not_found-same Holds (read db) db h })

  pub get_user_by_id-Keeps : (i : ℕ) → Keeps Holds (get_user_by_id i)
  unfolding get_user_by_id
  get_user_by_id-Keeps i = read-Keeps _

  pub get_user_by_email-Keeps : (email : Bytes) → Keeps Holds (get_user_by_email email)
  unfolding get_user_by_email
  get_user_by_email-Keeps email = read-Keeps _

  pub get_session_by_token-Keeps : (hash : Bytes) → Keeps Holds (get_session_by_token hash)
  unfolding get_session_by_token
  get_session_by_token-Keeps hash = read-Keeps _

  pub get_auth_token-Keeps :
      (kind : TokenKind) (hash : Bytes) → Keeps Holds (get_auth_token kind hash)
  unfolding get_auth_token
  get_auth_token-Keeps kind hash = read-Keeps _

  pub get_wallet-Keeps : (i : ℕ) → Keeps Holds (get_wallet i)
  unfolding get_wallet
  get_wallet-Keeps i = read-Keeps _

  pub update_user-Keeps : (i : ℕ) (f : ℕ → User → User) → Keeps Holds (update_user i f)
  unfolding update_user
  update_user-Keeps i f = quiet _ (λ db. (refl, refl))

  pub set_email_verified-Keeps : (i : ℕ) → Keeps Holds (set_email_verified i)
  unfolding set_email_verified
  set_email_verified-Keeps i = quiet _ (λ db. (refl, refl))

  pub update_name-Keeps : (i : ℕ) (name : Bytes) → Keeps Holds (update_name i name)
  unfolding update_name
  update_name-Keeps i name = quiet _ (λ db. (refl, refl))

  pub update_password-Keeps : (i : ℕ) (hash : Bytes) → Keeps Holds (update_password i hash)
  unfolding update_password
  update_password-Keeps i hash = quiet _ (λ db. (refl, refl))

  pub disable_totp-Keeps : (i : ℕ) → Keeps Holds (disable_totp i)
  unfolding disable_totp
  disable_totp-Keeps i = quiet _ (λ db. (refl, refl))

  pub set_last_login-Keeps : (i : ℕ) → Keeps Holds (set_last_login i)
  unfolding set_last_login
  set_last_login-Keeps i = quiet _ (λ db. (refl, refl))

  pub record_login_failure-Keeps : (i n k : ℕ) → Keeps Holds (record_login_failure i n k)
  unfolding record_login_failure
  record_login_failure-Keeps i n k = quiet _ (λ db. (refl, refl))

  pub update_email-Keeps : (i : ℕ) (email : Bytes) → Keeps Holds (update_email i email)
  unfolding update_email
  update_email-Keeps i email = quiet _ (λ db. ground arith)

  pub set_totp-Keeps : (i : ℕ) (secret : Bytes) → Keeps Holds (set_totp i secret)
  unfolding set_totp
  set_totp-Keeps i secret = quiet _ (λ db. ground arith)

  pub get_totp_secret-Keeps : (i : ℕ) → Keeps Holds (get_totp_secret i)
  unfolding get_totp_secret
  get_totp_secret-Keeps i = quiet _ (λ db. (refl, refl))

  pub set_user_status_admin-Keeps :
      (i : ℕ) (s : UserStatus) (reason : Bytes) → Keeps Holds (set_user_status_admin i s reason)
  unfolding set_user_status_admin
  set_user_status_admin-Keeps i s reason = quiet _ (λ db. (refl, refl))

  pub use_auth_token-Keeps : (i : ℕ) → Keeps Holds (use_auth_token i)
  unfolding use_auth_token
  use_auth_token-Keeps i = quiet _ (λ db. (refl, refl))

  pub create_auth_token-Keeps :
      (i : ℕ) (kind : TokenKind) (hash : Bytes) (ttl : ℕ)
      → Keeps Holds (create_auth_token i kind hash ttl)
  unfolding create_auth_token Holds
  create_auth_token-Keeps i kind hash ttl =
      Keeps-statement _ (λ d rest h. h) (record { at = λ db h. ground arith })

pub ruleset session_rules = (
  keeps_rules, create_session-Keeps, rotate_session-Keeps, revoke_session-Keeps,
  revoke_user_sessions-Keeps, set_flash-Keeps, flash-Keeps, flash_on-Keeps, write_audit-Keeps,
  audit-Keeps, read_time-Keeps, or_answer-Keeps, user_has_role-Keeps, add_role-Keeps,
  get_user_by_id-Keeps, get_user_by_email-Keeps, get_session_by_token-Keeps, get_auth_token-Keeps,
  get_wallet-Keeps, set_email_verified-Keeps, update_name-Keeps, update_password-Keeps,
  disable_totp-Keeps, set_last_login-Keeps, record_login_failure-Keeps, update_email-Keeps,
  set_totp-Keeps, get_totp_secret-Keeps, set_user_status_admin-Keeps, use_auth_token-Keeps,
  create_auth_token-Keeps,
)
