-- ===== src/Accounts/Passing.antt =====
-- What a login of handlers/auth.go has to pass, said of the table of users that it starts from.
use gig.Base.{
  ℕ, ◌==◌, Bool, false, not, ◌&&◌, ◌||◌, Option, none, some, List, find, Bool-cases, count_where,
  ◌≡◌, inl, inr, refl, sym,
}
use gig.Base.Text.{Bytes, trim_space, is_empty}
use gig.Base.Result.{ok, err}
use gig.Totp.{verify_totp}
use gig.Passwords.{verify_password}
use gig.Db.{Db, Action, pure, User, Session}
use gig.Db.Keeps.{Keeps, Keeps-statement, keeps_rules}
use gig.Db.Leads.{Leads, Leads-Keeps, Leads-statement, Outcome}
use gig.Store.Orders.{or_not_found}
use gig.Store.Users.{
  normalize_email, has_email, has_user_id, login_blocked, secret_of, get_user_by_email,
}
use gig.Store.Sessions.{is_none, has_session_hash, create_session, add_session}
use gig.Handlers.Response.{Response, or_answer}
use gig.Handlers.Session.{Crypto, AccountSettings, Visitor, ensure_session}
use gig.Handlers.Auth.{LoginForm, is_active, is_match}
use gig.Handlers.Account.{is_valid_code}
use gig.Handlers.Checkout.{read_time}
use gig.Accounts.Sessions.{Holds}

module _ (c : Crypto) (cfg : AccountSettings) (u : ℕ) (now0 : ℕ) (users0 : List User) where
  -- The code of the second factor, if the account has one.
  abbrev pub passes_code : Bytes → User → Bool
  passes_code code x =
      is_none x.totp_enabled_at || elim (secret_of (find (has_user_id x.id) users0)) [
        | ok secret ↦
            is_valid_code (verify_totp c.hmac c.base32_decode secret code cfg.totp_skew now0)
        | err e ↦ false
      ]

  abbrev pub passes_as : LoginForm → User → Bool
  passes_as f x =
      x.id == u
      && (not (login_blocked now0 x)
          && (is_active x.status
              && (is_match (verify_password c.passwords f.password x.password_hash)
                  && passes_code (trim_space f.totp_code) x)))

  abbrev pub passes_found : LoginForm → Option User → Bool
  passes_found f none = false
  passes_found f (some x) = passes_as f x

  -- The form has the email of the user, who is neither locked out nor suspended, the password and,
  -- where it is on, a code of the second factor.
  abbrev pub passes_login : LoginForm → Bool
  passes_login f = passes_found f (find (has_email (normalize_email (trim_space f.email))) users0)

  abbrev Same : Db → Type 0
  Same db = (db.users ≡ users0) × (db.now ≡ now0)

  abbrev pub Front : Db → Type 0
  Front db = Holds u db × Same db

  pub to_holds : (d : Db) → Front d → Holds u d
  to_holds d h = h.0

  add_session-Same :
      (user : Option ℕ) (hash csrf : Bytes) (ttl : ℕ) (db : Db)
      → Same db
      → Same (add_session user hash csrf ttl db.sessions db).1
  add_session-Same user hash csrf ttl db h =
      elim (Bool-cases (count_where (has_session_hash hash) db.sessions == 0)) [
        | inl e ↦ rw e h
        | inr e ↦ rw e h
      ]

  create_session-Same :
      (hash csrf : Bytes) (ttl : ℕ) → Keeps Same (create_session none hash csrf ttl)
  unfolding create_session
  create_session-Same hash csrf ttl = elim (Bool-cases (is_empty csrf)) [
    | inl e ↦ rw e (search keeps_rules)
    | inr e ↦ rw e (
        Keeps-statement _ (λ d rest h. h)
          (record { at = λ db h. add_session-Same none hash csrf ttl db h }))
  ]

  read_time-Same : {E : Type 0} → Keeps {E = E} Same read_time
  unfolding read_time pure
  read_time-Same = record { at = λ db h. h }

  or_answer-Same : {A : Type 0} (o : Option A) (r : Response) → Keeps Same (or_answer o r)
  or_answer-Same none r = search keeps_rules
  or_answer-Same (some a) r = search keeps_rules

  pub ensure_session-Same :
      (v : Visitor) (s : Option Session) → Keeps Same (ensure_session c cfg v s)
  unfolding ensure_session
  ensure_session-Same v none =
      search (keeps_rules, create_session-Same, read_time-Same, or_answer-Same) depth 30
  ensure_session-Same v (some s) = search keeps_rules

  pub both :
      {E A : Type 0} (m : Action E A)
      → Keeps (Holds u) m
      → Keeps Same m
      → Leads Front (λ _. Front) (Holds u) m
  both m k j = Leads-Keeps m to_holds (record { at = λ db h. (k.at db h.0, j.at db h.1) })

  -- The user that is read has the email.
  found :
      (email : Bytes) (o : Option User) (db : Db)
      → o ≡ find (has_email (normalize_email email)) users0
      → Front db
      → Outcome
          (λ x d. Front d × (find (has_email (normalize_email email)) users0 ≡ some x))
          (Holds u)
          (or_not_found o db).0
          (or_not_found o db).1
  found email none db e h = h.0
  found email (some x) db e h = (h, sym e)

  pub get_user_by_email-Leads :
      (email : Bytes)
      → Leads Front
          (λ x d. Front d × (find (has_email (normalize_email email)) users0 ≡ some x))
          (Holds u)
          (get_user_by_email email)
  unfolding get_user_by_email Holds
  get_user_by_email-Leads email =
      Leads-statement _ (λ d rest h. h) to_holds
        (record { at = λ db h. found email _ db (rw h.1.0 refl) h })
