-- ===== src/Accounts/Registration.antt =====
-- register of handlers/auth.go: a new user is nobody who has a number.
use gig.Base.{ℕ, ◌==◌, false, Option, count_where, Bool-cases, ◌≡◌, inl, inr, arith}
use gig.Base.Text.{Bytes}
use gig.Db.{Db, pure, raise, catch, Session}
use gig.Db.Keeps.{Keeps}
use gig.Db.Leads.{
  Leads, Leads-Keeps, Keeps-Leads, Leads-bind, Leads-branch, Leads-pure, Leads-raise,
  Leads-statement,
}
use gig.Store.Users.{has_email, normalize_email, create_user, insert_user}
use gig.Handlers.Session.{Crypto, AccountSettings, Visitor}
use gig.Handlers.Auth.{RegisterForm, welcome, enroll, register, taken_or_error}
use gig.Accounts.Sessions.{Holds, session_rules, add_role-Keeps}
use gig.Accounts.Quiet.{ensure_session-Keeps, hash_with-Keeps, mail_token-Keeps, rotate-Keeps}

module _ (u : ℕ) where
  Other : ℕ → Db → Type 0
  Other i d = Holds u d × ((i == u) ≡ false)

  -- A new user gets a number that was not given yet.
  insert_user-Leads :
      (email hash name locale : Bytes)
      → Leads (Holds u) Other (Holds u) (insert_user email hash name locale)
  unfolding insert_user Other Holds
  insert_user-Leads email hash name locale =
      Leads-statement _ (λ d rest h. h) (λ d h. h)
        (record {
          at = λ db h.
              elim (Bool-cases (count_where (has_email (normalize_email email)) db.users == 0)) [
                | inl e ↦ rw e ((h.0, omega arith), ground (arith, h.1))
                | inr e ↦ rw e h
              ];
        })

  create_user-Leads :
      (email hash name locale : Bytes)
      → Leads (Holds u) Other (Holds u) (create_user email hash name locale)
  unfolding create_user Other
  create_user-Leads email hash name locale =
      Leads-bind _ _ (insert_user-Leads email hash name _) λ i.
        Leads-bind _ _
          (Leads-Keeps _ (λ d h. h.0)
            (record { at = λ db h. ((add_role-Keeps u i _).at db h.0, h.1) }))
          λ _. Leads-pure i (λ d h. h)

  module _ (c : Crypto) (cfg : AccountSettings) where
    welcome-Keeps :
        (v : Visitor) (sess : Session) (i : ℕ)
        → (i == u) ≡ false
        → Keeps (Holds u) (welcome c cfg v sess i)
    unfolding welcome
    welcome-Keeps v sess i differs =
        search (session_rules, mail_token-Keeps, rotate-Keeps) depth 40 fits 8000

    enroll-Keeps :
        (v : Visitor) (sess : Session) (email hash name : Bytes)
        → Keeps (Holds u) (enroll c cfg v sess email hash name)
    unfolding enroll catch Other
    enroll-Keeps v sess email hash name = Keeps-Leads _ (
        Leads-bind {Q = Other} _ _
          (Leads-branch (create_user email hash name _) pure (λ e. raise (taken_or_error e))
            (create_user-Leads email hash name _) (λ i. Leads-pure i (λ d h. h))
            (λ e. Leads-raise _))
          (λ i. record {
            at = λ db h.
                (Leads-Keeps (welcome c cfg v sess i) (λ d k. k) (welcome-Keeps v sess i h.1)).at db
                  h.0;
          }))

    pub register-Keeps :
        (v : Visitor) (form : Option RegisterForm) → Keeps (Holds u) (register c cfg v form)
    unfolding register
    register-Keeps v form =
        search (session_rules, ensure_session-Keeps, hash_with-Keeps, enroll-Keeps) depth 40 fits
          8000
