-- ===== src/Accounts/Visitors.antt =====
-- withSession of handlers/middleware.go: who makes a request is not a user without an open session.
use gig.Base.{ℕ, ◌==◌, true, false, Option, none, some, List, find, ◌≡◌, refl, sym, arith}
use gig.Base.Rows.{All-find}
use gig.Base.Text.{Bytes}
use gig.Db.{Db, Session, User}
use gig.Db.Table.{find-passes}
use gig.Db.Leads.{Leads, Leads-branch, Leads-pure, Leads-statement, Leads-post, Outcome}
use gig.Store.Orders.{or_not_found}
use gig.Store.Users.{has_user_id, get_user_by_id}
use gig.Store.Sessions.{belongs_to, is_live_session, get_session_by_token}
use gig.Handlers.Session.{Crypto, AccountSettings, WebRequest, Visitor, with_session, with_user}
use gig.Accounts.Sessions.{IsClosed, Holds}
use gig.Accounts.Passing.{Front}

module _ (u : ℕ) where
  abbrev pub NotUser : Option User → Type 0
  NotUser none = Unit
  NotUser (some x) = (x.id == u) ≡ false

  module _ (c : Crypto) (cfg : AccountSettings) where
    module _ (now0 : ℕ) (users0 : List User) where
      unfoldable pub Start : Db → Type 0
      Start d = Front c cfg u now0 users0 d

      session_read :
          (hash : Bytes) (o : Option Session) (db : Db)
          → o ≡ find (is_live_session hash db.now) db.sessions
          → Start db
          → Outcome
              (λ s d. Start d × (belongs_to u s ≡ false))
              Start
              (or_not_found o db).0
              (or_not_found o db).1
      unfolding Start Holds
      session_read hash none db e h = h
      session_read hash (some s) db e h =
          let (closed, live) =
            All-find (IsClosed u) (is_live_session hash db.now) db.sessions s h.0.0 (sym e) in
          (h, ground (arith, closed, live))

      get_session_by_token-Leads :
          (hash : Bytes)
          → Leads Start
              (λ s d. Start d × (belongs_to u s ≡ false))
              Start
              (get_session_by_token hash)
      unfolding get_session_by_token Start Holds
      get_session_by_token-Leads hash =
          Leads-statement _ (λ d rest h. h) (λ d h. h)
            (record { at = λ db h. session_read hash _ db refl h })

      user_read :
          (i : ℕ) (o : Option User) (db : Db)
          → o ≡ find (has_user_id i) db.users
          → Start db
          → Outcome
              (λ x d. Start d × ((x.id == i) ≡ true))
              Start
              (or_not_found o db).0
              (or_not_found o db).1
      user_read i none db e h = h
      user_read i (some x) db e h = (h, find-passes (has_user_id i) db.users x (sym e))

      get_user_by_id-Leads :
          (i : ℕ) → Leads Start (λ x d. Start d × ((x.id == i) ≡ true)) Start (get_user_by_id i)
      unfolding get_user_by_id Start Holds
      get_user_by_id-Leads i =
          Leads-statement _ (λ d rest h. h) (λ d h. h)
            (record { at = λ db h. user_read i _ db refl h })

      -- The session that a cookie names is not the user's.
      unfoldable pub Apart : Visitor → Db → Type 0
      Apart v d = Start d × NotUser v.user

      with_user-Leads :
          (r : WebRequest) (s : Session) (i : Option ℕ)
          → s.user_id ≡ i
          → Leads (λ d. Start d × (belongs_to u s ≡ false)) Apart Start (with_user r s i)
      unfolding with_user Apart
      with_user-Leads r s none e = Leads-pure _ (λ d h. (h.0, tt))
      with_user-Leads r s (some i) e =
          let differs : belongs_to u s ≡ false → (i == u) ≡ false = λ h. rw e at h in
          Leads-branch (get_user_by_id i) _ _
            (record {
              at = λ db h.
                  (Leads-post {Q' = λ x d. Start d × ((x.id == u) ≡ false)} (get_user_by_id i)
                      (λ x d k. (k.0, ground (arith, k.1, differs h.1)))
                      (get_user_by_id-Leads i)).at
                    db h.0;
            })
            (λ x. Leads-pure _ (λ d h. h)) (λ x. Leads-pure _ (λ d h. (h, tt)))

      pub with_session-Leads :
          (r : WebRequest) (cookie : Option Bytes)
          → Leads Start Apart Start (with_session c cfg r cookie)
      unfolding with_session Apart
      with_session-Leads r none = Leads-pure _ (λ d h. (h, tt))
      with_session-Leads r (some value) =
          Leads-branch (get_session_by_token (c.sha256_hex value)) _ _
            (get_session_by_token-Leads _) (λ s. with_user-Leads r s s.user_id refl)
            (λ e. Leads-pure _ (λ d h. (h, tt)))
