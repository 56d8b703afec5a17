-- ===== src/Store/Sessions.antt =====
-- store/sessions.go and store/auth_tokens.go. Token hashes are unique in their tables; the formats of
-- hashes and CSRF tokens are those that the program's generators write.
use gig.Base.{
  ℕ, ◌+◌, Bool, true, false, not, ◌&&◌, ◌||◌, Option, none, some, List, [], ◌∷◌, ◌++◌, ltb, ◌==◌,
  if◌then◌else◌, find, update_where, count_where,
}
use gig.Base.Text.{Bytes, bytes_eq, is_empty}
use gig.Base.Result.{Result, ok, err}
use gig.Db.{
  Db, StoreError, failed, Action, statement, not_found, raise, Session, Flash, AuthToken, TokenKind,
  email_verification, password_reset, wallet_confirmation,
}
use gig.Store.Orders.{or_not_found}

abbrev pub is_none : {A : Type 0} → Option A → Bool
is_none none = true
is_none (some a) = false

abbrev pub has_session_id : ℕ → Session → Bool
has_session_id i s = s.id == i

abbrev pub has_session_hash : Bytes → Session → Bool
has_session_hash hash s = bytes_eq s.token_hash hash

abbrev pub new_session : ℕ → ℕ → Option ℕ → Bytes → Bytes → ℕ → Session
new_session id now user hash csrf ttl = record {
  id = id;
  user_id = user;
  token_hash = hash;
  csrf_token = csrf;
  expires_at = now + ttl;
  flash = none;
  revoked_at = none;
  last_seen_at = now;
  created_at = now;
}

-- The INSERT of the next session into the table.
abbrev pub add_session : Option ℕ → Bytes → Bytes → ℕ → List Session → Db → Result StoreError ℕ × Db
add_session user hash csrf ttl sessions db =
    if count_where (has_session_hash hash) sessions == 0
    then (
      ok db.next_id,
      record db {
        sessions = sessions ++ new_session db.next_id db.now user hash csrf ttl ∷ [];
        next_id = db.next_id + 1;
      },
    )
    else (err failed, db)

-- CreateSession
unfoldable pub create_session : Option ℕ → Bytes → Bytes → ℕ → Action StoreError ℕ
unfolding statement bytes_eq
create_session user hash csrf ttl =
    if is_empty csrf
    then raise failed
    else statement λ db. add_session user hash csrf ttl db.sessions db

abbrev pub is_live_session : Bytes → ℕ → Session → Bool
is_live_session hash now s =
    has_session_hash hash s && (is_none s.revoked_at && ltb now s.expires_at)

-- GetSessionByToken
unfoldable pub get_session_by_token : Bytes → Action StoreError Session
unfolding statement bytes_eq
get_session_by_token hash =
    statement λ db. or_not_found (find (is_live_session hash db.now) db.sessions) db

-- `SET revoked_at = now()`
abbrev pub revoke : ℕ → Session → Session
revoke now s = record s { revoked_at = some now }

-- `WHERE id = $1 AND revoked_at IS NULL`
abbrev pub is_open_at : ℕ → Session → Bool
is_open_at i s = s.id == i && is_none s.revoked_at

-- RotateSession: one transaction.
unfoldable pub rotate_session : ℕ → ℕ → Bytes → Bytes → ℕ → Action StoreError ℕ
unfolding statement bytes_eq
rotate_session old user hash csrf ttl = statement λ db.
    add_session (some user) hash csrf ttl
      (update_where (is_open_at old) (revoke db.now) db.sessions) db

-- RevokeSession
unfoldable pub revoke_session : ℕ → Action StoreError (Unit {0})
unfolding statement
revoke_session i = statement λ db. (
  if count_where (is_open_at i) db.sessions == 0 then err not_found else ok tt,
  record db { sessions = update_where (is_open_at i) (revoke db.now) db.sessions },
)

abbrev pub belongs_to : ℕ → Session → Bool
belongs_to user s = elim s.user_id [ none ↦ false | some u ↦ u == user ]

-- `WHERE user_id = $1 AND id <> $2 AND revoked_at IS NULL`
abbrev pub is_other_open : ℕ → ℕ → Session → Bool
is_other_open user except s = belongs_to user s && (not (s.id == except) && is_none s.revoked_at)

-- RevokeUserSessions
unfoldable pub revoke_user_sessions : ℕ → ℕ → Action StoreError (Unit {0})
unfolding statement
revoke_user_sessions user except = statement λ db. (
  ok tt,
  record db { sessions = update_where (is_other_open user except) (revoke db.now) db.sessions },
)

-- SetFlash
unfoldable pub set_flash : ℕ → Option Flash → Action StoreError (Unit {0})
unfolding statement
set_flash i f = statement λ db. (
  ok tt,
  record db {
    sessions = update_where (has_session_id i) (λ s. record s { flash = f }) db.sessions;
  },
)

-- A row that is not there has no result to scan.
abbrev pub old_flash : Option Session → Result StoreError (Option Flash)
old_flash none = err failed
old_flash (some s) = ok s.flash

-- ConsumeFlash
unfoldable pub consume_flash : ℕ → Action StoreError (Option Flash)
unfolding statement
consume_flash i = statement λ db. (
  old_flash (find (has_session_id i) db.sessions),
  record db {
    sessions = update_where (has_session_id i) (λ s. record s { flash = none }) db.sessions;
  },
)

abbrev pub without_rows : {A : Type 0} → (A → Bool) → List A → List A
without_rows p [] = []
without_rows p (x ∷ xs) = let rest = without_rows p xs in if p x then rest else x ∷ rest

abbrev pub seven_days : ℕ
seven_days = 604800

-- `expires_at < now() OR revoked_at IS NOT NULL AND last_seen_at < now() - interval '7 days'`
abbrev pub is_stale_session : ℕ → Session → Bool
is_stale_session now s =
    ltb s.expires_at now || (not (is_none s.revoked_at) && ltb (s.last_seen_at + seven_days) now)

-- DeleteExpiredSessions
unfoldable pub delete_expired_sessions : Action StoreError ℕ
unfolding statement
delete_expired_sessions = statement λ db. (
  ok (count_where (is_stale_session db.now) db.sessions),
  record db { sessions = without_rows (is_stale_session db.now) db.sessions },
)

-- `CHECK (kind IN ('email_verification', 'password_reset'))` of migrations/0002_identity.sql, which no
-- later migration changes.
abbrev pub is_kind_allowed : TokenKind → Bool
is_kind_allowed email_verification = true
is_kind_allowed password_reset = true
is_kind_allowed wallet_confirmation = false

abbrev pub same_kind : TokenKind → TokenKind → Bool
same_kind email_verification email_verification = true
same_kind password_reset password_reset = true
same_kind wallet_confirmation wallet_confirmation = true
same_kind _ _ = false

abbrev pub new_token : ℕ → ℕ → ℕ → TokenKind → Bytes → ℕ → AuthToken
new_token id now user kind hash ttl = record {
  id = id;
  user_id = user;
  kind = kind;
  token_hash = hash;
  expires_at = now + ttl;
  used_at = none;
  created_at = now;
}

-- CreateAuthToken
unfoldable pub create_auth_token : ℕ → TokenKind → Bytes → ℕ → Action StoreError ℕ
unfolding statement bytes_eq
create_auth_token user kind hash ttl = statement λ db.
    if is_kind_allowed kind && count_where (λ t. bytes_eq t.token_hash hash) db.auth_tokens == 0
    then (
      ok db.next_id,
      record db {
        auth_tokens = db.auth_tokens ++ new_token db.next_id db.now user kind hash ttl ∷ [];
        next_id = db.next_id + 1;
      },
    )
    else (err failed, db)

abbrev pub is_live_token : TokenKind → Bytes → ℕ → AuthToken → Bool
is_live_token kind hash now t =
    same_kind kind t.kind
    && (bytes_eq t.token_hash hash && (is_none t.used_at && ltb now t.expires_at))

-- GetAuthToken
unfoldable pub get_auth_token : TokenKind → Bytes → Action StoreError AuthToken
unfolding statement bytes_eq
get_auth_token kind hash =
    statement λ db. or_not_found (find (is_live_token kind hash db.now) db.auth_tokens) db

-- UseAuthToken
unfoldable pub use_auth_token : ℕ → Action StoreError (Unit {0})
unfolding statement
use_auth_token i = statement λ db. (
  ok tt,
  record db {
    auth_tokens =
        update_where (λ t. t.id == i && is_none t.used_at) (λ t. record t { used_at = some db.now })
          db.auth_tokens;
  },
)

abbrev pub is_spent_token : ℕ → AuthToken → Bool
is_spent_token now t = ltb t.expires_at now || not (is_none t.used_at)

-- DeleteExpiredAuthTokens
unfoldable pub delete_expired_auth_tokens : Action StoreError ℕ
unfolding statement
delete_expired_auth_tokens = statement λ db. (
  ok (count_where (is_spent_token db.now) db.auth_tokens),
  record db { auth_tokens = without_rows (is_spent_token db.now) db.auth_tokens },
)
