-- ===== src/Store/Users.antt =====
-- store/users.go: the accounts and their roles, and SetUserStatusAdmin of store/admin.go. An email's
-- format is checked before each call that writes one, so the constraint on it never fails here.
use gig.Base.{
  ℕ, ◌+◌, Bool, false, not, ◌&&◌, Option, none, some, [], ◌∷◌, ◌++◌, length, ltb, leb, ◌==◌,
  if◌then◌else◌, find, update_where, count_where,
}
use gig.Base.Text.{Bytes, bytes_eq, codes, to_lower, trim_space, is_empty}
use gig.Base.Result.{Result, ok, err}
use gig.Db.{
  Db, StoreError, not_found, email_taken, failed, Action, statement, ◌>>=◌, ◌>>◌, pure, User, Role,
  buyer_role, UserStatus, user_active,
}
use gig.Store.Orders.{or_not_found, has_role}

-- NormalizeEmail
unfoldable pub normalize_email : Bytes → Bytes
unfolding to_lower trim_space
normalize_email email = to_lower (trim_space email)

abbrev pub has_user_id : ℕ → User → Bool
has_user_id i u = u.id == i

abbrev pub has_email : Bytes → User → Bool
has_email lower u = bytes_eq u.email_lower lower

abbrev pub new_user : ℕ → ℕ → Bytes → Bytes → Bytes → Bytes → User
new_user id now email hash name locale = record {
  id = id;
  email = email;
  email_lower = normalize_email email;
  password_hash = hash;
  name = name;
  locale = locale;
  status = user_active;
  email_verified_at = none;
  totp_secret = none;
  totp_enabled_at = none;
  failed_login_attempts = 0;
  locked_until = none;
  last_login_at = none;
  restriction_reason = [];
  created_at = now;
  updated_at = now;
}

-- The INSERT, with the unique constraint on email_lower.
unfoldable pub insert_user : Bytes → Bytes → Bytes → Bytes → Action StoreError ℕ
unfolding statement normalize_email bytes_eq
insert_user email hash name locale = statement λ db.
    if count_where (has_email (normalize_email email)) db.users == 0
    then (
      ok db.next_id,
      record db {
        users = db.users ++ new_user db.next_id db.now email hash name locale ∷ [];
        next_id = db.next_id + 1;
      },
    )
    else (err email_taken, db)

-- AddRole, `ON CONFLICT DO NOTHING`
unfoldable pub add_role : ℕ → Role → Action StoreError (Unit {0})
unfolding statement
add_role i r = statement λ db. (
  ok tt,
  record db {
    user_roles =
        if has_role i r db.user_roles
        then db.user_roles
        else db.user_roles ++ record { user_id = i; role = r } ∷ [];
  },
)

-- CreateUser: two statements and no transaction.
unfoldable pub create_user : Bytes → Bytes → Bytes → Bytes → Action StoreError ℕ
unfolding insert_user add_role pure
create_user email hash name locale = do
  i ← insert_user email hash name (if is_empty locale then codes "en" else locale)
  add_role i buyer_role
  pure i

-- GetUserByEmail
unfoldable pub get_user_by_email : Bytes → Action StoreError User
unfolding statement normalize_email bytes_eq
get_user_by_email email =
    statement λ db. or_not_found (find (has_email (normalize_email email)) db.users) db

-- GetUserByID
unfoldable pub get_user_by_id : ℕ → Action StoreError User
unfolding statement
get_user_by_id i = statement λ db. or_not_found (find (has_user_id i) db.users) db

-- `UPDATE users SET ... , updated_at = now() WHERE id = $1`
unfoldable pub update_user : ℕ → (ℕ → User → User) → Action StoreError (Unit {0})
unfolding statement
update_user i f = statement λ db. (
  ok tt,
  record db {
    users =
        update_where (has_user_id i) (λ u. record (f db.now u) { updated_at = db.now }) db.users;
  },
)

-- `coalesce(email_verified_at, now())`
abbrev pub or_now : ℕ → Option ℕ → Option ℕ
or_now now none = some now
or_now now (some t) = some t

-- SetEmailVerified
unfoldable pub set_email_verified : ℕ → Action StoreError (Unit {0})
unfolding update_user
set_email_verified i =
    update_user i (λ now u. record u { email_verified_at = or_now now u.email_verified_at })

-- UpdateName
unfoldable pub update_name : ℕ → Bytes → Action StoreError (Unit {0})
unfolding update_user
update_name i name = update_user i (λ now u. record u { name = name })

-- Another account has the email, and the UPDATE hits a row.
abbrev pub is_email_clash : ℕ → Bytes → Db → Bool
is_email_clash i lower db =
    ltb 0 (count_where (has_user_id i) db.users)
    && ltb 0 (count_where (λ u. not (u.id == i) && has_email lower u) db.users)

abbrev pub change_email : ℕ → Bytes → User → User
change_email now email u = record u {
  email = email;
  email_lower = normalize_email email;
  email_verified_at = none;
  updated_at = now;
}

-- UpdateEmail
unfoldable pub update_email : ℕ → Bytes → Action StoreError (Unit {0})
unfolding statement normalize_email bytes_eq
update_email i email = statement λ db.
    if is_email_clash i (normalize_email email) db then (err email_taken, db) else (
      ok tt,
      record db { users = update_where (has_user_id i) (change_email db.now email) db.users },
    )

-- UpdatePassword
unfoldable pub update_password : ℕ → Bytes → Action StoreError (Unit {0})
unfolding update_user
update_password i hash = update_user i (λ now u. record u { password_hash = hash })

abbrev pub enable_totp : ℕ → Bytes → User → User
enable_totp now secret u = record u {
  totp_secret = some secret;
  totp_enabled_at = some now;
  updated_at = now;
}

-- SetTOTP, with the constraint that a secret has 16 characters at least.
unfoldable pub set_totp : ℕ → Bytes → Action StoreError (Unit {0})
unfolding statement
set_totp i secret = statement λ db.
    if ltb 0 (count_where (has_user_id i) db.users) && ltb (length secret) 16
    then (err failed, db)
    else (
      ok tt,
      record db { users = update_where (has_user_id i) (enable_totp db.now secret) db.users },
    )

abbrev pub or_empty : Option Bytes → Bytes
or_empty none = []
or_empty (some s) = s

abbrev pub secret_of : Option User → Result StoreError Bytes
secret_of none = err failed
secret_of (some u) = ok (or_empty u.totp_secret)

-- GetTOTPSecret
unfoldable pub get_totp_secret : ℕ → Action StoreError Bytes
unfolding statement
get_totp_secret i = statement λ db. (secret_of (find (has_user_id i) db.users), db)

-- DisableTOTP
unfoldable pub disable_totp : ℕ → Action StoreError (Unit {0})
unfolding update_user
disable_totp i = update_user i (λ now u. record u { totp_secret = none; totp_enabled_at = none })

-- SetLastLogin
unfoldable pub set_last_login : ℕ → Action StoreError (Unit {0})
unfolding update_user
set_last_login i =
    update_user i (λ now u. record u {
      last_login_at = some now;
      failed_login_attempts = 0;
      locked_until = none;
    })

abbrev pub count_failure : ℕ → ℕ → ℕ → User → User
count_failure max_attempts lockout now u = record u {
  failed_login_attempts = u.failed_login_attempts + 1;
  locked_until =
      if leb max_attempts (u.failed_login_attempts + 1)
      then some (now + lockout)
      else u.locked_until;
}

-- RecordLoginFailure
unfoldable pub record_login_failure : ℕ → ℕ → ℕ → Action StoreError (Unit {0})
unfolding update_user
record_login_failure i max_attempts lockout = update_user i (count_failure max_attempts lockout)

-- LoginBlocked
unfoldable pub login_blocked : ℕ → User → Bool
login_blocked now u = elim u.locked_until [ none ↦ false | some t ↦ ltb now t ]

abbrev pub restrict : UserStatus → Bytes → ℕ → User → User
restrict status reason now u = record u {
  status = status;
  restriction_reason = reason;
  updated_at = now;
}

-- SetUserStatusAdmin
unfoldable pub set_user_status_admin : ℕ → UserStatus → Bytes → Action StoreError (Unit {0})
unfolding statement
set_user_status_admin i status reason = statement λ db. (
  if count_where (has_user_id i) db.users == 0 then err not_found else ok tt,
  record db { users = update_where (has_user_id i) (restrict status reason db.now) db.users },
)
