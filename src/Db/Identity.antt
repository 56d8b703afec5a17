-- ===== src/Db/Identity.antt =====
-- The rows of migrations/0002_identity.sql and 0003_login_security.sql, as the structs of store/users.go,
-- store/sessions.go and store/auth_tokens.go have them. Left out are a session's user agent and
-- address, which are only recorded.
use gig.Base.{ℕ, Option}
use gig.Base.Text.{Bytes}

pub data Role : Type 0 where
  buyer_role seller_role admin_role : Role

pub data UserStatus : Type 0 where
  user_active user_disabled user_deleted : UserStatus

pub record User : Type 0 where
  pub id : ℕ
  pub email : Bytes
  pub email_lower : Bytes
  pub password_hash : Bytes
  pub name : Bytes
  pub locale : Bytes
  pub status : UserStatus
  pub email_verified_at : Option ℕ
  pub totp_secret : Option Bytes
  pub totp_enabled_at : Option ℕ
  pub failed_login_attempts : ℕ
  pub locked_until : Option ℕ
  pub last_login_at : Option ℕ
  pub restriction_reason : Bytes
  pub created_at : ℕ
  pub updated_at : ℕ

pub record UserRole : Type 0 where
  pub user_id : ℕ
  pub role : Role

pub data FlashKind : Type 0 where
  success failure : FlashKind

pub record Flash : Type 0 where
  pub kind : FlashKind
  pub text : Bytes

pub record Session : Type 0 where
  pub id : ℕ
  pub user_id : Option ℕ
  pub token_hash : Bytes
  pub csrf_token : Bytes
  pub expires_at : ℕ
  pub flash : Option Flash
  pub revoked_at : Option ℕ
  pub last_seen_at : ℕ
  pub created_at : ℕ

-- The kinds of tokens that the program asks for.
pub data TokenKind : Type 0 where
  email_verification password_reset wallet_confirmation : TokenKind

pub record AuthToken : Type 0 where
  pub id : ℕ
  pub user_id : ℕ
  pub kind : TokenKind
  pub token_hash : Bytes
  pub expires_at : ℕ
  pub used_at : Option ℕ
  pub created_at : ℕ
