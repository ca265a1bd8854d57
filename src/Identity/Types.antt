-- ===== src/Identity/Types.antt =====
-- The data of accounts and sessions (domain/identity/identity.go, errors.go; RefreshToken of
-- entities/entities.go). A digest is a list of bytes, like a text.
use web_novel.Common.{ℕ, Bool, true, false, Option, List}
use web_novel.Common.Text.{Text}
use web_novel.Common.Result.{Result}
use web_novel.Wallet.Types.{Time}
use web_novel.Reading.{Role}

pub data Error : Type 0 where
  not_found invalid_credentials user_suspended : Error
  invalid_refresh_token token_reused : Error
  -- A constraint of the database, and a query or a library call that fails.
  unique_violation failed : Error

abbrev pub Outcome : Type 0 → Type 0
Outcome A = Result Error A

pub data UserStatus : Type 0 where
  active suspended deleted : UserStatus

pub record User : Type 0 where
  pub id : ℕ
  pub username : Text
  pub email : Text
  pub display_name : Text
  pub avatar_url : Text
  pub roles : List Role
  pub status : UserStatus
  pub created_at : Time

abbrev pub is_active : UserStatus → Bool
is_active active = true
is_active suspended = false
is_active deleted = false

pub record Session : Type 0 where
  pub id : ℕ
  pub user_id : ℕ
  pub family_id : Text
  pub user_agent : Text
  pub expires_at : Time
  pub revoked_at : Option Time

pub record TokenPair : Type 0 where
  pub access_token : Text
  pub refresh_token : Text
  pub expires_at : Time
  pub user : User

-- A row of `refresh_tokens`.
pub record TokenRow : Type 0 where
  pub id : ℕ
  pub user_id : ℕ
  pub family_id : Text
  pub token_hash : Text
  pub user_agent : Option Text
  pub expires_at : Time
  pub revoked_at : Option Time
  pub replaced_by : Option ℕ

pub record SessionDb : Type 0 where
  pub tokens : List TokenRow
  pub next_id : ℕ
