-- ===== src/Accounts/Types.antt =====
-- The rows of app/models/users.py, app/models/sessions.py and app/models/password_resets.py. A
-- password hash is what the hashing library returns.
use rebooter_droids.Base.{ℕ, String, Bool, Option}
use rebooter_droids.Base.Table.{Table}

pub record User : Type 0 where
  pub email : String
  pub password_hash : String
  pub display_name : String
  pub is_active : Bool
  pub is_admin : Bool
  pub is_super_admin : Bool
  pub role : String
  pub tokens_valid_after : ℕ
  pub updated_at : ℕ

pub record Session : Type 0 where
  pub user_id : String
  pub kind : String
  pub jti : String
  pub issued_at : ℕ
  pub expires_at : ℕ
  pub revoked_at : Option ℕ

pub record PasswordReset : Type 0 where
  pub user_id : String
  pub email_snapshot : String
  pub token_hash : String
  pub expires_at : ℕ
  pub consumed_at : Option ℕ
  pub requested_ip : Option String
  pub consumed_ip : Option String

pub record State : Type 0 where
  pub users : Table User
  pub sessions : Table Session
  pub resets : Table PasswordReset
