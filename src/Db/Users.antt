-- ===== src/Db/Users.antt =====
-- The rows of db/models.py for users, their identities, sessions and one-time codes. UUIDs are
-- numbers, since they are only compared; times count microseconds; a 32-byte digest is the number
-- that its bytes spell.
use travel_web_api.Db.Statuses.{UserStatus, Role, Mode, Purpose, Delivery}
use travel_web_api.Prelude.{ℕ, String, Option}

abbrev pub Uuid : Type 0
Uuid = ℕ

abbrev pub Time : Type 0
Time = ℕ

abbrev pub Digest : Type 0
Digest = ℕ

pub record AppUser : Type 0 where
  pub id : Uuid
  pub public_id : String
  pub status : UserStatus
  pub role : Role
  pub display_name : String
  pub display_name_normalized : String
  pub display_name_changed_at : Option Time
  pub created_at : Time
  pub updated_at : Time

pub record DisplayNameQuarantine : Type 0 where
  pub name_digest : Digest
  pub expires_at : Time
  pub created_at : Time

pub record UserIdentity : Type 0 where
  pub id : Uuid
  pub user_id : Uuid
  pub provider : String
  pub provider_subject : String
  pub verified_email : Option String
  pub created_at : Time
  pub last_login_at : Option Time

pub record EmailOtpChallenge : Type 0 where
  pub id : Uuid
  pub public_id : String
  pub email : String
  pub mode : Mode
  pub purpose : Purpose
  pub invitation_id : Option Uuid
  pub user_id : Option Uuid
  pub code_hash : Digest
  pub client_ip_hash : Digest
  pub attempt_count : ℕ
  pub max_attempts : ℕ
  pub delivery_status : Delivery
  pub sent_at : Time
  pub expires_at : Time
  pub consumed_at : Option Time

pub record UserSession : Type 0 where
  pub id : Uuid
  pub user_id : Uuid
  pub token_hash : Digest
  pub created_at : Time
  pub last_seen_at : Time
  pub expires_at : Time
  pub revoked_at : Option Time
  pub revoke_reason : Option String
