-- ===== src/Db/Grants.antt =====
-- The rows of db/models.py for invitations, quota and the administrators' records.
use travel_web_api.Db.Statuses.{EntryStatus, ClaimState}
use travel_web_api.Db.Users.{Uuid, Time, Digest}
use travel_web_api.Json.{JsonObject}
use travel_web_api.Prelude.{ℕ, String, Bool, Option, List}
use travel_web_api.Prelude.Int.{ℤ}

pub record InvitationBatch : Type 0 where
  pub id : Uuid
  pub public_id : String
  pub name : String
  pub source_label : String
  pub code_count : ℕ
  pub valid_days : ℕ
  pub expires_at : Time
  pub disabled_at : Option Time
  pub created_by_user_id : Option Uuid
  pub creator_scope_hash : Option Digest
  pub plaintext_recoverable : Bool
  pub created_at : Time

pub record Invitation : Type 0 where
  pub id : Uuid
  pub public_id : Option String
  pub batch_id : Option Uuid
  pub sequence_number : Option ℕ
  pub secret_hash : Digest
  pub encrypted_secret : Option (List ℕ)
  pub source_label : String
  pub expires_at : Option Time
  pub disabled_at : Option Time
  pub redeemed_at : Option Time
  pub created_at : Time
  pub updated_at : Time

pub record InvitationRedemption : Type 0 where
  pub id : Uuid
  pub invitation_id : Uuid
  pub user_id : Uuid
  pub redeemed_at : Time

-- `units` is positive by a check constraint.
pub record QuotaGrant : Type 0 where
  pub id : Uuid
  pub user_id : Uuid
  pub period_type : String
  pub period_key : String
  pub units : ℕ
  pub reason : String
  pub idempotency_key : String
  pub created_at : Time

pub record QuotaAdjustment : Type 0 where
  pub id : Uuid
  pub public_id : String
  pub target_user_id : Option Uuid
  pub actor_user_id : Option Uuid
  pub target_scope_hash : Option Digest
  pub actor_scope_hash : Option Digest
  pub delta : ℤ
  pub balance_before : ℤ
  pub balance_after : ℤ
  pub reason : String
  pub note : Option String
  pub idempotency_id : Uuid
  pub reverses_adjustment_id : Option Uuid
  pub created_at : Time

-- `units` is positive by a check constraint.
pub record TripQuotaEntry : Type 0 where
  pub id : Uuid
  pub user_id : Uuid
  pub trip_id : Uuid
  pub period_type : String
  pub period_key : String
  pub units : ℕ
  pub status : EntryStatus
  pub reserve_reason : String
  pub settle_reason : Option String
  pub created_at : Time
  pub settled_at : Option Time
  pub updated_at : Time

pub record AdminIdempotency : Type 0 where
  pub id : Uuid
  pub actor_user_id : Option Uuid
  pub actor_scope_hash : Digest
  pub idempotency_key : Uuid
  pub request_hash : Digest
  pub state : ClaimState
  pub http_status : Option ℕ
  pub response_json : Option JsonObject
  pub created_at : Time
  pub completed_at : Option Time

pub record AdminAuditLog : Type 0 where
  pub id : Uuid
  pub public_id : String
  pub actor_user_id : Option Uuid
  pub actor_identity : String
  pub action : String
  pub target_type : String
  pub target_id : Option String
  pub result : String
  pub error_code : Option String
  pub before_json : Option JsonObject
  pub after_json : Option JsonObject
  pub reason : Option String
  pub idempotency_key : Option Uuid
  pub request_id : String
  pub source_ip_hash : Digest
  pub client_json : JsonObject
  pub created_at : Time
