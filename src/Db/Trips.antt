-- ===== src/Db/Trips.antt =====
-- The rows of db/models.py for trips and for the administrators' projection of them.
use travel_web_api.Db.Statuses.{TripStatus}
use travel_web_api.Db.Users.{Uuid, Time, Digest}
use travel_web_api.Json.{JsonObject}
use travel_web_api.Prelude.{ℕ, String, Bool, Option}
use travel_web_api.Prelude.Int.{ℤ}

pub record UserTrip : Type 0 where
  pub id : Uuid
  pub public_id : String
  pub user_id : Option Uuid
  pub client_request_id : String
  pub request_hash : String
  pub request_json : JsonObject
  pub city : String
  pub days : ℤ
  pub status : TripStatus
  pub hermes_job_id : Option String
  pub result_record_id : Option ℕ
  pub quota_entry_id : Option Uuid
  pub error_code : Option String
  pub error_message : Option String
  pub error_retryable : Option Bool
  pub telemetry_json : JsonObject
  pub created_at : Time
  pub started_at : Option Time
  pub finished_at : Option Time
  pub updated_at : Time
  pub visible_until : Time
  pub archived_at : Option Time
  pub identity_erased_at : Option Time
  pub association_version : ℕ
  pub request_field_provenance : JsonObject
  pub reconciliation_attempts : ℕ
  pub last_reconciled_at : Option Time

-- admin_trip_projection.association_state
pub data Association : Type 0 where
  linked unlinked deidentified : Association

pub record AdminTripProjection : Type 0 where
  pub job_id : String
  pub source_id : ℕ
  pub source_version : ℕ
  pub source : String
  pub city : Option String
  pub days : Option ℕ
  pub status : TripStatus
  pub current_stage : Option String
  pub result_type : Option String
  pub result_record_id : Option ℕ
  pub guide_result_state : String
  pub error_code : Option String
  pub safe_error_message : Option String
  pub detailed_reason : Option String
  pub created_at : Time
  pub started_at : Option Time
  pub finished_at : Option Time
  pub retry_count : ℕ
  pub failed_draft_available : Bool
  pub trace_completeness : String
  pub association_state : Association
  pub association_version : ℕ
  pub identity_erased_at : Option Time
  pub user_trip_id : Option Uuid
  pub user_id : Option Uuid
  pub source_updated_at : Time
  pub synced_at : Time

pub record AdminTripStepProjection : Type 0 where
  pub source_step_id : ℕ
  pub job_id : String
  pub source_version : ℕ
  pub stage : String
  pub status : String
  pub attempt : ℕ
  pub publish_retry_round : ℕ
  pub started_at : Time
  pub finished_at : Option Time
  pub duration_ms : Option ℕ
  pub source_updated_at : Time
  pub synced_at : Time

pub record AdminProjectionEvent : Type 0 where
  pub event_id : Uuid
  pub outbox_sequence : ℕ
  pub payload_hash : Digest
  pub applied_at : Time

-- admin_projection_consumer_state.stream_state; `other` is any text but these two.
pub data StreamState : Type 0 where
  active paused_poison other : StreamState

-- admin_projection_consumer_state.initialization_state, which the code compares with INITIALIZED.
pub data InitializationState : Type 0 where
  initialized uninitialized : InitializationState

-- The table has the one row with id 1.
pub record AdminProjectionConsumerState : Type 0 where
  pub applied_high_watermark : ℕ
  pub latest_heartbeat_watermark : Option ℕ
  pub latest_heartbeat_observed_at : Option Time
  pub sync_checked_at : Option Time
  pub schema_version : String
  pub next_expected_sequence : ℕ
  pub stream_state : StreamState
  pub last_reconciliation_at : Option Time
  pub initialization_state : InitializationState
