-- ===== src/Projection/Payloads.antt =====
-- The payloads of admin/projection_schemas.py that the stream carries, with their validators. The
-- types and bounds of single fields are Pydantic's: a record holds what has passed them.
use travel_web_api.Db.Statuses.{TripStatus, is_success}
use travel_web_api.Db.Users.{Uuid, Time, Digest}
use travel_web_api.Prelude.{
  string_eq, nat_eq, ◌==◌, is_none, is_some, all, ℕ, String, Bool, true, false, not, ◌&&◌, Option,
  none, some, List,
}

pub data ResultType : Type 0 where
  plan_ready no_candidates no_usable_route unknown : ResultType

pub data GuideResultState : Type 0 where
  not_applicable legal_no_guide available inconsistent : GuideResultState

pub record SafeError : Type 0 where
  pub code : String
  pub message : String

pub record JobProjectionPayload : Type 0 where
  pub source_id : ℕ
  pub job_id : String
  pub source_version : ℕ
  pub source : String
  pub city : Option String
  pub days : Option ℕ
  pub status : TripStatus
  pub current_stage : Option String
  pub result_type : Option ResultType
  pub result_record_id : Option ℕ
  pub guide_result_state : GuideResultState
  pub error_code : Option String
  pub safe_error : Option SafeError
  pub detailed_reason : Option String
  pub created_at : Time
  pub started_at : Option Time
  pub finished_at : Option Time
  pub retry_count : ℕ
  pub failed_draft_available : Bool
  pub trace_completeness : String
  pub source_updated_at : Time

pub record StepProjectionPayload : Type 0 where
  pub source_step_id : ℕ
  pub job_id : String
  pub source_version : ℕ
  pub stage : String
  pub status : String
  pub attempt : ℕ
  pub publish_retry_round : ℕ
  pub started_at : Time
  pub finished_at : Option Time
  pub duration_ms : Option ℕ
  pub source_updated_at : Time

-- An event of the outbox, with the hash of its canonical JSON text, which `json.dumps` and SHA-256
-- give.
pub record TripProjectionCommitEvent : Type 0 where
  pub event_id : Uuid
  pub outbox_sequence : ℕ
  pub aggregate_id : String
  pub aggregate_version : ℕ
  pub job : JobProjectionPayload
  pub changed_steps : List StepProjectionPayload
  pub payload_hash : Digest

pub record ProjectionHeartbeat : Type 0 where
  pub observed_at : Time
  pub outbox_high_watermark : ℕ

abbrev pub is_plan_ready : Option ResultType → Bool
is_plan_ready (some plan_ready) = true
is_plan_ready _ = false

abbrev pub is_legal_empty : Option ResultType → Bool
is_legal_empty (some no_candidates) = true
is_legal_empty (some no_usable_route) = true
is_legal_empty _ = false

-- The facts that a guide's state demands of a job, as every validator of the file states them.
unfoldable pub guide_facts_hold :
    GuideResultState → TripStatus → Option ResultType → Option ℕ → Bool
guide_facts_hold available status result_type record_id =
    is_success status && is_plan_ready result_type && is_some record_id
guide_facts_hold legal_no_guide status result_type record_id =
    is_success status && is_legal_empty result_type && is_none record_id
guide_facts_hold not_applicable status result_type record_id =
    not (is_success status) && is_none result_type && is_none record_id
guide_facts_hold inconsistent status result_type record_id = true

-- `safe_error` is there exactly with `error_code`, and names it.
abbrev pub safe_error_matches : Option String → Option SafeError → Bool
safe_error_matches none none = true
safe_error_matches none (some e) = false
safe_error_matches (some code) none = false
safe_error_matches (some code) (some e) = e.code == code

unfoldable pub job_is_valid : JobProjectionPayload → Bool
job_is_valid j =
    safe_error_matches j.error_code j.safe_error
    && guide_facts_hold j.guide_result_state j.status j.result_type j.result_record_id

unfoldable pub event_is_valid : TripProjectionCommitEvent → Bool
event_is_valid e =
    job_is_valid e.job
    && e.aggregate_id == e.job.job_id
    && e.aggregate_version == e.job.source_version
    && all (λ s. s.job_id == e.job.job_id) e.changed_steps

-- The texts of the columns.
abbrev pub result_type_text : ResultType → String
result_type_text plan_ready = "PLAN_READY"
result_type_text no_candidates = "NO_CANDIDATES"
result_type_text no_usable_route = "NO_USABLE_ROUTE"
result_type_text unknown = "UNKNOWN"

abbrev pub guide_state_text : GuideResultState → String
guide_state_text not_applicable = "NOT_APPLICABLE"
guide_state_text legal_no_guide = "LEGAL_NO_GUIDE"
guide_state_text available = "AVAILABLE"
guide_state_text inconsistent = "INCONSISTENT"
