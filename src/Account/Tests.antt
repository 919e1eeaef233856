-- ===== src/Account/Tests.antt =====
-- A closure on the sample database.
use travel_web_api.Account.Closure.{
  Requests, deidentify_trip_request, CloseCall, erase_trip, erase_trips, erase_rows, erase_account,
  close_with, close_body, close_account,
}
use travel_web_api.Account.Erasure.{IsErased, close_account-IsErased}
use travel_web_api.Account.Forgotten.{close_account-run_feeds}
use travel_web_api.Auth.Verify.{verified}
use travel_web_api.Db.Monad.{Db, ok}
use travel_web_api.Db.Statuses.{Mode, Purpose, Delivery, TripStatus}
use travel_web_api.Db.Trips.{UserTrip, AdminTripProjection}
use travel_web_api.Db.Users.{UserIdentity, EmailOtpChallenge, UserSession}
use travel_web_api.Prelude.{String, ◌≡◌, refl, false, Option, none, some, List, [], ◌∷◌}
use travel_web_api.Prelude.Int.{pos}
use travel_web_api.Projection.Feeds.{Feed, run_feeds}
use travel_web_api.Projection.Health.{
  shown_deidentified, association_payload, current_projection_with_name,
}
use travel_web_api.Projection.Payloads.{
  GuideResultState, JobProjectionPayload, TripProjectionCommitEvent,
}
use travel_web_api.Projection.Snapshots.{association_from_locked_facts, new_projection}
use travel_web_api.Samples.{sample_py, sample_db, sample_settings}
use travel_web_api.Security.{hash_secret}

abbrev requests : Requests
requests = record { validated = λ d. some d; prefix = λ n s. s }

abbrev close : CloseCall
close = record {
  user_id = 1;
  user_text = "1";
  challenge_id = "otp_9";
  code = "654321";
  now = 2_000;
}

abbrev closing_identity : UserIdentity
closing_identity = record {
  id = 61;
  user_id = 1;
  provider = "email_otp";
  provider_subject = "guest@example.org";
  verified_email = some "guest@example.org";
  created_at = 0;
  last_login_at = none;
}

abbrev closing_challenge : EmailOtpChallenge
closing_challenge = record {
  id = 79;
  public_id = "otp_9";
  email = "guest@example.org";
  mode = Mode.closure;
  purpose = Purpose.account_closure;
  invitation_id = none;
  user_id = some 1;
  code_hash = 7;
  client_ip_hash = 7;
  attempt_count = 0;
  max_attempts = 5;
  delivery_status = Delivery.sent;
  sent_at = 1_000;
  expires_at = 600_001_000;
  consumed_at = none;
}

abbrev closing_session : UserSession
closing_session = record {
  id = 81;
  user_id = 1;
  token_hash = 7;
  created_at = 0;
  last_seen_at = 0;
  expires_at = 9_000;
  revoked_at = none;
  revoke_reason = none;
}

abbrev open_db : Db
open_db = record sample_db {
  identities = closing_identity ∷ [];
  challenges = closing_challenge ∷ [];
  sessions = closing_session ∷ [];
}

closed_ok : (close_account sample_py requests sample_settings close open_db).0 ≡ ok verified
unfolding close_account close_body close_with erase_account erase_trips erase_trip erase_rows
    deidentify_trip_request hash_secret
closed_ok = refl

close_account-IsErased_example :
    IsErased 1 (close_account sample_py requests sample_settings close open_db).1
close_account-IsErased_example =
    close_account-IsErased sample_py requests sample_settings close open_db closed_ok

abbrev ended_trip : UserTrip
ended_trip = record {
  id = 71;
  public_id = "trip_7";
  user_id = some 1;
  client_request_id = "request-7";
  request_hash = "hash-7";
  request_json = [];
  city = "Nara";
  days = pos 3;
  status = TripStatus.failed;
  hermes_job_id = some "job_7";
  result_record_id = none;
  quota_entry_id = none;
  error_code = none;
  error_message = none;
  error_retryable = none;
  telemetry_json = [];
  created_at = 100;
  started_at = none;
  finished_at = some 200;
  updated_at = 200;
  visible_until = 9_000;
  archived_at = none;
  identity_erased_at = none;
  association_version = 1;
  request_field_provenance = [];
  reconciliation_attempts = 0;
  last_reconciled_at = none;
}

abbrev job_payload : JobProjectionPayload
job_payload = record {
  source_id = 17;
  job_id = "job_7";
  source_version = 2;
  source = "API";
  city = some "Nara";
  days = some 3;
  status = TripStatus.running;
  current_stage = none;
  result_type = none;
  result_record_id = none;
  guide_result_state = GuideResultState.not_applicable;
  error_code = none;
  safe_error = none;
  detailed_reason = none;
  created_at = 100;
  started_at = none;
  finished_at = none;
  retry_count = 0;
  failed_draft_available = false;
  trace_completeness = "COMPLETE";
  source_updated_at = 150;
}

-- The row that the job's first event made.
abbrev job_row : AdminTripProjection
job_row = new_projection job_payload (association_from_locked_facts (some ended_trip) none) 160

abbrev late_event : TripProjectionCommitEvent
late_event = record {
  event_id = 33;
  outbox_sequence = 5;
  aggregate_id = "job_7";
  aggregate_version = 3;
  job = record job_payload { source_version = 3 };
  changed_steps = [];
  payload_hash = 88;
}

abbrev linked_db : Db
linked_db = record open_db { trips = ended_trip ∷ []; projections = job_row ∷ [] }

abbrev late_feeds : List Feed
late_feeds = Feed.repair_head late_event 3_000 ∷ []

linked_closed : (close_account sample_py requests sample_settings close linked_db).0 ≡ ok verified
unfolding close_account close_body close_with erase_account erase_trips erase_trip erase_rows
    deidentify_trip_request hash_secret
linked_closed = refl

close_account-run_feeds_example :
    let later =
      run_feeds 5 late_feeds (close_account sample_py requests sample_settings close linked_db).1 in
    (q : AdminTripProjection) × (current_projection_with_name "job_7" later ≡ some (q, none))
    × ((public_id name : Option String) → association_payload q public_id name ≡ shown_deidentified)
unfolding new_projection
close_account-run_feeds_example =
    close_account-run_feeds sample_py requests sample_settings close linked_db "job_7" job_row 5
      late_feeds linked_closed refl refl
