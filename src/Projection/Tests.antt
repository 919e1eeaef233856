-- ===== src/Projection/Tests.antt =====
-- Runs of the stream at concrete events.
use travel_web_api.Db.Monad.{Db, ok}
use travel_web_api.Db.Statuses.{TripStatus}
use travel_web_api.Db.Trips.{
  deidentified, AdminTripProjection, AdminProjectionEvent, StreamState, InitializationState,
  AdminProjectionConsumerState,
}
use travel_web_api.Prelude.{String, ◌≡◌, refl, true, false, Option, none, some, List, [], ◌∷◌, map}
use travel_web_api.Projection.Answers.{Fits, handle_message-Fits}
use travel_web_api.Projection.Consumer.{
  Body, commit, heartbeat, malformed, Message, consume_body, settle_message, handle_message,
}
use travel_web_api.Projection.Feeds.{Feed, deliver, repair_head, run_feed, run_feeds}
use travel_web_api.Projection.Health.{
  fresh, ProjectionHealth, health_of, projection_health, shown_deidentified, association_payload,
  current_projection_with_name,
}
use travel_web_api.Projection.Identity.{
  is_impossible, AllPossible, run_feeds-possible, HasRow, Erased, NoOlder, run_feeds-NoOlder,
}
use travel_web_api.Projection.Order.{run_feeds-IsOrdered, apply_projection_event-duplicate}
use travel_web_api.Projection.Payloads.{
  not_applicable, JobProjectionPayload, StepProjectionPayload, TripProjectionCommitEvent,
  guide_facts_hold, job_is_valid, event_is_valid,
}
use travel_web_api.Projection.Sequence.{IsOrdered}
use travel_web_api.Projection.Shown.{
  current_projection_with_name-Erased, FreshEnough, projection_health-FreshEnough,
}
use travel_web_api.Projection.Snapshots.{
  association_from_locked_facts, new_projection, refreshed, apply_job_snapshot, write_step,
  apply_step_snapshot,
}
use travel_web_api.Projection.Stream.{
  duplicate, applied, apply_steps, insert_event, advance, apply_next, apply_new, apply_event_body,
  apply_projection_event, repair_projection_event, apply_projection_heartbeat, paused,
  pause_projection_stream,
}
use travel_web_api.Samples.{sample_db}

abbrev sample_job : JobProjectionPayload
sample_job = record {
  source_id = 11;
  job_id = "job_1";
  source_version = 3;
  source = "API";
  city = some "Kyoto";
  days = some 3;
  status = TripStatus.running;
  current_stage = some "PLAN";
  result_type = none;
  result_record_id = none;
  guide_result_state = not_applicable;
  error_code = none;
  safe_error = none;
  detailed_reason = none;
  created_at = 100;
  started_at = some 110;
  finished_at = none;
  retry_count = 0;
  failed_draft_available = false;
  trace_completeness = "COMPLETE";
  source_updated_at = 120;
}

abbrev sample_step : StepProjectionPayload
sample_step = record {
  source_step_id = 21;
  job_id = "job_1";
  source_version = 3;
  stage = "PLAN";
  status = "RUNNING";
  attempt = 1;
  publish_retry_round = 0;
  started_at = 110;
  finished_at = none;
  duration_ms = none;
  source_updated_at = 120;
}

abbrev first_event : TripProjectionCommitEvent
first_event = record {
  event_id = 31;
  outbox_sequence = 1;
  aggregate_id = "job_1";
  aggregate_version = 3;
  job = sample_job;
  changed_steps = sample_step ∷ [];
  payload_hash = 77;
}

abbrev second_event : TripProjectionCommitEvent
second_event = record first_event { event_id = 32; outbox_sequence = 2; payload_hash = 78 }

abbrev start_state : AdminProjectionConsumerState
start_state = record {
  applied_high_watermark = 0;
  latest_heartbeat_watermark = none;
  latest_heartbeat_observed_at = none;
  sync_checked_at = none;
  schema_version = "1";
  next_expected_sequence = 1;
  stream_state = StreamState.active;
  last_reconciliation_at = none;
  initialization_state = InitializationState.uninitialized;
}

abbrev stream_db : Db
stream_db = record sample_db { consumer = some start_state }

-- A stream that poison has paused.
abbrev paused_db : Db
paused_db = record sample_db { consumer = some (paused start_state) }

abbrev message_of : Body → Message
message_of b = record { body = b; delivery_count = none; acquired_count = none }

abbrev feeds : List Feed
feeds =
    deliver (message_of (commit first_event)) 200
    ∷ deliver (message_of (commit first_event)) 201
    ∷ deliver (message_of malformed) 202
    ∷ repair_head second_event 203
    ∷ deliver (message_of (heartbeat (record { observed_at = 200; outbox_high_watermark = 2 }))) 204
    ∷ []

applied_twice :
    map (λ (e : AdminProjectionEvent). e.outbox_sequence) (run_feeds 5 feeds stream_db).events
    ≡ 2 ∷ 1 ∷ []
unfolding run_feeds run_feed handle_message consume_body settle_message repair_projection_event
    apply_projection_event apply_event_body apply_new apply_next apply_job_snapshot new_projection
    apply_steps apply_step_snapshot write_step insert_event advance event_is_valid job_is_valid
    guide_facts_hold association_from_locked_facts refreshed apply_projection_heartbeat
    pause_projection_stream
applied_twice = refl

stream_db-IsOrdered : IsOrdered stream_db
stream_db-IsOrdered = record { fits = (refl, tt) }

run_feeds-IsOrdered_example : IsOrdered (run_feeds 5 feeds stream_db)
run_feeds-IsOrdered_example = run_feeds-IsOrdered 5 feeds stream_db stream_db-IsOrdered

first_applied : (apply_projection_event first_event false 200 stream_db).0 ≡ ok applied
unfolding apply_projection_event apply_event_body apply_new apply_next apply_job_snapshot
    new_projection apply_steps apply_step_snapshot write_step insert_event advance event_is_valid
    job_is_valid guide_facts_hold association_from_locked_facts refreshed
first_applied = refl

apply_projection_event-duplicate_example :
    let later = run_feeds 5 feeds (apply_projection_event first_event false 200 stream_db).1 in
    apply_projection_event first_event true 300 later ≡ (ok duplicate, later)
apply_projection_event-duplicate_example =
    apply_projection_event-duplicate 5 first_event false true 200 300 feeds stream_db first_applied

handle_message-Fits_example :
    let (v, db') = handle_message 5 (message_of (commit first_event)) 200 stream_db in
    Fits 5 (message_of (commit first_event)) 200 stream_db v db'
handle_message-Fits_example = handle_message-Fits 5 (message_of (commit first_event)) 200 stream_db

abbrev anonymous_row : AdminTripProjection
anonymous_row = record {
  job_id = "job_1";
  source_id = 11;
  source_version = 2;
  source = "API";
  city = some "Kyoto";
  days = some 3;
  status = TripStatus.running;
  current_stage = none;
  result_type = none;
  result_record_id = none;
  guide_result_state = "NOT_APPLICABLE";
  error_code = none;
  safe_error_message = none;
  detailed_reason = none;
  created_at = 100;
  started_at = none;
  finished_at = none;
  retry_count = 0;
  failed_draft_available = false;
  trace_completeness = "COMPLETE";
  association_state = deidentified;
  association_version = 2;
  identity_erased_at = some 150;
  user_trip_id = none;
  user_id = none;
  source_updated_at = 100;
  synced_at = 100;
}

abbrev anonymous_db : Db
anonymous_db = record stream_db { projections = anonymous_row ∷ [] }

run_feeds-possible_example : AllPossible (run_feeds 5 feeds anonymous_db).projections
unfolding is_impossible
run_feeds-possible_example = run_feeds-possible 5 feeds anonymous_db (refl, tt)

run_feeds-NoOlder_example :
    HasRow "job_1" (NoOlder 2 2) (run_feeds 5 feeds anonymous_db).projections
run_feeds-NoOlder_example = run_feeds-NoOlder 5 feeds anonymous_db "job_1" anonymous_row refl

anonymous_db-HasRow : HasRow "job_1" (Erased 150) anonymous_db.projections
anonymous_db-HasRow = record {
  row = anonymous_row;
  is_found = refl;
  holds = record { since = refl; no_state = refl; no_user = refl; no_trip = refl };
}

current_projection_with_name-Erased_example :
    (p : AdminTripProjection) × (current_projection_with_name "job_1"
        (run_feeds 5 feeds anonymous_db)
      ≡ some (p, none))
    × ((public_id name : Option String) → association_payload p public_id name ≡ shown_deidentified)
current_projection_with_name-Erased_example =
    current_projection_with_name-Erased 5 feeds anonymous_db "job_1" 150 anonymous_db-HasRow

abbrev beating_db : Db
beating_db = record sample_db {
  consumer = some (record start_state {
    latest_heartbeat_watermark = some 0;
    latest_heartbeat_observed_at = some 1_000_000;
    sync_checked_at = some 2_000_000;
    initialization_state = InitializationState.initialized;
  });
}

abbrev beating_health : ProjectionHealth
beating_health = record {
  as_of = 3_000_000;
  data_as_of = none;
  checked_at = 2_000_000;
  lag = 1_000_000;
  source_high_watermark = 0;
  applied_watermark = 0;
  state = fresh;
  alarm = false;
}

beating_reported : projection_health 3_000_000 true beating_db ≡ ok beating_health
unfolding projection_health health_of
beating_reported = refl

projection_health-FreshEnough_example : FreshEnough 3_000_000 true beating_health beating_db
projection_health-FreshEnough_example =
    projection_health-FreshEnough 3_000_000 true beating_db beating_health beating_reported
