-- ===== src/Projection/Snapshots.antt =====
-- _association_from_locked_facts, _apply_job_snapshot and _apply_step_snapshot.
use travel_web_api.Db.Monad.{Db, integrity_error, ok, err, Tx, modify}
use travel_web_api.Db.Trips.{
  UserTrip, Association, linked, unlinked, deidentified, AdminTripProjection,
  AdminTripStepProjection,
}
use travel_web_api.Db.Users.{Uuid, Time}
use travel_web_api.Prelude.{
  ltb, if◌then◌else◌, string_eq, nat_eq, ◌==◌, ◌=?◌, is_none, is_some, or_else, find, any,
  update_where, ℕ, max, String, Bool, not, ◌&&◌, Option, none, some, List, ◌∷◌,
}
use travel_web_api.Projection.Payloads.{
  JobProjectionPayload, StepProjectionPayload, result_type_text, guide_state_text,
}
use mathlib.Core.Option

pub record Facts : Type 0 where
  pub state : Association
  pub version : ℕ
  pub erased_at : Option Time
  pub trip_id : Option Uuid
  pub owner : Option Uuid

-- Without an erased projection: what the job's trip says.
abbrev pub trip_facts : Option UserTrip → ℕ → Facts
trip_facts none known = record {
  state = unlinked;
  version = known;
  erased_at = none;
  trip_id = none;
  owner = none;
}
trip_facts (some t) known =
    if is_some t.identity_erased_at
    then record {
      state = deidentified;
      version = t.association_version;
      erased_at = t.identity_erased_at;
      trip_id = none;
      owner = none;
    }
    else record {
      state = if is_none t.user_id then unlinked else linked;
      version = t.association_version;
      erased_at = none;
      trip_id = some t.id;
      owner = t.user_id;
    }

unfoldable pub association_from_locked_facts : Option UserTrip → Option AdminTripProjection → Facts
association_from_locked_facts trip none = trip_facts trip 1
association_from_locked_facts trip (some p) =
    if is_some p.identity_erased_at
    then record {
      state = deidentified;
      version = p.association_version;
      erased_at = p.identity_erased_at;
      trip_id = none;
      owner = none;
    }
    else trip_facts trip p.association_version

-- A new row from the payload and the facts.
unfoldable pub new_projection : JobProjectionPayload → Facts → Time → AdminTripProjection
new_projection j f now = record {
  job_id = j.job_id;
  source_id = j.source_id;
  source_version = j.source_version;
  source = j.source;
  city = j.city;
  days = j.days;
  status = j.status;
  current_stage = j.current_stage;
  result_type = Option.map result_type_text j.result_type;
  result_record_id = j.result_record_id;
  guide_result_state = guide_state_text j.guide_result_state;
  error_code = j.error_code;
  safe_error_message = Option.map (λ e. e.message) j.safe_error;
  detailed_reason = j.detailed_reason;
  created_at = j.created_at;
  started_at = j.started_at;
  finished_at = j.finished_at;
  retry_count = j.retry_count;
  failed_draft_available = j.failed_draft_available;
  trace_completeness = j.trace_completeness;
  association_state = f.state;
  association_version = f.version;
  identity_erased_at = f.erased_at;
  user_trip_id = f.trip_id;
  user_id = f.owner;
  source_updated_at = j.source_updated_at;
  synced_at = now;
}

-- The columns of `_job_values`; the association stays.
abbrev pub with_job_values : JobProjectionPayload → Time → AdminTripProjection → AdminTripProjection
with_job_values j now p = record p {
  source_id = j.source_id;
  source_version = j.source_version;
  source = j.source;
  city = j.city;
  days = j.days;
  status = j.status;
  current_stage = j.current_stage;
  result_type = Option.map result_type_text j.result_type;
  result_record_id = j.result_record_id;
  guide_result_state = guide_state_text j.guide_result_state;
  error_code = j.error_code;
  safe_error_message = Option.map (λ e. e.message) j.safe_error;
  detailed_reason = j.detailed_reason;
  created_at = j.created_at;
  started_at = j.started_at;
  finished_at = j.finished_at;
  retry_count = j.retry_count;
  failed_draft_available = j.failed_draft_available;
  trace_completeness = j.trace_completeness;
  source_updated_at = j.source_updated_at;
  synced_at = now;
}

-- The association columns of a row that is there.
abbrev pub with_facts : Facts → Time → AdminTripProjection → AdminTripProjection
with_facts f now p =
    let erased = or_else p.identity_erased_at f.erased_at in
    record p {
      association_state = if is_some erased then deidentified else f.state;
      association_version = max p.association_version f.version;
      identity_erased_at = erased;
      user_trip_id = if is_some erased then none else f.trip_id;
      user_id = if is_some erased then none else f.owner;
      synced_at = now;
    }

-- The update of the row that is there: the job's columns only from a newer version.
unfoldable pub refreshed :
    JobProjectionPayload → Option UserTrip → Time → AdminTripProjection → AdminTripProjection
refreshed j trip now p =
    with_facts (association_from_locked_facts trip (some p)) now
      (if ltb p.source_version j.source_version then with_job_values j now p else p)

-- `_lock_user_trip`; a job id is unique among the trips.
abbrev pub lock_user_trip : String → Db → Option UserTrip
lock_user_trip job_id db = find (λ t. t.hermes_job_id =? job_id) db.trips

-- Another job has that source id, which is unique.
abbrev pub source_id_taken : String → ℕ → List AdminTripProjection → Bool
source_id_taken job_id source_id ps =
    any (λ q. not (q.job_id == job_id) && q.source_id == source_id) ps

unfoldable pub apply_job_snapshot : JobProjectionPayload → Time → Tx Unit
apply_job_snapshot j now db =
    let trip = lock_user_trip j.job_id db in
    elim (find (λ p. p.job_id == j.job_id) db.projections) [
      | none ↦
          if source_id_taken j.job_id j.source_id db.projections
          then err (integrity_error "admin_trip_projection")
          else ok (
            tt,
            record db {
              projections =
                  new_projection j (association_from_locked_facts trip none) now ∷ db.projections;
            },
          )
      | some p ↦
          if source_id_taken j.job_id (refreshed j trip now p).source_id db.projections
          then err (integrity_error "admin_trip_projection")
          else ok (
            tt,
            record db {
              projections =
                  update_where (λ q. q.job_id == j.job_id) (refreshed j trip now) db.projections;
            },
          )
    ]

abbrev pub step_row : StepProjectionPayload → Time → AdminTripStepProjection
step_row s now = record {
  source_step_id = s.source_step_id;
  job_id = s.job_id;
  source_version = s.source_version;
  stage = s.stage;
  status = s.status;
  attempt = s.attempt;
  publish_retry_round = s.publish_retry_round;
  started_at = s.started_at;
  finished_at = s.finished_at;
  duration_ms = s.duration_ms;
  source_updated_at = s.source_updated_at;
  synced_at = now;
}

-- A step's job is a foreign key.
unfoldable pub write_step : StepProjectionPayload → Tx Unit → Tx Unit
write_step s write db =
    if any (λ p. p.job_id == s.job_id) db.projections
    then write db
    else err (integrity_error "admin_trip_step_projection")

unfoldable pub apply_step_snapshot : StepProjectionPayload → Time → Tx Unit
apply_step_snapshot s now db = elim (find (λ x. x.source_step_id == s.source_step_id) db.steps) [
  | none ↦ write_step s (modify λ d. record d { steps = step_row s now ∷ d.steps }) db
  | some x ↦
      if ltb x.source_version s.source_version
      then write_step s
          (modify λ d. record d {
            steps =
                update_where (λ y. y.source_step_id == s.source_step_id) (λ _. step_row s now)
                  d.steps;
          })
          db
      else ok (tt, db)
]
