-- ===== src/Quota/Accept.antt =====
-- save_upstream_acceptance, mark_upstream_uncertain and record_trip_telemetry.
use travel_web_api.Db.Monad.{
  Db, quota_invariant_error, ok, err, Tx, App, transaction, pure, modify, ◌>>◌,
}
use travel_web_api.Db.Statuses.{TripStatus, running, is_submitting, is_running, is_terminal}
use travel_web_api.Db.Tables.{put_trip}
use travel_web_api.Db.Trips.{UserTrip, linked, unlinked, deidentified, AdminTripProjection}
use travel_web_api.Db.Users.{Uuid, Time}
use travel_web_api.Json.{JsonObject, merge, is_scalar}
use travel_web_api.Prelude.{
  if◌then◌else◌, ◌==◌, nat_eq, string_eq, ◌=?◌, is_none, is_some, or_else, find, any, update_where,
  select, ◌+◌, max, String, Bool, true, false, not, ◌&&◌, ◌||◌, none, some, List, [], ◌∷◌,
}
use travel_web_api.Python.{Python}

-- The upper-cased status, or PENDING.
unfoldable pub accepted_status : Python → String → TripStatus
accepted_status py raw = if py.upper raw == "RUNNING" then running else TripStatus.pending

abbrev pub accept_row : String → TripStatus → Time → UserTrip → UserTrip
accept_row job s now t = record t {
  hermes_job_id = some job;
  status = s;
  started_at = or_else t.started_at (if is_running s then some now else none);
  updated_at = now;
  association_version =
      if is_none t.hermes_job_id then t.association_version + 1 else t.association_version;
}

-- The association of the projection of that job, from the trip as just written.
unfoldable pub associate : UserTrip → Time → AdminTripProjection → AdminTripProjection
associate t now p =
    let p' =
      if is_some t.identity_erased_at || is_some p.identity_erased_at
      then record p {
        association_state = deidentified;
        user_trip_id = none;
        user_id = none;
        identity_erased_at = or_else p.identity_erased_at (or_else t.identity_erased_at (some now));
      }
      else if is_some t.user_id
      then record p { association_state = linked; user_trip_id = some t.id; user_id = t.user_id }
      else record p { association_state = unlinked; user_trip_id = some t.id; user_id = none } in
    record p' {
      association_version = max p.association_version t.association_version;
      synced_at = now;
    }

-- job_id is the projection's primary key.
abbrev pub associate_job : String → UserTrip → Time → Db → Db
associate_job job t now db = record db {
  projections = update_where (λ p. p.job_id == job) (associate t now) db.projections;
}

unfoldable pub accept_active : String → TripStatus → Time → UserTrip → Tx UserTrip
accept_active job s now t = do
  put_trip (accept_row job s now t)
  modify (associate_job job (accept_row job s now t) now)
  pure (accept_row job s now t)

abbrev pub other_job : UserTrip → String → Bool
other_job t job = is_some t.hermes_job_id && not (t.hermes_job_id =? job)

unfoldable pub accept_body : Uuid → String → TripStatus → Time → Tx UserTrip
accept_body trip_id job s now db = elim (find (λ t. t.id == trip_id) db.trips) [
  | none ↦ err (quota_invariant_error "trip disappeared after upstream acceptance")
  | some t ↦
      if other_job t job
      then err (quota_invariant_error "one trip resolved to different upstream jobs")
      else if is_terminal t.status
      then ok (t, db)
      else accept_active job s now t db
]

unfoldable pub save_upstream_acceptance : Python → Uuid → String → String → Time → App UserTrip
save_upstream_acceptance py trip_id job status now =
    transaction (accept_body trip_id job (accepted_status py status) now)

abbrev pub uncertain_row : Time → UserTrip → UserTrip
uncertain_row now t = record t {
  reconciliation_attempts = t.reconciliation_attempts + 1;
  last_reconciled_at = some now;
  updated_at = now;
}

unfoldable pub mark_upstream_uncertain : Uuid → Time → App Unit
mark_upstream_uncertain trip_id now = transaction (
    modify λ db. record db {
      trips =
          update_where (λ t. t.id == trip_id && is_submitting t.status) (uncertain_row now)
            db.trips;
    })

-- The keys that record_trip_telemetry keeps.
abbrev pub telemetry_keys : List String
telemetry_keys =
    "current_stage" ∷ "plan_count" ∷ "elapsed_ms" ∷ "queue_wait_ms" ∷ "run_elapsed_ms"
    ∷ "total_elapsed_ms" ∷ "result_type" ∷ "result_schema_version" ∷ "cost_estimate_completeness"
    ∷ []

unfoldable pub safe_telemetry : JsonObject → JsonObject
safe_telemetry d = select (λ e. any (λ k. k == e.0) telemetry_keys && is_scalar e.1) d

unfoldable pub telemetry_body : Uuid → JsonObject → Time → Tx Unit
telemetry_body trip_id safe now db = elim (find (λ t. t.id == trip_id) db.trips) [
  | none ↦ err (quota_invariant_error "trip disappeared while recording telemetry")
  | some t ↦
      put_trip (record t { telemetry_json = merge t.telemetry_json safe; updated_at = now }) db
]

abbrev pub is_empty {ℓ} : {A : Type ℓ} → List A → Bool
is_empty [] = true
is_empty (x ∷ xs) = false

unfoldable pub record_trip_telemetry : Uuid → JsonObject → Time → App Unit
record_trip_telemetry trip_id telemetry now db =
    let safe = safe_telemetry telemetry in
    if is_empty safe then (ok tt, db) else transaction (telemetry_body trip_id safe now) db
