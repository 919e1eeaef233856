-- ===== src/Projection/Shown.antt =====
-- What administrators are shown: nobody behind an erased identity, and no figures that are too old.
use travel_web_api.Db.Monad.{Db, ok}
use travel_web_api.Db.Trips.{AdminTripProjection, AdminProjectionConsumerState}
use travel_web_api.Db.Users.{Time}
use travel_web_api.Prelude.{
  if◌then◌else◌, Option-cases, ℕ, ◌+◌, ◌≤◌, ◌<◌, String, ◌≡◌, refl, ◌↔◌, inl, inr, Bool, true,
  Option, none, some, List, arith,
}
use travel_web_api.Projection.Feeds.{Feed, run_feeds}
use travel_web_api.Projection.Health.{
  ProjectionHealth, latest_update, health_of, heartbeat_of, projection_health, shown_deidentified,
  association_payload, current_projection_with_name,
}
use travel_web_api.Projection.Identity.{HasRow, Erased, run_feeds-Erased}
use travel_web_api.Python.{seconds}

-- A job whose identity is erased is shown, after any sequence of messages and repairs, without a
-- user and as de-identified, whatever public id and name come with it.
pub current_projection_with_name-Erased :
    (max_attempts : ℕ) (fs : List Feed) (db : Db) (job_id : String) (at : Time)
    → HasRow job_id (Erased at) db.projections
    → (p : AdminTripProjection) × (current_projection_with_name job_id
          (run_feeds max_attempts fs db)
        ≡ some (p, none))
      × ((public_id name : Option String)
          → association_payload p public_id name ≡ shown_deidentified)
unfolding current_projection_with_name association_payload
current_projection_with_name-Erased max_attempts fs db job_id at h =
    let kept = run_feeds-Erased max_attempts fs db job_id at h in
    let erased = kept.holds in
    (
      kept.row,
      rw (current_projection_with_name, kept.is_found, erased.no_user) refl,
      λ public_id name. ground (arith, erased.since, erased.no_state),
    )

heartbeat_of-eq-some :
    (o : Option AdminProjectionConsumerState) {r : Time × Time × ℕ × ℕ}
    → heartbeat_of o ≡ some r
    → (s : AdminProjectionConsumerState) × (o ≡ some s)
      × (s.latest_heartbeat_observed_at ≡ some r.0)
      × (s.sync_checked_at ≡ some r.1)
heartbeat_of-eq-some none h = cc
heartbeat_of-eq-some (some s) h = (s, refl, ground arith, ground arith)

health_of-bounds :
    (observed committed high applied_watermark : ℕ) (sensitive : Bool) (response : Time)
    (data_as_of : Option Time) {h : ProjectionHealth}
    → health_of observed committed high applied_watermark sensitive response data_as_of ≡ ok h
    → (response ≤ observed + seconds (if sensitive then 40 else 310))
      × (committed ≤ observed + seconds (if sensitive then 30 else 300))
      × (h.alarm ≡ true ↔ seconds 30 < h.lag)
unfolding health_of
health_of-bounds observed committed high applied_watermark sensitive response data_as_of {h} e =
    (ground arith, ground arith, ground arith)

-- The heartbeat behind the figures, and the bounds on its age.
pub record FreshEnough (response : Time) (sensitive : Bool) (h : ProjectionHealth) (db : Db)
    : Type 0 where
  pub state : AdminProjectionConsumerState
  pub is_state : db.consumer ≡ some state
  pub observed : Time
  pub is_observed : state.latest_heartbeat_observed_at ≡ some observed
  pub not_old : response ≤ observed + seconds (if sensitive then 40 else 310)
  pub not_late : h.checked_at ≤ observed + seconds (if sensitive then 30 else 300)
  pub alarm_iff : h.alarm ≡ true ↔ seconds 30 < h.lag

health_of-checked_at :
    (observed committed high applied_watermark : ℕ) (sensitive : Bool) (response : Time)
    (data_as_of : Option Time) {h : ProjectionHealth}
    → health_of observed committed high applied_watermark sensitive response data_as_of ≡ ok h
    → h.checked_at ≡ committed
unfolding health_of
health_of-checked_at observed committed high applied_watermark sensitive response data_as_of {h} e =
    ground arith

-- Health is reported only over a heartbeat that was observed at most 310 seconds before the
-- response, and 40 for a sensitive view, and committed at most 300 or 30 seconds after it was
-- observed; the alarm is up exactly when the lag exceeds 30 seconds.
pub projection_health-FreshEnough :
    (response : Time) (sensitive : Bool) (db : Db) (h : ProjectionHealth)
    → projection_health response sensitive db ≡ ok h
    → FreshEnough response sensitive h db
unfolding projection_health
projection_health-FreshEnough response sensitive db h e =
    elim (Option-cases (heartbeat_of db.consumer)) [
      | inl missing ↦ absurd (ground arith)
      | inr ((observed, committed, high, applied_watermark), is_beat) ↦
          let returned : health_of observed committed high applied_watermark sensitive response
                (latest_update db.projections)
              ≡ ok h =
            rw (is_beat, projection_health) at e in
          let (s, is_state, seen, checked) = heartbeat_of-eq-some db.consumer is_beat in
          let (old, late, alarm) =
            health_of-bounds observed committed high applied_watermark sensitive response _
              returned in
          record {
            state = s;
            is_state = is_state;
            observed = observed;
            is_observed = seen;
            not_old = old;
            not_late = omega (
              arith,
              late,
              health_of-checked_at observed committed high applied_watermark sensitive response _
                  returned,
            );
            alarm_iff = alarm;
          }
    ]
