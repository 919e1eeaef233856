-- ===== src/Projection/Health.antt =====
-- calculate_sync_lag, projection_health, association_payload and runtime_projection. A time is in
-- microseconds, and so is a lag, so `total_seconds()` loses nothing.
use travel_web_api.Db.Monad.{Db, projection_unavailable, Result, ok, err}
use travel_web_api.Db.Statuses.{TripStatus, running, is_terminal}
use travel_web_api.Db.Trips.{
  Association, linked, deidentified, AdminTripProjection, InitializationState,
  AdminProjectionConsumerState,
}
use travel_web_api.Db.Users.{Time, AppUser}
use travel_web_api.Prelude.{
  leb, if◌then◌else◌, string_eq, nat_eq, ◌==◌, is_none, is_some, or_empty, find, ℕ, ◌-◌, ◌/◌, max,
  String, Bool, true, false, not, ◌&&◌, ◌||◌, Option, none, some, List, [], ◌∷◌,
}
use travel_web_api.Python.{seconds}

pub data SyncState : Type 0 where
  fresh lagging delayed unavailable : SyncState

abbrev pub sync_lag : Time → Time → Time → ℕ
sync_lag observed committed response = max (committed - observed) (response - observed - seconds 10)

abbrev pub lag_state : ℕ → SyncState
lag_state lag =
    if leb lag (seconds 5)
    then fresh
    else if leb lag (seconds 30)
    then lagging
    else if leb lag (seconds 300)
    then delayed
    else unavailable

unfoldable pub calculate_sync_lag : Time → Time → Time → ℕ × SyncState
calculate_sync_lag observed committed response =
    let lag = sync_lag observed committed response in (lag, lag_state lag)

pub record ProjectionHealth : Type 0 where
  pub as_of : Time
  pub data_as_of : Option Time
  pub checked_at : Time
  pub lag : ℕ
  pub source_high_watermark : ℕ
  pub applied_watermark : ℕ
  pub state : SyncState
  pub alarm : Bool

abbrev pub is_initialized : InitializationState → Bool
is_initialized InitializationState.initialized = true
is_initialized InitializationState.uninitialized = false

-- `func.max(source_updated_at)`
abbrev pub latest_update : List AdminTripProjection → Option Time
latest_update [] = none
latest_update (p ∷ ps) =
    some (elim (latest_update ps) [
      | none ↦ p.source_updated_at
      | some at ↦ max p.source_updated_at at
    ])

abbrev pub is_delayed : SyncState → Bool
is_delayed delayed = true
is_delayed _ = false

abbrev pub is_unavailable : SyncState → Bool
is_unavailable unavailable = true
is_unavailable _ = false

unfoldable pub health_of : Time → Time → ℕ → ℕ → Bool → Time → Option Time → Result ProjectionHealth
health_of observed committed high applied_watermark sensitive response data_as_of =
    let lag = sync_lag observed committed response in
    let state = lag_state lag in
    if is_unavailable state || sensitive && is_delayed state
    then err projection_unavailable
    else ok (record {
      as_of = response;
      data_as_of = data_as_of;
      checked_at = committed;
      lag = lag;
      source_high_watermark = high;
      applied_watermark = applied_watermark;
      state = state;
      alarm = is_delayed state;
    })

-- `none` where the state row is missing, was never initialized or lacks a heartbeat.
abbrev pub heartbeat_of : Option AdminProjectionConsumerState → Option (Time × Time × ℕ × ℕ)
heartbeat_of none = none
heartbeat_of (some s) =
    if not (is_initialized s.initialization_state)
    then none
    else elim s.latest_heartbeat_observed_at [
      | none ↦ none
      | some observed ↦ elim s.sync_checked_at [
        | none ↦ none
        | some committed ↦ elim s.latest_heartbeat_watermark [
          | none ↦ none
          | some high ↦ some (observed, committed, high, s.applied_high_watermark)
        ]
      ]
    ]

unfoldable pub projection_health : Time → Bool → Db → Result ProjectionHealth
projection_health response sensitive db = elim (heartbeat_of db.consumer) [
  | none ↦ err projection_unavailable
  | some (observed, committed, high, applied_watermark) ↦
      health_of observed committed high applied_watermark sensitive response
        (latest_update db.projections)
]

-- What an administrator is shown of the trip's owner.
pub data ShownAssociation : Type 0 where
  shown_linked : String → String → ShownAssociation
  shown_deidentified shown_unlinked : ShownAssociation

abbrev pub is_linked : Association → Bool
is_linked linked = true
is_linked _ = false

abbrev pub is_deidentified : Association → Bool
is_deidentified deidentified = true
is_deidentified _ = false

-- A public id or a name that is None or empty is not shown.
abbrev pub is_given : Option String → Bool
is_given none = false
is_given (some s) = not (s == "")

unfoldable pub association_payload :
    AdminTripProjection → Option String → Option String → ShownAssociation
association_payload p public_id name =
    if is_linked p.association_state
      && is_none p.identity_erased_at
      && is_some p.user_id
      && is_given public_id
      && is_given name
    then shown_linked (or_empty public_id) (or_empty name)
    else if is_deidentified p.association_state || is_some p.identity_erased_at
    then shown_deidentified
    else shown_unlinked

pub record RuntimeProjection : Type 0 where
  pub total_duration_ms : ℕ
  pub is_slow : Bool
  pub timeout_settlement_anomaly : Bool

abbrev pub is_pending_or_running : TripStatus → Bool
is_pending_or_running TripStatus.pending = true
is_pending_or_running running = true
is_pending_or_running _ = false

-- The time until which a job is measured.
abbrev pub end_of : AdminTripProjection → Time → Time
end_of p as_of =
    if is_terminal p.status
    then (elim p.finished_at [ none ↦ p.source_updated_at | some at ↦ at ])
    else as_of

abbrev pub anchor_of : AdminTripProjection → Time
anchor_of p = elim p.started_at [ none ↦ p.created_at | some at ↦ at ]

unfoldable pub runtime_projection : AdminTripProjection → Time → RuntimeProjection
runtime_projection p as_of =
    let elapsed = end_of p as_of - anchor_of p in
    record {
      total_duration_ms = (end_of p as_of - p.created_at) / 1_000;
      is_slow = leb (seconds 90) elapsed;
      timeout_settlement_anomaly = is_pending_or_running p.status && leb (seconds 150) elapsed;
    }

-- The row, with the public id and the name of its user, if there is one.
unfoldable pub current_projection_with_name :
    String → Db → Option (AdminTripProjection × Option AppUser)
current_projection_with_name job_id db = elim (find (λ p. p.job_id == job_id) db.projections) [
  | none ↦ none
  | some p ↦ some (p, elim p.user_id [ none ↦ none | some id ↦ find (λ u. u.id == id) db.users ])
]
