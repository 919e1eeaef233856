-- ===== src/Trips/Reconciliation.antt =====
-- reconcile_bounded of trips/reconciliation.py: a bounded batch of trips whose fate is open is
-- claimed, and the planner is asked about each.
use travel_web_api.Db.Monad.{Db, hermes_integration_error, Result, ok, err, App}
use travel_web_api.Db.Statuses.{is_active_trip}
use travel_web_api.Db.Trips.{UserTrip}
use travel_web_api.Db.Users.{Time}
use travel_web_api.Prelude.{
  ltb, leb, if◌then◌else◌, string_eq, nat_eq, ◌==◌, find, any, length, take, update_where, select,
  ℕ, ◌+◌, String, Bool, ◌&&◌, ◌||◌, none, some, List, [], ◌∷◌,
}
use travel_web_api.Python.{Python}
use travel_web_api.Quota.Accept.{save_upstream_acceptance}
use travel_web_api.Security.{Settings}
use travel_web_api.Trips.Service.{
  HermesTripCreated, Planner, upstream_request_id, continue_with, HermesJobStatus, apply_job_status,
}

pub record ReconciliationResult : Type 0 where
  pub claimed : ℕ
  pub recovered : ℕ
  pub unresolved : ℕ

-- The planner's client: create_trip and job_status, which may raise.
pub record HermesClient : Type 0 where
  pub create_trip : Planner
  pub job_status : String → Result HermesJobStatus

abbrev pub is_open : Settings → UserTrip → Bool
is_open settings t =
    is_active_trip t.status && ltb t.reconciliation_attempts settings.reconciliation_max_attempts

-- `ORDER BY updated_at, id`
abbrev pub is_before : UserTrip → UserTrip → Bool
is_before t u = ltb t.updated_at u.updated_at || t.updated_at == u.updated_at && leb t.id u.id

abbrev pub insert_trip_by_age : UserTrip → List UserTrip → List UserTrip
insert_trip_by_age t [] = t ∷ []
insert_trip_by_age t (u ∷ us) =
    let rest = insert_trip_by_age t us in if is_before t u then t ∷ u ∷ us else u ∷ rest

abbrev pub by_age : List UserTrip → List UserTrip
by_age [] = []
by_age (t ∷ ts) = insert_trip_by_age t (by_age ts)

unfoldable pub open_batch : Settings → Db → List UserTrip
open_batch settings db =
    take settings.reconciliation_batch_size (by_age (select (is_open settings) db.trips))

abbrev pub claimed_row : Time → UserTrip → UserTrip
claimed_row now t = record t {
  reconciliation_attempts = t.reconciliation_attempts + 1;
  last_reconciled_at = some now;
  updated_at = now;
}

abbrev pub is_among : List UserTrip → UserTrip → Bool
is_among ts t = any (λ u. u.id == t.id) ts

unfoldable pub claim_batch : List UserTrip → Time → Db → Db
claim_batch batch now db = record db {
  trips = update_where (is_among batch) (claimed_row now) db.trips;
}

pub data Step : Type 0 where
  recovered_step unresolved_step : Step

-- `except HermesIntegrationError`; every other exception goes on, HermesBusinessError too.
abbrev pub step_of : {A : Type 0} → Result A × Db → Result Step × Db
step_of (ok a, db) = (ok recovered_step, db)
step_of (err (hermes_integration_error category retryable unsure), db) = (ok unresolved_step, db)
step_of (err e, db) = (err e, db)

unfoldable pub recreate : Python → UserTrip → Time → Result HermesTripCreated → App UserTrip
recreate py t later (ok created) db =
    save_upstream_acceptance py t.id created.job_id created.status later db
recreate py t later (err e) db = (err e, db)

unfoldable pub refresh : Python → UserTrip → Time → Result HermesJobStatus → App UserTrip
refresh py t later (ok upstream) db = apply_job_status py t upstream none later db
refresh py t later (err e) db = (err e, db)

-- One snapshot, at a time of its own.
unfoldable pub reconcile_one : Python → HermesClient → UserTrip → Time → App Step
reconcile_one py hermes snapshot later db = elim snapshot.hermes_job_id [
  | none ↦ step_of (
      recreate py snapshot later
        (hermes.create_trip snapshot.request_json (upstream_request_id snapshot) snapshot.public_id)
        db)
  | some job ↦ elim (find (λ t. t.id == snapshot.id) db.trips) [
    | none ↦ (ok unresolved_step, db)
    | some t ↦ step_of (refresh py t later (hermes.job_status job) db)
  ]
]

abbrev pub counted_step : Step → ReconciliationResult → ReconciliationResult
counted_step recovered_step r = record r { recovered = r.recovered + 1 }
counted_step unresolved_step r = record r { unresolved = r.unresolved + 1 }

unfoldable pub reconcile_all :
    Python → HermesClient → List UserTrip → Time → ReconciliationResult → App ReconciliationResult
reconcile_all py hermes [] later r db = (ok r, db)
reconcile_all py hermes (t ∷ ts) later r db =
    continue_with (reconcile_one py hermes t later db)
      (λ s db1. reconcile_all py hermes ts later (counted_step s r) db1)

unfoldable pub reconcile_bounded :
    Python → Settings → HermesClient → Time → Time → App ReconciliationResult
reconcile_bounded py settings hermes now later db =
    let batch = open_batch settings db in
    reconcile_all py hermes batch later
      (record { claimed = length batch; recovered = 0; unresolved = 0 }) (claim_batch batch now db)
