-- ===== src/Trips/Charges.antt =====
-- What a submission leaves of the limits and the consumed units of all users, whatever the planner
-- answers.
use travel_web_api.Db.Monad.{
  Db, Error, hermes_integration_error, hermes_business_error, Result, ok, err, App,
}
use travel_web_api.Db.Statuses.{status_text, TripStatus, is_submitting}
use travel_web_api.Db.Trips.{UserTrip}
use travel_web_api.Db.Users.{Uuid, Time}
use travel_web_api.Json.{JsonObject}
use travel_web_api.Prelude.{
  if◌then◌else◌, string_eq, nat_eq, ◌==◌, is_none, String, ◌≡◌, refl, Bool, true, false, ◌&&◌, [],
  ◌∷◌,
}
use travel_web_api.Python.{Python}
use travel_web_api.Quota.Accept.{
  save_upstream_acceptance, mark_upstream_uncertain, record_trip_telemetry,
}
use travel_web_api.Quota.Reserve.{Reservation, reserve_trip}
use travel_web_api.Quota.Settle.{settle_trip}
use travel_web_api.Quota.Spending.{
  Spares, Spares-refl, Spares-trans, Spares-SameQuota, reserve_trip-Spares, settle_trip-Spares,
  record_trip_telemetry-SameQuota, save_upstream_acceptance-SameQuota,
  mark_upstream_uncertain-SameQuota,
}
use travel_web_api.Trips.Service.{
  HermesTripCreated, Planner, SubmitCall, upstream_request_id, continue_with, raise_after,
  city_not_supported, invalid_answer, integration_failure, on_business_error, on_integration_error,
  on_created, on_answer, submit_reserved, hand_over, submission_of, after_reservation, submit_trip,
}

-- `str.upper` leaves the names of the statuses as they are.
abbrev pub KeepsNames : Python → Type 0
KeepsNames py = (s : TripStatus) → py.upper (status_text s) ≡ status_text s

raise_after-Spares :
    {A : Type 0} (B : Type 0) (db : Db) (r : Result A × Db) (e : Error)
    → Spares db r.1
    → Spares db (raise_after {B = B} r e).1
raise_after-Spares B db (ok a, d) e h = h
raise_after-Spares B db (err x, d) e h = h

pub continue_with-Spares :
    {A B : Type 0} (db : Db) (r : Result A × Db) (f : A → App B)
    → Spares db r.1
    → ((a : A) (d : Db) → Spares d (f a d).1)
    → Spares db (continue_with r f).1
continue_with-Spares db (ok a, d) f h k = Spares-trans h (k a d)
continue_with-Spares db (err x, d) f h k = h

pub if-Spares :
    {A : Type 0} (db : Db) (b : Bool) (x y : Result A × Db)
    → Spares db x.1
    → Spares db y.1
    → Spares db (if b then x else y).1
if-Spares db true x y h k = h
if-Spares db false x y h k = k

telemetry-Spares :
    (id : Uuid) (d : JsonObject) (now : Time) (db : Db)
    → Spares db (record_trip_telemetry id d now db).1
telemetry-Spares id d now db = Spares-SameQuota (record_trip_telemetry-SameQuota id d now db)

uncertain-Spares :
    (id : Uuid) (now : Time) (db : Db) → Spares db (mark_upstream_uncertain id now db).1
uncertain-Spares id now db = Spares-SameQuota (mark_upstream_uncertain-SameQuota id now db)

pub accept-Spares :
    (py : Python) (id : Uuid) (job s : String) (now : Time) (db : Db)
    → Spares db (save_upstream_acceptance py id job s now db).1
accept-Spares py id job s now db =
    Spares-SameQuota (save_upstream_acceptance-SameQuota py id job s now db)

on_created-Spares :
    (py : Python) (t : UserTrip) (later : Time) (created : HermesTripCreated) (db : Db)
    → Spares db (on_created py t later created db).1
unfolding on_created
on_created-Spares py t later created db =
    if-Spares db (created.job_id == "") _ _
      (raise_after-Spares UserTrip db (mark_upstream_uncertain t.id later db) (invalid_answer false)
        (uncertain-Spares t.id later db))
      (continue_with-Spares db
        (save_upstream_acceptance py t.id created.job_id created.status later db) _
        (accept-Spares py t.id created.job_id created.status later db)
        (λ accepted db1.
          continue_with-Spares db1
            (record_trip_telemetry t.id (("current_stage", created.current_stage) ∷ []) later db1) _
            (telemetry-Spares t.id (("current_stage", created.current_stage) ∷ []) later db1)
            (λ _ db2. Spares-refl db2)))

module _ (py : Python) (keeps : KeepsNames py) where
  reads_failed : (py.upper "FAILED" == "SUCCESS") ≡ false
  reads_failed = rw (keeps TripStatus.failed) refl

  reads_rejected : (py.upper "REJECTED" == "SUCCESS") ≡ false
  reads_rejected = rw (keeps TripStatus.rejected) refl

  on_business_error-Spares :
      (t : UserTrip) (later : Time) (code : String) (db : Db)
      → Spares db (on_business_error py t later code db).1
  unfolding on_business_error
  on_business_error-Spares t later code db =
      if-Spares db (code == "CITY_NOT_SUPPORTED") _ _
        (raise_after-Spares UserTrip db (settle_trip py _ db) city_not_supported
          (settle_trip-Spares py _ db reads_rejected))
        (Spares-refl db)

  on_integration_error-Spares :
      (t : UserTrip) (later : Time) (category : String) (retryable unsure : Bool) (db : Db)
      → Spares db (on_integration_error py t later category retryable unsure db).1
  unfolding on_integration_error
  on_integration_error-Spares t later category retryable unsure db =
      if-Spares db unsure _ _
        (raise_after-Spares UserTrip db (mark_upstream_uncertain t.id later db)
          (integration_failure category retryable) (uncertain-Spares t.id later db))
        (raise_after-Spares UserTrip db (settle_trip py _ db)
          (integration_failure category retryable) (settle_trip-Spares py _ db reads_failed))

  on_answer-Spares :
      (t : UserTrip) (later : Time) (a : Result HermesTripCreated) (db : Db)
      → Spares db (on_answer py t later a db).1
  unfolding on_answer
  on_answer-Spares t later (ok created) db = on_created-Spares py t later created db
  on_answer-Spares t later (err (hermes_business_error code)) db =
      on_business_error-Spares t later code db
  on_answer-Spares t later (err (hermes_integration_error category retryable unsure)) db =
      on_integration_error-Spares t later category retryable unsure db
  on_answer-Spares t later (err e) db = Spares-refl db

  hand_over-Spares :
      (planner : Planner) (t : UserTrip) (later : Time) (db : Db)
      → Spares db (hand_over py planner t later db).1
  unfolding hand_over submit_reserved
  hand_over-Spares planner t later db =
      if-Spares db (is_none t.hermes_job_id && is_submitting t.status) _ _
        (on_answer-Spares t later (planner t.request_json (upstream_request_id t) t.public_id) db)
        (Spares-refl db)

  after_reservation-Spares :
      (planner : Planner) (c : SubmitCall) (db : Db) (r : Result Reservation × Db)
      → Spares db r.1
      → Spares db (after_reservation py planner c r).1
  unfolding after_reservation
  after_reservation-Spares planner c db (err e, d) h = h
  after_reservation-Spares planner c db (ok r, d) h = Spares-trans h (
      continue_with-Spares d (hand_over py planner r.trip c.later d)
        (submission_of c.reservation.user_id) (hand_over-Spares planner r.trip c.later d)
        (λ t db1. Spares-refl db1))

  -- Whatever the planner answers or raises, and whatever submit_trip answers, no user's limit and no
  -- user's consumed units have changed: a submission consumes nothing. `str.upper` leaves the names
  -- of the statuses as they are.
  pub submit_trip-Spares :
      (planner : Planner) (c : SubmitCall) (db : Db) → Spares db (submit_trip py planner c db).1
  unfolding submit_trip
  submit_trip-Spares planner c db =
      after_reservation-Spares planner c db (reserve_trip py c.reservation db)
        (reserve_trip-Spares py c.reservation db)
