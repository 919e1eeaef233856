-- ===== src/Trips/Tests.antt =====
-- A submission on the sample database, with a planner that accepts every trip.
use travel_web_api.Db.Monad.{Db, Error, api_error, hermes_integration_error, ok, err}
use travel_web_api.Db.Tables.{trip_clash, insert_trip, put_trip, insert_entry}
use travel_web_api.Db.Trips.{UserTrip}
use travel_web_api.Json.{Json}
use travel_web_api.Prelude.{◌≡◌, refl, subst, true, false, none, some, [], ◌∷◌, arith}
use travel_web_api.Prelude.Int.{pos, ◌+ℤ◌, ◌-ℤ◌}
use travel_web_api.Quota.Ledger.{HasEntry, Ledger}
use travel_web_api.Quota.Reserve.{
  Reservation, new_trip, new_entry, insert_rows, insert_reservation, reserve_new, reserve_body,
  reserve_trip,
}
use travel_web_api.Quota.Snapshot.{quota_snapshot}
use travel_web_api.Quota.Spending.{Spares}
use travel_web_api.Rows.{some_eq}
use travel_web_api.Samples.{sample_py, sample_db, sample_settings, sample_db-Ledger}
use travel_web_api.Trips.Charges.{KeepsNames, submit_trip-Spares}
use travel_web_api.Trips.Charging.{IsCharged}
use travel_web_api.Trips.GivingUp.{Unreachable, reconcile_rounds, reconcile_rounds-open_batch}
use travel_web_api.Trips.Reconciliation.{HermesClient, open_batch}
use travel_web_api.Trips.Refunds.{submit_trip_refunded}
use travel_web_api.Trips.Reports.{apply_job_status-IsCharged}
use travel_web_api.Trips.Service.{
  Planner, SubmitCall, submit_trip, HermesJobStatus, apply_job_status,
}

abbrev accepting : Planner
accepting request upstream_id conversation_id =
    ok (record { job_id = "job-1"; status = "PENDING"; current_stage = Json.null })

abbrev submit : SubmitCall
submit = record {
  reservation = record {
    user_id = 1;
    client_request_id = "request-1";
    request_hash = "hash-1";
    request_json = ("to_city", Json.text "Nara") ∷ ("days", Json.num (pos 3)) ∷ [];
    request_field_provenance = [];
    trip_history_days = 7;
    now = 100;
    trip_id = 11;
    quota_id = 12;
    public_id = "trip_1";
  };
  later = 200;
}

abbrev reported : HermesJobStatus
reported = record {
  job_id = "job-1";
  status = "SUCCESS";
  current_stage = Json.null;
  plan_count = Json.num (pos 2);
  elapsed_ms = Json.null;
  queue_wait_ms = Json.null;
  run_elapsed_ms = Json.null;
  total_elapsed_ms = Json.null;
  result_type = Json.null;
  result_record_id = some 31;
  error_code = none;
}

abbrev accepted_trip : UserTrip
accepted_trip = record (new_trip submit.reservation "Nara" (pos 3)) {
  quota_entry_id = some 12;
  hermes_job_id = some "job-1";
}

sample_py-KeepsNames : KeepsNames sample_py
sample_py-KeepsNames s = refl

submit_trip-Spares_example : Spares sample_db (submit_trip sample_py accepting submit sample_db).1
submit_trip-Spares_example =
    submit_trip-Spares sample_py sample_py-KeepsNames accepting submit sample_db

abbrev unreachable : Planner
unreachable request upstream_id conversation_id =
    err (hermes_integration_error "UNAVAILABLE" true false)

abbrev reserved_trip : UserTrip
reserved_trip = record (new_trip submit.reservation "Nara" (pos 3)) { quota_entry_id = some 12 }

abbrev reserved_db : Db
reserved_db = record sample_db {
  trips = reserved_trip ∷ [];
  entries = new_entry submit.reservation ∷ [];
}

abbrev made_reservation : Reservation
made_reservation = record {
  trip = reserved_trip;
  created = true;
  quota = quota_snapshot 1 reserved_db;
}

reserved_ok :
    reserve_trip sample_py submit.reservation sample_db ≡ (ok made_reservation, reserved_db)
unfolding reserve_trip reserve_body reserve_new insert_reservation insert_rows insert_trip
    insert_entry put_trip trip_clash quota_snapshot ◌-ℤ◌ ◌+ℤ◌
reserved_ok = refl

abbrev unavailable : Error
unavailable = api_error (record {
  status_code = 503;
  code = "GENERATION_SERVICE_UNAVAILABLE";
  message = "生成服务暂时不可用，请稍后重试。";
  retryable = true;
  details = [];
})

submit_trip_refunded_example :
    let before = quota_snapshot 1 sample_db in
    let (answer, after) = submit_trip sample_py unreachable submit sample_db in
    (answer ≡ err unavailable)
    × ((quota_snapshot 1 after).limit ≡ before.limit)
    × ((quota_snapshot 1 after).reserved_units ≡ before.reserved_units)
    × ((quota_snapshot 1 after).consumed_units ≡ before.consumed_units)
submit_trip_refunded_example =
    submit_trip_refunded sample_py unreachable submit sample_db reserved_db made_reservation
      unavailable sample_py-KeepsNames sample_db-Ledger reserved_ok refl (refl, refl)

abbrev reported_db : Db
reported_db = record sample_db {
  trips = accepted_trip ∷ [];
  entries = new_entry submit.reservation ∷ [];
}

accepted_entry : HasEntry (new_entry submit.reservation ∷ []) accepted_trip 1
accepted_entry = record {
  entry = new_entry submit.reservation;
  linked_by = refl;
  found = refl;
  of_trip = refl;
  of_user = refl;
  one_unit = refl;
  of_type = refl;
  of_key = refl;
  follows = refl;
}

reported_db-Ledger : Ledger reported_db
reported_db-Ledger = record {
  trip_ids = (refl, tt);
  entry_ids = (refl, tt);
  links = (
    record {
      owned = λ user own.
          let mine : 1 ≡ user = some_eq own in
          subst (HasEntry (new_entry submit.reservation ∷ []) accepted_trip) mine accepted_entry;
      unowned = λ nobody. cc;
    },
    tt,
  );
  balance = λ user s. ground arith;
}

apply_job_status-IsCharged_example :
    IsCharged 1 true true reported_db
      (apply_job_status sample_py accepted_trip reported none 300 reported_db)
apply_job_status-IsCharged_example =
    apply_job_status-IsCharged sample_py accepted_trip reported none 300 1 reported_db
      reported_db-Ledger refl refl refl refl

abbrev silent : HermesClient
silent = record {
  create_trip =
      λ request upstream_id conversation_id. err (hermes_integration_error "UNAVAILABLE" true true);
  job_status = λ job. err (hermes_integration_error "UNAVAILABLE" true false);
}

silent-Unreachable : Unreachable silent
silent-Unreachable = record {
  no_answer = λ request upstream_id conversation_id. ("UNAVAILABLE", true, true, refl);
  no_status = λ job. ("UNAVAILABLE", true, false, refl);
}

abbrev waiting_db : Db
waiting_db = record sample_db { trips = accepted_trip ∷ [] }

reconcile_rounds-open_batch_example :
    open_batch sample_settings (
      reconcile_rounds sample_py sample_settings silent
        ((500, 501) ∷ (600, 601) ∷ (700, 701) ∷ [])
        waiting_db)
    ≡ []
reconcile_rounds-open_batch_example =
    reconcile_rounds-open_batch sample_py sample_settings silent
      ((500, 501) ∷ (600, 601) ∷ (700, 701) ∷ []) waiting_db silent-Unreachable (omega arith)
