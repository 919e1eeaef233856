-- ===== src/Quota/Tests.antt =====
-- Runs of quota/service.sample_py on a small database, at which its theorems apply.
use travel_web_api.Db.Monad.{Db, request_id_conflict, ok, err}
use travel_web_api.Db.Statuses.{TripStatus}
use travel_web_api.Db.Tables.{insert_trip, put_trip, insert_entry}
use travel_web_api.Db.Trips.{UserTrip}
use travel_web_api.Json.{Json}
use travel_web_api.Prelude.{find, count_where, ◌+◌, ◌≡◌, refl, true, none, some, List, [], ◌∷◌}
use travel_web_api.Prelude.Int.{pos, ◌+ℤ◌, ◌-ℤ◌}
use travel_web_api.Quota.Evolution.{Keeps}
use travel_web_api.Quota.Ledger.{trip_key, Ledger}
use travel_web_api.Quota.Limits.{IsWithin}
use travel_web_api.Quota.Outcomes.{run_calls-Keeps}
use travel_web_api.Quota.Reservations.{reserve_trip_quota, reserve_trip_twice}
use travel_web_api.Quota.Reserve.{
  Reservation, ReserveCall, new_trip, insert_rows, insert_reservation, is_active_trip_of,
  is_success_trip_of, reserve_new, reserve_body, reserve_trip,
}
use travel_web_api.Quota.Sequences.{Call, run_call, run_calls, run_call-Ledger, run_calls-quota}
use travel_web_api.Quota.Settle.{
  SettleCall, is_trip_of, settle_entries, settle_row, settle_active, settle_body, read_terminal,
  settle_trip,
}
use travel_web_api.Quota.Settlements.{settle_trip_quota, settle_trip_twice}
use travel_web_api.Quota.Snapshot.{quota_snapshot}
use travel_web_api.Quota.Solvency.{run_calls-IsWithin}
use travel_web_api.Rows.{has_key}
use travel_web_api.Samples.{sample_py, sample_db, sample_db-Ledger, sample_db-IsSound}

abbrev ask : ReserveCall
ask = record {
  user_id = 1;
  client_request_id = "request-1";
  request_hash = "hash-1";
  request_json = ("to_city", Json.text "Nara") ∷ ("days", Json.num (pos 3)) ∷ [];
  request_field_provenance = [];
  trip_history_days = 90;
  now = 100;
  trip_id = 11;
  quota_id = 12;
  public_id = "trip_1";
}

abbrev finish : SettleCall
finish = record {
  trip_id = 11;
  terminal_status = "SUCCESS";
  result_record_id = some 31;
  error_code = none;
  error_message = none;
  error_retryable = none;
  owner_id = some 1;
  now = 200;
}

abbrev three_calls : List Call
three_calls = Call.reserve ask ∷ Call.accept 11 "job-1" "RUNNING" 150 ∷ Call.settle finish ∷ []

abbrev booked : UserTrip
booked = record (new_trip ask "Nara" (pos 3)) { quota_entry_id = some 12 }

abbrev ended : UserTrip
ended = settle_row finish TripStatus.success booked

abbrev booked_db : Db
booked_db = run_call sample_py (Call.reserve ask) sample_db

booked-Ledger : Ledger booked_db
booked-Ledger = run_call-Ledger sample_py (Call.reserve ask) sample_db sample_db-Ledger

reserved_ok :
    (reserve_trip sample_py ask sample_db).0
    ≡ ok (record {
      trip = booked;
      created = true;
      quota = record { limit = pos 2; reserved_units = 1; consumed_units = 0 };
    })
unfolding reserve_trip reserve_body reserve_new quota_snapshot insert_reservation insert_rows ◌-ℤ◌
    ◌+ℤ◌ insert_trip insert_entry put_trip
reserved_ok = refl

settled_ok : (settle_trip sample_py finish booked_db).0 ≡ ok ended
unfolding run_call settle_trip read_terminal settle_body settle_active settle_entries reserve_trip
    reserve_body reserve_new quota_snapshot insert_reservation insert_rows insert_trip insert_entry
    put_trip ◌-ℤ◌ ◌+ℤ◌
settled_ok = refl

booked_found : find (is_trip_of 11 (some 1)) booked_db.trips ≡ some booked
unfolding run_call reserve_trip reserve_body reserve_new quota_snapshot insert_reservation ◌-ℤ◌ ◌+ℤ◌
    insert_rows insert_trip insert_entry put_trip
booked_found = refl

booked_kept : find (has_key trip_key 11) booked_db.trips ≡ some booked
unfolding run_call reserve_trip reserve_body reserve_new quota_snapshot insert_reservation ◌-ℤ◌ ◌+ℤ◌
    insert_rows insert_trip insert_entry put_trip
booked_kept = refl

reads_failed : read_terminal sample_py "FAILED" ≡ some TripStatus.failed
unfolding read_terminal
reads_failed = refl

abbrev finish_again : SettleCall
finish_again = record finish { terminal_status = "FAILED"; now = 300 }

run_calls-quota_example :
    let after = run_calls sample_py three_calls sample_db in
    ((quota_snapshot 1 after).reserved_units ≡ count_where (is_active_trip_of 1) after.trips)
    × ((quota_snapshot 1 after).consumed_units ≡ count_where (is_success_trip_of 1) after.trips)
run_calls-quota_example = run_calls-quota sample_py three_calls sample_db 1 sample_db-Ledger

run_calls-IsWithin_example : IsWithin (quota_snapshot 1 (run_calls sample_py three_calls sample_db))
run_calls-IsWithin_example = run_calls-IsWithin sample_py three_calls sample_db 1 sample_db-IsSound

run_calls-Keeps_example : Keeps booked (run_calls sample_py (Call.settle finish ∷ []) booked_db)
run_calls-Keeps_example =
    run_calls-Keeps sample_py (Call.settle finish ∷ []) booked_db booked booked-Ledger booked_kept

abbrev first_answer : Reservation
first_answer = record {
  trip = booked;
  created = true;
  quota = record { limit = pos 2; reserved_units = 1; consumed_units = 0 };
}

reserve_trip_twice_example :
    reserve_trip sample_py
      (record ask { request_hash = "hash-2" })
      (reserve_trip sample_py ask sample_db).1
    ≡ (err request_id_conflict, (reserve_trip sample_py ask sample_db).1)
reserve_trip_twice_example =
    reserve_trip_twice sample_py ask (record ask { request_hash = "hash-2" }) sample_db first_answer
      reserved_ok refl refl

reserve_trip_quota_example :
    first_answer.quota ≡ quota_snapshot 1 (reserve_trip sample_py ask sample_db).1
reserve_trip_quota_example = reserve_trip_quota sample_py ask sample_db first_answer reserved_ok

settle_trip_quota_example :
    let before = quota_snapshot 1 booked_db in
    let after = quota_snapshot 1 (settle_trip sample_py finish booked_db).1 in
    (after.limit ≡ before.limit)
    × (after.reserved_units + 1 ≡ before.reserved_units)
    × (after.consumed_units ≡ before.consumed_units + 1)
settle_trip_quota_example =
    settle_trip_quota sample_py finish booked_db booked ended 1 booked-Ledger booked_found refl refl
      settled_ok

settle_trip_twice_example :
    settle_trip sample_py finish_again (settle_trip sample_py finish booked_db).1
    ≡ (ok ended, (settle_trip sample_py finish booked_db).1)
settle_trip_twice_example =
    settle_trip_twice sample_py finish finish_again booked_db ended TripStatus.failed booked-Ledger
      settled_ok refl refl reads_failed
