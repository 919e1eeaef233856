-- ===== src/Quota/Outcomes.antt =====
-- A trip keeps its owner, its request, its job and its outcome through any sequence of calls.
use mathlib.Core.Option
use travel_web_api.Db.Monad.{Db, ok, transaction-keeps}
use travel_web_api.Db.Statuses.{is_submitting}
use travel_web_api.Db.Tables.{put_trip}
use travel_web_api.Db.Trips.{UserTrip}
use travel_web_api.Db.Users.{Uuid, Time}
use travel_web_api.Json.{JsonObject, merge}
use travel_web_api.Prelude.{
  if◌then◌else◌, ◌==◌, nat_eq, string_eq, Bool-cases, Option-cases, find, ◌≡◌, refl, ap, ◌∙◌, inl,
  inr, ◌&&◌, some, List, ◌∷◌, arith,
}
use travel_web_api.Python.{Python}
use travel_web_api.Quota.Accept.{
  accepted_status, accept_body, save_upstream_acceptance, uncertain_row, mark_upstream_uncertain,
  safe_telemetry, telemetry_body, is_empty, record_trip_telemetry,
}
use travel_web_api.Quota.Evolution.{
  Evolves-refl, Evolves-trans, Keeps, Keeps-trips, Keeps-put_trip, Evolves-fields,
}
use travel_web_api.Quota.Histories.{progress_body-Keeps, accept_body-Keeps, settle_body-Keeps}
use travel_web_api.Quota.Ledger.{trip_key, Ledger}
use travel_web_api.Quota.Reservations.{reserve_body-trips}
use travel_web_api.Quota.Reserve.{Reservation, ReserveCall, reserve_body, reserve_trip}
use travel_web_api.Quota.Sequences.{Call, run_call, run_calls, run_call-Ledger, run_calls_induction}
use travel_web_api.Quota.Settle.{
  settle_body, read_terminal, settle_trip, read_active, progress_body, update_active_status,
}
use travel_web_api.Rows.{find-update_same, absent-found, has_key, find_key}

telemetry_body-Keeps :
    (t : UserTrip) (trip_id : Uuid) (safe : JsonObject) (now : Time) (db : Db) {u : Unit {0}}
    {db' : Db}
    → Ledger db
    → Keeps t db
    → telemetry_body trip_id safe now db ≡ ok (u, db')
    → Keeps t db'
unfolding telemetry_body
telemetry_body-Keeps t trip_id safe now db {u} {db'} h k e =
    elim (Option-cases (find (has_key trip_key trip_id) db.trips)) [
      | inl missing ↦ absurd (ground arith)
      | inr (x, is_found) ↦
          let row = record x { telemetry_json = merge x.telemetry_json safe; updated_at = now } in
          let written : put_trip row db ≡ ok (u, db') = ground arith in
          Keeps-put_trip db x row refl
            (find_key trip_key (has_key trip_key trip_id) db.trips h.trip_ids is_found)
            (Evolves-fields x row refl refl refl refl refl refl refl refl refl) k written
    ]

uncertain-Keeps :
    (t : UserTrip) (trip_id : Uuid) (now : Time) (db : Db)
    → Keeps t db
    → Keeps t (mark_upstream_uncertain trip_id now db).1
unfolding mark_upstream_uncertain
uncertain-Keeps t trip_id now db k =
    let touched = λ (x : UserTrip). x.id == trip_id && is_submitting x.status in
    let moved =
      find-update_same (has_key trip_key t.id) touched (uncertain_row now) db.trips (λ x. refl)
      ∙ ap (Option.map (λ x. if touched x then uncertain_row now x else x)) k.is_there in
    elim (Bool-cases (touched k.now_is)) [
      | inl hit ↦ record {
        now_is = uncertain_row now k.now_is;
        same_id = k.same_id;
        is_there = rw hit at moved;
        evolved = Evolves-trans k.evolved (
            Evolves-fields k.now_is (uncertain_row now k.now_is) refl refl refl refl refl refl refl
              refl refl);
      }
      | inr missed ↦ record {
        now_is = k.now_is;
        same_id = k.same_id;
        is_there = rw missed at moved;
        evolved = k.evolved;
      }
    ]

reserve_body-Keeps :
    (t : UserTrip) (py : Python) (c : ReserveCall) (db : Db) {r : Reservation} {db' : Db}
    → Keeps t db
    → reserve_body py c db ≡ ok (r, db')
    → Keeps t db'
reserve_body-Keeps t py c db k e = elim (reserve_body-trips py c db e) [
  | inl same ↦ Keeps-trips db _ same k
  | inr (row, absent, same) ↦
      let apart =
        absent-found (has_key trip_key row.id) (has_key trip_key t.id) db.trips absent k.is_there in
      Keeps-trips (record db { trips = row ∷ db.trips }) _ same
        (record {
          now_is = k.now_is;
          same_id = k.same_id;
          is_there = ground (arith, apart, k.same_id, k.is_there);
          evolved = k.evolved;
        })
]

-- The trip is followed through a database with a ledger.
record IsTracked (t : UserTrip) (db : Db) : Type 0 where
  ledger : Ledger db
  keeps : Keeps t db

run_call-Keeps :
    (py : Python) (t : UserTrip) (c : Call) (db : Db) → IsTracked t db → Keeps t (run_call py c db)
unfolding run_call
run_call-Keeps py t (Call.reserve c) db h =
    unfold reserve_trip in
    transaction-keeps (Keeps t) (reserve_body py c) db
      (λ r db' e. reserve_body-Keeps t py c db h.keeps e) h.keeps
run_call-Keeps py t (Call.settle c) db h =
    unfold settle_trip in
    elim (Option-cases (read_terminal py c.terminal_status)) [
      | inl bad ↦ rw (bad, run_call, settle_trip) h.keeps
      | inr (s, reads) ↦
          rw (reads, run_call, settle_trip)
            (transaction-keeps (Keeps t) (settle_body c s) db
              (λ r db' e. settle_body-Keeps t c s db h.ledger h.keeps e) h.keeps)
    ]
run_call-Keeps py t (Call.progress trip_id raw owner now) db h =
    unfold update_active_status in
    elim (Option-cases (read_active py raw)) [
      | inl bad ↦ rw (bad, run_call, update_active_status) h.keeps
      | inr (s, reads) ↦
          rw (reads, run_call, update_active_status)
            (transaction-keeps (Keeps t) (progress_body trip_id s owner now) db
              (λ r db' e. progress_body-Keeps t trip_id s owner now db h.ledger h.keeps e) h.keeps)
    ]
run_call-Keeps py t (Call.accept trip_id job s now) db h =
    unfold save_upstream_acceptance in
    transaction-keeps (Keeps t) (accept_body trip_id job (accepted_status py s) now) db
      (λ r db' e. accept_body-Keeps t trip_id job (accepted_status py s) now db h.ledger h.keeps e)
      h.keeps
run_call-Keeps py t (Call.uncertain trip_id now) db h = uncertain-Keeps t trip_id now db h.keeps
run_call-Keeps py t (Call.telemetry trip_id d now) db h =
    unfold record_trip_telemetry in
    elim (Bool-cases (is_empty (safe_telemetry d))) [
      | inl empty ↦ rw (empty, run_call, record_trip_telemetry) h.keeps
      | inr some_kept ↦
          rw (some_kept, run_call, record_trip_telemetry)
            (transaction-keeps (Keeps t) (telemetry_body trip_id (safe_telemetry d) now) db
              (λ r db' e.
                telemetry_body-Keeps t trip_id (safe_telemetry d) now db h.ledger h.keeps e)
              h.keeps)
    ]

-- From a database with a ledger that holds the trip `t`, after any sequence of calls of the quota
-- service, returned or raised, a trip with its id is there, of the same owner and request, bound to
-- the same job if `t` was bound to one, and with the same status, result and error code if `t` had
-- ended.
pub run_calls-Keeps :
    (py : Python) (cs : List Call) (db : Db) (t : UserTrip)
    → Ledger db
    → find (has_key trip_key t.id) db.trips ≡ some t
    → Keeps t (run_calls py cs db)
run_calls-Keeps py cs db t h found =
    let start : IsTracked t db = record {
      ledger = h;
      keeps = record { now_is = t; same_id = refl; is_there = found; evolved = Evolves-refl t };
    } in
    (run_calls_induction py (IsTracked t)
      (λ c d k. record {
        ledger = run_call-Ledger py c d k.ledger;
        keeps = run_call-Keeps py t c d k;
      })
      cs db start).keeps
