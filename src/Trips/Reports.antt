-- ===== src/Trips/Reports.antt =====
-- What a report of the planner on a trip does to the quota of the trip's owner.
use travel_web_api.Db.Monad.{Db, ok, transaction-keeps}
use travel_web_api.Db.Statuses.{is_terminal}
use travel_web_api.Db.Tables.{put_trip, put_trip-eq-ok}
use travel_web_api.Db.Trips.{UserTrip}
use travel_web_api.Db.Users.{Uuid, Time}
use travel_web_api.Json.{JsonObject, merge}
use travel_web_api.Prelude.{
  string_eq, nat_eq, ◌==◌, ◌=?◌, Bool-cases, Option-cases, find, ◌≡◌, refl, ap, ◌∙◌, inl, inr, Bool,
  true, false, not, ◌||◌, Option, none, some,
}
use travel_web_api.Python.{Python}
use travel_web_api.Quota.Accept.{safe_telemetry, telemetry_body, is_empty, record_trip_telemetry}
use travel_web_api.Quota.Ledger.{trip_key, Ledger}
use travel_web_api.Quota.Limits.{SameQuota}
use travel_web_api.Quota.Sequences.{Call, run_call, run_call-Ledger}
use travel_web_api.Quota.Settle.{is_trip_of, update_active_status}
use travel_web_api.Quota.Spending.{update_active_status-SameQuota, record_trip_telemetry-SameQuota}
use travel_web_api.Rows.{same_text, find_holds, find_key, find-set_row_same}
use travel_web_api.Trips.Charging.{
  IsCharged, IsCharged-SameQuota, settle_trip-IsCharged, continue_with-IsCharged,
}
use travel_web_api.Trips.Service.{
  HermesJobStatus, job_telemetry, ended_call, success_call, apply_ended, apply_reported,
  apply_job_status,
}

-- The trip after its telemetry was recorded: the same owner and status, still found.
record IsRecorded (t : UserTrip) (owner : Option Uuid) (db1 : Db) : Type 0 where
  row : UserTrip
  is_found : find (is_trip_of t.id owner) db1.trips ≡ some row
  same_id : row.id ≡ t.id
  same_user : row.user_id ≡ t.user_id
  same_status : row.status ≡ t.status

is_trip_of-telemetry :
    (id : Uuid) (owner : Option Uuid) (d : JsonObject) (now : Time) (t : UserTrip)
    → is_trip_of id owner (record t { telemetry_json = d; updated_at = now })
      ≡ is_trip_of id owner t
is_trip_of-telemetry id none d now t = refl
is_trip_of-telemetry id (some own) d now t = refl

telemetry_body-IsRecorded :
    (t : UserTrip) (owner : Option Uuid) (safe : JsonObject) (now : Time) (db : Db) {u : Unit {0}}
    {db1 : Db}
    → Ledger db
    → find (is_trip_of t.id owner) db.trips ≡ some t
    → telemetry_body t.id safe now db ≡ ok (u, db1)
    → IsRecorded t owner db1
unfolding telemetry_body
telemetry_body-IsRecorded t owner safe now db {u} {db1} h is_found e =
    let found = find_key trip_key (is_trip_of t.id owner) db.trips h.trip_ids is_found in
    let row = record t { telemetry_json = merge t.telemetry_json safe; updated_at = now } in
    let written : put_trip row db ≡ ok (u, db1) = rw (telemetry_body, found) at e in
    let (_, same) = put_trip-eq-ok row db written in
    let picks =
      is_trip_of-telemetry t.id owner (merge t.telemetry_json safe) now t
      ∙ find_holds (is_trip_of t.id owner) db.trips is_found in
    record {
      row = row;
      is_found =
          ap (λ (d : Db). find (is_trip_of t.id owner) d.trips) same
          ∙ find-set_row_same trip_key (is_trip_of t.id owner) row db.trips h.trip_ids is_found
              picks;
      same_id = refl;
      same_user = refl;
      same_status = refl;
    }

record_trip_telemetry-IsRecorded :
    (t : UserTrip) (owner : Option Uuid) (d : JsonObject) (now : Time) (db : Db)
    → Ledger db
    → find (is_trip_of t.id owner) db.trips ≡ some t
    → IsRecorded t owner (record_trip_telemetry t.id d now db).1
unfolding record_trip_telemetry
record_trip_telemetry-IsRecorded t owner d now db h is_found =
    let kept : IsRecorded t owner db = record {
      row = t;
      is_found = is_found;
      same_id = refl;
      same_user = refl;
      same_status = refl;
    } in
    elim (Bool-cases (is_empty (safe_telemetry d))) [
      | inl empty ↦ rw empty kept
      | inr some_kept ↦ rw some_kept (
          transaction-keeps (IsRecorded t owner) (telemetry_body t.id (safe_telemetry d) now) db
            (λ u db1 e. telemetry_body-IsRecorded t owner (safe_telemetry d) now db h is_found e)
            kept)
    ]

-- The three statuses of a job that goes on.
abbrev pub is_ongoing : HermesJobStatus → Bool
is_ongoing j = j.status == "SUBMITTING" || j.status == "PENDING" || j.status == "RUNNING"

ongoing_unsuccessful : (j : HermesJobStatus) → is_ongoing j ≡ true → (j.status == "SUCCESS") ≡ false
ongoing_unsuccessful j h = elim (Bool-cases (j.status == "SUCCESS")) [
  | inl succeeded ↦
      let named : j.status ≡ "SUCCESS" = same_text succeeded in absurd (cc (rw named at h))
  | inr other ↦ other
]

apply_ended-IsCharged :
    (py : Python) (t row : UserTrip) (j : HermesJobStatus) (owner : Option Uuid) (now : Time)
    (user : Uuid) (db : Db)
    → Ledger db
    → find (is_trip_of t.id owner) db.trips ≡ some row
    → is_terminal row.status ≡ false
    → row.user_id ≡ some user
    → py.upper j.status ≡ j.status
    → IsCharged user true (j.status == "SUCCESS") db (apply_ended py t j owner now db)
unfolding apply_ended
apply_ended-IsCharged py t row j owner now user db h is_found live mine plain =
    elim (Bool-cases (j.status == "SUCCESS")) [
      | inl succeeded ↦
          let named : j.status ≡ "SUCCESS" = same_text succeeded in
          let plain_name : py.upper "SUCCESS" ≡ "SUCCESS" = rw named at plain in
          elim (Option-cases j.result_record_id) [
            | inl missing ↦ rw (apply_ended, succeeded, missing) refl
            | inr (result, given) ↦
                rw (apply_ended, succeeded, given)
                  (settle_trip-IsCharged py (success_call t owner now result) db row user h is_found
                    live mine plain_name)
          ]
      | inr ended ↦
          let settled_call = ended_call t owner now py j in
          let charged =
            settle_trip-IsCharged py settled_call db row user h is_found live mine plain in
          rw (apply_ended, ended) (rw ended at charged)
    ]

-- A report on an owned trip that is not over, its status in upper case as HermesJobStatus makes it:
-- where apply_job_status returns, one unit less of the owner is reserved exactly if the job does not
-- go on, one more is consumed exactly if it is SUCCESS, and the limit stays; where it raises, the
-- quota of the owner stays.
pub apply_job_status-IsCharged :
    (py : Python) (t : UserTrip) (j : HermesJobStatus) (owner : Option Uuid) (now : Time)
    (user : Uuid) (db : Db)
    → Ledger db
    → find (is_trip_of t.id owner) db.trips ≡ some t
    → is_terminal t.status ≡ false
    → t.user_id ≡ some user
    → py.upper j.status ≡ j.status
    → IsCharged user
        (not (is_ongoing j))
        (j.status == "SUCCESS")
        db
        (apply_job_status py t j owner now db)
unfolding apply_job_status apply_reported
apply_job_status-IsCharged py t j owner now user db h is_found live mine plain =
    let db1 = (record_trip_telemetry t.id (job_telemetry j) now db).1 in
    let h1 : Ledger db1 =
      unfold run_call in run_call-Ledger py (Call.telemetry t.id (job_telemetry j) now) db h in
    let same : SameQuota db db1 = record_trip_telemetry-SameQuota t.id (job_telemetry j) now db in
    let recorded = record_trip_telemetry-IsRecorded t owner (job_telemetry j) now db h is_found in
    elim (Bool-cases (t.hermes_job_id =? j.job_id)) [
      | inr other ↦ rw (apply_job_status, other) refl
      | inl own ↦ elim (Bool-cases (is_ongoing j)) [
        | inl ongoing ↦
            let unsuccessful : (j.status == "SUCCESS") ≡ false = ongoing_unsuccessful j ongoing in
            rw (apply_job_status, own, ongoing, unsuccessful)
              (continue_with-IsCharged user false false db
                (record_trip_telemetry t.id (job_telemetry j) now db) _ same
                (λ u.
                  IsCharged-SameQuota user db1 (update_active_status py t.id j.status owner now db1)
                    (update_active_status-SameQuota py t.id j.status owner now db1)))
        | inr over ↦
            rw (apply_job_status, own, over)
              (continue_with-IsCharged user true (j.status == "SUCCESS") db
                (record_trip_telemetry t.id (job_telemetry j) now db) _ same
                (λ u.
                  apply_ended-IsCharged py t recorded.row j owner now user db1 h1 recorded.is_found
                    (rw recorded.same_status live) (recorded.same_user ∙ mine) plain))
      ]
    ]
