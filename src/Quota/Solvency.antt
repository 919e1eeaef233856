-- ===== src/Quota/Solvency.antt =====
-- No sequence of calls of quota/service.py oversells: the other calls leave the quota as it is.
use travel_web_api.Db.Monad.{Db, ok, pure, ◌>>◌, >>=-eq-ok, transaction-keeps}
use travel_web_api.Db.Statuses.{TripStatus, is_terminal}
use travel_web_api.Db.Tables.{put_trip}
use travel_web_api.Db.Trips.{UserTrip}
use travel_web_api.Db.Users.{Uuid, Time}
use travel_web_api.Json.{JsonObject, merge}
use travel_web_api.Prelude.{
  leb, Bool-cases, Option-cases, find, String, ◌≡◌, refl, sym, ap, subst, inl, inr, not, ◌&&◌,
  Option, List, arith,
}
use travel_web_api.Python.{Python}
use travel_web_api.Quota.Accept.{
  accepted_status, accept_row, associate_job, accept_active, other_job, accept_body,
  save_upstream_acceptance, mark_upstream_uncertain, safe_telemetry, telemetry_body, is_empty,
  record_trip_telemetry,
}
use travel_web_api.Quota.Ledger.{trip_key, Ledger}
use travel_web_api.Quota.Limits.{
  IsWithin, Solvent, SameQuota, Solvent-SameQuota, reserve_body-Solvent, settle_body-Solvent,
  put_trip-SameQuota,
}
use travel_web_api.Quota.Reserve.{reserve_body, reserve_trip}
use travel_web_api.Quota.Sequences.{Call, run_call, run_calls, run_call-Ledger, run_calls_induction}
use travel_web_api.Quota.Settle.{
  SettleCall, is_trip_of, settle_body, read_terminal, settle_trip, rank, read_active, progress_row,
  progress_body, update_active_status,
}
use travel_web_api.Quota.Snapshot.{quota_snapshot}
use travel_web_api.Rows.{has_key}

pub SameQuota-refl : (db db' : Db) → db' ≡ db → SameQuota db db'
SameQuota-refl db db' e = record {
  same_grants = ap (λ (d : Db). d.grants) e;
  same_adjustments = ap (λ (d : Db). d.adjustments) e;
  same_entries = ap (λ (d : Db). d.entries) e;
}

pub progress_body-SameQuota :
    (trip_id : Uuid) (s : TripStatus) (owner : Option Uuid) (now : Time) (db : Db) {r : UserTrip}
    {db' : Db}
    → progress_body trip_id s owner now db ≡ ok (r, db')
    → SameQuota db db'
unfolding progress_body
progress_body-SameQuota trip_id s owner now db {r} {db'} e =
    elim (Option-cases (find (is_trip_of trip_id owner) db.trips)) [
      | inl missing ↦ absurd (ground arith)
      | inr (t, is_found) ↦
          elim (Bool-cases (not (is_terminal t.status) && leb (rank t.status) (rank s))) [
            | inl forward ↦
                let row = progress_row s now t in
                let written : (put_trip row >> pure row) db ≡ ok (r, db') = ground arith in
                let (_, db1, e1, k1) = >>=-eq-ok (put_trip row) _ db written in
                let same_db : db' ≡ db1 = cc k1 in
                subst (SameQuota db) (sym same_db) (put_trip-SameQuota row db e1)
            | inr stale ↦ SameQuota-refl db db' (ground arith)
          ]
    ]

pub accept_body-SameQuota :
    (trip_id : Uuid) (job : String) (s : TripStatus) (now : Time) (db : Db) {r : UserTrip}
    {db' : Db}
    → accept_body trip_id job s now db ≡ ok (r, db')
    → SameQuota db db'
unfolding accept_body accept_active
accept_body-SameQuota trip_id job s now db {r} {db'} e =
    elim (Option-cases (find (has_key trip_key trip_id) db.trips)) [
      | inl missing ↦ absurd (ground arith)
      | inr (t, is_found) ↦ elim (Bool-cases (other_job t job)) [
        | inl other ↦ absurd (ground arith)
        | inr mine ↦ elim (Bool-cases (is_terminal t.status)) [
          | inl over ↦ SameQuota-refl db db' (ground arith)
          | inr live ↦
              let row = accept_row job s now t in
              let written : accept_active job s now t db ≡ ok (r, db') = ground arith in
              let (_, db1, e1, k1) = >>=-eq-ok (put_trip row) _ db written in
              let kept = put_trip-SameQuota row db e1 in
              let same_db : db' ≡ associate_job job row now db1 = cc k1 in
              subst (SameQuota db) (sym same_db) (record {
                same_grants = kept.same_grants;
                same_adjustments = kept.same_adjustments;
                same_entries = kept.same_entries;
              })
        ]
      ]
    ]

pub telemetry_body-SameQuota :
    (trip_id : Uuid) (safe : JsonObject) (now : Time) (db : Db) {u : Unit {0}} {db' : Db}
    → telemetry_body trip_id safe now db ≡ ok (u, db')
    → SameQuota db db'
unfolding telemetry_body
telemetry_body-SameQuota trip_id safe now db {u} {db'} e =
    elim (Option-cases (find (has_key trip_key trip_id) db.trips)) [
      | inl missing ↦ absurd (ground arith)
      | inr (t, is_found) ↦
          let row = record t { telemetry_json = merge t.telemetry_json safe; updated_at = now } in
          let written : put_trip row db ≡ ok (u, db') = ground arith in
          put_trip-SameQuota row db written
    ]

-- The ledger invariant, with every user within the limit.
pub record IsSound (db : Db) : Type 0 where
  pub ledger : Ledger db
  pub solvent : Solvent db

settle_trip-Solvent :
    (py : Python) (c : SettleCall) (db : Db) → IsSound db → Solvent (settle_trip py c db).1
unfolding settle_trip
settle_trip-Solvent py c db h = elim (Option-cases (read_terminal py c.terminal_status)) [
  | inl bad ↦ rw (bad, settle_trip) h.solvent
  | inr (s, reads) ↦
      rw (reads, settle_trip)
        (transaction-keeps Solvent (settle_body c s) db
          (λ r db' e. settle_body-Solvent c s db h.ledger h.solvent e) h.solvent)
]

update_active_status-Solvent :
    (py : Python) (trip_id : Uuid) (raw : String) (owner : Option Uuid) (now : Time) (db : Db)
    → Solvent db
    → Solvent (update_active_status py trip_id raw owner now db).1
unfolding update_active_status
update_active_status-Solvent py trip_id raw owner now db h =
    elim (Option-cases (read_active py raw)) [
      | inl bad ↦ rw (bad, update_active_status) h
      | inr (s, reads) ↦
          rw (reads, update_active_status)
            (transaction-keeps Solvent (progress_body trip_id s owner now) db
              (λ r db' e. Solvent-SameQuota (progress_body-SameQuota trip_id s owner now db e) h) h)
    ]

record_trip_telemetry-Solvent :
    (trip_id : Uuid) (d : JsonObject) (now : Time) (db : Db)
    → Solvent db
    → Solvent (record_trip_telemetry trip_id d now db).1
unfolding record_trip_telemetry
record_trip_telemetry-Solvent trip_id d now db h = elim (Bool-cases (is_empty (safe_telemetry d))) [
  | inl empty ↦ rw empty h
  | inr some_kept ↦ rw some_kept (
      transaction-keeps Solvent (telemetry_body trip_id (safe_telemetry d) now) db
        (λ r db' e.
          Solvent-SameQuota (telemetry_body-SameQuota trip_id (safe_telemetry d) now db e) h)
        h)
]

run_call-Solvent : (py : Python) (c : Call) (db : Db) → IsSound db → Solvent (run_call py c db)
unfolding run_call
run_call-Solvent py (Call.reserve c) db h =
    unfold reserve_trip in
    transaction-keeps Solvent (reserve_body py c) db
      (λ r db' e. reserve_body-Solvent py c db h.solvent e) h.solvent
run_call-Solvent py (Call.settle c) db h = settle_trip-Solvent py c db h
run_call-Solvent py (Call.progress trip_id s owner now) db h =
    update_active_status-Solvent py trip_id s owner now db h.solvent
run_call-Solvent py (Call.accept trip_id job s now) db h =
    unfold save_upstream_acceptance in
    transaction-keeps Solvent (accept_body trip_id job (accepted_status py s) now) db
      (λ r db' e.
        Solvent-SameQuota (accept_body-SameQuota trip_id job (accepted_status py s) now db e)
          h.solvent)
      h.solvent
run_call-Solvent py (Call.uncertain trip_id now) db h =
    unfold mark_upstream_uncertain in
    Solvent-SameQuota (record { same_grants = refl; same_adjustments = refl; same_entries = refl })
      h.solvent
run_call-Solvent py (Call.telemetry trip_id d now) db h =
    record_trip_telemetry-Solvent trip_id d now db h.solvent

pub run_call-IsSound : (py : Python) (c : Call) (db : Db) → IsSound db → IsSound (run_call py c db)
run_call-IsSound py c db h = record {
  ledger = run_call-Ledger py c db h.ledger;
  solvent = run_call-Solvent py c db h;
}

-- From a sound database, after any sequence of calls of the quota service, returned or raised, no
-- user has more units reserved and consumed together than the grants and adjustments allow.
pub run_calls-IsWithin :
    (py : Python) (cs : List Call) (db : Db) (user : Uuid)
    → IsSound db
    → IsWithin (quota_snapshot user (run_calls py cs db))
run_calls-IsWithin py cs db user h =
    (run_calls_induction py IsSound (run_call-IsSound py) cs db h).solvent.within user
