-- ===== src/Quota/Sequences.antt =====
-- Any sequence of calls of quota/service.py, of any users and in any order: the row locks make each
-- transaction run after another, so an interleaving of requests is such a sequence.
use travel_web_api.Db.Monad.{Db, ok, >>=-eq-ok, transaction-keeps}
use travel_web_api.Db.Statuses.{
  TripStatus, reserved, consumed, is_submitting, is_active_trip, is_terminal,
}
use travel_web_api.Db.Tables.{put_trip}
use travel_web_api.Db.Trips.{UserTrip}
use travel_web_api.Db.Users.{Uuid, Time}
use travel_web_api.Json.{JsonObject, merge}
use travel_web_api.Prelude.{
  ◌==◌, nat_eq, string_eq, Bool-cases, Option-cases, find, update_where, count_where, String, ◌≡◌,
  refl, sym, ◌∙◌, subst, inl, inr, true, ◌&&◌, Option, List, [], ◌∷◌, arith,
}
use travel_web_api.Python.{Python}
use travel_web_api.Quota.Accept.{
  accepted_status, accept_row, associate_job, accept_active, other_job, accept_body,
  save_upstream_acceptance, uncertain_row, mark_upstream_uncertain, safe_telemetry, telemetry_body,
  is_empty, record_trip_telemetry,
}
use travel_web_api.Quota.Calls.{
  put_trip-Ledger, reserve_body-Ledger, settle_body-Ledger, progress_body-Ledger,
}
use travel_web_api.Quota.Ledger.{
  trip_key, IsLinked, is_trip_in, trip_weight, Ledger, SameHold, IsLinked-SameHold,
}
use travel_web_api.Quota.Reserve.{
  ReserveCall, is_active_trip_of, is_success_trip_of, reserve_body, reserve_trip,
}
use travel_web_api.Quota.Settle.{
  SettleCall, settle_body, read_terminal, settle_trip, read_active, progress_body,
  update_active_status, read_terminal_ends, read_active_lives,
}
use travel_web_api.Quota.Snapshot.{quota_snapshot}
use travel_web_api.Rows.{
  count-congr, total-update_same, All-update, has_key, find_key, Distinct-update,
}

accept_body-Ledger :
    (trip_id : Uuid) (job : String) (s : TripStatus) (now : Time) (db : Db) {r : UserTrip}
    {db' : Db}
    → is_active_trip s ≡ true
    → Ledger db
    → accept_body trip_id job s now db ≡ ok (r, db')
    → Ledger db'
unfolding accept_body accept_active
accept_body-Ledger trip_id job s now db {r} {db'} live h e =
    elim (Option-cases (find (has_key trip_key trip_id) db.trips)) [
      | inl missing ↦ absurd (ground arith)
      | inr (t, is_found) ↦ elim (Bool-cases (other_job t job)) [
        | inl other ↦ absurd (ground arith)
        | inr mine ↦ elim (Bool-cases (is_terminal t.status)) [
          | inl over ↦ let same : db' ≡ db = ground arith in subst Ledger (sym same) h
          | inr open_still ↦
              let found =
                find_key trip_key (has_key trip_key trip_id) db.trips h.trip_ids is_found in
              let row = accept_row job s now t in
              let same : SameHold t row = record {
                same_id = refl;
                same_user = refl;
                same_entry = refl;
                same_status = ground arith;
              } in
              let written : accept_active job s now t db ≡ ok (r, db') = ground arith in
              let (_, db1, e1, k1) = >>=-eq-ok (put_trip row) _ db written in
              let kept = put_trip-Ledger db row h found same e1 in
              let same_db : db' ≡ associate_job job row now db1 = cc k1 in
              subst Ledger (sym same_db) (record {
                trip_ids = kept.trip_ids;
                entry_ids = kept.entry_ids;
                links = kept.links;
                balance = kept.balance;
              })
        ]
      ]
    ]

telemetry_body-Ledger :
    (trip_id : Uuid) (safe : JsonObject) (now : Time) (db : Db) {u : Unit {0}} {db' : Db}
    → Ledger db
    → telemetry_body trip_id safe now db ≡ ok (u, db')
    → Ledger db'
unfolding telemetry_body
telemetry_body-Ledger trip_id safe now db {u} {db'} h e =
    elim (Option-cases (find (has_key trip_key trip_id) db.trips)) [
      | inl missing ↦ absurd (ground arith)
      | inr (t, is_found) ↦
          let found = find_key trip_key (has_key trip_key trip_id) db.trips h.trip_ids is_found in
          let row = record t { telemetry_json = merge t.telemetry_json safe; updated_at = now } in
          let written : put_trip row db ≡ ok (u, db') = ground arith in
          let same : SameHold t row = record {
            same_id = refl;
            same_user = refl;
            same_entry = refl;
            same_status = refl;
          } in
          put_trip-Ledger db row h found same written
    ]

-- The trips that an uncertain answer of the generation service touches.
abbrev uncertain_trips : Uuid → Time → List UserTrip → List UserTrip
uncertain_trips trip_id now =
    update_where (λ t. t.id == trip_id && is_submitting t.status) (uncertain_row now)

uncertain-Ledger :
    (trip_id : Uuid) (now : Time) (db : Db)
    → Ledger db
    → Ledger (record db { trips = uncertain_trips trip_id now db.trips })
uncertain-Ledger trip_id now db h =
    let touched = λ (t : UserTrip). t.id == trip_id && is_submitting t.status in
    record {
      trip_ids =
          Distinct-update trip_key touched (uncertain_row now) db.trips (λ x p. refl) h.trip_ids;
      entry_ids = h.entry_ids;
      links =
          All-update (IsLinked db.entries) touched (uncertain_row now) db.trips
            (λ x link p.
              IsLinked-SameHold {t = x} {t' = uncertain_row now x}
                (record { same_id = refl; same_user = refl; same_entry = refl; same_status = refl })
                link)
            (λ x link p. link) h.links;
      balance = λ user s.
          h.balance user s
          ∙ sym (
              total-update_same (trip_weight user s) touched (uncertain_row now) db.trips
                (λ x. refl));
    }

-- The calls of the service, with their arguments.
pub data Call : Type 0 where
  reserve : ReserveCall → Call
  settle : SettleCall → Call
  progress : Uuid → String → Option Uuid → Time → Call
  accept : Uuid → String → String → Time → Call
  uncertain : Uuid → Time → Call
  telemetry : Uuid → JsonObject → Time → Call

-- The database after a call, whether it returned or raised.
unfoldable pub run_call : Python → Call → Db → Db
run_call py (reserve c) db = (reserve_trip py c db).1
run_call py (settle c) db = (settle_trip py c db).1
run_call py (progress trip_id s owner now) db = (update_active_status py trip_id s owner now db).1
run_call py (accept trip_id job s now) db = (save_upstream_acceptance py trip_id job s now db).1
run_call py (uncertain trip_id now) db = (mark_upstream_uncertain trip_id now db).1
run_call py (telemetry trip_id d now) db = (record_trip_telemetry trip_id d now db).1

unfoldable pub run_calls : Python → List Call → Db → Db
run_calls py [] db = db
run_calls py (c ∷ cs) db = run_calls py cs (run_call py c db)

pub accepted_status_lives :
    (py : Python) (raw : String) → is_active_trip (accepted_status py raw) ≡ true
unfolding accepted_status
accepted_status_lives py raw = ground arith

reserve_trip-Ledger :
    (py : Python) (c : ReserveCall) (db : Db) → Ledger db → Ledger (reserve_trip py c db).1
unfolding reserve_trip
reserve_trip-Ledger py c db h =
    transaction-keeps Ledger (reserve_body py c) db (λ r db' e. reserve_body-Ledger py c db h e) h

settle_trip-Ledger :
    (py : Python) (c : SettleCall) (db : Db) → Ledger db → Ledger (settle_trip py c db).1
unfolding settle_trip
settle_trip-Ledger py c db h = elim (Option-cases (read_terminal py c.terminal_status)) [
  | inl bad ↦ rw (bad, settle_trip) h
  | inr (s, reads) ↦
      let ended = read_terminal_ends py c.terminal_status s reads in
      rw (reads, settle_trip)
        (transaction-keeps Ledger (settle_body c s) db
          (λ r db' e. settle_body-Ledger c s db ended h e) h)
]

update_active_status-Ledger :
    (py : Python) (trip_id : Uuid) (raw : String) (owner : Option Uuid) (now : Time) (db : Db)
    → Ledger db
    → Ledger (update_active_status py trip_id raw owner now db).1
unfolding update_active_status
update_active_status-Ledger py trip_id raw owner now db h =
    elim (Option-cases (read_active py raw)) [
      | inl bad ↦ rw (bad, update_active_status) h
      | inr (s, reads) ↦
          let lives = read_active_lives py raw s reads in
          rw (reads, update_active_status)
            (transaction-keeps Ledger (progress_body trip_id s owner now) db
              (λ r db' e. progress_body-Ledger trip_id s owner now db lives h e) h)
    ]

record_trip_telemetry-Ledger :
    (trip_id : Uuid) (d : JsonObject) (now : Time) (db : Db)
    → Ledger db
    → Ledger (record_trip_telemetry trip_id d now db).1
unfolding record_trip_telemetry
record_trip_telemetry-Ledger trip_id d now db h = elim (Bool-cases (is_empty (safe_telemetry d))) [
  | inl empty ↦ rw empty h
  | inr some_kept ↦ rw some_kept (
      transaction-keeps Ledger (telemetry_body trip_id (safe_telemetry d) now) db
        (λ r db' e. telemetry_body-Ledger trip_id (safe_telemetry d) now db h e) h)
]

-- Every call keeps the ledger.
pub run_call-Ledger : (py : Python) (c : Call) (db : Db) → Ledger db → Ledger (run_call py c db)
unfolding run_call
run_call-Ledger py (reserve c) db h = reserve_trip-Ledger py c db h
run_call-Ledger py (settle c) db h = settle_trip-Ledger py c db h
run_call-Ledger py (progress trip_id s owner now) db h =
    update_active_status-Ledger py trip_id s owner now db h
run_call-Ledger py (accept trip_id job s now) db h =
    unfold save_upstream_acceptance in
    transaction-keeps Ledger (accept_body trip_id job (accepted_status py s) now) db
      (λ r db' e.
        accept_body-Ledger trip_id job (accepted_status py s) now db (accepted_status_lives py s) h
          e)
      h
run_call-Ledger py (uncertain trip_id now) db h =
    unfold mark_upstream_uncertain in uncertain-Ledger trip_id now db h
run_call-Ledger py (telemetry trip_id d now) db h = record_trip_telemetry-Ledger trip_id d now db h

-- What every call keeps, every sequence of calls keeps.
pub run_calls_induction {κ} :
    (py : Python) (P : Db → Type κ)
    → ((c : Call) (db : Db) → P db → P (run_call py c db))
    → (cs : List Call) (db : Db) → P db
    → P (run_calls py cs db)
unfolding run_calls
run_calls_induction py P step [] db h = h
run_calls_induction py P step (c ∷ cs) db h =
    run_calls_induction py P step cs (run_call py c db) (step c db h)

-- From a database with a ledger, after any sequence of calls of the quota service, returned or
-- raised, each user's reserved units are as many as that user's active trips, and the consumed
-- units as many as the successful ones.
pub run_calls-quota :
    (py : Python) (cs : List Call) (db : Db) (user : Uuid)
    → Ledger db
    → let after = run_calls py cs db in
      ((quota_snapshot user after).reserved_units
        ≡ count_where (is_active_trip_of user) after.trips)
      × ((quota_snapshot user after).consumed_units
          ≡ count_where (is_success_trip_of user) after.trips)
unfolding quota_snapshot
run_calls-quota py cs db user h =
    let after = run_calls_induction py Ledger (run_call-Ledger py) cs db h in
    let trips = (run_calls py cs db).trips in
    (
      after.balance user reserved
          ∙ count-congr (is_trip_in user reserved) (is_active_trip_of user) trips
              (λ t. ground arith),
      after.balance user consumed
          ∙ count-congr (is_trip_in user consumed) (is_success_trip_of user) trips
              (λ t. ground arith),
    )
