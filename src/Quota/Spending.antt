-- ===== src/Quota/Spending.antt =====
-- Which calls of quota/service.py leave the limits and the consumed units of all users alone: all
-- but a settlement as SUCCESS.
use travel_web_api.Db.Grants.{TripQuotaEntry}
use travel_web_api.Db.Monad.{Db, ok, >>=-eq-ok, transaction-keeps}
use travel_web_api.Db.Statuses.{TripStatus, reserved, consumed, is_success, is_terminal}
use travel_web_api.Db.Tables.{put_trip}
use travel_web_api.Db.Trips.{UserTrip}
use travel_web_api.Db.Users.{Uuid, Time}
use travel_web_api.Json.{JsonObject}
use travel_web_api.Prelude.{
  string_eq, nat_eq, ◌==◌, Bool-cases, Option-cases, find, update_where, String, ◌≡◌, refl, sym, ap,
  ◌∙◌, subst, inl, inr, false, Option, some, List, [], ◌∷◌, arith,
}
use travel_web_api.Python.{Python}
use travel_web_api.Quota.Accept.{
  accepted_status, accept_body, save_upstream_acceptance, mark_upstream_uncertain, safe_telemetry,
  telemetry_body, is_empty, record_trip_telemetry,
}
use travel_web_api.Quota.Limits.{
  SameQuota, quota_snapshot-SameQuota, quota_snapshot-new_entry, put_trip-SameQuota,
}
use travel_web_api.Quota.Reserve.{
  Reservation, ReserveCall, new_trip, new_entry, insert_reservation, is_request_of, reserve_new,
  reserve_again, reserve_body, reserve_trip,
}
use travel_web_api.Quota.ReserveLedger.{insert_rows-eq-ok, insert_reservation-eq-ok}
use travel_web_api.Quota.Settle.{
  SettleCall, is_trip_of, is_held_by, settle_entry, settle_entries, settle_row, settle_active,
  settle_body, read_terminal, settle_trip, read_active, progress_body, update_active_status,
}
use travel_web_api.Quota.Snapshot.{QuotaSnapshot, units_in, quota_snapshot}
use travel_web_api.Quota.Solvency.{
  SameQuota-refl, progress_body-SameQuota, accept_body-SameQuota, telemetry_body-SameQuota,
}

-- No user's limit and no user's consumed units have changed.
pub record Spares (before after : Db) : Type 0 where
  pub limits :
      (user : Uuid) → (quota_snapshot user after).limit ≡ (quota_snapshot user before).limit
  pub consumption :
      (user : Uuid)
      → (quota_snapshot user after).consumed_units ≡ (quota_snapshot user before).consumed_units

pub Spares-refl : (db : Db) → Spares db db
Spares-refl db = record { limits = λ user. refl; consumption = λ user. refl }

pub Spares-trans : {a b c : Db} → Spares a b → Spares b c → Spares a c
Spares-trans h k = record {
  limits = λ user. k.limits user ∙ h.limits user;
  consumption = λ user. k.consumption user ∙ h.consumption user;
}

pub Spares-SameQuota : {db db' : Db} → SameQuota db db' → Spares db db'
Spares-SameQuota same = record {
  limits = λ user. ap (λ (q : QuotaSnapshot). q.limit) (quota_snapshot-SameQuota user same);
  consumption =
      λ user. ap (λ (q : QuotaSnapshot). q.consumed_units) (quota_snapshot-SameQuota user same);
}

new_entry-Spares :
    (c : ReserveCall) (db : Db) (ts : List UserTrip)
    → Spares db (record db { trips = ts; entries = new_entry c ∷ db.entries })
new_entry-Spares c db ts = record {
  limits = λ user. ap (λ (q : QuotaSnapshot). q.limit) (quota_snapshot-new_entry c user db ts);
  consumption =
      λ user. ap (λ (q : QuotaSnapshot). q.consumed_units) (quota_snapshot-new_entry c user db ts);
}

reserve_body-Spares :
    (py : Python) (c : ReserveCall) (db : Db) {r : Reservation} {db' : Db}
    → reserve_body py c db ≡ ok (r, db')
    → Spares db db'
unfolding reserve_body reserve_new reserve_again
reserve_body-Spares py c db {r} {db'} e =
    elim (Option-cases (find (is_request_of c.user_id c.client_request_id) db.trips)) [
      | inl new ↦
          let before = quota_snapshot c.user_id db in
          let made : insert_reservation py c before db ≡ ok (r, db') = ground arith in
          let (city, n, t, rows, _) = insert_reservation-eq-ok py c before db made in
          let (_, _, _, same) = insert_rows-eq-ok c (new_trip c city n) db rows in
          subst (Spares db) (sym same) (new_entry-Spares c db _)
      | inr (t, again) ↦
          let same : db' ≡ db = ground arith in subst (Spares db) (sym same) (Spares-refl db)
    ]

pub reserve_trip-Spares :
    (py : Python) (c : ReserveCall) (db : Db) → Spares db (reserve_trip py c db).1
unfolding reserve_trip
reserve_trip-Spares py c db =
    transaction-keeps (Spares db) (reserve_body py c) db (λ r db' e. reserve_body-Spares py c db e)
      (Spares-refl db)

-- A held entry that is released was not consumed, and is not.
released-consumed :
    (s : TripStatus) (now : Time) (t : UserTrip) (user : Uuid) (es : List TripQuotaEntry)
    → is_success s ≡ false
    → units_in user consumed (update_where (is_held_by t) (settle_entry s now) es)
      ≡ units_in user consumed es
released-consumed s now t user [] h = refl
released-consumed s now t user (e ∷ es) h =
    let rest = released-consumed s now t user es h in
    elim (Bool-cases (is_held_by t e)) [
      | inl held ↦
          let reserved_still : e.status ≡ reserved = ground (arith, held) in
          rw (held, reserved_still, h, rest) refl
      | inr other ↦ rw (other, rest) refl
    ]

settle_active-Spares :
    (c : SettleCall) (s : TripStatus) (t : UserTrip) (db : Db) {r : UserTrip} {db' : Db}
    → is_success s ≡ false
    → settle_active c s t db ≡ ok (r, db')
    → Spares db db'
unfolding settle_active settle_entries quota_snapshot
settle_active-Spares c s t db {r} {db'} h e =
    let (_, db1, e1, k1) = >>=-eq-ok (settle_entries s c.now t) _ db e in
    let (_, db2, e2, k2) = >>=-eq-ok (put_trip (settle_row c s t)) _ db1 k1 in
    let freed : db1
        ≡ record db { entries = update_where (is_held_by t) (settle_entry s c.now) db.entries } =
      ground (arith, e1) in
    let same : db' ≡ db2 = cc k2 in
    let released : Spares db
        (record db { entries = update_where (is_held_by t) (settle_entry s c.now) db.entries }) =
      record {
        limits = λ user. refl;
        consumption = λ user. released-consumed s c.now t user db.entries h;
      } in
    subst (Spares db) (sym same) (
      Spares-trans (subst (Spares db) (sym freed) released)
        (Spares-SameQuota (put_trip-SameQuota (settle_row c s t) db1 e2)))

settle_body-Spares :
    (c : SettleCall) (s : TripStatus) (db : Db) {r : UserTrip} {db' : Db}
    → is_success s ≡ false
    → settle_body c s db ≡ ok (r, db')
    → Spares db db'
unfolding settle_body
settle_body-Spares c s db {r} {db'} h e =
    elim (Option-cases (find (is_trip_of c.trip_id c.owner_id) db.trips)) [
      | inl missing ↦ absurd (ground arith)
      | inr (t, is_found) ↦ elim (Bool-cases (is_terminal t.status)) [
        | inl over ↦
            let same : db' ≡ db = ground arith in subst (Spares db) (sym same) (Spares-refl db)
        | inr live ↦ settle_active-Spares c s t db {r = r} {db' = db'} h (ground arith)
      ]
    ]

read_terminal-unsuccessful :
    (py : Python) (raw : String) (s : TripStatus)
    → (py.upper raw == "SUCCESS") ≡ false
    → read_terminal py raw ≡ some s
    → is_success s ≡ false
unfolding read_terminal
read_terminal-unsuccessful py raw s h reads = ground arith

-- A settlement with a text that does not read as SUCCESS.
pub settle_trip-Spares :
    (py : Python) (c : SettleCall) (db : Db)
    → (py.upper c.terminal_status == "SUCCESS") ≡ false
    → Spares db (settle_trip py c db).1
unfolding settle_trip
settle_trip-Spares py c db h = elim (Option-cases (read_terminal py c.terminal_status)) [
  | inl bad ↦ rw (bad, settle_trip) (Spares-refl db)
  | inr (s, reads) ↦
      let other = read_terminal-unsuccessful py c.terminal_status s h reads in
      rw (reads, settle_trip)
        (transaction-keeps (Spares db) (settle_body c s) db
          (λ r db' e. settle_body-Spares c s db other e) (Spares-refl db))
]

pub update_active_status-SameQuota :
    (py : Python) (trip_id : Uuid) (raw : String) (owner : Option Uuid) (now : Time) (db : Db)
    → SameQuota db (update_active_status py trip_id raw owner now db).1
unfolding update_active_status
update_active_status-SameQuota py trip_id raw owner now db =
    elim (Option-cases (read_active py raw)) [
      | inl bad ↦ rw (bad, update_active_status) (SameQuota-refl db db refl)
      | inr (s, reads) ↦
          rw (reads, update_active_status)
            (transaction-keeps (SameQuota db) (progress_body trip_id s owner now) db
              (λ r db' e. progress_body-SameQuota trip_id s owner now db e)
              (SameQuota-refl db db refl))
    ]

pub record_trip_telemetry-SameQuota :
    (trip_id : Uuid) (d : JsonObject) (now : Time) (db : Db)
    → SameQuota db (record_trip_telemetry trip_id d now db).1
unfolding record_trip_telemetry
record_trip_telemetry-SameQuota trip_id d now db = elim (Bool-cases (is_empty (safe_telemetry d))) [
  | inl empty ↦ rw empty (SameQuota-refl db db refl)
  | inr some_kept ↦ rw some_kept (
      transaction-keeps (SameQuota db) (telemetry_body trip_id (safe_telemetry d) now) db
        (λ r db' e. telemetry_body-SameQuota trip_id (safe_telemetry d) now db e)
        (SameQuota-refl db db refl))
]

pub save_upstream_acceptance-SameQuota :
    (py : Python) (trip_id : Uuid) (job raw : String) (now : Time) (db : Db)
    → SameQuota db (save_upstream_acceptance py trip_id job raw now db).1
unfolding save_upstream_acceptance
save_upstream_acceptance-SameQuota py trip_id job raw now db =
    transaction-keeps (SameQuota db) (accept_body trip_id job (accepted_status py raw) now) db
      (λ r db' e. accept_body-SameQuota trip_id job (accepted_status py raw) now db e)
      (SameQuota-refl db db refl)

pub mark_upstream_uncertain-SameQuota :
    (trip_id : Uuid) (now : Time) (db : Db)
    → SameQuota db (mark_upstream_uncertain trip_id now db).1
unfolding mark_upstream_uncertain
mark_upstream_uncertain-SameQuota trip_id now db = record {
  same_grants = refl;
  same_adjustments = refl;
  same_entries = refl;
}
