-- ===== src/Quota/Limits.antt =====
-- No user holds or has used more units than granted and adjusted.
use travel_web_api.Db.Monad.{Db, ok}
use travel_web_api.Db.Statuses.{TripStatus, reserved, consumed, is_terminal}
use travel_web_api.Db.Tables.{put_trip, put_trip-eq-ok}
use travel_web_api.Db.Trips.{UserTrip}
use travel_web_api.Db.Users.{Uuid}
use travel_web_api.Prelude.{
  ltb, if◌then◌else◌, ◌==◌, nat_eq, string_eq, Bool-cases, Option-cases, find, ◌+◌, ◌≤◌, ◌≡◌, sym,
  ap, subst, inl, inr, false, some, List, ◌∷◌, arith,
}
use travel_web_api.Prelude.Int.{pos, ◌-ℤ◌, ◌≤ℤ◌, -ℤ_parts, int_laws}
use travel_web_api.Python.{Python}
use travel_web_api.Quota.Ledger.{trip_key, entry_key, HasEntry, Ledger}
use travel_web_api.Quota.Reserve.{
  Reservation, ReserveCall, new_trip, new_entry, insert_reservation, is_request_of, reserve_new,
  reserve_again, reserve_body,
}
use travel_web_api.Quota.ReserveLedger.{insert_rows-eq-ok, insert_reservation-eq-ok}
use travel_web_api.Quota.Settle.{SettleCall, is_trip_of, settle_entry, settle_active, settle_body}
use travel_web_api.Quota.SettleLedger.{entry_weight, settled_db, settle_active-eq-ok}
use travel_web_api.Quota.Snapshot.{QuotaSnapshot, remaining, quota_snapshot}
use travel_web_api.Rows.{find_key, total-set_row}

abbrev pub IsWithin : QuotaSnapshot → Type 0
IsWithin q = pos (q.reserved_units + q.consumed_units) ≤ℤ q.limit

-- Every user is within the limit.
pub record Solvent (db : Db) : Type 0 where
  pub within : (user : Uuid) → IsWithin (quota_snapshot user db)

-- The tables that a snapshot reads are the same.
pub record SameQuota (db db' : Db) : Type 0 where
  pub same_grants : db'.grants ≡ db.grants
  pub same_adjustments : db'.adjustments ≡ db.adjustments
  pub same_entries : db'.entries ≡ db.entries

pub quota_snapshot-SameQuota :
    {db db' : Db} (user : Uuid)
    → SameQuota db db'
    → quota_snapshot user db' ≡ quota_snapshot user db
unfolding quota_snapshot
quota_snapshot-SameQuota user same = rw (same.same_grants, same.same_adjustments, same.same_entries)

pub Solvent-SameQuota : {db db' : Db} → SameQuota db db' → Solvent db → Solvent db'
Solvent-SameQuota same h = record {
  within = λ user. subst IsWithin (sym (quota_snapshot-SameQuota user same)) (h.within user);
}

-- The snapshot after a new entry of the user.
pub quota_snapshot-new_entry :
    (c : ReserveCall) (user : Uuid) (db : Db) (ts : List UserTrip)
    → quota_snapshot user (record db { trips = ts; entries = new_entry c ∷ db.entries }) ≡ (
        let before = quota_snapshot user db in
        record before {
          reserved_units =
              if c.user_id == user then before.reserved_units + 1 else before.reserved_units;
        })
unfolding quota_snapshot
quota_snapshot-new_entry c user db ts = ground arith

-- A unit is left exactly while the held and used ones are below the limit.
remaining_pos :
    (q : QuotaSnapshot)
    → ltb (remaining q) 1 ≡ false
    → pos (q.reserved_units + q.consumed_units + 1) ≤ℤ q.limit
remaining_pos q h =
    let left : 1 ≤ remaining q = ground (arith, h) in
    omega (
      int_laws,
      -ℤ_parts q.limit (pos q.reserved_units),
      -ℤ_parts (q.limit -ℤ pos q.reserved_units) (pos q.consumed_units),
    )

insert_reservation-Solvent :
    (py : Python) (c : ReserveCall) (db : Db) {r : Reservation} {db' : Db}
    → Solvent db
    → ltb (remaining (quota_snapshot c.user_id db)) 1 ≡ false
    → insert_reservation py c (quota_snapshot c.user_id db) db ≡ ok (r, db')
    → Solvent db'
insert_reservation-Solvent py c db h left e =
    let (city, n, t, rows, _) = insert_reservation-eq-ok py c (quota_snapshot c.user_id db) db e in
    let (_, _, _, same) = insert_rows-eq-ok c (new_trip c city n) db rows in
    subst Solvent (sym same) (record {
      within = λ user.
          subst IsWithin
            (sym (
              quota_snapshot-new_entry c user db
                (record (new_trip c city n) { quota_entry_id = some c.quota_id } ∷ db.trips)))
            (elim (Bool-cases (c.user_id == user)) [
              | inl own ↦
                  let mine : c.user_id ≡ user = ground (arith, own) in
                  let room =
                    subst
                      (λ u.
                        pos (
                          (quota_snapshot u db).reserved_units
                          + (quota_snapshot u db).consumed_units
                          + 1)
                        ≤ℤ (quota_snapshot u db).limit)
                      mine (remaining_pos (quota_snapshot c.user_id db) left) in
                  rw own (omega (arith, room))
              | inr other ↦ rw other (h.within user)
            ]);
    })

pub reserve_body-Solvent :
    (py : Python) (c : ReserveCall) (db : Db) {r : Reservation} {db' : Db}
    → Solvent db
    → reserve_body py c db ≡ ok (r, db')
    → Solvent db'
unfolding reserve_body reserve_new reserve_again
reserve_body-Solvent py c db {r} {db'} h e =
    elim (Option-cases (find (is_request_of c.user_id c.client_request_id) db.trips)) [
      | inl new ↦ elim (Bool-cases (ltb (remaining (quota_snapshot c.user_id db)) 1)) [
        | inl spent ↦ absurd (ground arith)
        | inr left ↦
            let before = quota_snapshot c.user_id db in
            let made : insert_reservation py c before db ≡ ok (r, db') = ground arith in
            insert_reservation-Solvent py c db h left made
      ]
      | inr (t, again) ↦ let same : db' ≡ db = ground arith in subst Solvent (sym same) h
    ]

-- A settlement frees the reserved unit or makes it a used one.
settled_db-Solvent :
    (c : SettleCall) (s : TripStatus) (t : UserTrip) (own : Uuid) (db : Db)
    (held : HasEntry db.entries t own)
    → Ledger db
    → is_terminal t.status ≡ false
    → Solvent db
    → Solvent (settled_db c s t held.entry db)
unfolding quota_snapshot
settled_db-Solvent c s t own db held h live solvent = record {
  within = λ user.
      let e = held.entry in
      let e' = settle_entry s c.now e in
      let reserved_still : e.status ≡ reserved = ground (arith, held.follows) in
      let weights : entry_weight user reserved e' + entry_weight user consumed e'
          ≤ entry_weight user reserved e + entry_weight user consumed e =
        ground (arith, reserved_still) in
      omega (
        arith,
        solvent.within user,
        weights,
        total-set_row entry_key (entry_weight user reserved) e.id e' db.entries h.entry_ids
            held.found,
        total-set_row entry_key (entry_weight user consumed) e.id e' db.entries h.entry_ids
            held.found,
      );
}

pub settle_body-Solvent :
    (c : SettleCall) (s : TripStatus) (db : Db) {r : UserTrip} {db' : Db}
    → Ledger db
    → Solvent db
    → settle_body c s db ≡ ok (r, db')
    → Solvent db'
unfolding settle_body
settle_body-Solvent c s db {r} {db'} h solvent e =
    elim (Option-cases (find (is_trip_of c.trip_id c.owner_id) db.trips)) [
      | inl missing ↦ absurd (ground arith)
      | inr (t, is_found) ↦ elim (Bool-cases (is_terminal t.status)) [
        | inl over ↦ let same : db' ≡ db = ground arith in subst Solvent (sym same) solvent
        | inr live ↦
            let found =
              find_key trip_key (is_trip_of c.trip_id c.owner_id) db.trips h.trip_ids is_found in
            let done : settle_active c s t db ≡ ok (r, db') = ground arith in
            let (own, held, mine, _, same) =
              settle_active-eq-ok c s t db {r = r} {db' = db'} h found live done in
            subst Solvent (sym same) (settled_db-Solvent c s t own db held h live solvent)
      ]
    ]

pub put_trip-SameQuota :
    (t : UserTrip) (db : Db) {u : Unit {0}} {db' : Db}
    → put_trip t db ≡ ok (u, db')
    → SameQuota db db'
put_trip-SameQuota t db e =
    let same = (put_trip-eq-ok t db e).1 in
    record {
      same_grants = ap (λ (d : Db). d.grants) same;
      same_adjustments = ap (λ (d : Db). d.adjustments) same;
      same_entries = ap (λ (d : Db). d.entries) same;
    }
