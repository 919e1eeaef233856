-- ===== src/Quota/Calls.antt =====
-- Every call of quota/service.py keeps the ledger invariant, whether it returns or raises; so any
-- sequence of calls does, of any users and in any order.
use travel_web_api.Db.Monad.{Db, ok, pure, ◌>>◌, >>=-eq-ok}
use travel_web_api.Db.Statuses.{TripStatus, is_active_trip, is_terminal}
use travel_web_api.Db.Tables.{put_trip, put_trip-eq-ok}
use travel_web_api.Db.Trips.{UserTrip}
use travel_web_api.Db.Users.{Uuid, Time}
use travel_web_api.Prelude.{
  leb, Bool-cases, Option-cases, find, ◌≡◌, refl, sym, subst, inl, inr, true, not, ◌&&◌, Option,
  some, arith,
}
use travel_web_api.Python.{Python}
use travel_web_api.Quota.Ledger.{trip_key, Ledger, SameHold, set_row-Ledger}
use travel_web_api.Quota.Reserve.{
  Reservation, ReserveCall, insert_reservation, is_request_of, reserve_new, reserve_again,
  reserve_body,
}
use travel_web_api.Quota.ReserveLedger.{insert_rows-Ledger, insert_reservation-eq-ok}
use travel_web_api.Quota.Settle.{
  SettleCall, is_trip_of, settle_body, rank, progress_row, progress_body,
}
use travel_web_api.Quota.SettleLedger.{settled_db-Ledger, settle_active-eq-ok}
use travel_web_api.Quota.Snapshot.{QuotaSnapshot, quota_snapshot}
use travel_web_api.Rows.{has_key, find_key}

pub put_trip-Ledger :
    (db : Db) {t : UserTrip} (t' : UserTrip) {u : Unit {0}} {db' : Db}
    → Ledger db
    → find (has_key trip_key t'.id) db.trips ≡ some t
    → SameHold t t'
    → put_trip t' db ≡ ok (u, db')
    → Ledger db'
put_trip-Ledger db t' h found same e =
    subst Ledger (sym (put_trip-eq-ok t' db e).1) (set_row-Ledger db t' h found same)

reserve_again-Ledger :
    (c : ReserveCall) (t : UserTrip) (db : Db) {r : Reservation} {db' : Db}
    → Ledger db
    → reserve_again c t db ≡ ok (r, db')
    → Ledger db'
unfolding reserve_again
reserve_again-Ledger c t db {db' = db'} h e =
    let same : db' ≡ db = ground arith in subst Ledger (sym same) h

insert_reservation-Ledger :
    (py : Python) (c : ReserveCall) (before : QuotaSnapshot) (db : Db) {r : Reservation} {db' : Db}
    → Ledger db
    → insert_reservation py c before db ≡ ok (r, db')
    → Ledger db'
insert_reservation-Ledger py c before db h e =
    let (city, n, t, rows, _) = insert_reservation-eq-ok py c before db e in
    insert_rows-Ledger c city n db h rows

reserve_new-Ledger :
    (py : Python) (c : ReserveCall) (db : Db) {r : Reservation} {db' : Db}
    → Ledger db
    → reserve_new py c db ≡ ok (r, db')
    → Ledger db'
unfolding reserve_new
reserve_new-Ledger py c db {r} {db'} h e =
    let before = quota_snapshot c.user_id db in
    let inserted : insert_reservation py c before db ≡ ok (r, db') = ground arith in
    insert_reservation-Ledger py c before db h inserted

pub reserve_body-Ledger :
    (py : Python) (c : ReserveCall) (db : Db) {r : Reservation} {db' : Db}
    → Ledger db
    → reserve_body py c db ≡ ok (r, db')
    → Ledger db'
unfolding reserve_body
reserve_body-Ledger py c db {r} {db'} h e =
    elim (Option-cases (find (is_request_of c.user_id c.client_request_id) db.trips)) [
      | inl new ↦
          let made : reserve_new py c db ≡ ok (r, db') = ground arith in
          reserve_new-Ledger py c db h made
      | inr (t, again) ↦
          let replayed : reserve_again c t db ≡ ok (r, db') = ground arith in
          reserve_again-Ledger c t db h replayed
    ]

pub settle_body-Ledger :
    (c : SettleCall) (s : TripStatus) (db : Db) {r : UserTrip} {db' : Db}
    → is_terminal s ≡ true
    → Ledger db
    → settle_body c s db ≡ ok (r, db')
    → Ledger db'
unfolding settle_body
settle_body-Ledger c s db {r} {db'} ended h e =
    elim (Option-cases (find (is_trip_of c.trip_id c.owner_id) db.trips)) [
      | inl missing ↦ absurd (ground arith)
      | inr (t, is_found) ↦ elim (Bool-cases (is_terminal t.status)) [
        | inl over ↦ let same : db' ≡ db = ground arith in subst Ledger (sym same) h
        | inr running_still ↦
            let found =
              find_key trip_key (is_trip_of c.trip_id c.owner_id) db.trips h.trip_ids is_found in
            let (own, held, mine, _, same) =
              settle_active-eq-ok c s t db {r = r} {db' = db'} h found running_still
                (ground arith) in
            subst Ledger (sym same) (settled_db-Ledger c s t own db held h ended mine found)
      ]
    ]

pub progress_body-Ledger :
    (trip_id : Uuid) (s : TripStatus) (owner : Option Uuid) (now : Time) (db : Db) {r : UserTrip}
    {db' : Db}
    → is_active_trip s ≡ true
    → Ledger db
    → progress_body trip_id s owner now db ≡ ok (r, db')
    → Ledger db'
unfolding progress_body
progress_body-Ledger trip_id s owner now db {r} {db'} live h e =
    elim (Option-cases (find (is_trip_of trip_id owner) db.trips)) [
      | inl missing ↦ absurd (ground arith)
      | inr (t, is_found) ↦
          elim (Bool-cases (not (is_terminal t.status) && leb (rank t.status) (rank s))) [
            | inl forward ↦
                let found =
                  find_key trip_key (is_trip_of trip_id owner) db.trips h.trip_ids is_found in
                let same : SameHold t (progress_row s now t) = record {
                  same_id = refl;
                  same_user = refl;
                  same_entry = refl;
                  same_status = ground arith;
                } in
                let written : (put_trip (progress_row s now t) >> pure (progress_row s now t)) db
                    ≡ ok (r, db') =
                  ground arith in
                let (_, db1, e1, k1) = >>=-eq-ok (put_trip (progress_row s now t)) _ db written in
                let same_db : db' ≡ db1 = cc k1 in
                subst Ledger (sym same_db)
                  (put_trip-Ledger db (progress_row s now t) h found same e1)
            | inr stale ↦ let same : db' ≡ db = ground arith in subst Ledger (sym same) h
          ]
    ]
