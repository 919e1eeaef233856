-- ===== src/Quota/Reservations.antt =====
-- What a reservation answers: the quota that the database then holds, and the same trip again for
-- the same request id.
use travel_web_api.Db.Monad.{Db, request_id_conflict, ok, err, transaction, transaction-eq-ok}
use travel_web_api.Db.Statuses.{is_active_user}
use travel_web_api.Db.Trips.{UserTrip}
use travel_web_api.Db.Users.{Uuid, AppUser}
use travel_web_api.Prelude.{
  if◌then◌else◌, ◌==◌, nat_eq, string_eq, Option-cases, find, any, ◌+◌, ◌≡◌, refl, sym, ap, ◌∙◌,
  ◌⊎◌, inl, inr, true, false, some, ◌∷◌, arith, eq_iff,
}
use travel_web_api.Python.{Python}
use travel_web_api.Quota.Ledger.{trip_key}
use travel_web_api.Quota.Reserve.{
  Reservation, ReserveCall, new_trip, new_entry, insert_reservation, is_request_of, reserve_new,
  reserve_again, reserve_body, reserve_trip,
}
use travel_web_api.Quota.ReserveLedger.{insert_rows-eq-ok, insert_reservation-eq-ok}
use travel_web_api.Quota.Snapshot.{quota_snapshot}
use travel_web_api.Rows.{has_key}

set_row-none :
    (c : ReserveCall) (user : Uuid) (db : Db) (t : UserTrip)
    → c.user_id ≡ user
    → quota_snapshot user (record db { trips = t ∷ db.trips; entries = new_entry c ∷ db.entries })
      ≡ record (quota_snapshot user db) {
        reserved_units = (quota_snapshot user db).reserved_units + 1;
      }
unfolding quota_snapshot
set_row-none c user db t mine = ground arith

-- The insertion answers with the quota after it.
insert_reservation_quota :
    (py : Python) (c : ReserveCall) (db : Db) {r : Reservation} {db' : Db}
    → insert_reservation py c (quota_snapshot c.user_id db) db ≡ ok (r, db')
    → r.quota ≡ quota_snapshot c.user_id db'
insert_reservation_quota py c db e =
    let before = quota_snapshot c.user_id db in
    let (city, n, t, rows, made) = insert_reservation-eq-ok py c before db e in
    let (_, _, _, same) = insert_rows-eq-ok c (new_trip c city n) db rows in
    let row = record (new_trip c city n) { quota_entry_id = some c.quota_id } in
    ap (λ (x : Reservation). x.quota) made
    ∙ sym (set_row-none c c.user_id db row refl)
    ∙ sym (ap (quota_snapshot c.user_id) same)

reserve_new-eq-ok :
    (py : Python) (c : ReserveCall) (db : Db) {r : Reservation × Db}
    → reserve_new py c db ≡ ok r
    → insert_reservation py c (quota_snapshot c.user_id db) db ≡ ok r
unfolding reserve_new
reserve_new-eq-ok py c db e = ground arith

reserve_again-eq-ok :
    (c : ReserveCall) (t : UserTrip) (db : Db) {r : Reservation} {db' : Db}
    → reserve_again c t db ≡ ok (r, db')
    → (db' ≡ db) × (r.trip ≡ t) × (r.quota ≡ quota_snapshot c.user_id db)
unfolding reserve_again
reserve_again-eq-ok c t db e = ground arith

-- A repeated request of an active user is answered from the earlier trip.
reserve_body_replay :
    (py : Python) (c : ReserveCall) (db : Db) (u : AppUser) (t : UserTrip)
    → find (λ x. x.id == c.user_id) db.users ≡ some u
    → is_active_user u.status ≡ true
    → find (is_request_of c.user_id c.client_request_id) db.trips ≡ some t
    → reserve_body py c db ≡ reserve_again c t db
unfolding reserve_body
reserve_body_replay py c db u t is_user lives answers = rw (is_user, lives, answers, reserve_body)

-- What a call that returns has found or made: the user is active, and the trip answers the request.
pub reserve_body-eq-ok :
    (py : Python) (c : ReserveCall) (db : Db) {r : Reservation} {db' : Db}
    → reserve_body py c db ≡ ok (r, db')
    → (u : AppUser) × (find (λ x. x.id == c.user_id) db'.users ≡ some u)
      × (is_active_user u.status ≡ true)
      × (find (is_request_of c.user_id c.client_request_id) db'.trips ≡ some r.trip)
      × (r.quota ≡ quota_snapshot c.user_id db')
unfolding reserve_body
reserve_body-eq-ok py c db {r} {db'} e =
    elim (Option-cases (find (λ (x : AppUser). x.id == c.user_id) db.users)) [
      | inl nobody ↦ absurd (ground arith)
      | inr (u, is_user) ↦
          let lives : is_active_user u.status ≡ true = ground arith in
          elim (Option-cases (find (is_request_of c.user_id c.client_request_id) db.trips)) [
            | inl new ↦
                let before = quota_snapshot c.user_id db in
                let made : insert_reservation py c before db ≡ ok (r, db') =
                  unfold reserve_new in ground arith in
                let (city, n, t, rows, is_made) = insert_reservation-eq-ok py c before db made in
                let (_, _, is_row, same) = insert_rows-eq-ok c (new_trip c city n) db rows in
                let row = record (new_trip c city n) { quota_entry_id = some c.quota_id } in
                let answers : is_request_of c.user_id c.client_request_id row ≡ true =
                  ground (arith, eq_iff c.client_request_id c.client_request_id) in
                let is_trip : r.trip ≡ row = ap (λ (x : Reservation). x.trip) is_made ∙ is_row in
                (
                  u,
                  ap (λ (d : Db). find (λ (x : AppUser). x.id == c.user_id) d.users) same ∙ is_user,
                  lives,
                  ap (λ (d : Db). find (is_request_of c.user_id c.client_request_id) d.trips) same
                      ∙ rw answers (ap some (sym is_trip)),
                  insert_reservation_quota py c db made,
                )
            | inr (t, again) ↦
                let replayed : reserve_again c t db ≡ ok (r, db') = ground arith in
                let (same, is_trip, is_quota) = reserve_again-eq-ok c t db replayed in
                rw (same, is_trip, is_quota) (u, is_user, lives, again, refl)
          ]
    ]

-- A call of reserve_trip that returns, on a new or on a repeated request, reports the quota that a
-- snapshot of the resulting database shows for that user.
pub reserve_trip_quota :
    (py : Python) (c : ReserveCall) (db : Db) (r : Reservation)
    → (reserve_trip py c db).0 ≡ ok r
    → r.quota ≡ quota_snapshot c.user_id (reserve_trip py c db).1
unfolding reserve_trip
reserve_trip_quota py c db r h =
    (reserve_body-eq-ok py c db (transaction-eq-ok (reserve_body py c) db h)).4

-- After a call of reserve_trip that returned, another call of the same user with the same request
-- id changes nothing: it answers the same trip if the request's hash is the same, and raises
-- RequestIdConflict otherwise, whatever the quota and the other trips are.
pub reserve_trip_twice :
    (py : Python) (c again : ReserveCall) (db : Db) (r : Reservation)
    → (reserve_trip py c db).0 ≡ ok r
    → again.user_id ≡ c.user_id
    → again.client_request_id ≡ c.client_request_id
    → let db' = (reserve_trip py c db).1 in
      reserve_trip py again db' ≡ (
        (if r.trip.request_hash == again.request_hash
            then ok (record { trip = r.trip; created = false; quota = r.quota })
            else err request_id_conflict),
        db',
      )
unfolding reserve_trip
reserve_trip_twice py c again db r h same_user same_id =
    let db' = (transaction (reserve_body py c) db).1 in
    let (u, is_user, lives, answers, is_quota) =
      reserve_body-eq-ok py c db (transaction-eq-ok (reserve_body py c) db h) in
    let is_user' : find (λ (x : AppUser). x.id == again.user_id) db'.users ≡ some u =
      rw same_user is_user in
    let answers' : find (is_request_of again.user_id again.client_request_id) db'.trips
        ≡ some r.trip =
      rw (same_user, same_id) answers in
    let is_quota' : r.quota ≡ quota_snapshot again.user_id db' = rw same_user is_quota in
    rw (reserve_body_replay py again db' u r.trip is_user' lives answers')
      (unfold reserve_again in rw is_quota' (ground arith))

-- A reservation leaves the trips, or adds one with a new id.
pub reserve_body-trips :
    (py : Python) (c : ReserveCall) (db : Db) {r : Reservation} {db' : Db}
    → reserve_body py c db ≡ ok (r, db')
    → (db'.trips ≡ db.trips)
      ⊎ ((row : UserTrip) × (any (has_key trip_key row.id) db.trips ≡ false)
          × (db'.trips ≡ row ∷ db.trips))
unfolding reserve_body
reserve_body-trips py c db {r} {db'} e =
    elim (Option-cases (find (is_request_of c.user_id c.client_request_id) db.trips)) [
      | inl new ↦
          let inserted : reserve_new py c db ≡ ok (r, db') = ground arith in
          let made = reserve_new-eq-ok py c db inserted in
          let (city, n, t, rows, _) =
            insert_reservation-eq-ok py c (quota_snapshot c.user_id db) db made in
          let (absent, _, _, same) = insert_rows-eq-ok c (new_trip c city n) db rows in
          inr (
            record (new_trip c city n) { quota_entry_id = some c.quota_id },
            absent,
            ap (λ (d : Db). d.trips) same,
          )
      | inr (t, again) ↦
          let replayed : reserve_again c t db ≡ ok (r, db') = ground arith in
          inl (ap (λ (d : Db). d.trips) (reserve_again-eq-ok c t db replayed).0)
    ]
