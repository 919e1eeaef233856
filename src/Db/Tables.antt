-- ===== src/Db/Tables.antt =====
-- Writes to the tables that the unique constraints of db/models.py can refuse. PostgreSQL refuses
-- a row that clashes with another one, and SQLAlchemy raises IntegrityError.
use travel_web_api.Db.Grants.{TripQuotaEntry}
use travel_web_api.Db.Monad.{Db, integrity_error, ok, err, Tx}
use travel_web_api.Db.Statuses.{is_active_trip}
use travel_web_api.Db.Trips.{UserTrip}
use travel_web_api.Prelude.{
  if◌then◌else◌, ◌==◌, nat_eq, string_eq, ◌=??◌, any, update_where, ◌≡◌, Bool, false, not, ◌&&◌,
  ◌||◌, ◌∷◌, arith,
}

-- The unique columns and indexes of user_trip, on two different rows; the last one is
-- uq_user_trip_one_active.
unfoldable pub trip_clash : UserTrip → UserTrip → Bool
trip_clash t u =
    t.public_id == u.public_id
    || t.user_id =?? u.user_id && t.client_request_id == u.client_request_id
    || t.hermes_job_id =?? u.hermes_job_id
    || t.result_record_id =?? u.result_record_id
    || t.quota_entry_id =?? u.quota_entry_id
    || t.user_id =?? u.user_id && is_active_trip t.status && is_active_trip u.status

unfoldable pub insert_trip : UserTrip → Tx Unit
insert_trip t db =
    if any (λ u. u.id == t.id || trip_clash t u) db.trips
    then err (integrity_error "user_trip")
    else ok (tt, record db { trips = t ∷ db.trips })

-- The UPDATE that a flush sends for a changed trip.
unfoldable pub put_trip : UserTrip → Tx Unit
put_trip t db =
    if any (λ u. not (u.id == t.id) && trip_clash t u) db.trips
    then err (integrity_error "user_trip")
    else ok (tt, record db { trips = update_where (λ u. u.id == t.id) (λ _. t) db.trips })

-- `trip_id` is unique.
unfoldable pub insert_entry : TripQuotaEntry → Tx Unit
insert_entry e db =
    if any (λ x. x.id == e.id || x.trip_id == e.trip_id) db.entries
    then err (integrity_error "trip_quota_entry")
    else ok (tt, record db { entries = e ∷ db.entries })

pub insert_trip-eq-ok :
    (t : UserTrip) (db : Db) {u : Unit {0}} {db' : Db}
    → insert_trip t db ≡ ok (u, db')
    → (any (λ u. u.id == t.id || trip_clash t u) db.trips ≡ false)
      × (db' ≡ record db { trips = t ∷ db.trips })
unfolding insert_trip
insert_trip-eq-ok t db h = ground arith

pub insert_entry-eq-ok :
    (e : TripQuotaEntry) (db : Db) {u : Unit {0}} {db' : Db}
    → insert_entry e db ≡ ok (u, db')
    → (any (λ x. x.id == e.id || x.trip_id == e.trip_id) db.entries ≡ false)
      × (db' ≡ record db { entries = e ∷ db.entries })
unfolding insert_entry
insert_entry-eq-ok e db h = ground arith

pub put_trip-eq-ok :
    (t : UserTrip) (db : Db) {u : Unit {0}} {db' : Db}
    → put_trip t db ≡ ok (u, db')
    → (any (λ u. not (u.id == t.id) && trip_clash t u) db.trips ≡ false)
      × (db' ≡ record db { trips = update_where (λ u. u.id == t.id) (λ _. t) db.trips })
unfolding put_trip
put_trip-eq-ok t db h = ground arith
