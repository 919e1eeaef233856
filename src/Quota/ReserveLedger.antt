-- ===== src/Quota/ReserveLedger.antt =====
-- A reservation keeps the ledger: the new trip and the new entry come together.
use travel_web_api.Db.Grants.{TripQuotaEntry}
use travel_web_api.Db.Monad.{Db, ok, Tx, pure, ◌>>=◌, ok_eq, >>=-eq-ok}
use travel_web_api.Db.Tables.{
  trip_clash, insert_trip, put_trip, insert_entry, insert_trip-eq-ok, insert_entry-eq-ok,
  put_trip-eq-ok,
}
use travel_web_api.Db.Trips.{UserTrip}
use travel_web_api.Json.{Json, JsonObject}
use travel_web_api.Prelude.{
  ◌==◌, nat_eq, string_eq, any, ℕ, ◌+◌, String, ◌≡◌, refl, sym, ap, ◌∙◌, subst, true, false, some,
  List, ◌∷◌, arith,
}
use travel_web_api.Prelude.Int.{ℤ}
use travel_web_api.Python.{Python}
use travel_web_api.Quota.Ledger.{trip_key, entry_key, HasEntry, IsLinked, Ledger}
use travel_web_api.Quota.Reserve.{
  Reservation, ReserveCall, item, int_item, new_trip, new_entry, insert_rows, insert_reservation,
}
use travel_web_api.Quota.Snapshot.{QuotaSnapshot}
use travel_web_api.Rows.{All-map, absent-found, has_key, set_row-absent, any-absent}

-- A new entry hides no other one.
IsLinked-more :
    {es : List TripQuotaEntry} {t : UserTrip} (k : ℕ) (e : TripQuotaEntry)
    → e.id ≡ k
    → any (has_key entry_key k) es ≡ false
    → IsLinked es t
    → IsLinked (e ∷ es) t
IsLinked-more {es} {t} k e id absent link = record {
  owned = λ user own.
      let held : HasEntry es t user = link.owned user own in
      let other =
        absent-found (has_key entry_key k) (has_key entry_key held.entry.id) es absent held.found in
      record {
        entry = held.entry;
        linked_by = held.linked_by;
        found = ground (arith, other, held.found);
        of_trip = held.of_trip;
        of_user = held.of_user;
        one_unit = held.one_unit;
        of_type = held.of_type;
        of_key = held.of_key;
        follows = held.follows;
      };
  unowned = link.unowned;
}

-- What insert_rows leaves behind when it returns.
pub insert_rows-eq-ok :
    (c : ReserveCall) (t : UserTrip) (db : Db) {r : UserTrip} {db' : Db}
    → insert_rows c t db ≡ ok (r, db')
    → let t' = record t { quota_entry_id = some c.quota_id } in
      (any (has_key trip_key t.id) db.trips ≡ false)
      × (any (has_key entry_key c.quota_id) db.entries ≡ false)
      × (r ≡ t')
      × (db' ≡ record db { trips = t' ∷ db.trips; entries = new_entry c ∷ db.entries })
unfolding insert_rows
insert_rows-eq-ok c t db h =
    let t' = record t { quota_entry_id = some c.quota_id } in
    let (_, db1, h1, k1) = >>=-eq-ok (insert_trip t) _ db h in
    let (no_trip, e1) = insert_trip-eq-ok t db h1 in
    let (_, db2, h2, k2) = >>=-eq-ok (insert_entry (new_entry c)) _ db1 k1 in
    let (no_entry, e2) = insert_entry-eq-ok (new_entry c) db1 h2 in
    let (_, db3, h3, k3) = >>=-eq-ok (put_trip t') _ db2 k2 in
    let (_, e3) = put_trip-eq-ok t' db2 h3 in
    let new_trip_id : any (has_key trip_key t.id) db.trips ≡ false =
      any-absent trip_key t.id (trip_clash t) db.trips no_trip in
    let same_entries : db1.entries ≡ db.entries = cc in
    let new_entry_id : any (has_key entry_key c.quota_id) db.entries ≡ false =
      rw same_entries at
        (any-absent entry_key c.quota_id (λ x. x.trip_id == c.trip_id) db1.entries no_entry) in
    (
      new_trip_id,
      new_entry_id,
      cc,
      ground (arith, set_row-absent trip_key t.id t' db.trips new_trip_id),
    )

-- The database after the insertions has a ledger if the one before had.
pub insert_rows-Ledger :
    (c : ReserveCall) (city : String) (day_count : ℤ) (db : Db) {t : UserTrip} {db' : Db}
    → Ledger db
    → insert_rows c (new_trip c city day_count) db ≡ ok (t, db')
    → Ledger db'
insert_rows-Ledger c city day_count db h e =
    let (new_trip_id, new_entry_id, _, same) =
      insert_rows-eq-ok c (new_trip c city day_count) db e in
    subst Ledger (sym same) (record {
      trip_ids = (new_trip_id, h.trip_ids);
      entry_ids = (new_entry_id, h.entry_ids);
      links = (
        record {
          owned = λ user own. record {
            entry = new_entry c;
            linked_by = refl;
            found = ground arith;
            of_trip = refl;
            of_user = ground arith;
            one_unit = refl;
            of_type = refl;
            of_key = refl;
            follows = refl;
          };
          unowned = λ none_own. cc;
        },
        All-map db.trips (λ t link. IsLinked-more c.quota_id (new_entry c) refl new_entry_id link)
            h.links,
      );
      balance = λ user s. ground (arith, h.balance user s);
    })

item-eq-ok :
    (d : JsonObject) (k : String) (db : Db) {v : Json} {db' : Db}
    → item d k db ≡ ok (v, db')
    → db' ≡ db
item-eq-ok d k db h = ground arith

int_item-eq-ok :
    (py : Python) (v : Json) (db : Db) {n : ℤ} {db' : Db}
    → int_item py v db ≡ ok (n, db')
    → db' ≡ db
int_item-eq-ok py v db h = ground arith

-- The reservation that a trip and the quota before it make.
abbrev pub reservation : QuotaSnapshot → UserTrip → Reservation
reservation before t = record {
  trip = t;
  created = true;
  quota = record before { reserved_units = before.reserved_units + 1 };
}

reserved-eq-ok :
    (rows : Tx UserTrip) (before : QuotaSnapshot) (db : Db) {r : Reservation} {db' : Db}
    → (rows >>= λ t. pure (reservation before t)) db ≡ ok (r, db')
    → (t : UserTrip) × (rows db ≡ ok (t, db')) × (r ≡ reservation before t)
reserved-eq-ok rows before db h =
    let (t, db1, e, k) = >>=-eq-ok rows (λ t. pure (reservation before t)) db h in
    let ends = ok_eq k in
    (
      t,
      e ∙ ap (λ (x : Reservation × Db). ok (t, x.1)) ends,
      sym (ap (λ (x : Reservation × Db). x.0) ends),
    )

-- A new reservation is the insertion of its rows, and counts one unit more.
pub insert_reservation-eq-ok :
    (py : Python) (c : ReserveCall) (before : QuotaSnapshot) (db : Db) {r : Reservation} {db' : Db}
    → insert_reservation py c before db ≡ ok (r, db')
    → (city : String) × (day_count : ℤ) × (t : UserTrip) × (insert_rows c
          (new_trip c city day_count)
          db
        ≡ ok (t, db'))
      × (r ≡ reservation before t)
unfolding insert_reservation
insert_reservation-eq-ok py c before db {r} {db'} h =
    let (city, db1, e1, k1) = >>=-eq-ok (item c.request_json "to_city") _ db h in
    let (day_item, db2, e2, k2) = >>=-eq-ok (item c.request_json "days") _ db1 k1 in
    let (n, db3, e3, k3) = >>=-eq-ok (int_item py day_item) _ db2 k2 in
    let rows = insert_rows c (new_trip c (py.text_of city) n) in
    let (t, done, made) = reserved-eq-ok rows before db3 k3 in
    let same : db3 ≡ db =
      int_item-eq-ok py day_item db2 e3
      ∙ item-eq-ok c.request_json "days" db1 e2
      ∙ item-eq-ok c.request_json "to_city" db e1 in
    (py.text_of city, n, t, subst (λ d. rows d ≡ ok (t, db')) same done, made)
