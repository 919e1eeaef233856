-- ===== src/Trips/Returns.antt =====
-- A settlement that is not SUCCESS returns where the trip is owned, not over and in nobody's way, as
-- a new reservation leaves it.
use travel_web_api.Db.Monad.{Db, ok, >>=-eq-ok, bound}
use travel_web_api.Db.Statuses.{
  TripStatus, submitting, reserved, is_success, is_active_trip, is_terminal,
}
use travel_web_api.Db.Tables.{
  trip_clash, insert_trip, put_trip, insert_entry, insert_trip-eq-ok, insert_entry-eq-ok,
  put_trip-eq-ok,
}
use travel_web_api.Db.Trips.{UserTrip}
use travel_web_api.Db.Users.{Uuid}
use travel_web_api.Prelude.{
  string_eq, nat_eq, ◌==◌, ◌=??◌, Option-cases, find, any, ℕ, ◌≡◌, refl, sym, ap, ◌∙◌, subst, inl,
  inr, Bool, true, false, not, ◌&&◌, ◌||◌, Option, none, some, List, [], ◌∷◌, arith,
}
use travel_web_api.Python.{Python}
use travel_web_api.Quota.Ledger.{trip_key, entry_key, HasEntry, IsLinked, Ledger}
use travel_web_api.Quota.Reserve.{
  Reservation, ReserveCall, new_trip, new_entry, insert_rows, insert_reservation, is_request_of,
  reserve_new, reserve_again, reserve_body,
}
use travel_web_api.Quota.ReserveLedger.{insert_rows-eq-ok, insert_reservation-eq-ok}
use travel_web_api.Quota.Settle.{
  SettleCall, is_trip_of, settle_entry, settle_entries, settle_row, settle_active, settle_body,
  read_terminal, settle_trip, read_terminal_ends,
}
use travel_web_api.Quota.SettleLedger.{settle_entries_held}
use travel_web_api.Quota.Snapshot.{quota_snapshot}
use travel_web_api.Rows.{find-All, has_key, set_row, find_key}

any-weaker {ℓ} :
    {A : Type ℓ} (p q : A → Bool) (xs : List A)
    → ((x : A) → p x ≡ false → q x ≡ false)
    → any p xs ≡ false
    → any q xs ≡ false
any-weaker p q [] weaker h = refl
any-weaker p q (x ∷ xs) weaker h = ground (arith, weaker x, any-weaker p q xs weaker)

-- No other row clashes with the trip.
abbrev pub IsFree : UserTrip → Db → Type 0
IsFree t db = any (λ u. not (u.id == t.id) && trip_clash t u) db.trips ≡ false

-- What a clash is left with when its fourth test and the second part of its last one fail.
less_clash :
    (x p d e f g h : Bool)
    → (x && (p || d || e || f && g && h)) ≡ false
    → (x && (p || false || e || f && false && h)) ≡ false
less_clash true true d e f g h k = cc k
less_clash true false d true f g h k = ground (arith, k)
less_clash true false d false true g h k = refl
less_clash true false d false false g h k = refl
less_clash false p d e f g h k = refl

no_result : (o : Option ℕ) → (none =?? o) ≡ false
no_result none = refl
no_result (some n) = refl

settle_row-clash :
    (c : SettleCall) (s : TripStatus) (t u : UserTrip)
    → is_terminal s ≡ true
    → is_success s ≡ false
    → (not (u.id == t.id) && trip_clash t u) ≡ false
    → (not (u.id == t.id) && trip_clash (settle_row c s t) u) ≡ false
unfolding trip_clash
settle_row-clash c s t u over failed h =
    let inactive : is_active_trip s ≡ false = ground (arith, over) in
    rw (failed, inactive, no_result u.result_record_id)
      (less_clash (not (u.id == t.id))
        (t.public_id == u.public_id
          || t.user_id =?? u.user_id && t.client_request_id == u.client_request_id
          || t.hermes_job_id =?? u.hermes_job_id)
        (t.result_record_id =?? u.result_record_id) (t.quota_entry_id =?? u.quota_entry_id)
        (t.user_id =?? u.user_id) (is_active_trip t.status) (is_active_trip u.status) h)

settle_active-returns :
    (c : SettleCall) (s : TripStatus) (t : UserTrip) (own : Uuid) (db : Db)
    → Ledger db
    → HasEntry db.entries t own
    → is_terminal t.status ≡ false
    → is_terminal s ≡ true
    → is_success s ≡ false
    → IsFree t db
    → (db' : Db) × (settle_active c s t db ≡ ok (settle_row c s t, db'))
unfolding settle_active put_trip
settle_active-returns c s t own db h held live over failed free =
    let still : held.entry.status ≡ reserved = ground (arith, held.follows, live) in
    let e1 =
      settle_entries_held s c.now t held.entry db h.entry_ids held.found held.linked_by still in
    let fits =
      any-weaker (λ (u : UserTrip). not (u.id == t.id) && trip_clash t u)
        (λ u. not (u.id == t.id) && trip_clash (settle_row c s t) u) db.trips
        (λ u k. settle_row-clash c s t u over failed k) free in
    let freed = record db {
      entries = set_row entry_key held.entry.id (settle_entry s c.now held.entry) db.entries;
    } in
    let put : put_trip (settle_row c s t) freed
        ≡ ok (tt, record freed { trips = set_row trip_key t.id (settle_row c s t) db.trips }) =
      rw (put_trip, fits) refl in
    (
      record freed { trips = set_row trip_key t.id (settle_row c s t) db.trips },
      bound (settle_entries s c.now t) _ db e1
          (bound (put_trip (settle_row c s t)) _ freed put refl),
    )

-- A settlement of an owned trip that is not over, with a terminal status that is not SUCCESS.
pub settle_trip-returns :
    (py : Python) (c : SettleCall) (s : TripStatus) (t : UserTrip) (own : Uuid) (db : Db)
    → Ledger db
    → find (is_trip_of c.trip_id c.owner_id) db.trips ≡ some t
    → is_terminal t.status ≡ false
    → t.user_id ≡ some own
    → IsFree t db
    → read_terminal py c.terminal_status ≡ some s
    → is_success s ≡ false
    → (settle_trip py c db).0 ≡ ok (settle_row c s t)
unfolding settle_trip settle_body
settle_trip-returns py c s t own db h is_found live mine free reads failed =
    let found = find_key trip_key (is_trip_of c.trip_id c.owner_id) db.trips h.trip_ids is_found in
    let link : IsLinked db.entries t =
      find-All (IsLinked db.entries) (has_key trip_key t.id) db.trips found h.links in
    let (db', done) =
      settle_active-returns c s t own db h (link.owned own mine) live
        (read_terminal_ends py c.terminal_status s reads) failed free in
    rw (settle_trip, reads, settle_body, is_found, live, done) refl

-- What a new reservation has left: its trip, not over, without a job, found and in nobody's way.
pub record IsNew (c : ReserveCall) (before after : Db) (t : UserTrip) : Type 0 where
  pub rows : List UserTrip
  pub same : after ≡ record before { trips = rows; entries = new_entry c ∷ before.entries }
  pub is_found : find (is_trip_of t.id none) after.trips ≡ some t
  pub is_submitted : t.status ≡ submitting
  pub no_job : t.hermes_job_id ≡ none
  pub mine : t.user_id ≡ some c.user_id
  pub free : IsFree t after

insert_rows-IsFree :
    (c : ReserveCall) (t : UserTrip) (db : Db) {r : UserTrip} {db' : Db}
    → insert_rows c t db ≡ ok (r, db')
    → let row = record t { quota_entry_id = some c.quota_id } in
      IsFree row (record db { trips = row ∷ db.trips; entries = new_entry c ∷ db.entries })
unfolding insert_rows
insert_rows-IsFree c t db e =
    let row = record t { quota_entry_id = some c.quota_id } in
    let (_, db1, h1, k1) = >>=-eq-ok (insert_trip t) _ db e in
    let (_, e1) = insert_trip-eq-ok t db h1 in
    let (_, db2, h2, k2) = >>=-eq-ok (insert_entry (new_entry c)) _ db1 k1 in
    let (_, e2) = insert_entry-eq-ok (new_entry c) db1 h2 in
    let (_, db3, h3, k3) = >>=-eq-ok (put_trip row) _ db2 k2 in
    let (free, _) = put_trip-eq-ok row db2 h3 in
    let rows : db2.trips ≡ t ∷ db.trips =
      ap (λ (d : Db). d.trips) e2 ∙ ap (λ (d : Db). d.trips) e1 in
    let others : any (λ u. not (u.id == row.id) && trip_clash row u) (t ∷ db.trips) ≡ false =
      subst (λ xs. any (λ u. not (u.id == row.id) && trip_clash row u) xs ≡ false) rows free in
    let own : (row.id == row.id) ≡ true = ground arith in rw own (rw own at others)

pub reserve_body-IsNew :
    (py : Python) (c : ReserveCall) (db : Db) {r : Reservation} {db' : Db}
    → reserve_body py c db ≡ ok (r, db')
    → r.created ≡ true
    → IsNew c db db' r.trip
unfolding reserve_body reserve_new reserve_again
reserve_body-IsNew py c db {r} {db'} e made =
    elim (Option-cases (find (is_request_of c.user_id c.client_request_id) db.trips)) [
      | inl new ↦
          let before = quota_snapshot c.user_id db in
          let inserted : insert_reservation py c before db ≡ ok (r, db') = ground arith in
          let (city, n, t, done, is_made) = insert_reservation-eq-ok py c before db inserted in
          let (_, _, is_row, same) = insert_rows-eq-ok c (new_trip c city n) db done in
          let row = record (new_trip c city n) { quota_entry_id = some c.quota_id } in
          let is_trip : r.trip ≡ row = ap (λ (x : Reservation). x.trip) is_made ∙ is_row in
          let free = insert_rows-IsFree c (new_trip c city n) db done in
          let own : (row.id == row.id) ≡ true = ground arith in
          let new_row : IsNew c db db' row = record {
            rows = row ∷ db.trips;
            same = same;
            is_found = ap (λ (d : Db). find (is_trip_of row.id none) d.trips) same ∙ rw own refl;
            is_submitted = refl;
            no_job = refl;
            mine = refl;
            free = subst (IsFree row) (sym same) free;
          } in
          subst (IsNew c db db') (sym is_trip) new_row
      | inr (t, again) ↦ let old : r.created ≡ false = ground arith in absurd (cc (made, old))
    ]
