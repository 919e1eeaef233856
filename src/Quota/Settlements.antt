-- ===== src/Quota/Settlements.antt =====
-- What one settlement does to the quota of the owner, and that it happens once.
use travel_web_api.Db.Grants.{TripQuotaEntry}
use travel_web_api.Db.Monad.{
  Db, value_error, Result, ok, err, settled, transaction, transaction-eq-ok,
}
use travel_web_api.Db.Statuses.{TripStatus, reserved, consumed, is_success, is_terminal}
use travel_web_api.Db.Trips.{UserTrip}
use travel_web_api.Db.Users.{Uuid}
use travel_web_api.Prelude.{
  if◌then◌else◌, Bool-cases, Option-cases, find, ◌+◌, ◌≡◌, refl, sym, ap, ◌∙◌, subst, inl, inr,
  true, false, Option, none, some, arith,
}
use travel_web_api.Python.{Python}
use travel_web_api.Quota.Ledger.{trip_key, entry_key, HasEntry, Ledger}
use travel_web_api.Quota.Settle.{
  SettleCall, is_trip_of, settle_entry, settle_row, settle_active, settle_body, read_terminal,
  settle_trip, read_terminal_ends,
}
use travel_web_api.Quota.SettleLedger.{entry_weight, settled_db, settle_active-eq-ok}
use travel_web_api.Quota.Snapshot.{quota_snapshot}
use travel_web_api.Rows.{some_eq, find_holds, find_key, total-set_row, find-set_row_same}

pub settle_body-eq-ok :
    (c : SettleCall) (s : TripStatus) (db : Db) (t : UserTrip) {r : UserTrip} {db' : Db}
    → find (is_trip_of c.trip_id c.owner_id) db.trips ≡ some t
    → is_terminal t.status ≡ false
    → settle_body c s db ≡ ok (r, db')
    → settle_active c s t db ≡ ok (r, db')
unfolding settle_body
settle_body-eq-ok c s db t is_found live e = ground arith

settle_trip_reads :
    (py : Python) (c : SettleCall) (s : TripStatus) (db : Db)
    → read_terminal py c.terminal_status ≡ some s
    → settle_trip py c db ≡ transaction (settle_body c s) db
unfolding settle_trip
settle_trip_reads py c s db reads = rw (reads, settle_trip)

settle_trip_unread :
    (py : Python) (c : SettleCall) (db : Db)
    → read_terminal py c.terminal_status ≡ none
    → settle_trip py c db ≡ (err (value_error "terminal status required"), db)
unfolding settle_trip
settle_trip_unread py c db bad = rw (bad, settle_trip)

pub settle_trip-eq-ok :
    (py : Python) (c : SettleCall) (db : Db) {r : UserTrip}
    → (settle_trip py c db).0 ≡ ok r
    → (s : TripStatus) × (read_terminal py c.terminal_status ≡ some s)
      × (settle_body c s db ≡ ok (r, (settle_trip py c db).1))
settle_trip-eq-ok py c db {r} h = elim (Option-cases (read_terminal py c.terminal_status)) [
  | inl bad ↦ absurd (cc (h, settle_trip_unread py c db bad))
  | inr (s, reads) ↦
      let started = settle_trip_reads py c s db reads in
      let done =
        transaction-eq-ok (settle_body c s) db
          (sym (ap (λ (x : Result UserTrip × Db). x.0) started) ∙ h) in
      (s, reads, done ∙ sym (ap (λ (x : Result UserTrip × Db). ok (r, x.1)) started))
]

-- The two updates of a settlement, as the snapshot of the owner shows them.
settled_db_quota :
    (c : SettleCall) (s : TripStatus) (t : UserTrip) (user : Uuid) (db : Db)
    (held : HasEntry db.entries t user) {r : UserTrip} {db' : Db}
    → r ≡ settle_row c s t
    → db' ≡ settled_db c s t held.entry db
    → Ledger db
    → is_terminal s ≡ true
    → is_terminal t.status ≡ false
    → let before = quota_snapshot user db in
      let after = quota_snapshot user db' in
      (after.limit ≡ before.limit)
      × (after.reserved_units + 1 ≡ before.reserved_units)
      × (after.consumed_units ≡ before.consumed_units + (if is_success r.status then 1 else 0))
unfolding quota_snapshot
settled_db_quota c s t user db held is_row same h ended live =
    let e = held.entry in
    let e' = settle_entry s c.now e in
    let is_held : entry_weight user reserved e ≡ 1 =
      rw (held.of_user, held.of_type, held.of_key, held.follows, held.one_unit) (ground arith) in
    let not_used : entry_weight user consumed e ≡ 0 =
      rw (held.of_user, held.of_type, held.of_key, held.follows, held.one_unit) (ground arith) in
    let not_held : entry_weight user reserved e' ≡ 0 =
      rw (held.of_user, held.of_type, held.of_key, held.one_unit) (ground arith) in
    let is_used : entry_weight user consumed e' ≡ (if is_success s then 1 else 0) =
      rw (held.of_user, held.of_type, held.of_key, held.one_unit) (ground arith) in
    let moved_held =
      total-set_row entry_key (entry_weight user reserved) e.id e' db.entries h.entry_ids
        held.found in
    let moved_used =
      total-set_row entry_key (entry_weight user consumed) e.id e' db.entries h.entry_ids
        held.found in
    rw (same, is_row)
      (
        refl,
        omega (arith, moved_held, is_held, not_held),
        omega (arith, moved_used, not_used, is_used),
      )

-- A settlement that returns on an owned trip that was not over moves one unit of its owner: one
-- less is reserved, one more is consumed exactly if the trip ended in SUCCESS, and the limit stays.
pub settle_trip_quota :
    (py : Python) (c : SettleCall) (db : Db) (t r : UserTrip) (user : Uuid)
    → Ledger db
    → find (is_trip_of c.trip_id c.owner_id) db.trips ≡ some t
    → is_terminal t.status ≡ false
    → t.user_id ≡ some user
    → (settle_trip py c db).0 ≡ ok r
    → let before = quota_snapshot user db in
      let after = quota_snapshot user (settle_trip py c db).1 in
      (after.limit ≡ before.limit)
      × (after.reserved_units + 1 ≡ before.reserved_units)
      × (after.consumed_units ≡ before.consumed_units + (if is_success r.status then 1 else 0))
settle_trip_quota py c db t r user h is_found live own_eq e =
    let (s, reads, done) = settle_trip-eq-ok py c db e in
    let ended = read_terminal_ends py c.terminal_status s reads in
    let found = find_key trip_key (is_trip_of c.trip_id c.owner_id) db.trips h.trip_ids is_found in
    let active = settle_body-eq-ok c s db t is_found live done in
    let (own, held, mine, is_row, same) = settle_active-eq-ok c s t db h found live active in
    let is_user : own ≡ user = some_eq (sym mine ∙ own_eq) in
    settled_db_quota c s t user db (subst (HasEntry db.entries t) is_user held) is_row same h ended
      live

settle_body_again :
    (c : SettleCall) (s : TripStatus) (db : Db) (t : UserTrip)
    → find (is_trip_of c.trip_id c.owner_id) db.trips ≡ some t
    → is_terminal t.status ≡ true
    → settle_body c s db ≡ ok (t, db)
unfolding settle_body
settle_body_again c s db t is_found over = rw (is_found, over, settle_body)

is_trip_of-settle :
    (id : Uuid) (owner : Option Uuid) (c : SettleCall) (s : TripStatus) (t : UserTrip)
    → is_trip_of id owner (settle_row c s t) ≡ is_trip_of id owner t
is_trip_of-settle id none c s t = refl
is_trip_of-settle id (some owner) c s t = refl

settled_db_found :
    (c : SettleCall) (s : TripStatus) (t : UserTrip) (e : TripQuotaEntry) (db : Db) {r : UserTrip}
    {db' : Db}
    → r ≡ settle_row c s t
    → db' ≡ settled_db c s t e db
    → Ledger db
    → find (is_trip_of c.trip_id c.owner_id) db.trips ≡ some t
    → find (is_trip_of c.trip_id c.owner_id) db'.trips ≡ some r
settled_db_found c s t e db is_row same h is_found =
    let asks = is_trip_of c.trip_id c.owner_id in
    let picks = is_trip_of-settle c.trip_id c.owner_id c s t ∙ find_holds asks db.trips is_found in
    rw (same, is_row)
      (find-set_row_same trip_key asks (settle_row c s t) db.trips h.trip_ids is_found picks)

-- The trip that a settlement answers is over, and found under the same id and owner.
settle_body_over :
    (c : SettleCall) (s : TripStatus) (db : Db) {r : UserTrip} {db' : Db}
    → Ledger db
    → is_terminal s ≡ true
    → settle_body c s db ≡ ok (r, db')
    → (find (is_trip_of c.trip_id c.owner_id) db'.trips ≡ some r) × (is_terminal r.status ≡ true)
settle_body_over c s db {r} {db'} h ended e =
    elim (Option-cases (find (is_trip_of c.trip_id c.owner_id) db.trips)) [
      | inl nobody ↦ absurd (unfold settle_body in ground (arith, nobody, e))
      | inr (t, is_found) ↦ elim (Bool-cases (is_terminal t.status)) [
        | inl over ↦
            let kept = settle_body_again c s db t is_found over in
            let is_row : r ≡ t = cc in
            let same : db' ≡ db = cc in rw (same, is_row) (is_found, over)
        | inr live ↦
            let found =
              find_key trip_key (is_trip_of c.trip_id c.owner_id) db.trips h.trip_ids is_found in
            let active = settle_body-eq-ok c s db t is_found live e in
            let (own, held, mine, is_row, same) =
              settle_active-eq-ok c s t db h found live active in
            (
              settled_db_found c s t held.entry db is_row same h is_found,
              ap (λ (x : UserTrip). is_terminal x.status) is_row ∙ ended,
            )
      ]
    ]

-- After a settlement that returned, another one of the same trip with any terminal status returns
-- the same trip and changes nothing, so a unit is settled once.
pub settle_trip_twice :
    (py : Python) (c again : SettleCall) (db : Db) (r : UserTrip) (s : TripStatus)
    → Ledger db
    → (settle_trip py c db).0 ≡ ok r
    → again.trip_id ≡ c.trip_id
    → again.owner_id ≡ c.owner_id
    → read_terminal py again.terminal_status ≡ some s
    → settle_trip py again (settle_trip py c db).1 ≡ (ok r, (settle_trip py c db).1)
settle_trip_twice py c again db r s h e same_trip same_owner reads =
    let db' = (settle_trip py c db).1 in
    let (s0, reads0, done) = settle_trip-eq-ok py c db e in
    let (found, over) =
      settle_body_over c s0 db h (read_terminal_ends py c.terminal_status s0 reads0) done in
    let found' : find (is_trip_of again.trip_id again.owner_id) db'.trips ≡ some r =
      rw (same_trip, same_owner) found in
    settle_trip_reads py again s db' reads
    ∙ ap (settled db') (settle_body_again again s db' r found' over)
