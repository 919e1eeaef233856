-- ===== src/Trips/Charging.antt =====
-- What a call does to the snapshot of one user, and what a settlement does to it.
use travel_web_api.Db.Monad.{Db, Error, Result, ok, err, App, transaction-eq-err}
use travel_web_api.Db.Statuses.{TripStatus, is_success, is_terminal}
use travel_web_api.Db.Trips.{UserTrip}
use travel_web_api.Db.Users.{Uuid}
use travel_web_api.Prelude.{
  if◌then◌else◌, string_eq, nat_eq, ◌==◌, Option-cases, find, ◌+◌, String, ◌≡◌, refl, sym, ap, ◌∙◌,
  subst, inl, inr, Bool, true, false, some, arith,
}
use travel_web_api.Python.{Python}
use travel_web_api.Quota.Ledger.{trip_key, Ledger}
use travel_web_api.Quota.Limits.{SameQuota, quota_snapshot-SameQuota}
use travel_web_api.Quota.Settle.{SettleCall, is_trip_of, settle_body, read_terminal, settle_trip}
use travel_web_api.Quota.SettleLedger.{settle_active-eq-ok}
use travel_web_api.Quota.Settlements.{settle_body-eq-ok, settle_trip-eq-ok, settle_trip_quota}
use travel_web_api.Quota.Snapshot.{QuotaSnapshot, quota_snapshot}
use travel_web_api.Rows.{find_key}
use travel_web_api.Trips.Service.{continue_with}

-- The effect on the user's snapshot of a call that returned: the unit is freed if the trip ended,
-- and used if it succeeded. A call that raised leaves the snapshot.
abbrev pub IsCharged : {A : Type 0} → Uuid → Bool → Bool → Db → Result A × Db → Type 0
IsCharged user ended succeeded db (ok a, db') =
    let before = quota_snapshot user db in
    let after = quota_snapshot user db' in
    (after.limit ≡ before.limit)
    × (after.reserved_units + (if ended then 1 else 0) ≡ before.reserved_units)
    × (after.consumed_units ≡ before.consumed_units + (if succeeded then 1 else 0))
IsCharged user ended succeeded db (err e, db') = quota_snapshot user db' ≡ quota_snapshot user db

pub IsCharged-SameQuota :
    {A : Type 0} (user : Uuid) (db : Db) (r : Result A × Db)
    → SameQuota db r.1
    → IsCharged user false false db r
IsCharged-SameQuota user db (ok a, db') same =
    let kept = quota_snapshot-SameQuota user same in
    (
      ap (λ (q : QuotaSnapshot). q.limit) kept,
      omega (arith, ap (λ (q : QuotaSnapshot). q.reserved_units) kept),
      omega (arith, ap (λ (q : QuotaSnapshot). q.consumed_units) kept),
    )
IsCharged-SameQuota user db (err e, db') same = quota_snapshot-SameQuota user same

pub IsCharged-after :
    {A : Type 0} (user : Uuid) (ended succeeded : Bool) (db db1 : Db) (r : Result A × Db)
    → SameQuota db db1
    → IsCharged user ended succeeded db1 r
    → IsCharged user ended succeeded db r
IsCharged-after user ended succeeded db db1 (ok a, db') same h =
    let kept = quota_snapshot-SameQuota user same in
    (
      h.0 ∙ ap (λ (q : QuotaSnapshot). q.limit) kept,
      h.1 ∙ ap (λ (q : QuotaSnapshot). q.reserved_units) kept,
      h.2 ∙ ap (λ (q : QuotaSnapshot). q.consumed_units + (if succeeded then 1 else 0)) kept,
    )
IsCharged-after user ended succeeded db db1 (err e, db') same h =
    h ∙ quota_snapshot-SameQuota user same

settle_trip-refused :
    (py : Python) (c : SettleCall) (db : Db) (e : Error)
    → (settle_trip py c db).0 ≡ err e
    → (settle_trip py c db).1 ≡ db
unfolding settle_trip
settle_trip-refused py c db e h = elim (Option-cases (read_terminal py c.terminal_status)) [
  | inl bad ↦ rw (settle_trip, bad) refl
  | inr (s, reads) ↦
      rw (settle_trip, reads)
        (transaction-eq-err (settle_body c s) db (rw (settle_trip, reads) at h))
]

-- A live trip has, after a settlement that returned, the status that was asked for.
settle_trip-status :
    (py : Python) (c : SettleCall) (db : Db) (t r : UserTrip)
    → Ledger db
    → find (is_trip_of c.trip_id c.owner_id) db.trips ≡ some t
    → is_terminal t.status ≡ false
    → (settle_trip py c db).0 ≡ ok r
    → read_terminal py c.terminal_status ≡ some r.status
settle_trip-status py c db t r h is_found live e =
    let (s, reads, done) = settle_trip-eq-ok py c db e in
    let found = find_key trip_key (is_trip_of c.trip_id c.owner_id) db.trips h.trip_ids is_found in
    let active = settle_body-eq-ok c s db t is_found live done in
    let (own, held, mine, is_row, same) = settle_active-eq-ok c s t db h found live active in
    reads ∙ ap some (sym (ap (λ (x : UserTrip). x.status) is_row))

read_terminal-success :
    (py : Python) (raw : String) (s : TripStatus)
    → py.upper raw ≡ raw
    → read_terminal py raw ≡ some s
    → is_success s ≡ (raw == "SUCCESS")
unfolding read_terminal
read_terminal-success py raw s plain reads = ground (arith, rw (read_terminal, plain) at reads)

pub settle_trip-IsCharged :
    (py : Python) (c : SettleCall) (db : Db) (t : UserTrip) (user : Uuid)
    → Ledger db
    → find (is_trip_of c.trip_id c.owner_id) db.trips ≡ some t
    → is_terminal t.status ≡ false
    → t.user_id ≡ some user
    → py.upper c.terminal_status ≡ c.terminal_status
    → IsCharged user true (c.terminal_status == "SUCCESS") db (settle_trip py c db)
settle_trip-IsCharged py c db t user h is_found live mine plain = charged (settle_trip py c db) refl
  where
    charged :
        (x : Result UserTrip × Db)
        → settle_trip py c db ≡ x
        → IsCharged user true (c.terminal_status == "SUCCESS") db x
    charged (ok r, db') same =
        let e : (settle_trip py c db).0 ≡ ok r = ap (λ (x : Result UserTrip × Db). x.0) same in
        let moved = settle_trip_quota py c db t r user h is_found live mine e in
        let over =
          read_terminal-success py c.terminal_status r.status plain
            (settle_trip-status py c db t r h is_found live e) in
        subst
          (λ (d : Db).
            let before = quota_snapshot user db in
            let after = quota_snapshot user d in
            (after.limit ≡ before.limit)
            × (after.reserved_units + 1 ≡ before.reserved_units)
            × (after.consumed_units
                ≡ before.consumed_units + (if c.terminal_status == "SUCCESS" then 1 else 0)))
          (ap (λ (x : Result UserTrip × Db). x.1) same)
          (
            moved.0,
            moved.1,
            moved.2 ∙ ap (λ b. (quota_snapshot user db).consumed_units + (if b then 1 else 0)) over,
          )
    charged (err e, db') same =
        let stays : db' ≡ db =
          sym (ap (λ (x : Result UserTrip × Db). x.1) same)
          ∙ settle_trip-refused py c db e (ap (λ (x : Result UserTrip × Db). x.0) same) in
        ap (quota_snapshot user) stays

pub continue_with-IsCharged :
    {A B : Type 0} (user : Uuid) (ended succeeded : Bool) (db : Db) (x : Result A × Db)
    (f : A → App B)
    → SameQuota db x.1
    → ((a : A) → IsCharged user ended succeeded x.1 (f a x.1))
    → IsCharged user ended succeeded db (continue_with x f)
continue_with-IsCharged user ended succeeded db (ok a, db1) f same k =
    IsCharged-after user ended succeeded db db1 (f a db1) same (k a)
continue_with-IsCharged user ended succeeded db (err e, db1) f same k =
    quota_snapshot-SameQuota user same
