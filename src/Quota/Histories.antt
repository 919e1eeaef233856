-- ===== src/Quota/Histories.antt =====
-- Every call of quota/service.py changes a trip by no more than Quota/Evolution.antt says.
use travel_web_api.Db.Monad.{Db, ok, pure, ◌>>◌, ok_eq, >>=-eq-ok}
use travel_web_api.Db.Statuses.{TripStatus, is_terminal}
use travel_web_api.Db.Tables.{put_trip}
use travel_web_api.Db.Trips.{UserTrip}
use travel_web_api.Db.Users.{Uuid, Time}
use travel_web_api.Prelude.{
  leb, Bool-cases, Option-cases, find, String, ◌≡◌, refl, sym, ap, ◌∙◌, subst, ◌⊎◌, inl, inr, false,
  not, ◌&&◌, Option, some, arith, eq_iff,
}
use travel_web_api.Quota.Accept.{accept_row, associate_job, accept_active, other_job, accept_body}
use travel_web_api.Quota.Evolution.{Evolves, Keeps, Keeps-trips, Keeps-set_row, Keeps-put_trip}
use travel_web_api.Quota.Ledger.{trip_key, Ledger}
use travel_web_api.Quota.Settle.{
  SettleCall, is_trip_of, settle_row, settle_active, settle_body, rank, progress_row, progress_body,
}
use travel_web_api.Quota.SettleLedger.{settle_active-eq-ok}
use travel_web_api.Rows.{has_key, set_row, find_key}

-- A status update that returns leaves the database, or moves a trip that is not over forward.
progress_body-eq-ok :
    (trip_id : Uuid) (s : TripStatus) (owner : Option Uuid) (now : Time) (db : Db) {r : UserTrip}
    {db' : Db}
    → progress_body trip_id s owner now db ≡ ok (r, db')
    → (db' ≡ db)
      ⊎ ((t : UserTrip) × (find (is_trip_of trip_id owner) db.trips ≡ some t)
          × (is_terminal t.status ≡ false)
          × (put_trip (progress_row s now t) db ≡ ok (tt, db')))
unfolding progress_body
progress_body-eq-ok trip_id s owner now db {r} {db'} e =
    elim (Option-cases (find (is_trip_of trip_id owner) db.trips)) [
      | inl missing ↦ absurd (ground arith)
      | inr (t, is_found) ↦
          elim (Bool-cases (not (is_terminal t.status) && leb (rank t.status) (rank s))) [
            | inl forward ↦
                let row = progress_row s now t in
                let written : (put_trip row >> pure row) db ≡ ok (r, db') = ground arith in
                let (_, db1, e1, k1) = >>=-eq-ok (put_trip row) _ db written in
                inr (
                  t,
                  is_found,
                  ground (arith, forward),
                  e1 ∙ ap (λ (x : UserTrip × Db). ok (tt, x.1)) (ok_eq k1),
                )
            | inr stale ↦ inl (ground arith)
          ]
    ]

-- An acceptance that returns leaves the database, or binds a trip that is not over to its job.
accept_body-eq-ok :
    (trip_id : Uuid) (job : String) (s : TripStatus) (now : Time) (db : Db) {r : UserTrip}
    {db' : Db}
    → accept_body trip_id job s now db ≡ ok (r, db')
    → (db' ≡ db)
      ⊎ ((t : UserTrip) × (db1 : Db) × (find (has_key trip_key trip_id) db.trips ≡ some t)
          × (other_job t job ≡ false)
          × (is_terminal t.status ≡ false)
          × (put_trip (accept_row job s now t) db ≡ ok (tt, db1))
          × (db' ≡ associate_job job (accept_row job s now t) now db1))
unfolding accept_body accept_active
accept_body-eq-ok trip_id job s now db {r} {db'} e =
    elim (Option-cases (find (has_key trip_key trip_id) db.trips)) [
      | inl missing ↦ absurd (ground arith)
      | inr (t, is_found) ↦ elim (Bool-cases (other_job t job)) [
        | inl other ↦ absurd (ground arith)
        | inr mine ↦ elim (Bool-cases (is_terminal t.status)) [
          | inl over ↦ inl (ground arith)
          | inr live ↦
              let row = accept_row job s now t in
              let written : accept_active job s now t db ≡ ok (r, db') = ground arith in
              let (_, db1, e1, k1) = >>=-eq-ok (put_trip row) _ db written in
              inr (t, db1, is_found, mine, live, e1, cc k1)
        ]
      ]
    ]

Evolves-progress :
    (s : TripStatus) (now : Time) (t : UserTrip)
    → is_terminal t.status ≡ false
    → Evolves t (progress_row s now t)
Evolves-progress s now t live = record {
  same_public_id = refl;
  same_owner = refl;
  same_request = refl;
  same_hash = refl;
  same_entry = refl;
  bound = λ job e. e;
  final = λ over. cc;
  final_result = λ over. refl;
  final_error = λ over. refl;
}

Evolves-accept :
    (job : String) (s : TripStatus) (now : Time) (t : UserTrip)
    → other_job t job ≡ false
    → is_terminal t.status ≡ false
    → Evolves t (accept_row job s now t)
Evolves-accept job s now t mine live = record {
  same_public_id = refl;
  same_owner = refl;
  same_request = refl;
  same_hash = refl;
  same_entry = refl;
  bound = λ j e. ground (arith, mine, eq_iff j job);
  final = λ over. cc;
  final_result = λ over. refl;
  final_error = λ over. refl;
}

Evolves-settle :
    (c : SettleCall) (s : TripStatus) (t : UserTrip)
    → is_terminal t.status ≡ false
    → Evolves t (settle_row c s t)
Evolves-settle c s t live = record {
  same_public_id = refl;
  same_owner = refl;
  same_request = refl;
  same_hash = refl;
  same_entry = refl;
  bound = λ job e. e;
  final = λ over. cc;
  final_result = λ over. cc;
  final_error = λ over. cc;
}

module _ (t : UserTrip) where
  pub progress_body-Keeps :
      (trip_id : Uuid) (s : TripStatus) (owner : Option Uuid) (now : Time) (db : Db) {r : UserTrip}
      {db' : Db}
      → Ledger db
      → Keeps t db
      → progress_body trip_id s owner now db ≡ ok (r, db')
      → Keeps t db'
  progress_body-Keeps trip_id s owner now db h k e =
      elim (progress_body-eq-ok trip_id s owner now db e) [
        | inl same ↦ subst (Keeps t) (sym same) k
        | inr (x, is_found, live, written) ↦
            Keeps-put_trip db x (progress_row s now x) refl
              (find_key trip_key (is_trip_of trip_id owner) db.trips h.trip_ids is_found)
              (Evolves-progress s now x live) k written
      ]

  pub accept_body-Keeps :
      (trip_id : Uuid) (job : String) (s : TripStatus) (now : Time) (db : Db) {r : UserTrip}
      {db' : Db}
      → Ledger db
      → Keeps t db
      → accept_body trip_id job s now db ≡ ok (r, db')
      → Keeps t db'
  accept_body-Keeps trip_id job s now db h k e = elim (accept_body-eq-ok trip_id job s now db e) [
    | inl same ↦ subst (Keeps t) (sym same) k
    | inr (x, db1, is_found, mine, live, written, same) ↦
        Keeps-trips db1 _ (ap (λ (d : Db). d.trips) same) (
          Keeps-put_trip db x (accept_row job s now x) refl
            (find_key trip_key (has_key trip_key trip_id) db.trips h.trip_ids is_found)
            (Evolves-accept job s now x mine live) k written)
  ]

  pub settle_body-Keeps :
      (c : SettleCall) (s : TripStatus) (db : Db) {r : UserTrip} {db' : Db}
      → Ledger db
      → Keeps t db
      → settle_body c s db ≡ ok (r, db')
      → Keeps t db'
  unfolding settle_body
  settle_body-Keeps c s db {r} {db'} h k e =
      elim (Option-cases (find (is_trip_of c.trip_id c.owner_id) db.trips)) [
        | inl missing ↦ absurd (ground arith)
        | inr (x, is_found) ↦ elim (Bool-cases (is_terminal x.status)) [
          | inl over ↦ let same : db' ≡ db = ground arith in subst (Keeps t) (sym same) k
          | inr live ↦
              let found =
                find_key trip_key (is_trip_of c.trip_id c.owner_id) db.trips h.trip_ids is_found in
              let done : settle_active c s x db ≡ ok (r, db') = ground arith in
              let (_, _, _, _, same) =
                settle_active-eq-ok c s x db {r = r} {db' = db'} h found live done in
              Keeps-trips (record db { trips = set_row trip_key x.id (settle_row c s x) db.trips })
                db' (ap (λ (d : Db). d.trips) same)
                (Keeps-set_row db x (settle_row c s x) refl found (Evolves-settle c s x live) k)
        ]
      ]
