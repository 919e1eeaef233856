-- ===== src/Quota/SettleLedger.antt =====
-- A settlement keeps the ledger: the trip and its entry end together.
use travel_web_api.Db.Grants.{TripQuotaEntry}
use travel_web_api.Db.Monad.{Db, quota_invariant_error, ok, err, >>=-eq-ok}
use travel_web_api.Db.Statuses.{TripStatus, EntryStatus, reserved, is_terminal}
use travel_web_api.Db.Tables.{put_trip, put_trip-eq-ok}
use travel_web_api.Db.Trips.{UserTrip}
use travel_web_api.Db.Users.{Uuid, Time}
use travel_web_api.Prelude.{
  if◌then◌else◌, nat_eq, string_eq, ◌=?◌, Option-cases, find, any, update_where, ℕ, ◌≡◌, refl, sym,
  ap, ◌∙◌, subst, ◌≢◌, inl, inr, true, false, none, some, List, [], ◌∷◌, arith,
}
use travel_web_api.Quota.Ledger.{trip_key, entry_key, HasEntry, IsLinked, trip_weight, Ledger}
use travel_web_api.Quota.Settle.{
  SettleCall, is_held_by, settle_entry, follows_terminal, settle_entries, settle_row, settle_active,
}
use travel_web_api.Quota.Snapshot.{is_entry_of}
use travel_web_api.Rows.{
  some_eq, find-All, All-update, update_where-none, has_key, Distinct, set_row, total-set_row,
  find-set_row_self, find-set_row_ne, Distinct-set_row, update_where-one,
}

abbrev pub entry_weight : Uuid → EntryStatus → TripQuotaEntry → ℕ
entry_weight user s e = if is_entry_of user s e then e.units else 0

-- An owned trip and its entry count alike.
weight_linked :
    {es : List TripQuotaEntry} {t : UserTrip} {own : Uuid} (user : Uuid) (s : EntryStatus)
    (held : HasEntry es t own)
    → t.user_id ≡ some own
    → entry_weight user s held.entry ≡ trip_weight user s t
weight_linked {t = t} {own = own} user s held e =
    rw (held.of_user, held.of_type, held.of_key, held.follows, held.one_unit, e) (ground arith)

no_entry :
    (t : UserTrip) (es : List TripQuotaEntry)
    → t.quota_entry_id ≡ none
    → any (is_held_by t) es ≡ false
no_entry t [] h = refl
no_entry t (e ∷ es) h = ground (arith, no_entry t es h)

no_follow :
    (t : UserTrip) (es : List TripQuotaEntry)
    → t.quota_entry_id ≡ none
    → find (λ e. t.quota_entry_id =? e.id) es ≡ none
no_follow t [] h = refl
no_follow t (e ∷ es) h = ground (arith, no_follow t es h)

-- Without an entry a settlement is refused.
pub settle_entries_unowned :
    (s : TripStatus) (now : Time) (t : UserTrip) (db : Db)
    → t.quota_entry_id ≡ none
    → settle_entries s now t db
      ≡ err (quota_invariant_error "quota entry cannot follow terminal trip")
unfolding settle_entries
settle_entries_unowned s now t db h =
    let none_held =
      update_where-none (is_held_by t) (settle_entry s now) db.entries (no_entry t db.entries h) in
    let none_found = no_follow t (update_where (is_held_by t) (settle_entry s now) db.entries) h in
    rw (none_held.1, none_found, follows_terminal)

-- With its entry reserved, a settlement changes that entry and no other.
pub settle_entries_held :
    (s : TripStatus) (now : Time) (t : UserTrip) (e : TripQuotaEntry) (db : Db)
    → Distinct entry_key db.entries
    → find (has_key entry_key e.id) db.entries ≡ some e
    → t.quota_entry_id ≡ some e.id
    → e.status ≡ reserved
    → settle_entries s now t db
      ≡ ok (tt, record db { entries = set_row entry_key e.id (settle_entry s now e) db.entries })
unfolding settle_entries
settle_entries_held s now t e db distinct found linked_by held =
    let one =
      update_where-one entry_key (is_held_by t) (settle_entry s now) e.id db.entries
        (λ y p. ground arith) distinct found (ground arith) in
    rw (one.0, one.1)

-- The entry of another trip is another entry, and stays as it is.
IsLinked-settle :
    {es : List TripQuotaEntry} {x : UserTrip} (e e' : TripQuotaEntry)
    → find (has_key entry_key e.id) es ≡ some e
    → e'.id ≡ e.id
    → x.id ≢ e.trip_id
    → IsLinked es x
    → IsLinked (set_row entry_key e.id e' es) x
IsLinked-settle {es} {x} e e' found same_id other link = record {
  owned = λ user own.
      let held : HasEntry es x user = link.owned user own in
      let apart : held.entry.id ≢ e.id = λ same.
        let first : held.entry ≡ e = cc (held.found, found, same) in
        other (sym held.of_trip ∙ ap (λ (y : TripQuotaEntry). y.trip_id) first) in
      record {
        entry = held.entry;
        linked_by = held.linked_by;
        found = find-set_row_ne entry_key held.entry.id e.id e' es same_id apart ∙ held.found;
        of_trip = held.of_trip;
        of_user = held.of_user;
        one_unit = held.one_unit;
        of_type = held.of_type;
        of_key = held.of_key;
        follows = held.follows;
      };
  unowned = link.unowned;
}

-- The two updates of a settlement, on a trip and its reserved entry.
abbrev pub settled_db : SettleCall → TripStatus → UserTrip → TripQuotaEntry → Db → Db
settled_db c s t e db = record db {
  entries = set_row entry_key e.id (settle_entry s c.now e) db.entries;
  trips = set_row trip_key t.id (settle_row c s t) db.trips;
}

pub settled_db-Ledger :
    (c : SettleCall) (s : TripStatus) (t : UserTrip) (own : Uuid) (db : Db)
    (held : HasEntry db.entries t own)
    → Ledger db
    → is_terminal s ≡ true
    → t.user_id ≡ some own
    → find (has_key trip_key t.id) db.trips ≡ some t
    → Ledger (settled_db c s t held.entry db)
settled_db-Ledger c s t own db held h ended own_eq found =
    let e = held.entry in
    let e' = settle_entry s c.now e in
    let t' = settle_row c s t in
    let es' = set_row entry_key e.id e' db.entries in
    let held' : HasEntry es' t' own = record {
      entry = e';
      linked_by = held.linked_by;
      found = find-set_row_self entry_key e.id e' db.entries refl held.found;
      of_trip = held.of_trip;
      of_user = held.of_user;
      one_unit = held.one_unit;
      of_type = held.of_type;
      of_key = held.of_key;
      follows = ground arith;
    } in
    record {
      trip_ids = Distinct-set_row trip_key t.id t' db.trips refl h.trip_ids;
      entry_ids = Distinct-set_row entry_key e.id e' db.entries refl h.entry_ids;
      links =
          All-update (IsLinked es') (has_key trip_key t.id) (λ _. t') db.trips
            (λ x link p. record {
              owned = λ user mine. subst (HasEntry es' t') (some_eq (sym own_eq ∙ mine)) held';
              unowned = λ nobody. cc;
            })
            (λ x link p. IsLinked-settle e e' held.found refl (ground (arith, held.of_trip)) link)
            h.links;
      balance = λ user st. omega (
        arith,
        h.balance user st,
        total-set_row entry_key (entry_weight user st) e.id e' db.entries h.entry_ids held.found,
        total-set_row trip_key (trip_weight user st) t.id t' db.trips h.trip_ids found,
        weight_linked user st held own_eq,
        weight_linked user st held' own_eq,
      );
    }

-- What a settlement that returns has done to a trip with its entry, which it must have had.
pub settle_active-eq-ok :
    (c : SettleCall) (s : TripStatus) (t : UserTrip) (db : Db) {r : UserTrip} {db' : Db}
    → Ledger db
    → find (has_key trip_key t.id) db.trips ≡ some t
    → is_terminal t.status ≡ false
    → settle_active c s t db ≡ ok (r, db')
    → (own : Uuid) × (held : HasEntry db.entries t own) × (t.user_id ≡ some own)
      × (r ≡ settle_row c s t)
      × (db' ≡ settled_db c s t held.entry db)
unfolding settle_active
settle_active-eq-ok c s t db h found running_still e =
    let link : IsLinked db.entries t =
      find-All (IsLinked db.entries) (has_key trip_key t.id) db.trips found h.links in
    let (_, db1, e1, k1) = >>=-eq-ok (settle_entries s c.now t) _ db e in
    let (_, db2, e2, k2) = >>=-eq-ok (put_trip (settle_row c s t)) _ db1 k1 in
    let (_, e3) = put_trip-eq-ok (settle_row c s t) db1 e2 in
    elim (Option-cases t.user_id) [
      | inl nobody ↦ absurd (cc (e1, settle_entries_unowned s c.now t db (link.unowned nobody)))
      | inr (own, mine) ↦
          let held : HasEntry db.entries t own = link.owned own mine in
          let reserved_still : held.entry.status ≡ reserved = ground (arith, held.follows) in
          let same =
            settle_entries_held s c.now t held.entry db h.entry_ids held.found held.linked_by
              reserved_still in
          (own, held, mine, cc, cc (e1, same, e3, k2))
    ]
