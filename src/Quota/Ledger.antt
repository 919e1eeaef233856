-- ===== src/Quota/Ledger.antt =====
-- The ledger invariant of quota/service.py: which quota entry belongs to a trip, and how the sums
-- of the entries follow the trips.
use travel_web_api.Db.Grants.{TripQuotaEntry}
use travel_web_api.Db.Monad.{Db}
use travel_web_api.Db.Statuses.{EntryStatus, entry_status_eq, entry_status}
use travel_web_api.Db.Trips.{UserTrip}
use travel_web_api.Db.Users.{Uuid}
use travel_web_api.Prelude.{
  if◌then◌else◌, nat_eq, string_eq, ◌=?◌, find, count_where, All, ℕ, ◌≡◌, refl, sym, ◌∙◌, Bool,
  ◌&&◌, none, some, List, arith,
}
use travel_web_api.Quota.Snapshot.{period_type, period_key, units_in}
use travel_web_api.Rows.{
  find-All, All-update, has_key, Distinct, set_row, total-set_row, Distinct-set_row,
}

abbrev pub trip_key : UserTrip → ℕ
trip_key t = t.id

abbrev pub entry_key : TripQuotaEntry → ℕ
entry_key e = e.id

-- The trip's entry is there, belongs to the same user, and has the status that the trip demands.
pub record HasEntry (es : List TripQuotaEntry) (t : UserTrip) (user : Uuid) : Type 0 where
  pub entry : TripQuotaEntry
  pub linked_by : t.quota_entry_id ≡ some entry.id
  pub found : find (has_key entry_key entry.id) es ≡ some entry
  pub of_trip : entry.trip_id ≡ t.id
  pub of_user : entry.user_id ≡ user
  pub one_unit : entry.units ≡ 1
  pub of_type : entry.period_type ≡ period_type
  pub of_key : entry.period_key ≡ period_key
  pub follows : entry.status ≡ entry_status t.status

-- An owned trip has its entry; a trip without a user has none.
pub record IsLinked (es : List TripQuotaEntry) (t : UserTrip) : Type 0 where
  pub owned : (user : Uuid) → t.user_id ≡ some user → HasEntry es t user
  pub unowned : t.user_id ≡ none → t.quota_entry_id ≡ none

-- The user's trips whose entry should have status `s`.
abbrev pub is_trip_in : Uuid → EntryStatus → UserTrip → Bool
is_trip_in user s t = t.user_id =? user && entry_status_eq (entry_status t.status) s

abbrev pub trip_weight : Uuid → EntryStatus → UserTrip → ℕ
trip_weight user s t = if is_trip_in user s t then 1 else 0

pub record Ledger (db : Db) : Type 0 where
  pub trip_ids : Distinct trip_key db.trips
  pub entry_ids : Distinct entry_key db.entries
  pub links : All (IsLinked db.entries) db.trips
  pub balance :
      (user : Uuid) (s : EntryStatus)
      → units_in user s db.entries ≡ count_where (is_trip_in user s) db.trips

-- What a rewrite of a trip leaves alone when it is no settlement.
pub record SameHold (t t' : UserTrip) : Type 0 where
  pub same_id : t'.id ≡ t.id
  pub same_user : t'.user_id ≡ t.user_id
  pub same_entry : t'.quota_entry_id ≡ t.quota_entry_id
  pub same_status : entry_status t'.status ≡ entry_status t.status

pub IsLinked-SameHold :
    {es : List TripQuotaEntry} {t t' : UserTrip} → SameHold t t' → IsLinked es t → IsLinked es t'
IsLinked-SameHold {es} {t} {t'} same link = record {
  owned = λ user own.
      let held : HasEntry es t user = link.owned user (sym same.same_user ∙ own) in
      record {
        entry = held.entry;
        linked_by = same.same_entry ∙ held.linked_by;
        found = held.found;
        of_trip = held.of_trip ∙ sym same.same_id;
        of_user = held.of_user;
        one_unit = held.one_unit;
        of_type = held.of_type;
        of_key = held.of_key;
        follows = held.follows ∙ sym same.same_status;
      };
  unowned = λ none_own. same.same_entry ∙ link.unowned (sym same.same_user ∙ none_own);
}

pub weight_same :
    (user : Uuid) (s : EntryStatus) {t t' : UserTrip}
    → SameHold t t'
    → trip_weight user s t' ≡ trip_weight user s t
weight_same user s same = rw (same.same_user, same.same_status)

-- A rewrite of one trip that is no settlement keeps the ledger.
pub set_row-Ledger :
    (db : Db) {t : UserTrip} (t' : UserTrip)
    → Ledger db
    → find (has_key trip_key t'.id) db.trips ≡ some t
    → SameHold t t'
    → Ledger (record db { trips = set_row trip_key t'.id t' db.trips })
set_row-Ledger db {t} t' h found same = record {
  trip_ids = Distinct-set_row trip_key t'.id t' db.trips refl h.trip_ids;
  entry_ids = h.entry_ids;
  links =
      All-update (IsLinked db.entries) (has_key trip_key t'.id) (λ _. t') db.trips
        (λ x link e.
          IsLinked-SameHold same
            (find-All (IsLinked db.entries) (has_key trip_key t'.id) db.trips found h.links))
        (λ x link e. link) h.links;
  balance = λ user s.
      let moved =
        total-set_row trip_key (λ x. if is_trip_in user s x then 1 else 0) t'.id t' db.trips
          h.trip_ids found in
      omega (arith, h.balance user s, moved, weight_same user s same);
}
