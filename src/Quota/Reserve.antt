-- ===== src/Quota/Reserve.antt =====
-- reserve_trip, and the two queries by which a user's own trip is found.
use travel_web_api.Db.Grants.{TripQuotaEntry}
use travel_web_api.Db.Monad.{
  request_id_conflict, quota_exhausted, trip_ownership_error, active_trip_conflict, value_error,
  key_error, ok, err, Tx, App, transaction, pure, raise, ◌>>=◌, ◌>>◌,
}
use travel_web_api.Db.Statuses.{submitting, reserved, is_active_user, is_success, is_active_trip}
use travel_web_api.Db.Tables.{insert_trip, put_trip, insert_entry}
use travel_web_api.Db.Trips.{UserTrip}
use travel_web_api.Db.Users.{Uuid, Time}
use travel_web_api.Json.{Json, JsonObject, get}
use travel_web_api.Prelude.{
  ltb, if◌then◌else◌, ◌==◌, nat_eq, string_eq, ◌=?◌, find, ℕ, ◌+◌, String, Bool, true, false, not,
  ◌&&◌, Option, none, some, [],
}
use travel_web_api.Prelude.Int.{ℤ}
use travel_web_api.Python.{Python, days}
use travel_web_api.Quota.Snapshot.{
  period_type, period_key, QuotaSnapshot, remaining, quota_snapshot,
}

pub record Reservation : Type 0 where
  pub trip : UserTrip
  pub created : Bool
  pub quota : QuotaSnapshot

-- The arguments of reserve_trip, and what it draws: the time, two UUIDs and an opaque id.
pub record ReserveCall : Type 0 where
  pub user_id : Uuid
  pub client_request_id : String
  pub request_hash : String
  pub request_json : JsonObject
  pub request_field_provenance : JsonObject
  pub trip_history_days : ℕ
  pub now : Time
  pub trip_id : Uuid
  pub quota_id : Uuid
  pub public_id : String

-- `request_json["to_city"]` raises KeyError where the key is absent.
abbrev pub item : JsonObject → String → Tx Json
item d k = elim (get d k) [ none ↦ raise (key_error k) | some v ↦ pure v ]

abbrev pub int_item : Python → Json → Tx ℤ
int_item py v = elim (py.int_of v) [ none ↦ raise (value_error "int") | some n ↦ pure n ]

abbrev pub new_trip : ReserveCall → String → ℤ → UserTrip
new_trip c city day_count = record {
  id = c.trip_id;
  public_id = c.public_id;
  user_id = some c.user_id;
  client_request_id = c.client_request_id;
  request_hash = c.request_hash;
  request_json = c.request_json;
  city = city;
  days = day_count;
  status = submitting;
  hermes_job_id = none;
  result_record_id = none;
  quota_entry_id = none;
  error_code = none;
  error_message = none;
  error_retryable = none;
  telemetry_json = [];
  created_at = c.now;
  started_at = none;
  finished_at = none;
  updated_at = c.now;
  visible_until = c.now + days c.trip_history_days;
  archived_at = none;
  identity_erased_at = none;
  association_version = 1;
  request_field_provenance = c.request_field_provenance;
  reconciliation_attempts = 0;
  last_reconciled_at = none;
}

abbrev pub new_entry : ReserveCall → TripQuotaEntry
new_entry c = record {
  id = c.quota_id;
  user_id = c.user_id;
  trip_id = c.trip_id;
  period_type = period_type;
  period_key = period_key;
  units = 1;
  status = reserved;
  reserve_reason = "TRIP_SUBMISSION";
  settle_reason = none;
  created_at = c.now;
  settled_at = none;
  updated_at = c.now;
}

-- The trip, its entry, and the link between them.
unfoldable pub insert_rows : ReserveCall → UserTrip → Tx UserTrip
insert_rows c trip = do
  insert_trip trip
  insert_entry (new_entry c)
  let linked_trip = record trip { quota_entry_id = some c.quota_id }
  put_trip linked_trip
  pure linked_trip

-- Lines from `trip_id = uuid.uuid4()` on.
unfoldable pub insert_reservation : Python → ReserveCall → QuotaSnapshot → Tx Reservation
insert_reservation py c before = do
  city ← item c.request_json "to_city"
  day_item ← item c.request_json "days"
  day_count ← int_item py day_item
  trip ← insert_rows c (new_trip c (py.text_of city) day_count)
  pure (record {
    trip = trip;
    created = true;
    quota = record before { reserved_units = before.reserved_units + 1 };
  })

abbrev pub is_request_of : Uuid → String → UserTrip → Bool
is_request_of user request_id t = t.user_id =? user && t.client_request_id == request_id

abbrev pub is_active_trip_of : Uuid → UserTrip → Bool
is_active_trip_of user t = t.user_id =? user && is_active_trip t.status

abbrev pub is_success_trip_of : Uuid → UserTrip → Bool
is_success_trip_of user t = t.user_id =? user && is_success t.status

-- Without an earlier request of that id: no other active trip, and a unit left.
unfoldable pub reserve_new : Python → ReserveCall → Tx Reservation
reserve_new py c db = elim (find (is_active_trip_of c.user_id) db.trips) [
  | some t ↦ err (active_trip_conflict t.public_id t.hermes_job_id t.status)
  | none ↦
      let before = quota_snapshot c.user_id db in
      if ltb (remaining before) 1 then err quota_exhausted else insert_reservation py c before db
]

-- An earlier request of that id is answered again if it asked for the same.
unfoldable pub reserve_again : ReserveCall → UserTrip → Tx Reservation
reserve_again c t db =
    if not (t.request_hash == c.request_hash)
    then err request_id_conflict
    else ok (record { trip = t; created = false; quota = quota_snapshot c.user_id db }, db)

unfoldable pub reserve_body : Python → ReserveCall → Tx Reservation
reserve_body py c db = elim (find (λ u. u.id == c.user_id) db.users) [
  | none ↦ err trip_ownership_error
  | some u ↦
      if not (is_active_user u.status)
      then err trip_ownership_error
      else elim (find (is_request_of c.user_id c.client_request_id) db.trips) [
        | some t ↦ reserve_again c t db
        | none ↦ reserve_new py c db
      ]
]

unfoldable pub reserve_trip : Python → ReserveCall → App Reservation
reserve_trip py c = transaction (reserve_body py c)

unfoldable pub owned_trip_by_job : Uuid → String → Tx UserTrip
owned_trip_by_job user job db =
    elim (find (λ t. t.user_id =? user && t.hermes_job_id =? job) db.trips) [
      | none ↦ err trip_ownership_error
      | some t ↦ ok (t, db)
    ]

abbrev pub job_matches : Option String → UserTrip → Bool
job_matches none t = true
job_matches (some job) t = t.hermes_job_id =? job

unfoldable pub owned_success_trip_by_result : Uuid → ℕ → Option String → Tx UserTrip
owned_success_trip_by_result user result job db =
    elim (find
      (λ t.
        t.user_id =? user
        && t.result_record_id =? result
        && is_success t.status
        && job_matches job t)
      db.trips) [ none ↦ err trip_ownership_error | some t ↦ ok (t, db) ]
