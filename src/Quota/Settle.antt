-- ===== src/Quota/Settle.antt =====
-- settle_trip and update_active_status.
use travel_web_api.Db.Grants.{TripQuotaEntry}
use travel_web_api.Db.Monad.{
  trip_ownership_error, quota_invariant_error, value_error, ok, err, Tx, App, transaction, pure,
  ◌>>◌,
}
use travel_web_api.Db.Statuses.{
  TripStatus, submitting, EntryStatus, consumed, released, is_running, is_success, is_reserved,
  entry_status_eq, is_active_trip, is_terminal, status_text, read_status,
}
use travel_web_api.Db.Tables.{put_trip}
use travel_web_api.Db.Trips.{UserTrip}
use travel_web_api.Db.Users.{Uuid, Time}
use travel_web_api.Prelude.{
  leb, if◌then◌else◌, ◌==◌, nat_eq, string_eq, ◌=?◌, or_else, find, update_where, count_where, ℕ,
  String, ◌≡◌, Bool, true, false, not, ◌&&◌, Option, none, some, List, arith,
}
use travel_web_api.Python.{Python}

pub record SettleCall : Type 0 where
  pub trip_id : Uuid
  pub terminal_status : String
  pub result_record_id : Option ℕ
  pub error_code : Option String
  pub error_message : Option String
  pub error_retryable : Option Bool
  pub owner_id : Option Uuid
  pub now : Time

-- `where(UserTrip.id == trip_id)`, and of the owner where one is given.
abbrev pub is_trip_of : Uuid → Option Uuid → UserTrip → Bool
is_trip_of trip_id none t = t.id == trip_id
is_trip_of trip_id (some owner) t = t.id == trip_id && t.user_id =? owner

abbrev pub settled_entry_status : TripStatus → EntryStatus
settled_entry_status s = if is_success s then consumed else released

-- TripQuotaEntry.id == trip.quota_entry_id, status == "RESERVED"
abbrev pub is_held_by : UserTrip → TripQuotaEntry → Bool
is_held_by t e = t.quota_entry_id =? e.id && is_reserved e.status

abbrev pub settle_entry : TripStatus → Time → TripQuotaEntry → TripQuotaEntry
settle_entry s now e = record e {
  status = settled_entry_status s;
  settle_reason = some (status_text s);
  settled_at = some now;
  updated_at = now;
}

-- The check after an update that changed no row, or more than one.
abbrev pub follows_terminal : TripStatus → UserTrip → List TripQuotaEntry → Bool
follows_terminal s t es = elim (find (λ e. t.quota_entry_id =? e.id) es) [
  | none ↦ false
  | some e ↦ entry_status_eq e.status (settled_entry_status s)
]

unfoldable pub settle_entries : TripStatus → Time → UserTrip → Tx Unit
settle_entries s now t db =
    let changed = count_where (is_held_by t) db.entries in
    let entries' = update_where (is_held_by t) (settle_entry s now) db.entries in
    if not (changed == 1) && not (follows_terminal s t entries')
    then err (quota_invariant_error "quota entry cannot follow terminal trip")
    else ok (tt, record db { entries = entries' })

abbrev pub unless_success {ℓ} : {A : Type ℓ} → TripStatus → Option A → Option A
unless_success s o = if is_success s then none else o

abbrev pub settle_row : SettleCall → TripStatus → UserTrip → UserTrip
settle_row c s t = record t {
  status = s;
  result_record_id = if is_success s then c.result_record_id else none;
  error_code = unless_success s c.error_code;
  error_message = unless_success s c.error_message;
  error_retryable = unless_success s c.error_retryable;
  finished_at = some c.now;
  updated_at = c.now;
}

-- The branch for a trip that has not ended.
unfoldable pub settle_active : SettleCall → TripStatus → UserTrip → Tx UserTrip
settle_active c s t = do
  settle_entries s c.now t
  put_trip (settle_row c s t)
  pure (settle_row c s t)

unfoldable pub settle_body : SettleCall → TripStatus → Tx UserTrip
settle_body c s db = elim (find (is_trip_of c.trip_id c.owner_id) db.trips) [
  | none ↦ err trip_ownership_error
  | some t ↦ if is_terminal t.status then ok (t, db) else settle_active c s t db
]

-- `terminal_status.upper()`, if it is one of TERMINAL_TRIP_STATUSES.
unfoldable pub read_terminal : Python → String → Option TripStatus
read_terminal py raw = elim (read_status (py.upper raw)) [
  | none ↦ none
  | some s ↦ if is_terminal s then some s else none
]

unfoldable pub settle_trip : Python → SettleCall → App UserTrip
settle_trip py c db = elim (read_terminal py c.terminal_status) [
  | none ↦ (err (value_error "terminal status required"), db)
  | some s ↦ transaction (settle_body c s) db
]

-- `{"SUBMITTING": 0, "PENDING": 1, "RUNNING": 2}`, asked only of a trip that has not ended.
abbrev pub rank : TripStatus → ℕ
rank submitting = 0
rank TripStatus.pending = 1
rank _ = 2

unfoldable pub read_active : Python → String → Option TripStatus
read_active py raw = elim (read_status (py.upper raw)) [
  | none ↦ none
  | some s ↦ if is_active_trip s then some s else none
]

abbrev pub progress_row : TripStatus → Time → UserTrip → UserTrip
progress_row s now t = record t {
  status = s;
  started_at = or_else t.started_at (if is_running s then some now else none);
  updated_at = now;
}

unfoldable pub progress_body : Uuid → TripStatus → Option Uuid → Time → Tx UserTrip
progress_body trip_id s owner now db = elim (find (is_trip_of trip_id owner) db.trips) [
  | none ↦ err trip_ownership_error
  | some t ↦
      if not (is_terminal t.status) && leb (rank t.status) (rank s)
      then (do put_trip (progress_row s now t); pure (progress_row s now t)) db
      else ok (t, db)
]

unfoldable pub update_active_status : Python → Uuid → String → Option Uuid → Time → App UserTrip
update_active_status py trip_id status owner now db = elim (read_active py status) [
  | none ↦ (err (value_error "active status required"), db)
  | some s ↦ transaction (progress_body trip_id s owner now) db
]

pub read_terminal_ends :
    (py : Python) (raw : String) (s : TripStatus)
    → read_terminal py raw ≡ some s
    → is_terminal s ≡ true
unfolding read_terminal
read_terminal_ends py raw s h = ground arith

pub read_active_lives :
    (py : Python) (raw : String) (s : TripStatus)
    → read_active py raw ≡ some s
    → is_active_trip s ≡ true
unfolding read_active
read_active_lives py raw s h = ground arith
