-- ===== src/Quota/Snapshot.antt =====
-- quota_snapshot: the units granted, adjusted, reserved and consumed by one user.
use travel_web_api.Db.Grants.{QuotaGrant, QuotaAdjustment, TripQuotaEntry}
use travel_web_api.Db.Monad.{Db}
use travel_web_api.Db.Statuses.{EntryStatus, reserved, consumed, entry_status_eq}
use travel_web_api.Db.Users.{Uuid}
use travel_web_api.Prelude.{
  if◌then◌else◌, ◌==◌, nat_eq, string_eq, ◌=?◌, total, ℕ, String, Bool, ◌&&◌, List, [], ◌∷◌,
}
use travel_web_api.Prelude.Int.{ℤ, pos, ◌+ℤ◌, ◌-ℤ◌, max_zero}

abbrev pub period_type : String
period_type = "BETA_LIFETIME"

abbrev pub period_key : String
period_key = "v0.1-beta"

pub record QuotaSnapshot : Type 0 where
  pub limit : ℤ
  pub reserved_units : ℕ
  pub consumed_units : ℕ

-- QuotaSnapshot.remaining, `max(limit - reserved - consumed, 0)`
abbrev pub remaining : QuotaSnapshot → ℕ
remaining q = max_zero (q.limit -ℤ pos q.reserved_units -ℤ pos q.consumed_units)

-- QuotaGrant.user_id == user_id, period_type == PERIOD_TYPE, period_key == PERIOD_KEY
abbrev pub is_grant_of : Uuid → QuotaGrant → Bool
is_grant_of user g = g.user_id == user && g.period_type == period_type && g.period_key == period_key

abbrev pub granted : Uuid → List QuotaGrant → ℕ
granted user = total (λ g. if is_grant_of user g then g.units else 0)

abbrev pub adjusted : Uuid → List QuotaAdjustment → ℤ
adjusted user [] = pos 0
adjusted user (a ∷ as') = (if a.target_user_id =? user then a.delta else pos 0) +ℤ adjusted user as'

abbrev pub is_entry_of : Uuid → EntryStatus → TripQuotaEntry → Bool
is_entry_of user s e =
    e.user_id == user
    && e.period_type == period_type
    && e.period_key == period_key
    && entry_status_eq e.status s

-- One row of the query that sums the entries by status.
abbrev pub units_in : Uuid → EntryStatus → List TripQuotaEntry → ℕ
units_in user s = total (λ e. if is_entry_of user s e then e.units else 0)

unfoldable pub quota_snapshot : Uuid → Db → QuotaSnapshot
quota_snapshot user db = record {
  limit = pos (granted user db.grants) +ℤ adjusted user db.adjustments;
  reserved_units = units_in user reserved db.entries;
  consumed_units = units_in user consumed db.entries;
}
