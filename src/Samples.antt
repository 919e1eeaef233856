-- ===== src/Samples.antt =====
-- A small database and stand-ins for Python's functions, for the runs in the Tests modules.
use travel_web_api.Db.Grants.{QuotaGrant}
use travel_web_api.Db.Monad.{Db}
use travel_web_api.Db.Statuses.{UserStatus, Role}
use travel_web_api.Db.Users.{Uuid, AppUser}
use travel_web_api.Json.{Json}
use travel_web_api.Prelude.{String, refl, Option, none, some, [], ◌∷◌, arith}
use travel_web_api.Prelude.Int.{ℤ, ◌+ℤ◌}
use travel_web_api.Python.{Python}
use travel_web_api.Quota.Ledger.{Ledger}
use travel_web_api.Quota.Limits.{IsWithin}
use travel_web_api.Quota.Snapshot.{quota_snapshot}
use travel_web_api.Quota.Solvency.{IsSound}
use travel_web_api.Security.{Settings}

abbrev pub upper_same : String → String
upper_same s = s

abbrev pub text_or_empty : Json → String
text_or_empty (Json.text s) = s
text_or_empty _ = ""

abbrev pub int_or_none : Json → Option ℤ
int_or_none (Json.num n) = some n
int_or_none _ = none

abbrev pub sample_py : Python
sample_py = record {
  upper = upper_same;
  strip = upper_same;
  casefold = upper_same;
  text_of = text_or_empty;
  int_of = int_or_none;
  hmac = λ k m. 7;
}

abbrev pub guest : AppUser
guest = record {
  id = 1;
  public_id = "usr_1";
  status = UserStatus.active;
  role = Role.user;
  display_name = "Guest";
  display_name_normalized = "guest";
  display_name_changed_at = none;
  created_at = 0;
  updated_at = 0;
}

abbrev pub beta_grant : QuotaGrant
beta_grant = record {
  id = 5;
  user_id = 1;
  period_type = "BETA_LIFETIME";
  period_key = "v0.1-beta";
  units = 2;
  reason = "INITIAL_REGISTRATION";
  idempotency_key = "initial-registration";
  created_at = 0;
}

abbrev pub sample_db : Db
sample_db = record {
  users = guest ∷ [];
  quarantine = [];
  identities = [];
  batches = [];
  invitations = [];
  challenges = [];
  redemptions = [];
  sessions = [];
  grants = beta_grant ∷ [];
  claims = [];
  adjustments = [];
  audit = [];
  trips = [];
  entries = [];
  projections = [];
  steps = [];
  events = [];
  consumer = none;
}

abbrev pub sample_settings : Settings
sample_settings = record {
  secret_hash_pepper = "pepper";
  session_days = 7;
  session_last_seen_write_seconds = 3_600;
  otp_expiry_seconds = 600;
  otp_max_attempts = 5;
  otp_resend_seconds = 60;
  otp_rate_window_seconds = 3_600;
  otp_per_email_limit = 5;
  otp_per_ip_limit = 20;
  otp_global_limit = 1_000;
  beta_quota_limit = 3;
  trip_history_days = 7;
  admin_owner_user_id = some 9;
  reconciliation_max_attempts = 3;
  reconciliation_batch_size = 20;
  redaction_secrets = "pepper" ∷ [];
}

pub sample_db-Ledger : Ledger sample_db
sample_db-Ledger = record { trip_ids = tt; entry_ids = tt; links = tt; balance = λ user s. refl }

sample_db-IsWithin : (user : Uuid) → IsWithin (quota_snapshot user sample_db)
unfolding quota_snapshot ◌+ℤ◌
sample_db-IsWithin user = ground arith

pub sample_db-IsSound : IsSound sample_db
sample_db-IsSound = record {
  ledger = sample_db-Ledger;
  solvent = record { within = sample_db-IsWithin };
}
