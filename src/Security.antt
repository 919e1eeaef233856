-- ===== src/Security.antt =====
-- security/secrets.py, and the fields of config.py that the services read.
use travel_web_api.Db.Users.{Digest}
use travel_web_api.Prelude.{string_eq, nat_eq, ◌==◌, ◌<>◌, ℕ, String, Bool, Option, List}
use travel_web_api.Python.{Python}

pub record Settings : Type 0 where
  pub secret_hash_pepper : String
  pub session_days : ℕ
  pub session_last_seen_write_seconds : ℕ
  pub otp_expiry_seconds : ℕ
  pub otp_max_attempts : ℕ
  pub otp_resend_seconds : ℕ
  pub otp_rate_window_seconds : ℕ
  pub otp_per_email_limit : ℕ
  pub otp_per_ip_limit : ℕ
  pub otp_global_limit : ℕ
  pub beta_quota_limit : ℕ
  pub trip_history_days : ℕ
  pub admin_owner_user_id : Option ℕ
  pub reconciliation_max_attempts : ℕ
  pub reconciliation_batch_size : ℕ
  pub redaction_secrets : List String

-- The message is `f"{purpose}\0{raw}"`.
unfoldable pub hash_secret : Python → String → String → String → Digest
hash_secret py raw purpose pepper = py.hmac pepper (purpose <> "\0" <> raw)

abbrev pub secret_matches : Python → String → Digest → String → String → Bool
secret_matches py raw expected purpose pepper = hash_secret py raw purpose pepper == expected

-- `_hash` of auth/service.py
abbrev pub hash : Python → Settings → String → String → Digest
hash py settings raw purpose = hash_secret py raw purpose settings.secret_hash_pepper
