-- ===== src/Db/Statuses.antt =====
-- The closed sets of texts that the check constraints of db/models.py allow in a status column.
use travel_web_api.Prelude.{
  if◌then◌else◌, ◌==◌, nat_eq, string_eq, String, ◌≡◌, refl, Bool, true, false, Option, none, some,
}

-- app_user.status
pub data UserStatus : Type 0 where
  active disabled : UserStatus

-- app_user.role
pub data Role : Type 0 where
  user admin : Role

-- email_otp_challenge.mode
pub data Mode : Type 0 where
  login register closure : Mode

-- email_otp_challenge.purpose
pub data Purpose : Type 0 where
  email_auth account_closure : Purpose

-- email_otp_challenge.delivery_status
pub data Delivery : Type 0 where
  pending sent failed : Delivery

-- user_trip.status
pub data TripStatus : Type 0 where
  submitting pending running success failed timeout rejected : TripStatus

-- trip_quota_entry.status
pub data EntryStatus : Type 0 where
  reserved consumed released : EntryStatus

-- admin_idempotency.state
pub data ClaimState : Type 0 where
  in_progress succeeded : ClaimState

abbrev pub is_active_user : UserStatus → Bool
is_active_user UserStatus.active = true
is_active_user UserStatus.disabled = false

abbrev pub is_admin : Role → Bool
is_admin Role.admin = true
is_admin Role.user = false

abbrev pub is_email_auth : Purpose → Bool
is_email_auth email_auth = true
is_email_auth account_closure = false

abbrev pub is_account_closure : Purpose → Bool
is_account_closure account_closure = true
is_account_closure email_auth = false

abbrev pub purpose_eq : Purpose → Purpose → Bool
purpose_eq email_auth p = is_email_auth p
purpose_eq account_closure p = is_account_closure p

abbrev pub is_login : Mode → Bool
is_login login = true
is_login _ = false

abbrev pub is_register : Mode → Bool
is_register register = true
is_register _ = false

abbrev pub is_closure : Mode → Bool
is_closure closure = true
is_closure _ = false

abbrev pub is_sent : Delivery → Bool
is_sent Delivery.sent = true
is_sent _ = false

abbrev pub is_pending_delivery : Delivery → Bool
is_pending_delivery Delivery.pending = true
is_pending_delivery _ = false

abbrev pub is_submitting : TripStatus → Bool
is_submitting submitting = true
is_submitting _ = false

abbrev pub is_running : TripStatus → Bool
is_running running = true
is_running _ = false

abbrev pub is_success : TripStatus → Bool
is_success success = true
is_success _ = false

abbrev pub is_reserved : EntryStatus → Bool
is_reserved reserved = true
is_reserved _ = false

abbrev pub is_consumed : EntryStatus → Bool
is_consumed consumed = true
is_consumed _ = false

abbrev pub entry_status_eq : EntryStatus → EntryStatus → Bool
entry_status_eq reserved s = is_reserved s
entry_status_eq consumed s = is_consumed s
entry_status_eq released released = true
entry_status_eq released _ = false

-- ACTIVE_TRIP_STATUSES
abbrev pub is_active_trip : TripStatus → Bool
is_active_trip submitting = true
is_active_trip TripStatus.pending = true
is_active_trip running = true
is_active_trip _ = false

-- TERMINAL_TRIP_STATUSES
abbrev pub is_terminal : TripStatus → Bool
is_terminal success = true
is_terminal TripStatus.failed = true
is_terminal timeout = true
is_terminal rejected = true
is_terminal _ = false

-- The status that a trip's quota entry has by then.
abbrev pub entry_status : TripStatus → EntryStatus
entry_status success = consumed
entry_status TripStatus.failed = released
entry_status timeout = released
entry_status rejected = released
entry_status _ = reserved

-- The text of a trip's status, as it is stored and compared.
abbrev pub status_text : TripStatus → String
status_text submitting = "SUBMITTING"
status_text TripStatus.pending = "PENDING"
status_text running = "RUNNING"
status_text success = "SUCCESS"
status_text TripStatus.failed = "FAILED"
status_text timeout = "TIMEOUT"
status_text rejected = "REJECTED"

-- The trip status that a text names, if any.
abbrev pub read_status : String → Option TripStatus
read_status s =
    if s == "SUBMITTING"
    then some submitting
    else if s == "PENDING"
    then some TripStatus.pending
    else if s == "RUNNING"
    then some running
    else if s == "SUCCESS"
    then some success
    else if s == "FAILED"
    then some TripStatus.failed
    else if s == "TIMEOUT"
    then some timeout
    else if s == "REJECTED"
    then some rejected
    else none

-- Reading back the text of a status gives the status.
pub read_status-status_text : (s : TripStatus) → read_status (status_text s) ≡ some s
read_status-status_text submitting = refl
read_status-status_text _ = refl
