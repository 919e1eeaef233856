-- ===== src/Admin/ChangeTests.antt =====
-- Runs of admin/service.py and admin/auth.py at concrete users.
use travel_web_api.Admin.Access.{LetIn, get_current_admin-LetIn}
use travel_web_api.Admin.Adjustments.{
  AdjustmentCall, insert_adjustment, reversed_id, adjustment_response, finish_adjustment,
  adjust_target, adjust_claimed, create_quota_adjustment, reversal_call, reverse_quota_adjustment,
}
use travel_web_api.Admin.Audit.{Drawn, append_admin_audit, AdminRequest, get_current_admin}
use travel_web_api.Admin.Calls.{
  AdminCall, AnyCall, by_service, by_admin, run_admin_call, run_admin_calls, run_any_calls,
}
use travel_web_api.Admin.Context.{
  Outside, owner_identity, admin_identity, owner_capabilities, admin_capabilities, AdminContext,
  resolve_admin_context,
}
use travel_web_api.Admin.Disabling.{mutate_user-disabled}
use travel_web_api.Admin.Idempotency.{
  replay_response, checked_claim, claim_admin_idempotency, complete_admin_idempotency,
}
use travel_web_api.Admin.Invitations.{
  invitation_status, DisableCall, disable_rows, disable_response, finish_disable, disable_claimed,
  disable_invitation_resource,
}
use travel_web_api.Admin.Once.{reverse_quota_adjustment_once, reverse_quota_adjustment_restores}
use travel_web_api.Admin.Outcomes.{IsNewKey}
use travel_web_api.Admin.Protection.{user_key, mutate_user-protected}
use travel_web_api.Admin.Retired.{
  is_active_code, invitation_status-invitation_is_usable, disable_invitation_resource-unusable,
}
use travel_web_api.Admin.Reversals.{Balanced, create_quota_adjustment-Balanced}
use travel_web_api.Admin.Solvency.{run_any_calls-IsWithin}
use travel_web_api.Admin.Users.{
  find_user_by_public_id, assert_target_allowed, under_claim, UserMutation, mutated,
  finish_mutation, mutate_target, mutate_claimed, mutate_user,
}
use travel_web_api.Auth.Sessions.{
  AuthContext, touch_session, check_session, auth_body, get_current_auth,
}
use travel_web_api.Db.Grants.{InvitationBatch, Invitation}
use travel_web_api.Db.Monad.{Db, ok}
use travel_web_api.Db.Statuses.{Role}
use travel_web_api.Db.Users.{Digest, AppUser, UserSession}
use travel_web_api.Invitations.{invitation_is_usable}
use travel_web_api.Json.{Json, JsonObject}
use travel_web_api.Prelude.{
  if◌then◌else◌, string_eq, nat_eq, ◌==◌, ◌=?◌, find, any, ℕ, String, ◌≡◌, refl, ◌≢◌, true, false,
  ◌&&◌, none, some, List, [], ◌∷◌, arith,
}
use travel_web_api.Prelude.Int.{ℤ, pos, negsuc, ◌+ℤ◌, ◌-ℤ◌}
use travel_web_api.Quota.Limits.{IsWithin}
use travel_web_api.Quota.Sequences.{Call}
use travel_web_api.Quota.Snapshot.{quota_snapshot}
use travel_web_api.Quota.Solvency.{IsSound}
use travel_web_api.Redaction.{Patterns, redact_text, redact_json, redact_object, redact}
use travel_web_api.Rows.{has_key}
use travel_web_api.Samples.{sample_py, guest, sample_db, sample_settings}
use travel_web_api.Security.{hash_secret}

abbrev number_text : ℕ → String
number_text n = if n == 9 then "9" else if n == 2 then "2" else "1"

abbrev no_patterns : Patterns
no_patterns = record {
  is_sensitive = λ k. k == "token";
  sub_email = λ s. s;
  sub_phone = λ s. s;
  length_of = λ s. 6;
  replace_secret = λ x s. if s == x then "[REDACTED_SECRET]" else s;
}

abbrev hash_action : String → JsonObject → Digest
hash_action action payload = if action == "QUOTA_REVERSE" then 5 else 6

abbrev outside : Outside
outside = record {
  uuid_text = number_text;
  isoformat = number_text;
  request_hash_of = hash_action;
  patterns = no_patterns;
}

abbrev chief : AppUser
chief = record guest { id = 9; public_id = "usr_9"; display_name_normalized = "chief" }

abbrev helper : AppUser
helper = record guest {
  id = 2;
  public_id = "usr_2";
  role = Role.admin;
  display_name_normalized = "helper";
}

abbrev guest_session : UserSession
guest_session = record {
  id = 41;
  user_id = 1;
  token_hash = 8;
  created_at = 0;
  last_seen_at = 0;
  expires_at = 1_000;
  revoked_at = none;
  revoke_reason = none;
}

abbrev helper_session : UserSession
helper_session = record guest_session { id = 42; user_id = 2; token_hash = 7 }

abbrev staff_db : Db
staff_db = record sample_db {
  users = guest ∷ helper ∷ chief ∷ [];
  sessions = helper_session ∷ guest_session ∷ [];
}

abbrev auth_of : AppUser → AuthContext
auth_of u = record { user = u; session = record guest_session { user_id = u.id } }

abbrev owner_context : AdminContext
owner_context = record {
  auth = auth_of chief;
  product_identity = owner_identity;
  capabilities = owner_capabilities;
}

abbrev helper_context : AdminContext
helper_context = record {
  auth = auth_of helper;
  product_identity = admin_identity;
  capabilities = admin_capabilities;
}

abbrev disable_guest : UserMutation
disable_guest = record {
  target_public_id = "usr_1";
  action = "DISABLE_USER";
  reason = "ABUSE";
  idempotency_key = 900;
  request_id = "req_1";
  source_ip = "10.0.0.1";
  record_id = 901;
  audit = record { id = 902; public_id = "audit_1"; now = 50 };
  now = 50;
}

abbrev ok_fields : JsonObject
ok_fields =
    ("ok", Json.bool true)
    ∷ ("user_id", Json.text "usr_1")
    ∷ ("status", Json.text "DISABLED")
    ∷ ("role", Json.text "USER")
    ∷ []

disabled_ok :
    (mutate_user outside sample_py sample_settings helper_context disable_guest staff_db).0
    ≡ ok ok_fields
unfolding mutate_user under_claim claim_admin_idempotency checked_claim replay_response
    mutate_claimed find_user_by_public_id mutate_target assert_target_allowed mutated
    finish_mutation append_admin_audit complete_admin_idempotency hash_secret
disabled_ok = refl

abbrev disable_helper : UserMutation
disable_helper = record disable_guest { target_public_id = "usr_2" }

mutate_user-protected_example :
    find
      (has_key user_key 2)
      (mutate_user outside sample_py sample_settings helper_context disable_helper staff_db).1.users
    ≡ some helper
mutate_user-protected_example =
    mutate_user-protected outside sample_py sample_settings helper_context disable_helper staff_db
      helper (refl, (refl, (refl, tt))) refl refl

abbrev adjust_guest : AdjustmentCall
adjust_guest = record {
  target_public_id = "usr_1";
  delta = negsuc 1;
  reason = "CORRECTION";
  note = none;
  idempotency_key = 910;
  request_id = "req_2";
  source_ip = "10.0.0.1";
  reverses_public_id = none;
  record_id = 911;
  adjustment = record { id = 912; public_id = "adj_1"; now = 60 };
  audit = record { id = 913; public_id = "audit_2"; now = 60 };
  now = 60;
}

abbrev reverse_guest : AdjustmentCall
reverse_guest = record adjust_guest {
  idempotency_key = 920;
  record_id = 921;
  adjustment = record { id = 922; public_id = "adj_2"; now = 70 };
  audit = record { id = 923; public_id = "audit_3"; now = 70 };
  now = 70;
}

abbrev third_call : AdjustmentCall
third_call = record reverse_guest { idempotency_key = 930; record_id = 931 }

staff_db-IsSound : IsSound staff_db
unfolding quota_snapshot ◌+ℤ◌
staff_db-IsSound = record {
  ledger = record { trip_ids = tt; entry_ids = tt; links = tt; balance = λ user s. refl };
  solvent = record { within = λ user. ground arith };
}

helper_auth :
    (get_current_auth sample_py sample_settings
      (some "raw")
      60
      (mutate_user outside sample_py sample_settings helper_context disable_guest staff_db).1).0
    ≡ ok (record { user = helper; session = helper_session })
unfolding get_current_auth auth_body check_session touch_session mutate_user under_claim
    claim_admin_idempotency checked_claim replay_response mutate_claimed find_user_by_public_id
    mutate_target assert_target_allowed mutated finish_mutation append_admin_audit
    complete_admin_idempotency hash_secret redact redact_object redact_json redact_text
helper_auth = refl

mutate_user-disabled_example : helper.id ≢ guest.id
mutate_user-disabled_example =
    mutate_user-disabled outside sample_py sample_settings helper_context disable_guest staff_db
      guest ok_fields (some "raw") 60 (record { user = helper; session = helper_session })
      (refl, (refl, (refl, tt))) refl refl refl disabled_ok helper_auth

-- What a call of adjustment answers.
abbrev adjusted_answer : AdjustmentCall → ℕ → ℤ → JsonObject
adjusted_answer c before after = adjustment_response outside c guest before after

adjusted_ok :
    (create_quota_adjustment outside sample_py sample_settings owner_context adjust_guest
      staff_db).0
    ≡ ok (adjusted_answer adjust_guest 2 (pos 0))
unfolding create_quota_adjustment under_claim claim_admin_idempotency checked_claim replay_response
    adjust_claimed find_user_by_public_id adjust_target assert_target_allowed reversed_id
    finish_adjustment insert_adjustment append_admin_audit complete_admin_idempotency hash_secret
    quota_snapshot ◌+ℤ◌ ◌-ℤ◌
adjusted_ok = refl

create_quota_adjustment-Balanced_example :
    Balanced adjust_guest 1 staff_db
      (create_quota_adjustment outside sample_py sample_settings owner_context adjust_guest
        staff_db).1
create_quota_adjustment-Balanced_example =
    create_quota_adjustment-Balanced outside sample_py sample_settings owner_context adjust_guest
      staff_db guest (adjusted_answer adjust_guest 2 (pos 0)) staff_db-IsSound.solvent refl refl
      adjusted_ok

abbrev reversal_answer : JsonObject
reversal_answer =
    adjustment_response outside
      (record reverse_guest {
        target_public_id = "usr_1";
        delta = pos 2;
        reverses_public_id = some "adj_1";
      })
      guest 0 (pos 2)

new_key :
    IsNewKey outside sample_py sample_settings helper_context 920
      (create_quota_adjustment outside sample_py sample_settings owner_context adjust_guest
        staff_db).1
unfolding create_quota_adjustment under_claim claim_admin_idempotency checked_claim replay_response
    adjust_claimed find_user_by_public_id adjust_target assert_target_allowed reversed_id
    finish_adjustment insert_adjustment append_admin_audit complete_admin_idempotency hash_secret
    quota_snapshot ◌+ℤ◌ ◌-ℤ◌
new_key = refl

reversed_ok :
    (reverse_quota_adjustment outside sample_py sample_settings helper_context "adj_1" reverse_guest
      (create_quota_adjustment outside sample_py sample_settings owner_context adjust_guest
        staff_db).1).0
    ≡ ok reversal_answer
unfolding create_quota_adjustment under_claim claim_admin_idempotency checked_claim replay_response
    adjust_claimed find_user_by_public_id adjust_target assert_target_allowed reversed_id
    finish_adjustment insert_adjustment append_admin_audit complete_admin_idempotency hash_secret
    quota_snapshot ◌+ℤ◌ ◌-ℤ◌ reverse_quota_adjustment reversal_call
reversed_ok = refl

reverse_quota_adjustment_restores_example :
    quota_snapshot 1
      (reverse_quota_adjustment outside sample_py sample_settings helper_context "adj_1"
        reverse_guest
        (create_quota_adjustment outside sample_py sample_settings owner_context adjust_guest
          staff_db).1).1
    ≡ quota_snapshot 1 staff_db
reverse_quota_adjustment_restores_example =
    reverse_quota_adjustment_restores outside sample_py sample_settings owner_context helper_context
      adjust_guest reverse_guest staff_db 1 (adjusted_answer adjust_guest 2 (pos 0)) reversal_answer
      (refl, (refl, (refl, tt))) refl adjusted_ok new_key reversed_ok

abbrev between : List AdminCall
between = AdminCall.change_user helper_context disable_guest ∷ []

third_key : IsNewKey outside sample_py sample_settings owner_context 930 (
    run_admin_calls outside sample_py sample_settings between
      (reverse_quota_adjustment outside sample_py sample_settings helper_context "adj_1"
        reverse_guest
        (create_quota_adjustment outside sample_py sample_settings owner_context adjust_guest
          staff_db).1).1)
unfolding run_admin_calls run_admin_call mutate_user mutate_claimed mutate_target mutated
    finish_mutation create_quota_adjustment under_claim claim_admin_idempotency checked_claim
    replay_response adjust_claimed find_user_by_public_id adjust_target assert_target_allowed
    reversed_id finish_adjustment insert_adjustment append_admin_audit complete_admin_idempotency
    hash_secret quota_snapshot ◌+ℤ◌ ◌-ℤ◌ reverse_quota_adjustment reversal_call
third_key = refl

reverse_quota_adjustment_once_example :
    (reverse_quota_adjustment outside sample_py sample_settings owner_context "adj_1" third_call (
      run_admin_calls outside sample_py sample_settings between
        (reverse_quota_adjustment outside sample_py sample_settings helper_context "adj_1"
          reverse_guest
          (create_quota_adjustment outside sample_py sample_settings owner_context adjust_guest
            staff_db).1).1)).0
    ≢ ok reversal_answer
reverse_quota_adjustment_once_example =
    reverse_quota_adjustment_once outside sample_py sample_settings helper_context owner_context
      "adj_1" reverse_guest third_call between
      (create_quota_adjustment outside sample_py sample_settings owner_context adjust_guest
        staff_db).1
      reversal_answer reversal_answer refl new_key reversed_ok third_key

abbrev mixed : List AnyCall
mixed =
    by_admin (AdminCall.adjust owner_context adjust_guest)
    ∷ by_admin (AdminCall.reverse_adjustment helper_context "adj_1" reverse_guest)
    ∷ by_service (Call.uncertain 5 80)
    ∷ []

run_any_calls-IsWithin_example :
    IsWithin (quota_snapshot 1 (run_any_calls outside sample_py sample_settings mixed staff_db))
run_any_calls-IsWithin_example =
    run_any_calls-IsWithin outside sample_py sample_settings mixed staff_db 1 staff_db-IsSound

abbrev page_request : AdminRequest
page_request = record {
  has_session_factory = true;
  path = "/api/v1/admin/users";
  correlation_id = "req_9";
  host = none;
}

abbrev page_drawn : Drawn
page_drawn = record { id = 950; public_id = "audit_9"; now = 90 }

get_current_admin-LetIn_example :
    LetIn sample_settings (auth_of chief) owner_context
    × ((get_current_admin outside sample_py sample_settings
          (auth_of chief)
          page_request
          page_drawn
          staff_db).1
        ≡ staff_db)
unfolding get_current_admin resolve_admin_context
get_current_admin-LetIn_example =
    get_current_admin-LetIn outside sample_py sample_settings (auth_of chief) page_request
      page_drawn staff_db owner_context refl

abbrev spring_batch : InvitationBatch
spring_batch = record {
  id = 60;
  public_id = "batch_1";
  name = "Spring";
  source_label = "fair";
  code_count = 1;
  valid_days = 30;
  expires_at = 1_000;
  disabled_at = none;
  created_by_user_id = some 9;
  creator_scope_hash = none;
  plaintext_recoverable = true;
  created_at = 0;
}

abbrev spring_code : Invitation
spring_code = record {
  id = 61;
  public_id = some "code_1";
  batch_id = some 60;
  sequence_number = some 1;
  secret_hash = 7;
  encrypted_secret = none;
  source_label = "fair";
  expires_at = some 1_000;
  disabled_at = none;
  redeemed_at = none;
  created_at = 0;
  updated_at = 0;
}

abbrev batch_db : Db
batch_db = record staff_db { batches = spring_batch ∷ []; invitations = spring_code ∷ [] }

abbrev disable_batch : DisableCall
disable_batch = record {
  resource_type = "INVITATION_BATCH";
  public_id = "batch_1";
  reason = "LEAKED";
  idempotency_key = 940;
  request_id = "req_4";
  source_ip = "10.0.0.1";
  record_id = 941;
  audit = record { id = 942; public_id = "audit_4"; now = 80 };
  now = 80;
}

disabled_batch_ok :
    (disable_invitation_resource outside sample_py sample_settings helper_context disable_batch
      batch_db).0
    ≡ ok (disable_response disable_batch)
unfolding disable_invitation_resource under_claim claim_admin_idempotency checked_claim
    replay_response disable_claimed disable_rows finish_disable append_admin_audit
    complete_admin_idempotency hash_secret
disabled_batch_ok = refl

disable_invitation_resource-unusable_example :
    any
      (λ i. i.batch_id =? 60 && invitation_is_usable i 90)
      (disable_invitation_resource outside sample_py sample_settings helper_context disable_batch
        batch_db).1.invitations
    ≡ false
disable_invitation_resource-unusable_example =
    disable_invitation_resource-unusable outside sample_py sample_settings helper_context
      disable_batch batch_db spring_batch (disable_response disable_batch) 90 refl refl refl
      disabled_batch_ok

invitation_status-invitation_is_usable_example :
    is_active_code (invitation_status spring_code 90) ≡ invitation_is_usable spring_code 90
invitation_status-invitation_is_usable_example =
    invitation_status-invitation_is_usable spring_code 90
