-- ===== src/Admin/Users.antt =====
-- find_user_by_public_id, assert_target_allowed and mutate_user of admin/service.py.
use travel_web_api.Admin.Audit.{Drawn, AuditEntry, append_admin_audit}
use travel_web_api.Admin.Context.{Outside, identity_text, AdminContext, is_owner}
use travel_web_api.Admin.Idempotency.{
  AdminIdempotencyClaim, ClaimCall, replay_response, claim_admin_idempotency,
  complete_admin_idempotency,
}
use travel_web_api.Auth.Sessions.{revoked}
use travel_web_api.Db.Monad.{
  Db, Error, runtime_error, admin_idempotency_conflict, admin_operation_error, Result, ok, err, Tx,
  App, transaction, pure, modify, ◌>>◌,
}
use travel_web_api.Db.Statuses.{UserStatus, Role, is_admin}
use travel_web_api.Db.Users.{Uuid, Time, AppUser}
use travel_web_api.Json.{Json, JsonObject}
use travel_web_api.Prelude.{
  if◌then◌else◌, string_eq, nat_eq, ◌==◌, ◌=?◌, is_none, find, update_where, ℕ, String, Bool, true,
  not, ◌&&◌, ◌||◌, Option, none, some, [], ◌∷◌,
}
use travel_web_api.Python.{Python}
use travel_web_api.Security.{Settings}

abbrev pub not_found : String → Error
not_found message = admin_operation_error 404 "ADMIN_RESOURCE_NOT_FOUND" message

-- The column is unique.
unfoldable pub find_user_by_public_id : String → Db → Result AppUser
find_user_by_public_id public_id db = elim (find (λ u. u.public_id == public_id) db.users) [
  | none ↦ err (not_found "用户不存在。")
  | some u ↦ ok u
]

unfoldable pub assert_target_allowed :
    AdminContext → Settings → AppUser → Bool → Bool → Result (Unit {0})
assert_target_allowed ctx settings target role_change disabling =
    let owns = settings.admin_owner_user_id =? target.id in
    if role_change && not (is_owner ctx)
    then err (admin_operation_error 403 "OWNER_REQUIRED" "该操作仅限 OWNER。")
    else if is_owner ctx
    then (if disabling && owns
        then err (admin_operation_error 409 "LAST_OWNER_PROTECTED" "最后一位 OWNER 不能停用。")
        else ok tt)
    else if target.id == ctx.auth.user.id || is_admin target.role || owns
    then err (admin_operation_error 403 "ADMIN_FORBIDDEN" "当前管理员无权操作该用户。")
    else ok tt

-- `except AdminIdempotencyConflict` around the claim.
abbrev pub as_operation_error : Error → Error
as_operation_error admin_idempotency_conflict =
    admin_operation_error 409 "IDEMPOTENCY_CONFLICT" "幂等键请求不一致。"
as_operation_error e = e

-- `if claim.replay_response: return claim.replay_response[1]`, else the operation.
abbrev pub replayed_or : Result (Option (ℕ × JsonObject)) → Tx JsonObject → Tx JsonObject
replayed_or (err e) operation db = err e
replayed_or (ok (some (http, body))) operation db = ok (body, db)
replayed_or (ok none) operation db = operation db

abbrev pub on_claim :
    Result (AdminIdempotencyClaim × Db)
    → (AdminIdempotencyClaim → Tx JsonObject)
    → Result (JsonObject × Db)
on_claim (err e) operation = err (as_operation_error e)
on_claim (ok (w, db)) operation = replayed_or (replay_response w) (operation w) db

-- How every operation of the file begins.
unfoldable pub under_claim :
    Outside
    → Python
    → Settings
    → ClaimCall
    → (AdminIdempotencyClaim → Tx JsonObject)
    → Tx JsonObject
under_claim o py settings c operation db =
    on_claim (claim_admin_idempotency o.request_hash_of py settings c db) operation

-- The arguments of mutate_user, with what it draws.
pub record UserMutation : Type 0 where
  pub target_public_id : String
  pub action : String
  pub reason : String
  pub idempotency_key : Uuid
  pub request_id : String
  pub source_ip : String
  pub record_id : Uuid
  pub audit : Drawn
  pub now : Time

abbrev pub mutation_claim : Outside → AdminContext → UserMutation → ClaimCall
mutation_claim o ctx m = record {
  actor_user_id = ctx.auth.user.id;
  actor_text = o.uuid_text ctx.auth.user.id;
  idempotency_key = m.idempotency_key;
  action = m.action;
  payload = ("target_user_id", Json.text m.target_public_id) ∷ ("reason", Json.text m.reason) ∷ [];
  record_id = m.record_id;
  now = m.now;
}

abbrev pub is_role_change : String → Bool
is_role_change action = action == "GRANT_ADMIN" || action == "REVOKE_ADMIN"

abbrev pub ends_sessions : String → Bool
ends_sessions action =
    action == "DISABLE_USER" || action == "GRANT_ADMIN" || action == "REVOKE_ADMIN"

-- `none` for an action of another name.
unfoldable pub mutated : String → Time → AppUser → Option AppUser
mutated action now u =
    if action == "DISABLE_USER"
    then some (record u { status = UserStatus.disabled; updated_at = now })
    else if action == "RESTORE_USER"
    then some (record u { status = UserStatus.active; updated_at = now })
    else if action == "GRANT_ADMIN"
    then some (record u { role = Role.admin; updated_at = now })
    else if action == "REVOKE_ADMIN"
    then some (record u { role = Role.user; updated_at = now })
    else none

abbrev pub status_text : UserStatus → String
status_text UserStatus.active = "ACTIVE"
status_text UserStatus.disabled = "DISABLED"

abbrev pub role_text : Role → String
role_text Role.user = "USER"
role_text Role.admin = "ADMIN"

abbrev pub status_and_role : AppUser → JsonObject
status_and_role u =
    ("status", Json.text (status_text u.status)) ∷ ("role", Json.text (role_text u.role)) ∷ []

abbrev pub mutation_response : AppUser → JsonObject
mutation_response u =
    ("ok", Json.bool true) ∷ ("user_id", Json.text u.public_id) ∷ status_and_role u

abbrev pub mutation_audit : AdminContext → UserMutation → AppUser → AppUser → AuditEntry
mutation_audit ctx m before after = record {
  actor_user_id = some ctx.auth.user.id;
  actor_identity = identity_text ctx.product_identity;
  action = m.action;
  target_type = "USER";
  target_id = some before.public_id;
  result = "SUCCESS";
  error_code = none;
  request_id = m.request_id;
  source_ip = m.source_ip;
  reason = some m.reason;
  idempotency_key = some m.idempotency_key;
  before = some (status_and_role before);
  after = some (status_and_role after);
  client = [];
}

-- The changed row, and the sessions that end with the change.
abbrev pub write_mutation : UserMutation → AppUser → Db → Db
write_mutation m u db = record db {
  users = update_where (λ x. x.id == u.id) (λ _. u) db.users;
  sessions =
      if ends_sessions m.action
      then update_where (λ s. s.user_id == u.id && is_none s.revoked_at) (revoked m.now m.action)
          db.sessions
      else db.sessions;
}

unfoldable pub finish_mutation :
    Outside
    → Python
    → Settings
    → AdminContext
    → UserMutation
    → AdminIdempotencyClaim
    → AppUser
    → AppUser
    → Tx JsonObject
finish_mutation o py settings ctx m w before after = do
  modify (write_mutation m after)
  append_admin_audit o py settings m.audit (mutation_audit ctx m before after)
  complete_admin_idempotency w 200 (mutation_response after) m.now
  pure (mutation_response after)

unfoldable pub mutate_target :
    Outside
    → Python
    → Settings
    → AdminContext
    → UserMutation
    → AdminIdempotencyClaim
    → AppUser
    → Tx JsonObject
mutate_target o py settings ctx m w target db =
    elim (assert_target_allowed ctx settings target (is_role_change m.action)
      (m.action == "DISABLE_USER")) [
        | err e ↦ err e
        | ok u ↦ elim (mutated m.action m.now target) [
          | none ↦ err (runtime_error "unknown user mutation")
          | some after ↦ finish_mutation o py settings ctx m w target after db
        ]
      ]

unfoldable pub mutate_claimed :
    Outside
    → Python
    → Settings
    → AdminContext
    → UserMutation
    → AdminIdempotencyClaim
    → Tx JsonObject
mutate_claimed o py settings ctx m w db = elim (find_user_by_public_id m.target_public_id db) [
  | err e ↦ err e
  | ok target ↦ mutate_target o py settings ctx m w target db
]

unfoldable pub mutate_user :
    Outside → Python → Settings → AdminContext → UserMutation → App JsonObject
mutate_user o py settings ctx m =
    transaction
      (under_claim o py settings (mutation_claim o ctx m) (mutate_claimed o py settings ctx m))
