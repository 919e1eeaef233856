-- ===== src/Admin/Audit.antt =====
-- admin/audit.py: a row for each action of an administrator, with the values redacted; and
-- get_current_admin of admin/auth.py, which records the requests that it refuses.
use travel_web_api.Admin.Context.{
  Outside, ProductIdentity, user_identity, AdminContext, resolve_admin_context, forbidden,
}
use travel_web_api.Auth.Sessions.{AuthContext}
use travel_web_api.Db.Grants.{AdminAuditLog}
use travel_web_api.Db.Monad.{Db, integrity_error, Result, ok, err, Tx, App, transaction}
use travel_web_api.Db.Users.{Uuid, Time, Digest}
use travel_web_api.Json.{JsonObject}
use travel_web_api.Prelude.{
  if◌then◌else◌, string_eq, nat_eq, ◌==◌, any, String, Bool, true, false, ◌||◌, Option, none, some,
  [], ◌∷◌,
}
use travel_web_api.Python.{Python}
use travel_web_api.Redaction.{redact}
use travel_web_api.Security.{Settings, hash_secret}

abbrev pub audit_source_ip_hash : Python → Settings → String → Digest
audit_source_ip_hash py settings raw_ip =
    hash_secret py raw_ip "admin-audit-source-ip" settings.secret_hash_pepper

-- The ids that a new row draws, and the time of the database.
pub record Drawn : Type 0 where
  pub id : Uuid
  pub public_id : String
  pub now : Time

-- The arguments of append_admin_audit.
pub record AuditEntry : Type 0 where
  pub actor_user_id : Option Uuid
  pub actor_identity : String
  pub action : String
  pub target_type : String
  pub target_id : Option String
  pub result : String
  pub error_code : Option String
  pub request_id : String
  pub source_ip : String
  pub reason : Option String
  pub idempotency_key : Option Uuid
  pub before : Option JsonObject
  pub after : Option JsonObject
  pub client : JsonObject

abbrev pub redact_audit_projection : Outside → Settings → Option JsonObject → Option JsonObject
redact_audit_projection o settings none = none
redact_audit_projection o settings (some d) = some (redact o.patterns settings.redaction_secrets d)

abbrev pub audit_row : Outside → Python → Settings → Drawn → AuditEntry → AdminAuditLog
audit_row o py settings d a = record {
  id = d.id;
  public_id = d.public_id;
  actor_user_id = a.actor_user_id;
  actor_identity = a.actor_identity;
  action = a.action;
  target_type = a.target_type;
  target_id = a.target_id;
  result = a.result;
  error_code = a.error_code;
  before_json = redact_audit_projection o settings a.before;
  after_json = redact_audit_projection o settings a.after;
  reason = a.reason;
  idempotency_key = a.idempotency_key;
  request_id = a.request_id;
  source_ip_hash = audit_source_ip_hash py settings a.source_ip;
  client_json = redact o.patterns settings.redaction_secrets a.client;
  created_at = d.now;
}

-- The ids of the rows are unique.
unfoldable pub append_admin_audit : Outside → Python → Settings → Drawn → AuditEntry → Tx Unit
append_admin_audit o py settings d a db =
    if any (λ x. x.id == d.id || x.public_id == d.public_id) db.audit
    then err (integrity_error "admin_audit_log")
    else ok (tt, record db { audit = audit_row o py settings d a ∷ db.audit })

-- What the request carries: its path, correlation id and address, and whether the state of its app
-- has a session factory.
pub record AdminRequest : Type 0 where
  pub has_session_factory : Bool
  pub path : String
  pub correlation_id : String
  pub host : Option String

abbrev pub denied : AuthContext → AdminRequest → AuditEntry
denied auth r = record {
  actor_user_id = some auth.user.id;
  actor_identity = "USER";
  action = "ADMIN_ACCESS_DENIED";
  target_type = "ENDPOINT";
  target_id = some r.path;
  result = "FAILURE";
  error_code = some "ADMIN_REQUIRED";
  request_id = r.correlation_id;
  source_ip = elim r.host [ none ↦ "unknown" | some h ↦ h ];
  reason = none;
  idempotency_key = none;
  before = none;
  after = none;
  client = [];
}

abbrev pub is_user_identity : ProductIdentity → Bool
is_user_identity user_identity = true
is_user_identity _ = false

abbrev pub after_denial : Result (Unit {0}) × Db → Result AdminContext × Db
after_denial (ok u, db) = (err (forbidden "ADMIN_REQUIRED" "需要管理员权限。"), db)
after_denial (err x, db) = (err x, db)

unfoldable pub get_current_admin :
    Outside → Python → Settings → AuthContext → AdminRequest → Drawn → App AdminContext
get_current_admin o py settings auth r d db =
    let ctx = resolve_admin_context auth settings in
    if is_user_identity ctx.product_identity
    then if r.has_session_factory
      then after_denial (transaction (append_admin_audit o py settings d (denied auth r)) db)
      else (err (forbidden "ADMIN_REQUIRED" "需要管理员权限。"), db)
    else (ok ctx, db)
