-- ===== src/Admin/Bootstrap.antt =====
-- bootstrap_configured_owner of admin/bootstrap.py: the configured owner is made an administrator
-- once.
use travel_web_api.Admin.Audit.{Drawn, AuditEntry, append_admin_audit}
use travel_web_api.Admin.Context.{Outside}
use travel_web_api.Admin.Users.{status_text, role_text}
use travel_web_api.Auth.Sessions.{revoked}
use travel_web_api.Db.Grants.{AdminAuditLog}
use travel_web_api.Db.Monad.{Db, owner_bootstrap_rejected, ok, err, Tx, pure, modify, ◌>>◌}
use travel_web_api.Db.Statuses.{Role, is_active_user}
use travel_web_api.Db.Users.{Uuid, Time, AppUser}
use travel_web_api.Json.{Json}
use travel_web_api.Prelude.{
  if◌then◌else◌, string_eq, nat_eq, ◌==◌, ◌=?◌, is_none, is_some, find, any, update_where, String,
  Bool, not, ◌&&◌, none, some, [], ◌∷◌,
}
use travel_web_api.Python.{Python}
use travel_web_api.Security.{Settings}

-- The arguments, with what the call draws.
pub record BootstrapCall : Type 0 where
  pub target_user_id : Uuid
  pub request_id : String
  pub source_ip : String
  pub audit : Drawn
  pub now : Time

abbrev pub has_verified_email : Uuid → Db → Bool
has_verified_email user db =
    any (λ i. i.user_id == user && i.provider == "email_otp" && is_some i.verified_email)
      db.identities

abbrev pub is_bootstrap_of : AppUser → AdminAuditLog → Bool
is_bootstrap_of u a =
    a.action == "SYSTEM_BOOTSTRAP"
    && a.target_type == "USER"
    && a.target_id =? u.public_id
    && a.result == "SUCCESS"

abbrev pub promoted : Time → AppUser → AppUser
promoted now u = record u { role = Role.admin; updated_at = now }

abbrev pub bootstrap_audit : BootstrapCall → AppUser → AuditEntry
bootstrap_audit c u = record {
  actor_user_id = none;
  actor_identity = "SYSTEM";
  action = "SYSTEM_BOOTSTRAP";
  target_type = "USER";
  target_id = some u.public_id;
  result = "SUCCESS";
  error_code = none;
  request_id = c.request_id;
  source_ip = c.source_ip;
  reason = some "INITIAL_OWNER_BOOTSTRAP";
  idempotency_key = none;
  before =
      some (
        ("role", Json.text (role_text u.role)) ∷ ("status", Json.text (status_text u.status)) ∷ []);
  after = some (
      ("role", Json.text "ADMIN")
      ∷ ("status", Json.text (status_text u.status))
      ∷ ("product_identity", Json.text "OWNER")
      ∷ []);
  client = [];
}

abbrev pub write_promotion : BootstrapCall → AppUser → Db → Db
write_promotion c u db = record db {
  users = update_where (λ x. x.id == u.id) (λ _. promoted c.now u) db.users;
  sessions =
      update_where (λ s. s.user_id == c.target_user_id && is_none s.revoked_at)
        (revoked c.now "SYSTEM_BOOTSTRAP") db.sessions;
}

unfoldable pub promote : Outside → Python → Settings → BootstrapCall → AppUser → Tx AppUser
promote o py settings c u = do
  modify (write_promotion c u)
  append_admin_audit o py settings c.audit (bootstrap_audit c u)
  pure (promoted c.now u)

unfoldable pub bootstrap_configured_owner : Outside → Python → Settings → BootstrapCall → Tx AppUser
bootstrap_configured_owner o py settings c db =
    if not (settings.admin_owner_user_id =? c.target_user_id)
    then err (owner_bootstrap_rejected "target is not the configured owner")
    else elim (find (λ u. u.id == c.target_user_id) db.users) [
      | none ↦ err (owner_bootstrap_rejected "configured owner must be an active existing user")
      | some u ↦
          if not (is_active_user u.status)
          then err (owner_bootstrap_rejected "configured owner must be an active existing user")
          else if not (has_verified_email c.target_user_id db)
          then err (owner_bootstrap_rejected "configured owner must have a verified email identity")
          else if any (is_bootstrap_of u) db.audit
          then ok (u, db)
          else promote o py settings c u db
    ]
