-- ===== src/Admin/Context.antt =====
-- admin/auth.py: who is an administrator and what each may do.
use travel_web_api.Auth.Sessions.{AuthContext}
use travel_web_api.Db.Monad.{Error, api_error, Result, ok, err}
use travel_web_api.Db.Statuses.{is_admin}
use travel_web_api.Db.Users.{Uuid, Time, Digest}
use travel_web_api.Json.{JsonObject}
use travel_web_api.Prelude.{
  if◌then◌else◌, string_eq, nat_eq, ◌==◌, ◌=?◌, any, String, Bool, true, false, ◌||◌, List, [], ◌∷◌,
}
use travel_web_api.Redaction.{Patterns}
use travel_web_api.Security.{Settings}

-- What the administrators' part takes from outside: `str(uuid)`, `datetime.isoformat()`, the hash of
-- a canonical request and the patterns of the redaction.
pub record Outside : Type 0 where
  pub uuid_text : Uuid → String
  pub isoformat : Time → String
  pub request_hash_of : String → JsonObject → Digest
  pub patterns : Patterns

pub data ProductIdentity : Type 0 where
  owner_identity admin_identity user_identity : ProductIdentity

abbrev pub identity_text : ProductIdentity → String
identity_text owner_identity = "OWNER"
identity_text admin_identity = "ADMIN"
identity_text user_identity = "USER"

abbrev pub owner_capabilities : List String
owner_capabilities =
    "admin.read" ∷ "audit.read" ∷ "artifact.read" ∷ "invitation.manage" ∷ "invitation.secret.read"
    ∷ "quota.manage_all" ∷ "report.read" ∷ "role.manage" ∷ "trip.read" ∷ "user.manage_all" ∷ []

abbrev pub admin_capabilities : List String
admin_capabilities =
    "admin.read" ∷ "audit.read" ∷ "artifact.read" ∷ "invitation.manage" ∷ "quota.manage_user"
    ∷ "report.read" ∷ "trip.read" ∷ "user.manage_user" ∷ []

pub record AdminContext : Type 0 where
  pub auth : AuthContext
  pub product_identity : ProductIdentity
  pub capabilities : List String

abbrev pub is_owner_identity : ProductIdentity → Bool
is_owner_identity owner_identity = true
is_owner_identity _ = false

abbrev pub is_owner : AdminContext → Bool
is_owner ctx = is_owner_identity ctx.product_identity

unfoldable pub resolve_admin_context : AuthContext → Settings → AdminContext
resolve_admin_context auth settings =
    if settings.admin_owner_user_id =? auth.user.id
    then record {
      auth = auth;
      product_identity = owner_identity;
      capabilities = owner_capabilities;
    }
    else if is_admin auth.user.role
    then record {
      auth = auth;
      product_identity = admin_identity;
      capabilities = admin_capabilities;
    }
    else record { auth = auth; product_identity = user_identity; capabilities = [] }

abbrev pub forbidden : String → String → Error
forbidden code message =
    api_error (record {
      status_code = 403;
      code = code;
      message = message;
      retryable = false;
      details = [];
    })

abbrev pub needs_owner : String → Bool
needs_owner capability = capability == "role.manage" || capability == "invitation.secret.read"

unfoldable pub require_capability : AdminContext → String → Result (Unit {0})
require_capability ctx capability =
    if any (λ c. c == capability) ctx.capabilities
    then ok tt
    else err (
        forbidden (if needs_owner capability then "OWNER_REQUIRED" else "ADMIN_FORBIDDEN")
          "当前管理员无权执行此操作。")
