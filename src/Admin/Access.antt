-- ===== src/Admin/Access.antt =====
-- Who is let in as an administrator, with which capabilities, and what a refusal leaves.
use travel_web_api.Admin.Audit.{
  Drawn, AdminRequest, is_user_identity, after_denial, get_current_admin,
}
use travel_web_api.Admin.Context.{
  Outside, AdminContext, resolve_admin_context, needs_owner, require_capability,
}
use travel_web_api.Auth.Sessions.{AuthContext}
use travel_web_api.Auth.Verify.{refused}
use travel_web_api.Db.Grants.{AdminAuditLog}
use travel_web_api.Db.Monad.{Db, Result, ok, err, Result-cases, ok_eq}
use travel_web_api.Db.Statuses.{is_admin}
use travel_web_api.Prelude.{
  string_eq, nat_eq, ◌==◌, ◌=?◌, Bool-cases, String, ◌≡◌, refl, subst, inl, inr, Bool, true, false,
  not, ◌&&◌, ◌||◌, none, some, arith,
}
use travel_web_api.Python.{Python}
use travel_web_api.Rows.{same_text}
use travel_web_api.Security.{Settings, hash_secret}

-- The owner, or a user with the role.
abbrev pub is_entitled : Settings → AuthContext → Bool
is_entitled settings auth = settings.admin_owner_user_id =? auth.user.id || is_admin auth.user.role

resolved-is_entitled :
    (auth : AuthContext) (settings : Settings)
    → is_user_identity (resolve_admin_context auth settings).product_identity
      ≡ not (is_entitled settings auth)
unfolding resolve_admin_context
resolved-is_entitled auth settings = ground arith

owner_only :
    (auth : AuthContext) (settings : Settings) (capability : String)
    → needs_owner capability ≡ true
    → require_capability (resolve_admin_context auth settings) capability ≡ ok tt
    → (settings.admin_owner_user_id =? auth.user.id) ≡ true
unfolding resolve_admin_context require_capability
owner_only auth settings capability needs passed =
    elim (Bool-cases (settings.admin_owner_user_id =? auth.user.id)) [
      | inl own ↦ own
      | inr other ↦ elim (Bool-cases (is_admin auth.user.role)) [
        | inl helper ↦ elim (Bool-cases (capability == "role.manage")) [
          | inl role ↦ absurd (cc (rw (same_text role, other, helper) at passed))
          | inr not_role ↦
              let secret : (capability == "invitation.secret.read") ≡ true =
                ground (arith, needs, not_role) in
              absurd (cc (rw (same_text secret, other, helper) at passed))
        ]
        | inr nobody ↦ absurd (cc (rw (other, nobody) at passed))
      ]
    ]

abbrev pub is_passed : Result (Unit {0}) → Bool
is_passed (ok u) = true
is_passed (err x) = false

owner_alone :
    (auth : AuthContext) (settings : Settings) (capability : String)
    → (needs_owner capability
        && is_passed (require_capability (resolve_admin_context auth settings) capability)
        && not (settings.admin_owner_user_id =? auth.user.id))
      ≡ false
owner_alone auth settings capability =
    elim (Result-cases (require_capability (resolve_admin_context auth settings) capability)) [
      | inl (x, refused) ↦ rw refused (ground arith)
      | inr (u, passed) ↦ elim (Bool-cases (needs_owner capability)) [
        | inl needs ↦ rw (needs, passed, owner_only auth settings capability needs passed) refl
        | inr open_to_all ↦ rw open_to_all refl
      ]
    ]

-- What is known of an answer that lets the user in.
pub record LetIn (settings : Settings) (auth : AuthContext) (ctx : AdminContext) : Type 0 where
  pub entitled : is_entitled settings auth ≡ true
  pub same_auth : ctx.auth ≡ auth
  pub owners_own :
      (capability : String)
      → (needs_owner capability
          && is_passed (require_capability ctx capability)
          && not (settings.admin_owner_user_id =? auth.user.id))
        ≡ false

resolve_admin_context-auth :
    (auth : AuthContext) (settings : Settings) → (resolve_admin_context auth settings).auth ≡ auth
unfolding resolve_admin_context
resolve_admin_context-auth auth settings = ground arith

after_denial-err :
    (r : Result (Unit {0}) × Db) {ctx : AdminContext} → (after_denial r).0 ≡ ok ctx → ⊥
after_denial-err (ok u, db) h = cc h
after_denial-err (err x, db) h = cc h

-- A request that get_current_admin lets in comes from the owner or from a user with the role, it
-- keeps the request's user and session and writes nothing, and only the owner passes
-- require_capability for role.manage and invitation.secret.read.
pub get_current_admin-LetIn :
    (o : Outside) (py : Python) (settings : Settings) (auth : AuthContext) (r : AdminRequest)
    (d : Drawn) (db : Db) (ctx : AdminContext)
    → (get_current_admin o py settings auth r d db).0 ≡ ok ctx
    → LetIn settings auth ctx × ((get_current_admin o py settings auth r d db).1 ≡ db)
unfolding get_current_admin
get_current_admin-LetIn o py settings auth r d db ctx h =
    let resolved = resolve_admin_context auth settings in
    elim (Bool-cases (is_user_identity resolved.product_identity)) [
      | inl plain ↦ elim (Bool-cases r.has_session_factory) [
        | inl records ↦ absurd (after_denial-err _ (rw (plain, records, get_current_admin) at h))
        | inr silent ↦ absurd (cc (rw (plain, silent, get_current_admin) at h))
      ]
      | inr known ↦
          let same : resolved ≡ ctx = ok_eq (rw (known, get_current_admin) at h) in
          let entitled : is_entitled settings auth ≡ true =
            ground (arith, known, resolved-is_entitled auth settings) in
          (
            subst (LetIn settings auth) same (record {
              entitled = entitled;
              same_auth = resolve_admin_context-auth auth settings;
              owners_own = owner_alone auth settings;
            }),
            rw (known, get_current_admin) refl,
          )
    ]

-- What the audit row of a denial says of the request.
pub record IsDenial (py : Python) (settings : Settings) (auth : AuthContext) (r : AdminRequest)
    (d : Drawn) (row : AdminAuditLog) : Type 0 where
  pub actor : row.actor_user_id ≡ some auth.user.id
  pub identity : row.actor_identity ≡ "USER"
  pub action : row.action ≡ "ADMIN_ACCESS_DENIED"
  pub target_type : row.target_type ≡ "ENDPOINT"
  pub target : row.target_id ≡ some r.path
  pub result : row.result ≡ "FAILURE"
  pub error_code : row.error_code ≡ some "ADMIN_REQUIRED"
  pub request : row.request_id ≡ r.correlation_id
  pub address :
      row.source_ip_hash
      ≡ hash_secret py
          (elim r.host [ none ↦ "unknown" | some host ↦ host ])
          "admin-audit-source-ip"
          settings.secret_hash_pepper
  pub nothing_before : row.before_json ≡ none
  pub nothing_after : row.after_json ≡ none
  pub at_time : row.created_at ≡ d.now
