-- ===== src/Admin/Invitations.antt =====
-- invitation_status and disable_invitation_resource of admin/invitations.py.
use travel_web_api.Admin.Audit.{Drawn, AuditEntry, append_admin_audit}
use travel_web_api.Admin.Context.{Outside, identity_text, AdminContext}
use travel_web_api.Admin.Idempotency.{AdminIdempotencyClaim, ClaimCall, complete_admin_idempotency}
use travel_web_api.Admin.Users.{not_found, under_claim}
use travel_web_api.Db.Grants.{InvitationBatch, Invitation}
use travel_web_api.Db.Monad.{Db, Result, ok, err, Tx, App, transaction, pure, ◌>>◌}
use travel_web_api.Db.Users.{Uuid, Time}
use travel_web_api.Invitations.{expires_after}
use travel_web_api.Json.{Json, JsonObject}
use travel_web_api.Prelude.{
  if◌then◌else◌, string_eq, nat_eq, ◌==◌, ◌=?◌, is_none, is_some, or_else, ◌<>◌, find, update_where,
  String, true, not, none, some, [], ◌∷◌,
}
use travel_web_api.Python.{Python}
use travel_web_api.Security.{Settings}

pub data CodeStatus : Type 0 where
  exhausted_code disabled_code expired_code active_code : CodeStatus

unfoldable pub invitation_status : Invitation → Time → CodeStatus
invitation_status i now =
    if is_some i.redeemed_at
    then exhausted_code
    else if is_some i.disabled_at
    then disabled_code
    else if not (expires_after i.expires_at now)
    then expired_code
    else active_code

-- The arguments of disable_invitation_resource, with what it draws.
pub record DisableCall : Type 0 where
  pub resource_type : String
  pub public_id : String
  pub reason : String
  pub idempotency_key : Uuid
  pub request_id : String
  pub source_ip : String
  pub record_id : Uuid
  pub audit : Drawn
  pub now : Time

abbrev pub disable_action : DisableCall → String
disable_action c = "DISABLE_" <> c.resource_type

abbrev pub disable_claim : Outside → AdminContext → DisableCall → ClaimCall
disable_claim o ctx c = record {
  actor_user_id = ctx.auth.user.id;
  actor_text = o.uuid_text ctx.auth.user.id;
  idempotency_key = c.idempotency_key;
  action = disable_action c;
  payload = ("public_id", Json.text c.public_id) ∷ ("reason", Json.text c.reason) ∷ [];
  record_id = c.record_id;
  now = c.now;
}

abbrev pub batch_off : Time → InvitationBatch → InvitationBatch
batch_off now b = record b { disabled_at = or_else b.disabled_at (some now) }

-- A redeemed code stays as it is. A row that changes is marked with the time of its update, which is
-- taken to be the time of the call.
abbrev pub code_off : Time → Invitation → Invitation
code_off now i =
    if is_none i.redeemed_at
    then record i {
      disabled_at = or_else i.disabled_at (some now);
      updated_at = if is_none i.disabled_at then now else i.updated_at;
    }
    else i

-- The batch and its codes, or one code.
unfoldable pub disable_rows : DisableCall → Db → Result Db
disable_rows c db =
    if c.resource_type == "INVITATION_BATCH"
    then (elim (find (λ b. b.public_id == c.public_id) db.batches) [
      | none ↦ err (not_found "批次不存在。")
      | some b ↦ ok (record db {
        batches = update_where (λ x. x.id == b.id) (batch_off c.now) db.batches;
        invitations = update_where (λ i. i.batch_id =? b.id) (code_off c.now) db.invitations;
      })
    ])
    else elim (find (λ i. i.public_id =? c.public_id) db.invitations) [
      | none ↦ err (not_found "邀请码不存在。")
      | some i ↦ ok (record db {
        invitations = update_where (λ x. x.id == i.id) (code_off c.now) db.invitations;
      })
    ]

abbrev pub disable_response : DisableCall → JsonObject
disable_response c =
    ("ok", Json.bool true)
    ∷ ("resource_id", Json.text c.public_id)
    ∷ ("status", Json.text "DISABLED")
    ∷ []

abbrev pub disable_audit : AdminContext → DisableCall → AuditEntry
disable_audit ctx c = record {
  actor_user_id = some ctx.auth.user.id;
  actor_identity = identity_text ctx.product_identity;
  action = disable_action c;
  target_type = c.resource_type;
  target_id = some c.public_id;
  result = "SUCCESS";
  error_code = none;
  request_id = c.request_id;
  source_ip = c.source_ip;
  reason = some c.reason;
  idempotency_key = some c.idempotency_key;
  before = none;
  after = none;
  client = [];
}

unfoldable pub finish_disable :
    Outside → Python → Settings → AdminContext → DisableCall → AdminIdempotencyClaim → Tx JsonObject
finish_disable o py settings ctx c w = do
  append_admin_audit o py settings c.audit (disable_audit ctx c)
  complete_admin_idempotency w 200 (disable_response c) c.now
  pure (disable_response c)

unfoldable pub disable_claimed :
    Outside → Python → Settings → AdminContext → DisableCall → AdminIdempotencyClaim → Tx JsonObject
disable_claimed o py settings ctx c w db = elim (disable_rows c db) [
  | err e ↦ err e
  | ok db' ↦ finish_disable o py settings ctx c w db'
]

unfoldable pub disable_invitation_resource :
    Outside → Python → Settings → AdminContext → DisableCall → App JsonObject
disable_invitation_resource o py settings ctx c =
    transaction
      (under_claim o py settings (disable_claim o ctx c) (disable_claimed o py settings ctx c))
