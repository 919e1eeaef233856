-- ===== src/Admin/Adjustments.antt =====
-- create_quota_adjustment and reverse_quota_adjustment of admin/service.py.
use travel_web_api.Account.Closure.{admin_subject_hash}
use travel_web_api.Admin.Audit.{Drawn, AuditEntry, append_admin_audit}
use travel_web_api.Admin.Context.{Outside, identity_text, AdminContext}
use travel_web_api.Admin.Idempotency.{AdminIdempotencyClaim, ClaimCall, complete_admin_idempotency}
use travel_web_api.Admin.Users.{
  not_found, find_user_by_public_id, assert_target_allowed, under_claim,
}
use travel_web_api.Db.Grants.{QuotaAdjustment}
use travel_web_api.Db.Monad.{
  Db, runtime_error, integrity_error, admin_operation_error, Result, ok, err, Tx, App, transaction,
  pure, ◌>>◌,
}
use travel_web_api.Db.Users.{Uuid, Time, AppUser}
use travel_web_api.Json.{Json, Fields, JsonObject}
use travel_web_api.Prelude.{
  if◌then◌else◌, string_eq, nat_eq, ◌==◌, ◌=?◌, ◌=??◌, find, any, ℕ, String, Bool, true, false, not,
  ◌&&◌, ◌||◌, Option, none, some, [], ◌∷◌,
}
use travel_web_api.Prelude.Int.{ℤ, pos, pos_part, neg_part, ◌+ℤ◌, ◌-ℤ◌, ltb_ℤ}
use travel_web_api.Python.{Python}
use travel_web_api.Quota.Snapshot.{remaining, quota_snapshot}
use travel_web_api.Security.{Settings}

-- The arguments of create_quota_adjustment, with what it draws. `created_at` is the database's.
pub record AdjustmentCall : Type 0 where
  pub target_public_id : String
  pub delta : ℤ
  pub reason : String
  pub note : Option String
  pub idempotency_key : Uuid
  pub request_id : String
  pub source_ip : String
  pub reverses_public_id : Option String
  pub record_id : Uuid
  pub adjustment : Drawn
  pub audit : Drawn
  pub now : Time

-- `if reverses_public_id`: an empty text is as good as None.
abbrev pub is_reversal : AdjustmentCall → Bool
is_reversal c = elim c.reverses_public_id [ none ↦ false | some s ↦ not (s == "") ]

abbrev pub adjustment_action : AdjustmentCall → String
adjustment_action c = if is_reversal c then "QUOTA_REVERSE" else "QUOTA_ADJUST"

abbrev pub text_or_null : Option String → Json
text_or_null none = Json.null
text_or_null (some s) = Json.text s

abbrev pub adjustment_claim : Outside → AdminContext → AdjustmentCall → ClaimCall
adjustment_claim o ctx c = record {
  actor_user_id = ctx.auth.user.id;
  actor_text = o.uuid_text ctx.auth.user.id;
  idempotency_key = c.idempotency_key;
  action = adjustment_action c;
  payload =
      ("target_user_id", Json.text c.target_public_id)
      ∷ ("delta", Json.num c.delta)
      ∷ ("reason", Json.text c.reason)
      ∷ ("note", text_or_null c.note)
      ∷ ("reverses_adjustment_id", text_or_null c.reverses_public_id)
      ∷ [];
  record_id = c.record_id;
  now = c.now;
}

abbrev pub is_zero : ℤ → Bool
is_zero a = pos_part a == 0 && neg_part a == 0

abbrev pub same_int : ℤ → ℤ → Bool
same_int a b = pos_part a == pos_part b && neg_part a == neg_part b

abbrev pub negated : ℤ → ℤ
negated a = pos 0 -ℤ a

-- The checks and unique columns of quota_adjustment.
unfoldable pub insert_adjustment : QuotaAdjustment → Tx Unit
insert_adjustment a db =
    if is_zero a.delta || ltb_ℤ a.balance_before (pos 0) || ltb_ℤ a.balance_after (pos 0)
    then err (integrity_error "quota_adjustment")
    else if any
        (λ x.
          x.id == a.id
          || x.public_id == a.public_id
          || x.idempotency_id == a.idempotency_id
          || x.reverses_adjustment_id =?? a.reverses_adjustment_id)
        db.adjustments
    then err (integrity_error "uq_quota_adjustment_reversal")
    else ok (tt, record db { adjustments = a ∷ db.adjustments })

-- The adjustment that is reversed: `none` where the call reverses nothing.
unfoldable pub reversed_id : AdjustmentCall → AppUser → Db → Result (Option Uuid)
reversed_id c target db = elim c.reverses_public_id [
  | none ↦ ok none
  | some public_id ↦
      if public_id == ""
      then ok none
      else elim (find (λ a. a.public_id == public_id) db.adjustments) [
        | none ↦ err (not_found "额度流水不存在。")
        | some original ↦
            if not (original.target_user_id =? target.id)
            then err (not_found "额度流水不存在。")
            else if any (λ a. a.reverses_adjustment_id =? original.id) db.adjustments
            then err (admin_operation_error 409 "ADJUSTMENT_ALREADY_REVERSED" "该流水已冲正。")
            else if not (same_int c.delta (negated original.delta))
            then err (runtime_error "reversal delta must exactly negate original")
            else ok (some original.id)
      ]
]

abbrev pub new_adjustment :
    Outside
    → Python
    → Settings
    → AdminContext
    → AdjustmentCall
    → AdminIdempotencyClaim
    → AppUser
    → ℕ
    → ℤ
    → Option Uuid
    → QuotaAdjustment
new_adjustment o py settings ctx c w target before after original = record {
  id = c.adjustment.id;
  public_id = c.adjustment.public_id;
  target_user_id = some target.id;
  actor_user_id = some ctx.auth.user.id;
  target_scope_hash = some (admin_subject_hash py settings (o.uuid_text target.id));
  actor_scope_hash = some (admin_subject_hash py settings (o.uuid_text ctx.auth.user.id));
  delta = c.delta;
  balance_before = pos before;
  balance_after = after;
  reason = c.reason;
  note = c.note;
  idempotency_id = w.claimed.id;
  reverses_adjustment_id = original;
  created_at = c.adjustment.now;
}

abbrev pub adjustment_items : Outside → AdjustmentCall → AppUser → ℕ → ℤ → Fields
adjustment_items o c target before after =
    Fields.field "adjustment_id" (Json.text c.adjustment.public_id) (
      Fields.field "target_user_id" (Json.text target.public_id) (
        Fields.field "delta" (Json.num c.delta) (
          Fields.field "before" (Json.num (pos before)) (
            Fields.field "after" (Json.num after) (
              Fields.field "reason" (Json.text c.reason) (
                Fields.field "note" (text_or_null c.note) (
                  Fields.field "reverses_adjustment_id" (text_or_null c.reverses_public_id) (
                    Fields.field "created_at" (Json.text (o.isoformat c.adjustment.now))
                      Fields.end))))))))

abbrev pub adjustment_response : Outside → AdjustmentCall → AppUser → ℕ → ℤ → JsonObject
adjustment_response o c target before after =
    ("ok", Json.bool true)
    ∷ ("adjustment", Json.obj (adjustment_items o c target before after))
    ∷ []

abbrev pub adjustment_audit : AdminContext → AdjustmentCall → AppUser → ℕ → ℤ → AuditEntry
adjustment_audit ctx c target before after = record {
  actor_user_id = some ctx.auth.user.id;
  actor_identity = identity_text ctx.product_identity;
  action = adjustment_action c;
  target_type = "USER";
  target_id = some target.public_id;
  result = "SUCCESS";
  error_code = none;
  request_id = c.request_id;
  source_ip = c.source_ip;
  reason = some c.reason;
  idempotency_key = some c.idempotency_key;
  before = some (("available_quota", Json.num (pos before)) ∷ []);
  after = some (("available_quota", Json.num after) ∷ ("delta", Json.num c.delta) ∷ []);
  client = [];
}

unfoldable pub finish_adjustment :
    Outside
    → Python
    → Settings
    → AdminContext
    → AdjustmentCall
    → AdminIdempotencyClaim
    → AppUser
    → ℕ
    → ℤ
    → Option Uuid
    → Tx JsonObject
finish_adjustment o py settings ctx c w target before after original = do
  insert_adjustment (new_adjustment o py settings ctx c w target before after original)
  append_admin_audit o py settings c.audit (adjustment_audit ctx c target before after)
  complete_admin_idempotency w 201 (adjustment_response o c target before after) c.now
  pure (adjustment_response o c target before after)

unfoldable pub adjust_target :
    Outside
    → Python
    → Settings
    → AdminContext
    → AdjustmentCall
    → AdminIdempotencyClaim
    → AppUser
    → Tx JsonObject
adjust_target o py settings ctx c w target db =
    let before = remaining (quota_snapshot target.id db) in
    let after = pos before +ℤ c.delta in
    elim (assert_target_allowed ctx settings target false false) [
      | err e ↦ err e
      | ok u ↦
          if ltb_ℤ after (pos 0)
          then err (admin_operation_error 409 "QUOTA_BALANCE_INSUFFICIENT" "可用额度不足。")
          else elim (reversed_id c target db) [
            | err e ↦ err e
            | ok original ↦ finish_adjustment o py settings ctx c w target before after original db
          ]
    ]

unfoldable pub adjust_claimed :
    Outside
    → Python
    → Settings
    → AdminContext
    → AdjustmentCall
    → AdminIdempotencyClaim
    → Tx JsonObject
adjust_claimed o py settings ctx c w db = elim (find_user_by_public_id c.target_public_id db) [
  | err e ↦ err e
  | ok target ↦ adjust_target o py settings ctx c w target db
]

unfoldable pub create_quota_adjustment :
    Outside → Python → Settings → AdminContext → AdjustmentCall → App JsonObject
create_quota_adjustment o py settings ctx c =
    transaction
      (under_claim o py settings (adjustment_claim o ctx c) (adjust_claimed o py settings ctx c))

-- The call of reverse_quota_adjustment: the target and the delta come from the row that it
-- reverses, and those of the call are not read.
unfoldable pub reversal_call : String → AdjustmentCall → Db → Result AdjustmentCall
reversal_call public_id c db = elim (find (λ a. a.public_id == public_id) db.adjustments) [
  | none ↦ err (not_found "额度流水不存在。")
  | some row ↦ elim (find (λ u. row.target_user_id =? u.id) db.users) [
    | none ↦ err (not_found "用户不存在。")
    | some target ↦ ok (record c {
      target_public_id = target.public_id;
      delta = negated row.delta;
      reverses_public_id = some public_id;
    })
  ]
]

unfoldable pub reverse_quota_adjustment :
    Outside → Python → Settings → AdminContext → String → AdjustmentCall → App JsonObject
reverse_quota_adjustment o py settings ctx public_id c db = elim (reversal_call public_id c db) [
  | err e ↦ (err e, db)
  | ok reversal ↦ create_quota_adjustment o py settings ctx reversal db
]
