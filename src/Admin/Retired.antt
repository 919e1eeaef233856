-- ===== src/Admin/Retired.antt =====
-- A disabled batch gives no access, and administrators are shown the state that registration reads.
use travel_web_api.Admin.Context.{Outside, AdminContext}
use travel_web_api.Admin.Idempotency.{AdminIdempotencyClaim}
use travel_web_api.Admin.Invitations.{
  CodeStatus, active_code, invitation_status, DisableCall, disable_claim, batch_off, code_off,
  disable_rows, disable_response, disable_audit, finish_disable, disable_claimed,
  disable_invitation_resource,
}
use travel_web_api.Admin.Outcomes.{Untouched, Untouched-eq, recorded, IsNewKey, under_claim-new}
use travel_web_api.Admin.Users.{under_claim}
use travel_web_api.Auth.SingleUse.{used}
use travel_web_api.Auth.Verify.{refused}
use travel_web_api.Db.Grants.{InvitationBatch, Invitation, AdminIdempotency}
use travel_web_api.Db.Monad.{Db, ok, Result-cases, transaction-eq-ok}
use travel_web_api.Db.Users.{Uuid, Time}
use travel_web_api.Invitations.{invitation_is_usable}
use travel_web_api.Json.{JsonObject}
use travel_web_api.Prelude.{
  string_eq, nat_eq, ◌==◌, ◌=?◌, Bool-cases, Option-cases, find, any, update_where, ◌≡◌, refl, sym,
  ap, subst, inl, inr, Bool, true, false, ◌&&◌, some, List, [], ◌∷◌, arith,
}
use travel_web_api.Python.{Python}
use travel_web_api.Security.{Settings}

abbrev pub is_active_code : CodeStatus → Bool
is_active_code active_code = true
is_active_code _ = false

-- At every time, the status that administrators are shown is ACTIVE exactly when registration would
-- take the code.
pub invitation_status-invitation_is_usable :
    (i : Invitation) (now : Time)
    → is_active_code (invitation_status i now) ≡ invitation_is_usable i now
unfolding invitation_status invitation_is_usable
invitation_status-invitation_is_usable i now = ground arith

code_off-unusable :
    (at now : Time) (i : Invitation) → invitation_is_usable (code_off at i) now ≡ false
unfolding invitation_is_usable
code_off-unusable at now i = elim (Option-cases i.redeemed_at) [
  | inl unused ↦ elim (Option-cases i.disabled_at) [
    | inl never ↦ ground (arith, unused, never)
    | inr (_, off) ↦ ground (arith, unused, off)
  ]
  | inr (_, used) ↦ ground (arith, used)
]

disable_claimed-invitations :
    (o : Outside) (py : Python) (settings : Settings) (ctx : AdminContext) (c : DisableCall)
    (w : AdminIdempotencyClaim) (db : Db) {r : JsonObject} {db' : Db} (b : InvitationBatch)
    → c.resource_type ≡ "INVITATION_BATCH"
    → find (λ x. x.public_id == c.public_id) db.batches ≡ some b
    → disable_claimed o py settings ctx c w db ≡ ok (r, db')
    → db'.invitations ≡ update_where (λ i. i.batch_id =? b.id) (code_off c.now) db.invitations
unfolding disable_claimed disable_rows finish_disable
disable_claimed-invitations o py settings ctx c w db {r} {db'} b is_batch is_b h =
    let off = record db {
      batches = update_where (λ x. x.id == b.id) (batch_off c.now) db.batches;
      invitations = update_where (λ i. i.batch_id =? b.id) (code_off c.now) db.invitations;
    } in
    let kind : (c.resource_type == "INVITATION_BATCH") ≡ true =
      subst (λ s. (s == "INVITATION_BATCH") ≡ true) (sym is_batch) refl in
    let rows : disable_rows c db ≡ ok off = rw (disable_rows, kind, is_b) refl in
    let done : finish_disable o py settings ctx c w off ≡ ok (r, db') =
      rw (disable_claimed, rows) at h in
    let (cs, same, _) =
      recorded o py settings c.audit (disable_audit ctx c) w 200 (disable_response c) c.now off
        done in
    ap (λ (d : Db). d.invitations) same

-- Disabling leaves the tables of the quota alone.
disable_rows-Untouched :
    (c : DisableCall) (cs : List AdminIdempotency) (db : Db) {db' : Db}
    → disable_rows c (record db { claims = cs }) ≡ ok db'
    → Untouched db db'
unfolding disable_rows
disable_rows-Untouched c cs db {db'} h = elim (Bool-cases (c.resource_type == "INVITATION_BATCH")) [
  | inl kind ↦ elim (Option-cases (find (λ b. b.public_id == c.public_id) db.batches)) [
    | inl missing ↦ absurd (ground arith)
    | inr (b, is_b) ↦ record {
      same_trips = ground arith;
      same_entries = ground arith;
      same_grants = ground arith;
      same_adjustments = ground arith;
    }
  ]
  | inr single ↦ elim (Option-cases (find (λ i. i.public_id =? c.public_id) db.invitations)) [
    | inl missing ↦ absurd (ground arith)
    | inr (i, is_i) ↦ record {
      same_trips = ground arith;
      same_entries = ground arith;
      same_grants = ground arith;
      same_adjustments = ground arith;
    }
  ]
]

pub disable_claimed-Untouched :
    (o : Outside) (py : Python) (settings : Settings) (ctx : AdminContext) (c : DisableCall)
    (w : AdminIdempotencyClaim) (cs : List AdminIdempotency) (db : Db) {r : JsonObject} {db' : Db}
    → disable_claimed o py settings ctx c w (record db { claims = cs }) ≡ ok (r, db')
    → Untouched db db'
unfolding disable_claimed finish_disable
disable_claimed-Untouched o py settings ctx c w cs db {r} {db'} h =
    elim (Result-cases (disable_rows c (record db { claims = cs }))) [
      | inl (x, refused) ↦ absurd (cc (rw (disable_claimed, refused) at h))
      | inr (off, rows) ↦
          let done : finish_disable o py settings ctx c w off ≡ ok (r, db') =
            rw (disable_claimed, rows) at h in
          let (xs, same, _) =
            recorded o py settings c.audit (disable_audit ctx c) w 200 (disable_response c) c.now
              off done in
          let kept = disable_rows-Untouched c cs db rows in
          Untouched-eq same (record {
            same_trips = kept.same_trips;
            same_entries = kept.same_entries;
            same_grants = kept.same_grants;
            same_adjustments = kept.same_adjustments;
          })
    ]

none_usable :
    (b : Uuid) (at now : Time) (xs : List Invitation)
    → any
        (λ i. i.batch_id =? b && invitation_is_usable i now)
        (update_where (λ i. i.batch_id =? b) (code_off at) xs)
      ≡ false
none_usable b at now [] = refl
none_usable b at now (x ∷ xs) =
    let rest = none_usable b at now xs in
    elim (Bool-cases (x.batch_id =? b)) [
      | inl own ↦ rw own (ground (arith, rest, code_off-unusable at now x))
      | inr other ↦ rw other (rw other rest)
    ]

-- After a call with a new key that disables a batch and returns, no code of the batch is taken by a
-- registration, at any time.
pub disable_invitation_resource-unusable :
    (o : Outside) (py : Python) (settings : Settings) (ctx : AdminContext) (c : DisableCall)
    (db : Db) (b : InvitationBatch) (r : JsonObject) (later : Time)
    → c.resource_type ≡ "INVITATION_BATCH"
    → find (λ x. x.public_id == c.public_id) db.batches ≡ some b
    → IsNewKey o py settings ctx c.idempotency_key db
    → (disable_invitation_resource o py settings ctx c db).0 ≡ ok r
    → any
        (λ i. i.batch_id =? b.id && invitation_is_usable i later)
        (disable_invitation_resource o py settings ctx c db).1.invitations
      ≡ false
unfolding disable_invitation_resource
disable_invitation_resource-unusable o py settings ctx c db b r later is_batch is_b new done =
    let operation = disable_claimed o py settings ctx c in
    let body = under_claim o py settings (disable_claim o ctx c) operation in
    let (w, cs, ran) =
      under_claim-new o py settings (disable_claim o ctx c) operation db new
        (transaction-eq-ok body db done) in
    let same =
      disable_claimed-invitations o py settings ctx c w (record db { claims = cs }) b is_batch is_b
        ran in
    subst (λ xs. any (λ i. i.batch_id =? b.id && invitation_is_usable i later) xs ≡ false)
      (sym same) (none_usable b.id c.now later db.invitations)
