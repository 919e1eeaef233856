-- ===== src/Admin/Balances.antt =====
-- What an adjustment does to the quota.
use travel_web_api.Admin.Adjustments.{
  AdjustmentCall, insert_adjustment, reversed_id, new_adjustment, adjustment_response,
  adjustment_audit, finish_adjustment, adjust_target, adjust_claimed,
}
use travel_web_api.Admin.Audit.{audit_row}
use travel_web_api.Admin.Context.{Outside, AdminContext}
use travel_web_api.Admin.Idempotency.{AdminIdempotencyClaim}
use travel_web_api.Admin.Outcomes.{recorded}
use travel_web_api.Admin.Users.{find_user_by_public_id, assert_target_allowed}
use travel_web_api.Auth.Verify.{refused}
use travel_web_api.Db.Grants.{QuotaAdjustment, AdminIdempotency, AdminAuditLog}
use travel_web_api.Db.Monad.{Db, ok, Result-cases, >>=-eq-ok}
use travel_web_api.Db.Users.{Uuid, AppUser}
use travel_web_api.Json.{JsonObject}
use travel_web_api.Prelude.{
  string_eq, nat_eq, ◌==◌, ◌=??◌, Option-cases, find, any, ℕ, ◌≡◌, refl, ap, ◌∙◌, inl, inr, Bool,
  false, ◌||◌, Option, some, List, ◌∷◌, arith,
}
use travel_web_api.Prelude.Int.{ℤ, pos, ◌+ℤ◌, ltb_ℤ}
use travel_web_api.Python.{Python}
use travel_web_api.Quota.Snapshot.{remaining, quota_snapshot}
use travel_web_api.Security.{Settings}

-- The unique columns that a new row must not share.
abbrev pub clashes : QuotaAdjustment → QuotaAdjustment → Bool
clashes a x =
    x.id == a.id
    || x.public_id == a.public_id
    || x.idempotency_id == a.idempotency_id
    || x.reverses_adjustment_id =?? a.reverses_adjustment_id

-- What an adjustment that returned and was not a replay has written.
pub record Adjusted (o : Outside) (py : Python) (settings : Settings) (ctx : AdminContext)
    (c : AdjustmentCall) (db db' : Db) : Type 0 where
  pub target : AppUser
  pub original : Option Uuid
  pub row : QuotaAdjustment
  pub is_target : find (λ u. u.public_id == c.target_public_id) db.users ≡ some target
  pub is_allowed : assert_target_allowed ctx settings target false false ≡ ok tt
  pub same_delta : row.delta ≡ c.delta
  pub same_target : row.target_user_id ≡ some target.id
  pub before_now : row.balance_before ≡ pos (remaining (quota_snapshot target.id db))
  pub after_now : row.balance_after ≡ pos (remaining (quota_snapshot target.id db)) +ℤ c.delta
  pub enough : ltb_ℤ row.balance_after (pos 0) ≡ false
  pub is_original : reversed_id c target db ≡ ok original
  pub same_original : row.reverses_adjustment_id ≡ original
  pub same_public : row.public_id ≡ c.adjustment.public_id
  pub not_taken : any (clashes row) db.adjustments ≡ false
  pub adjustments_grow : db'.adjustments ≡ row ∷ db.adjustments
  pub same_grants : db'.grants ≡ db.grants
  pub same_entries : db'.entries ≡ db.entries
  pub same_trips : db'.trips ≡ db.trips
  pub same_users : db'.users ≡ db.users

insert_adjustment-writes :
    (a : QuotaAdjustment) (db : Db) {u : Unit {0}} {db' : Db}
    → insert_adjustment a db ≡ ok (u, db')
    → (any (clashes a) db.adjustments ≡ false)
      × (db' ≡ record db { adjustments = a ∷ db.adjustments })
unfolding insert_adjustment
insert_adjustment-writes a db h = (ground arith, ground arith)

module _ (o : Outside) (py : Python) (settings : Settings) (ctx : AdminContext)
    (c : AdjustmentCall) where
  finish_adjustment-writes :
      (w : AdminIdempotencyClaim) (target : AppUser) (before : ℕ) (after : ℤ)
      (original : Option Uuid) (db : Db) {r : JsonObject} {db' : Db}
      → finish_adjustment o py settings ctx c w target before after original db ≡ ok (r, db')
      → (any
            (clashes (new_adjustment o py settings ctx c w target before after original))
            db.adjustments
          ≡ false)
        × (cs : List AdminIdempotency) × (xs : List AdminAuditLog) × (db' ≡ record db {
          adjustments =
              new_adjustment o py settings ctx c w target before after original ∷ db.adjustments;
          audit = xs;
          claims = cs;
        })
  unfolding finish_adjustment
  finish_adjustment-writes w target before after original db {r} {db'} h =
      let a = new_adjustment o py settings ctx c w target before after original in
      let (_, db1, e1, k1) = >>=-eq-ok (insert_adjustment a) _ db h in
      let (free, grown) = insert_adjustment-writes a db e1 in
      let (cs, same, _) =
        recorded o py settings c.audit (adjustment_audit ctx c target before after) w 201
          (adjustment_response o c target before after) c.now db1 k1 in
      (
        free,
        cs,
        audit_row o py settings c.audit (adjustment_audit ctx c target before after) ∷ db1.audit,
        same
            ∙ ap
                (λ (d : Db). record d {
                  audit =
                      audit_row o py settings c.audit (adjustment_audit ctx c target before after)
                      ∷ db1.audit;
                  claims = cs;
                })
                grown,
      )

  adjust_target-Adjusted :
      (w : AdminIdempotencyClaim) (target : AppUser) (db : Db) {r : JsonObject} {db' : Db}
      → find (λ u. u.public_id == c.target_public_id) db.users ≡ some target
      → adjust_target o py settings ctx c w target db ≡ ok (r, db')
      → Adjusted o py settings ctx c db db'
  unfolding adjust_target
  adjust_target-Adjusted w target db {r} {db'} is_target h =
      let before = remaining (quota_snapshot target.id db) in
      let after = pos before +ℤ c.delta in
      let allowed : assert_target_allowed ctx settings target false false ≡ ok tt = ground arith in
      let positive : ltb_ℤ after (pos 0) ≡ false = ground arith in
      elim (Result-cases (reversed_id c target db)) [
        | inl (x, refused) ↦ absurd (ground arith)
        | inr (original, is_original) ↦
            let done : finish_adjustment o py settings ctx c w target before after original db
                ≡ ok (r, db') =
              ground arith in
            let (free, cs, xs, same) =
              finish_adjustment-writes w target before after original db done in
            record {
              target = target;
              original = original;
              row = new_adjustment o py settings ctx c w target before after original;
              is_target = is_target;
              is_allowed = allowed;
              same_delta = refl;
              same_target = refl;
              before_now = refl;
              after_now = refl;
              enough = positive;
              is_original = is_original;
              same_original = refl;
              same_public = refl;
              not_taken = free;
              adjustments_grow = ap (λ (d : Db). d.adjustments) same;
              same_grants = ap (λ (d : Db). d.grants) same;
              same_entries = ap (λ (d : Db). d.entries) same;
              same_trips = ap (λ (d : Db). d.trips) same;
              same_users = ap (λ (d : Db). d.users) same;
            }
      ]

  pub adjust_claimed-Adjusted :
      (w : AdminIdempotencyClaim) (db : Db) {r : JsonObject} {db' : Db}
      → adjust_claimed o py settings ctx c w db ≡ ok (r, db')
      → Adjusted o py settings ctx c db db'
  unfolding adjust_claimed find_user_by_public_id
  adjust_claimed-Adjusted w db {r} {db'} h =
      elim (Option-cases (find (λ u. u.public_id == c.target_public_id) db.users)) [
        | inl nobody ↦ absurd (ground arith)
        | inr (target, is_target) ↦
            let went : adjust_target o py settings ctx c w target db ≡ ok (r, db') = ground arith in
            adjust_target-Adjusted w target db is_target went
      ]
