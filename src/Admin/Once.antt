-- ===== src/Admin/Once.antt =====
-- A reversal happens once, and it gives back what the adjustment took.
use travel_web_api.Admin.Adjustments.{
  AdjustmentCall, negated, create_quota_adjustment, reversal_call, reverse_quota_adjustment,
}
use travel_web_api.Admin.Balances.{Adjusted}
use travel_web_api.Admin.Calls.{AdminCall, run_admin_calls, run_admin_calls-keeps}
use travel_web_api.Admin.Context.{Outside, AdminContext, is_owner}
use travel_web_api.Admin.Outcomes.{IsNewKey}
use travel_web_api.Admin.Protection.{user_key}
use travel_web_api.Admin.Reversals.{
  create_quota_adjustment-Adjusted, sub_restores, IsReversed, found_behind, IsReversed-kept,
  reversed_id-ok, Reverses, reversal_call-ok,
}
use travel_web_api.Admin.Solvency.{moved, quota_snapshot-Adjusted}
use travel_web_api.Auth.Verify.{refused}
use travel_web_api.Db.Grants.{QuotaAdjustment}
use travel_web_api.Db.Monad.{Db, ok, Result-cases}
use travel_web_api.Db.Users.{Uuid, AppUser}
use travel_web_api.Json.{JsonObject}
use travel_web_api.Prelude.{
  if◌then◌else◌, string_eq, nat_eq, ◌==◌, ◌=?◌, Bool-cases, find, any, String, ◌≡◌, refl, sym, ap,
  ◌∙◌, subst, ◌≢◌, inl, inr, true, false, Option, some, List, arith,
}
use travel_web_api.Prelude.Int.{ℤ}
use travel_web_api.Python.{Python}
use travel_web_api.Quota.Snapshot.{quota_snapshot}
use travel_web_api.Rows.{some_eq, same_text, self_same, find_holds, has_key, Distinct, find_key}
use travel_web_api.Security.{Settings}

reverse_quota_adjustment-Reverses :
    (o : Outside) (py : Python) (settings : Settings) (ctx : AdminContext) (public_id : String)
    (c : AdjustmentCall) (db : Db) {r : JsonObject}
    → IsNewKey o py settings ctx c.idempotency_key db
    → (reverse_quota_adjustment o py settings ctx public_id c db).0 ≡ ok r
    → Reverses o py settings ctx public_id c db
        (reverse_quota_adjustment o py settings ctx public_id c db).1
unfolding reverse_quota_adjustment
reverse_quota_adjustment-Reverses o py settings ctx public_id c db {r} new done =
    elim (Result-cases (reversal_call public_id c db)) [
      | inl (x, refused) ↦ absurd (cc (rw (refused, reverse_quota_adjustment) at done))
      | inr (reversal, is_call) ↦
          let (_, _, _, _, form) = reversal_call-ok public_id c db is_call in
          let same_key : reversal.idempotency_key ≡ c.idempotency_key =
            ap (λ (x : AdjustmentCall). x.idempotency_key) form in
          let new' = subst (λ k. IsNewKey o py settings ctx k db) (sym same_key) new in
          let done' : (create_quota_adjustment o py settings ctx reversal db).0 ≡ ok r =
            rw (is_call, reverse_quota_adjustment) at done in
          rw (is_call, reverse_quota_adjustment)
            (record {
              reversal = reversal;
              is_reversal_call = is_call;
              is_adjusted =
                  create_quota_adjustment-Adjusted o py settings ctx reversal db new' done';
            })
    ]

reversal_of :
    (public_id : String) (c : AdjustmentCall) (db : Db) {reversal : AdjustmentCall}
    → reversal_call public_id c db ≡ ok reversal
    → reversal.reverses_public_id ≡ some public_id
reversal_of public_id c db h =
    let (_, _, _, _, form) = reversal_call-ok public_id c db h in
    ap (λ (x : AdjustmentCall). x.reverses_public_id) form

Reverses-IsReversed :
    (o : Outside) (py : Python) (settings : Settings) (ctx : AdminContext) (public_id : String)
    (c : AdjustmentCall) {db db' : Db}
    → (public_id == "") ≡ false
    → Reverses o py settings ctx public_id c db db'
    → IsReversed public_id db'
Reverses-IsReversed o py settings ctx public_id c {db} {db'} given v =
    let a = v.is_adjusted in
    let (row, is_found, _, _, is_id) =
      reversed_id-ok v.reversal a.target public_id db
        (reversal_of public_id c db v.is_reversal_call) given a.is_original in
    let marks : a.row.reverses_adjustment_id ≡ some row.id = a.same_original ∙ is_id in
    record {
      row = row;
      is_found =
          subst (λ xs. find (λ x. x.public_id == public_id) xs ≡ some row) (sym a.adjustments_grow)
            (found_behind a.row public_id db.adjustments a.not_taken is_found);
      has_reversal =
          subst (λ xs. any (λ x. x.reverses_adjustment_id =? row.id) xs ≡ true)
            (sym a.adjustments_grow) (rw marks (ground arith));
    }

IsReversed-refuses :
    (o : Outside) (py : Python) (settings : Settings) (ctx : AdminContext) (public_id : String)
    (c : AdjustmentCall) {db db' : Db}
    → (public_id == "") ≡ false
    → IsReversed public_id db
    → Reverses o py settings ctx public_id c db db'
    → ⊥
IsReversed-refuses o py settings ctx public_id c {db} given h v =
    let a = v.is_adjusted in
    let (row, is_found, unreversed, _, _) =
      reversed_id-ok v.reversal a.target public_id db
        (reversal_of public_id c db v.is_reversal_call) given a.is_original in
    let same : h.row ≡ row = some_eq (sym h.is_found ∙ is_found) in
    let both =
      sym h.has_reversal
      ∙ ap (λ (x : QuotaAdjustment). any (λ y. y.reverses_adjustment_id =? x.id) db.adjustments)
          same
      ∙ unreversed in
    cc

-- Once a reversal with a new key has returned, no later reversal of the same adjustment with a new
-- key returns, by any administrator and whatever operations of administrators came between.
pub reverse_quota_adjustment_once :
    (o : Outside) (py : Python) (settings : Settings) (ctx ctx' : AdminContext) (public_id : String)
    (c c' : AdjustmentCall) (between : List AdminCall) (db : Db) (r r' : JsonObject)
    → (public_id == "") ≡ false
    → IsNewKey o py settings ctx c.idempotency_key db
    → (reverse_quota_adjustment o py settings ctx public_id c db).0 ≡ ok r
    → let later =
        run_admin_calls o py settings between
          (reverse_quota_adjustment o py settings ctx public_id c db).1 in
      IsNewKey o py settings ctx' c'.idempotency_key later
      → (reverse_quota_adjustment o py settings ctx' public_id c' later).0 ≢ ok r'
reverse_quota_adjustment_once o py settings ctx ctx' public_id c c' between db r r' given new done
      new' again =
    let first = reverse_quota_adjustment-Reverses o py settings ctx public_id c db new done in
    let kept =
      run_admin_calls-keeps o py settings (IsReversed-kept o py settings public_id) between _
        (Reverses-IsReversed o py settings ctx public_id c given first) in
    IsReversed-refuses o py settings ctx' public_id c' given kept
      (reverse_quota_adjustment-Reverses o py settings ctx' public_id c' _ new' again)

-- The row of an adjustment that was just made is found under its id.
made_row :
    (o : Outside) (py : Python) (settings : Settings) (ctx : AdminContext) (c : AdjustmentCall)
    {db db' : Db} (a : Adjusted o py settings ctx c db db')
    → find (λ x. x.public_id == c.adjustment.public_id) db'.adjustments ≡ some a.row
made_row o py settings ctx c {db} {db'} a =
    let own : (a.row.public_id == c.adjustment.public_id) ≡ true =
      subst (λ s. (s == c.adjustment.public_id) ≡ true) (sym a.same_public)
        (self_same c.adjustment.public_id) in
    subst (λ xs. find (λ x. x.public_id == c.adjustment.public_id) xs ≡ some a.row)
      (sym a.adjustments_grow) (rw own refl)

-- The reversal's target is the user of the row.
reversed_target :
    (o : Outside) (py : Python) (settings : Settings) (ctx ctx' : AdminContext)
    (c reversal : AdjustmentCall) {db db' db2 : Db} {row : Option Uuid} {owner : AppUser}
    (a : Adjusted o py settings ctx c db db') (b : Adjusted o py settings ctx' reversal db' db2)
    → Distinct user_key db.users
    → find (λ u. row =? u.id) db'.users ≡ some owner
    → row ≡ some a.target.id
    → reversal.target_public_id ≡ owner.public_id
    → b.target.id ≡ a.target.id
reversed_target o py settings ctx ctx' c reversal {db} {db'} {db2} {row} {owner} a b distinct
      is_owner is_row is_public =
    let holds : (row =? owner.id) ≡ true =
      find_holds (λ (u : AppUser). row =? u.id) db'.users is_owner in
    let own : (some a.target.id =? owner.id) ≡ true =
      subst (λ x. (x =? owner.id) ≡ true) is_row holds in
    let key : owner.id ≡ a.target.id = ground (arith, own) in
    let found_owner : find (has_key user_key owner.id) db.users ≡ some owner =
      subst (λ us. find (has_key user_key owner.id) us ≡ some owner) a.same_users
        (find_key user_key (λ (u : AppUser). row =? u.id) db'.users
          (subst (Distinct user_key) (sym a.same_users) distinct) is_owner) in
    let found_target : find (has_key user_key owner.id) db.users ≡ some a.target =
      subst (λ k. find (has_key user_key k) db.users ≡ some a.target) (sym key)
        (find_key user_key (λ (u : AppUser). u.public_id == c.target_public_id) db.users distinct
          a.is_target) in
    let same : owner ≡ a.target = some_eq (sym found_owner ∙ found_target) in
    let shared : reversal.target_public_id ≡ c.target_public_id =
      is_public
      ∙ ap (λ (u : AppUser). u.public_id) same
      ∙ same_text
          (find_holds (λ (u : AppUser). u.public_id == c.target_public_id) db.users a.is_target) in
    let found : find (λ (u : AppUser). u.public_id == c.target_public_id) db.users ≡ some b.target =
      subst (λ us. find (λ (u : AppUser). u.public_id == c.target_public_id) us ≡ some b.target)
        a.same_users
        (subst (λ s. find (λ (u : AppUser). u.public_id == s) db'.users ≡ some b.target) shared
          b.is_target) in
    ap (λ (u : AppUser). u.id) (some_eq (sym found ∙ a.is_target))

restored :
    (user : Uuid) (d e : ℤ) (i j : Uuid) (db db' : Db)
    → e ≡ negated d
    → j ≡ i
    → quota_snapshot user db'
      ≡ (if i == user then moved d (quota_snapshot user db) else quota_snapshot user db)
    → (if j == user then moved e (quota_snapshot user db') else quota_snapshot user db')
      ≡ quota_snapshot user db
restored user d e i j db db' taken same h = elim (Bool-cases (i == user)) [
  | inl own ↦
      let q = quota_snapshot user db in
      let first : quota_snapshot user db' ≡ moved d q =
        h ∙ ap (λ b. if b then moved d q else q) own in
      rw (taken, same, own, first) (ap (λ l. record q { limit = l }) (sub_restores q.limit d))
  | inr other ↦
      let q = quota_snapshot user db in
      let first : quota_snapshot user db' ≡ q = h ∙ ap (λ b. if b then moved d q else q) other in
      rw (same, other, first) refl
]

-- An adjustment with a new key that returned, reversed at once with a new key by a call that
-- returned, leaves everybody's quota as it was before the adjustment.
pub reverse_quota_adjustment_restores :
    (o : Outside) (py : Python) (settings : Settings) (ctx ctx' : AdminContext)
    (c c' : AdjustmentCall) (db : Db) (user : Uuid) (r r' : JsonObject)
    → Distinct user_key db.users
    → IsNewKey o py settings ctx c.idempotency_key db
    → (create_quota_adjustment o py settings ctx c db).0 ≡ ok r
    → let db' = (create_quota_adjustment o py settings ctx c db).1 in
      IsNewKey o py settings ctx' c'.idempotency_key db'
      → (reverse_quota_adjustment o py settings ctx' c.adjustment.public_id c' db').0 ≡ ok r'
      → quota_snapshot user
          (reverse_quota_adjustment o py settings ctx' c.adjustment.public_id c' db').1
        ≡ quota_snapshot user db
reverse_quota_adjustment_restores o py settings ctx ctx' c c' db user r r' distinct new done new'
      done' =
    let db' = (create_quota_adjustment o py settings ctx c db).1 in
    let a = create_quota_adjustment-Adjusted o py settings ctx c db new done in
    let v =
      reverse_quota_adjustment-Reverses o py settings ctx' c.adjustment.public_id c' db' new'
        done' in
    let b = v.is_adjusted in
    let (row, owner, is_row, is_owner, form) =
      reversal_call-ok c.adjustment.public_id c' db' v.is_reversal_call in
    let same_row : row ≡ a.row = some_eq (sym is_row ∙ made_row o py settings ctx c a) in
    let taken : v.reversal.delta ≡ negated c.delta =
      ap (λ (x : AdjustmentCall). x.delta) form
      ∙ ap (λ (x : QuotaAdjustment). negated x.delta) same_row
      ∙ ap negated a.same_delta in
    let same_target : b.target.id ≡ a.target.id =
      reversed_target o py settings ctx ctx' c v.reversal a b distinct is_owner
        (ap (λ (x : QuotaAdjustment). x.target_user_id) same_row ∙ a.same_target)
        (ap (λ (x : AdjustmentCall). x.target_public_id) form) in
    quota_snapshot-Adjusted o py settings ctx' v.reversal user b
    ∙ restored user c.delta v.reversal.delta a.target.id b.target.id db db' taken same_target
        (quota_snapshot-Adjusted o py settings ctx c user a)
