-- ===== src/Admin/Reversals.antt =====
-- An adjustment and its reversal: the balances that are recorded, what a reversal restores, and
-- that there is one at most.
use travel_web_api.Admin.Adjustments.{
  AdjustmentCall, adjustment_claim, same_int, negated, reversed_id, adjust_claimed,
  create_quota_adjustment, reversal_call,
}
use travel_web_api.Admin.Balances.{clashes, Adjusted, adjust_claimed-Adjusted}
use travel_web_api.Admin.Calls.{KeptByAdmin}
use travel_web_api.Admin.Context.{Outside, AdminContext}
use travel_web_api.Admin.Outcomes.{IsNewKey, under_claim-new}
use travel_web_api.Admin.Solvency.{moved, quota_snapshot-Adjusted, Adjusted-balance}
use travel_web_api.Admin.Users.{under_claim}
use travel_web_api.Db.Grants.{QuotaAdjustment, AdminIdempotency}
use travel_web_api.Db.Monad.{Db, ok, transaction-eq-ok}
use travel_web_api.Db.Users.{Uuid, AppUser}
use travel_web_api.Json.{JsonObject}
use travel_web_api.Prelude.{
  if◌then◌else◌, string_eq, nat_eq, ◌==◌, ◌=?◌, Bool-cases, Option-cases, find, any, String, ◌≡◌,
  sym, ap, ◌∙◌, subst, inl, inr, true, false, Option, some, List, ◌∷◌, arith,
}
use travel_web_api.Prelude.Int.{ℤ, pos, ◌+ℤ◌, +ℤ_parts, -ℤ_parts, eq_of_parts, int_laws}
use travel_web_api.Python.{Python}
use travel_web_api.Quota.Limits.{Solvent}
use travel_web_api.Quota.Snapshot.{remaining, quota_snapshot}
use travel_web_api.Rows.{some_eq, same_text, find_holds, absent-found}
use travel_web_api.Security.{Settings}

-- The claims do not matter to an adjustment.
Adjusted-claims :
    (o : Outside) (py : Python) (settings : Settings) (ctx : AdminContext) (c : AdjustmentCall)
    (cs : List AdminIdempotency) (db : Db) {db' : Db}
    → Adjusted o py settings ctx c (record db { claims = cs }) db'
    → Adjusted o py settings ctx c db db'
unfolding quota_snapshot reversed_id
Adjusted-claims o py settings ctx c cs db a = record {
  target = a.target;
  original = a.original;
  row = a.row;
  is_target = a.is_target;
  is_allowed = a.is_allowed;
  same_delta = a.same_delta;
  same_target = a.same_target;
  before_now = a.before_now;
  after_now = a.after_now;
  enough = a.enough;
  is_original = a.is_original;
  same_original = a.same_original;
  same_public = a.same_public;
  not_taken = a.not_taken;
  adjustments_grow = a.adjustments_grow;
  same_grants = a.same_grants;
  same_entries = a.same_entries;
  same_trips = a.same_trips;
  same_users = a.same_users;
}

-- What an adjustment with a new key has written, if it returned.
pub create_quota_adjustment-Adjusted :
    (o : Outside) (py : Python) (settings : Settings) (ctx : AdminContext) (c : AdjustmentCall)
    (db : Db) {r : JsonObject}
    → IsNewKey o py settings ctx c.idempotency_key db
    → (create_quota_adjustment o py settings ctx c db).0 ≡ ok r
    → Adjusted o py settings ctx c db (create_quota_adjustment o py settings ctx c db).1
unfolding create_quota_adjustment
create_quota_adjustment-Adjusted o py settings ctx c db new done =
    let operation = adjust_claimed o py settings ctx c in
    let body = under_claim o py settings (adjustment_claim o ctx c) operation in
    let (w, cs, ran) =
      under_claim-new o py settings (adjustment_claim o ctx c) operation db new
        (transaction-eq-ok body db done) in
    Adjusted-claims o py settings ctx c cs db
      (adjust_claimed-Adjusted o py settings ctx c w (record db { claims = cs }) ran)

-- The quota of the target after the adjustment, as recorded.
pub record Balanced (c : AdjustmentCall) (user : Uuid) (db db' : Db) : Type 0 where
  pub row : QuotaAdjustment
  pub is_recorded : db'.adjustments ≡ row ∷ db.adjustments
  pub before_is : row.balance_before ≡ pos (remaining (quota_snapshot user db))
  pub after_is : row.balance_after ≡ pos (remaining (quota_snapshot user db'))
  pub moves : row.balance_after ≡ row.balance_before +ℤ c.delta
  pub snapshots :
      (other : Uuid)
      → quota_snapshot other db' ≡ (
          if user == other
          then moved c.delta (quota_snapshot other db)
          else quota_snapshot other db)

-- In a solvent database, an adjustment with a new key that returns is recorded with the balance
-- that the target had and the balance that the target now has, which differ by its delta; the
-- target's limit moves by the delta, and the quota of everybody else stays.
pub create_quota_adjustment-Balanced :
    (o : Outside) (py : Python) (settings : Settings) (ctx : AdminContext) (c : AdjustmentCall)
    (db : Db) (u : AppUser) (r : JsonObject)
    → Solvent db
    → IsNewKey o py settings ctx c.idempotency_key db
    → find (λ x. x.public_id == c.target_public_id) db.users ≡ some u
    → (create_quota_adjustment o py settings ctx c db).0 ≡ ok r
    → Balanced c u.id db (create_quota_adjustment o py settings ctx c db).1
create_quota_adjustment-Balanced o py settings ctx c db u r h new is_u done =
    let a = create_quota_adjustment-Adjusted o py settings ctx c db new done in
    let same : a.target ≡ u = some_eq (sym a.is_target ∙ is_u) in
    let same_id : a.target.id ≡ u.id = ap (λ (x : AppUser). x.id) same in
    let own : (a.target.id == u.id) ≡ true = ground (arith, same_id) in
    let after : quota_snapshot u.id (create_quota_adjustment o py settings ctx c db).1
        ≡ moved c.delta (quota_snapshot u.id db) =
      quota_snapshot-Adjusted o py settings ctx c u.id a
      ∙ ap (λ b. if b then moved c.delta (quota_snapshot u.id db) else quota_snapshot u.id db)
          own in
    let left : pos (remaining (moved c.delta (quota_snapshot u.id db)))
        ≡ pos (remaining (quota_snapshot u.id db)) +ℤ c.delta =
      subst
        (λ i.
          pos (remaining (moved c.delta (quota_snapshot i db)))
          ≡ pos (remaining (quota_snapshot i db)) +ℤ c.delta)
        same_id (Adjusted-balance o py settings ctx c h a).1 in
    let before = a.before_now ∙ ap (λ i. pos (remaining (quota_snapshot i db))) same_id in
    let after_row : a.row.balance_after ≡ pos (remaining (quota_snapshot u.id db)) +ℤ c.delta =
      a.after_now ∙ ap (λ i. pos (remaining (quota_snapshot i db)) +ℤ c.delta) same_id in
    record {
      row = a.row;
      is_recorded = a.adjustments_grow;
      before_is = before;
      after_is = after_row ∙ sym left ∙ ap (λ q. pos (remaining q)) (sym after);
      moves = after_row ∙ ap (λ x. x +ℤ c.delta) (sym before);
      snapshots = λ other.
          quota_snapshot-Adjusted o py settings ctx c other a
          ∙ ap
              (λ i.
                if i == other
                then moved c.delta (quota_snapshot other db)
                else quota_snapshot other db)
              same_id;
    }

pub sub_restores : (l d : ℤ) → (l +ℤ d) +ℤ negated d ≡ l
sub_restores l d =
    eq_of_parts _ _
      (omega (int_laws, +ℤ_parts l d, -ℤ_parts (pos 0) d, +ℤ_parts (l +ℤ d) (negated d)))

-- The adjustment has a row, and another row reverses it.
pub record IsReversed (public_id : String) (db : Db) : Type 0 where
  pub row : QuotaAdjustment
  pub is_found : find (λ a. a.public_id == public_id) db.adjustments ≡ some row
  pub has_reversal : any (λ a. a.reverses_adjustment_id =? row.id) db.adjustments ≡ true

pub found_behind :
    (a : QuotaAdjustment) (public_id : String) (xs : List QuotaAdjustment) {x : QuotaAdjustment}
    → any (clashes a) xs ≡ false
    → find (λ y. y.public_id == public_id) xs ≡ some x
    → find (λ y. y.public_id == public_id) (a ∷ xs) ≡ some x
found_behind a public_id xs {x} free h =
    let apart : clashes a x ≡ false = absent-found (clashes a) _ xs free h in
    let own : (x.public_id == public_id) ≡ true = find_holds (λ y. y.public_id == public_id) xs h in
    elim (Bool-cases (a.public_id == public_id)) [
      | inl clash ↦
          let same : x.public_id ≡ a.public_id = same_text own ∙ sym (same_text clash) in
          let taken : (x.public_id == a.public_id) ≡ true =
            (string_eq.is_same_iff x.public_id a.public_id).0 same in
          absurd (ground (arith, apart, taken))
      | inr other ↦ rw other h
    ]

pub IsReversed-kept :
    (o : Outside) (py : Python) (settings : Settings) (public_id : String)
    → KeptByAdmin o py settings (IsReversed public_id)
IsReversed-kept o py settings public_id = record {
  on_untouched = λ db db' u h. record {
    row = h.row;
    is_found =
        subst (λ xs. find (λ a. a.public_id == public_id) xs ≡ some h.row) (sym u.same_adjustments)
          h.is_found;
    has_reversal =
        subst (λ xs. any (λ a. a.reverses_adjustment_id =? h.row.id) xs ≡ true)
          (sym u.same_adjustments) h.has_reversal;
  };
  on_adjusted = λ ctx c db db' a h. record {
    row = h.row;
    is_found =
        subst (λ xs. find (λ a. a.public_id == public_id) xs ≡ some h.row) (sym a.adjustments_grow)
          (found_behind a.row public_id db.adjustments a.not_taken h.is_found);
    has_reversal =
        subst (λ xs. any (λ a. a.reverses_adjustment_id =? h.row.id) xs ≡ true)
          (sym a.adjustments_grow) (rw (h.has_reversal) (ground arith));
  };
}

pub reversed_id-ok :
    (c : AdjustmentCall) (target : AppUser) (public_id : String) (db : Db) {original : Option Uuid}
    → c.reverses_public_id ≡ some public_id
    → (public_id == "") ≡ false
    → reversed_id c target db ≡ ok original
    → (row : QuotaAdjustment) × (find (λ a. a.public_id == public_id) db.adjustments ≡ some row)
      × (any (λ a. a.reverses_adjustment_id =? row.id) db.adjustments ≡ false)
      × (same_int c.delta (negated row.delta) ≡ true)
      × (original ≡ some row.id)
unfolding reversed_id
reversed_id-ok c target public_id db {original} is_reverse given h =
    let went = rw (is_reverse, reversed_id, given) at h in
    elim (Option-cases (find (λ a. a.public_id == public_id) db.adjustments)) [
      | inl missing ↦ absurd (cc (rw missing at went))
      | inr (row, is_found) ↦
          let on_row = rw is_found at went in
          (row, is_found, ground arith, ground arith, ground arith)
    ]

-- A reversal that returned is an adjustment by the row that it reverses.
pub record Reverses (o : Outside) (py : Python) (settings : Settings) (ctx : AdminContext)
    (public_id : String) (c : AdjustmentCall) (db db' : Db) : Type 0 where
  pub reversal : AdjustmentCall
  pub is_reversal_call : reversal_call public_id c db ≡ ok reversal
  pub is_adjusted : Adjusted o py settings ctx reversal db db'

pub reversal_call-ok :
    (public_id : String) (c : AdjustmentCall) (db : Db) {reversal : AdjustmentCall}
    → reversal_call public_id c db ≡ ok reversal
    → (row : QuotaAdjustment) × (target : AppUser) × (find
          (λ a. a.public_id == public_id)
          db.adjustments
        ≡ some row)
      × (find (λ u. row.target_user_id =? u.id) db.users ≡ some target)
      × (reversal ≡ record c {
        target_public_id = target.public_id;
        delta = negated row.delta;
        reverses_public_id = some public_id;
      })
unfolding reversal_call
reversal_call-ok public_id c db {reversal} h =
    elim (Option-cases (find (λ a. a.public_id == public_id) db.adjustments)) [
      | inl missing ↦ absurd (cc (rw (missing, reversal_call) at h))
      | inr (row, is_found) ↦
          elim (Option-cases (find (λ u. row.target_user_id =? u.id) db.users)) [
            | inl nobody ↦ absurd (cc (rw (is_found, reversal_call, nobody) at h))
            | inr (target, is_target) ↦ (
              row,
              target,
              is_found,
              is_target,
              cc (rw (is_found, reversal_call, is_target) at h),
            )
          ]
    ]
