-- ===== src/Auth/Registration.antt =====
-- The quota that a registration gives.
use travel_web_api.Auth.Outcomes.{register_with-eq-ok}
use travel_web_api.Auth.Verify.{AuthVerification, VerifyCall, registration_grant, register_with}
use travel_web_api.Db.Monad.{Db, ok}
use travel_web_api.Db.Statuses.{reserved, consumed}
use travel_web_api.Db.Users.{Uuid}
use travel_web_api.Prelude.{ℕ, ◌+◌, String, ◌≡◌, ap, ◌∙◌, some, ◌∷◌, arith}
use travel_web_api.Prelude.Int.{ℤ, pos, ◌+ℤ◌, +ℤ_parts, parts_disjoint, eq_of_parts}
use travel_web_api.Python.{Python}
use travel_web_api.Quota.Snapshot.{granted, adjusted, units_in, quota_snapshot}
use travel_web_api.Security.{Settings}

more_granted : (n g : ℕ) (a : ℤ) → pos (n + g) +ℤ a ≡ pos g +ℤ a +ℤ pos n
more_granted n g a = eq_of_parts _ _ (
    omega (
      arith,
      +ℤ_parts (pos (n + g)) a,
      +ℤ_parts (pos g) a,
      +ℤ_parts (pos g +ℤ a) (pos n),
      parts_disjoint (pos (n + g) +ℤ a),
      parts_disjoint (pos g +ℤ a +ℤ pos n),
      parts_disjoint (pos g +ℤ a),
    ))

same_units :
    (user : Uuid) (db db' : Db)
    → db'.entries ≡ db.entries
    → (quota_snapshot user db').reserved_units ≡ (quota_snapshot user db).reserved_units
unfolding quota_snapshot
same_units user db db' same = ap (units_in user reserved) same

same_used :
    (user : Uuid) (db db' : Db)
    → db'.entries ≡ db.entries
    → (quota_snapshot user db').consumed_units ≡ (quota_snapshot user db).consumed_units
unfolding quota_snapshot
same_used user db db' same = ap (units_in user consumed) same

registered_limit :
    (settings : Settings) (c : VerifyCall) (db db' : Db)
    → db'.grants ≡ registration_grant settings c c.user.id ∷ db.grants
    → db'.adjustments ≡ db.adjustments
    → (quota_snapshot c.user.id db').limit
      ≡ (quota_snapshot c.user.id db).limit +ℤ pos settings.beta_quota_limit
unfolding quota_snapshot
registered_limit settings c db db' grants_same same =
    let counted : granted c.user.id db'.grants
        ≡ settings.beta_quota_limit + granted c.user.id db.grants =
      ap (granted c.user.id) grants_same ∙ ground arith in
    rw (counted, same)
      (more_granted settings.beta_quota_limit (granted c.user.id db.grants)
        (adjusted c.user.id db.adjustments))

-- A registration that returns gives the new user `beta_quota_limit` units on top of what the id
-- had, reserves and consumes none, and returns the token of the new session.
pub register_with_quota :
    (py : Python) (settings : Settings) (c : VerifyCall) (email : String) (i : Uuid) (db db' : Db)
    (r : AuthVerification)
    → register_with py settings c email i db ≡ ok (r, db')
    → let before = quota_snapshot c.user.id db in
      let after = quota_snapshot c.user.id db' in
      (after.limit ≡ before.limit +ℤ pos settings.beta_quota_limit)
      × (after.reserved_units ≡ before.reserved_units)
      × (after.consumed_units ≡ before.consumed_units)
      × (r.session_token ≡ some c.raw_token)
register_with_quota py settings c email i db db' r e =
    let (rest, grants_same, is_r) = register_with-eq-ok py settings c email i db e in
    (
      registered_limit settings c db db' grants_same rest.same_adjustments,
      same_units c.user.id db db' rest.same_entries,
      same_used c.user.id db db' rest.same_entries,
      ap (λ (x : AuthVerification). x.session_token) is_r,
    )
