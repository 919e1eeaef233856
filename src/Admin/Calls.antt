-- ===== src/Admin/Calls.antt =====
-- Any sequence of the administrators' operations, and of these with the calls of the quota service.
use travel_web_api.Admin.Adjustments.{
  AdjustmentCall, is_reversal, adjustment_claim, adjust_claimed, create_quota_adjustment,
  reversal_call, reverse_quota_adjustment,
}
use travel_web_api.Admin.Balances.{Adjusted, adjust_claimed-Adjusted}
use travel_web_api.Admin.Bootstrap.{BootstrapCall, bootstrap_configured_owner}
use travel_web_api.Admin.Context.{Outside, AdminContext}
use travel_web_api.Admin.Invitations.{
  DisableCall, disable_claim, disable_claimed, disable_invitation_resource,
}
use travel_web_api.Admin.Outcomes.{
  Untouched, Untouched-eq, claims_only, replayed, performed, under_claim-Ran,
}
use travel_web_api.Admin.Ownership.{bootstrap_configured_owner-Untouched}
use travel_web_api.Admin.Protection.{mutate_user-cases}
use travel_web_api.Admin.Retired.{disable_claimed-Untouched}
use travel_web_api.Admin.Users.{
  under_claim, UserMutation, mutation_claim, mutate_claimed, mutate_user,
}
use travel_web_api.Auth.Verify.{refused}
use travel_web_api.Db.Grants.{AdminIdempotency}
use travel_web_api.Db.Monad.{Db, transaction, Result-cases, transaction-keeps}
use travel_web_api.Prelude.{String, refl, sym, subst, inl, inr, List, [], ◌∷◌}
use travel_web_api.Python.{Python}
use travel_web_api.Quota.Sequences.{Call, run_call}
use travel_web_api.Security.{Settings}

-- An operation with its actor and arguments.
pub data AdminCall : Type 0 where
  change_user : AdminContext → UserMutation → AdminCall
  adjust : AdminContext → AdjustmentCall → AdminCall
  reverse_adjustment : AdminContext → String → AdjustmentCall → AdminCall
  disable_codes : AdminContext → DisableCall → AdminCall
  bootstrap : BootstrapCall → AdminCall

pub data AnyCall : Type 0 where
  by_service : Call → AnyCall
  by_admin : AdminCall → AnyCall

-- What the operations keep.
pub record KeptByAdmin {κ} (o : Outside) (py : Python) (settings : Settings) (P : Db → Type κ)
    : Type κ where
  pub on_untouched : (db db' : Db) → Untouched db db' → P db → P db'
  pub on_adjusted :
      (ctx : AdminContext) (c : AdjustmentCall) (db db' : Db)
      → Adjusted o py settings ctx c db db'
      → P db
      → P db'

module _ (o : Outside) (py : Python) (settings : Settings) where
  -- The database after it, whether it returned or raised.
  unfoldable pub run_admin_call : AdminCall → Db → Db
  run_admin_call (change_user ctx m) db = (mutate_user o py settings ctx m db).1
  run_admin_call (adjust ctx c) db = (create_quota_adjustment o py settings ctx c db).1
  run_admin_call (reverse_adjustment ctx public_id c) db =
      (reverse_quota_adjustment o py settings ctx public_id c db).1
  run_admin_call (disable_codes ctx c) db = (disable_invitation_resource o py settings ctx c db).1
  run_admin_call (bootstrap c) db = (transaction (bootstrap_configured_owner o py settings c) db).1

  unfoldable pub run_admin_calls : List AdminCall → Db → Db
  run_admin_calls [] db = db
  run_admin_calls (c ∷ cs) db = run_admin_calls cs (run_admin_call c db)

  unfoldable pub run_any_call : AnyCall → Db → Db
  run_any_call (by_service c) db = run_call py c db
  run_any_call (by_admin c) db = run_admin_call c db

  unfoldable pub run_any_calls : List AnyCall → Db → Db
  run_any_calls [] db = db
  run_any_calls (c ∷ cs) db = run_any_calls cs (run_any_call c db)

  module _ {κ} {P : Db → Type κ} (kept : KeptByAdmin o py settings P) where
    mutate_user-keeps :
        (ctx : AdminContext) (m : UserMutation) (db : Db)
        → P db
        → P (mutate_user o py settings ctx m db).1
    unfolding mutate_user
    mutate_user-keeps ctx m db h =
        transaction-keeps P
          (under_claim o py settings (mutation_claim o ctx m) (mutate_claimed o py settings ctx m))
          db
          (λ r db' e. elim (mutate_user-cases o py settings ctx m db e) [
            | inl (_, rest) ↦ kept.on_untouched db db' rest h
            | inr ch ↦ kept.on_untouched db db' ch.untouched h
          ])
          h

    create_quota_adjustment-keeps :
        (ctx : AdminContext) (c : AdjustmentCall) (db : Db)
        → P db
        → P (create_quota_adjustment o py settings ctx c db).1
    unfolding create_quota_adjustment
    create_quota_adjustment-keeps ctx c db h =
        let body =
          under_claim o py settings (adjustment_claim o ctx c)
            (adjust_claimed o py settings ctx c) in
        let same = λ (cs : List AdminIdempotency).
          kept.on_untouched db (record db { claims = cs })
            (record {
              same_trips = refl;
              same_entries = refl;
              same_grants = refl;
              same_adjustments = refl;
            })
            h in
        transaction-keeps P body db
          (λ r db' e.
            elim (under_claim-Ran o py settings (adjustment_claim o ctx c)
              (adjust_claimed o py settings ctx c) db e) [
                | replayed cs is_same ↦ subst P (sym is_same) (same cs)
                | performed w cs ran ↦
                    kept.on_adjusted ctx c (record db { claims = cs }) db'
                      (adjust_claimed-Adjusted o py settings ctx c w (record db { claims = cs })
                        ran)
                      (same cs)
              ])
          h

    reverse_quota_adjustment-keeps :
        (ctx : AdminContext) (public_id : String) (c : AdjustmentCall) (db : Db)
        → P db
        → P (reverse_quota_adjustment o py settings ctx public_id c db).1
    unfolding reverse_quota_adjustment
    reverse_quota_adjustment-keeps ctx public_id c db h =
        elim (Result-cases (reversal_call public_id c db)) [
          | inl (x, refused) ↦ rw (refused, reverse_quota_adjustment) h
          | inr (reversal, is_reversal) ↦
              rw (is_reversal, reverse_quota_adjustment)
                (create_quota_adjustment-keeps ctx reversal db h)
        ]

    disable_invitation_resource-keeps :
        (ctx : AdminContext) (c : DisableCall) (db : Db)
        → P db
        → P (disable_invitation_resource o py settings ctx c db).1
    unfolding disable_invitation_resource
    disable_invitation_resource-keeps ctx c db h =
        let operation = disable_claimed o py settings ctx c in
        transaction-keeps P (under_claim o py settings (disable_claim o ctx c) operation) db
          (λ r db' e. elim (under_claim-Ran o py settings (disable_claim o ctx c) operation db e) [
            | replayed cs is_same ↦
                kept.on_untouched db db' (Untouched-eq is_same (claims_only cs db)) h
            | performed w cs ran ↦
                kept.on_untouched db db' (disable_claimed-Untouched o py settings ctx c w cs db ran)
                  h
          ])
          h

    pub run_admin_call-keeps : (c : AdminCall) (db : Db) → P db → P (run_admin_call c db)
    unfolding run_admin_call
    run_admin_call-keeps (change_user ctx m) db h = mutate_user-keeps ctx m db h
    run_admin_call-keeps (adjust ctx c) db h = create_quota_adjustment-keeps ctx c db h
    run_admin_call-keeps (reverse_adjustment ctx public_id c) db h =
        reverse_quota_adjustment-keeps ctx public_id c db h
    run_admin_call-keeps (disable_codes ctx c) db h = disable_invitation_resource-keeps ctx c db h
    run_admin_call-keeps (bootstrap c) db h =
        transaction-keeps P (bootstrap_configured_owner o py settings c) db
          (λ r db' e.
            kept.on_untouched db db' (bootstrap_configured_owner-Untouched o py settings c db e) h)
          h

    pub run_admin_calls-keeps : (cs : List AdminCall) (db : Db) → P db → P (run_admin_calls cs db)
    unfolding run_admin_calls
    run_admin_calls-keeps [] db h = h
    run_admin_calls-keeps (c ∷ cs) db h =
        run_admin_calls-keeps cs (run_admin_call c db) (run_admin_call-keeps c db h)

    pub run_any_calls-keeps :
        ((c : Call) (db : Db) → P db → P (run_call py c db))
        → (cs : List AnyCall) (db : Db) → P db
        → P (run_any_calls cs db)
    unfolding run_any_calls run_any_call
    run_any_calls-keeps served [] db h = h
    run_any_calls-keeps served (by_service c ∷ cs) db h =
        run_any_calls-keeps served cs (run_call py c db) (served c db h)
    run_any_calls-keeps served (by_admin c ∷ cs) db h =
        run_any_calls-keeps served cs (run_admin_call c db) (run_admin_call-keeps c db h)
