-- ===== src/Admin/Solvency.antt =====
-- Adjustments and the calls of the quota service together: the balance that an adjustment reports,
-- and that nobody is ever oversold.
use travel_web_api.Admin.Adjustments.{AdjustmentCall}
use travel_web_api.Admin.Balances.{Adjusted}
use travel_web_api.Admin.Calls.{AnyCall, KeptByAdmin, run_any_calls, run_any_calls-keeps}
use travel_web_api.Admin.Context.{Outside, AdminContext}
use travel_web_api.Db.Monad.{Db}
use travel_web_api.Db.Users.{Uuid}
use travel_web_api.Prelude.{
  if◌then◌else◌, string_eq, nat_eq, ◌==◌, Bool-cases, count_where, All, ◌+◌, ◌≤◌, ◌≡◌, refl, sym,
  ap, ◌∙◌, subst, inl, inr, false, List, arith,
}
use travel_web_api.Prelude.Int.{
  ℤ, pos, pos_part, neg_part, ◌+ℤ◌, ◌-ℤ◌, ltb_ℤ, +ℤ_parts, -ℤ_parts, eq_of_parts, int_laws,
}
use travel_web_api.Python.{Python}
use travel_web_api.Quota.Ledger.{trip_key, entry_key, IsLinked, is_trip_in, Ledger}
use travel_web_api.Quota.Limits.{IsWithin, Solvent, Solvent-SameQuota}
use travel_web_api.Quota.Snapshot.{
  QuotaSnapshot, remaining, granted, adjusted, units_in, quota_snapshot,
}
use travel_web_api.Quota.Solvency.{IsSound, run_call-IsSound}
use travel_web_api.Rows.{Distinct}
use travel_web_api.Security.{Settings}

add_between : (g d a : ℤ) → g +ℤ (d +ℤ a) ≡ (g +ℤ a) +ℤ d
add_between g d a =
    eq_of_parts _ _
      (omega (int_laws, +ℤ_parts d a, +ℤ_parts g a, +ℤ_parts g (d +ℤ a), +ℤ_parts (g +ℤ a) d))

add_zero : (g a : ℤ) → g +ℤ (pos 0 +ℤ a) ≡ g +ℤ a
add_zero g a =
    eq_of_parts _ _ (omega (int_laws, +ℤ_parts (pos 0) a, +ℤ_parts g a, +ℤ_parts g (pos 0 +ℤ a)))

-- The snapshot with the limit moved by `d`.
abbrev pub moved : ℤ → QuotaSnapshot → QuotaSnapshot
moved d q = record q { limit = q.limit +ℤ d }

pub quota_snapshot-Adjusted :
    (o : Outside) (py : Python) (settings : Settings) (ctx : AdminContext) (c : AdjustmentCall)
    {db db' : Db} (user : Uuid) (a : Adjusted o py settings ctx c db db')
    → quota_snapshot user db' ≡ (
        if a.target.id == user
        then moved c.delta (quota_snapshot user db)
        else quota_snapshot user db)
unfolding quota_snapshot
quota_snapshot-Adjusted o py settings ctx c {db} {db'} user a =
    elim (Bool-cases (a.target.id == user)) [
      | inl own ↦
          rw
            (
              a.same_grants,
              a.same_entries,
              a.adjustments_grow,
              a.same_target,
              own,
              a.same_delta,
              add_between (pos (granted user db.grants)) c.delta (adjusted user db.adjustments),
            )
            refl
      | inr other ↦
          rw
            (
              a.same_grants,
              a.same_entries,
              a.adjustments_grow,
              a.same_target,
              other,
              add_zero (pos (granted user db.grants)) (adjusted user db.adjustments),
            )
            refl
    ]

-- With the user within the limit, what is left is what the limit leaves.
room :
    (q : QuotaSnapshot)
    → IsWithin q
    → pos_part q.limit ≡ remaining q + q.reserved_units + q.consumed_units + neg_part q.limit
room q h = omega (
  int_laws,
  -ℤ_parts q.limit (pos q.reserved_units),
  -ℤ_parts (q.limit -ℤ pos q.reserved_units) (pos q.consumed_units),
)

moved-IsWithin :
    (d : ℤ) (q : QuotaSnapshot)
    → IsWithin q
    → ltb_ℤ (pos (remaining q) +ℤ d) (pos 0) ≡ false
    → IsWithin (moved d q) × (pos (remaining (moved d q)) ≡ pos (remaining q) +ℤ d)
moved-IsWithin d q h enough =
    let left = room q h in
    let positive : neg_part (pos (remaining q) +ℤ d) ≤ pos_part (pos (remaining q) +ℤ d) =
      ground (arith, enough) in
    let within : IsWithin (moved d q) =
      omega (int_laws, left, positive, +ℤ_parts (pos (remaining q)) d, +ℤ_parts q.limit d) in
    let left' = room (moved d q) within in
    (
      within,
      eq_of_parts _ _ (
          omega
            (int_laws, left, left', positive, +ℤ_parts (pos (remaining q)) d, +ℤ_parts q.limit d)),
    )

Ledger-same :
    {db db' : Db} → db'.trips ≡ db.trips → db'.entries ≡ db.entries → Ledger db → Ledger db'
Ledger-same {db} {db'} trips entries h = record {
  trip_ids = subst (Distinct trip_key) (sym trips) h.trip_ids;
  entry_ids = subst (Distinct entry_key) (sym entries) h.entry_ids;
  links =
      subst (λ es. All (IsLinked es) db'.trips) (sym entries)
        (subst (All (IsLinked db.entries)) (sym trips) h.links);
  balance = λ user s.
      ap (units_in user s) entries
      ∙ h.balance user s
      ∙ ap (count_where (is_trip_in user s)) (sym trips);
}

-- The target's snapshot after an adjustment: the limit moves by the delta, and so does what is left.
pub Adjusted-balance :
    (o : Outside) (py : Python) (settings : Settings) (ctx : AdminContext) (c : AdjustmentCall)
    {db db' : Db}
    → Solvent db
    → (a : Adjusted o py settings ctx c db db')
    → let q = quota_snapshot a.target.id db in
      IsWithin (moved c.delta q)
      × (pos (remaining (moved c.delta q)) ≡ pos (remaining q) +ℤ c.delta)
Adjusted-balance o py settings ctx c {db} h a =
    let q = quota_snapshot a.target.id db in
    let enough : ltb_ℤ (pos (remaining q) +ℤ c.delta) (pos 0) ≡ false =
      subst (λ x. ltb_ℤ x (pos 0) ≡ false) a.after_now a.enough in
    moved-IsWithin c.delta q (h.within a.target.id) enough

Adjusted-Solvent :
    (o : Outside) (py : Python) (settings : Settings) (ctx : AdminContext) (c : AdjustmentCall)
    {db db' : Db}
    → Solvent db
    → Adjusted o py settings ctx c db db'
    → Solvent db'
Adjusted-Solvent o py settings ctx c {db} {db'} h a = record {
  within = λ user.
      subst IsWithin (sym (quota_snapshot-Adjusted o py settings ctx c user a))
        (elim (Bool-cases (a.target.id == user)) [
          | inl own ↦
              let mine : a.target.id ≡ user = ground (arith, own) in
              rw own (
                subst (λ u. IsWithin (moved c.delta (quota_snapshot u db))) mine
                  (Adjusted-balance o py settings ctx c h a).0)
          | inr other ↦ rw other (h.within user)
        ]);
}

IsSound-kept : (o : Outside) (py : Python) (settings : Settings) → KeptByAdmin o py settings IsSound
IsSound-kept o py settings = record {
  on_untouched = λ db db' u h. record {
    ledger = Ledger-same u.same_trips u.same_entries h.ledger;
    solvent =
        Solvent-SameQuota
          (record {
            same_grants = u.same_grants;
            same_adjustments = u.same_adjustments;
            same_entries = u.same_entries;
          })
          h.solvent;
  };
  on_adjusted = λ ctx c db db' a h. record {
    ledger = Ledger-same a.same_trips a.same_entries h.ledger;
    solvent = Adjusted-Solvent o py settings ctx c h.solvent a;
  };
}

-- From a sound database, after any sequence of calls of the quota service and of adjustments,
-- reversals, user changes and disabled invitations by administrators and the bootstrap of the owner,
-- each returned or raised, no user has more units reserved and consumed together than the grants and
-- adjustments allow.
pub run_any_calls-IsWithin :
    (o : Outside) (py : Python) (settings : Settings) (cs : List AnyCall) (db : Db) (user : Uuid)
    → IsSound db
    → IsWithin (quota_snapshot user (run_any_calls o py settings cs db))
run_any_calls-IsWithin o py settings cs db user h =
    (run_any_calls-keeps o py settings (IsSound-kept o py settings) (run_call-IsSound py) cs db
        h).solvent.within
      user
