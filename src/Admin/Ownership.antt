-- ===== src/Admin/Ownership.antt =====
-- The bootstrap of the owner writes no quota, and it happens once.
use travel_web_api.Admin.Audit.{audit_row, append_admin_audit}
use travel_web_api.Admin.Bootstrap.{
  BootstrapCall, is_bootstrap_of, promoted, bootstrap_audit, write_promotion, promote,
  bootstrap_configured_owner,
}
use travel_web_api.Admin.Context.{Outside}
use travel_web_api.Admin.Outcomes.{Untouched, Untouched-eq, claims_only, append_admin_audit-writes}
use travel_web_api.Db.Monad.{Db, ok, >>=-eq-ok}
use travel_web_api.Db.Users.{AppUser}
use travel_web_api.Prelude.{
  string_eq, nat_eq, ◌==◌, Bool-cases, Option-cases, find, any, ◌≡◌, refl, ◌∙◌, ◌⊎◌, inl, inr, ◌∷◌,
  arith,
}
use travel_web_api.Python.{Python}
use travel_web_api.Security.{Settings}

promote-writes :
    (o : Outside) (py : Python) (settings : Settings) (c : BootstrapCall) (u : AppUser) (db : Db)
    {r : AppUser} {db' : Db}
    → promote o py settings c u db ≡ ok (r, db')
    → (r ≡ promoted c.now u)
      × (db' ≡ record (write_promotion c u db) {
        audit = audit_row o py settings c.audit (bootstrap_audit c u) ∷ db.audit;
      })
unfolding promote
promote-writes o py settings c u db {r} {db'} h =
    let db1 = write_promotion c u db in
    let (_, db2, e2, k2) =
      >>=-eq-ok (append_admin_audit o py settings c.audit (bootstrap_audit c u)) _ db1 h in
    let last : db' ≡ db2 = cc k2 in
    (cc k2, last ∙ append_admin_audit-writes o py settings c.audit (bootstrap_audit c u) db1 e2)

bootstrap_cases :
    (o : Outside) (py : Python) (settings : Settings) (c : BootstrapCall) (db : Db) {r : AppUser}
    {db' : Db}
    → bootstrap_configured_owner o py settings c db ≡ ok (r, db')
    → (db' ≡ db) ⊎ ((u : AppUser) × (promote o py settings c u db ≡ ok (r, db')))
unfolding bootstrap_configured_owner
bootstrap_cases o py settings c db {r} {db'} h =
    elim (Option-cases (find (λ u. u.id == c.target_user_id) db.users)) [
      | inl nobody ↦ absurd (ground arith)
      | inr (u, is_user) ↦ elim (Bool-cases (any (is_bootstrap_of u) db.audit)) [
        | inl again ↦ inl (ground arith)
        | inr first ↦
            let went : promote o py settings c u db ≡ ok (r, db') = ground arith in inr (u, went)
      ]
    ]

-- The quota's tables are left alone.
pub bootstrap_configured_owner-Untouched :
    (o : Outside) (py : Python) (settings : Settings) (c : BootstrapCall) (db : Db) {r : AppUser}
    {db' : Db}
    → bootstrap_configured_owner o py settings c db ≡ ok (r, db')
    → Untouched db db'
bootstrap_configured_owner-Untouched o py settings c db h =
    elim (bootstrap_cases o py settings c db h) [
      | inl kept ↦ Untouched-eq kept (claims_only db.claims db)
      | inr (u, went) ↦ Untouched-eq (promote-writes o py settings c u db went).1 (record {
        same_trips = refl;
        same_entries = refl;
        same_grants = refl;
        same_adjustments = refl;
      })
    ]
