-- ===== src/Admin/Outcomes.antt =====
-- What an operation under an idempotency key wrote, if it returned.
use travel_web_api.Admin.Audit.{Drawn, AuditEntry, audit_row, append_admin_audit}
use travel_web_api.Admin.Context.{Outside, AdminContext}
use travel_web_api.Admin.Idempotency.{
  AdminIdempotencyClaim, ClaimCall, replay_response, admin_actor_scope_hash, new_claim, is_claim_of,
  checked_claim, claim_admin_idempotency, completed, complete_admin_idempotency,
}
use travel_web_api.Admin.Users.{replayed_or, on_claim, under_claim}
use travel_web_api.Db.Grants.{AdminIdempotency}
use travel_web_api.Db.Monad.{Db, Result, ok, err, Tx, pure, ◌>>◌, >>=-eq-ok}
use travel_web_api.Db.Users.{Uuid, Time, Digest}
use travel_web_api.Json.{JsonObject}
use travel_web_api.Prelude.{
  string_eq, nat_eq, ◌==◌, Option-cases, find, update_where, ℕ, String, ◌≡◌, refl, sym, ap, ◌∙◌,
  subst, ◌⊎◌, inl, inr, true, Option, none, some, List, ◌∷◌, arith,
}
use travel_web_api.Python.{Python}
use travel_web_api.Security.{Settings}

-- The tables of the quota are the same.
pub record Untouched (db db' : Db) : Type 0 where
  pub same_trips : db'.trips ≡ db.trips
  pub same_entries : db'.entries ≡ db.entries
  pub same_grants : db'.grants ≡ db.grants
  pub same_adjustments : db'.adjustments ≡ db.adjustments

pub Untouched-eq : {db d db' : Db} → db' ≡ d → Untouched db d → Untouched db db'
Untouched-eq {db} e u = subst (Untouched db) (sym e) u

pub claims_only : (cs : List AdminIdempotency) (db : Db) → Untouched db (record db { claims = cs })
claims_only cs db = record {
  same_trips = refl;
  same_entries = refl;
  same_grants = refl;
  same_adjustments = refl;
}

-- A claim writes the claims alone.
pub claim_admin_idempotency-writes :
    (request_hash_of : String → JsonObject → Digest) (py : Python) (settings : Settings)
    (c : ClaimCall) (db : Db) {w : AdminIdempotencyClaim} {db' : Db}
    → claim_admin_idempotency request_hash_of py settings c db ≡ ok (w, db')
    → (cs : List AdminIdempotency) × (db' ≡ record db { claims = cs })
unfolding claim_admin_idempotency checked_claim
claim_admin_idempotency-writes request_hash_of py settings c db {db' = db'} h =
    let scope = admin_actor_scope_hash py settings c.actor_text in
    elim (Option-cases (find (is_claim_of scope c.idempotency_key) db.claims)) [
      | inl new ↦ (new_claim c scope (request_hash_of c.action c.payload) ∷ db.claims, ground arith)
      | inr (x, old) ↦ (db.claims, ground arith)
    ]

-- Without a claim of the key, the request does not replay.
claim_admin_idempotency-new :
    (request_hash_of : String → JsonObject → Digest) (py : Python) (settings : Settings)
    (c : ClaimCall) (db : Db) {w : AdminIdempotencyClaim} {db' : Db}
    → find
        (is_claim_of (admin_actor_scope_hash py settings c.actor_text) c.idempotency_key)
        db.claims
      ≡ none
    → claim_admin_idempotency request_hash_of py settings c db ≡ ok (w, db')
    → replay_response w ≡ ok none
unfolding claim_admin_idempotency checked_claim replay_response
claim_admin_idempotency-new request_hash_of py settings c db {w} {db'} new h =
    let scope = admin_actor_scope_hash py settings c.actor_text in
    let row = new_claim c scope (request_hash_of c.action c.payload) in
    let made : w ≡ record { claimed = row; created = true } = ground arith in rw made refl

pub append_admin_audit-writes :
    (o : Outside) (py : Python) (settings : Settings) (d : Drawn) (a : AuditEntry) (db : Db)
    {u : Unit {0}} {db' : Db}
    → append_admin_audit o py settings d a db ≡ ok (u, db')
    → db' ≡ record db { audit = audit_row o py settings d a ∷ db.audit }
unfolding append_admin_audit
append_admin_audit-writes o py settings d a db h = ground arith

complete_admin_idempotency-writes :
    (w : AdminIdempotencyClaim) (http : ℕ) (body : JsonObject) (now : Time) (db : Db) {u : Unit {0}}
    {db' : Db}
    → complete_admin_idempotency w http body now db ≡ ok (u, db')
    → (cs : List AdminIdempotency) × (db' ≡ record db { claims = cs })
unfolding complete_admin_idempotency
complete_admin_idempotency-writes w http body now db h =
    (update_where (λ x. x.id == w.claimed.id) (completed http body now) db.claims, ground arith)

-- The end that the operations share: an audit row, and the answer kept under the key.
pub recorded :
    (o : Outside) (py : Python) (settings : Settings) (d : Drawn) (a : AuditEntry)
    (w : AdminIdempotencyClaim) (http : ℕ) (body : JsonObject) (now : Time) (db : Db)
    {r : JsonObject} {db' : Db}
    → (append_admin_audit o py settings d a
          >> (complete_admin_idempotency w http body now >> pure body))
        db
      ≡ ok (r, db')
    → (cs : List AdminIdempotency) × (db'
        ≡ record db { audit = audit_row o py settings d a ∷ db.audit; claims = cs })
      × (r ≡ body)
recorded o py settings d a w http body now db {r} {db'} h =
    let (_, db1, e1, k1) = >>=-eq-ok (append_admin_audit o py settings d a) _ db h in
    let (_, db2, e2, k2) = >>=-eq-ok (complete_admin_idempotency w http body now) _ db1 k1 in
    let (cs, same) = complete_admin_idempotency-writes w http body now db1 e2 in
    let last : db' ≡ db2 = cc k2 in
    (
      cs,
      last
          ∙ same
          ∙ ap (λ (d : Db). record d { claims = cs })
              (append_admin_audit-writes o py settings d a db e1),
      cc k2,
    )

-- An operation that returned replayed its answer, or ran after its claim.
pub data Ran (o : Outside) (py : Python) (settings : Settings) (c : ClaimCall)
    (operation : AdminIdempotencyClaim → Tx JsonObject) (db : Db) (r : JsonObject) (db' : Db)
    : Type 0 where
  replayed :
      (cs : List AdminIdempotency)
      → db' ≡ record db { claims = cs }
      → Ran o py settings c operation db r db'
  performed :
      (w : AdminIdempotencyClaim) (cs : List AdminIdempotency)
      → operation w (record db { claims = cs }) ≡ ok (r, db')
      → Ran o py settings c operation db r db'

replayed_or-cases :
    (s : Result (Option (ℕ × JsonObject))) (operation : Tx JsonObject) (db : Db) {r : JsonObject}
    {db' : Db}
    → replayed_or s operation db ≡ ok (r, db')
    → (db' ≡ db) ⊎ (operation db ≡ ok (r, db'))
replayed_or-cases (err e) operation db h = cc h
replayed_or-cases (ok (some (http, body))) operation db h = inl (cc h)
replayed_or-cases (ok none) operation db h = inr h

on_claim-cases :
    (s : Result (AdminIdempotencyClaim × Db)) (operation : AdminIdempotencyClaim → Tx JsonObject)
    {r : JsonObject} {db' : Db}
    → on_claim s operation ≡ ok (r, db')
    → (w : AdminIdempotencyClaim) × (db1 : Db) × (s ≡ ok (w, db1))
      × (replayed_or (replay_response w) (operation w) db1 ≡ ok (r, db'))
on_claim-cases (err e) operation h = cc h
on_claim-cases (ok (w, db1)) operation h = (w, db1, refl, h)

pub under_claim-Ran :
    (o : Outside) (py : Python) (settings : Settings) (c : ClaimCall)
    (operation : AdminIdempotencyClaim → Tx JsonObject) (db : Db) {r : JsonObject} {db' : Db}
    → under_claim o py settings c operation db ≡ ok (r, db')
    → Ran o py settings c operation db r db'
unfolding under_claim
under_claim-Ran o py settings c operation db {r} {db'} h =
    let (w, db1, claimed, went) =
      on_claim-cases (claim_admin_idempotency o.request_hash_of py settings c db) operation h in
    let (cs, same) = claim_admin_idempotency-writes o.request_hash_of py settings c db claimed in
    elim (replayed_or-cases (replay_response w) (operation w) db1 went) [
      | inl kept ↦ replayed cs (kept ∙ same)
      | inr ran ↦ performed w cs (subst (λ d. operation w d ≡ ok (r, db')) same ran)
    ]

-- The key is new for the actor.
abbrev pub IsNewKey : Outside → Python → Settings → AdminContext → Uuid → Db → Type 0
IsNewKey o py settings ctx key db =
    find (is_claim_of (admin_actor_scope_hash py settings (o.uuid_text ctx.auth.user.id)) key)
      db.claims
    ≡ none

-- With a new key, the operation ran.
pub under_claim-new :
    (o : Outside) (py : Python) (settings : Settings) (c : ClaimCall)
    (operation : AdminIdempotencyClaim → Tx JsonObject) (db : Db) {r : JsonObject} {db' : Db}
    → find
        (is_claim_of (admin_actor_scope_hash py settings c.actor_text) c.idempotency_key)
        db.claims
      ≡ none
    → under_claim o py settings c operation db ≡ ok (r, db')
    → (w : AdminIdempotencyClaim) × (cs : List AdminIdempotency) × (operation w
          (record db { claims = cs })
        ≡ ok (r, db'))
unfolding under_claim
under_claim-new o py settings c operation db {r} {db'} new h =
    let (w, db1, claimed, went) =
      on_claim-cases (claim_admin_idempotency o.request_hash_of py settings c db) operation h in
    let (cs, same) = claim_admin_idempotency-writes o.request_hash_of py settings c db claimed in
    let fresh = claim_admin_idempotency-new o.request_hash_of py settings c db new claimed in
    let ran : operation w db1 ≡ ok (r, db') = rw fresh at went in
    (w, cs, subst (λ d. operation w d ≡ ok (r, db')) same ran)
