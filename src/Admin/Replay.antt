-- ===== src/Admin/Replay.antt =====
-- What an idempotency key promises: the winner's answer, and nothing for another request.
use travel_web_api.Admin.Idempotency.{
  AdminIdempotencyClaim, ClaimCall, replay_response, admin_actor_scope_hash, new_claim, is_claim_of,
  is_in_progress, checked_claim, claim_admin_idempotency, completed, complete_admin_idempotency,
}
use travel_web_api.Db.Grants.{AdminIdempotency}
use travel_web_api.Db.Monad.{Db, admin_idempotency_conflict, ok, err}
use travel_web_api.Db.Users.{Uuid, Time, Digest}
use travel_web_api.Json.{JsonObject}
use travel_web_api.Prelude.{
  if◌then◌else◌, string_eq, nat_eq, ◌==◌, Bool-cases, Option-cases, find, update_where, ℕ, String,
  ◌≡◌, refl, sym, ap, ◌∙◌, inl, inr, Bool, true, false, some, List, ◌∷◌, arith,
}
use travel_web_api.Python.{Python}
use travel_web_api.Security.{Settings}

checked_claim-eq-ok :
    (h : Digest) (b : Bool) (x : AdminIdempotency) (db : Db) {w : AdminIdempotencyClaim} {db' : Db}
    → checked_claim h b x db ≡ ok (w, db')
    → (w.claimed ≡ x) × (w.created ≡ b) × (db' ≡ db)
unfolding checked_claim
checked_claim-eq-ok h b x db e = ground arith

-- A row that has succeeded is answered to the same request, and to no other.
checked_claim_replays :
    (h : Digest) (x : AdminIdempotency) (db : Db)
    → is_in_progress x.state ≡ false
    → checked_claim h false x db ≡ (
        if x.request_hash == h
        then ok (record { claimed = x; created = false }, db)
        else err admin_idempotency_conflict)
unfolding checked_claim
checked_claim_replays h x db over = elim (Bool-cases (x.request_hash == h)) [
  | inl same ↦ rw (same, over) refl
  | inr other ↦ rw other refl
]

complete-eq-ok :
    (w : AdminIdempotencyClaim) (http : ℕ) (body : JsonObject) (now : Time) (db : Db) {db' : Db}
    → complete_admin_idempotency w http body now db ≡ ok (tt, db')
    → (w.created ≡ true)
      × (db' ≡ record db {
        claims = update_where (λ x. x.id == w.claimed.id) (completed http body now) db.claims;
      })
unfolding complete_admin_idempotency
complete-eq-ok w http body now db e = elim (Bool-cases w.created) [
  | inl made ↦ (made, cc (rw (made, complete_admin_idempotency) at e))
  | inr lost ↦ absurd (cc (rw (lost, complete_admin_idempotency) at e))
]

-- The completed row is found under its key.
found_completed :
    (scope : Digest) (key : Uuid) (x : AdminIdempotency) (http : ℕ) (body : JsonObject) (now : Time)
    (xs : List AdminIdempotency)
    → x.actor_scope_hash ≡ scope
    → x.idempotency_key ≡ key
    → find
        (is_claim_of scope key)
        (update_where (λ y. y.id == x.id) (completed http body now) (x ∷ xs))
      ≡ some (completed http body now x)
found_completed scope key x http body now xs own_scope own_key = ground arith

module _ (request_hash_of : String → JsonObject → Digest) (py : Python) (settings : Settings) where
  claim_found :
      (c : ClaimCall) (x : AdminIdempotency) (db : Db)
      → find
          (is_claim_of (admin_actor_scope_hash py settings c.actor_text) c.idempotency_key)
          db.claims
        ≡ some x
      → claim_admin_idempotency request_hash_of py settings c db
        ≡ checked_claim (request_hash_of c.action c.payload) false x db
  unfolding claim_admin_idempotency
  claim_found c x db is_found = rw (is_found, claim_admin_idempotency) refl

  -- A winning claim stands first in the table, with the request's own key and hash.
  claim_created :
      (c : ClaimCall) (db : Db) {w : AdminIdempotencyClaim} {db' : Db}
      → claim_admin_idempotency request_hash_of py settings c db ≡ ok (w, db')
      → w.created ≡ true
      → (w.claimed
          ≡ new_claim c
              (admin_actor_scope_hash py settings c.actor_text)
              (request_hash_of c.action c.payload))
        × (db' ≡ record db { claims = w.claimed ∷ db.claims })
  unfolding claim_admin_idempotency
  claim_created c db {w} {db'} e made =
      let scope = admin_actor_scope_hash py settings c.actor_text in
      let row = new_claim c scope (request_hash_of c.action c.payload) in
      elim (Option-cases (find (is_claim_of scope c.idempotency_key) db.claims)) [
        | inl new ↦
            let went : checked_claim (request_hash_of c.action c.payload) true row
                  (record db { claims = row ∷ db.claims })
                ≡ ok (w, db') =
              ground arith in
            let (is_row, _, same) =
              checked_claim-eq-ok _ true row (record db { claims = row ∷ db.claims }) went in
            (
              is_row,
              same
                  ∙ ap (λ (x : AdminIdempotency). record db { claims = x ∷ db.claims })
                      (sym is_row),
            )
        | inr (x, old) ↦
            let went = sym (claim_found c x db old) ∙ e in
            absurd (cc (made, (checked_claim-eq-ok _ false x db went).1))
      ]

  -- A request that claimed its key first and completed with an answer is answered with it again: a
  -- later claim of the same actor with the same key changes nothing. If its hash is the same, it has
  -- not created the claim and replay_response gives the status and the body of the first answer; if
  -- its hash differs, it raises AdminIdempotencyConflict.
  pub claim_admin_idempotency_replayed :
      (c again : ClaimCall) (w : AdminIdempotencyClaim) (http : ℕ) (body : JsonObject) (now : Time)
      (db db' db2 : Db)
      → claim_admin_idempotency request_hash_of py settings c db ≡ ok (w, db')
      → complete_admin_idempotency w http body now db' ≡ ok (tt, db2)
      → again.actor_text ≡ c.actor_text
      → again.idempotency_key ≡ c.idempotency_key
      → (found : AdminIdempotencyClaim) × (claim_admin_idempotency request_hash_of py settings again
            db2
          ≡ (if request_hash_of c.action c.payload == request_hash_of again.action again.payload
              then ok (found, db2)
              else err admin_idempotency_conflict))
        × (found.created ≡ false)
        × (replay_response found ≡ ok (some (http, body)))
  unfolding replay_response
  claim_admin_idempotency_replayed c again w http body now db db' db2 e done same_actor same_key =
      let (made, completed_same) = complete-eq-ok w http body now db' done in
      let (is_row, claimed_same) = claim_created c db e made in
      let x = completed http body now w.claimed in
      let rows : db2.claims
          ≡ update_where (λ y. y.id == w.claimed.id) (completed http body now)
              (w.claimed ∷ db.claims) =
        ap (λ (d : Db). d.claims) completed_same
        ∙ ap
            (λ (d : Db).
              update_where (λ y. y.id == w.claimed.id) (completed http body now) d.claims)
            claimed_same in
      let scope = admin_actor_scope_hash py settings again.actor_text in
      let own_scope : w.claimed.actor_scope_hash ≡ scope =
        ap (λ (y : AdminIdempotency). y.actor_scope_hash) is_row
        ∙ ap (admin_actor_scope_hash py settings) (sym same_actor) in
      let own_key : w.claimed.idempotency_key ≡ again.idempotency_key =
        ap (λ (y : AdminIdempotency). y.idempotency_key) is_row ∙ sym same_key in
      let is_found =
        ap (find (is_claim_of scope again.idempotency_key)) rows
        ∙ found_completed scope again.idempotency_key w.claimed http body now db.claims own_scope
            own_key in
      let own_hash : x.request_hash ≡ request_hash_of c.action c.payload =
        ap (λ (y : AdminIdempotency). y.request_hash) is_row in
      (
        record { claimed = x; created = false },
        claim_found again x db2 is_found
            ∙ checked_claim_replays (request_hash_of again.action again.payload) x db2 refl
            ∙ ap
                (λ h.
                  if h == request_hash_of again.action again.payload
                  then ok (record { claimed = x; created = false }, db2)
                  else err admin_idempotency_conflict)
                own_hash,
        refl,
        refl,
      )
