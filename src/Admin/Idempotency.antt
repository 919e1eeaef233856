-- ===== src/Admin/Idempotency.antt =====
-- admin/idempotency.py: a key is claimed by one request, whose answer is replayed. The hash of the
-- canonical JSON text of a request is a parameter, since `json.dumps` and SHA-256 are Python's.
use travel_web_api.Db.Grants.{AdminIdempotency}
use travel_web_api.Db.Monad.{
  runtime_error, integrity_error, admin_idempotency_conflict, admin_idempotency_in_progress, Result,
  ok, err, Tx,
}
use travel_web_api.Db.Statuses.{ClaimState}
use travel_web_api.Db.Users.{Uuid, Time, Digest}
use travel_web_api.Json.{JsonObject}
use travel_web_api.Prelude.{
  if◌then◌else◌, string_eq, nat_eq, ◌==◌, find, any, update_where, ℕ, String, Bool, true, false,
  not, ◌&&◌, Option, none, some, ◌∷◌,
}
use travel_web_api.Python.{Python}
use travel_web_api.Security.{Settings, hash_secret}

pub record AdminIdempotencyClaim : Type 0 where
  pub claimed : AdminIdempotency
  pub created : Bool

-- The arguments of claim_admin_idempotency, with the id and the time that it draws. `actor_text` is
-- `str(actor_user_id)`.
pub record ClaimCall : Type 0 where
  pub actor_user_id : Uuid
  pub actor_text : String
  pub idempotency_key : Uuid
  pub action : String
  pub payload : JsonObject
  pub record_id : Uuid
  pub now : Time

-- `replay_response`: nothing before the request has succeeded.
unfoldable pub replay_response : AdminIdempotencyClaim → Result (Option (ℕ × JsonObject))
replay_response c = elim c.claimed.state [
  | ClaimState.in_progress ↦ ok none
  | ClaimState.succeeded ↦ elim c.claimed.http_status [
    | none ↦ err (runtime_error "successful idempotency record has no replay result")
    | some http ↦ elim c.claimed.response_json [
      | none ↦ err (runtime_error "successful idempotency record has no replay result")
      | some body ↦ ok (some (http, body))
    ]
  ]
]

abbrev pub admin_actor_scope_hash : Python → Settings → String → Digest
admin_actor_scope_hash py settings actor =
    hash_secret py actor "admin-idempotency-actor" settings.secret_hash_pepper

abbrev pub new_claim : ClaimCall → Digest → Digest → AdminIdempotency
new_claim c scope request_hash = record {
  id = c.record_id;
  actor_user_id = some c.actor_user_id;
  actor_scope_hash = scope;
  idempotency_key = c.idempotency_key;
  request_hash = request_hash;
  state = ClaimState.in_progress;
  http_status = none;
  response_json = none;
  created_at = c.now;
  completed_at = none;
}

abbrev pub is_claim_of : Digest → Uuid → AdminIdempotency → Bool
is_claim_of scope key x = x.actor_scope_hash == scope && x.idempotency_key == key

abbrev pub is_in_progress : ClaimState → Bool
is_in_progress ClaimState.in_progress = true
is_in_progress ClaimState.succeeded = false

-- The checks on the row that holds the key, after the insert that may have made it.
unfoldable pub checked_claim : Digest → Bool → AdminIdempotency → Tx AdminIdempotencyClaim
checked_claim request_hash created row db =
    if not (row.request_hash == request_hash)
    then err admin_idempotency_conflict
    else if not created && is_in_progress row.state
    then err admin_idempotency_in_progress
    else ok (record { claimed = row; created = created }, db)

-- `INSERT … ON CONFLICT DO NOTHING` on the actor's scope and the key; another row with the same
-- primary key is refused.
unfoldable pub claim_admin_idempotency :
    (request_hash_of : String → JsonObject → Digest)
    → Python
    → Settings
    → ClaimCall
    → Tx AdminIdempotencyClaim
claim_admin_idempotency request_hash_of py settings c db =
    let scope = admin_actor_scope_hash py settings c.actor_text in
    let request_hash = request_hash_of c.action c.payload in
    let row = new_claim c scope request_hash in
    elim (find (is_claim_of scope c.idempotency_key) db.claims) [
      | some x ↦ checked_claim request_hash false x db
      | none ↦
          if any (λ x. x.id == c.record_id) db.claims
          then err (integrity_error "admin_idempotency")
          else checked_claim request_hash true row (record db { claims = row ∷ db.claims })
    ]

abbrev pub completed : ℕ → JsonObject → Time → AdminIdempotency → AdminIdempotency
completed http body now x = record x {
  state = ClaimState.succeeded;
  http_status = some http;
  response_json = some body;
  completed_at = some now;
}

unfoldable pub complete_admin_idempotency : AdminIdempotencyClaim → ℕ → JsonObject → Time → Tx Unit
complete_admin_idempotency c http body now db =
    if not c.created
    then err (runtime_error "only the winning request can complete idempotency")
    else ok (
      tt,
      record db {
        claims = update_where (λ x. x.id == c.claimed.id) (completed http body now) db.claims;
      },
    )
