-- ===== src/Admin/Tests.antt =====
-- Runs of admin/idempotency.py at concrete requests.
use travel_web_api.Admin.Idempotency.{
  AdminIdempotencyClaim, ClaimCall, replay_response, new_claim, checked_claim,
  claim_admin_idempotency, completed, complete_admin_idempotency,
}
use travel_web_api.Admin.Replay.{claim_admin_idempotency_replayed}
use travel_web_api.Db.Grants.{AdminIdempotency}
use travel_web_api.Db.Monad.{Db, ok}
use travel_web_api.Db.Users.{Digest}
use travel_web_api.Json.{JsonObject}
use travel_web_api.Prelude.{
  if◌then◌else◌, string_eq, nat_eq, ◌==◌, String, ◌≡◌, refl, true, false, some, [], ◌∷◌,
}
use travel_web_api.Samples.{sample_py, sample_db, sample_settings}
use travel_web_api.Security.{hash_secret}

abbrev by_action : String → JsonObject → Digest
by_action action payload = if action == "user.disable" then 5 else 6

abbrev disable : ClaimCall
disable = record {
  actor_user_id = 1;
  actor_text = "1";
  idempotency_key = 900;
  action = "user.disable";
  payload = [];
  record_id = 901;
  now = 10;
}

abbrev claim_row : AdminIdempotency
claim_row = new_claim disable (hash_secret sample_py "1" "admin-idempotency-actor" "pepper") 5

abbrev won : AdminIdempotencyClaim
won = record { claimed = claim_row; created = true }

abbrev claimed_db : Db
claimed_db = record sample_db { claims = claim_row ∷ [] }

abbrev completed_db : Db
completed_db = record sample_db { claims = completed 200 [] 20 claim_row ∷ [] }

claimed_ok :
    claim_admin_idempotency by_action sample_py sample_settings disable sample_db
    ≡ ok (won, claimed_db)
unfolding claim_admin_idempotency checked_claim hash_secret
claimed_ok = refl

completed_ok : complete_admin_idempotency won 200 [] 20 claimed_db ≡ ok (tt, completed_db)
unfolding complete_admin_idempotency
completed_ok = refl

claim_admin_idempotency_replayed_example :
    (found : AdminIdempotencyClaim) × (claim_admin_idempotency by_action sample_py sample_settings
        (record disable { record_id = 902 })
        completed_db
      ≡ ok (found, completed_db))
    × (found.created ≡ false)
    × (replay_response found ≡ ok (some (200, [])))
claim_admin_idempotency_replayed_example =
    claim_admin_idempotency_replayed by_action sample_py sample_settings disable
      (record disable { record_id = 902 }) won 200 [] 20 sample_db claimed_db completed_db
      claimed_ok completed_ok refl refl
