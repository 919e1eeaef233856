-- ===== src/Trips/GivingUp.antt =====
-- While the planner cannot be reached, the reconciliation stops asking.
use travel_web_api.Db.Monad.{Db, hermes_integration_error, Result, ok, err}
use travel_web_api.Db.Trips.{UserTrip}
use travel_web_api.Db.Users.{Time}
use travel_web_api.Json.{JsonObject}
use travel_web_api.Prelude.{
  string_eq, nat_eq, ◌==◌, Option-cases, find, any, length, select, All, ◌+◌, ◌≤◌, String, ◌≡◌,
  refl, ap, ◌∙◌, subst, ◌⊎◌, inl, inr, Bool, false, List, [], ◌∷◌, arith,
}
use travel_web_api.Projection.Progress.{has_job}
use travel_web_api.Python.{Python}
use travel_web_api.Rows.{update_where-none}
use travel_web_api.Security.{Settings}
use travel_web_api.Trips.Reconciliation.{
  ReconciliationResult, HermesClient, is_open, by_age, open_batch, claimed_row, is_among,
  claim_batch, Step, unresolved_step, recreate, refresh, reconcile_one, counted_step, reconcile_all,
  reconcile_bounded,
}
use travel_web_api.Trips.Rounds.{
  budget, no_budget, IsOpenIn, select-IsOpenIn, All-by_age, All-take, spends_one,
}
use travel_web_api.Trips.Service.{upstream_request_id, continue_with}

-- Every call of the client raises HermesIntegrationError.
pub record Unreachable (hermes : HermesClient) : Type 0 where
  pub no_answer :
      (request : JsonObject) (upstream_id conversation_id : String)
      → (category : String) × (retryable : Bool) × (unsure : Bool) × (hermes.create_trip request
            upstream_id conversation_id
          ≡ err (hermes_integration_error category retryable unsure))
  pub no_status :
      (job : String)
      → (category : String) × (retryable : Bool) × (unsure : Bool) × (hermes.job_status job
          ≡ err (hermes_integration_error category retryable unsure))

reconcile_one-unresolved :
    (py : Python) (hermes : HermesClient) (t : UserTrip) (later : Time) (db : Db)
    → Unreachable hermes
    → reconcile_one py hermes t later db ≡ (ok unresolved_step, db)
unfolding reconcile_one recreate refresh
reconcile_one-unresolved py hermes t later db h = elim (Option-cases t.hermes_job_id) [
  | inl none_yet ↦
      let (category, retryable, unsure, raised) =
        h.no_answer t.request_json (upstream_request_id t) t.public_id in
      rw (reconcile_one, none_yet, raised) refl
  | inr (job, has_job) ↦ elim (Option-cases (find (λ u. u.id == t.id) db.trips)) [
    | inl gone ↦ rw (reconcile_one, has_job, gone) refl
    | inr (u, is_found) ↦
        let (category, retryable, unsure, raised) = h.no_status job in
        rw (reconcile_one, has_job, is_found, raised) refl
  ]
]

reconcile_all-same :
    (py : Python) (hermes : HermesClient) (ts : List UserTrip) (later : Time)
    (r : ReconciliationResult) (db : Db)
    → Unreachable hermes
    → (reconcile_all py hermes ts later r db).1 ≡ db
unfolding reconcile_all
reconcile_all-same py hermes [] later r db h = refl
reconcile_all-same py hermes (t ∷ ts) later r db h =
    ap
      (λ (x : Result Step × Db).
        (continue_with x (λ s db1. reconcile_all py hermes ts later (counted_step s r) db1)).1)
      (reconcile_one-unresolved py hermes t later db h)
    ∙ reconcile_all-same py hermes ts later (counted_step unresolved_step r) db h

reconcile_bounded-claims :
    (py : Python) (settings : Settings) (hermes : HermesClient) (now later : Time) (db : Db)
    → Unreachable hermes
    → (reconcile_bounded py settings hermes now later db).1
      ≡ claim_batch (open_batch settings db) now db
unfolding reconcile_bounded
reconcile_bounded-claims py settings hermes now later db h =
    reconcile_all-same py hermes (open_batch settings db) later _
      (claim_batch (open_batch settings db) now db) h

-- One reconciliation after another, each with its times.
unfoldable pub reconcile_rounds : Python → Settings → HermesClient → List (Time × Time) → Db → Db
reconcile_rounds py settings hermes [] db = db
reconcile_rounds py settings hermes ((now, later) ∷ rounds) db =
    reconcile_rounds py settings hermes rounds (reconcile_bounded py settings hermes now later db).1

any-no_rows : (ts : List UserTrip) → any (is_among []) ts ≡ false
any-no_rows [] = refl
any-no_rows (t ∷ ts) = any-no_rows ts

claim_batch-empty : (now : Time) (db : Db) → claim_batch [] now db ≡ db
unfolding claim_batch
claim_batch-empty now db =
    ap (λ ts. record db { trips = ts })
      (update_where-none (is_among []) (claimed_row now) db.trips (any-no_rows db.trips)).0

claim_batch-budget :
    (settings : Settings) (now : Time) (b : UserTrip) (bs : List UserTrip) (db : Db)
    → open_batch settings db ≡ b ∷ bs
    → budget settings (claim_batch (b ∷ bs) now db) + 1 ≤ budget settings db
unfolding claim_batch open_batch
claim_batch-budget settings now b bs db h =
    let opened =
      All-take (IsOpenIn settings db.trips) settings.reconciliation_batch_size
        (by_age (select (is_open settings) db.trips))
        (All-by_age (IsOpenIn settings db.trips) (select (is_open settings) db.trips)
          (select-IsOpenIn settings db.trips)) in
    spends_one settings now b bs db.trips (subst (All (IsOpenIn settings db.trips)) h opened).0

batch-cases :
    (ts : List UserTrip) → (ts ≡ []) ⊎ ((b : UserTrip) × (bs : List UserTrip) × (ts ≡ b ∷ bs))
batch-cases [] = inl refl
batch-cases (b ∷ bs) = inr (b, bs, refl)

-- While every call of the planner raises HermesIntegrationError, as many reconciliations as the open
-- trips have attempts left together are enough: after them, nothing is claimed.
pub reconcile_rounds-open_batch :
    (py : Python) (settings : Settings) (hermes : HermesClient) (rounds : List (Time × Time))
    (db : Db)
    → Unreachable hermes
    → budget settings db ≤ length rounds
    → open_batch settings (reconcile_rounds py settings hermes rounds db) ≡ []
unfolding reconcile_rounds
reconcile_rounds-open_batch py settings hermes [] db h enough = no_budget settings db enough
reconcile_rounds-open_batch py settings hermes ((now, later) ∷ rounds) db h enough =
    let claimed = reconcile_bounded-claims py settings hermes now later db h in
    elim (batch-cases (open_batch settings db)) [
      | inl done ↦
          let same : (reconcile_bounded py settings hermes now later db).1 ≡ db =
            claimed ∙ ap (λ ts. claim_batch ts now db) done ∙ claim_batch-empty now db in
          ap (λ d. open_batch settings (reconcile_rounds py settings hermes rounds d)) same
          ∙ stays rounds done
      | inr (b, bs, some_open) ↦
          let same = claimed ∙ ap (λ ts. claim_batch ts now db) some_open in
          let less = claim_batch-budget settings now b bs db some_open in
          ap (λ d. open_batch settings (reconcile_rounds py settings hermes rounds d)) same
          ∙ reconcile_rounds-open_batch py settings hermes rounds (claim_batch (b ∷ bs) now db) h
              (omega (arith, less, enough))
    ]
  where
    stays :
        (rs : List (Time × Time))
        → open_batch settings db ≡ []
        → open_batch settings (reconcile_rounds py settings hermes rs db) ≡ []
    stays [] e = e
    stays ((at, then_at) ∷ rs) e =
        ap (λ d. open_batch settings (reconcile_rounds py settings hermes rs d))
          (reconcile_bounded-claims py settings hermes at then_at db h
            ∙ ap (λ ts. claim_batch ts at db) e
            ∙ claim_batch-empty at db)
        ∙ stays rs e
