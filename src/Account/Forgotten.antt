-- ===== src/Account/Forgotten.antt =====
-- A closed account stays closed in the administrators' view: no message about its jobs brings the
-- user back.
use travel_web_api.Account.Closure.{
  Requests, CloseCall, erased_projection, erase_projections, erase_rows, close_body, close_account,
}
use travel_web_api.Account.Erasure.{erase_account-writes, close_body-verified}
use travel_web_api.Auth.Verify.{verified}
use travel_web_api.Db.Monad.{Db, ok, transaction-eq-ok}
use travel_web_api.Db.Trips.{UserTrip, AdminTripProjection}
use travel_web_api.Db.Users.{Uuid, Time}
use travel_web_api.Prelude.{
  if◌then◌else◌, string_eq, nat_eq, ◌==◌, ◌=?◌, Bool-cases, Option-cases, find, any, update_where,
  ℕ, String, ◌≡◌, refl, sym, ap, ◌∙◌, subst, inl, inr, true, false, ◌&&◌, Option, none, some, List,
  [], ◌∷◌,
}
use travel_web_api.Projection.Feeds.{Feed, run_feeds}
use travel_web_api.Projection.Health.{
  shown_deidentified, association_payload, current_projection_with_name,
}
use travel_web_api.Projection.Identity.{HasRow, Erased}
use travel_web_api.Projection.Shown.{current_projection_with_name-Erased}
use travel_web_api.Python.{Python}
use travel_web_api.Rows.{some_eq, same_text, find-update_same, any-find}
use travel_web_api.Security.{Settings}
use mathlib.Core.Option

find_erased :
    (user : Uuid) (now : Time) (ts : List UserTrip) (job_id : String)
    (ps : List AdminTripProjection) {p : AdminTripProjection}
    → any (λ t. t.user_id =? user && t.hermes_job_id =? job_id) ts ≡ true
    → find (λ q. q.job_id == job_id) ps ≡ some p
    → (t : UserTrip) × (find (λ q. q.job_id == job_id) (erase_projections user now ts ps)
        ≡ some (erased_projection now t p))
unfolding erase_projections
find_erased user now ts job_id [] own h = cc h
find_erased user now ts job_id (q ∷ ps) {p} own h = elim (Bool-cases (q.job_id == job_id)) [
  | inl mine ↦
      let first : q ≡ p = some_eq (rw mine at h) in
      let same : q.job_id ≡ job_id = same_text mine in
      let owned : any (λ t. t.user_id =? user && t.hermes_job_id =? q.job_id) ts ≡ true =
        rw same own in
      let (t, is_found) =
        any-find (λ (t : UserTrip). t.user_id =? user && t.hermes_job_id =? q.job_id) ts owned in
      (t, rw is_found (rw mine (ap (λ x. some (erased_projection now t x)) first)))
  | inr other ↦
      let (t, is_found) = find_erased user now ts job_id ps {p = p} own (rw other at h) in
      elim (Option-cases
        (find (λ (u : UserTrip). u.user_id =? user && u.hermes_job_id =? q.job_id) ts)) [
          | inl foreign ↦ (t, rw foreign (rw other is_found))
          | inr (u, is_own) ↦ (t, rw is_own (rw other is_found))
        ]
]

abbrev clear_user : AdminTripProjection → AdminTripProjection
clear_user p = record p { user_id = none }

-- The erasure of the rows keeps an erased projection.
projection_stays :
    (user : Uuid) (job_id : String) (at : Time) (ps : List AdminTripProjection)
    → HasRow job_id (Erased at) ps
    → HasRow job_id (Erased at) (update_where (λ p. p.user_id =? user) clear_user ps)
projection_stays user job_id at ps h =
    let next = λ (p : AdminTripProjection). if p.user_id =? user then clear_user p else p in
    let is_found' : find (λ p. p.job_id == job_id)
          (update_where (λ p. p.user_id =? user) clear_user ps)
        ≡ some (next h.row) =
      find-update_same (λ p. p.job_id == job_id) (λ p. p.user_id =? user) clear_user ps (λ p. refl)
      ∙ ap (Option.map next) h.is_found in
    let kept = h.holds in
    let own : (h.row.user_id =? user) ≡ false = rw (kept.no_user) refl in
    record { row = h.row; is_found = is_found' ∙ rw own refl; holds = kept }

projection_gone :
    (now : Time) (t : UserTrip) (p : AdminTripProjection)
    → (at : Time) × Erased at (erased_projection now t p)
projection_gone now t p = elim (Option-cases p.identity_erased_at) [
  | inl never ↦
      (now, record { since = rw never refl; no_state = refl; no_user = refl; no_trip = refl })
  | inr (at, before) ↦
      (at, record { since = rw before refl; no_state = refl; no_user = refl; no_trip = refl })
]

-- After a closure that answers SUCCESS, each job of the user that has a row is shown to
-- administrators as de-identified and without a user, whatever messages and repairs of the stream
-- come later and whatever public id and name come with the row.
pub close_account-run_feeds :
    (py : Python) (rq : Requests) (settings : Settings) (c : CloseCall) (db : Db) (job_id : String)
    (p : AdminTripProjection) (max_attempts : ℕ) (fs : List Feed)
    → (close_account py rq settings c db).0 ≡ ok verified
    → any (λ t. t.user_id =? c.user_id && t.hermes_job_id =? job_id) db.trips ≡ true
    → find (λ q. q.job_id == job_id) db.projections ≡ some p
    → let later = run_feeds max_attempts fs (close_account py rq settings c db).1 in
      (q : AdminTripProjection) × (current_projection_with_name job_id later ≡ some (q, none))
      × ((public_id name : Option String)
          → association_payload q public_id name ≡ shown_deidentified)
unfolding close_account erase_rows
close_account-run_feeds py rq settings c db job_id p max_attempts fs done own has_row =
    let (u, email, erased) =
      close_body-verified py rq settings c db
        (transaction-eq-ok (close_body py rq settings c) db done) in
    let (ts, _, same) = erase_account-writes py rq settings c u email db erased in
    let (t, is_found) = find_erased c.user_id c.now db.trips job_id db.projections own has_row in
    let (at, gone) = projection_gone c.now t p in
    let row : HasRow job_id (Erased at)
        (erase_projections c.user_id c.now db.trips db.projections) =
      record { row = erased_projection c.now t p; is_found = is_found; holds = gone } in
    current_projection_with_name-Erased max_attempts fs _ job_id at (
      subst (λ (d : Db). HasRow job_id (Erased at) d.projections) (sym same)
        (projection_stays c.user_id job_id at
          (erase_projections c.user_id c.now db.trips db.projections) row))
