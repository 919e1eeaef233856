-- ===== src/Projection/Identity.antt =====
-- The link between a projected job and its user: what no message and no repair can undo.
use mathlib.Core.Option
use travel_web_api.Db.Monad.{Db}
use travel_web_api.Db.Trips.{UserTrip, deidentified, AdminTripProjection}
use travel_web_api.Db.Users.{Time}
use travel_web_api.Prelude.{
  if◌then◌else◌, string_eq, nat_eq, ◌==◌, is_none, is_some, Bool-cases, find, All, ℕ, ◌≤◌, String,
  ◌≡◌, refl, sym, ap, ◌∙◌, subst, inl, inr, Bool, false, not, ◌&&◌, ◌||◌, Option, none, some, List,
  ◌∷◌, arith,
}
use travel_web_api.Projection.Feeds.{Feed, run_feeds, KeptByFeeds, run_feeds-keeps}
use travel_web_api.Projection.Health.{is_linked, is_deidentified}
use travel_web_api.Projection.Payloads.{JobProjectionPayload}
use travel_web_api.Projection.Progress.{refreshed-job_id}
use travel_web_api.Projection.Rows.{added, renewed, feeds-projections}
use travel_web_api.Projection.Snapshots.{
  Facts, trip_facts, association_from_locked_facts, new_projection, refreshed, lock_user_trip,
}
use travel_web_api.Rows.{same_text, find-update_same, All-update}

-- The rows that a reconciliation reports as impossible.
unfoldable pub is_impossible : AdminTripProjection → Bool
is_impossible p =
    is_some p.identity_erased_at && (not (is_deidentified p.association_state) || is_some p.user_id)
    || is_linked p.association_state && (is_none p.user_id || is_none p.user_trip_id)

trip_facts_possible :
    (j : JobProjectionPayload) (trip : Option UserTrip) (known : ℕ) (now : Time)
    → is_impossible (new_projection j (trip_facts trip known) now) ≡ false
unfolding is_impossible new_projection
trip_facts_possible j none known now = refl
trip_facts_possible j (some t) known now = ground arith

new_projection-possible :
    (j : JobProjectionPayload) (trip : Option UserTrip) (now : Time)
    → is_impossible (new_projection j (association_from_locked_facts trip none) now) ≡ false
unfolding association_from_locked_facts
new_projection-possible j trip now = trip_facts_possible j trip 1 now

refreshed-possible :
    (j : JobProjectionPayload) (trip : Option UserTrip) (now : Time) (p : AdminTripProjection)
    → is_impossible (refreshed j trip now p) ≡ false
unfolding is_impossible refreshed association_from_locked_facts
refreshed-possible j none now p = ground arith
refreshed-possible j (some t) now p = ground arith

abbrev pub AllPossible : List AdminTripProjection → Type 0
AllPossible ps = All (λ p. is_impossible p ≡ false) ps

-- If no row is impossible, none is after any sequence of messages and repairs: an erased identity
-- stands with a de-identified association without a user, and a linked one with its user and trip.
pub run_feeds-possible :
    (max_attempts : ℕ) (fs : List Feed) (db : Db)
    → AllPossible db.projections
    → AllPossible (run_feeds max_attempts fs db).projections
run_feeds-possible = run_feeds-keeps (
    feeds-projections AllPossible λ j now db db' h w. elim w [
      | added new same ↦
          subst AllPossible (sym same)
            (new_projection-possible j (lock_user_trip j.job_id db) now, h)
      | renewed same ↦ subst AllPossible (sym same) (
          All-update (λ p. is_impossible p ≡ false) (λ q. q.job_id == j.job_id)
            (refreshed j (lock_user_trip j.job_id db) now) db.projections
            (λ p k e. refreshed-possible j (lock_user_trip j.job_id db) now p) (λ p k e. k) h)
    ])

-- The job has a row, of which `Q` holds.
pub record HasRow (job_id : String) (Q : AdminTripProjection → Type 0)
    (ps : List AdminTripProjection) : Type 0 where
  pub row : AdminTripProjection
  pub is_found : find (λ p. p.job_id == job_id) ps ≡ some row
  pub holds : Q row

abbrev Refreshes : (AdminTripProjection → Type 0) → Type 0
Refreshes Q =
    (j : JobProjectionPayload) (trip : Option UserTrip) (now : Time) (p : AdminTripProjection)
    → Q p
    → Q (refreshed j trip now p)

HasRow-added :
    (job_id : String) (Q : AdminTripProjection → Type 0) (j : JobProjectionPayload) (f : Facts)
    (now : Time) (ps : List AdminTripProjection)
    → find (λ p. p.job_id == j.job_id) ps ≡ none
    → HasRow job_id Q ps
    → HasRow job_id Q (new_projection j f now ∷ ps)
unfolding new_projection
HasRow-added job_id Q j f now ps new h = elim (Bool-cases (j.job_id == job_id)) [
  | inl clash ↦
      let same : j.job_id ≡ job_id = same_text clash in
      let missing : find (λ p. p.job_id == job_id) ps ≡ none = rw same at new in
      let both = sym missing ∙ h.is_found in absurd (cc)
  | inr other ↦ record { row = h.row; is_found = rw other h.is_found; holds = h.holds }
]

feeds-HasRow :
    (job_id : String) (Q : AdminTripProjection → Type 0)
    → Refreshes Q
    → KeptByFeeds (λ db. HasRow job_id Q db.projections)
feeds-HasRow job_id Q keeps = feeds-projections (HasRow job_id Q) λ j now db db' h w. elim w [
  | added new same ↦
      subst (HasRow job_id Q) (sym same) (HasRow-added job_id Q j _ now db.projections new h)
  | renewed same ↦
      let trip = lock_user_trip j.job_id db in
      let next =
        λ (p : AdminTripProjection). if p.job_id == j.job_id then refreshed j trip now p else p in
      subst (HasRow job_id Q) (sym same) (record {
        row = next h.row;
        is_found =
            find-update_same (λ p. p.job_id == job_id) (λ q. q.job_id == j.job_id)
              (refreshed j trip now) db.projections
              (λ p. ap (λ s. s == job_id) (refreshed-job_id j trip now p))
            ∙ ap (Option.map next) h.is_found;
        holds = elim (Bool-cases (h.row.job_id == j.job_id)) [
          | inl own ↦ rw own (keeps j trip now h.row h.holds)
          | inr other ↦ rw other h.holds
        ];
      })
]

-- The row has nobody, since the time given.
pub record Erased (at : Time) (p : AdminTripProjection) : Type 0 where
  pub since : p.identity_erased_at ≡ some at
  pub no_state : p.association_state ≡ deidentified
  pub no_user : p.user_id ≡ none
  pub no_trip : p.user_trip_id ≡ none

refreshed-Erased : (at : Time) → Refreshes (Erased at)
unfolding refreshed
refreshed-Erased at j trip now p h = record {
  since = ground (arith, h.since);
  no_state = ground (arith, h.since);
  no_user = ground (arith, h.since);
  no_trip = ground (arith, h.since);
}

-- A job whose identity is erased keeps its row, with the time of the erasure and without a user or
-- a trip, through any sequence of messages and repairs.
pub run_feeds-Erased :
    (max_attempts : ℕ) (fs : List Feed) (db : Db) (job_id : String) (at : Time)
    → HasRow job_id (Erased at) db.projections
    → HasRow job_id (Erased at) (run_feeds max_attempts fs db).projections
run_feeds-Erased max_attempts fs db job_id at h =
    run_feeds-keeps (feeds-HasRow job_id (Erased at) (refreshed-Erased at)) max_attempts fs db h

-- The row is no older than these versions.
pub record NoOlder (source association : ℕ) (p : AdminTripProjection) : Type 0 where
  pub source_grows : source ≤ p.source_version
  pub association_grows : association ≤ p.association_version

refreshed-NoOlder : (source association : ℕ) → Refreshes (NoOlder source association)
unfolding refreshed
refreshed-NoOlder source association j trip now p h = record {
  source_grows = ground (arith, h.source_grows);
  association_grows = ground (arith, h.association_grows);
}

-- Through any sequence of messages and repairs, late and repeated ones included, a job keeps its
-- row, and neither the version of its source nor that of its association goes back.
pub run_feeds-NoOlder :
    (max_attempts : ℕ) (fs : List Feed) (db : Db) (job_id : String) (p : AdminTripProjection)
    → find (λ q. q.job_id == job_id) db.projections ≡ some p
    → HasRow job_id
        (NoOlder p.source_version p.association_version)
        (run_feeds max_attempts fs db).projections
run_feeds-NoOlder max_attempts fs db job_id p h =
    run_feeds-keeps
      (feeds-HasRow job_id (NoOlder p.source_version p.association_version)
        (refreshed-NoOlder p.source_version p.association_version))
      max_attempts fs db
      (record {
        row = p;
        is_found = h;
        holds = record { source_grows = omega arith; association_grows = omega arith };
      })
