-- ===== src/Projection/Rows.antt =====
-- What an event does to the rows of the projection: one snapshot of its job, or nothing.
use mathlib.Core.Option
use travel_web_api.Auth.Frame.{>>=-passed}
use travel_web_api.Db.Monad.{Db, ok, >>=-eq-ok}
use travel_web_api.Db.Trips.{AdminTripProjection}
use travel_web_api.Db.Users.{Time}
use travel_web_api.Prelude.{
  string_eq, nat_eq, ◌==◌, Option-cases, find, update_where, ◌≡◌, sym, ap, ◌∙◌, subst, ◌⊎◌, inl,
  inr, Bool, none, List, [], ◌∷◌, arith,
}
use travel_web_api.Projection.Feeds.{KeptByFeeds}
use travel_web_api.Projection.Frame.{insert_event-eq-ok}
use travel_web_api.Projection.Payloads.{
  JobProjectionPayload, StepProjectionPayload, TripProjectionCommitEvent,
}
use travel_web_api.Projection.Snapshots.{
  association_from_locked_facts, new_projection, refreshed, lock_user_trip, apply_job_snapshot,
  write_step, apply_step_snapshot,
}
use travel_web_api.Projection.Stream.{
  Applied, sort_steps, apply_steps, event_row, insert_event, advanced, advance, apply_next,
  apply_new, apply_event_body, pause_projection_stream,
}

apply_step_snapshot-projections :
    (s : StepProjectionPayload) (now : Time) (db : Db) {u : Unit {0}} {db' : Db}
    → apply_step_snapshot s now db ≡ ok (u, db')
    → db'.projections ≡ db.projections
unfolding apply_step_snapshot write_step
apply_step_snapshot-projections s now db {db' = db'} h =
    elim (Option-cases (find (λ x. x.source_step_id == s.source_step_id) db.steps)) [
      | inl new ↦ ground arith
      | inr (x, is_found) ↦ ground arith
    ]

apply_steps-projections :
    (ss : List StepProjectionPayload) (now : Time) (db : Db) {u : Unit {0}} {db' : Db}
    → apply_steps ss now db ≡ ok (u, db')
    → db'.projections ≡ db.projections
unfolding apply_steps
apply_steps-projections [] now db h = cc h
apply_steps-projections (s ∷ ss) now db h =
    let (_, db1, e1, k1) = >>=-eq-ok (apply_step_snapshot s now) _ db h in
    apply_steps-projections ss now db1 k1 ∙ apply_step_snapshot-projections s now db e1

-- The database after the snapshot of the job.
pub record Snapped (j : JobProjectionPayload) (now : Time) (db db' : Db) : Type 0 where
  pub unit : Unit {0}
  pub between : Db
  pub snapped : apply_job_snapshot j now db ≡ ok (unit, between)
  pub same_projections : db'.projections ≡ between.projections

apply_next-Snapped :
    (e : TripProjectionCommitEvent) (again : Bool) (now : Time) (db : Db) {a : Applied} {db' : Db}
    → apply_next e again now db ≡ ok (a, db')
    → Snapped e.job now db db'
unfolding apply_next advance
apply_next-Snapped e again now db {a} {db'} h =
    >>=-passed (apply_job_snapshot e.job now) _ db h λ u db1 e1 k1.
      >>=-passed (apply_steps (sort_steps e.changed_steps) now) _ db1 k1 λ _ db2 e2 k2.
        >>=-passed (insert_event (event_row e now)) _ db2 k2 λ _ db3 e3 k3.
          let (free, grown) = insert_event-eq-ok (event_row e now) db2 e3 in
          let last : db' ≡ record db3 { consumer = Option.map (advanced e again) db3.consumer } =
            cc k3 in
          record {
            unit = u;
            between = db1;
            snapped = e1;
            same_projections =
                ap (λ (d : Db). d.projections) last
                ∙ ap (λ (d : Db). d.projections) grown
                ∙ apply_steps-projections (sort_steps e.changed_steps) now db1 e2;
          }

apply_new-Snapped :
    (e : TripProjectionCommitEvent) (again : Bool) (now : Time) (db : Db) {a : Applied} {db' : Db}
    → apply_new e again now db ≡ ok (a, db')
    → Snapped e.job now db db'
unfolding apply_new
apply_new-Snapped e again now db {a} {db'} h = elim (Option-cases db.consumer) [
  | inl missing ↦ absurd (ground arith)
  | inr (s, is_state) ↦
      let written : apply_next e again now db ≡ ok (a, db') = ground arith in
      apply_next-Snapped e again now db written
]

apply_event_body-Snapped :
    (e : TripProjectionCommitEvent) (again : Bool) (now : Time) (db : Db) {a : Applied} {db' : Db}
    → apply_event_body e again now db ≡ ok (a, db')
    → (db' ≡ db) ⊎ Snapped e.job now db db'
unfolding apply_event_body
apply_event_body-Snapped e again now db {a} {db'} h =
    elim (Option-cases (find (λ x. x.event_id == e.event_id) db.events)) [
      | inl new ↦
          let written : apply_new e again now db ≡ ok (a, db') = ground arith in
          inr (apply_new-Snapped e again now db written)
      | inr (x, is_found) ↦ inl (ground arith)
    ]

-- The rows after a snapshot: the job's row refreshed, or a new one.
pub data Written (j : JobProjectionPayload) (now : Time) (db db' : Db) : Type 0 where
  added :
      find (λ p. p.job_id == j.job_id) db.projections ≡ none
      → db'.projections
        ≡ new_projection j (association_from_locked_facts (lock_user_trip j.job_id db) none) now
          ∷ db.projections
      → Written j now db db'
  renewed :
      db'.projections
        ≡ update_where
            (λ q. q.job_id == j.job_id)
            (refreshed j (lock_user_trip j.job_id db) now)
            db.projections
      → Written j now db db'

pub apply_job_snapshot-Written :
    (j : JobProjectionPayload) (now : Time) (db : Db) {u : Unit {0}} {db' : Db}
    → apply_job_snapshot j now db ≡ ok (u, db')
    → Written j now db db'
unfolding apply_job_snapshot
apply_job_snapshot-Written j now db {u} {db'} h =
    elim (Option-cases (find (λ p. p.job_id == j.job_id) db.projections)) [
      | inl new ↦ added new (ground arith)
      | inr (p, is_found) ↦ renewed (ground arith)
    ]

-- What every snapshot of a job keeps of the rows, the stream keeps.
pub feeds-projections {κ} :
    (P : List AdminTripProjection → Type κ)
    → ((j : JobProjectionPayload) (now : Time) (db db' : Db)
        → P db.projections
        → Written j now db db'
        → P db'.projections)
    → KeptByFeeds (λ db. P db.projections)
unfolding pause_projection_stream
feeds-projections P keeps = record {
  on_event = λ e again now db {a} {db'} h k. elim (apply_event_body-Snapped e again now db k) [
    | inl same ↦ subst (λ (d : Db). P d.projections) (sym same) h
    | inr s ↦
        subst P (sym s.same_projections)
          (keeps e.job now db s.between h (apply_job_snapshot-Written e.job now db s.snapped))
  ];
  on_heartbeat = λ b now db is_state h. h;
  on_pause = λ db h. h;
}
