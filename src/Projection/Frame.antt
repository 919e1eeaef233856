-- ===== src/Projection/Frame.antt =====
-- What the snapshots of an event leave alone, and what is known of an event that was applied.
use travel_web_api.Auth.Frame.{>>=-passed}
use travel_web_api.Db.Monad.{Db, ok, Tx, >>=-eq-ok}
use travel_web_api.Db.Trips.{AdminProjectionEvent, AdminProjectionConsumerState}
use travel_web_api.Db.Users.{Time}
use travel_web_api.Prelude.{
  string_eq, nat_eq, ◌==◌, Option-cases, find, any, ◌≡◌, refl, sym, ap, ◌∙◌, subst, inl, inr, Bool,
  false, ◌||◌, some, List, [], ◌∷◌, arith,
}
use travel_web_api.Projection.Payloads.{
  JobProjectionPayload, StepProjectionPayload, TripProjectionCommitEvent,
}
use travel_web_api.Projection.Snapshots.{apply_job_snapshot, write_step, apply_step_snapshot}
use travel_web_api.Projection.Stream.{
  Applied, sort_steps, apply_steps, event_row, insert_event, advanced, advance, apply_next,
  apply_new,
}
use mathlib.Core.Option

-- The snapshots write neither the events nor the stream's state.
pub record SameStream (db db' : Db) : Type 0 where
  pub same_events : db'.events ≡ db.events
  pub same_consumer : db'.consumer ≡ db.consumer

pub SameStream-refl : (db : Db) → SameStream db db
SameStream-refl db = record { same_events = refl; same_consumer = refl }

pub SameStream-trans : {a b c : Db} → SameStream a b → SameStream b c → SameStream a c
SameStream-trans s t = record {
  same_events = t.same_events ∙ s.same_events;
  same_consumer = t.same_consumer ∙ s.same_consumer;
}

same_stream : (db d : Db) {e : Db} → e ≡ d → SameStream db d → SameStream db e
same_stream db d same s = subst (SameStream db) (sym same) s

pub apply_job_snapshot-SameStream :
    (j : JobProjectionPayload) (now : Time) (db : Db) {u : Unit {0}} {db' : Db}
    → apply_job_snapshot j now db ≡ ok (u, db')
    → SameStream db db'
unfolding apply_job_snapshot
apply_job_snapshot-SameStream j now db {db' = db'} h =
    elim (Option-cases (find (λ p. p.job_id == j.job_id) db.projections)) [
      | inl new ↦ record { same_events = ground arith; same_consumer = ground arith }
      | inr (p, is_found) ↦ record { same_events = ground arith; same_consumer = ground arith }
    ]

write_step-eq-ok :
    (s : StepProjectionPayload) (write : Tx (Unit {0})) (db : Db) {r : Unit {0} × Db}
    → write_step s write db ≡ ok r
    → write db ≡ ok r
unfolding write_step
write_step-eq-ok s write db h = ground arith

pub apply_step_snapshot-SameStream :
    (s : StepProjectionPayload) (now : Time) (db : Db) {u : Unit {0}} {db' : Db}
    → apply_step_snapshot s now db ≡ ok (u, db')
    → SameStream db db'
unfolding apply_step_snapshot write_step
apply_step_snapshot-SameStream s now db {db' = db'} h =
    elim (Option-cases (find (λ x. x.source_step_id == s.source_step_id) db.steps)) [
      | inl new ↦ record { same_events = ground arith; same_consumer = ground arith }
      | inr (x, is_found) ↦ record { same_events = ground arith; same_consumer = ground arith }
    ]

pub apply_steps-SameStream :
    (ss : List StepProjectionPayload) (now : Time) (db : Db) {u : Unit {0}} {db' : Db}
    → apply_steps ss now db ≡ ok (u, db')
    → SameStream db db'
unfolding apply_steps
apply_steps-SameStream [] now db {db' = db'} h =
    let same : db' ≡ db = cc h in same_stream db db same (SameStream-refl db)
apply_steps-SameStream (s ∷ ss) now db h =
    let (_, db1, e1, k1) = >>=-eq-ok (apply_step_snapshot s now) _ db h in
    SameStream-trans (apply_step_snapshot-SameStream s now db e1)
      (apply_steps-SameStream ss now db1 k1)

-- The test that `event_id` and `outbox_sequence` make on insertion.
abbrev pub is_taken : AdminProjectionEvent → AdminProjectionEvent → Bool
is_taken e x = x.event_id == e.event_id || x.outbox_sequence == e.outbox_sequence

pub insert_event-eq-ok :
    (e : AdminProjectionEvent) (db : Db) {u : Unit {0}} {db' : Db}
    → insert_event e db ≡ ok (u, db')
    → (any (is_taken e) db.events ≡ false) × (db' ≡ record db { events = e ∷ db.events })
unfolding insert_event
insert_event-eq-ok e db h = (ground arith, ground arith)

-- What an application of the next event has written to the stream.
pub record Appended (e : TripProjectionCommitEvent) (repair : Bool) (now : Time) (db db' : Db)
    : Type 0 where
  pub events_grow : db'.events ≡ event_row e now ∷ db.events
  pub consumer_moves : db'.consumer ≡ Option.map (advanced e repair) db.consumer
  pub not_taken : any (is_taken (event_row e now)) db.events ≡ false

pub apply_next-Appended :
    (e : TripProjectionCommitEvent) (repair : Bool) (now : Time) (db : Db) {a : Applied} {db' : Db}
    → apply_next e repair now db ≡ ok (a, db')
    → Appended e repair now db db'
unfolding apply_next advance
apply_next-Appended e repair now db {a} {db'} h =
    >>=-passed (apply_job_snapshot e.job now) _ db h λ _ db1 e1 k1.
      >>=-passed (apply_steps (sort_steps e.changed_steps) now) _ db1 k1 λ _ db2 e2 k2.
        >>=-passed (insert_event (event_row e now)) _ db2 k2 λ _ db3 e3 k3.
          let rest =
            SameStream-trans (apply_job_snapshot-SameStream e.job now db e1)
              (apply_steps-SameStream (sort_steps e.changed_steps) now db1 e2) in
          let (free, grown) = insert_event-eq-ok (event_row e now) db2 e3 in
          let last : db' ≡ record db3 { consumer = Option.map (advanced e repair) db3.consumer } =
            cc k3 in
          record {
            events_grow =
                ap (λ (d : Db). d.events) last
                ∙ ap (λ (d : Db). d.events) grown
                ∙ ap (λ xs. event_row e now ∷ xs) rest.same_events;
            consumer_moves =
                ap (λ (d : Db). d.consumer) last
                ∙ ap (λ (d : Db). Option.map (advanced e repair) d.consumer) grown
                ∙ ap (Option.map (advanced e repair)) rest.same_consumer;
            not_taken =
                subst (λ xs. any (is_taken (event_row e now)) xs ≡ false) rest.same_events free;
          }

-- A new event is applied only to a stream that expects it.
pub record Accepted (e : TripProjectionCommitEvent) (repair : Bool) (now : Time) (db db' : Db)
    : Type 0 where
  pub state : AdminProjectionConsumerState
  pub is_state : db.consumer ≡ some state
  pub is_next : e.outbox_sequence ≡ state.next_expected_sequence
  pub wrote : Appended e repair now db db'

pub apply_new-Accepted :
    (e : TripProjectionCommitEvent) (repair : Bool) (now : Time) (db : Db) {a : Applied} {db' : Db}
    → apply_new e repair now db ≡ ok (a, db')
    → Accepted e repair now db db'
unfolding apply_new
apply_new-Accepted e repair now db {a} {db'} h = elim (Option-cases db.consumer) [
  | inl missing ↦ absurd (ground arith)
  | inr (s, is_state) ↦
      let expected : e.outbox_sequence ≡ s.next_expected_sequence = ground arith in
      let written : apply_next e repair now db ≡ ok (a, db') = ground arith in
      record {
        state = s;
        is_state = is_state;
        is_next = expected;
        wrote = apply_next-Appended e repair now db written;
      }
]
