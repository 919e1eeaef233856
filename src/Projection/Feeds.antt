-- ===== src/Projection/Feeds.antt =====
-- Everything that reaches the stream, in order: messages of the queue and repairs. What an event, a
-- heartbeat and a pause keep, any sequence of them keeps.
use travel_web_api.Auth.Verify.{refused}
use travel_web_api.Db.Monad.{Db, Result, ok, err, transaction-keeps}
use travel_web_api.Db.Trips.{AdminProjectionConsumerState}
use travel_web_api.Db.Users.{Time}
use travel_web_api.Prelude.{
  leb, string_eq, nat_eq, ◌==◌, Bool-cases, Option-cases, ℕ, ◌≡◌, sym, subst, ◌⊎◌, inl, inr, Bool,
  true, false, ◌&&◌, some, List, [], ◌∷◌, arith,
}
use travel_web_api.Projection.Consumer.{
  Body, commit, heartbeat, malformed, Message, delivery_attempt, is_poison, after_event,
  after_heartbeat, consume_body, settle_message, handle_message,
}
use travel_web_api.Projection.Payloads.{
  TripProjectionCommitEvent, ProjectionHeartbeat, event_is_valid,
}
use travel_web_api.Projection.Stream.{
  Applied, is_active_stream, apply_event_body, apply_projection_event, repair_projection_event,
  beaten, apply_projection_heartbeat, pause_projection_stream,
}

pub data Feed : Type 0 where
  deliver : Message → Time → Feed
  repair_head : TripProjectionCommitEvent → Time → Feed

-- The database after it, whatever the answer.
unfoldable pub run_feed : ℕ → Feed → Db → Db
run_feed max_attempts (deliver m now) db = (handle_message max_attempts m now db).1
run_feed max_attempts (repair_head e now) db = (repair_projection_event e now db).1

unfoldable pub run_feeds : ℕ → List Feed → Db → Db
run_feeds max_attempts [] db = db
run_feeds max_attempts (f ∷ fs) db = run_feeds max_attempts fs (run_feed max_attempts f db)

pub record KeptByFeeds {κ} (P : Db → Type κ) : Type κ where
  pub on_event :
      (e : TripProjectionCommitEvent) (again : Bool) (now : Time) (db : Db) {a : Applied} {db' : Db}
      → P db
      → apply_event_body e again now db ≡ ok (a, db')
      → P db'
  pub on_heartbeat :
      (h : ProjectionHeartbeat) (now : Time) (db : Db) {s : AdminProjectionConsumerState}
      → db.consumer ≡ some s
      → P db
      → P (record db { consumer = some (beaten h now s) })
  pub on_pause : (db : Db) → P db → P (pause_projection_stream db)

pub apply_projection_heartbeat-cases :
    (b : ProjectionHeartbeat) (now : Time) (db : Db)
    → (apply_projection_heartbeat b now db ≡ (ok false, db))
      ⊎ ((s : AdminProjectionConsumerState) × (db.consumer ≡ some s)
          × (s.applied_high_watermark ≡ b.outbox_high_watermark)
          × (is_active_stream s.stream_state ≡ true)
          × (apply_projection_heartbeat b now db
              ≡ (ok true, record db { consumer = some (beaten b now s) })))
unfolding apply_projection_heartbeat
apply_projection_heartbeat-cases b now db = elim (Option-cases db.consumer) [
  | inl missing ↦ inl (ground arith)
  | inr (s, is_state) ↦
      elim (Bool-cases
        (is_active_stream s.stream_state && b.outbox_high_watermark == s.applied_high_watermark)) [
          | inl meets ↦ inr (s, is_state, ground arith, ground arith, ground arith)
          | inr waits ↦ inl (ground arith)
        ]
]

module _ {κ} {P : Db → Type κ} (kept : KeptByFeeds P) where
  pub apply_projection_event-keeps :
      (e : TripProjectionCommitEvent) (again : Bool) (now : Time) (db : Db)
      → P db
      → P (apply_projection_event e again now db).1
  unfolding apply_projection_event
  apply_projection_event-keeps e again now db h = elim (Bool-cases (event_is_valid e)) [
    | inl valid ↦ rw valid (
        transaction-keeps P (apply_event_body e again now) db
          (λ a db' k. kept.on_event e again now db h k) h)
    | inr refused ↦ rw refused h
  ]

  pub apply_projection_heartbeat-keeps :
      (b : ProjectionHeartbeat) (now : Time) (db : Db)
      → P db
      → P (apply_projection_heartbeat b now db).1
  apply_projection_heartbeat-keeps b now db h = elim (apply_projection_heartbeat-cases b now db) [
    | inl same ↦ subst (λ (r : Result Bool × Db). P r.1) (sym same) h
    | inr (s, is_state, meets, live, beats) ↦
        subst (λ (r : Result Bool × Db). P r.1) (sym beats) (kept.on_heartbeat b now db is_state h)
  ]

  after_event-keeps : (r : Result Applied × Db) → P r.1 → P (after_event r).1
  after_event-keeps (ok a, db) h = h
  after_event-keeps (err x, db) h = h

  after_heartbeat-keeps : (r : Result Bool × Db) → P r.1 → P (after_heartbeat r).1
  after_heartbeat-keeps (ok true, db) h = h
  after_heartbeat-keeps (ok false, db) h = h
  after_heartbeat-keeps (err x, db) h = h

  consume_body-keeps : (b : Body) (now : Time) (db : Db) → P db → P (consume_body b now db).1
  unfolding consume_body
  consume_body-keeps (commit e) now db h =
      after_event-keeps (apply_projection_event e false now db)
        (apply_projection_event-keeps e false now db h)
  consume_body-keeps (heartbeat b) now db h =
      after_heartbeat-keeps (apply_projection_heartbeat b now db)
        (apply_projection_heartbeat-keeps b now db h)
  consume_body-keeps malformed now db h = h

  settle_message-keeps :
      (max_attempts : ℕ) (m : Message) (r : Result (Unit {0}) × Db)
      → P r.1
      → P (settle_message max_attempts m r).1
  unfolding settle_message
  settle_message-keeps max_attempts m (ok u, db) h = h
  settle_message-keeps max_attempts m (err x, db) h =
      elim (Bool-cases (is_poison x && leb max_attempts (delivery_attempt m))) [
        | inl dead ↦ rw dead (kept.on_pause db h)
        | inr again ↦ rw again h
      ]

  pub run_feed-keeps :
      (max_attempts : ℕ) (f : Feed) (db : Db) → P db → P (run_feed max_attempts f db)
  unfolding run_feed handle_message repair_projection_event
  run_feed-keeps max_attempts (deliver m now) db h =
      settle_message-keeps max_attempts m (consume_body m.body now db)
        (consume_body-keeps m.body now db h)
  run_feed-keeps max_attempts (repair_head e now) db h =
      apply_projection_event-keeps e true now db h

  pub run_feeds-keeps :
      (max_attempts : ℕ) (fs : List Feed) (db : Db) → P db → P (run_feeds max_attempts fs db)
  unfolding run_feeds
  run_feeds-keeps max_attempts [] db h = h
  run_feeds-keeps max_attempts (f ∷ fs) db h =
      run_feeds-keeps max_attempts fs (run_feed max_attempts f db)
        (run_feed-keeps max_attempts f db h)
