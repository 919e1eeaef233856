-- ===== src/Projection/Answers.antt =====
-- What the answer to the broker says about the database.
use travel_web_api.Auth.Verify.{refused}
use travel_web_api.Db.Monad.{Db, Error, Result, ok, err, transaction-eq-err}
use travel_web_api.Db.Trips.{StreamState, InitializationState, AdminProjectionConsumerState}
use travel_web_api.Db.Users.{Time}
use travel_web_api.Prelude.{
  leb, Bool-cases, Option-cases, ℕ, ◌≤◌, ◌≡◌, refl, sym, subst, inl, inr, Bool, true, false, ◌&&◌,
  none, some, arith,
}
use travel_web_api.Projection.Consumer.{
  Body, commit, heartbeat, malformed, Message, delivery_attempt, Verdict, is_poison, after_event,
  after_heartbeat, consume_body, settle_message, handle_message,
}
use travel_web_api.Projection.Feeds.{apply_projection_heartbeat-cases}
use travel_web_api.Projection.Order.{HasEvent, apply_projection_event-HasEvent}
use travel_web_api.Projection.Payloads.{
  TripProjectionCommitEvent, ProjectionHeartbeat, event_is_valid,
}
use travel_web_api.Projection.Stream.{
  Applied, is_active_stream, apply_event_body, apply_projection_event, beaten,
  apply_projection_heartbeat, pause_projection_stream,
}

-- The heartbeat met the watermark of an active stream, and the state row shows it as the latest;
-- the rest of the database has stayed.
pub record IsShown (h : ProjectionHeartbeat) (now : Time) (db db' : Db) : Type 0 where
  pub state : AdminProjectionConsumerState
  pub is_state : db'.consumer ≡ some state
  pub is_met : state.applied_high_watermark ≡ h.outbox_high_watermark
  pub is_active : state.stream_state ≡ StreamState.active
  pub is_latest : state.latest_heartbeat_watermark ≡ some h.outbox_high_watermark
  pub is_observed : state.latest_heartbeat_observed_at ≡ some h.observed_at
  pub is_checked : state.sync_checked_at ≡ some now
  pub is_ready : state.initialization_state ≡ InitializationState.initialized
  pub same_rest : record db' { consumer = db.consumer } ≡ db

-- What an acknowledged message has left: an event is among those applied, and a heartbeat is shown.
abbrev pub IsDone : Body → Time → Db → Db → Type 0
IsDone (commit e) now db db' = HasEvent e db'
IsDone (heartbeat h) now db db' = IsShown h now db db'
IsDone malformed now db db' = ⊥

-- The state row, if there is one, is paused over poison and otherwise the same, as is the rest.
abbrev pub IsPaused : Db → Db → Type 0
IsPaused db db' = db' ≡ record db {
  consumer = elim db.consumer [
    | none ↦ none
    | some s ↦ some (record s { stream_state = StreamState.paused_poison })
  ];
}

abbrev pub Fits : ℕ → Message → Time → Db → Verdict → Db → Type 0
Fits max_attempts m now db Verdict.acknowledged db' = IsDone m.body now db db'
Fits max_attempts m now db Verdict.requeued db' = db' ≡ db
Fits max_attempts m now db Verdict.rejected db' =
    IsPaused db db' × (max_attempts ≤ delivery_attempt m)

pauses : (db : Db) → IsPaused db (pause_projection_stream db)
unfolding pause_projection_stream
pauses db = elim (Option-cases db.consumer) [
  | inl missing ↦ rw missing refl
  | inr (s, is_state) ↦ rw is_state refl
]

is_active_stream_eq : (s : StreamState) → is_active_stream s ≡ true → s ≡ StreamState.active
is_active_stream_eq s h = ground arith

-- What is known of a call: its return means `Q` of the database, its error that nothing changed.
abbrev Returned : {A : Type 0} → (A → Db → Type 0) → Db → Result A × Db → Type 0
Returned Q db (ok a, db') = Q a db'
Returned Q db (err x, db') = db' ≡ db

apply_projection_event-refused :
    (e : TripProjectionCommitEvent) (now : Time) (db : Db) (x : Error)
    → (apply_projection_event e false now db).0 ≡ err x
    → (apply_projection_event e false now db).1 ≡ db
unfolding apply_projection_event
apply_projection_event-refused e now db x h = elim (Bool-cases (event_is_valid e)) [
  | inl valid ↦ rw valid (transaction-eq-err (apply_event_body e false now) db (rw valid at h))
  | inr refused ↦ rw refused refl
]

after_event-Returned :
    (e : TripProjectionCommitEvent) (db : Db) (r : Result Applied × Db)
    → ((a : Applied) → r.0 ≡ ok a → HasEvent e r.1)
    → ((x : Error) → r.0 ≡ err x → r.1 ≡ db)
    → Returned (λ u db'. HasEvent e db') db (after_event r)
after_event-Returned e db (ok a, db') good bad = good a refl
after_event-Returned e db (err x, db') good bad = bad x refl

consume_heartbeat-Returned :
    (h : ProjectionHeartbeat) (now : Time) (db : Db)
    → Returned
        (λ u db'. IsDone (heartbeat h) now db db')
        db
        (after_heartbeat (apply_projection_heartbeat h now db))
consume_heartbeat-Returned h now db =
    let P = λ (r : Result Bool × Db).
      Returned (λ u db'. IsDone (heartbeat h) now db db') db (after_heartbeat r) in
    elim (apply_projection_heartbeat-cases h now db) [
      | inl waits ↦ subst P (sym waits) refl
      | inr (s, is_state, meets, live, beats) ↦
          let shown : IsShown h now db (record db { consumer = some (beaten h now s) }) = record {
            state = beaten h now s;
            is_state = refl;
            is_met = meets;
            is_active = is_active_stream_eq s.stream_state live;
            is_latest = refl;
            is_observed = refl;
            is_checked = refl;
            is_ready = refl;
            same_rest = refl;
          } in
          subst P (sym beats) shown
    ]

consume_body-Returned :
    (b : Body) (now : Time) (db : Db)
    → Returned (λ u db'. IsDone b now db db') db (consume_body b now db)
unfolding consume_body
consume_body-Returned (commit e) now db =
    after_event-Returned e db (apply_projection_event e false now db)
      (λ a h. apply_projection_event-HasEvent e false now db h)
      (λ x h. apply_projection_event-refused e now db x h)
consume_body-Returned (heartbeat h) now db = consume_heartbeat-Returned h now db
consume_body-Returned malformed now db = refl

settled_message :
    (max_attempts : ℕ) (m : Message) (now : Time) (db : Db) (r : Result (Unit {0}) × Db)
    → Returned (λ u db'. IsDone m.body now db db') db r
    → let (v, db') = settle_message max_attempts m r in Fits max_attempts m now db v db'
unfolding settle_message
settled_message max_attempts m now db (ok u, db') h = h
settled_message max_attempts m now db (err x, db') h =
    elim (Bool-cases (is_poison x && leb max_attempts (delivery_attempt m))) [
      | inl dead ↦
          rw dead
            (subst (λ d. IsPaused db (pause_projection_stream d)) (sym h) (pauses db), ground arith)
      | inr again ↦ rw again h
    ]

-- For every message and database: acknowledged, its event is among the applied ones with its
-- payload, or its heartbeat met the watermark of an active stream, the state row has its watermark
-- and times and is initialized, and the rest has stayed; requeued, nothing has changed; rejected, the
-- state row is paused over poison, nothing else has changed and the message has had its delivery
-- attempts.
pub handle_message-Fits :
    (max_attempts : ℕ) (m : Message) (now : Time) (db : Db)
    → let (v, db') = handle_message max_attempts m now db in Fits max_attempts m now db v db'
unfolding handle_message
handle_message-Fits max_attempts m now db =
    settled_message max_attempts m now db (consume_body m.body now db)
      (consume_body-Returned m.body now db)
