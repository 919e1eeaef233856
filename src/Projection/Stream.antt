-- ===== src/Projection/Stream.antt =====
-- apply_projection_event, repair_projection_event, apply_projection_heartbeat and
-- pause_projection_stream: the stream's single state row, and events in the order of the outbox.
use mathlib.Core.Option
use travel_web_api.Db.Monad.{
  Db, value_error, integrity_error, projection_unavailable, projection_poison_error,
  projection_sequence_blocked, ok, err, Tx, App, transaction, pure, modify, ◌>>◌,
}
use travel_web_api.Db.Trips.{
  AdminProjectionEvent, StreamState, InitializationState, AdminProjectionConsumerState,
}
use travel_web_api.Db.Users.{Time}
use travel_web_api.Prelude.{
  leb, if◌then◌else◌, string_eq, nat_eq, ◌==◌, find, any, ◌+◌, Bool, true, false, not, ◌&&◌, ◌||◌,
  none, some, List, [], ◌∷◌,
}
use travel_web_api.Projection.Payloads.{
  StepProjectionPayload, TripProjectionCommitEvent, ProjectionHeartbeat, event_is_valid,
}
use travel_web_api.Projection.Snapshots.{apply_job_snapshot, apply_step_snapshot}

pub data Applied : Type 0 where
  duplicate applied : Applied

-- `sorted(…, key=source_step_id)`, which keeps the order of equal keys.
abbrev pub insert_step :
    StepProjectionPayload → List StepProjectionPayload → List StepProjectionPayload
insert_step s [] = s ∷ []
insert_step s (t ∷ ts) =
    let rest = insert_step s ts in
    if leb s.source_step_id t.source_step_id then s ∷ t ∷ ts else t ∷ rest

abbrev pub sort_steps : List StepProjectionPayload → List StepProjectionPayload
sort_steps [] = []
sort_steps (s ∷ ss) = insert_step s (sort_steps ss)

unfoldable pub apply_steps : List StepProjectionPayload → Time → Tx Unit
apply_steps [] now = pure tt
apply_steps (s ∷ ss) now = do apply_step_snapshot s now; apply_steps ss now

abbrev pub event_row : TripProjectionCommitEvent → Time → AdminProjectionEvent
event_row e now = record {
  event_id = e.event_id;
  outbox_sequence = e.outbox_sequence;
  payload_hash = e.payload_hash;
  applied_at = now;
}

-- `outbox_sequence` is unique.
unfoldable pub insert_event : AdminProjectionEvent → Tx Unit
insert_event e db =
    if any (λ x. x.event_id == e.event_id || x.outbox_sequence == e.outbox_sequence) db.events
    then err (integrity_error "admin_projection_event")
    else ok (tt, record db { events = e ∷ db.events })

abbrev pub advanced :
    TripProjectionCommitEvent → Bool → AdminProjectionConsumerState → AdminProjectionConsumerState
advanced e repair s = record s {
  applied_high_watermark = e.outbox_sequence;
  next_expected_sequence = e.outbox_sequence + 1;
  stream_state = if repair then StreamState.active else s.stream_state;
}

-- The state row is written with the rest at the flush.
unfoldable pub advance : TripProjectionCommitEvent → Bool → Tx Unit
advance e repair = modify λ db. record db { consumer = Option.map (advanced e repair) db.consumer }

unfoldable pub apply_next : TripProjectionCommitEvent → Bool → Time → Tx Applied
apply_next e repair now = do
  apply_job_snapshot e.job now
  apply_steps (sort_steps e.changed_steps) now
  insert_event (event_row e now)
  advance e repair
  pure applied

abbrev pub is_active_stream : StreamState → Bool
is_active_stream StreamState.active = true
is_active_stream _ = false

abbrev pub is_paused_poison : StreamState → Bool
is_paused_poison StreamState.paused_poison = true
is_paused_poison _ = false

-- An event that was not applied before.
unfoldable pub apply_new : TripProjectionCommitEvent → Bool → Time → Tx Applied
apply_new e repair now db = elim db.consumer [
  | none ↦ err projection_unavailable
  | some s ↦
      if not (is_active_stream s.stream_state) && not (repair && is_paused_poison s.stream_state)
      then err projection_sequence_blocked
      else if not (e.outbox_sequence == s.next_expected_sequence)
      then err projection_sequence_blocked
      else apply_next e repair now db
]

unfoldable pub apply_event_body : TripProjectionCommitEvent → Bool → Time → Tx Applied
apply_event_body e repair now db = elim (find (λ x. x.event_id == e.event_id) db.events) [
  | some x ↦
      if x.payload_hash == e.payload_hash then ok (duplicate, db) else err projection_poison_error
  | none ↦ apply_new e repair now db
]

-- A payload that fails its validators raises ValidationError, which is a ValueError.
unfoldable pub apply_projection_event : TripProjectionCommitEvent → Bool → Time → App Applied
apply_projection_event e repair now db =
    if event_is_valid e
    then transaction (apply_event_body e repair now) db
    else (err (value_error "TripProjectionCommitEvent"), db)

unfoldable pub repair_projection_event : TripProjectionCommitEvent → Time → App Applied
repair_projection_event e now = apply_projection_event e true now

abbrev pub beaten :
    ProjectionHeartbeat → Time → AdminProjectionConsumerState → AdminProjectionConsumerState
beaten h now s = record s {
  latest_heartbeat_watermark = some h.outbox_high_watermark;
  latest_heartbeat_observed_at = some h.observed_at;
  sync_checked_at = some now;
  initialization_state = InitializationState.initialized;
}

unfoldable pub apply_projection_heartbeat : ProjectionHeartbeat → Time → App Bool
apply_projection_heartbeat h now db = elim db.consumer [
  | none ↦ (ok false, db)
  | some s ↦
      if is_active_stream s.stream_state && h.outbox_high_watermark == s.applied_high_watermark
      then (ok true, record db { consumer = some (beaten h now s) })
      else (ok false, db)
]

abbrev pub paused : AdminProjectionConsumerState → AdminProjectionConsumerState
paused s = record s { stream_state = StreamState.paused_poison }

unfoldable pub pause_projection_stream : Db → Db
pause_projection_stream db = record db { consumer = Option.map paused db.consumer }
