-- ===== src/Projection/Consumer.antt =====
-- _handle_message of admin/projection_consumer.py: what is done with a message of the queue.
use travel_web_api.Db.Monad.{
  Db, Error, value_error, projection_poison_error, projection_sequence_blocked, Result, ok, err,
  App,
}
use travel_web_api.Db.Users.{Time}
use travel_web_api.Prelude.{
  leb, if◌then◌else◌, ℕ, ◌+◌, max, Bool, true, false, ◌&&◌, Option, none, some,
}
use travel_web_api.Prelude.Int.{ℤ, max_zero}
use travel_web_api.Projection.Payloads.{TripProjectionCommitEvent, ProjectionHeartbeat}
use travel_web_api.Projection.Stream.{
  Applied, apply_projection_event, apply_projection_heartbeat, pause_projection_stream,
}

-- What the message's body decodes to. `malformed` is a body that is no JSON object, that names no
-- known event type, or that Pydantic refuses.
pub data Body : Type 0 where
  commit : TripProjectionCommitEvent → Body
  heartbeat : ProjectionHeartbeat → Body
  malformed : Body

-- The headers x-delivery-count and x-acquired-count, `none` where they are missing or no integer.
pub record Message : Type 0 where
  pub body : Body
  pub delivery_count : Option ℤ
  pub acquired_count : Option ℤ

abbrev pub counted : Option ℤ → ℕ
counted none = 0
counted (some n) = max_zero n

abbrev pub delivery_attempt : Message → ℕ
delivery_attempt m = max (counted m.delivery_count) (counted m.acquired_count) + 1

-- What the broker is told, and whether the consumer goes on.
pub data Verdict : Type 0 where
  acknowledged requeued rejected : Verdict

abbrev pub goes_on : Verdict → Bool
goes_on Verdict.rejected = false
goes_on _ = true

-- JSONDecodeError and ValidationError are ValueErrors.
abbrev pub is_poison : Error → Bool
is_poison (value_error s) = true
is_poison projection_poison_error = true
is_poison _ = false

abbrev pub after_event : Result Applied × Db → Result (Unit {0}) × Db
after_event (ok a, db) = (ok tt, db)
after_event (err x, db) = (err x, db)

-- A heartbeat that was not applied is a sequence error.
abbrev pub after_heartbeat : Result Bool × Db → Result (Unit {0}) × Db
after_heartbeat (ok true, db) = (ok tt, db)
after_heartbeat (ok false, db) = (err projection_sequence_blocked, db)
after_heartbeat (err x, db) = (err x, db)

unfoldable pub consume_body : Body → Time → App Unit
consume_body (commit e) now db = after_event (apply_projection_event e false now db)
consume_body (heartbeat h) now db = after_heartbeat (apply_projection_heartbeat h now db)
consume_body malformed now db = (err (value_error "projection message"), db)

-- The except clauses, and the ack after them.
unfoldable pub settle_message : ℕ → Message → Result (Unit {0}) × Db → Verdict × Db
settle_message max_attempts m (ok u, db) = (acknowledged, db)
settle_message max_attempts m (err x, db) =
    if is_poison x && leb max_attempts (delivery_attempt m)
    then (Verdict.rejected, pause_projection_stream db)
    else (requeued, db)

unfoldable pub handle_message : ℕ → Message → Time → Db → Verdict × Db
handle_message max_attempts m now db = settle_message max_attempts m (consume_body m.body now db)
