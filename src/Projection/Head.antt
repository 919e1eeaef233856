-- ===== src/Projection/Head.antt =====
-- The next event of the stream is applied when it is delivered, and a repair of the head sets a
-- paused stream going.
use mathlib.Core.Option
use travel_web_api.Db.Monad.{Db}
use travel_web_api.Db.Trips.{StreamState, AdminProjectionConsumerState}
use travel_web_api.Prelude.{
  string_eq, nat_eq, ◌==◌, find, ℕ, ◌+◌, ◌≡◌, ◌⊎◌, Bool, true, false, none, some,
}
use travel_web_api.Projection.Payloads.{TripProjectionCommitEvent, event_is_valid}
use travel_web_api.Projection.Snapshots.{source_id_taken}

-- The event comes next, is not among the applied ones, and its job's source id is its own.
pub record IsHead (e : TripProjectionCommitEvent) (s : AdminProjectionConsumerState) (db : Db)
    : Type 0 where
  pub is_state : db.consumer ≡ some s
  pub is_valid : event_is_valid e ≡ true
  pub is_next : e.outbox_sequence ≡ s.next_expected_sequence
  pub is_new : find (λ x. x.event_id == e.event_id) db.events ≡ none
  pub own_source : source_id_taken e.job.job_id e.job.source_id db.projections ≡ false

-- Active, or paused over poison with a repair at hand.
abbrev pub CanGoOn : Bool → AdminProjectionConsumerState → Type 0
CanGoOn again s =
    (s.stream_state ≡ StreamState.active)
    ⊎ ((again ≡ true) × (s.stream_state ≡ StreamState.paused_poison))

-- The stream's state row after the event with this sequence number.
pub record HasMoved (n : ℕ) (before : AdminProjectionConsumerState) (db : Db) : Type 0 where
  pub state : AdminProjectionConsumerState
  pub is_state : db.consumer ≡ some state
  pub is_applied : state.applied_high_watermark ≡ n
  pub expects_next : state.next_expected_sequence ≡ before.next_expected_sequence + 1
  pub is_active : state.stream_state ≡ StreamState.active
