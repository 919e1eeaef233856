-- ===== src/Projection.antt =====
-- admin/projection.py and admin/projection_consumer.py: the administrators' projection of the
-- planner's jobs, fed by an ordered stream of events.
pub mod Payloads
pub mod Snapshots
pub mod Stream
pub mod Consumer
pub mod Health
pub mod Frame
pub mod Sequence
pub mod Feeds
pub mod Order
pub mod Answers
pub mod Progress
pub mod Head
pub mod Rows
pub mod Identity
pub mod Shown
mod Tests
