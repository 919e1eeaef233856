-- ===== src/Admin.antt =====
-- The administrators' part: src/admin.
pub mod Context
pub mod Audit
pub mod Idempotency
pub mod Users
pub mod Adjustments
pub mod Replay
pub mod Outcomes
pub mod Protection
pub mod Disabling
pub mod Balances
pub mod Solvency
pub mod Calls
pub mod Reversals
pub mod Once
pub mod Access
pub mod Invitations
pub mod Retired
pub mod Bootstrap
pub mod Ownership
mod Tests
mod ChangeTests
