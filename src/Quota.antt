-- ===== src/Quota.antt =====
-- quota/service.py: reservation, acceptance, settlement and the quota that a user has left.
pub mod Snapshot
pub mod Reserve
pub mod Accept
pub mod Settle
pub mod Ledger
pub mod ReserveLedger
pub mod SettleLedger
pub mod Calls
pub mod Sequences
pub mod Reservations
pub mod Evolution
pub mod Histories
pub mod Outcomes
pub mod Settlements
pub mod Limits
pub mod Solvency
pub mod Spending
mod Tests
