-- ===== src/Trips.antt =====
-- trips/service.py: submitting a trip to the planner and applying what the planner reports; and
-- trips/reconciliation.py.
pub mod Service
pub mod Charges
pub mod Charging
pub mod Reports
pub mod Returns
pub mod Refunds
pub mod Reconciliation
pub mod Recovery
pub mod Rounds
pub mod GivingUp
mod Tests
