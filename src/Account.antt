-- ===== src/Account.antt =====
-- src/account: the closure of an account.
pub mod Closure
pub mod Erasure
pub mod Forgotten
mod Tests
