-- ===== src/Profile.antt =====
-- profile/service.py: default display names, the quarantine of a former name, and renaming.
pub mod Names
pub mod Quarantine
mod Tests
