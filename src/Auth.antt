-- ===== src/Auth.antt =====
-- auth/service.py and auth/dependencies.py: one-time codes, registration, login and sessions.
pub mod Codes
pub mod Verify
pub mod Sessions
pub mod SendBounds
pub mod SessionLife
pub mod Frame
pub mod Outcomes
pub mod SingleUse
pub mod Registration
mod Tests
