-- ===== src/Db.antt =====
-- The database: one list of rows for each table of db/models.py, newest first, the exceptions that
-- the services raise, and the two ways a function runs on the database (db/session.py).
pub mod Statuses
pub mod Users
pub mod Grants
pub mod Trips
pub mod Monad
pub mod Tables
pub mod Inserts
