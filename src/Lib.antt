-- ===== src/Lib.antt =====
-- The travel web API: a service that reserves a user's quota for a trip, hands the trip to an
-- upstream planner, and settles the quota when the trip ends; with the users, their one-time codes
-- and sessions, and the administrators' view.
--
-- How the files follow the code (paths from the repository's root):
--   Db and its children: the rows of src/db/models.py, the closed sets of their status columns, and
--     the writes that a unique constraint can refuse. `Db` is the database, a list for each table.
--     A transaction is a function `Tx` from the database to a result; `transaction` runs one and
--     drops what it wrote when it raises, as `session.begin()` does. The row locks of the source
--     (`with_for_update`) and its advisory locks are taken to make one transaction run after
--     another, so a history is a list of calls. The count of challenges before a one-time code is
--     sent takes no lock; it is modelled for a request that no other one interrupts.
--   Rows: what the proofs use of lists of rows with a key.
--   Json, Python: JSON values, and what the source takes from Python and does not implement; the
--     latter is a parameter (`upper`, `casefold`, `hmac` and the like).
--   Quota: src/quota/service.py. Snapshot, Reserve, Accept and Settle hold its functions under
--     their names; a time, a UUID or a random id that a function draws is a field of its call.
--     Ledger is the invariant that links trips to quota entries.
--
--   Security: src/security/secrets.py and the fields of src/config.py that the services read.
--   Invitations: src/invitations/service.py. Profile: src/profile/service.py.
--   Auth: src/auth/service.py and src/auth/dependencies.py. Codes sends a one-time code under the
--     limits; whether the mail was delivered is an argument. Verify answers a code, with login and
--     registration; Sessions revokes and checks sessions. The advisory lock of a verification is
--     part of the order of transactions. Outcomes and Frame say what a verification leaves alone.
--   Profile.Quarantine, Auth.SendBounds, Auth.SingleUse, Auth.SessionLife and Auth.Registration hold
--     what these files are proved to do.
--   Redaction: the Redactor of src/observability/logging.py, over its regular expressions.
--   Admin: Context and Audit are src/admin/auth.py and src/admin/audit.py; Idempotency is
--     src/admin/idempotency.py, over a parameter for the hash of a canonical request; Users and
--     Adjustments are the operations of src/admin/service.py that write. Calls runs them, also
--     mixed with the calls of Quota; Outcomes and Balances say what each writes, and Replay, Access,
--     Protection, Disabling, Solvency, Reversals and Once hold what they are proved to do.
--     Invitations has the status of a code and the disabling of src/admin/invitations.py, with
--     Retired; Bootstrap is src/admin/bootstrap.py, with Ownership.
--   Account: src/account/closure.py with deidentify_trip_request of src/history/service.py, over a
--     parameter for Pydantic's validation of a trip request. Erasure and Forgotten say what a closure
--     leaves, the latter together with the stream of Projection.
--   Trips: src/trips/service.py on top of Quota; the planner's answer, which may raise, is an
--     argument. Charges, Charging, Reports, Returns and Refunds say what it does to the quota.
--     Reconciliation is src/trips/reconciliation.py, with Recovery, Rounds and GivingUp.
--   Projection: src/admin/projection.py with the schemas that the stream carries and the decision of
--     src/admin/projection_consumer.py on a message. Payloads has the events, Snapshots what they do
--     to the rows, Stream the order of the events, Consumer the answers to the broker, Health what
--     administrators are shown. Feeds runs messages and repairs one after another; Frame, Sequence,
--     Rows and Progress are the lemmas, and Order, Answers, Head, Identity and Shown the results.
--   Samples and the Tests modules: runs at concrete data.
--
-- UUIDs and times are natural numbers (times in microseconds), digests too. A time minus
-- a duration, compared with another time, is written as that time plus the duration. The loop over
-- 32 default names counts down its attempts; every other loop runs over a list.
--
-- Not modelled: HTTP routing, mail, the HTTP client of the planner and its schemas, the message
-- broker, logging, configuration and migrations, which are input and output; and concurrency inside
-- a transaction.

pub mod Prelude
pub mod Json
pub mod Db
pub mod Rows
pub mod Python
pub mod Quota
pub mod Security
pub mod Redaction
pub mod Invitations
pub mod Profile
pub mod Auth
pub mod Samples
pub mod Admin
pub mod Account
pub mod Trips
pub mod Projection
