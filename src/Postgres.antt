-- ===== src/Postgres.antt =====
-- src/infrastructure: the repositories, each operation as one transaction on the tables.
pub mod Db
pub mod Identity
pub mod Instances
pub mod Schemas
pub mod Enrollment
pub mod Handshakes
pub mod Admission
pub mod Replay
pub mod Requests
pub mod Authority
pub mod Routes
pub mod Subscriptions
pub mod Gate
pub mod WorkClaims
