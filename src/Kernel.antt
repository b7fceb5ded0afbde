-- ===== src/Kernel.antt =====
-- src/kernel: the domain types, the repository interfaces and the services that use them.
pub mod Faults
pub mod Names
pub mod Identity
pub mod InstanceKeys
pub mod Instances
pub mod Authority
pub mod Schemas
pub mod Subscriptions
pub mod Requests
pub mod Handshakes
pub mod Enrollment
pub mod Messages
pub mod ServiceRequests
pub mod Replay
pub mod Admission
pub mod Gate
pub mod WorkClaims
