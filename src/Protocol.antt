-- ===== src/Protocol.antt =====
-- protocol/: the records of the wire protocol, their encodings and their validation.
pub mod Extensions
pub mod Frames
pub mod KeyUpdate
pub mod Route
pub mod Flows
pub mod Validate
pub mod Optional
pub mod Records
pub mod Preludes
pub mod Capsules
pub mod Routing
pub mod Templates
pub mod CoverProfiles
pub mod Admission
pub mod Policies
pub mod Issuer
pub mod Verifier
