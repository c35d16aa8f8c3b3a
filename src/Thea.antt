-- ===== src/Thea.antt =====
-- The Thea bridge: pallets/thea and primitives/thea. The child modules hold its data, its operations
-- and their theorems.
pub mod Types
pub mod Decimals
pub mod Signed
pub mod Outgoing
pub mod Incoming
pub mod Networks
pub mod Session
pub mod Dispatch
pub mod Finality
pub mod Validation
pub mod FirstSignature
pub mod Genuine
pub mod Quorum
pub mod Execution
pub mod Stakes
pub mod Reports
pub mod Filed
pub mod Frames
pub mod Outbox
pub mod Nonces
pub mod Sample
mod Tests
pub mod Rotation
