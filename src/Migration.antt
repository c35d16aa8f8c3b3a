-- ===== src/Migration.antt =====
-- pallets/pdex-migration/src/lib.rs: relayers report burns on Ethereum, the third report mints and
-- locks native tokens. The child modules hold the calls and their theorems.
pub mod Types
pub mod Calls
pub mod Outcomes
pub mod Supply
pub mod Approvals
pub mod Minting
pub mod Locks
mod Tests
