-- ===== src/Rewards.antt =====
-- pallets/rewards/src/lib.rs: crowdloan rewards, which a user initialises (funded and locked) and
-- then claims (unlocked). The child modules hold the calls and their theorems.
pub mod Types
pub mod Calls
pub mod Outcomes
pub mod Invariant
pub mod Claims
mod Tests
