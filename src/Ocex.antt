-- ===== src/Ocex.antt =====
-- The OCEX pallet, pallets/ocex: the off-chain state, the settlement of trades, and the calls.
pub mod Decimal
pub mod Storage
pub mod Types
pub mod Accounts
pub mod Pairs
pub mod Custody
pub mod Snapshot
pub mod Dispatch
pub mod Proxies
pub mod Orders
pub mod Settlement
mod Sample
mod Tests
