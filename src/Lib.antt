-- ===== src/Lib.antt =====
-- Polkadex node: the state transitions of four pallets of the Polkadex chain.
--
-- pallets/pdex-migration (Migration) mints PDEX for tokens burnt on Ethereum: relayers approve a
-- burn, the third approval mints and locks, and `unlock` frees after the lock period.
-- pallets/rewards (Rewards) pays crowdloan rewards: governance opens a cycle, an account initialises
-- its rewards, which are paid and locked, and a claim removes the lock. Both work on the balances of
-- pallet_balances, which Currency has as a record of operations (`LockableCurrency`) with the laws
-- that pallet_balances documents (`LedgerLaws`); Currency/Sample is a ledger that meets them.
-- pallets/thea (Thea) is the bridge. Outgoing messages of a network are numbered, and the authorities
-- of the active set sign them; incoming messages are queued with a relayer's stake, may be reported
-- by a fisherman, and are executed by `on_initialize`; a new session may rotate the authorities.
-- pallets/ocex (Ocex) keeps the custody of the order book. Accounts name proxies, deposits go to the
-- account of the pallet and are told to the order book by ingress messages; a snapshot signed by the
-- authorities brings withdrawals back, which are paid or kept for a claim. Off chain, the balances of
-- the accounts are stored in a trie behind a cache (`OffchainState`), and each trade is settled there.
--
-- Which file models what:
--   Frame: results, functions over a storage, `ensure!`, `#[transactional]` and origins.
--   Migration/Types, Migration/Calls: storage and calls of pallets/pdex-migration/src/lib.rs.
--   Rewards/Types, Rewards/Calls: storage and calls of pallets/rewards/src/lib.rs, and the types of
--     primitives/polkadex/src/rewards.rs.
--   Thea/Types, Thea/Signed: primitives/thea/src/types.rs and primitives/thea/src/lib.rs, and the
--     storage, events and errors of pallets/thea/src/lib.rs.
--   Thea/Decimals: the conversion of amounts in primitives/thea/src/types.rs; a division by zero, which
--     panics, is `none`.
--   Thea/Outgoing, Thea/Incoming, Thea/Networks: the calls, hooks and executors of
--     pallets/thea/src/lib.rs. Thea/Session: its `change_authorities` and pallets/thea/src/session.rs.
--   Ocex/Types: the storage, events and errors of pallets/ocex/src/lib.rs, and the types of
--     primitives/orderbook/src and primitives/polkadex/src/withdrawal.rs that it uses.
--   Ocex/Accounts, Ocex/Pairs, Ocex/Custody: the calls and helpers of pallets/ocex/src/lib.rs on
--     accounts and governance, on trading pairs, on deposits and withdrawals. Ocex/Snapshot: its
--     `validate_snapshot`. Ocex/Dispatch: the calls as steps, and sequences of steps.
--   Ocex/Storage: `OffchainState` of pallets/ocex/src/storage.rs. Ocex/Settlement:
--     pallets/ocex/src/settlement.rs. Ocex/Orders: orders, trades and the order of the book of
--     primitives/orderbook/src/types.rs.
--   Ocex/Decimal: what these use of rust_decimal, as a record of operations (`Decimals`) with the laws
--     (`GridLaws`) for multiples of 10 ^ -18. Ocex/Sample: a runtime, numbers, a trie and a codec that
--     meet every law.
--   Thea/Dispatch: every one of these operations as a step, and sequences of steps.
-- A function of the source is a definition of the same name; what it does after a `match` or in a
-- closure or loop may be a definition of its own (`approve` of `process_migration`, `place` of
-- `submit_incoming_message`, `submit_loop` of `submit_signed_outgoing_messages`). Storage items are
-- the fields of a record `State`, with the currency's ledger, the block number and the events.
--
-- Numbers are natural numbers. Where the source saturates or wraps, so does the definition, at the
-- width written there. A `+=` or `-=` that cannot overflow behind its guards is plain. Loops are by
-- structural recursion on the list or on the count of nonces, so that no fuel is needed; the `while`
-- of `do_withdraw` is also on fuel (`withdraw_loop`), of which the length of its list is enough.
--
-- A call without `#[transactional]` keeps what it wrote before an error, as its function does;
-- the storage layer that the runtime puts around each call is in Ocex/Dispatch and left out elsewhere.
--
-- Not modelled: pallet_balances, the executor of deposits, hashes, codecs and signatures, which are
-- parameters; weights, benchmarks and mocks; the Thea worker, which signs off chain; of the pallet ocex, the
-- dispatch of a snapshot (`submit_snapshot`), liquidity mining, auctions, the hooks, the validator's
-- import of blocks and the node store under the trie; the pallets liquidity-mining and xcm-helper; the
-- runtime's configuration, the node and the RPC servers; vendor, which holds copies of other projects.
pub mod Prelude
pub mod Frame
pub mod Currency
pub mod Migration
pub mod Rewards
pub mod Thea
pub mod Ocex
