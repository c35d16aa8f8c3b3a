-- ===== src/Migration/Types.antt =====
-- The storage, events and errors of pallets/pdex-migration/src/lib.rs. Accounts and hashes are
-- numbers; the zero hash is 0.
use polkadex_node.Prelude.{ℕ, Bool, false, Option, none, List, [], u128_mod, saturating_mul}
use polkadex_node.Frame.{Origin}

-- `MIGRATION_LOCK`
abbrev pub migration_lock : ℕ
migration_lock = 0x7064_6578_6c6f_636b

pub record BurnTxDetails : Type 0 where
  pub approvals : ℕ
  pub approvers : List ℕ

-- `Default for BurnTxDetails`
abbrev pub default_burn : BurnTxDetails
default_burn = record { approvals = 0; approvers = [] }

-- `MaxRelayers` and `LockPeriod`
pub record Config : Type 0 where
  pub max_relayers : ℕ
  pub lock_period : ℕ

pub data Event : Type 0 where
  relayer_status_updated : ℕ → Bool → Event
  not_operational : Event
  native_pdex_minted_and_locked : ℕ → ℕ → ℕ → Event
  reverted_minted_tokens : ℕ → Event
  token_burn_detected : ℕ → ℕ → Event

-- `Error<T>`, with the `DispatchError` of another pallet and of a wrong origin.
pub data Error : Type 0 where
  not_operational unknown_relayer invalid_mint_amount unknown_beneficiary : Error
  liquidity_restrictions invalid_tx_hash already_processed_eth_burn_tx : Error
  relayer_limit_reached bad_origin : Error
  dispatch : ℕ → Error

-- The storage of the pallet, with the ledger of pallet_balances, the block number and the events.
pub record State (L : Type 0) : Type 0 where
  pub relayers : ℕ → Bool
  pub operational : Bool
  pub mintable_tokens : ℕ
  pub locked_holders : ℕ → Option ℕ
  pub eth_txs : ℕ → BurnTxDetails
  pub ledger : L
  pub block_number : ℕ
  pub events : List Event

-- `GenesisConfig`
pub record GenesisConfig : Type 0 where
  pub operational : Bool
  pub max_tokens : ℕ

-- `Default for GenesisConfig`
pub default_genesis : GenesisConfig
default_genesis = record {
  operational = false;
  max_tokens = saturating_mul u128_mod 3_172_895 1_000_000_000_000;
}

-- `BuildGenesisConfig::build`, over the empty storage of the pallet.
unfoldable pub build : {L : Type 0} → GenesisConfig → L → ℕ → State L
build g ledger block = record {
  relayers = λ _. false;
  operational = g.operational;
  mintable_tokens = g.max_tokens;
  locked_holders = λ _. none;
  eth_txs = λ _. default_burn;
  ledger = ledger;
  block_number = block;
  events = [];
}

-- The dispatchable calls, and the end of a block.
pub data Request : Type 0 where
  sets_operational : Origin → Bool → Request
  sets_relayer : Origin → ℕ → Bool → Request
  mints : Origin → ℕ → ℕ → ℕ → Request
  unlocks : Origin → Request
  removes_minted : Origin → ℕ → Request
  block_ends : Request
