-- ===== src/Rewards/Types.antt =====
-- The storage, events and errors of pallets/rewards/src/lib.rs, and the payload and report of
-- primitives/polkadex/src/rewards.rs. Accounts, blocks and balances are numbers.
use polkadex_node.Prelude.{ℕ, Bool, Option, List}
use polkadex_node.Frame.{Origin}

-- `REWARDS_LOCK_ID`, the bytes of "REWARDID"
abbrev pub rewards_lock_id : ℕ
rewards_lock_id = 0x5245_5741_5244_4944

-- `UNIT_BALANCE` and `MIN_REWARDS_CLAIMABLE_AMOUNT`
abbrev pub min_rewards_claimable_amount : ℕ
min_rewards_claimable_amount = 1_000_000_000_000

pub record RewardInfo : Type 0 where
  pub start_block : ℕ
  pub end_block : ℕ
  pub initial_percentage : ℕ

pub record RewardInfoForAccount : Type 0 where
  pub total_reward_amount : ℕ
  pub claim_amount : ℕ
  pub is_initial_rewards_claimed : Bool
  pub is_initialized : Bool
  pub lock_id : ℕ
  pub last_block_rewards_claim : ℕ
  pub initial_rewards_claimable : ℕ
  pub factor : ℕ

pub data Event : Type 0 where
  reward_cycle_created : ℕ → ℕ → ℕ → Event
  user_unlocked_reward : ℕ → ℕ → Event
  user_claimed_reward : ℕ → ℕ → ℕ → Event
  user_reward_not_satisfying_min_constraint : ℕ → ℕ → ℕ → Event

-- `Error<T>`, with the `DispatchError` of another pallet and of a wrong origin.
pub data Error : Type 0 where
  duplicate_id invalid_blocks_range invalid_initial_percentage incorrect_donor_account : Error
  reward_id_not_register user_not_eligible transfer_failed amount_to_low_to_redeem : Error
  user_has_not_initialize_claim_rewards rewards_cannot_be_unlock_yet : Error
  all_rewards_already_claimed rewards_already_initialized : Error
  amount_to_lowto_initialize_rewards bad_origin : Error
  dispatch : ℕ → Error

-- The storage of the pallet, with the ledger of pallet_balances, the block number and the events.
pub record State (L : Type 0) : Type 0 where
  pub initialize_rewards : ℕ → Option RewardInfo
  pub distributor : ℕ → ℕ → Option RewardInfoForAccount
  pub ledger : L
  pub block_number : ℕ
  pub events : List Event

pub data ExchangePayloadAction : Type 0 where
  initialize claim : ExchangePayloadAction

pub record ExchangePayload : Type 0 where
  pub reward_id : ℕ
  pub action : ExchangePayloadAction
  pub user : ℕ

pub record RewardsInfoByAccount : Type 0 where
  pub claimed : ℕ
  pub unclaimed : ℕ
  pub claimable : ℕ

-- `TransactionValidity`: the longevity and the propagation of a valid transaction, or the code of
-- `InvalidTransaction::Custom`.
pub data Validity : Type 0 where
  valid : ℕ → Bool → Validity
  custom : ℕ → Validity

-- A row of `crowdloan_rewardees::HASHMAP`.
pub record Rewardee : Type 0 where
  pub account : ℕ
  pub total_rewards_in_pdex : ℕ
  pub initial_rewards_claimable : ℕ
  pub factor : ℕ

-- What the runtime provides: the account of the pallet, the governance origin, the 32 bytes of an
-- account (as a number), the table of rewardees, the JSON of a payload and the signature check.
pub record Environment : Type 0 where
  pub pallet_account : ℕ
  pub is_governance : Origin → Bool
  pub account_in_vec : ℕ → Option ℕ
  pub rewardees : List Rewardee
  pub to_vec : ExchangePayload → Option (List ℕ)
  pub verify : ℕ → List ℕ → ℕ → Bool

-- The dispatchable calls, and the end of a block.
pub data Request : Type 0 where
  creates : Origin → ℕ → ℕ → ℕ → ℕ → Request
  initializes : Origin → ℕ → Request
  claims : Origin → ℕ → Request
  unsigned_initializes : Origin → ExchangePayload → Request
  unsigned_claims : Origin → ExchangePayload → Request
  block_ends : Request
