-- ===== src/Rewards/Calls.antt =====
-- The calls of pallets/rewards/src/lib.rs and the functions below them.
use polkadex_node.Prelude.{
  ℕ, ◌+◌, ◌-◌, Bool, true, false, not, Option, none, some, List, [], ◌∷◌, ◌++◌, ltb, leb, ◌==◌,
  ◌&&◌, if◌then◌else◌, update, update₂, u128_mod, is_some, saturating_add, saturating_mul, min,
}
use polkadex_node.Frame.{
  Result, ok, err, Action, gets, modify, ensure, get_or_raise, ◌>>=◌, ◌>>◌, Origin, ensure_signed,
  ensure_none,
}
use polkadex_node.Currency.{LockableCurrency}
use polkadex_node.Rewards.Types.{
  State, RewardInfo, RewardInfoForAccount, Event, reward_cycle_created, user_unlocked_reward,
  user_claimed_reward, Error, duplicate_id, invalid_blocks_range, invalid_initial_percentage,
  incorrect_donor_account, reward_id_not_register, user_not_eligible,
  user_has_not_initialize_claim_rewards, rewards_cannot_be_unlock_yet, rewards_already_initialized,
  amount_to_lowto_initialize_rewards, bad_origin, dispatch, Environment, Rewardee, ExchangePayload,
  RewardsInfoByAccount, Validity, valid, custom, rewards_lock_id, min_rewards_claimable_amount,
  Request, creates, initializes, claims, unsigned_initializes, unsigned_claims, block_ends,
}

-- `HASHMAP.iter().find(|a| a.0 == account)`
unfoldable pub find : ℕ → List Rewardee → Option Rewardee
find account [] = none
find account (r ∷ rs) = if r.account == account then some r else find account rs

-- `HASHMAP.iter().any(|a| a.0 == account)`
unfoldable pub any : ℕ → List Rewardee → Bool
any account [] = false
any account (r ∷ rs) = if r.account == account then true else any account rs

-- What a claim reports: the initial rewards, if they are not claimed, and the rest.
unfoldable pub rewards_claimable : RewardInfoForAccount → ℕ
rewards_claimable info =
    saturating_add u128_mod
      (if not info.is_initial_rewards_claimed then info.initial_rewards_claimable else 0)
      (info.total_reward_amount - info.claim_amount)

-- The entry of an account when it is funded.
unfoldable pub initial_info : Rewardee → RewardInfo → RewardInfoForAccount
initial_info r info = record {
  total_reward_amount = r.total_rewards_in_pdex;
  claim_amount = 0;
  is_initial_rewards_claimed = false;
  is_initialized = true;
  lock_id = rewards_lock_id;
  last_block_rewards_claim = info.start_block;
  initial_rewards_claimable = r.initial_rewards_claimable;
  factor = r.factor;
}

module _ (c : LockableCurrency) (env : Environment) where
  open c use {Ledger, set_lock, remove_lock, transfer}

  abbrev pub Call : Type 0
  Call = Action (State Ledger) Error (Unit {0})

  abbrev pub deposit_event : Event → State Ledger → State Ledger
  deposit_event e s = record s { events = s.events ++ e ∷ [] }

  unfoldable pub create_reward_cycle : Origin → ℕ → ℕ → ℕ → ℕ → Call
  create_reward_cycle origin start_block end_block initial_percentage reward_id = do
    ensure (env.is_governance origin) bad_origin
    taken ← gets (λ s. is_some (s.initialize_rewards reward_id))
    ensure (not taken) duplicate_id
    ensure (ltb start_block end_block) invalid_blocks_range
    ensure (leb initial_percentage 100 && ltb 0 initial_percentage) invalid_initial_percentage
    modify (λ s. record s {
      initialize_rewards = update s.initialize_rewards reward_id (
          some (record {
            start_block = start_block;
            end_block = end_block;
            initial_percentage = initial_percentage;
          }));
    })
    modify (deposit_event (reward_cycle_created start_block end_block reward_id))

  unfoldable pub transfer_pdex_rewards : ℕ → ℕ → ℕ → Call
  transfer_pdex_rewards payer payee amount s = elim (transfer payer payee amount s.ledger) [
    | ok moved ↦ (ok tt, record s { ledger = moved })
    | err e ↦ (err (dispatch e), s)
  ]

  unfoldable pub do_initialize_claim_rewards : ℕ → ℕ → Call
  do_initialize_claim_rewards user reward_id = do
    reward_info ← get_or_raise (λ s. s.initialize_rewards reward_id) reward_id_not_register
    now ← gets (λ s. s.block_number)
    ensure (leb reward_info.start_block now) rewards_cannot_be_unlock_yet
    present ← gets (λ s. is_some (s.distributor reward_id user))
    ensure (not present) rewards_already_initialized
    account ← get_or_raise (λ _. env.account_in_vec user) incorrect_donor_account
    row ← get_or_raise (λ _. find account env.rewardees) user_not_eligible
    info ← get_or_raise (λ s. s.initialize_rewards reward_id) reward_id_not_register
    ensure (ltb min_rewards_claimable_amount row.total_rewards_in_pdex)
        amount_to_lowto_initialize_rewards
    transfer_pdex_rewards env.pallet_account user row.total_rewards_in_pdex
    modify (λ s. record s {
      ledger = set_lock rewards_lock_id user row.total_rewards_in_pdex s.ledger;
    })
    modify (λ s. record s {
      distributor = update₂ s.distributor reward_id user (some (initial_info row info));
    })
    modify (deposit_event (user_unlocked_reward user reward_id))

  -- The closure of `do_claim` where both entries are there.
  unfoldable pub claim_entry : ℕ → ℕ → RewardInfoForAccount → Call
  claim_entry user reward_id info = do
    ensure info.is_initialized user_has_not_initialize_claim_rewards
    modify (λ s. record s { ledger = remove_lock info.lock_id user s.ledger })
    modify (λ s. record s {
      distributor = update₂ s.distributor reward_id user (
          some (record info {
            last_block_rewards_claim = s.block_number;
            is_initial_rewards_claimed = true;
            claim_amount = info.total_reward_amount;
          }));
    })
    modify (deposit_event (user_claimed_reward user reward_id (rewards_claimable info)))

  unfoldable pub do_claim : ℕ → ℕ → Call
  do_claim user reward_id = do
    get_or_raise (λ s. s.initialize_rewards reward_id) reward_id_not_register
    info ← get_or_raise (λ s. s.distributor reward_id user) user_not_eligible
    claim_entry user reward_id info

  unfoldable pub initialize_claim_rewards : Origin → ℕ → Call
  initialize_claim_rewards origin reward_id = do
    user ← ensure_signed bad_origin origin
    do_initialize_claim_rewards user reward_id

  unfoldable pub claim : Origin → ℕ → Call
  claim origin reward_id = do user ← ensure_signed bad_origin origin; do_claim user reward_id

  -- The signature is checked by `validate_unsigned` alone.
  unfoldable pub unsigned_initialize_claim_rewards : Origin → ExchangePayload → Call
  unsigned_initialize_claim_rewards origin payload = do
    ensure_none bad_origin origin
    do_initialize_claim_rewards payload.user payload.reward_id

  unfoldable pub unsigned_claim : Origin → ExchangePayload → Call
  unsigned_claim origin payload = do
    ensure_none bad_origin origin
    do_claim payload.user payload.reward_id

  unfoldable pub validate_unsigned_claim : ExchangePayload → ℕ → State Ledger → Validity
  validate_unsigned_claim payload signature s =
      elim (s.distributor payload.reward_id payload.user) [
        | none ↦ custom 1
        | some info ↦
            if ltb (info.total_reward_amount - info.claim_amount) 1_000_000_000_000
            then custom 2
            else elim (env.to_vec payload) [
              | none ↦ custom 1
              | some encoded ↦
                  if not (env.verify signature encoded payload.user)
                  then custom 3
                  else valid 10 true
            ]
      ]

  unfoldable pub validate_unsigned_initialize_claim_rewards : ExchangePayload → ℕ → Validity
  validate_unsigned_initialize_claim_rewards payload signature = elim (env.to_vec payload) [
    | none ↦ custom 1
    | some encoded ↦
        if not (env.verify signature encoded payload.user)
        then custom 2
        else elim (env.account_in_vec payload.user) [
          | none ↦ custom 3
          | some account ↦ if not (any account env.rewardees) then custom 4 else valid 10 true
        ]
  ]

  unfoldable pub account_info : ℕ → ℕ → State Ledger → Result Error RewardsInfoByAccount
  account_info account_id reward_id s = elim (s.distributor reward_id account_id) [
    | none ↦ err user_not_eligible
    | some user_info ↦ elim (s.initialize_rewards reward_id) [
      | none ↦ err user_not_eligible
      | some reward_info ↦
          let initial =
            if not user_info.is_initial_rewards_claimed
            then user_info.initial_rewards_claimable
            else 0 in
          let unclaimed_blocks =
            min s.block_number reward_info.end_block - user_info.last_block_rewards_claim in
          ok (record {
            claimed = user_info.claim_amount;
            unclaimed = user_info.total_reward_amount - user_info.claim_amount;
            claimable =
                saturating_add u128_mod initial
                  (saturating_mul u128_mod user_info.factor unclaimed_blocks);
          })
    ]
  ]

  -- What a call leaves behind, with no storage layer of the runtime around it.
  unfoldable pub execute : Request → State Ledger → State Ledger
  execute (creates origin start end percentage id) s =
      (create_reward_cycle origin start end percentage id s).1
  execute (initializes origin id) s = (initialize_claim_rewards origin id s).1
  execute (claims origin id) s = (claim origin id s).1
  execute (unsigned_initializes origin payload) s =
      (unsigned_initialize_claim_rewards origin payload s).1
  execute (unsigned_claims origin payload) s = (unsigned_claim origin payload s).1
  execute block_ends s = record s { block_number = s.block_number + 1 }

  unfoldable pub run : List Request → State Ledger → State Ledger
  run [] s = s
  run (r ∷ rs) s = run rs (execute r s)
