-- ===== src/Rewards/Outcomes.antt =====
-- Every way in which the calls of pallets/rewards/src/lib.rs end.
use polkadex_node.Prelude.{
  ℕ, ◌≤◌, ◌<◌, ◌≡◌, ◌⊎◌, inl, inr, ◌++◌, [], ◌∷◌, none, some, true, arith, update, update₂,
  Option-cases, Bool-cases, leb, ltb, ◌&&◌,
}
use polkadex_node.Frame.{ok, err, Origin, Result-cases}
use polkadex_node.Currency.{LockableCurrency}
use polkadex_node.Rewards.Types.{
  State, RewardInfo, RewardInfoForAccount, Error, Environment, Rewardee, user_unlocked_reward,
  user_claimed_reward, reward_cycle_created, duplicate_id, invalid_blocks_range,
  invalid_initial_percentage, incorrect_donor_account, reward_id_not_register, user_not_eligible,
  user_has_not_initialize_claim_rewards, rewards_cannot_be_unlock_yet, rewards_already_initialized,
  amount_to_lowto_initialize_rewards, bad_origin, dispatch, rewards_lock_id,
  min_rewards_claimable_amount,
}
use polkadex_node.Rewards.Calls.{
  find, rewards_claimable, initial_info, create_reward_cycle, do_initialize_claim_rewards,
  transfer_pdex_rewards, do_claim, claim_entry,
}

-- The entry of an account whose rewards have been claimed at a block.
abbrev pub claimed_info : RewardInfoForAccount → ℕ → RewardInfoForAccount
claimed_info info block = record info {
  last_block_rewards_claim = block;
  is_initial_rewards_claimed = true;
  claim_amount = info.total_reward_amount;
}

module _ (c : LockableCurrency) (env : Environment) where
  open c use {Ledger, set_lock, remove_lock, transfer}

  -- A cycle is refused and nothing is written, or a new identifier gets a proper cycle.
  pub create_reward_cycle-cases :
      (origin : Origin) (start end percentage id : ℕ) (s : State Ledger)
      → ((e : Error) × (create_reward_cycle c env origin start end percentage id s ≡ (err e, s)))
        ⊎ ((env.is_governance origin ≡ true)
            × (s.initialize_rewards id ≡ none)
            × (start < end)
            × (0 < percentage)
            × (percentage ≤ 100)
            × (create_reward_cycle c env origin start end percentage id s ≡ (
              ok tt,
              record s {
                initialize_rewards = update s.initialize_rewards id (
                    some (record {
                      start_block = start;
                      end_block = end;
                      initial_percentage = percentage;
                    }));
                events = s.events ++ reward_cycle_created start end id ∷ [];
              },
            )))
  unfolding create_reward_cycle
  create_reward_cycle-cases origin start end percentage id s =
      elim (Bool-cases (env.is_governance origin)) [
        | inr no_governance ↦ inl (bad_origin, ground arith)
        | inl governance ↦ elim (Option-cases (s.initialize_rewards id)) [
          | inr (info, taken) ↦ inl (duplicate_id, ground arith)
          | inl free ↦ elim (Bool-cases (ltb start end)) [
            | inr empty ↦ inl (invalid_blocks_range, ground arith)
            | inl range ↦ elim (Bool-cases (leb percentage 100 && ltb 0 percentage)) [
              | inr outside ↦ inl (invalid_initial_percentage, ground arith)
              | inl inside ↦
                  inr (governance, free, ground arith, ground arith, ground arith, ground arith)
            ]
          ]
        ]
      ]

  abbrev pub funded : ℕ → ℕ → Rewardee → RewardInfo → Ledger → State Ledger → State Ledger
  funded user id row info moved s = record s {
    ledger = set_lock rewards_lock_id user row.total_rewards_in_pdex moved;
    distributor = update₂ s.distributor id user (some (initial_info row info));
    events = s.events ++ user_unlocked_reward user id ∷ [];
  }

  -- The rewards of an account are refused and nothing is written, or the cycle has started, the
  -- account has no entry yet and stands in the table with more than the minimum: then the pallet's
  -- account pays the total, which is locked, and the entry is made.
  pub do_initialize-cases :
      (user id : ℕ) (s : State Ledger)
      → ((e : Error) × (do_initialize_claim_rewards c env user id s ≡ (err e, s)))
        ⊎ ((info : RewardInfo) × (account : ℕ) × (row : Rewardee) × (moved : Ledger)
            × (s.initialize_rewards id ≡ some info)
            × (info.start_block ≤ s.block_number)
            × (s.distributor id user ≡ none)
            × (env.account_in_vec user ≡ some account)
            × (find account env.rewardees ≡ some row)
            × (min_rewards_claimable_amount < row.total_rewards_in_pdex)
            × (transfer env.pallet_account user row.total_rewards_in_pdex s.ledger ≡ ok moved)
            × (do_initialize_claim_rewards c env user id s
                ≡ (ok tt, funded user id row info moved s)))
  unfolding do_initialize_claim_rewards transfer_pdex_rewards
  do_initialize-cases user id s = elim (Option-cases (s.initialize_rewards id)) [
    | inl unknown ↦ inl (reward_id_not_register, ground arith)
    | inr (info, known) ↦ elim (Bool-cases (leb info.start_block s.block_number)) [
      | inr early ↦ inl (rewards_cannot_be_unlock_yet, ground arith)
      | inl started ↦ elim (Option-cases (s.distributor id user)) [
        | inr (old, present) ↦ inl (rewards_already_initialized, ground arith)
        | inl absent ↦ elim (Option-cases (env.account_in_vec user)) [
          | inl malformed ↦ inl (incorrect_donor_account, ground arith)
          | inr (account, vec) ↦ elim (Option-cases (find account env.rewardees)) [
            | inl missing ↦ inl (user_not_eligible, ground arith)
            | inr (row, found) ↦
                elim (Bool-cases (ltb min_rewards_claimable_amount row.total_rewards_in_pdex)) [
                  | inr low ↦ inl (amount_to_lowto_initialize_rewards, ground arith)
                  | inl enough ↦
                      elim (Result-cases
                        (transfer env.pallet_account user row.total_rewards_in_pdex s.ledger)) [
                          | inr (e, failed) ↦ inl (dispatch e, ground arith)
                          | inl (moved, paid) ↦ inr (
                            info,
                            account,
                            row,
                            moved,
                            known,
                            ground arith,
                            absent,
                            vec,
                            found,
                            ground arith,
                            paid,
                            ground arith,
                          )
                        ]
                ]
          ]
        ]
      ]
    ]
  ]

  abbrev pub claimed : ℕ → ℕ → RewardInfoForAccount → State Ledger → State Ledger
  claimed user id info s = record s {
    ledger = remove_lock info.lock_id user s.ledger;
    distributor = update₂ s.distributor id user (some (claimed_info info s.block_number));
    events = s.events ++ user_claimed_reward user id (rewards_claimable info) ∷ [];
  }

  -- A claim is refused and nothing is written, or the cycle and the entry are there and
  -- initialised: then the lock of the entry is removed and all of it counts as claimed.
  pub do_claim-cases :
      (user id : ℕ) (s : State Ledger)
      → ((e : Error) × (do_claim c env user id s ≡ (err e, s)))
        ⊎ ((cycle : RewardInfo) × (info : RewardInfoForAccount) × (s.initialize_rewards id
              ≡ some cycle)
            × (s.distributor id user ≡ some info)
            × (info.is_initialized ≡ true)
            × (do_claim c env user id s ≡ (ok tt, claimed user id info s)))
  unfolding do_claim claim_entry
  do_claim-cases user id s = elim (Option-cases (s.initialize_rewards id)) [
    | inl unknown ↦ inl (reward_id_not_register, ground arith)
    | inr (cycle, known) ↦ elim (Option-cases (s.distributor id user)) [
      | inl absent ↦ inl (user_not_eligible, ground arith)
      | inr (info, present) ↦ elim (Bool-cases info.is_initialized) [
        | inr raw ↦ inl (user_has_not_initialize_claim_rewards, ground arith)
        | inl ready ↦ inr (cycle, info, known, present, ready, ground arith)
      ]
    ]
  ]
