-- ===== src/Rewards/Claims.antt =====
-- What a claim does in pallets/rewards/src/lib.rs, and what is reported of it.
use polkadex_node.Prelude.{
  ℕ, ◌+◌, ◌-◌, ◌<◌, ◌≡◌, ◌≢◌, refl, inl, inr, [], ◌∷◌, ◌++◌, none, some, true, false, arith, min,
  saturating_mul, u128_mod,
}
use polkadex_node.Frame.{ok}
use polkadex_node.Currency.{LockableCurrency, LedgerLaws, lock_of}
use polkadex_node.Rewards.Types.{
  State, RewardInfo, RewardInfoForAccount, Environment, rewards_lock_id, ExchangePayload, custom,
  user_claimed_reward,
}
use polkadex_node.Rewards.Calls.{
  initial_info, do_initialize_claim_rewards, do_claim, rewards_claimable, claim_entry, account_info,
  validate_unsigned_claim,
}
use polkadex_node.Rewards.Outcomes.{do_initialize-cases, do_claim-cases, claimed, claimed_info}
use polkadex_node.Rewards.Invariant.{IsSettled, IsFundedAt-some}

no_blocks_no_rewards :
    (factor now last : ℕ) → saturating_mul u128_mod factor (min now last - now) ≡ 0
no_blocks_no_rewards factor now last =
    let none_left : min now last - now ≡ 0 = omega arith in rw none_left (omega arith)

module _ (c : LockableCurrency) (env : Environment) where
  open c use {Ledger, locks, free_balance}

  claim_ready :
      (user id : ℕ) (cycle : RewardInfo) (info : RewardInfoForAccount) (s : State Ledger)
      → s.initialize_rewards id ≡ some cycle
      → s.distributor id user ≡ some info
      → info.is_initialized ≡ true
      → do_claim c env user id s ≡ (ok tt, claimed c env user id info s)
  unfolding do_claim claim_entry
  claim_ready user id cycle info s known present ready = ground arith

  -- Where every entry is as funding or a claim leaves it, an account with an entry in a registered
  -- cycle can always claim, at any block and any number of times: the error for rewards that are
  -- not initialised never occurs.
  pub claim_never_refused :
      (user id : ℕ) (cycle : RewardInfo) (info : RewardInfoForAccount) (s : State Ledger)
      → IsSettled c env s
      → s.initialize_rewards id ≡ some cycle
      → s.distributor id user ≡ some info
      → let (r, s') = do_claim c env user id s in
        (r ≡ ok tt) × (s'.distributor id user ≡ some (claimed_info info s.block_number))
  claim_never_refused user id cycle info s h known present =
      rw
        (claim_ready user id cycle info s known present
          (IsFundedAt-some (s.distributor id user) (h id user) info present).ready)
        (refl, ground arith)

  -- Over a currency with the documented laws, and where every entry is as funding or a claim
  -- leaves it, an account that has claimed has no rewards lock at all, while its entry of another
  -- cycle stays as it was: the lock is shared, so one claim frees the rewards of every cycle.
  pub claim_frees_every_cycle :
      (laws : LedgerLaws c) (user id other : ℕ) (s : State Ledger)
      → IsSettled c env s
      → id ≢ other
      → (do_claim c env user id s).0 ≡ ok tt
      → let s' = (do_claim c env user id s).1 in
        (lock_of rewards_lock_id (locks s'.ledger user) ≡ none)
        × (s'.distributor other user ≡ s.distributor other user)
  claim_frees_every_cycle laws user id other s h ne success =
      elim (do_claim-cases c env user id s) [
        | inl (e, same) ↦ absurd (ground (arith, same))
        | inr (cycle, info, _, present, _, done) ↦
            rw (done, (IsFundedAt-some (s.distributor id user) (h id user) info present).locked)
              (laws.lock_of-remove_lock rewards_lock_id user s.ledger, ground arith)
      ]

  -- Over a currency with the documented laws, where `do_initialize_claim_rewards` succeeds for a
  -- user other than the pallet itself, it moves the total of the new entry from the pallet's
  -- account to the user, and locks exactly that total; nothing is claimed yet.
  pub initialize_funds_and_locks :
      (laws : LedgerLaws c) (user id : ℕ) (s : State Ledger)
      → env.pallet_account ≢ user
      → (do_initialize_claim_rewards c env user id s).0 ≡ ok tt
      → let s' = (do_initialize_claim_rewards c env user id s).1 in
        (info : RewardInfoForAccount) × (s'.distributor id user ≡ some info)
        × (info.claim_amount ≡ 0)
        × (free_balance s'.ledger user ≡ free_balance s.ledger user + info.total_reward_amount)
        × (free_balance s'.ledger env.pallet_account + info.total_reward_amount
            ≡ free_balance s.ledger env.pallet_account)
        × (lock_of rewards_lock_id (locks s'.ledger user) ≡ some info.total_reward_amount)
  initialize_funds_and_locks laws user id s ne success =
      elim (do_initialize-cases c env user id s) [
        | inl (e, same) ↦ absurd (ground (arith, same))
        | inr (cycle, account, row, moved, _, _, _, _, _, large, paid, done) ↦
            let total = row.total_rewards_in_pdex in
            let moves =
              laws.free_balance-transfer env.pallet_account user total s.ledger moved ne paid in
            let keeps =
              λ (who : ℕ). laws.free_balance-set_lock rewards_lock_id user total who moved in
            rw (done, keeps user, keeps env.pallet_account)
              (
                initial_info row cycle,
                ground arith,
                unfold initial_info in refl,
                unfold initial_info in moves.0,
                unfold initial_info in moves.1,
                unfold initial_info in
                    laws.lock_of-set_lock rewards_lock_id user total moved (omega arith),
              )
      ]

  -- A second claim, in any later block, reports 0 and leaves the claimed amount at the total.
  pub second_claim_reports_nothing :
      (user id block : ℕ) (s : State Ledger)
      → (do_claim c env user id s).0 ≡ ok tt
      → let s₁ = record (do_claim c env user id s).1 { block_number = block } in
        let s₂ = (do_claim c env user id s₁).1 in
        (info : RewardInfoForAccount) × (s.distributor id user ≡ some info)
        × (s₂.distributor id user ≡ some (claimed_info info block))
        × (s₂.events ≡ s₁.events ++ user_claimed_reward user id 0 ∷ [])
  second_claim_reports_nothing user id block s success = elim (do_claim-cases c env user id s) [
    | inl (e, same) ↦ absurd (ground (arith, same))
    | inr (cycle, info, known, present, ready, done) ↦
        rw
          (
            done,
            claim_ready user id cycle (claimed_info info s.block_number)
                (record (claimed c env user id info s) { block_number = block }) known
                (ground arith) ready,
          )
          (info, present, ground arith, unfold rewards_claimable in ground arith)
  ]

  -- The first claim of a funded entry, where it succeeds, reports the total plus the initial part,
  -- up to the largest balance, and so more than the total where there is an initial part and the
  -- total is below the largest balance.
  pub first_claim_overstates :
      (user id : ℕ) (info : RewardInfoForAccount) (s : State Ledger)
      → s.distributor id user ≡ some info
      → info.is_initial_rewards_claimed ≡ false
      → info.claim_amount ≡ 0
      → 0 < info.initial_rewards_claimable
      → info.total_reward_amount < u128_mod - 1
      → (do_claim c env user id s).0 ≡ ok tt
      → (reported : ℕ) × (reported
          ≡ min (info.total_reward_amount + info.initial_rewards_claimable) (u128_mod - 1))
        × (info.total_reward_amount < reported)
        × ((do_claim c env user id s).1.events
            ≡ s.events ++ user_claimed_reward user id reported ∷ [])
  first_claim_overstates user id info s present fresh none_claimed initial below success =
      elim (do_claim-cases c env user id s) [
        | inl (e, same) ↦ absurd (ground (arith, same))
        | inr (cycle, i, _, there, _, done) ↦ (
          rewards_claimable info,
          unfold rewards_claimable in ground (arith, fresh, none_claimed),
          unfold rewards_claimable in ground (arith, fresh, none_claimed),
          ground (arith, done, there, present),
        )
      ]

  -- Right after a claim `account_info` reports the whole total as claimed, and nothing as
  -- unclaimed or claimable.
  pub account_info_after_claim :
      (user id : ℕ) (s : State Ledger)
      → (do_claim c env user id s).0 ≡ ok tt
      → (info : RewardInfoForAccount) × (s.distributor id user ≡ some info)
        × (account_info c env user id (do_claim c env user id s).1
            ≡ ok (record { claimed = info.total_reward_amount; unclaimed = 0; claimable = 0 }))
  unfolding account_info
  account_info_after_claim user id s success = elim (do_claim-cases c env user id s) [
    | inl (e, same) ↦ absurd (ground (arith, same))
    | inr (cycle, info, known, present, ready, done) ↦ (
      info,
      present,
      rw done (ground (arith, no_blocks_no_rewards info.factor s.block_number cycle.end_block)),
    )
  ]

  -- Once claimed, the pool refuses an unsigned claim of the same entry with code 2, whatever the
  -- payload's action and the signature are.
  pub no_unsigned_claim_after_claim :
      (payload : ExchangePayload) (signature : ℕ) (s : State Ledger)
      → (do_claim c env payload.user payload.reward_id s).0 ≡ ok tt
      → validate_unsigned_claim c env payload signature
          (do_claim c env payload.user payload.reward_id s).1
        ≡ custom 2
  unfolding validate_unsigned_claim
  no_unsigned_claim_after_claim payload signature s success =
      elim (do_claim-cases c env payload.user payload.reward_id s) [
        | inl (e, same) ↦ absurd (ground (arith, same))
        | inr (cycle, info, known, present, ready, done) ↦ rw done (ground arith)
      ]
