-- ===== src/Rewards/Tests.antt =====
-- Runs of the rewards pallet over the sample ledger.
use polkadex_node.Prelude.{
  ℕ, ◌+◌, ◌<◌, ◌≡◌, refl, List, [], ◌∷◌, some, none, true, false, arith, if◌then◌else◌, ◌==◌,
}
use polkadex_node.Frame.{ok, err, root, signed}
use polkadex_node.Currency.{lock_of}
use polkadex_node.Currency.Sample.{Book, book_currency, book_laws}
use polkadex_node.Rewards.Types.{
  State, RewardInfo, RewardInfoForAccount, Environment, Request, creates, initializes, claims,
  block_ends, rewards_lock_id, user_claimed_reward, valid, ExchangePayload, ExchangePayloadAction,
  amount_to_lowto_initialize_rewards,
}
use polkadex_node.Rewards.Calls.{
  claim_entry, do_claim, do_initialize_claim_rewards, transfer_pdex_rewards, find, run,
  validate_unsigned_claim,
}
use polkadex_node.Rewards.Invariant.{IsFundedAt, IsFundedAt-all, IsSettled, run-IsSettled}
use polkadex_node.Rewards.Claims.{
  claim_frees_every_cycle, initialize_funds_and_locks, first_claim_overstates,
}

-- Account 5 is in the table with 3 PDEX, a quarter of it at once; account 6 with too little.
abbrev settings : Environment
settings = record {
  pallet_account = 1;
  is_governance = λ o. true;
  account_in_vec = λ a. some a;
  rewardees =
      record {
        account = 6;
        total_rewards_in_pdex = 1000;
        initial_rewards_claimable = 250;
        factor = 1;
      }
      ∷ record {
        account = 5;
        total_rewards_in_pdex = 3_000_000_000_000;
        initial_rewards_claimable = 750_000_000_000;
        factor = 10;
      }
      ∷ [];
  to_vec = λ p. some [];
  verify = λ signature message who. signature == who;
}

abbrev cycle : RewardInfo
cycle = record { start_block = 10; end_block = 90; initial_percentage = 25 }

abbrev entry : RewardInfoForAccount
entry = record {
  total_reward_amount = 3_000_000_000_000;
  claim_amount = 0;
  is_initial_rewards_claimed = false;
  is_initialized = true;
  lock_id = rewards_lock_id;
  last_block_rewards_claim = 10;
  initial_rewards_claimable = 750_000_000_000;
  factor = 10;
}

-- Cycle 1 is registered and nobody is funded yet.
abbrev opened : State Book
opened = record {
  initialize_rewards = λ id. if id == 1 then some cycle else none;
  distributor = λ id user. none;
  ledger = record {
    issued = 9_000_000_000_000;
    free = λ a. if a == 1 then 9_000_000_000_000 else 0;
    held_locks = λ a. [];
  };
  block_number = 20;
  events = [];
}

-- Account 5 is funded in every cycle.
abbrev funded_state : State Book
funded_state = record opened { distributor = λ id user. if user == 5 then some entry else none }

opened-IsSettled : IsSettled book_currency settings opened
opened-IsSettled id user = tt

funded-IsSettled : IsSettled book_currency settings funded_state
funded-IsSettled id user =
    IsFundedAt-all (funded_state.distributor id user) (λ info h. ground arith)

too_low :
    (do_initialize_claim_rewards book_currency settings 6 1 opened).0
    ≡ err amount_to_lowto_initialize_rewards
unfolding do_initialize_claim_rewards find
too_low = refl

abbrev history : List Request
history = initializes (signed 5) 1 ∷ block_ends ∷ claims (signed 5) 1 ∷ creates root 5 9 20 2 ∷ []

run-IsSettled_example : IsFundedAt ((run book_currency settings history opened).distributor 1 5)
run-IsSettled_example = run-IsSettled book_currency settings history opened opened-IsSettled 1 5

claims_once : (do_claim book_currency settings 5 1 funded_state).0 ≡ ok tt
unfolding do_claim claim_entry
claims_once = refl

claim_frees_every_cycle_example :
    let s' = (do_claim book_currency settings 5 1 funded_state).1 in
    (lock_of rewards_lock_id (s'.ledger.held_locks 5) ≡ none) × (s'.distributor 2 5 ≡ some entry)
claim_frees_every_cycle_example =
    claim_frees_every_cycle book_currency settings book_laws 5 1 2 funded_state funded-IsSettled
      (omega arith) claims_once

paid : (do_initialize_claim_rewards book_currency settings 5 1 opened).0 ≡ ok tt
unfolding do_initialize_claim_rewards find transfer_pdex_rewards
paid = refl

initialize_funds_and_locks_example :
    let s' = (do_initialize_claim_rewards book_currency settings 5 1 opened).1 in
    (info : RewardInfoForAccount) × (s'.distributor 1 5 ≡ some info)
    × (info.claim_amount ≡ 0)
    × (s'.ledger.free 5 ≡ 0 + info.total_reward_amount)
    × (s'.ledger.free 1 + info.total_reward_amount ≡ 9_000_000_000_000)
    × (lock_of rewards_lock_id (s'.ledger.held_locks 5) ≡ some info.total_reward_amount)
initialize_funds_and_locks_example =
    initialize_funds_and_locks book_currency settings book_laws 5 1 opened (omega arith) paid

first_claim_overstates_example :
    (reported : ℕ) × (reported ≡ 3_750_000_000_000)
    × (3_000_000_000_000 < reported)
    × ((do_claim book_currency settings 5 1 funded_state).1.events
        ≡ user_claimed_reward 5 1 reported ∷ [])
first_claim_overstates_example =
    first_claim_overstates book_currency settings 5 1 entry funded_state refl refl refl
      (omega arith) (omega arith) claims_once

abbrev exchange_claim : ExchangePayload
exchange_claim = record { reward_id = 1; action = ExchangePayloadAction.claim; user = 5 }

accepted_before :
    validate_unsigned_claim book_currency settings exchange_claim 5 funded_state ≡ valid 10 true
unfolding validate_unsigned_claim
accepted_before = refl
