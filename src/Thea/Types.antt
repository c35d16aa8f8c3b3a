-- ===== src/Thea/Types.antt =====
-- The data of the Thea bridge: primitives/thea/src/types.rs, primitives/thea/src/lib.rs and the
-- storage, events and errors of pallets/thea/src/lib.rs. Accounts, authority keys, signatures and
-- networks are numbers; a byte string is a list of numbers.
use polkadex_node.Prelude.{
  ℕ, ◌+◌, ◌-◌, ◌*◌, ◌≡◌, ◌==◌, Bool, Option, none, some, List, [], ◌∷◌, BTreeMap, if◌then◌else◌,
}
use native.Mathlib.Decide.{ℕ_discrete}
use polkadex_node.Frame.{Origin, Result, ok}

pub data PayloadType : Type 0 where
  scheduled_rotate_validators validators_rotated l1_deposit : PayloadType

pub record Message : Type 0 where
  pub block_no : ℕ
  pub nonce : ℕ
  pub network : ℕ
  pub payload_type : PayloadType
  pub bytes : List ℕ

unfoldable pub Message-discrete : Discrete Message
Message-discrete = hlevel ℕ_discrete

pub record SignedMessage : Type 0 where
  pub validator_set_id : ℕ
  pub message : Message
  pub signatures : BTreeMap ℕ

pub record IncomingMessage : Type 0 where
  pub message : Message
  pub relayer : ℕ
  pub stake : ℕ
  pub execute_at : ℕ

pub record MisbehaviourReport : Type 0 where
  pub reported_msg : IncomingMessage
  pub fisherman : ℕ
  pub stake : ℕ

pub data NetworkType : Type 0 where
  parachain evm : NetworkType

pub record NetworkConfig : Type 0 where
  pub fork_period : ℕ
  pub min_stake : ℕ
  pub fisherman_stake : ℕ
  pub network_type : NetworkType

-- `Default for NetworkConfig`
abbrev pub default_network_config : NetworkConfig
default_network_config = record {
  fork_period = 20;
  min_stake = 1000 * 1_000_000_000_000;
  fisherman_stake = 100 * 1_000_000_000_000;
  network_type = parachain;
}

-- `NetworkConfig::new`
abbrev pub new_network_config : ℕ → ℕ → ℕ → Bool → NetworkConfig
new_network_config fork_period min_stake fisherman_stake is_evm = record {
  fork_period = fork_period;
  min_stake = min_stake;
  fisherman_stake = fisherman_stake;
  network_type = if is_evm then evm else parachain;
}

-- `ValidatorSet`
pub record ValidatorSet : Type 0 where
  pub set_id : ℕ
  pub validators : List ℕ

-- `ValidatorSet::new`
unfoldable pub new_validator_set : List ℕ → ℕ → Option ValidatorSet
new_validator_set [] id = none
new_validator_set (v ∷ vs) id = some (record { set_id = id; validators = v ∷ vs })

pub data Event : Type 0 where
  thea_payload_processed : ℕ → ℕ → Event
  error_while_releasing_lock : ℕ → ℕ → Event
  misbehaviour_reported : ℕ → ℕ → ℕ → Event
  thea_signature_updated : ℕ → ℕ → ℕ → Event
  thea_signature_finalized : ℕ → ℕ → Event
  unable_to_parse_public_key unable_to_slice_public_key_hash : ℕ → Event
  unable_to_generate_validator_set : ℕ → Event
  deposit_execution_failed : ℕ → ℕ → ℕ → Event

-- `Error<T>`, with the `DispatchError` of another pallet and of a wrong origin.
pub data Error : Type 0 where
  unknown error_executing_message message_nonce not_enough_stake message_not_found : Error
  no_relayers_found not_an_allowlisted_relayer nonce_error invalid_validator_set_id : Error
  empty_validator_set outgoing_message_slot_occupied outgoing_nonce_below_finalized : Error
  fork_period_too_short message_already_executed bad_origin : Error
  dispatch : ℕ → Error

-- The storage of the pallet, with the ledger, the block number and the events of the runtime.
pub record State (L : Type 0) : Type 0 where
  pub authorities : ℕ → List ℕ
  pub validator_set_id : ℕ
  pub next_authorities : List ℕ
  pub outgoing_messages : ℕ → ℕ → Option Message
  pub signed_outgoing_messages : ℕ → ℕ → Option SignedMessage
  pub incoming_messages_queue : ℕ → ℕ → Option IncomingMessage
  pub incoming_messages : ℕ → ℕ → Option Message
  pub incoming_nonce : ℕ → ℕ
  pub outgoing_nonce : ℕ → ℕ
  pub signed_outgoing_nonce : ℕ → ℕ
  pub active_networks : List ℕ
  pub network_config : ℕ → NetworkConfig
  pub misbehaviour_reports : ℕ → ℕ → Option MisbehaviourReport
  pub allow_list_testing_relayers : ℕ → Option ℕ
  pub ledger : L
  pub block_number : ℕ
  pub events : List Event

-- `TransactionValidity`: valid, without its priority, tags and longevity, or the code of
-- `InvalidTransaction::Custom`.
pub data Validity : Type 0 where
  valid : Validity
  custom : ℕ → Validity

-- What the runtime provides. The ledger holds all storage outside the pallet: balances with holds,
-- and what the executor of deposits writes. Errors are `DispatchError` codes.
pub record Runtime : Type 1 where
  pub Ledger : Type 0
  -- `hold(Relayer, who, amount)` and `release(Relayer, who, amount, BestEffort)`
  pub hold : ℕ → ℕ → Ledger → Result ℕ Ledger
  pub release : ℕ → ℕ → Ledger → Result ℕ Ledger
  -- `balance_on_hold(Relayer, who)`
  pub held : Ledger → ℕ → ℕ
  -- `reducible_balance(who, Preserve, Polite)`
  pub reducible_balance : Ledger → ℕ → ℕ
  -- `transfer(source, dest, amount, Expendable)`
  pub transfer : ℕ → ℕ → ℕ → Ledger → Result ℕ Ledger
  -- `burn_from(who, amount, Expendable, BestEffort, Force)`
  pub burn_from : ℕ → ℕ → Ledger → Result ℕ Ledger
  -- `Executor::execute_deposits(network, deposits)`: its result and what it has written
  pub execute_deposits : ℕ → List ℕ → Ledger → Result ℕ (Unit {0}) × Ledger
  -- `TheaGovernanceOrigin::ensure_origin`
  pub is_governance : Origin → Bool
  pub max_authorities : ℕ
  -- `ecdsa_verify_prehashed(signature, sha2_256(message.encode()), signer)`
  pub verify : ℕ → Message → ℕ → Bool
  -- `ValidatorSet::encode`
  pub encode : ValidatorSet → List ℕ

-- What pallet_balances documents of holds: a hold adds to what is held, and a release of best
-- effort takes away what it can.
pub record HoldLaws (r : Runtime) : Type 0 where
  pub held-hold :
      (who amount other : ℕ) (l l' : r.Ledger)
      → r.hold who amount l ≡ ok l'
      → r.held l' other ≡ (if who == other then r.held l other + amount else r.held l other)
  pub held-release :
      (who amount other : ℕ) (l l' : r.Ledger)
      → r.release who amount l ≡ ok l'
      → r.held l' other ≡ (if who == other then r.held l other - amount else r.held l other)
