-- ===== src/Thea/Session.antt =====
-- The rotation of authorities: `change_authorities` of pallets/thea/src/lib.rs and the session
-- handler of pallets/thea/src/session.rs.
use polkadex_node.Prelude.{
  ℕ, zero, suc, ◌+◌, ◌-◌, Bool, not, ◌&&◌, Option, none, some, List, [], ◌∷◌, if◌then◌else◌,
  contains, take, update, update₂, u64_mod, saturating_add, wrapping_add, set_insert, set_from,
  set_eq,
}
use polkadex_node.Thea.Types.{
  scheduled_rotate_validators, validators_rotated, SignedMessage, NetworkType, parachain, evm,
  ValidatorSet, new_validator_set, State, Runtime, unable_to_generate_validator_set,
}
use polkadex_node.Thea.Outgoing.{deposit_event, generate_payload, enqueue}

module _ (r : Runtime) where
  open r use {Ledger, max_authorities, encode}

  -- The keys that a network is told: none for an EVM chain, as their parsing is switched off.
  unfoldable pub rotation_keys : NetworkType → List ℕ → List ℕ
  rotation_keys evm queued = []
  rotation_keys parachain queued = queued

  -- One round of the first loop: the payload of a network, with the networks that got theirs.
  unfoldable pub schedule : ℕ → Option ValidatorSet → List ℕ × State Ledger → List ℕ × State Ledger
  schedule network none (scheduled, s) =
      (scheduled, deposit_event r (unable_to_generate_validator_set network) s)
  schedule network (some payload) (scheduled, s) = (
    set_insert network scheduled,
    enqueue r network (generate_payload r scheduled_rotate_validators network (encode payload) s) s,
  )

  -- `for network in &active_networks`, with the queued set and the identifier of the next one.
  unfoldable pub schedule_all : List ℕ → ℕ → List ℕ → List ℕ × State Ledger → List ℕ × State Ledger
  schedule_all queued new_id [] acc = acc
  schedule_all queued new_id (network ∷ rest) acc =
      let keys = rotation_keys (acc.1.network_config network).network_type queued in
      schedule_all queued new_id rest (schedule network (new_validator_set keys new_id) acc)

  -- The signatures of a message are dropped and it waits for the new set.
  unfoldable pub reset_entry : ℕ → Option SignedMessage → Option SignedMessage
  reset_entry new_id none = none
  reset_entry new_id (some signed_msg) =
      some (record signed_msg { validator_set_id = new_id; signatures = [] })

  -- The loop over so many nonces of a network, from the first one on.
  unfoldable pub reset_range : ℕ → ℕ → ℕ → ℕ → State Ledger → State Ledger
  reset_range new_id network first zero s = s
  reset_range new_id network first (suc count) s =
      reset_range new_id network (suc first) count (record s {
        signed_outgoing_messages =
            update₂ s.signed_outgoing_messages network first
              (reset_entry new_id (s.signed_outgoing_messages network first));
      })

  -- `(signed_nonce.saturating_add(1))..=outgoing_nonce` for each network.
  unfoldable pub reset_all : ℕ → List ℕ → State Ledger → State Ledger
  reset_all new_id [] s = s
  reset_all new_id (network ∷ rest) s =
      let first = saturating_add u64_mod (s.signed_outgoing_nonce network) 1 in
      reset_all new_id rest
        (reset_range new_id network first (s.outgoing_nonce network + 1 - first) s)

  -- The last loop: the networks are told to activate the set, unless they missed its keys.
  unfoldable pub announce_all : Bool → List ℕ → List ℕ → State Ledger → State Ledger
  announce_all block1_ran scheduled [] s = s
  announce_all block1_ran scheduled (network ∷ rest) s = announce_all block1_ran scheduled rest (
      if block1_ran && not (contains network scheduled)
      then deposit_event r (unable_to_generate_validator_set network) s
      else enqueue r network (generate_payload r validators_rotated network [] s) s)

  -- The first part: the set after the next one is made known where it differs from the next one.
  unfoldable pub schedule_change : Bool → ℕ → List ℕ → State Ledger → List ℕ × State Ledger
  schedule_change block1_ran new_id queued s =
      if block1_ran
      then (let (scheduled, s') = schedule_all queued new_id s.active_networks ([], s) in
          (scheduled, record s' { next_authorities = queued }))
      else ([], s)

  -- The new set becomes the active one, and the set two before it is pruned.
  unfoldable pub install : ℕ → List ℕ → State Ledger → State Ledger
  install new_id incoming s = record s {
    authorities = update (update s.authorities new_id incoming) (new_id - 2) [];
    validator_set_id = new_id;
  }

  unfoldable pub change_authorities : List ℕ → List ℕ → State Ledger → State Ledger
  change_authorities incoming queued s =
      let id = s.validator_set_id in
      let outgoing = s.authorities id in
      let new_id = wrapping_add u64_mod id 1 in
      let active_networks = s.active_networks in
      let incoming_set = set_from incoming in
      let block1_ran = not (set_eq incoming_set (set_from queued)) in
      let (scheduled, s₁) = schedule_change block1_ran new_id queued s in
      if not (set_eq incoming_set (set_from outgoing))
      then announce_all block1_ran scheduled active_networks
          (reset_all new_id active_networks (install new_id incoming s₁))
      else s₁

  -- `BoundedVec::truncate_from`
  unfoldable pub truncate_from : List ℕ → List ℕ
  truncate_from keys = take max_authorities keys

  unfoldable pub initialize_authorities : List ℕ → State Ledger → State Ledger
  initialize_authorities keys s = record s {
    validator_set_id = 0;
    authorities = update s.authorities 0 (truncate_from keys);
  }

  unfoldable pub on_new_session : List ℕ → List ℕ → State Ledger → State Ledger
  on_new_session validators queued_validators =
      change_authorities (truncate_from validators) (truncate_from queued_validators)
