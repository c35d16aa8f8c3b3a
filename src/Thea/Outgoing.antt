-- ===== src/Thea/Outgoing.antt =====
-- Outgoing messages of pallets/thea/src/lib.rs: `generate_payload`, the executor of withdrawals, and
-- the collection of the authorities' signatures.
use polkadex_node.Prelude.{
  ℕ, Bool, true, false, not, Option, none, some, List, [], ◌∷◌, ◌++◌, ◌==◌, if◌then◌else◌, length,
  is_empty, get_elem?, update, update₂, u16_mod, u64_mod, saturating_add, ◌%◌,
}
use polkadex_node.Frame.{
  Action, pure, gets, modify, ensure, get_or_raise, transactional, ◌>>=◌, ◌>>◌, Origin, ensure_root,
  ensure_none,
}
use polkadex_node.Thea.Types.{
  PayloadType, l1_deposit, Message, SignedMessage, State, Runtime, Event, thea_signature_finalized,
  thea_signature_updated, Error, message_not_found, invalid_validator_set_id, empty_validator_set,
  outgoing_message_slot_occupied, bad_origin, Validity, valid, custom,
}
use polkadex_node.Thea.Signed.{
  new_signed_message, add_signature, threshold_reached, contains_signature,
}

abbrev pub is_some : {A : Type 0} → Option A → Bool
is_some none = false
is_some (some a) = true

module _ (r : Runtime) where
  open r use {Ledger, verify}

  abbrev pub Call : Type 0
  Call = Action (State Ledger) Error (Unit {0})

  abbrev pub deposit_event : Event → State Ledger → State Ledger
  deposit_event e s = record s { events = s.events ++ e ∷ [] }

  -- It leaves the nonce in storage as it is.
  unfoldable pub generate_payload : PayloadType → ℕ → List ℕ → State Ledger → Message
  generate_payload payload_type network bytes s = record {
    block_no = s.block_number;
    nonce = saturating_add u64_mod (s.outgoing_nonce network) 1;
    network = network;
    payload_type = payload_type;
    bytes = bytes;
  }

  -- `OutgoingNonce::insert(network, nonce)` and `OutgoingMessages::insert(network, nonce, message)`.
  unfoldable pub enqueue : ℕ → Message → State Ledger → State Ledger
  enqueue network message s = record s {
    outgoing_nonce = update s.outgoing_nonce network message.nonce;
    outgoing_messages = update₂ s.outgoing_messages network message.nonce (some message);
  }

  unfoldable pub execute_withdrawals : ℕ → List ℕ → Call
  execute_withdrawals network bytes = do
    payload ← gets (generate_payload l1_deposit network bytes)
    occupied ← gets (λ s. is_some (s.outgoing_messages network payload.nonce))
    ensure (not occupied) outgoing_message_slot_occupied
    modify (enqueue network payload)

  unfoldable pub get_outgoing_nonce : ℕ → State Ledger → ℕ
  get_outgoing_nonce network s = saturating_add u64_mod (s.outgoing_nonce network) 1

  unfoldable pub send_thea_message : Origin → List ℕ → ℕ → Call
  send_thea_message origin bytes network =
      transactional (do ensure_root bad_origin origin; execute_withdrawals network bytes)

  -- One round of the loop of `submit_signed_outgoing_messages`, where the message is there.
  unfoldable pub store_signature :
      ℕ → ℕ → ℕ → ℕ → ℕ → ℕ → Message → Option SignedMessage → State Ledger → State Ledger
  store_signature auth_len id auth_index network nonce signature message none s = record s {
    signed_outgoing_messages =
        update₂ s.signed_outgoing_messages network nonce
          (some (new_signed_message message id auth_index signature));
  }
  store_signature auth_len id auth_index network nonce signature message (some old) s =
      let signed_msg = add_signature message id auth_index signature old in
      let finalized =
        if threshold_reached auth_len signed_msg
        then deposit_event (thea_signature_finalized network nonce)
            (record s { signed_outgoing_nonce = update s.signed_outgoing_nonce network nonce })
        else s in
      deposit_event (thea_signature_updated network nonce (length signed_msg.signatures % u16_mod))
        (record finalized {
          signed_outgoing_messages =
              update₂ finalized.signed_outgoing_messages network nonce (some signed_msg);
        })

  -- `submit_signed_outgoing_messages`, the loop: an error keeps what the earlier rounds wrote.
  unfoldable pub submit_loop : ℕ → ℕ → ℕ → List (ℕ × ℕ × ℕ) → Call
  submit_loop auth_len id auth_index [] = pure tt
  submit_loop auth_len id auth_index ((network, nonce, signature) ∷ rest) = do
    message ← get_or_raise (λ s. s.outgoing_messages network nonce) message_not_found
    old ← gets (λ s. s.signed_outgoing_messages network nonce)
    modify (store_signature auth_len id auth_index network nonce signature message old)
    submit_loop auth_len id auth_index rest

  unfoldable pub submit_signed_outgoing_messages : Origin → ℕ → ℕ → List (ℕ × ℕ × ℕ) → Call
  submit_signed_outgoing_messages origin auth_index id signatures = do
    ensure_none bad_origin origin
    active_set_id ← gets (λ s. s.validator_set_id)
    ensure (id == active_set_id) invalid_validator_set_id
    authorities ← gets (λ s. s.authorities active_set_id)
    ensure (not (is_empty authorities)) empty_validator_set
    submit_loop (length authorities) id auth_index signatures

  -- Whether the stored signatures of a message have one of this authority already.
  unfoldable pub already_signed : ℕ → Option SignedMessage → Bool
  already_signed auth_index none = false
  already_signed auth_index (some signed_msg) = contains_signature auth_index signed_msg

  -- The loop of `validate_signed_outgoing_message`.
  unfoldable pub validate_loop : ℕ → ℕ → List (ℕ × ℕ × ℕ) → State Ledger → Validity
  validate_loop auth_index signer [] s = valid
  validate_loop auth_index signer ((network, nonce, signature) ∷ rest) s =
      let checked = validate_loop auth_index signer rest s in
      if not (nonce == saturating_add u64_mod (s.signed_outgoing_nonce network) 1)
      then custom 2
      else if already_signed auth_index (s.signed_outgoing_messages network nonce)
      then custom 4
      else elim (s.outgoing_messages network nonce) [
        | none ↦ custom 3
        | some message ↦ if not (verify signature message signer) then custom 6 else checked
      ]

  unfoldable pub validate_signed_outgoing_message :
      ℕ → ℕ → List (ℕ × ℕ × ℕ) → State Ledger → Validity
  validate_signed_outgoing_message auth_index id signatures s =
      if not (id == s.validator_set_id)
      then custom 7
      else if is_empty (s.authorities s.validator_set_id)
      then custom 8
      else elim (get_elem? (s.authorities s.validator_set_id) auth_index) [
        | none ↦ custom 1
        | some signer ↦ validate_loop auth_index signer signatures s
      ]

  unfoldable pub active_validators : State Ledger → List ℕ
  active_validators s = s.authorities s.validator_set_id
