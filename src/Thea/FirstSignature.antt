-- ===== src/Thea/FirstSignature.antt =====
-- The first signature of an outgoing message, submitted alone or twice in one call
-- (`submit_signed_outgoing_messages` of pallets/thea/src/lib.rs).
use polkadex_node.Prelude.{
  ℕ, ◌≡◌, refl, inl, inr, false, List, [], ◌∷◌, none, some, arith, ◌==◌, ==_refl, length, is_empty,
  get_elem?, update₂, contains_key, map_insert, Bool-cases, u64_mod, saturating_add, ◌∙◌, ap,
  if◌then◌else◌,
}
use polkadex_node.Frame.{ok, unsigned}
use polkadex_node.Thea.Types.{Message, SignedMessage, State, Runtime, valid, custom}
use polkadex_node.Thea.Signed.{
  new_signed_message, add_signature, add_signature-cases, threshold_reached, contains_signature,
}
use polkadex_node.Thea.Outgoing.{
  store_signature, submit_loop, submit_signed_outgoing_messages, validate_loop,
  validate_signed_outgoing_message, already_signed,
}
use polkadex_node.Thea.Finality.{submit_loop-cons}
use polkadex_node.Thea.Validation.{accepted_is_checked}

module _ (r : Runtime) where
  open r use {Ledger, verify}

  first_round :
      (auth_index id network nonce signature : ℕ) (m : Message) (s : State Ledger)
      → id ≡ s.validator_set_id
      → is_empty (s.authorities s.validator_set_id) ≡ false
      → s.outgoing_messages network nonce ≡ some m
      → s.signed_outgoing_messages network nonce ≡ none
      → submit_signed_outgoing_messages r unsigned auth_index id
          ((network, nonce, signature) ∷ [])
          s
        ≡ (
          ok tt,
          record s {
            signed_outgoing_messages =
                update₂ s.signed_outgoing_messages network nonce
                  (some (new_signed_message m id auth_index signature));
          },
        )
  unfolding submit_signed_outgoing_messages submit_loop store_signature
  first_round auth_index id network nonce signature m s active keys there free = ground arith

  again_refused :
      (auth_index id network nonce signature again signer : ℕ) (m : Message) (s : State Ledger)
      → id ≡ s.validator_set_id
      → is_empty (s.authorities s.validator_set_id) ≡ false
      → get_elem? (s.authorities s.validator_set_id) auth_index ≡ some signer
      → nonce ≡ saturating_add u64_mod (s.signed_outgoing_nonce network) 1
      → validate_signed_outgoing_message r auth_index id ((network, nonce, again) ∷ []) (record s {
        signed_outgoing_messages =
            update₂ s.signed_outgoing_messages network nonce
              (some (new_signed_message m id auth_index signature));
      })
        ≡ custom 4
  unfolding validate_signed_outgoing_message validate_loop already_signed contains_signature
      contains_key new_signed_message map_insert
  again_refused auth_index id network nonce signature again signer m s active keys at next =
      ground (arith, ==_refl network, ==_refl nonce)

  -- A signature that the loop accepts once is accepted twice in one call: both are checked against
  -- the same state.
  accepted_twice :
      (auth_index id : ℕ) (x : ℕ × ℕ × ℕ) (s : State Ledger)
      → validate_signed_outgoing_message r auth_index id (x ∷ []) s ≡ valid
      → validate_signed_outgoing_message r auth_index id (x ∷ x ∷ []) s ≡ valid
  unfolding validate_signed_outgoing_message validate_loop
  accepted_twice auth_index id (network, nonce, signature) s h =
      let (active, keys, (signer, at, ((next, fresh, (m, there, genuine)), _))) =
        accepted_is_checked r auth_index id ((network, nonce, signature) ∷ []) s h in
      ground (arith, active, keys, at, next, fresh, there, genuine, h)

  -- The entry of a first signature has one signature, and the same one more changes nothing.
  add_signature-new :
      (message : Message) (id auth_index signature : ℕ)
      → length
          (add_signature message id auth_index signature
            (new_signed_message message id auth_index signature)).signatures
        ≡ 1
  unfolding new_signed_message map_insert
  add_signature-new message id auth_index signature =
      elim (add_signature-cases message id auth_index signature
        (new_signed_message message id auth_index signature)) [
          | inl (_, same) ↦ rw same refl
          | inr (_, _, added) ↦ rw added (ground arith)
        ]

  one_of_set :
      (auth_len : ℕ) (m : SignedMessage)
      → length m.signatures ≡ 1
      → threshold_reached auth_len m ≡ (auth_len == 1)
  unfolding threshold_reached
  one_of_set auth_len m one = ground arith

  second_round :
      (auth_len id auth_index network nonce signature : ℕ) (m : Message) (s : State Ledger)
      → (store_signature r auth_len id auth_index network nonce signature m
            (some (new_signed_message m id auth_index signature))
            s).signed_outgoing_nonce
          network
        ≡ (if auth_len == 1 then nonce else s.signed_outgoing_nonce network)
  unfolding store_signature
  second_round auth_len id auth_index network nonce signature m s =
      let twice =
        add_signature m id auth_index signature (new_signed_message m id auth_index signature) in
      let e = one_of_set auth_len twice (add_signature-new m id auth_index signature) in
      elim (Bool-cases (auth_len == 1)) [
        | inl one ↦ rw (e, one, store_signature) (ground arith)
        | inr more ↦ rw (e, more, store_signature) (ground arith)
      ]

  submit_active :
      (auth_index id : ℕ) (signatures : List (ℕ × ℕ × ℕ)) (s : State Ledger)
      → id ≡ s.validator_set_id
      → is_empty (s.authorities s.validator_set_id) ≡ false
      → submit_signed_outgoing_messages r unsigned auth_index id signatures s
        ≡ submit_loop r (length (s.authorities s.validator_set_id)) id auth_index signatures s
  unfolding submit_signed_outgoing_messages
  submit_active auth_index id signatures s active keys = ground (arith, active, keys)

  twice_in_one_call :
      (auth_index id network nonce signature : ℕ) (m : Message) (s : State Ledger)
      → id ≡ s.validator_set_id
      → is_empty (s.authorities s.validator_set_id) ≡ false
      → s.outgoing_messages network nonce ≡ some m
      → s.signed_outgoing_messages network nonce ≡ none
      → (submit_signed_outgoing_messages r unsigned auth_index id
            ((network, nonce, signature) ∷ (network, nonce, signature) ∷ [])
            s).1.signed_outgoing_nonce
          network
        ≡ (if length (s.authorities s.validator_set_id) == 1
            then nonce
            else s.signed_outgoing_nonce network)
  unfolding submit_loop store_signature
  twice_in_one_call auth_index id network nonce signature m s active keys there free =
      let auth_len = length (s.authorities s.validator_set_id) in
      let new = new_signed_message m id auth_index signature in
      let x : ℕ × ℕ × ℕ = (network, nonce, signature) in
      let s₁ = store_signature r auth_len id auth_index network nonce signature m none s in
      let stored : s₁.signed_outgoing_messages network nonce ≡ some new =
        ground (arith, ==_refl network, ==_refl nonce) in
      ap (λ out. out.1.signed_outgoing_nonce network)
        (submit_active auth_index id (x ∷ x ∷ []) s active keys
          ∙ submit_loop-cons r auth_len id auth_index network nonce signature (x ∷ []) m s there
          ∙ ap
              (λ o.
                submit_loop r auth_len id auth_index (x ∷ [])
                  (store_signature r auth_len id auth_index network nonce signature m o s))
              free
          ∙ submit_loop-cons r auth_len id auth_index network nonce signature [] m s₁ there
          ∙ ap
              (λ o.
                submit_loop r auth_len id auth_index []
                  (store_signature r auth_len id auth_index network nonce signature m o s₁))
              stored)
      ∙ second_round auth_len id auth_index network nonce signature m s₁

  -- A signature of a message that has none yet, submitted alone and accepted by the pool, finalises
  -- nothing, whatever the size of the active set, and the pool then refuses a submission of one
  -- signature of the same authority for that message. The same signature given twice in one call is
  -- accepted as well, and finalises the message exactly where the active set has one authority;
  -- elsewhere the finalised nonce of the network stays.
  pub first_signature_lem :
      (auth_index id network nonce signature again : ℕ) (s : State Ledger)
      → validate_signed_outgoing_message r auth_index id ((network, nonce, signature) ∷ []) s
        ≡ valid
      → s.signed_outgoing_messages network nonce ≡ none
      → let x : ℕ × ℕ × ℕ = (network, nonce, signature) in
        let s' = (submit_signed_outgoing_messages r unsigned auth_index id (x ∷ []) s).1 in
        let s'' = (submit_signed_outgoing_messages r unsigned auth_index id (x ∷ x ∷ []) s).1 in
        (s'.signed_outgoing_nonce ≡ s.signed_outgoing_nonce)
        × (validate_signed_outgoing_message r auth_index id ((network, nonce, again) ∷ []) s'
            ≡ custom 4)
        × (validate_signed_outgoing_message r auth_index id (x ∷ x ∷ []) s ≡ valid)
        × (s''.signed_outgoing_nonce network ≡ (
            if length (s.authorities s.validator_set_id) == 1
            then nonce
            else s.signed_outgoing_nonce network))
  first_signature_lem auth_index id network nonce signature again s h free =
      let (active, keys, (signer, at, checked)) =
        accepted_is_checked r auth_index id ((network, nonce, signature) ∷ []) s h in
      let (next, _, (m, there, _)) = checked.0 in
      let alone = first_round auth_index id network nonce signature m s active keys there free in
      (
        rw alone refl,
        rw alone (
            again_refused auth_index id network nonce signature again signer m s active keys at
              next),
        accepted_twice auth_index id (network, nonce, signature) s h,
        twice_in_one_call auth_index id network nonce signature m s active keys there free,
      )
