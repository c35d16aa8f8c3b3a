-- ===== src/Thea/Validation.antt =====
-- What the transaction pool promises of a submission (`validate_signed_outgoing_message` of
-- pallets/thea/src/lib.rs).
use polkadex_node.Prelude.{
  ℕ, ◌≡◌, refl, inl, inr, true, false, List, [], ◌∷◌, some, arith, ◌==◌, length, is_empty,
  get_elem?, Bool-cases, Option-cases, u64_mod, saturating_add, ◌∙◌,
}
use polkadex_node.Frame.{ok, unsigned}
use polkadex_node.Thea.Types.{Message, State, Runtime, valid}
use polkadex_node.Thea.Outgoing.{
  submit_loop, submit_signed_outgoing_messages, validate_loop, validate_signed_outgoing_message,
  already_signed,
}
use polkadex_node.Thea.Finality.{store-outgoing, submit_loop-cons}

module _ (r : Runtime) where
  open r use {Ledger, verify}

  -- The message of a signature is there.
  abbrev pub Present : ℕ × ℕ × ℕ → State Ledger → Type 0
  Present (network, nonce, signature) s =
      (m : Message) × (s.outgoing_messages network nonce ≡ some m)

  -- What the loop has checked of one signature.
  abbrev pub IsChecked : ℕ → ℕ → ℕ × ℕ × ℕ → State Ledger → Type 0
  IsChecked auth_index signer (network, nonce, signature) s =
      (nonce ≡ saturating_add u64_mod (s.signed_outgoing_nonce network) 1)
      × (already_signed r auth_index (s.signed_outgoing_messages network nonce) ≡ false)
      × ((m : Message) × (s.outgoing_messages network nonce ≡ some m)
          × (verify signature m signer ≡ true))

  abbrev pub AllChecked : ℕ → ℕ → List (ℕ × ℕ × ℕ) → State Ledger → Type 0
  AllChecked auth_index signer [] s = Unit
  AllChecked auth_index signer (x ∷ xs) s =
      IsChecked auth_index signer x s × AllChecked auth_index signer xs s

  validate_loop-checked :
      (auth_index signer : ℕ) (signatures : List (ℕ × ℕ × ℕ)) (s : State Ledger)
      → validate_loop r auth_index signer signatures s ≡ valid
      → AllChecked auth_index signer signatures s
  unfolding validate_loop
  validate_loop-checked auth_index signer [] s h = tt
  validate_loop-checked auth_index signer ((network, nonce, signature) ∷ rest) s h =
      elim (Bool-cases (nonce == saturating_add u64_mod (s.signed_outgoing_nonce network) 1)) [
        | inr off ↦ absurd (ground arith)
        | inl next ↦
            elim (Bool-cases
              (already_signed r auth_index (s.signed_outgoing_messages network nonce))) [
                | inl again ↦ absurd (ground arith)
                | inr fresh ↦ elim (Option-cases (s.outgoing_messages network nonce)) [
                  | inl missing ↦ absurd (ground arith)
                  | inr (m, there) ↦ elim (Bool-cases (verify signature m signer)) [
                    | inr forged ↦ absurd (ground arith)
                    | inl genuine ↦ (
                      (ground arith, fresh, (m, there, genuine)),
                      validate_loop-checked auth_index signer rest s (ground arith),
                    )
                  ]
                ]
              ]
      ]

  -- A submission that the pool accepts names the active set, which is not empty, and an authority
  -- of it; each signature is that authority's, is genuine, is for the message after the last
  -- finalised one, and is not stored yet.
  pub accepted_is_checked :
      (auth_index id : ℕ) (signatures : List (ℕ × ℕ × ℕ)) (s : State Ledger)
      → validate_signed_outgoing_message r auth_index id signatures s ≡ valid
      → (id ≡ s.validator_set_id)
        × (is_empty (s.authorities s.validator_set_id) ≡ false)
        × ((signer : ℕ) × (get_elem? (s.authorities s.validator_set_id) auth_index ≡ some signer)
            × AllChecked auth_index signer signatures s)
  unfolding validate_signed_outgoing_message
  accepted_is_checked auth_index id signatures s h = elim (Bool-cases (id == s.validator_set_id)) [
    | inr stale ↦ absurd (ground arith)
    | inl active ↦ elim (Bool-cases (is_empty (s.authorities s.validator_set_id))) [
      | inl empty ↦ absurd (ground arith)
      | inr keys ↦ elim (Option-cases (get_elem? (s.authorities s.validator_set_id) auth_index)) [
        | inl missing ↦ absurd (ground arith)
        | inr (signer, at) ↦ (
          ground arith,
          keys,
          (signer, at, validate_loop-checked auth_index signer signatures s (ground arith)),
        )
      ]
    ]
  ]

  checked_loop_succeeds :
      (auth_len id auth_index signer : ℕ) (signatures : List (ℕ × ℕ × ℕ)) (s s₁ : State Ledger)
      → s₁.outgoing_messages ≡ s.outgoing_messages
      → AllChecked auth_index signer signatures s
      → (submit_loop r auth_len id auth_index signatures s₁).0 ≡ ok tt
  checked_loop_succeeds auth_len id auth_index signer [] s s₁ same h = unfold submit_loop in refl
  checked_loop_succeeds auth_len id auth_index signer ((network, nonce, signature) ∷ rest) s s₁ same
        h =
      let (m, there, _) = h.0.2 in
      let there₁ : s₁.outgoing_messages network nonce ≡ some m = rw same there in
      rw (submit_loop-cons r auth_len id auth_index network nonce signature rest m s₁ there₁) (
        checked_loop_succeeds auth_len id auth_index signer rest s _
          (store-outgoing r auth_len id auth_index network nonce signature m
              (s₁.signed_outgoing_messages network nonce) s₁
            ∙ same)
          h.1)

  -- What the pool accepts never fails when it is executed in the same state.
  pub accepted_succeeds :
      (auth_index id : ℕ) (signatures : List (ℕ × ℕ × ℕ)) (s : State Ledger)
      → validate_signed_outgoing_message r auth_index id signatures s ≡ valid
      → (submit_signed_outgoing_messages r unsigned auth_index id signatures s).0 ≡ ok tt
  unfolding submit_signed_outgoing_messages
  accepted_succeeds auth_index id signatures s h =
      let (active, keys, (signer, at, checked)) =
        accepted_is_checked auth_index id signatures s h in
      ground (
        arith,
        checked_loop_succeeds (length (s.authorities s.validator_set_id)) id auth_index signer
            signatures s s refl checked,
      )
