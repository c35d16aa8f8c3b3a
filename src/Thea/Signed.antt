-- ===== src/Thea/Signed.antt =====
-- `SignedMessage` of primitives/thea/src/types.rs: the signatures of an outgoing message.
use polkadex_node.Prelude.{
  ℕ, ◌+◌, ◌*◌, ◌/◌, ◌≤◌, ◌<◌, ◌≡◌, ◌≢◌, ◌↔◌, refl, ◌⊎◌, inl, inr, Bool, true, false, [], arith, leb,
  ◌==◌, if◌then◌else◌, length, map_insert, contains_key, contains_key-map_insert, length-map_insert,
  Bool-cases, ==_iff,
}
use polkadex_node.Thea.Types.{Message, Message-discrete, SignedMessage}

-- `SignedMessage::new`
unfoldable pub new_signed_message : Message → ℕ → ℕ → ℕ → SignedMessage
new_signed_message message validator_set_id auth_index signature = record {
  validator_set_id = validator_set_id;
  message = message;
  signatures = map_insert auth_index signature [];
}

-- `SignedMessage::add_signature`
unfoldable pub add_signature : Message → ℕ → ℕ → ℕ → SignedMessage → SignedMessage
add_signature message validator_set_id auth_index signature m =
    elim (Message-discrete m.message message) [
      | no other ↦ m
      | yes same ↦
          if m.validator_set_id == validator_set_id
          then record m { signatures = map_insert auth_index signature m.signatures }
          else m
    ]

-- `SignedMessage::threshold_reached`
unfoldable pub threshold_reached : ℕ → SignedMessage → Bool
threshold_reached max_len m =
    if max_len == 0 then false else leb ((2 * max_len) / 3 + 1) (length m.signatures)

-- `SignedMessage::contains_signature`
unfoldable pub contains_signature : ℕ → SignedMessage → Bool
contains_signature auth_index m = contains_key auth_index m.signatures

-- More than two thirds of a set of this size, which is not empty.
abbrev pub IsSupermajority : ℕ → SignedMessage → Type 0
IsSupermajority max_len m = (0 < max_len) × (2 * max_len < 3 * length m.signatures)

-- The threshold is reached exactly when the set is not empty and strictly more than two thirds of
-- its size have signed.
pub threshold_reached_iff :
    (max_len : ℕ) (m : SignedMessage)
    → (threshold_reached max_len m ≡ true) ↔ IsSupermajority max_len m
unfolding threshold_reached
threshold_reached_iff max_len m = (λ h. ground arith, λ h. ground arith)

-- A signature for another message or another set is not added; one for the same is.
pub add_signature-cases :
    (message : Message) (id auth_index signature : ℕ) (old : SignedMessage)
    → let new = add_signature message id auth_index signature old in
      (((old.message ≢ message) ⊎ (old.validator_set_id ≢ id)) × (new ≡ old))
      ⊎ ((old.message ≡ message)
          × (old.validator_set_id ≡ id)
          × (new ≡ record old { signatures = map_insert auth_index signature old.signatures }))
unfolding add_signature
add_signature-cases message id auth_index signature old =
    elim (Message-discrete old.message message)
      as (λ d.
        let new = elim d as (λ _. SignedMessage) [
          | no other ↦ old
          | yes same ↦
              if old.validator_set_id == id
              then record old { signatures = map_insert auth_index signature old.signatures }
              else old
        ] in
        (((old.message ≢ message) ⊎ (old.validator_set_id ≢ id)) × (new ≡ old))
        ⊎ ((old.message ≡ message)
            × (old.validator_set_id ≡ id)
            × (new ≡ record old { signatures = map_insert auth_index signature old.signatures }))) [
              | no other ↦ inl (inl other, refl)
              | yes same ↦ elim (Bool-cases (old.validator_set_id == id)) [
                | inr away ↦ inl (inr (ground (arith, away)), ground (arith, away))
                | inl here ↦
                    inr (same, (==_iff old.validator_set_id id).0 here, ground (arith, here))
              ]
            ]

-- `add_signature` keeps the message and the set of a signed message. A signature for the same
-- message and set is counted under its authority, once however often it is added; one for another
-- message or another set changes nothing.
pub add_signature_lem :
    (message : Message) (id auth_index signature : ℕ) (m : SignedMessage)
    → let m' = add_signature message id auth_index signature m in
      (m'.message ≡ m.message)
      × (m'.validator_set_id ≡ m.validator_set_id)
      × (m.message ≡ message → m.validator_set_id ≡ id → contains_signature auth_index m' ≡ true)
      × (m.message ≢ message → m' ≡ m)
      × (m.validator_set_id ≢ id → m' ≡ m)
      × (length m.signatures ≤ length m'.signatures)
      × (length m'.signatures ≤ length m.signatures + 1)
      × ((other : ℕ)
          → other ≢ auth_index
          → contains_signature other m' ≡ contains_signature other m)
unfolding contains_signature
add_signature_lem message id auth_index signature m =
    elim (add_signature-cases message id auth_index signature m) [
      | inl (other, e) ↦ rw e (
        refl,
        refl,
        λ same here. absurd (elim other [ inl h ↦ h same | inr h ↦ h here ]),
        λ h. refl,
        λ h. refl,
        omega arith,
        omega arith,
        λ j h. refl,
      )
      | inr (same, here, e) ↦ rw e (
        refl,
        refl,
        λ h h'.
            ground (arith, contains_key-map_insert auth_index auth_index signature m.signatures),
        λ h. absurd (h same),
        λ h. absurd (h here),
        (length-map_insert auth_index signature m.signatures).0,
        (length-map_insert auth_index signature m.signatures).1,
        λ j h. ground (arith, contains_key-map_insert auth_index j signature m.signatures),
      )
    ]

-- A signature for the message and the set that are being signed is counted under its authority;
-- whether any other authority has signed is as before.
pub contains_signature-add_signature :
    (id auth_index signature other : ℕ) (m : SignedMessage)
    → m.validator_set_id ≡ id
    → contains_signature other (add_signature m.message id auth_index signature m)
      ≡ (if auth_index == other then true else contains_signature other m)
contains_signature-add_signature id auth_index signature other m same =
    let (_, _, added, _, _, _, _, others) = add_signature_lem m.message id auth_index signature m in
    elim (Bool-cases (auth_index == other)) [
      | inl here ↦ ground (arith, added refl same)
      | inr away ↦ ground (arith, others other)
    ]

-- A signature for another message, or for another set of authorities, changes nothing.
pub add_signature_isolated :
    (message : Message) (id auth_index signature : ℕ) (m : SignedMessage)
    → (m.message ≢ message) ⊎ (m.validator_set_id ≢ id)
    → add_signature message id auth_index signature m ≡ m
add_signature_isolated message id auth_index signature m (inl other) =
    (add_signature_lem message id auth_index signature m).3 other
add_signature_isolated message id auth_index signature m (inr other) =
    (add_signature_lem message id auth_index signature m).4 other
