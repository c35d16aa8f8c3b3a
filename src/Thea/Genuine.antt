-- ===== src/Thea/Genuine.antt =====
-- The signatures that an entry of `SignedOutgoingMessages` of pallets/thea/src/lib.rs holds, and one
-- more.
use polkadex_node.Prelude.{
  ℕ, ◌≡◌, refl, sym, ap, ◌⊎◌, inl, inr, List, Option, none, some, arith, ◌==◌, get_elem?, update₂,
  Bool-cases, true, keys, Ascending, map_get, map_insert, map_get-map_insert, keys-map_insert,
  set_insert-Ascending,
}
use polkadex_node.Thea.Types.{Message, SignedMessage, State, Runtime}
use polkadex_node.Thea.Signed.{
  new_signed_message, add_signature, add_signature-cases, threshold_reached,
}
use polkadex_node.Thea.Outgoing.{store_signature}

module _ (r : Runtime) where
  open r use {Ledger, verify}

  -- An authority of a set, by its index, whose signature of a message is genuine.
  abbrev pub HasSigned : List ℕ → Message → ℕ → ℕ → Type 0
  HasSigned authorities message index signature =
      (signer : ℕ) × (get_elem? authorities index ≡ some signer)
      × (verify signature message signer ≡ true)

  -- The signatures of a message are of distinct authorities of the set that it names, and genuine.
  abbrev pub AreGenuine : (ℕ → List ℕ) → SignedMessage → Type 0
  AreGenuine authorities m =
      Ascending (keys m.signatures)
      × ((index signature : ℕ)
          → map_get index m.signatures ≡ some signature
          → HasSigned (authorities m.validator_set_id) m.message index signature)

  -- All signatures that are stored are genuine.
  abbrev pub IsGenuine : (ℕ → List ℕ) → State Ledger → Type 0
  IsGenuine authorities s =
      (n k : ℕ) (m : SignedMessage)
      → s.signed_outgoing_messages n k ≡ some m
      → AreGenuine authorities m

  -- The entry after a signature.
  abbrev pub entry : Message → ℕ → ℕ → ℕ → Option SignedMessage → SignedMessage
  entry message id auth_index signature none = new_signed_message message id auth_index signature
  entry message id auth_index signature (some old) =
      add_signature message id auth_index signature old

  pub store-entry :
      (auth_len id auth_index at nonce signature : ℕ) (message : Message) (o : Option SignedMessage)
      (s : State Ledger)
      → (store_signature r auth_len id auth_index at nonce signature message o
          s).signed_outgoing_messages
        ≡ update₂ s.signed_outgoing_messages at nonce
            (some (entry message id auth_index signature o))
  unfolding store_signature
  store-entry auth_len id auth_index at nonce signature message none s = refl
  store-entry auth_len id auth_index at nonce signature message (some old) s =
      elim (Bool-cases
        (threshold_reached auth_len (add_signature message id auth_index signature old))) [
          | inl reached ↦ rw (reached, store_signature)
          | inr short ↦ rw (short, store_signature)
        ]

  new-AreGenuine :
      (authorities : ℕ → List ℕ) (message : Message) (id auth_index signature : ℕ)
      → HasSigned (authorities id) message auth_index signature
      → AreGenuine authorities (new_signed_message message id auth_index signature)
  unfolding new_signed_message map_insert map_get keys
  new-AreGenuine authorities message id auth_index signature (signer, at, genuine) = (
    (λ j h. absurd (ground (arith, h)), tt),
    λ i x h. (signer, ground (arith, at, h), ground (arith, genuine, h)),
  )

  add-AreGenuine :
      (authorities : ℕ → List ℕ) (message : Message) (id auth_index signature : ℕ)
      (old : SignedMessage)
      → HasSigned (authorities id) message auth_index signature
      → AreGenuine authorities old
      → AreGenuine authorities (add_signature message id auth_index signature old)
  add-AreGenuine authorities message id auth_index signature old (signer, at, genuine)
        (ordered, all) =
      elim (add_signature-cases message id auth_index signature old) [
        | inl (_, same) ↦ rw same (ordered, all)
        | inr (this, active, added) ↦ rw added (
          rw (keys-map_insert auth_index signature old.signatures)
              (set_insert-Ascending auth_index (keys old.signatures) ordered),
          λ i x h. elim (Bool-cases (auth_index == i)) [
            | inr other ↦
                all i x (
                  ground
                    (arith, h, other, map_get-map_insert auth_index i signature old.signatures))
            | inl here ↦
                let e : signature ≡ x =
                  ground
                    (arith, h, here, map_get-map_insert auth_index i signature old.signatures) in
                (signer, rw active (ground (arith, at, here)), rw (sym e, this) genuine)
          ],
        )
      ]

  -- The set of an entry is the one that signs, or the entry is as before.
  pub entry-set :
      (message : Message) (id auth_index signature : ℕ) (o : Option SignedMessage)
      → ((entry message id auth_index signature o).validator_set_id ≡ id)
        ⊎ (o ≡ some (entry message id auth_index signature o))
  unfolding new_signed_message
  entry-set message id auth_index signature none = inl refl
  entry-set message id auth_index signature (some old) =
      elim (add_signature-cases message id auth_index signature old) [
        | inl (_, same) ↦ inr (ap (λ m. some m) (sym same))
        | inr (_, active, added) ↦ inl (rw added active)
      ]

  pub entry-AreGenuine :
      (authorities : ℕ → List ℕ) (message : Message) (id auth_index signature at nonce : ℕ)
      (o : Option SignedMessage) (s : State Ledger)
      → HasSigned (authorities id) message auth_index signature
      → IsGenuine authorities s
      → s.signed_outgoing_messages at nonce ≡ o
      → AreGenuine authorities (entry message id auth_index signature o)
  entry-AreGenuine authorities message id auth_index signature at nonce none s has all e =
      new-AreGenuine authorities message id auth_index signature has
  entry-AreGenuine authorities message id auth_index signature at nonce (some old) s has all e =
      add-AreGenuine authorities message id auth_index signature old has (all at nonce old e)
