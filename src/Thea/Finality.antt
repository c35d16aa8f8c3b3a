-- ===== src/Thea/Finality.antt =====
-- When an outgoing message counts as finalised (`SignedOutgoingNonce` of pallets/thea/src/lib.rs).
use polkadex_node.Prelude.{
  ℕ, ◌≡◌, refl, ◌⊎◌, inl, inr, false, List, [], ◌∷◌, Option, none, some, arith, ◌==◌, length,
  is_empty, Bool-cases, Option-cases, ap,
}
use polkadex_node.Frame.{err, Origin, root, signed, unsigned}
use polkadex_node.Thea.Types.{Message, SignedMessage, State, Runtime, Error, message_not_found}
use polkadex_node.Thea.Signed.{
  add_signature, add_signature_lem, threshold_reached, threshold_reached_iff, IsSupermajority,
}
use polkadex_node.Thea.Outgoing.{store_signature, submit_loop, submit_signed_outgoing_messages}

module _ (r : Runtime) where
  open r use {Ledger}

  -- The last finalised message of a network has an entry with enough signatures for a set of
  -- this size.
  abbrev pub HasThreshold : ℕ → ℕ → State Ledger → Type 0
  HasThreshold auth_len network s =
      (m : SignedMessage) × (s.signed_outgoing_messages network (s.signed_outgoing_nonce network)
        ≡ some m)
      × IsSupermajority auth_len m

  -- The finalised nonce of a network is still this one, or its entry has enough signatures.
  abbrev pub IsSound : ℕ → ℕ → ℕ → State Ledger → Type 0
  IsSound auth_len network start s =
      (s.signed_outgoing_nonce network ≡ start) ⊎ HasThreshold auth_len network s

  store_new-IsSound :
      (auth_len id auth_index at nonce signature network start : ℕ) (message : Message)
      (s : State Ledger)
      → s.signed_outgoing_messages at nonce ≡ none
      → IsSound auth_len network start s
      → IsSound auth_len network start
          (store_signature r auth_len id auth_index at nonce signature message none s)
  unfolding store_signature
  store_new-IsSound auth_len id auth_index at nonce signature network start message s free
        (inl same) =
      inl same
  store_new-IsSound auth_len id auth_index at nonce signature network start message s free
        (inr (m, e, q)) =
      inr (m, ground arith, q)

  store_more-IsSound :
      (auth_len id auth_index at nonce signature network start : ℕ) (message : Message)
      (old : SignedMessage) (s : State Ledger)
      → s.signed_outgoing_messages at nonce ≡ some old
      → IsSound auth_len network start s
      → IsSound auth_len network start
          (store_signature r auth_len id auth_index at nonce signature message (some old) s)
  unfolding store_signature
  store_more-IsSound auth_len id auth_index at nonce signature network start message old s there h =
      let new = add_signature message id auth_index signature old in
      let grown = (add_signature_lem message id auth_index signature old).5 in
      let quorum = threshold_reached_iff auth_len new in
      elim (Bool-cases (threshold_reached auth_len new)) [
        | inl reached ↦
            rw (reached, store_signature)
              (elim (Bool-cases (at == network)) [
                | inl here ↦ inr (new, ground arith, quorum.0 reached)
                | inr away ↦ elim h [
                  | inl same ↦ inl (ground arith)
                  | inr (m, e, q) ↦ inr (m, ground arith, q)
                ]
              ])
        | inr short ↦
            rw (short, store_signature)
              (elim h [
                | inl same ↦ inl same
                | inr (m, e, q) ↦ elim (Bool-cases (at == network)) [
                  | inr away ↦ inr (m, ground arith, q)
                  | inl here ↦ elim (Bool-cases (nonce == s.signed_outgoing_nonce network)) [
                    | inr other ↦ inr (m, ground arith, q)
                    | inl last ↦
                        let same_entry : old ≡ m = ground arith in
                        inr (
                          new,
                          ground arith,
                          (
                            q.0,
                            omega
                                (arith, ap (λ (x : SignedMessage). length x.signatures) same_entry),
                          ),
                        )
                  ]
                ]
              ])
      ]

  pub store-outgoing :
      (auth_len id auth_index at nonce signature : ℕ) (message : Message) (o : Option SignedMessage)
      (s : State Ledger)
      → (store_signature r auth_len id auth_index at nonce signature message o s).outgoing_messages
        ≡ s.outgoing_messages
  unfolding store_signature
  store-outgoing auth_len id auth_index at nonce signature message none s = refl
  store-outgoing auth_len id auth_index at nonce signature message (some old) s =
      elim (Bool-cases
        (threshold_reached auth_len (add_signature message id auth_index signature old))) [
          | inl reached ↦ rw (reached, store_signature)
          | inr short ↦ rw (short, store_signature)
        ]

  store-IsSound :
      (auth_len id auth_index at nonce signature network start : ℕ) (message : Message)
      (o : Option SignedMessage) (s : State Ledger)
      → s.signed_outgoing_messages at nonce ≡ o
      → IsSound auth_len network start s
      → IsSound auth_len network start
          (store_signature r auth_len id auth_index at nonce signature message o s)
  store-IsSound auth_len id auth_index at nonce signature network start message none s e h =
      store_new-IsSound auth_len id auth_index at nonce signature network start message s e h
  store-IsSound auth_len id auth_index at nonce signature network start message (some old) s e h =
      store_more-IsSound auth_len id auth_index at nonce signature network start message old s e h

  -- One round of the loop, where the message is there.
  pub submit_loop-cons :
      (auth_len id auth_index at nonce signature : ℕ) (rest : List (ℕ × ℕ × ℕ)) (message : Message)
      (s : State Ledger)
      → s.outgoing_messages at nonce ≡ some message
      → submit_loop r auth_len id auth_index ((at, nonce, signature) ∷ rest) s
        ≡ submit_loop r auth_len id auth_index rest (
            store_signature r auth_len id auth_index at nonce signature message
              (s.signed_outgoing_messages at nonce)
              s)
  unfolding submit_loop
  submit_loop-cons auth_len id auth_index at nonce signature rest message s there = ground arith

  pub submit_loop-missing :
      (auth_len id auth_index at nonce signature : ℕ) (rest : List (ℕ × ℕ × ℕ)) (s : State Ledger)
      → s.outgoing_messages at nonce ≡ none
      → submit_loop r auth_len id auth_index ((at, nonce, signature) ∷ rest) s
        ≡ (err message_not_found, s)
  unfolding submit_loop
  submit_loop-missing auth_len id auth_index at nonce signature rest s missing = ground arith

  pub submit_loop-IsSound :
      (auth_len id auth_index network start : ℕ) (signatures : List (ℕ × ℕ × ℕ)) (s : State Ledger)
      → IsSound auth_len network start s
      → IsSound auth_len network start (submit_loop r auth_len id auth_index signatures s).1
  submit_loop-IsSound auth_len id auth_index network start [] s h = unfold submit_loop in h
  submit_loop-IsSound auth_len id auth_index network start ((at, nonce, signature) ∷ rest) s h =
      elim (Option-cases (s.outgoing_messages at nonce)) [
        | inl missing ↦
            rw (submit_loop-missing auth_len id auth_index at nonce signature rest s missing) h
        | inr (message, there) ↦
            rw (submit_loop-cons auth_len id auth_index at nonce signature rest message s there) (
              submit_loop-IsSound auth_len id auth_index network start rest _ (
                store-IsSound auth_len id auth_index at nonce signature network start message
                  (s.signed_outgoing_messages at nonce) s refl h))
      ]

  -- A submission of signatures is refused and writes nothing, or it comes unsigned, for the active
  -- set, which is not empty, and runs the loop for the size of that set.
  pub submit_signed-cases :
      (origin : Origin) (auth_index id : ℕ) (signatures : List (ℕ × ℕ × ℕ)) (s : State Ledger)
      → ((e : Error) × (submit_signed_outgoing_messages r origin auth_index id signatures s
            ≡ (err e, s)))
        ⊎ ((origin ≡ unsigned)
            × (id ≡ s.validator_set_id)
            × (is_empty (s.authorities s.validator_set_id) ≡ false)
            × (submit_signed_outgoing_messages r origin auth_index id signatures s
                ≡ submit_loop r
                    (length (s.authorities s.validator_set_id))
                    id
                    auth_index
                    signatures
                    s))
  unfolding submit_signed_outgoing_messages
  submit_signed-cases root auth_index id signatures s = inl (Error.bad_origin, refl)
  submit_signed-cases (signed who) auth_index id signatures s = inl (Error.bad_origin, refl)
  submit_signed-cases unsigned auth_index id signatures s =
      elim (Bool-cases (id == s.validator_set_id)) [
        | inr stale ↦ inl (Error.invalid_validator_set_id, ground arith)
        | inl active ↦ elim (Bool-cases (is_empty (s.authorities s.validator_set_id))) [
          | inl empty ↦ inl (Error.empty_validator_set, ground arith)
          | inr some_keys ↦ inr (refl, ground arith, some_keys, ground arith)
        ]
      ]
