-- ===== src/Thea/Nonces.antt =====
-- The nonces of outgoing messages: no operation of pallets/thea/src/lib.rs fills a slot twice.
use polkadex_node.Prelude.{
  ℕ, ◌+◌, ◌-◌, ◌≤◌, ◌<◌, ◌≡◌, refl, ◌⊎◌, inl, inr, List, none, some, arith, ◌==◌, Bool-cases,
  u64_mod,
}
use polkadex_node.Frame.{ok, root}
use polkadex_node.Thea.Types.{Message, PayloadType, l1_deposit, State, Runtime}
use polkadex_node.Thea.Outgoing.{generate_payload, enqueue, send_thea_message}
use polkadex_node.Thea.Dispatch.{Request, run}
use polkadex_node.Thea.Frames.{SameOutgoing}
use polkadex_node.Thea.Outbox.{run-P, raised, send_free}

module _ (r : Runtime) where
  open r use {Ledger}

  -- A nonce of 64 bits beyond the last one of its network has no outgoing message.
  abbrev pub IsFresh : State Ledger → Type 0
  IsFresh s =
      (network nonce : ℕ)
      → (nonce ≤ s.outgoing_nonce network)
        ⊎ (u64_mod ≤ nonce)
        ⊎ (s.outgoing_messages network nonce ≡ none)

  fresh_slot :
      (s : State Ledger) (network nonce : ℕ)
      → IsFresh s
      → s.outgoing_nonce network < nonce
      → nonce < u64_mod
      → s.outgoing_messages network nonce ≡ none
  fresh_slot s network nonce h beyond fits = ground (arith, h network nonce)

  pub same-IsFresh : (s s' : State Ledger) → SameOutgoing r s s' → IsFresh s → IsFresh s'
  same-IsFresh s s' (nonces, messages) h network nonce = rw (nonces, messages) (h network nonce)

  enqueue-IsFresh :
      (network : ℕ) (payload_type : PayloadType) (bytes : List ℕ) (s : State Ledger)
      → IsFresh s
      → IsFresh (enqueue r network (generate_payload r payload_type network bytes s) s)
  unfolding enqueue generate_payload
  enqueue-IsFresh network payload_type bytes s h at nonce = elim (Bool-cases (network == at)) [
    | inl here ↦ ground (arith, h at nonce)
    | inr away ↦ ground (arith, h at nonce)
  ]

  raise-IsFresh :
      (network nonce : ℕ) (s : State Ledger)
      → s.outgoing_nonce network ≤ nonce
      → IsFresh s
      → IsFresh (raised r network nonce s)
  raise-IsFresh network nonce s up h at k = elim (Bool-cases (network == at)) [
    | inl here ↦ ground (arith, h at k)
    | inr away ↦ ground (arith, h at k)
  ]

  -- Where the slots beyond the nonces are free, they stay so whatever calls, sessions and blocks
  -- come: no outgoing message gets a nonce of 64 bits beyond the outgoing nonce of its network.
  pub run-IsFresh : (qs : List Request) (s : State Ledger) → IsFresh s → IsFresh (run r qs s)
  run-IsFresh = run-P r IsFresh same-IsFresh enqueue-IsFresh raise-IsFresh

  -- The slots are fresh, and this message is in this one.
  abbrev Keeps : ℕ → ℕ → Message → State Ledger → Type 0
  Keeps network nonce m s = IsFresh s × (s.outgoing_messages network nonce ≡ some m)

  enqueue-Keeps :
      (at nonce : ℕ) (m : Message)
      → nonce < u64_mod - 1
      → (network : ℕ) (payload_type : PayloadType) (bytes : List ℕ) (s : State Ledger)
      → Keeps at nonce m s
      → Keeps at nonce m (enqueue r network (generate_payload r payload_type network bytes s) s)
  unfolding enqueue generate_payload
  enqueue-Keeps at nonce m small network payload_type bytes s (h, there) =
      (enqueue-IsFresh network payload_type bytes s h, ground (arith, h at nonce))

  -- An outgoing message is final: from slots that are free beyond the nonces, no calls, sessions and
  -- blocks replace or remove a message, unless its nonce is the largest one of 64 bits.
  pub outgoing_message_is_final :
      (qs : List Request) (network nonce : ℕ) (m : Message) (s : State Ledger)
      → IsFresh s
      → nonce < u64_mod - 1
      → s.outgoing_messages network nonce ≡ some m
      → (run r qs s).outgoing_messages network nonce ≡ some m
  outgoing_message_is_final qs network nonce m s h small there =
      (run-P r (Keeps network nonce m)
        (λ s s' same (fresh, kept). (same-IsFresh s s' same fresh, rw (same.1) kept))
        (enqueue-Keeps network nonce m small)
        (λ at k s up (fresh, kept). (raise-IsFresh at k s up fresh, kept)) qs s (h, there)).1

  -- After any history from slots that are free beyond the nonces, governance can send: while the
  -- next nonce is below the largest one of 64 bits, the call of `send_thea_message` succeeds, its
  -- message takes the next nonce of the network and stays there, with its content, whatever comes
  -- later.
  pub sent_message_stays :
      (before later : List Request) (bytes : List ℕ) (network : ℕ) (s : State Ledger)
      → IsFresh s
      → let s₁ = run r before s in
        let next = s₁.outgoing_nonce network + 1 in
        next < u64_mod - 1
        → let out = send_thea_message r root bytes network s₁ in
          (out.0 ≡ ok tt)
          × (out.1.outgoing_nonce network ≡ next)
          × ((run r later out.1).outgoing_messages network next
              ≡ some (record {
                block_no = s₁.block_number;
                nonce = next;
                network = network;
                payload_type = l1_deposit;
                bytes = bytes;
              }))
  unfolding enqueue generate_payload
  sent_message_stays before later bytes network s h small =
      let s₁ = run r before s in
      let fresh = run-IsFresh before s h in
      let s₂ = enqueue r network (generate_payload r l1_deposit network bytes s₁) s₁ in
      let free =
        fresh_slot s₁ network (s₁.outgoing_nonce network + 1) fresh (omega arith) (omega arith) in
      rw (send_free r bytes network s₁ (ground arith)) (
        refl,
        ground arith,
        outgoing_message_is_final later network (s₁.outgoing_nonce network + 1) _ s₂
            (enqueue-IsFresh network l1_deposit bytes s₁ fresh) small (ground arith),
      )
