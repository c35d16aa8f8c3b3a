-- ===== src/Thea/Execution.antt =====
-- What `on_initialize` of pallets/thea/src/lib.rs does with the next incoming message.
use polkadex_node.Prelude.{
  ℕ, ◌-◌, ◌≤◌, ◌<◌, ◌≡◌, refl, inl, inr, true, false, [], ◌∷◌, Option, none, some, arith, leb,
  ==_refl, update, update₂, u32_mod, u64_mod, saturating_add, min,
}
use polkadex_node.Frame.{Result, ok, err, Result-cases}
use polkadex_node.Thea.Types.{Message, IncomingMessage, State, Runtime}
use polkadex_node.Thea.Incoming.{
  release_stake, settle, process_taken, process_network, process_networks, on_initialize,
}

module _ (r : Runtime) where
  open r use {Ledger, release, execute_deposits}

  -- The nonce that a network executes next.
  abbrev pub next_incoming : ℕ → State Ledger → ℕ
  next_incoming network s = saturating_add u64_mod (s.incoming_nonce network) 1

  -- What the storage layer around the executor leaves: its writes, or none of them.
  abbrev pub committed : Result ℕ (Unit {0}) × Ledger → Ledger → Ledger
  committed (ok done, written) l = written
  committed (err e, written) l = l

  -- The archive entry after an execution: the message, or what was there.
  abbrev pub archived : Result ℕ (Unit {0}) × Ledger → Message → Option Message → Option Message
  archived (ok done, written) m old = some m
  archived (err e, written) m old = old

  -- The ledger after the relayer's stake is released, or as it was where that fails.
  abbrev pub released : IncomingMessage → Ledger → Ledger
  released msg l = elim (release msg.relayer msg.stake l) [ ok l' ↦ l' | err e ↦ l ]

  release_stake_lem :
      (msg : IncomingMessage) (s : State Ledger)
      → let s' = release_stake r msg s in
        (s'.ledger ≡ released msg s.ledger)
        × (s'.incoming_nonce ≡ s.incoming_nonce)
        × (s'.incoming_messages_queue ≡ s.incoming_messages_queue)
        × (s'.incoming_messages ≡ s.incoming_messages)
  unfolding release_stake
  release_stake_lem msg s = elim (Result-cases (release msg.relayer msg.stake s.ledger)) [
    | inl (l, e) ↦ rw (release_stake, released, e) (refl, refl, refl, refl)
    | inr (e, failed) ↦ rw (release_stake, released, failed) (refl, refl, refl, refl)
  ]

  settle_lem :
      (msg : IncomingMessage) (out : Result ℕ (Unit {0}) × Ledger) (s : State Ledger)
      → let s' = settle r msg out s in
        (s'.ledger ≡ released msg (committed out s.ledger))
        × (s'.incoming_nonce ≡ s.incoming_nonce)
        × (s'.incoming_messages_queue ≡ s.incoming_messages_queue)
        × (s'.incoming_messages msg.message.network msg.message.nonce
            ≡ archived out msg.message (s.incoming_messages msg.message.network msg.message.nonce))
  unfolding settle
  settle_lem msg (ok tt, written) s =
      let (a, b, c, d) = release_stake_lem msg _ in
      (a, b, c, rw d (ground (arith, ==_refl msg.message.network, ==_refl msg.message.nonce)))
  settle_lem msg (err e, written) s =
      let (a, b, c, d) = release_stake_lem msg _ in (a, b, c, rw d refl)

  pub one_network :
      (blk network : ℕ) (s : State Ledger)
      → s.active_networks ≡ network ∷ []
      → on_initialize r blk s ≡ process_network r blk network s
  unfolding on_initialize process_networks
  one_network blk network s only = rw (only, process_networks)

  -- A message that is next but not yet due is lost: with one active network, `on_initialize` takes
  -- it from the queue at any block before its time, while the nonce does not advance, nothing is
  -- archived or reported, and the ledger, with the relayer's held stake, stays as it was.
  pub early_message_lost :
      (blk network : ℕ) (msg : IncomingMessage) (s : State Ledger)
      → s.active_networks ≡ network ∷ []
      → s.incoming_messages_queue network (next_incoming network s) ≡ some msg
      → min blk (u32_mod - 1) < msg.execute_at
      → let s' = on_initialize r blk s in
        (s'.incoming_messages_queue network (next_incoming network s) ≡ none)
        × (s'.incoming_nonce ≡ s.incoming_nonce)
        × (s'.incoming_messages ≡ s.incoming_messages)
        × (s'.misbehaviour_reports ≡ s.misbehaviour_reports)
        × (s'.ledger ≡ s.ledger)
        × (s'.events ≡ s.events)
  unfolding process_network process_taken
  early_message_lost blk network msg s only next early =
      let off : leb msg.execute_at (min blk (u32_mod - 1)) ≡ false = ground arith in
      rw (one_network blk network s only, process_network, next, process_taken, off)
        (ground arith, refl, refl, refl, refl, refl)

  -- A message that is next and due, and stands under its own network, is settled once: with one
  -- active network, `on_initialize` takes it from the queue and advances the nonce of the network
  -- to it, whether or not the executor succeeds. The executor's writes stay, and the message is
  -- archived, exactly where it succeeds; in both cases the relayer's stake is released.
  pub due_message_settled :
      (blk network : ℕ) (msg : IncomingMessage) (s : State Ledger)
      → s.active_networks ≡ network ∷ []
      → s.incoming_messages_queue network (next_incoming network s) ≡ some msg
      → msg.message.network ≡ network
      → msg.execute_at ≤ min blk (u32_mod - 1)
      → let s' = on_initialize r blk s in
        let out = execute_deposits network msg.message.bytes s.ledger in
        (s'.incoming_messages_queue network (next_incoming network s) ≡ none)
        × (s'.incoming_nonce network ≡ next_incoming network s)
        × (s'.incoming_messages network msg.message.nonce
            ≡ archived out msg.message (s.incoming_messages network msg.message.nonce))
        × (s'.ledger ≡ released msg (committed out s.ledger))
  unfolding process_network process_taken
  due_message_settled blk network msg s only next home due =
      let on : leb msg.execute_at (min blk (u32_mod - 1)) ≡ true = ground arith in
      let (a, b, c, d) =
        settle_lem msg (execute_deposits msg.message.network msg.message.bytes s.ledger) (record s {
          incoming_messages_queue =
              update₂ s.incoming_messages_queue network (next_incoming network s) none;
          incoming_nonce = update s.incoming_nonce msg.message.network (next_incoming network s);
        }) in
      rw (one_network blk network s only, process_network, next, process_taken, on)
        (rw c (ground arith), rw b (ground arith), cc, cc)
