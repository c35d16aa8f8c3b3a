-- ===== src/Thea/Incoming.antt =====
-- Incoming messages of pallets/thea/src/lib.rs: relayers submit them with a stake, fishermen may
-- report them, and `on_initialize` executes them.
use polkadex_node.Prelude.{
  ℕ, Bool, true, false, not, Option, none, some, List, [], ◌∷◌, ltb, leb, if◌then◌else◌, update,
  update₂, u32_mod, u64_mod, saturating_add, min, ◌-◌,
}
use polkadex_node.Frame.{
  Result, ok, err, pure, raise, gets, modify, ensure, transactional, ◌>>=◌, ◌>>◌, Origin,
  ensure_signed,
}
use polkadex_node.Thea.Types.{
  Message, IncomingMessage, MisbehaviourReport, State, Runtime, thea_payload_processed,
  error_while_releasing_lock, misbehaviour_reported, deposit_execution_failed, not_enough_stake,
  nonce_error, message_not_found, message_already_executed, bad_origin, dispatch,
}
use polkadex_node.Thea.Outgoing.{Call, deposit_event, is_some}

module _ (r : Runtime) where
  open r use {
    Ledger, hold, release, reducible_balance, transfer, burn_from, execute_deposits, is_governance,
  }

  -- A call of the currency, with `?`.
  unfoldable pub on_ledger : (Ledger → Result ℕ Ledger) → Call r
  on_ledger f s = elim (f s.ledger) [
    | ok l ↦ (ok tt, record s { ledger = l })
    | err e ↦ (err (dispatch e), s)
  ]

  -- The entry that a relayer puts in the queue at the current block.
  unfoldable pub queued : Message → ℕ → ℕ → ℕ → State Ledger → IncomingMessage
  queued payload relayer stake fork_period s = record {
    message = payload;
    relayer = relayer;
    stake = stake;
    execute_at = saturating_add u32_mod (min s.block_number (u32_mod - 1)) fork_period;
  }

  -- `submit_incoming_message` at a queue slot that is free, or taken by an earlier message.
  unfoldable pub place : Message → ℕ → ℕ → ℕ → Option IncomingMessage → Call r
  place payload signer stake fork_period none = do
    on_ledger (hold signer stake)
    modify (λ s. record s {
      incoming_messages_queue =
          update₂ s.incoming_messages_queue payload.network payload.nonce
            (some (queued payload signer stake fork_period s));
    })
  place payload signer stake fork_period (some existing) =
      if ltb existing.stake stake
      then (do
        on_ledger (release existing.relayer existing.stake)
        on_ledger (hold signer stake)
        modify (λ s. record s {
          incoming_messages_queue =
              update₂ s.incoming_messages_queue payload.network payload.nonce
                (some (queued payload signer stake fork_period s));
        }))
      else pure tt

  unfoldable pub submit_incoming_message : Origin → Message → ℕ → Call r
  submit_incoming_message origin payload stake = transactional (do
    signer ← ensure_signed bad_origin origin
    config ← gets (λ s. s.network_config payload.network)
    ensure (not (ltb stake config.min_stake)) not_enough_stake
    next_nonce ← gets (λ s. s.incoming_nonce payload.network)
    ensure (ltb next_nonce payload.nonce) nonce_error
    slot ← gets (λ s. s.incoming_messages_queue payload.network payload.nonce)
    place payload signer stake config.fork_period slot)

  -- The relayer gets the stake back; a failure is only reported.
  unfoldable pub release_stake : IncomingMessage → State Ledger → State Ledger
  release_stake msg s = elim (release msg.relayer msg.stake s.ledger) [
    | ok l ↦ record s { ledger = l }
    | err e ↦ deposit_event r (error_while_releasing_lock msg.relayer e) s
  ]

  -- The deposits of a message have been executed, with this result.
  unfoldable pub settle :
      IncomingMessage → Result ℕ (Unit {0}) × Ledger → State Ledger → State Ledger
  settle msg (ok done, written) s =
      release_stake msg
        (record (deposit_event r (thea_payload_processed msg.message.network msg.message.nonce) s) {
          ledger = written;
          incoming_messages =
              update₂ s.incoming_messages msg.message.network msg.message.nonce (some msg.message);
        })
  settle msg (err e, written) s =
      release_stake msg
        (deposit_event r (deposit_execution_failed msg.message.network msg.message.nonce e) s)

  -- A message that was taken from the queue: executed if its time has come, and otherwise gone.
  unfoldable pub process_taken : ℕ → ℕ → Option IncomingMessage → State Ledger → State Ledger
  process_taken blk next_nonce none s = s
  process_taken blk next_nonce (some msg) s =
      if leb msg.execute_at (min blk (u32_mod - 1))
      then settle msg (execute_deposits msg.message.network msg.message.bytes s.ledger)
          (record s { incoming_nonce = update s.incoming_nonce msg.message.network next_nonce })
      else s

  -- One round of `on_initialize`.
  unfoldable pub process_network : ℕ → ℕ → State Ledger → State Ledger
  process_network blk network s =
      let next_nonce = saturating_add u64_mod (s.incoming_nonce network) 1 in
      process_taken blk next_nonce (s.incoming_messages_queue network next_nonce) (record s {
        incoming_messages_queue = update₂ s.incoming_messages_queue network next_nonce none;
      })

  unfoldable pub process_networks : ℕ → List ℕ → State Ledger → State Ledger
  process_networks blk [] s = s
  process_networks blk (network ∷ rest) s =
      process_networks blk rest (process_network blk network s)

  unfoldable pub on_initialize : ℕ → State Ledger → State Ledger
  on_initialize blk s = process_networks blk s.active_networks s

  -- `report_misbehaviour` after the stake of the fisherman is held.
  unfoldable pub report_taken : ℕ → ℕ → ℕ → ℕ → Option IncomingMessage → Call r
  report_taken fisherman stake network nonce none = do
    executed ← gets (λ s. is_some (s.incoming_messages network nonce))
    ensure (not executed) message_already_executed
    raise message_not_found
  report_taken fisherman stake network nonce (some reported_msg) = do
    modify (λ s. record s {
      misbehaviour_reports =
          update₂ s.misbehaviour_reports network nonce
            (some (record { reported_msg = reported_msg; fisherman = fisherman; stake = stake }));
    })
    modify (deposit_event r (misbehaviour_reported fisherman network nonce))

  unfoldable pub report_misbehaviour : Origin → ℕ → ℕ → Call r
  report_misbehaviour origin network nonce = transactional (do
    fisherman ← ensure_signed bad_origin origin
    config ← gets (λ s. s.network_config network)
    available ← gets (λ s. reducible_balance s.ledger fisherman)
    ensure (not (ltb available config.fisherman_stake)) not_enough_stake
    on_ledger (hold fisherman config.fisherman_stake)
    taken ← gets (λ s. s.incoming_messages_queue network nonce)
    modify (λ s. record s {
      incoming_messages_queue = update₂ s.incoming_messages_queue network nonce none;
    })
    report_taken fisherman config.fisherman_stake network nonce taken)

  -- `handle_misbehaviour` after the report is taken.
  unfoldable pub judge : Bool → Option MisbehaviourReport → Call r
  judge acceptance none = pure tt
  judge true (some report) = do
    on_ledger (release report.reported_msg.relayer report.reported_msg.stake)
    on_ledger (transfer report.reported_msg.relayer report.fisherman report.reported_msg.stake)
    on_ledger (release report.fisherman report.stake)
  judge false (some report) = do
    modify (λ s. record s {
      incoming_messages_queue =
          update₂ s.incoming_messages_queue report.reported_msg.message.network
            report.reported_msg.message.nonce (some report.reported_msg);
    })
    on_ledger (burn_from report.fisherman report.stake)

  unfoldable pub handle_misbehaviour : Origin → ℕ → ℕ → Bool → Call r
  handle_misbehaviour origin network nonce acceptance = transactional (do
    ensure (is_governance origin) bad_origin
    taken ← gets (λ s. s.misbehaviour_reports network nonce)
    modify
        (λ s. record s { misbehaviour_reports = update₂ s.misbehaviour_reports network nonce none })
    judge acceptance taken)
