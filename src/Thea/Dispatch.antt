-- ===== src/Thea/Dispatch.antt =====
-- Everything that changes the state of pallets/thea/src/lib.rs, as one step function.
use polkadex_node.Prelude.{ℕ, ◌+◌, Bool, List, [], ◌∷◌}
use polkadex_node.Frame.{Origin}
use polkadex_node.Thea.Types.{Message, State, Runtime}
use polkadex_node.Thea.Outgoing.{send_thea_message, submit_signed_outgoing_messages}
use polkadex_node.Thea.Incoming.{
  submit_incoming_message, on_initialize, report_misbehaviour, handle_misbehaviour,
}
use polkadex_node.Thea.Networks.{
  update_incoming_nonce, update_outgoing_nonce, add_thea_network, remove_thea_network,
  add_relayer_origin_for_network,
}
use polkadex_node.Thea.Session.{on_new_session}

-- The dispatchable calls, a new session, and a new block with its hook.
pub data Request : Type 0 where
  submits_incoming : Origin → Message → ℕ → Request
  sends : Origin → List ℕ → ℕ → Request
  updates_incoming updates_outgoing : Origin → ℕ → ℕ → Request
  adds_network : Origin → ℕ → Bool → ℕ → ℕ → ℕ → Request
  removes_network : Origin → ℕ → Request
  submits_signed : Origin → ℕ → ℕ → List (ℕ × ℕ × ℕ) → Request
  reports : Origin → ℕ → ℕ → Request
  handles : Origin → ℕ → ℕ → Bool → Request
  adds_relayer : Origin → ℕ → ℕ → Request
  starts_session : List ℕ → List ℕ → Request
  starts_block : Request

module _ (r : Runtime) where
  open r use {Ledger}

  unfoldable pub execute : Request → State Ledger → State Ledger
  execute (submits_incoming origin payload stake) s =
      (submit_incoming_message r origin payload stake s).1
  execute (sends origin bytes network) s = (send_thea_message r origin bytes network s).1
  execute (updates_incoming origin nonce network) s =
      (update_incoming_nonce r origin nonce network s).1
  execute (updates_outgoing origin nonce network) s =
      (update_outgoing_nonce r origin nonce network s).1
  execute (adds_network origin network is_evm fork_period min_stake fisherman_stake) s =
      (add_thea_network r origin network is_evm fork_period min_stake fisherman_stake s).1
  execute (removes_network origin network) s = (remove_thea_network r origin network s).1
  execute (submits_signed origin auth_index id signatures) s =
      (submit_signed_outgoing_messages r origin auth_index id signatures s).1
  execute (reports origin network nonce) s = (report_misbehaviour r origin network nonce s).1
  execute (handles origin network nonce acceptance) s =
      (handle_misbehaviour r origin network nonce acceptance s).1
  execute (adds_relayer origin network relayer) s =
      (add_relayer_origin_for_network r origin network relayer s).1
  execute (starts_session validators queued) s = on_new_session r validators queued s
  execute starts_block s =
      let now = s.block_number + 1 in on_initialize r now (record s { block_number = now })

  unfoldable pub run : List Request → State Ledger → State Ledger
  run [] s = s
  run (q ∷ qs) s = run qs (execute q s)
