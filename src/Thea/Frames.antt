-- ===== src/Thea/Frames.antt =====
-- The operations of pallets/thea/src/lib.rs that leave the outgoing messages as they are.
use polkadex_node.Prelude.{
  ℕ, zero, suc, ◌+◌, ◌-◌, ◌≡◌, refl, inl, inr, Bool, true, false, List, [], ◌∷◌, Option, none, some,
  arith, leb, update₂, Bool-cases, ◌∙◌, Option-cases, saturating_add, u64_mod, min, u32_mod, length,
}
use polkadex_node.Frame.{Result, ok, err, Result-cases, Origin, root, signed, unsigned}
use polkadex_node.Thea.Types.{Message, SignedMessage, IncomingMessage, State, Runtime}
use polkadex_node.Thea.Signed.{add_signature, threshold_reached}
use polkadex_node.Thea.Outgoing.{store_signature, submit_loop, submit_signed_outgoing_messages}
use polkadex_node.Thea.Finality.{
  store-outgoing, submit_loop-cons, submit_loop-missing, submit_signed-cases,
}
use polkadex_node.Thea.Incoming.{
  release_stake, settle, process_taken, process_network, process_networks, on_initialize,
  submit_incoming_message, report_misbehaviour, handle_misbehaviour, judge,
}
use polkadex_node.Thea.Stakes.{submit_incoming-cases}
use polkadex_node.Thea.Reports.{report-cases, reject-cases, accept-cases}
use polkadex_node.Thea.Networks.{
  update_incoming_nonce, add_thea_network, remove_thea_network, add_relayer_origin_for_network,
}
use polkadex_node.Thea.Session.{reset_entry, reset_range, reset_all}

module _ (r : Runtime) where
  open r use {Ledger, release, execute_deposits, is_governance}

  -- The outgoing messages and their nonces are as before.
  abbrev pub SameOutgoing : State Ledger → State Ledger → Type 0
  SameOutgoing s s' =
      (s'.outgoing_nonce ≡ s.outgoing_nonce) × (s'.outgoing_messages ≡ s.outgoing_messages)

  pub SameOutgoing-trans :
      (s s' s'' : State Ledger) → SameOutgoing s s' → SameOutgoing s' s'' → SameOutgoing s s''
  SameOutgoing-trans s s' s'' (a, b) (c, d) = (c ∙ a, d ∙ b)

  pub submit_incoming-SameOutgoing :
      (origin : Origin) (payload : Message) (stake : ℕ) (s : State Ledger)
      → SameOutgoing s (submit_incoming_message r origin payload stake s).1
  submit_incoming-SameOutgoing origin payload stake s =
      elim (submit_incoming-cases r origin payload stake s) [
        | inl (e, failed) ↦ rw failed (refl, refl)
        | inr (who, _, _, _, success, outcome) ↦ elim outcome [
          | inl (e, failed) ↦ absurd (ground (arith, failed, success))
          | inr (inl (_, (l, _, done))) ↦ rw done (refl, refl)
          | inr (inr (inl (old, _, _, (l, l', _, _, done)))) ↦ rw done (refl, refl)
          | inr (inr (inr (old, _, _, done))) ↦ rw done (refl, refl)
        ]
      ]

  release_stake-SameOutgoing :
      (msg : IncomingMessage) (s : State Ledger) → SameOutgoing s (release_stake r msg s)
  unfolding release_stake
  release_stake-SameOutgoing msg s = elim (Result-cases (release msg.relayer msg.stake s.ledger)) [
    | inl (l, e) ↦ rw (release_stake, e) (refl, refl)
    | inr (e, failed) ↦ rw (release_stake, failed) (refl, refl)
  ]

  settle-SameOutgoing :
      (msg : IncomingMessage) (out : Result ℕ (Unit {0}) × Ledger) (s : State Ledger)
      → SameOutgoing s (settle r msg out s)
  unfolding settle
  settle-SameOutgoing msg (ok tt, written) s = release_stake-SameOutgoing msg _
  settle-SameOutgoing msg (err e, written) s = release_stake-SameOutgoing msg _

  process_taken-SameOutgoing :
      (blk next_nonce : ℕ) (taken : Option IncomingMessage) (s : State Ledger)
      → SameOutgoing s (process_taken r blk next_nonce taken s)
  unfolding process_taken
  process_taken-SameOutgoing blk next_nonce none s = (refl, refl)
  process_taken-SameOutgoing blk next_nonce (some msg) s =
      elim (Bool-cases (leb msg.execute_at (min blk (u32_mod - 1)))) [
        | inl due ↦ rw (process_taken, due) (settle-SameOutgoing msg _ _)
        | inr early ↦ rw (process_taken, early) (refl, refl)
      ]

  process_networks-SameOutgoing :
      (blk : ℕ) (networks : List ℕ) (s : State Ledger)
      → SameOutgoing s (process_networks r blk networks s)
  unfolding process_networks process_network
  process_networks-SameOutgoing blk [] s = (refl, refl)
  process_networks-SameOutgoing blk (network ∷ rest) s =
      let next = saturating_add u64_mod (s.incoming_nonce network) 1 in
      let without = record s {
        incoming_messages_queue = update₂ s.incoming_messages_queue network next none;
      } in
      let s' = process_network r blk network s in
      SameOutgoing-trans s s' (process_networks r blk rest s')
        (process_taken-SameOutgoing blk next (s.incoming_messages_queue network next) without)
        (process_networks-SameOutgoing blk rest s')

  pub on_initialize-SameOutgoing :
      (blk : ℕ) (s : State Ledger) → SameOutgoing s (on_initialize r blk s)
  unfolding on_initialize
  on_initialize-SameOutgoing blk s = process_networks-SameOutgoing blk s.active_networks s

  pub report-SameOutgoing :
      (origin : Origin) (network nonce : ℕ) (s : State Ledger)
      → SameOutgoing s (report_misbehaviour r origin network nonce s).1
  report-SameOutgoing origin network nonce s = elim (report-cases r origin network nonce s) [
    | inl (e, failed) ↦ rw failed (refl, refl)
    | inr (_, _, _, _, _, _, _, done) ↦ rw done (refl, refl)
  ]

  handle_nothing-SameOutgoing :
      (origin : Origin) (network nonce : ℕ) (acceptance : Bool) (s : State Ledger)
      → s.misbehaviour_reports network nonce ≡ none
      → SameOutgoing s (handle_misbehaviour r origin network nonce acceptance s).1
  unfolding handle_misbehaviour judge
  handle_nothing-SameOutgoing origin network nonce acceptance s missing =
      elim (Bool-cases (is_governance origin)) [
        | inl may ↦ (ground arith, ground arith)
        | inr other ↦ (ground arith, ground arith)
      ]

  pub handle-SameOutgoing :
      (origin : Origin) (network nonce : ℕ) (acceptance : Bool) (s : State Ledger)
      → SameOutgoing s (handle_misbehaviour r origin network nonce acceptance s).1
  handle-SameOutgoing origin network nonce true s =
      elim (Option-cases (s.misbehaviour_reports network nonce)) [
        | inl missing ↦ handle_nothing-SameOutgoing origin network nonce true s missing
        | inr (report, there) ↦ elim (accept-cases r origin network nonce report s there) [
          | inl (e, failed) ↦ rw failed (refl, refl)
          | inr (_, _, _, _, _, _, _, done) ↦ rw done (refl, refl)
        ]
      ]
  handle-SameOutgoing origin network nonce false s =
      elim (Option-cases (s.misbehaviour_reports network nonce)) [
        | inl missing ↦ handle_nothing-SameOutgoing origin network nonce false s missing
        | inr (report, there) ↦ elim (reject-cases r origin network nonce report s there) [
          | inl (e, failed) ↦ rw failed (refl, refl)
          | inr (_, _, _, done) ↦ rw done (refl, refl)
        ]
      ]

  store-outgoing_nonce :
      (auth_len id auth_index at nonce signature : ℕ) (message : Message) (o : Option SignedMessage)
      (s : State Ledger)
      → (store_signature r auth_len id auth_index at nonce signature message o s).outgoing_nonce
        ≡ s.outgoing_nonce
  unfolding store_signature
  store-outgoing_nonce auth_len id auth_index at nonce signature message none s = refl
  store-outgoing_nonce auth_len id auth_index at nonce signature message (some old) s =
      elim (Bool-cases
        (threshold_reached auth_len (add_signature message id auth_index signature old))) [
          | inl reached ↦ rw (reached, store_signature)
          | inr short ↦ rw (short, store_signature)
        ]

  submit_loop-SameOutgoing :
      (auth_len id auth_index : ℕ) (signatures : List (ℕ × ℕ × ℕ)) (s : State Ledger)
      → SameOutgoing s (submit_loop r auth_len id auth_index signatures s).1
  submit_loop-SameOutgoing auth_len id auth_index [] s = unfold submit_loop in (refl, refl)
  submit_loop-SameOutgoing auth_len id auth_index ((at, nonce, signature) ∷ rest) s =
      elim (Option-cases (s.outgoing_messages at nonce)) [
        | inl missing ↦
            rw (submit_loop-missing r auth_len id auth_index at nonce signature rest s missing)
              (refl, refl)
        | inr (message, there) ↦
            let o = s.signed_outgoing_messages at nonce in
            let s' = store_signature r auth_len id auth_index at nonce signature message o s in
            rw (submit_loop-cons r auth_len id auth_index at nonce signature rest message s there) (
              SameOutgoing-trans s s' (submit_loop r auth_len id auth_index rest s').1
                (
                  store-outgoing_nonce auth_len id auth_index at nonce signature message o s,
                  store-outgoing r auth_len id auth_index at nonce signature message o s,
                )
                (submit_loop-SameOutgoing auth_len id auth_index rest s'))
      ]

  pub submit_signed-SameOutgoing :
      (origin : Origin) (auth_index id : ℕ) (signatures : List (ℕ × ℕ × ℕ)) (s : State Ledger)
      → SameOutgoing s (submit_signed_outgoing_messages r origin auth_index id signatures s).1
  submit_signed-SameOutgoing origin auth_index id signatures s =
      elim (submit_signed-cases r origin auth_index id signatures s) [
        | inl (e, same) ↦ rw same (refl, refl)
        | inr (_, _, _, done) ↦ rw done (
            submit_loop-SameOutgoing (length (s.authorities s.validator_set_id)) id auth_index
              signatures s)
      ]

  reset_range-SameOutgoing :
      (new_id network first count : ℕ) (s : State Ledger)
      → SameOutgoing s (reset_range r new_id network first count s)
  unfolding reset_range
  reset_range-SameOutgoing new_id network first zero s = (refl, refl)
  reset_range-SameOutgoing new_id network first (suc count) s =
      reset_range-SameOutgoing new_id network (suc first) count (record s {
        signed_outgoing_messages =
            update₂ s.signed_outgoing_messages network first
              (reset_entry r new_id (s.signed_outgoing_messages network first));
      })

  pub reset_all-SameOutgoing :
      (new_id : ℕ) (networks : List ℕ) (s : State Ledger)
      → SameOutgoing s (reset_all r new_id networks s)
  unfolding reset_all
  reset_all-SameOutgoing new_id [] s = (refl, refl)
  reset_all-SameOutgoing new_id (network ∷ rest) s =
      let first = saturating_add u64_mod (s.signed_outgoing_nonce network) 1 in
      let s' = reset_range r new_id network first (s.outgoing_nonce network + 1 - first) s in
      SameOutgoing-trans s s' (reset_all r new_id rest s')
        (reset_range-SameOutgoing new_id network first (s.outgoing_nonce network + 1 - first) s)
        (reset_all-SameOutgoing new_id rest s')

  pub update_incoming-SameOutgoing :
      (origin : Origin) (nonce network : ℕ) (s : State Ledger)
      → SameOutgoing s (update_incoming_nonce r origin nonce network s).1
  unfolding update_incoming_nonce
  update_incoming-SameOutgoing root nonce network s = (refl, refl)
  update_incoming-SameOutgoing (signed who) nonce network s = (refl, refl)
  update_incoming-SameOutgoing unsigned nonce network s = (refl, refl)

  pub add_network-SameOutgoing :
      (origin : Origin) (network : ℕ) (is_evm : Bool) (fork_period min_stake fisherman_stake : ℕ)
      (s : State Ledger)
      → SameOutgoing s
          (add_thea_network r origin network is_evm fork_period min_stake fisherman_stake s).1
  unfolding add_thea_network
  add_network-SameOutgoing root network is_evm fork_period min_stake fisherman_stake s =
      (ground arith, ground arith)
  add_network-SameOutgoing (signed who) network is_evm fork_period min_stake fisherman_stake s =
      (refl, refl)
  add_network-SameOutgoing unsigned network is_evm fork_period min_stake fisherman_stake s =
      (refl, refl)

  pub remove_network-SameOutgoing :
      (origin : Origin) (network : ℕ) (s : State Ledger)
      → SameOutgoing s (remove_thea_network r origin network s).1
  unfolding remove_thea_network
  remove_network-SameOutgoing root network s = (refl, refl)
  remove_network-SameOutgoing (signed who) network s = (refl, refl)
  remove_network-SameOutgoing unsigned network s = (refl, refl)

  pub add_relayer-SameOutgoing :
      (origin : Origin) (network relayer : ℕ) (s : State Ledger)
      → SameOutgoing s (add_relayer_origin_for_network r origin network relayer s).1
  unfolding add_relayer_origin_for_network
  add_relayer-SameOutgoing root network relayer s = (refl, refl)
  add_relayer-SameOutgoing (signed who) network relayer s = (refl, refl)
  add_relayer-SameOutgoing unsigned network relayer s = (refl, refl)
