-- ===== src/Thea/Outbox.antt =====
-- Invariants of the outgoing messages: what holds after an enqueued message and after a raised
-- nonce holds after every operation of pallets/thea/src/lib.rs.
use polkadex_node.Prelude.{
  ℕ, ◌+◌, ◌≤◌, ◌≡◌, refl, ◌⊎◌, inl, inr, Bool, true, false, not, ◌&&◌, List, [], ◌∷◌, none, some,
  arith, leb, update, contains, Bool-cases, Option-cases, u64_mod, saturating_add, set_eq, set_from,
  wrapping_add,
}
use polkadex_node.Frame.{ok, err, Origin, root, signed, unsigned}
use polkadex_node.Thea.Types.{
  Message, State, Runtime, new_validator_set, PayloadType, l1_deposit,
  unable_to_generate_validator_set, Error, bad_origin, outgoing_message_slot_occupied,
  outgoing_nonce_below_finalized,
}
use polkadex_node.Thea.Outgoing.{
  deposit_event, generate_payload, enqueue, execute_withdrawals, send_thea_message,
}
use polkadex_node.Thea.Session.{
  rotation_keys, schedule, schedule_all, reset_all, announce_all, schedule_change, install,
  change_authorities, on_new_session, truncate_from,
}
use polkadex_node.Thea.Frames.{
  SameOutgoing, submit_incoming-SameOutgoing, on_initialize-SameOutgoing, report-SameOutgoing,
  handle-SameOutgoing, submit_signed-SameOutgoing, update_incoming-SameOutgoing,
  add_network-SameOutgoing, remove_network-SameOutgoing, add_relayer-SameOutgoing,
  reset_all-SameOutgoing,
}
use polkadex_node.Thea.Networks.{update_outgoing_nonce}
use polkadex_node.Thea.Dispatch.{
  Request, submits_incoming, sends, updates_incoming, updates_outgoing, adds_network,
  removes_network, submits_signed, reports, handles, adds_relayer, starts_session, starts_block,
  execute, run,
}

module _ (r : Runtime) where
  open r use {Ledger}

  -- A message that is enqueued takes the next nonce of its network; the executor of withdrawals
  -- refuses where the slot is taken.
  pub withdrawals-cases :
      (network : ℕ) (bytes : List ℕ) (s : State Ledger)
      → let next = saturating_add u64_mod (s.outgoing_nonce network) 1 in
        let out = execute_withdrawals r network bytes s in
        ((old : Message) × (s.outgoing_messages network next ≡ some old)
          × (out ≡ (err outgoing_message_slot_occupied, s)))
        ⊎ ((s.outgoing_messages network next ≡ none)
            × (out ≡ (ok tt, enqueue r network (generate_payload r l1_deposit network bytes s) s)))
  unfolding execute_withdrawals generate_payload
  withdrawals-cases network bytes s =
      let next = saturating_add u64_mod (s.outgoing_nonce network) 1 in
      elim (Option-cases (s.outgoing_messages network next)) [
        | inl free ↦ inr (free, ground arith)
        | inr (old, taken) ↦ inl (old, taken, ground arith)
      ]

  pub send_free :
      (bytes : List ℕ) (network : ℕ) (s : State Ledger)
      → s.outgoing_messages network (saturating_add u64_mod (s.outgoing_nonce network) 1) ≡ none
      → send_thea_message r root bytes network s
        ≡ (ok tt, enqueue r network (generate_payload r l1_deposit network bytes s) s)
  unfolding send_thea_message execute_withdrawals generate_payload
  send_free bytes network s free = ground arith

  sends-cases :
      (origin : Origin) (bytes : List ℕ) (network : ℕ) (s : State Ledger)
      → let out = send_thea_message r origin bytes network s in
        ((e : Error) × (out ≡ (err e, s)))
        ⊎ ((origin ≡ root)
            × (out ≡ (ok tt, enqueue r network (generate_payload r l1_deposit network bytes s) s)))
  unfolding send_thea_message execute_withdrawals generate_payload
  sends-cases root bytes network s =
      let next = saturating_add u64_mod (s.outgoing_nonce network) 1 in
      elim (Option-cases (s.outgoing_messages network next)) [
        | inl free ↦ inr (refl, send_free bytes network s free)
        | inr (old, taken) ↦ inl (outgoing_message_slot_occupied, ground arith)
      ]
  sends-cases (signed who) bytes network s = inl (bad_origin, refl)
  sends-cases unsigned bytes network s = inl (bad_origin, refl)

  -- A network that gets no keys is only noted.
  abbrev noted : ℕ → State Ledger → State Ledger
  noted network s = deposit_event r (unable_to_generate_validator_set network) s

  -- The nonce of a network is raised.
  abbrev pub raised : ℕ → ℕ → State Ledger → State Ledger
  raised network nonce s = record s { outgoing_nonce = update s.outgoing_nonce network nonce }

  pub raise-cases :
      (origin : Origin) (nonce network : ℕ) (s : State Ledger)
      → let out = update_outgoing_nonce r origin nonce network s in
        ((e : Error) × (out ≡ (err e, s)))
        ⊎ ((s.outgoing_nonce network ≤ nonce) × (out ≡ (ok tt, raised network nonce s)))
  unfolding update_outgoing_nonce
  raise-cases root nonce network s = elim (Bool-cases (leb (s.outgoing_nonce network) nonce)) [
    | inl up ↦ inr (ground arith, ground arith)
    | inr down ↦ inl (outgoing_nonce_below_finalized, ground arith)
  ]
  raise-cases (signed who) nonce network s = inl (bad_origin, refl)
  raise-cases unsigned nonce network s = inl (bad_origin, refl)

  module _ (P : State Ledger → Type 0)
      (same-P : (s s' : State Ledger) → SameOutgoing r s s' → P s → P s')
      (enqueue-P : (network : ℕ) (payload_type : PayloadType) (bytes : List ℕ) (s : State Ledger)
        → P s
        → P (enqueue r network (generate_payload r payload_type network bytes s) s))
      (raise-P : (network nonce : ℕ) (s : State Ledger)
        → s.outgoing_nonce network ≤ nonce
        → P s
        → P (raised network nonce s)) where
    schedule_all-P :
        (queued : List ℕ) (new_id : ℕ) (networks : List ℕ) (scheduled : List ℕ) (s : State Ledger)
        → P s
        → P (schedule_all r queued new_id networks (scheduled, s)).1
    unfolding schedule_all schedule
    schedule_all-P queued new_id [] scheduled s h = h
    schedule_all-P queued new_id (network ∷ rest) scheduled s h =
        elim (Option-cases (
          new_validator_set (rotation_keys r (s.network_config network).network_type queued)
            new_id)) [
              | inl missing ↦
                  rw (schedule_all, missing, schedule)
                    (schedule_all-P queued new_id rest scheduled (noted network s)
                      (same-P s (noted network s) (refl, refl) h))
              | inr (set, made) ↦
                  rw (schedule_all, made, schedule)
                    (schedule_all-P queued new_id rest _ _ (enqueue-P network _ _ s h))
            ]

    announce_all-P :
        (block1_ran : Bool) (scheduled networks : List ℕ) (s : State Ledger)
        → P s
        → P (announce_all r block1_ran scheduled networks s)
    unfolding announce_all
    announce_all-P block1_ran scheduled [] s h = h
    announce_all-P block1_ran scheduled (network ∷ rest) s h =
        elim (Bool-cases (block1_ran && not (contains network scheduled))) [
          | inl missed ↦
              rw (announce_all, missed)
                (announce_all-P block1_ran scheduled rest (noted network s)
                  (same-P s (noted network s) (refl, refl) h))
          | inr told ↦
              rw (announce_all, told)
                (announce_all-P block1_ran scheduled rest _ (enqueue-P network _ _ s h))
        ]

    schedule_change-P :
        (block1_ran : Bool) (new_id : ℕ) (queued : List ℕ) (s : State Ledger)
        → P s
        → P (schedule_change r block1_ran new_id queued s).1
    unfolding schedule_change
    schedule_change-P true new_id queued s h =
        let s' = (schedule_all r queued new_id s.active_networks ([], s)).1 in
        same-P s' (record s' { next_authorities = queued }) (refl, refl)
          (schedule_all-P queued new_id s.active_networks [] s h)
    schedule_change-P false new_id queued s h = h

    activate-P :
        (block1_ran : Bool) (new_id : ℕ) (incoming scheduled networks : List ℕ) (s : State Ledger)
        → P s
        → P (
            announce_all r block1_ran scheduled networks
              (reset_all r new_id networks (install r new_id incoming s)))
    unfolding install
    activate-P block1_ran new_id incoming scheduled networks s h =
        let s₁ = install r new_id incoming s in
        let s₂ = reset_all r new_id networks s₁ in
        announce_all-P block1_ran scheduled networks s₂
          (same-P s₁ s₂ (reset_all-SameOutgoing r new_id networks s₁) (same-P s s₁ (refl, refl) h))

    change_authorities-P :
        (incoming queued : List ℕ) (s : State Ledger)
        → P s
        → P (change_authorities r incoming queued s)
    unfolding change_authorities
    change_authorities-P incoming queued s h =
        let new_id = wrapping_add u64_mod s.validator_set_id 1 in
        let ran = not (set_eq (set_from incoming) (set_from queued)) in
        let made = schedule_change r ran new_id queued s in
        let fresh = schedule_change-P ran new_id queued s h in
        elim (Bool-cases
          (set_eq (set_from incoming) (set_from (s.authorities s.validator_set_id)))) [
            | inl same ↦ rw (change_authorities, same) fresh
            | inr new ↦
                rw (change_authorities, new)
                  (activate-P ran new_id incoming made.0 s.active_networks made.1 fresh)
          ]

    withdrawals-P :
        (network : ℕ) (bytes : List ℕ) (s : State Ledger)
        → P s
        → P (execute_withdrawals r network bytes s).1
    withdrawals-P network bytes s h = elim (withdrawals-cases network bytes s) [
      | inl (old, _, failed) ↦ rw failed h
      | inr (_, done) ↦ rw done (enqueue-P network l1_deposit bytes s h)
    ]

    sends-P :
        (origin : Origin) (bytes : List ℕ) (network : ℕ) (s : State Ledger)
        → P s
        → P (send_thea_message r origin bytes network s).1
    sends-P origin bytes network s h = elim (sends-cases origin bytes network s) [
      | inl (e, failed) ↦ rw failed h
      | inr (_, done) ↦ rw done (enqueue-P network l1_deposit bytes s h)
    ]

    raise-execute-P :
        (origin : Origin) (nonce network : ℕ) (s : State Ledger)
        → P s
        → P (update_outgoing_nonce r origin nonce network s).1
    raise-execute-P origin nonce network s h = elim (raise-cases origin nonce network s) [
      | inl (e, failed) ↦ rw failed h
      | inr (up, done) ↦ rw done (raise-P network nonce s up h)
    ]

    execute-P : (q : Request) (s : State Ledger) → P s → P (execute r q s)
    unfolding execute on_new_session change_authorities
    execute-P (submits_incoming origin payload stake) s h =
        same-P s _ (submit_incoming-SameOutgoing r origin payload stake s) h
    execute-P (sends origin bytes network) s h = sends-P origin bytes network s h
    execute-P (updates_incoming origin nonce network) s h =
        same-P s _ (update_incoming-SameOutgoing r origin nonce network s) h
    execute-P (updates_outgoing origin nonce network) s h = raise-execute-P origin nonce network s h
    execute-P (adds_network origin network is_evm fork_period min_stake fisherman_stake) s h =
        same-P s _
          (add_network-SameOutgoing r origin network is_evm fork_period min_stake fisherman_stake s)
          h
    execute-P (removes_network origin network) s h =
        same-P s _ (remove_network-SameOutgoing r origin network s) h
    execute-P (submits_signed origin auth_index id signatures) s h =
        same-P s _ (submit_signed-SameOutgoing r origin auth_index id signatures s) h
    execute-P (reports origin network nonce) s h =
        same-P s _ (report-SameOutgoing r origin network nonce s) h
    execute-P (handles origin network nonce acceptance) s h =
        same-P s _ (handle-SameOutgoing r origin network nonce acceptance s) h
    execute-P (adds_relayer origin network relayer) s h =
        same-P s _ (add_relayer-SameOutgoing r origin network relayer s) h
    execute-P (starts_session validators queued) s h =
        change_authorities-P (truncate_from r validators) (truncate_from r queued) s h
    execute-P starts_block s h =
        let s₁ = record s { block_number = s.block_number + 1 } in
        same-P s₁ _ (on_initialize-SameOutgoing r (s.block_number + 1) s₁)
          (same-P s s₁ (refl, refl) h)

    pub run-P : (qs : List Request) (s : State Ledger) → P s → P (run r qs s)
    unfolding run
    run-P [] s h = h
    run-P (q ∷ qs) s h = run-P qs (execute r q s) (execute-P q s h)
