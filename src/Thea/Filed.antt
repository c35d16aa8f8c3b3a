-- ===== src/Thea/Filed.antt =====
-- Where messages stand in the queue and the reports of pallets/thea/src/lib.rs, and what a report
-- and its rejection do to the queue.
use polkadex_node.Prelude.{ℕ, ◌≡◌, refl, inl, inr, false, [], ◌∷◌, Option, none, some, arith, subst}
use polkadex_node.Frame.{ok, Origin, signed}
use polkadex_node.Thea.Types.{IncomingMessage, MisbehaviourReport, State, Runtime}
use polkadex_node.Thea.Incoming.{
  report_misbehaviour, handle_misbehaviour, process_network, process_taken, on_initialize,
}
use polkadex_node.Thea.Execution.{next_incoming, one_network}
use polkadex_node.Thea.Reports.{report-cases, reject-cases, reported}

module _ (r : Runtime) where
  open r use {Ledger}

  -- A message is queued under its own network and nonce.
  abbrev pub IsFiledAt : ℕ → ℕ → Option IncomingMessage → Type 0
  IsFiledAt network nonce none = Unit
  IsFiledAt network nonce (some m) = (m.message.network ≡ network) × (m.message.nonce ≡ nonce)

  put_back :
      (who network nonce : ℕ) (origin : Origin) (msg : IncomingMessage) (l : Ledger)
      (s : State Ledger)
      → s.incoming_messages_queue network nonce ≡ some msg
      → msg.message.network ≡ network
      → msg.message.nonce ≡ nonce
      → let out =
          handle_misbehaviour r origin network nonce false (reported r who network nonce msg l s) in
        out.0 ≡ ok tt
        → ((n k : ℕ) → out.1.incoming_messages_queue n k ≡ s.incoming_messages_queue n k)
          × (out.1.misbehaviour_reports network nonce ≡ none)
  put_back who network nonce origin msg l s there home index rejects =
      let report : MisbehaviourReport = record {
        reported_msg = msg;
        fisherman = who;
        stake = (s.network_config network).fisherman_stake;
      } in
      elim (reject-cases r origin network nonce report (reported r who network nonce msg l s)
        (ground arith)) [
          | inl (e, failed) ↦ absurd (ground (arith, failed, rejects))
          | inr (l', _, _, done) ↦ rw done (λ n k. ground arith, ground arith)
        ]

  -- A message that stands under its own network and nonce, is reported and is given back by
  -- governance stands in the queue where it stood: every slot of the queue is as before the
  -- report, and the report is gone.
  pub rejected_report_restores :
      (who network nonce : ℕ) (origin : Origin) (s : State Ledger)
      → IsFiledAt network nonce (s.incoming_messages_queue network nonce)
      → (report_misbehaviour r (signed who) network nonce s).0 ≡ ok tt
      → let s₁ = (report_misbehaviour r (signed who) network nonce s).1 in
        (handle_misbehaviour r origin network nonce false s₁).0 ≡ ok tt
        → let s₂ = (handle_misbehaviour r origin network nonce false s₁).1 in
          ((n k : ℕ) → s₂.incoming_messages_queue n k ≡ s.incoming_messages_queue n k)
          × (s₂.misbehaviour_reports network nonce ≡ none)
  rejected_report_restores who network nonce origin s filed reports rejects =
      elim (report-cases r (signed who) network nonce s) [
        | inl (e, failed) ↦ absurd (ground (arith, failed, reports))
        | inr (who', msg, l, _, _, _, there, done) ↦
            let at : IsFiledAt network nonce (some msg) =
              subst (IsFiledAt network nonce) there filed in
            rw done (
              put_back who' network nonce origin msg l s there at.0 at.1 (
                subst (λ out. (handle_misbehaviour r origin network nonce false out.1).0 ≡ ok tt)
                  done rejects))
      ]

  nothing_next :
      (blk network : ℕ) (s : State Ledger)
      → s.active_networks ≡ network ∷ []
      → s.incoming_messages_queue network (next_incoming r network s) ≡ none
      → let s' = on_initialize r blk s in
        (s'.incoming_nonce ≡ s.incoming_nonce)
        × (s'.incoming_messages ≡ s.incoming_messages)
        × (s'.ledger ≡ s.ledger)
  unfolding process_network process_taken
  nothing_next blk network s only free =
      rw (one_network r blk network s only, process_network, free, process_taken) (refl, refl, refl)

  -- A message that is next and is reported in time is not executed: with one active network, the
  -- `on_initialize` of any block after the report leaves the nonce of every network, the archive and
  -- the ledger as the report left them, the first two also as they were before it.
  pub reported_message_waits :
      (who blk network : ℕ) (s : State Ledger)
      → s.active_networks ≡ network ∷ []
      → (report_misbehaviour r (signed who) network (next_incoming r network s) s).0 ≡ ok tt
      → let s₁ = (report_misbehaviour r (signed who) network (next_incoming r network s) s).1 in
        let s₂ = on_initialize r blk s₁ in
        (s₂.incoming_nonce ≡ s.incoming_nonce)
        × (s₂.incoming_messages ≡ s.incoming_messages)
        × (s₂.ledger ≡ s₁.ledger)
  reported_message_waits who blk network s only reports =
      elim (report-cases r (signed who) network (next_incoming r network s) s) [
        | inl (e, failed) ↦ absurd (ground (arith, failed, reports))
        | inr (who', msg, l, _, _, _, there, done) ↦ rw done (
            nothing_next blk network (reported r who' network (next_incoming r network s) msg l s)
              only (ground arith))
      ]
