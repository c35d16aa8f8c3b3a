-- ===== src/Thea/Reports.antt =====
-- The fishermen of pallets/thea/src/lib.rs: `report_misbehaviour` takes a message from the queue,
-- and `handle_misbehaviour` puts it back or ends it.
use polkadex_node.Prelude.{
  ℕ, ◌≤◌, ◌≡◌, refl, ◌⊎◌, inl, inr, true, false, none, some, arith, ltb, update₂, Bool-cases,
  Option-cases,
}
use polkadex_node.Frame.{ok, err, Result-cases, Origin, root, signed, unsigned}
use polkadex_node.Thea.Types.{
  IncomingMessage, MisbehaviourReport, State, Runtime, Error, bad_origin, dispatch,
  not_enough_stake, message_not_found, message_already_executed, misbehaviour_reported,
}
use polkadex_node.Thea.Incoming.{
  on_ledger, report_taken, report_misbehaviour, judge, handle_misbehaviour,
}
use polkadex_node.Thea.Outgoing.{deposit_event, is_some}

module _ (r : Runtime) where
  open r use {Ledger, hold, release, transfer, burn_from, is_governance, reducible_balance}

  -- The state after a report: the message has left the queue for the reports, and the fisherman's
  -- stake is on hold.
  abbrev pub reported : ℕ → ℕ → ℕ → IncomingMessage → Ledger → State Ledger → State Ledger
  reported fisherman network nonce msg l s =
      let stake = (s.network_config network).fisherman_stake in
      deposit_event r (misbehaviour_reported fisherman network nonce) (record s {
        ledger = l;
        incoming_messages_queue = update₂ s.incoming_messages_queue network nonce none;
        misbehaviour_reports =
            update₂ s.misbehaviour_reports network nonce
              (some (record { reported_msg = msg; fisherman = fisherman; stake = stake }));
      })

  -- A report fails and undoes everything, or it is signed by an account that can afford the stake,
  -- and it takes the queued message.
  pub report-cases :
      (origin : Origin) (network nonce : ℕ) (s : State Ledger)
      → let out = report_misbehaviour r origin network nonce s in
        ((e : Error) × (out ≡ (err e, s)))
        ⊎ ((who : ℕ) × (msg : IncomingMessage) × (l : Ledger) × (origin ≡ signed who)
            × ((s.network_config network).fisherman_stake ≤ reducible_balance s.ledger who)
            × (hold who (s.network_config network).fisherman_stake s.ledger ≡ ok l)
            × (s.incoming_messages_queue network nonce ≡ some msg)
            × (out ≡ (ok tt, reported who network nonce msg l s)))
  unfolding report_misbehaviour report_taken on_ledger
  report-cases root network nonce s = inl (bad_origin, refl)
  report-cases unsigned network nonce s = inl (bad_origin, refl)
  report-cases (signed who) network nonce s =
      elim (Bool-cases
        (ltb (reducible_balance s.ledger who) (s.network_config network).fisherman_stake)) [
          | inl poor ↦ inl (not_enough_stake, ground arith)
          | inr able ↦
              elim (Result-cases (hold who (s.network_config network).fisherman_stake s.ledger)) [
                | inr (e, failed) ↦ inl (dispatch e, ground arith)
                | inl (l, held) ↦ elim (Option-cases (s.incoming_messages_queue network nonce)) [
                  | inr (msg, there) ↦
                      inr (who, msg, l, refl, ground arith, held, there, ground arith)
                  | inl missing ↦ elim (Bool-cases (is_some (s.incoming_messages network nonce))) [
                    | inl executed ↦ inl (message_already_executed, ground arith)
                    | inr unknown ↦ inl (message_not_found, ground arith)
                  ]
                ]
              ]
        ]

  -- The state without the report.
  abbrev pub judged : ℕ → ℕ → State Ledger → State Ledger
  judged network nonce s = record s {
    misbehaviour_reports = update₂ s.misbehaviour_reports network nonce none;
  }

  -- A rejected report: it succeeds only by governance, where it puts the message back in the queue
  -- and burns the fisherman's stake.
  pub reject-cases :
      (origin : Origin) (network nonce : ℕ) (report : MisbehaviourReport) (s : State Ledger)
      → s.misbehaviour_reports network nonce ≡ some report
      → let out = handle_misbehaviour r origin network nonce false s in
        ((e : Error) × (out ≡ (err e, s)))
        ⊎ ((l : Ledger) × (is_governance origin ≡ true)
            × (burn_from report.fisherman report.stake s.ledger ≡ ok l)
            × (out ≡ (
              ok tt,
              record (judged network nonce s) {
                ledger = l;
                incoming_messages_queue =
                    update₂ s.incoming_messages_queue report.reported_msg.message.network
                      report.reported_msg.message.nonce
                      (some report.reported_msg);
              },
            )))
  unfolding handle_misbehaviour judge on_ledger
  reject-cases origin network nonce report s there = elim (Bool-cases (is_governance origin)) [
    | inr other ↦ inl (bad_origin, ground arith)
    | inl may ↦ elim (Result-cases (burn_from report.fisherman report.stake s.ledger)) [
      | inr (e, failed) ↦ inl (dispatch e, ground arith)
      | inl (l, burnt) ↦ inr (l, may, burnt, ground arith)
    ]
  ]

  -- An accepted report: it succeeds only by governance, where the relayer's stake is released and
  -- paid to the fisherman, whose own stake is released, and the message is gone.
  pub accept-cases :
      (origin : Origin) (network nonce : ℕ) (report : MisbehaviourReport) (s : State Ledger)
      → s.misbehaviour_reports network nonce ≡ some report
      → let out = handle_misbehaviour r origin network nonce true s in
        let bad = report.reported_msg in
        ((e : Error) × (out ≡ (err e, s)))
        ⊎ ((l l' l'' : Ledger) × (is_governance origin ≡ true)
            × (release bad.relayer bad.stake s.ledger ≡ ok l)
            × (transfer bad.relayer report.fisherman bad.stake l ≡ ok l')
            × (release report.fisherman report.stake l' ≡ ok l'')
            × (out ≡ (ok tt, record (judged network nonce s) { ledger = l'' })))
  unfolding handle_misbehaviour judge on_ledger
  accept-cases origin network nonce report s there = elim (Bool-cases (is_governance origin)) [
    | inr other ↦ inl (bad_origin, ground arith)
    | inl may ↦
        let bad = report.reported_msg in
        elim (Result-cases (release bad.relayer bad.stake s.ledger)) [
          | inr (e, failed) ↦ inl (dispatch e, ground arith)
          | inl (l, freed) ↦
              elim (Result-cases (transfer bad.relayer report.fisherman bad.stake l)) [
                | inr (e, failed) ↦ inl (dispatch e, ground arith)
                | inl (l', paid) ↦ elim (Result-cases (release report.fisherman report.stake l')) [
                  | inr (e, failed) ↦ inl (dispatch e, ground arith)
                  | inl (l'', done) ↦ inr (l, l', l'', may, freed, paid, done, ground arith)
                ]
              ]
        ]
  ]
