-- ===== src/Thea/Stakes.antt =====
-- The stakes of relayers and fishermen: what `submit_incoming_message`, `report_misbehaviour` and
-- `handle_misbehaviour` of pallets/thea/src/lib.rs do to the queue and to the held balances.
use polkadex_node.Prelude.{
  ℕ, ◌+◌, ◌-◌, ◌≤◌, ◌<◌, ◌≡◌, ◌≢◌, refl, ◌⊎◌, inl, inr, Option, none, some, arith, ltb, update₂,
  Bool-cases, ◌∙◌, ap,
}
use polkadex_node.Frame.{Result, ok, err, Result-cases, Origin, root, signed, unsigned}
use polkadex_node.Thea.Types.{
  Message, IncomingMessage, State, Runtime, HoldLaws, Error, bad_origin, dispatch, not_enough_stake,
  nonce_error,
}
use polkadex_node.Thea.Incoming.{on_ledger, queued, place, submit_incoming_message}

module _ (r : Runtime) where
  open r use {Ledger, hold, release}

  -- The state after a message has taken its slot in the queue, with this ledger.
  abbrev pub accepted : Message → ℕ → ℕ → Ledger → State Ledger → State Ledger
  accepted payload who stake l s = record s {
    ledger = l;
    incoming_messages_queue =
        update₂ s.incoming_messages_queue payload.network payload.nonce
          (some (queued r payload who stake (s.network_config payload.network).fork_period s));
  }

  -- What a slot holds after a submission: the message, in a free slot or in place of a strictly lower
  -- stake, or what was there.
  abbrev pub SlotOutcome :
      Message → ℕ → ℕ → Option IncomingMessage → State Ledger → Option IncomingMessage → Type 0
  SlotOutcome payload who stake slot s slot' =
      ((slot' ≡ some (queued r payload who stake (s.network_config payload.network).fork_period s))
        × ((slot ≡ none) ⊎ ((old : IncomingMessage) × (slot ≡ some old) × (old.stake < stake))))
      ⊎ ((old : IncomingMessage) × (slot ≡ some old) × (stake ≤ old.stake) × (slot' ≡ some old))

  -- What a submission at a slot comes to: an error; the first message there; a message in place of
  -- one with a lower stake; or nothing, where the stake there is no lower.
  abbrev pub PlaceOutcome :
      Message
      → ℕ
      → ℕ
      → Option IncomingMessage
      → State Ledger
      → Result Error (Unit {0}) × State Ledger
      → Type 0
  PlaceOutcome payload who stake slot s out =
      ((e : Error) × (out.0 ≡ err e))
      ⊎ ((slot ≡ none)
          × ((l : Ledger) × (hold who stake s.ledger ≡ ok l)
              × (out ≡ (ok tt, accepted payload who stake l s))))
      ⊎ ((old : IncomingMessage) × (slot ≡ some old)
          × (old.stake < stake)
          × ((l l' : Ledger) × (release old.relayer old.stake s.ledger ≡ ok l)
              × (hold who stake l ≡ ok l')
              × (out ≡ (ok tt, accepted payload who stake l' s))))
      ⊎ ((old : IncomingMessage) × (slot ≡ some old) × (stake ≤ old.stake) × (out ≡ (ok tt, s)))

  place-cases :
      (payload : Message) (who stake : ℕ) (slot : Option IncomingMessage) (s : State Ledger)
      → PlaceOutcome payload who stake slot s
          (place r payload who stake (s.network_config payload.network).fork_period slot s)
  unfolding place on_ledger queued
  place-cases payload who stake none s = elim (Result-cases (hold who stake s.ledger)) [
    | inr (e, failed) ↦ inl (dispatch e, ground arith)
    | inl (l, held) ↦ inr (inl (refl, (l, held, ground arith)))
  ]
  place-cases payload who stake (some old) s = elim (Bool-cases (ltb old.stake stake)) [
    | inr no_more ↦ inr (inr (inr (old, refl, ground arith, ground arith)))
    | inl more ↦ elim (Result-cases (release old.relayer old.stake s.ledger)) [
      | inr (e, failed) ↦ inl (dispatch e, ground arith)
      | inl (l, released) ↦ elim (Result-cases (hold who stake l)) [
        | inr (e, failed) ↦ inl (dispatch e, ground arith)
        | inl (l', held) ↦
            inr (inr (inl (old, refl, ground arith, (l, l', released, held, ground arith))))
      ]
    ]
  ]

  -- A submission fails and undoes everything, or it is signed, stakes enough for its network, is
  -- beyond the executed nonces, and has one of the outcomes at its slot.
  abbrev pub SubmitOutcome :
      Origin → Message → ℕ → State Ledger → Result Error (Unit {0}) × State Ledger → Type 0
  SubmitOutcome origin payload stake s out =
      ((e : Error) × (out ≡ (err e, s)))
      ⊎ ((who : ℕ) × (origin ≡ signed who)
          × ((s.network_config payload.network).min_stake ≤ stake)
          × (s.incoming_nonce payload.network < payload.nonce)
          × (out.0 ≡ ok tt)
          × PlaceOutcome payload who stake (s.incoming_messages_queue payload.network payload.nonce)
              s out)

  submit_placed :
      (payload : Message) (who stake : ℕ) (s : State Ledger)
      → (s.network_config payload.network).min_stake ≤ stake
      → s.incoming_nonce payload.network < payload.nonce
      → let placed =
          place r payload who stake
            (s.network_config payload.network).fork_period
            (s.incoming_messages_queue payload.network payload.nonce)
            s in
        ((placed.0 ≡ ok tt) × (submit_incoming_message r (signed who) payload stake s ≡ placed))
        ⊎ ((e : Error) × (submit_incoming_message r (signed who) payload stake s ≡ (err e, s)))
  unfolding submit_incoming_message
  submit_placed payload who stake s enough beyond =
      elim (Result-cases
        (place r payload who stake (s.network_config payload.network).fork_period
          (s.incoming_messages_queue payload.network payload.nonce) s).0) [
            | inl (done, e) ↦ inl (ground arith, ground arith)
            | inr (e, failed) ↦ inr (e, ground arith)
          ]

  pub submit_incoming-cases :
      (origin : Origin) (payload : Message) (stake : ℕ) (s : State Ledger)
      → SubmitOutcome origin payload stake s (submit_incoming_message r origin payload stake s)
  unfolding submit_incoming_message
  submit_incoming-cases root payload stake s = inl (bad_origin, refl)
  submit_incoming-cases unsigned payload stake s = inl (bad_origin, refl)
  submit_incoming-cases (signed who) payload stake s =
      elim (Bool-cases (ltb stake (s.network_config payload.network).min_stake)) [
        | inl little ↦ inl (not_enough_stake, ground arith)
        | inr enough ↦ elim (Bool-cases (ltb (s.incoming_nonce payload.network) payload.nonce)) [
          | inr late ↦ inl (nonce_error, ground arith)
          | inl beyond ↦ elim (submit_placed payload who stake s (ground arith) (ground arith)) [
            | inr failed ↦ inl failed
            | inl (success, same) ↦ inr (
              who,
              refl,
              ground arith,
              ground arith,
              ap (λ x. x.0) same ∙ success,
              rw same (place-cases payload who stake _ s),
            )
          ]
        ]
      ]

  -- Where holds and releases do what they document, a submission that succeeds with a higher stake
  -- at a taken slot moves the stake: what the new relayer has on hold grows by the stake, and the
  -- relayer who is replaced, another account, has the old stake less on hold.
  pub replacement_moves_stakes :
      (laws : HoldLaws r) (payload : Message) (who stake : ℕ) (old : IncomingMessage)
      (s : State Ledger)
      → s.incoming_messages_queue payload.network payload.nonce ≡ some old
      → old.stake < stake
      → who ≢ old.relayer
      → (submit_incoming_message r (signed who) payload stake s).0 ≡ ok tt
      → let l' = (submit_incoming_message r (signed who) payload stake s).1.ledger in
        (r.held l' who ≡ r.held s.ledger who + stake)
        × (r.held l' old.relayer ≡ r.held s.ledger old.relayer - old.stake)
  replacement_moves_stakes laws payload who stake old s there lower other success =
      elim (submit_incoming-cases (signed who) payload stake s) [
        | inl (e, failed) ↦ absurd (ground (arith, failed, success))
        | inr (who', same_who, _, _, _, outcome) ↦ elim outcome [
          | inl (e, failed) ↦ absurd (ground (arith, failed, success))
          | inr (inl (free, _)) ↦ absurd (ground (arith, free, there))
          | inr (inr (inr (old', there', no_lower, done))) ↦ absurd (ground arith)
          | inr (inr (inl (old', there', _, (l, l', released, held, done)))) ↦
              let same_old : old' ≡ old = ground arith in
              let relayer = ap (λ (m : IncomingMessage). m.relayer) same_old in
              let staked = ap (λ (m : IncomingMessage). m.stake) same_old in
              let freed =
                λ (x : ℕ). laws.held-release old'.relayer old'.stake x s.ledger l released in
              let taken = λ (x : ℕ). laws.held-hold who' stake x l l' held in
              rw done (
                ground (arith, relayer, same_who, freed who, taken who),
                ground (arith, relayer, staked, same_who, freed old.relayer, taken old.relayer),
              )
        ]
      ]
