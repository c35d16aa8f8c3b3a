-- ===== src/Thea/Rotation.antt =====
-- What a rotation of the authorities does (`change_authorities` of pallets/thea/src/lib.rs).
use polkadex_node.Prelude.{
  ℕ, zero, suc, ◌+◌, ◌-◌, ◌≤◌, ◌<◌, ◌≡◌, refl, ◌⊎◌, inl, inr, Bool, true, false, not, ◌&&◌, List,
  [], ◌∷◌, Option, none, some, arith, ◌==◌, ==_refl, if◌then◌else◌, update₂, contains, Bool-cases,
  ◌∙◌, Option-cases, u64_mod, saturating_add, wrapping_add, set_eq, set_from,
}
use polkadex_node.Thea.Types.{
  SignedMessage, State, Runtime, new_validator_set, unable_to_generate_validator_set,
}
use polkadex_node.Thea.Outgoing.{deposit_event, enqueue}
use polkadex_node.Thea.Session.{
  rotation_keys, schedule, schedule_all, reset_entry, reset_range, reset_all, announce_all,
  schedule_change, install, change_authorities,
}

module _ (r : Runtime) where
  open r use {Ledger}

  -- The authorities and the signatures are as before.
  abbrev SameSigning : State Ledger → State Ledger → Type 0
  SameSigning s s' =
      (s'.authorities ≡ s.authorities)
      × (s'.validator_set_id ≡ s.validator_set_id)
      × (s'.signed_outgoing_messages ≡ s.signed_outgoing_messages)
      × (s'.signed_outgoing_nonce ≡ s.signed_outgoing_nonce)

  schedule_all-SameSigning :
      (queued : List ℕ) (new_id : ℕ) (networks scheduled : List ℕ) (s : State Ledger)
      → SameSigning s (schedule_all r queued new_id networks (scheduled, s)).1
  unfolding schedule_all schedule enqueue
  schedule_all-SameSigning queued new_id [] scheduled s = (refl, refl, refl, refl)
  schedule_all-SameSigning queued new_id (network ∷ rest) scheduled s =
      elim (Option-cases (
        new_validator_set (rotation_keys r (s.network_config network).network_type queued)
          new_id)) [
            | inl missing ↦
                rw (schedule_all, missing, schedule)
                  (schedule_all-SameSigning queued new_id rest scheduled
                    (deposit_event r (unable_to_generate_validator_set network) s))
            | inr (set, made) ↦
                rw (schedule_all, made, schedule) (schedule_all-SameSigning queued new_id rest _ _)
          ]

  schedule_change-SameSigning :
      (block1_ran : Bool) (new_id : ℕ) (queued : List ℕ) (s : State Ledger)
      → SameSigning s (schedule_change r block1_ran new_id queued s).1
  unfolding schedule_change
  schedule_change-SameSigning true new_id queued s =
      schedule_all-SameSigning queued new_id s.active_networks [] s
  schedule_change-SameSigning false new_id queued s = (refl, refl, refl, refl)

  announce_all-SameSigning :
      (block1_ran : Bool) (scheduled networks : List ℕ) (s : State Ledger)
      → SameSigning s (announce_all r block1_ran scheduled networks s)
  unfolding announce_all enqueue
  announce_all-SameSigning block1_ran scheduled [] s = (refl, refl, refl, refl)
  announce_all-SameSigning block1_ran scheduled (network ∷ rest) s =
      elim (Bool-cases (block1_ran && not (contains network scheduled))) [
        | inl missed ↦
            rw (announce_all, missed)
              (announce_all-SameSigning block1_ran scheduled rest
                (deposit_event r (unable_to_generate_validator_set network) s))
        | inr told ↦ rw (announce_all, told) (announce_all-SameSigning block1_ran scheduled rest _)
      ]

  reset_range-sets :
      (new_id network first count : ℕ) (s : State Ledger)
      → let s' = reset_range r new_id network first count s in
        (s'.authorities ≡ s.authorities)
        × (s'.validator_set_id ≡ s.validator_set_id)
        × (s'.signed_outgoing_nonce ≡ s.signed_outgoing_nonce)
        × (s'.outgoing_nonce ≡ s.outgoing_nonce)
  unfolding reset_range
  reset_range-sets new_id network first zero s = (refl, refl, refl, refl)
  reset_range-sets new_id network first (suc count) s =
      reset_range-sets new_id network (suc first) count _

  reset_all-sets :
      (new_id : ℕ) (networks : List ℕ) (s : State Ledger)
      → let s' = reset_all r new_id networks s in
        (s'.authorities ≡ s.authorities) × (s'.validator_set_id ≡ s.validator_set_id)
  unfolding reset_all
  reset_all-sets new_id [] s = (refl, refl)
  reset_all-sets new_id (network ∷ rest) s =
      let first = saturating_add u64_mod (s.signed_outgoing_nonce network) 1 in
      let count = s.outgoing_nonce network + 1 - first in
      let (a, b, _, _) = reset_range-sets new_id network first count s in
      let (c, d) = reset_all-sets new_id rest (reset_range r new_id network first count s) in
      (c ∙ a, d ∙ b)

  -- A rotation to different authorities, before the last identifier of 64 bits: the next identifier
  -- becomes active, with the incoming keys; the set that was active is kept, but for the set 0,
  -- which the first rotation removes.
  pub rotation_installs :
      (incoming queued : List ℕ) (s : State Ledger)
      → set_eq (set_from incoming) (set_from (s.authorities s.validator_set_id)) ≡ false
      → s.validator_set_id < u64_mod - 1
      → let id = s.validator_set_id in
        let s' = change_authorities r incoming queued s in
        (s'.validator_set_id ≡ id + 1)
        × (s'.authorities (id + 1) ≡ incoming)
        × (s'.authorities id ≡ (if id == 0 then [] else s.authorities id))
  unfolding change_authorities install
  rotation_installs incoming queued s new small =
      let id = s.validator_set_id in
      let new_id = wrapping_add u64_mod id 1 in
      let ran = not (set_eq (set_from incoming) (set_from queued)) in
      let made = schedule_change r ran new_id queued s in
      let s₂ = install r new_id incoming made.1 in
      let s₃ = reset_all r new_id s.active_networks s₂ in
      let (a, b, _, _) = schedule_change-SameSigning ran new_id queued s in
      let (c, d) = reset_all-sets new_id s.active_networks s₂ in
      let (e, f, _, _) = announce_all-SameSigning ran made.0 s.active_networks s₃ in
      let next : new_id ≡ id + 1 = omega arith in
      rw (change_authorities, new)
        (rw (f, d) next, rw (e, c, a) (ground arith), rw (e, c, a) (ground arith))

  -- An entry that waits for this set: no signatures.
  abbrev pub IsReset : ℕ → Option SignedMessage → Type 0
  IsReset new_id none = Unit
  IsReset new_id (some m) = (m.validator_set_id ≡ new_id) × (m.signatures ≡ [])

  reset_entry-IsReset :
      (new_id : ℕ) (o : Option SignedMessage) → IsReset new_id (reset_entry r new_id o)
  unfolding reset_entry
  reset_entry-IsReset new_id none = tt
  reset_entry-IsReset new_id (some m) = (refl, refl)

  -- One round of the inner loop keeps what is reset, and resets its own entry.
  IsReset-one :
      (new_id network first at nonce : ℕ) (s : State Ledger)
      → let e =
          update₂ s.signed_outgoing_messages network first
            (reset_entry r new_id (s.signed_outgoing_messages network first))
            at
            nonce in
        (e ≡ s.signed_outgoing_messages at nonce) ⊎ IsReset new_id e
  IsReset-one new_id network first at nonce s = elim (Bool-cases (network == at)) [
    | inr away ↦ inl (ground arith)
    | inl here ↦ elim (Bool-cases (first == nonce)) [
      | inr other ↦ inl (ground arith)
      | inl this ↦ inr (rw (here, this) (reset_entry-IsReset new_id _))
    ]
  ]

  reset_range-keeps :
      (new_id network first count at nonce : ℕ) (s : State Ledger)
      → IsReset new_id (s.signed_outgoing_messages at nonce)
      → IsReset new_id
          ((reset_range r new_id network first count s).signed_outgoing_messages at nonce)
  unfolding reset_range
  reset_range-keeps new_id network first zero at nonce s h = h
  reset_range-keeps new_id network first (suc count) at nonce s h =
      reset_range-keeps new_id network (suc first) count at nonce _
        (elim (IsReset-one new_id network first at nonce s) [
          | inl same ↦ rw same h
          | inr done ↦ done
        ])

  reset_range-reaches :
      (new_id network first count nonce : ℕ) (s : State Ledger)
      → first ≤ nonce
      → nonce < first + count
      → IsReset new_id
          ((reset_range r new_id network first count s).signed_outgoing_messages network nonce)
  unfolding reset_range
  reset_range-reaches new_id network first zero nonce s low high = absurd (omega (arith, low, high))
  reset_range-reaches new_id network first (suc count) nonce s low high =
      elim (Bool-cases (first == nonce)) [
        | inr later ↦
            reset_range-reaches new_id network (suc first) count nonce _ (ground arith)
              (omega arith)
        | inl this ↦
            reset_range-keeps new_id network (suc first) count network nonce _
              (rw (==_refl network, this) (reset_entry-IsReset new_id _))
      ]

  reset_all-keeps :
      (new_id : ℕ) (networks : List ℕ) (at nonce : ℕ) (s : State Ledger)
      → IsReset new_id (s.signed_outgoing_messages at nonce)
      → IsReset new_id ((reset_all r new_id networks s).signed_outgoing_messages at nonce)
  unfolding reset_all
  reset_all-keeps new_id [] at nonce s h = h
  reset_all-keeps new_id (network ∷ rest) at nonce s h =
      reset_all-keeps new_id rest at nonce _ (reset_range-keeps new_id network _ _ at nonce s h)

  reset_all-reaches :
      (new_id : ℕ) (networks : List ℕ) (network nonce : ℕ) (s : State Ledger)
      → contains network networks ≡ true
      → s.signed_outgoing_nonce network < nonce
      → nonce ≤ s.outgoing_nonce network
      → IsReset new_id ((reset_all r new_id networks s).signed_outgoing_messages network nonce)
  unfolding reset_all
  reset_all-reaches new_id [] network nonce s there low high = absurd (ground arith)
  reset_all-reaches new_id (n ∷ rest) network nonce s there low high =
      let first = saturating_add u64_mod (s.signed_outgoing_nonce n) 1 in
      let count = s.outgoing_nonce n + 1 - first in
      let s' = reset_range r new_id n first count s in
      let (_, _, a, b) = reset_range-sets new_id n first count s in
      elim (Bool-cases (network == n)) [
        | inl here ↦
            let same : network ≡ n = ground arith in
            let above : s.signed_outgoing_nonce n < nonce = rw (← same) low in
            let within : nonce ≤ s.outgoing_nonce n = rw (← same) high in
            reset_all-keeps new_id rest network nonce s' (
              rw same
                (reset_range-reaches new_id n first count nonce s (omega arith) (omega arith)))
        | inr away ↦
            reset_all-reaches new_id rest network nonce s' (ground arith) (rw a low) (rw b high)
      ]

  -- A rotation to different authorities resets what is pending: for an active network, a message
  -- beyond the finalised nonce and up to the outgoing nonce, as it is once the keys are scheduled,
  -- has no signatures left and waits for the next set, or has not been signed at all.
  pub rotation_resets_pending :
      (incoming queued : List ℕ) (network nonce : ℕ) (s : State Ledger)
      → set_eq (set_from incoming) (set_from (s.authorities s.validator_set_id)) ≡ false
      → contains network s.active_networks ≡ true
      → s.signed_outgoing_nonce network < nonce
      → let new_id = wrapping_add u64_mod s.validator_set_id 1 in
        let ran = not (set_eq (set_from incoming) (set_from queued)) in
        nonce ≤ (schedule_change r ran new_id queued s).1.outgoing_nonce network
        → IsReset new_id
            ((change_authorities r incoming queued s).signed_outgoing_messages network nonce)
  unfolding change_authorities install
  rotation_resets_pending incoming queued network nonce s new there low high =
      let new_id = wrapping_add u64_mod s.validator_set_id 1 in
      let ran = not (set_eq (set_from incoming) (set_from queued)) in
      let made = schedule_change r ran new_id queued s in
      let s₂ = install r new_id incoming made.1 in
      let s₃ = reset_all r new_id s.active_networks s₂ in
      let (_, _, _, a) = schedule_change-SameSigning ran new_id queued s in
      let (_, _, b, _) = announce_all-SameSigning ran made.0 s.active_networks s₃ in
      rw (change_authorities, new, b)
        (reset_all-reaches new_id s.active_networks network nonce s₂ there (rw a low) high)
