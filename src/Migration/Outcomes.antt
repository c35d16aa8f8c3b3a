-- ===== src/Migration/Outcomes.antt =====
-- Every way in which the calls of pallets/pdex-migration/src/lib.rs end.
use polkadex_node.Prelude.{
  ℕ, ◌≤◌, ◌<◌, ◌≡◌, ◌≢◌, refl, ◌⊎◌, inl, inr, ◌++◌, [], ◌∷◌, none, some, true, false, arith, length,
  contains, update, u16_mod, u32_mod, wrapping_add, update-update_same, Option-cases, Bool-cases,
  ap, leb, ltb, ◌==◌, fun_ext,
}
use polkadex_node.Frame.{ok, err, Origin, root, signed, unsigned}
use polkadex_node.Currency.{LockableCurrency}
use polkadex_node.Migration.Types.{
  Config, State, BurnTxDetails, Error, migration_lock, liquidity_restrictions, unknown_beneficiary,
  unknown_relayer, invalid_mint_amount, relayer_limit_reached, invalid_tx_hash,
  already_processed_eth_burn_tx,
}
use polkadex_node.Migration.Calls.{
  approve, process_migration, mint, unlock_taken, process_unlock, unlock,
}

-- The details with one more approval.
abbrev pub approved : ℕ → BurnTxDetails → BurnTxDetails
approved relayer d = record {
  approvals = wrapping_add u16_mod d.approvals 1;
  approvers = d.approvers ++ relayer ∷ [];
}

module _ (c : LockableCurrency) (config : Config) where
  open c use {Ledger, remove_lock}

  process_migration-cases :
      (relayer beneficiary amount tx : ℕ) (d : BurnTxDetails) (s : State Ledger)
      → ((e : Error) × (process_migration c config relayer beneficiary amount tx d s ≡ (err e, s)))
        ⊎ ((s.relayers relayer ≡ true)
            × (amount ≤ s.mintable_tokens)
            × (length d.approvers < config.max_relayers)
            × (process_migration c config relayer beneficiary amount tx d s
                ≡ (ok tt, approve c config relayer beneficiary amount tx (approved relayer d) s)))
  unfolding process_migration
  process_migration-cases relayer beneficiary amount tx d s =
      elim (Bool-cases (s.relayers relayer)) [
        | inr off ↦ inl (unknown_relayer, ground arith)
        | inl on ↦ elim (Bool-cases (leb amount s.mintable_tokens)) [
          | inr over ↦ inl (invalid_mint_amount, ground arith)
          | inl within ↦ elim (Bool-cases (ltb (length d.approvers) config.max_relayers)) [
            | inr full ↦ inl (relayer_limit_reached, ground arith)
            | inl room ↦ inr (on, ground arith, ground arith, ground arith)
          ]
        ]
      ]

  -- A mint fails and writes nothing, or it passes every guard and approves.
  pub mint-cases :
      (origin : Origin) (beneficiary amount tx : ℕ) (s : State Ledger)
      → ((e : Error) × (mint c config origin beneficiary amount tx s ≡ (err e, s)))
        ⊎ ((relayer : ℕ) × (origin ≡ signed relayer)
            × (tx ≢ 0)
            × (s.operational ≡ true)
            × (contains relayer (s.eth_txs tx).approvers ≡ false)
            × (s.relayers relayer ≡ true)
            × (amount ≤ s.mintable_tokens)
            × (length (s.eth_txs tx).approvers < config.max_relayers)
            × (mint c config origin beneficiary amount tx s ≡ (
              ok tt,
              approve c config relayer beneficiary amount tx (approved relayer (s.eth_txs tx)) s,
            )))
  unfolding mint
  mint-cases root beneficiary amount tx s = inl (Error.bad_origin, refl)
  mint-cases unsigned beneficiary amount tx s = inl (Error.bad_origin, refl)
  mint-cases (signed r) beneficiary amount tx s =
      let d = s.eth_txs tx in
      elim (Bool-cases (tx == 0)) [
        | inl zero_hash ↦ inl (invalid_tx_hash, ground arith)
        | inr hashed ↦ elim (Bool-cases s.operational) [
          | inr off ↦ inl (Error.not_operational, ground arith)
          | inl on ↦ elim (Bool-cases (contains r d.approvers)) [
            | inl again ↦ inl (already_processed_eth_burn_tx, ground arith)
            | inr fresh ↦ elim (process_migration-cases r beneficiary amount tx d s) [
              | inl (e, same) ↦ inl (e, ground arith)
              | inr (known, within, room, done) ↦
                  inr (r, refl, ground arith, on, fresh, known, within, room, ground arith)
            ]
          ]
        ]
      ]

  -- `process_unlock` puts the entry back when it refuses, so that a failed unlock writes nothing.
  process_unlock-cases :
      (who : ℕ) (s : State Ledger)
      → ((e : Error) × (process_unlock c config who s ≡ (err e, s)))
        ⊎ ((locked_block : ℕ) × (s.locked_holders who ≡ some locked_block)
            × (wrapping_add u32_mod locked_block config.lock_period ≤ s.block_number)
            × (process_unlock c config who s ≡ (
              ok tt,
              record s {
                locked_holders = update s.locked_holders who none;
                ledger = remove_lock migration_lock who s.ledger;
              },
            )))
  unfolding process_unlock unlock_taken
  process_unlock-cases who s = elim (Option-cases (s.locked_holders who)) [
    | inl free ↦ inl (
      unknown_beneficiary,
      rw (free, unlock_taken)
          (ap (λ m. (err unknown_beneficiary, record s { locked_holders = m })) (update_same free)),
    )
    | inr (b, held) ↦
        elim (Bool-cases (leb (wrapping_add u32_mod b config.lock_period) s.block_number)) [
          | inr early ↦ inl (
            liquidity_restrictions,
            rw (held, unlock_taken, early)
                (ap (λ m. (err liquidity_restrictions, record s { locked_holders = m }))
                  (update-update_same s.locked_holders who none (some b) held)),
          )
          | inl late ↦ inr (b, held, ground arith, rw (held, unlock_taken, late))
        ]
  ]
    where
      update_same :
          s.locked_holders who ≡ none → update s.locked_holders who none ≡ s.locked_holders
      update_same h = fun_ext λ j. ground arith

  -- An unlock fails and writes nothing, or it frees a lock whose period is over.
  pub unlock-cases :
      (origin : Origin) (s : State Ledger)
      → ((e : Error) × (unlock c config origin s ≡ (err e, s)))
        ⊎ ((who : ℕ) × (locked_block : ℕ) × (origin ≡ signed who)
            × (s.operational ≡ true)
            × (s.locked_holders who ≡ some locked_block)
            × (wrapping_add u32_mod locked_block config.lock_period ≤ s.block_number)
            × (unlock c config origin s ≡ (
              ok tt,
              record s {
                locked_holders = update s.locked_holders who none;
                ledger = remove_lock migration_lock who s.ledger;
              },
            )))
  unfolding unlock
  unlock-cases root s = inl (Error.bad_origin, refl)
  unlock-cases unsigned s = inl (Error.bad_origin, refl)
  unlock-cases (signed who) s = elim (Bool-cases s.operational) [
    | inr off ↦ inl (Error.not_operational, ground arith)
    | inl on ↦ elim (process_unlock-cases who s) [
      | inl (e, same) ↦ inl (e, ground arith)
      | inr (b, held, late, done) ↦ inr (who, b, refl, on, held, late, ground arith)
    ]
  ]
