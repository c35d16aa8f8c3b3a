-- ===== src/Migration/Approvals.antt =====
-- Who has approved a burn transaction (`EthTxns` of pallets/pdex-migration/src/lib.rs).
use polkadex_node.Prelude.{
  ℕ, ◌≤◌, ◌<◌, ◌≡◌, refl, ◌⊎◌, inl, inr, List, [], ◌∷◌, arith, length, contains, Distinct,
  push-Distinct, length-append, update, Bool-cases, u16_mod, ◌==◌, ==_iff, false,
}
use polkadex_node.Frame.{root, signed, unsigned, Result-cases}
use polkadex_node.Currency.{LockableCurrency}
use polkadex_node.Migration.Types.{
  Config, State, BurnTxDetails, Request, sets_operational, sets_relayer, mints, unlocks,
  removes_minted, block_ends,
}
use polkadex_node.Migration.Outcomes.{mint-cases, unlock-cases, approved}
use polkadex_node.Migration.Calls.{
  mint_and_lock, approve, remove_minted_tokens, remove_fradulent_tokens, burn_locked,
  set_migration_operational_status, set_relayer_status, execute, run, deposit_event,
  first_locked_amount,
}

-- The approvals count the approvers, who are distinct and no more than the relayers.
pub record IsRecorded (config : Config) (d : BurnTxDetails) : Type 0 where
  pub counted : d.approvals ≡ length d.approvers
  pub distinct : Distinct d.approvers
  pub bounded : length d.approvers ≤ config.max_relayers

module _ (config : Config) (few : config.max_relayers < u16_mod) where
  pub approved-IsRecorded :
      (relayer : ℕ) (d : BurnTxDetails)
      → IsRecorded config d
      → contains relayer d.approvers ≡ false
      → length d.approvers < config.max_relayers
      → IsRecorded config (approved relayer d)
  approved-IsRecorded relayer d h fresh room = record {
    counted = omega (arith, length-append d.approvers (relayer ∷ []), h.counted);
    distinct = push-Distinct relayer d.approvers fresh h.distinct;
    bounded = omega (arith, length-append d.approvers (relayer ∷ []));
  }

module _ (c : LockableCurrency) (config : Config) where
  open c use {Ledger, locks, burn_from, remove_lock}

  pub approve-eth_txs :
      (relayer beneficiary amount tx : ℕ) (d : BurnTxDetails) (s : State Ledger)
      → (approve c config relayer beneficiary amount tx d s).eth_txs ≡ update s.eth_txs tx d
  unfolding approve mint_and_lock deposit_event
  approve-eth_txs relayer beneficiary amount tx d s = ground arith

  burn_locked-eth_txs :
      (who amount : ℕ) (s : State Ledger)
      → (burn_locked c config who amount s).1.eth_txs ≡ s.eth_txs
  unfolding burn_locked deposit_event
  burn_locked-eth_txs who amount s = elim (Result-cases (burn_from who amount s.ledger)) [
    | inl (burned, e) ↦ rw (e, burn_locked)
    | inr (e, failed) ↦ rw (failed, burn_locked)
  ]

  -- A call leaves every burn transaction alone, or adds one approval to one of them.
  execute-eth_txs :
      (r : Request) (s : State Ledger)
      → ((execute c config r s).eth_txs ≡ s.eth_txs)
        ⊎ ((relayer : ℕ) × (tx : ℕ) × (contains relayer (s.eth_txs tx).approvers ≡ false)
            × (length (s.eth_txs tx).approvers < config.max_relayers)
            × ((execute c config r s).eth_txs
                ≡ update s.eth_txs tx (approved relayer (s.eth_txs tx))))
  unfolding execute set_migration_operational_status set_relayer_status deposit_event
      remove_minted_tokens remove_fradulent_tokens
  execute-eth_txs (sets_operational root status) s = inl refl
  execute-eth_txs (sets_operational (signed _) status) s = inl refl
  execute-eth_txs (sets_operational unsigned status) s = inl refl
  execute-eth_txs (sets_relayer root relayer status) s = inl refl
  execute-eth_txs (sets_relayer (signed _) relayer status) s = inl refl
  execute-eth_txs (sets_relayer unsigned relayer status) s = inl refl
  execute-eth_txs (mints origin beneficiary amount tx) s =
      elim (mint-cases c config origin beneficiary amount tx s) [
        | inl (e, same) ↦ inl (rw (same, execute))
        | inr (r, _, _, _, fresh, _, _, room, done) ↦
            inr
              (r, tx, fresh, room, rw (done, execute) (approve-eth_txs r beneficiary amount tx _ s))
      ]
  execute-eth_txs (unlocks origin) s = elim (unlock-cases c config origin s) [
    | inl (e, same) ↦ inl (rw (same, execute))
    | inr (who, _, _, _, _, _, done) ↦ inl (rw (done, execute))
  ]
  execute-eth_txs (removes_minted root who) s =
      inl (burn_locked-eth_txs who (first_locked_amount (locks s.ledger who)) _)
  execute-eth_txs (removes_minted (signed _) who) s = inl refl
  execute-eth_txs (removes_minted unsigned who) s = inl refl
  execute-eth_txs block_ends s = inl refl

module _ (c : LockableCurrency) (config : Config) (few : config.max_relayers < u16_mod) where
  open c use {Ledger}

  -- Every burn transaction is recorded well.
  abbrev pub IsConsistent : State Ledger → Type 0
  IsConsistent s = (tx : ℕ) → IsRecorded config (s.eth_txs tx)

  pub execute-IsConsistent :
      (r : Request) (s : State Ledger) → IsConsistent s → IsConsistent (execute c config r s)
  execute-IsConsistent r s h tx = elim (execute-eth_txs c config r s) [
    | inl same ↦ rw same (h tx)
    | inr (relayer, at, fresh, room, e) ↦ rw e (elim (Bool-cases (at == tx)) [
      | inl here ↦ rw here (approved-IsRecorded config few relayer (s.eth_txs at) (h at) fresh room)
      | inr away ↦ rw away (h tx)
    ])
  ]

  -- Where fewer than 2^16 relayers may approve, every sequence of calls and blocks keeps each
  -- transaction's approvals equal to the number of its approvers, who are distinct, if they are so
  -- at the start.
  pub run-IsConsistent :
      (rs : List Request) (s : State Ledger) → IsConsistent s → IsConsistent (run c config rs s)
  unfolding run
  run-IsConsistent [] s h = h
  run-IsConsistent (r ∷ rs) s h =
      run-IsConsistent rs (execute c config r s) (execute-IsConsistent r s h)

  approvers_mono :
      (r : Request) (s : State Ledger) (tx : ℕ)
      → length (s.eth_txs tx).approvers ≤ length ((execute c config r s).eth_txs tx).approvers
  approvers_mono r s tx = elim (execute-eth_txs c config r s) [
    | inl same ↦ rw same (omega arith)
    | inr (relayer, at, fresh, room, e) ↦ rw e (elim (Bool-cases (at == tx)) [
      | inl here ↦
          rw (here, (==_iff at tx).0 here, length-append (s.eth_txs tx).approvers (relayer ∷ []))
            (omega arith)
      | inr away ↦ rw away (omega arith)
    ])
  ]

  pub run-approvers_mono :
      (rs : List Request) (s : State Ledger) (tx : ℕ)
      → length (s.eth_txs tx).approvers ≤ length ((run c config rs s).eth_txs tx).approvers
  unfolding run
  run-approvers_mono [] s tx = omega arith
  run-approvers_mono (r ∷ rs) s tx =
      omega (arith, approvers_mono r s tx, run-approvers_mono rs (execute c config r s) tx)
