-- ===== src/Migration/Supply.antt =====
-- What pallets/pdex-migration/src/lib.rs may bring into existence: the issuance of the ledger and
-- the tokens that may still be minted.
use polkadex_node.Prelude.{ℕ, ◌+◌, ◌≤◌, List, [], ◌∷◌, arith, inl, inr, update, none}
use polkadex_node.Frame.{Result-cases, Origin, root, signed, unsigned}
use polkadex_node.Currency.{LockableCurrency, LedgerLaws}
use polkadex_node.Migration.Types.{
  Config, State, BurnTxDetails, migration_lock, Request, sets_operational, sets_relayer, mints,
  unlocks, removes_minted, block_ends,
}
use polkadex_node.Migration.Outcomes.{mint-cases, unlock-cases}
use polkadex_node.Migration.Calls.{
  mint_and_lock, approve, mint, unlock, burn_locked, remove_fradulent_tokens, remove_minted_tokens,
  set_migration_operational_status, set_relayer_status, execute, run, deposit_event,
  first_locked_amount,
}

module _ (c : LockableCurrency) (config : Config) (laws : LedgerLaws c) where
  open c use {Ledger, locks, total_issuance, deposit_creating, burn_from, remove_lock}

  abbrev pub supply : State Ledger → ℕ
  supply s = total_issuance s.ledger + s.mintable_tokens

  mint_and_lock-supply :
      (relayer beneficiary amount tx : ℕ) (d : BurnTxDetails) (s : State Ledger)
      → amount ≤ s.mintable_tokens
      → supply (mint_and_lock c config relayer beneficiary amount tx d s) ≤ supply s
  unfolding mint_and_lock deposit_event
  mint_and_lock-supply relayer beneficiary amount tx d s h =
      let minted = deposit_creating beneficiary amount s.ledger in
      omega (
        arith,
        laws.issuance-set_lock migration_lock beneficiary _ minted,
        laws.issuance-deposit_creating beneficiary amount s.ledger,
      )

  approve-supply :
      (relayer beneficiary amount tx : ℕ) (d : BurnTxDetails) (s : State Ledger)
      → amount ≤ s.mintable_tokens
      → supply (approve c config relayer beneficiary amount tx d s) ≤ supply s
  unfolding approve deposit_event
  approve-supply relayer beneficiary amount tx d s h =
      ground (arith, mint_and_lock-supply relayer beneficiary amount tx d s h)

  mint-supply :
      (origin : Origin) (beneficiary amount tx : ℕ) (s : State Ledger)
      → supply (mint c config origin beneficiary amount tx s).1 ≤ supply s
  mint-supply origin beneficiary amount tx s =
      elim (mint-cases c config origin beneficiary amount tx s) [
        | inl (e, same) ↦ rw same (omega arith)
        | inr (r, _, _, _, _, _, within, _, done) ↦
            rw done (approve-supply r beneficiary amount tx _ s within)
      ]

  unlock-supply :
      (origin : Origin) (s : State Ledger) → supply (unlock c config origin s).1 ≤ supply s
  unlock-supply origin s = elim (unlock-cases c config origin s) [
    | inl (e, same) ↦ rw same (omega arith)
    | inr (who, _, _, _, _, _, done) ↦
        rw done (omega (arith, laws.issuance-remove_lock migration_lock who s.ledger))
  ]

  burn_locked-supply :
      (who amount : ℕ) (s : State Ledger) → supply (burn_locked c config who amount s).1 ≤ supply s
  unfolding burn_locked deposit_event
  burn_locked-supply who amount s = elim (Result-cases (burn_from who amount s.ledger)) [
    | inl (burned, e) ↦
        rw (e, burn_locked) (omega (arith, laws.issuance-burn_from who amount s.ledger burned e))
    | inr (e, failed) ↦ rw (failed, burn_locked) (omega arith)
  ]

  remove_minted_tokens-supply :
      (origin : Origin) (who : ℕ) (s : State Ledger)
      → supply (remove_minted_tokens c config origin who s).1 ≤ supply s
  unfolding remove_minted_tokens remove_fradulent_tokens
  remove_minted_tokens-supply root who s = omega (
    arith,
    laws.issuance-remove_lock migration_lock who s.ledger,
    burn_locked-supply who (first_locked_amount (locks s.ledger who)) (record s {
      locked_holders = update s.locked_holders who none;
      ledger = remove_lock migration_lock who s.ledger;
    }),
  )
  remove_minted_tokens-supply (signed _) who s = omega arith
  remove_minted_tokens-supply unsigned who s = omega arith

  execute-supply : (r : Request) (s : State Ledger) → supply (execute c config r s) ≤ supply s
  unfolding execute set_migration_operational_status set_relayer_status deposit_event
  execute-supply (sets_operational root status) s = omega arith
  execute-supply (sets_operational (signed _) status) s = omega arith
  execute-supply (sets_operational unsigned status) s = omega arith
  execute-supply (sets_relayer root relayer status) s = omega arith
  execute-supply (sets_relayer (signed _) relayer status) s = omega arith
  execute-supply (sets_relayer unsigned relayer status) s = omega arith
  execute-supply (mints origin beneficiary amount tx) s = mint-supply origin beneficiary amount tx s
  execute-supply (unlocks origin) s = unlock-supply origin s
  execute-supply (removes_minted origin who) s = remove_minted_tokens-supply origin who s
  execute-supply block_ends s = omega arith

  -- Over a currency with the documented laws, and any sequence of calls and blocks, failed calls
  -- among them, the issuance and the tokens that may still be minted together never grow.
  pub run-supply : (rs : List Request) (s : State Ledger) → supply (run c config rs s) ≤ supply s
  unfolding run
  run-supply [] s = omega arith
  run-supply (r ∷ rs) s = omega (arith, execute-supply r s, run-supply rs (execute c config r s))
