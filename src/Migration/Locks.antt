-- ===== src/Migration/Locks.antt =====
-- The lock on minted tokens and its release (`mint`, `unlock` and `remove_minted_tokens` of
-- pallets/pdex-migration/src/lib.rs).
use polkadex_node.Prelude.{
  ℕ, ◌≤◌, ◌<◌, ◌≡◌, ◌↔◌, refl, ◌⊎◌, inl, inr, List, [], ◌∷◌, arith, contains, Distinct, u32_mod,
  u128_mod, wrapping_add, saturating_add, true, false, Bool, none, some, map, update-update_same,
  ◌∙◌,
}
use polkadex_node.Frame.{Action, ok, err, Origin, root, signed, unsigned}
use polkadex_node.Currency.{LockableCurrency, LedgerLaws, BalanceLock, lock_of}
use polkadex_node.Migration.Types.{
  Config, State, BurnTxDetails, Error, liquidity_restrictions, migration_lock,
}
use polkadex_node.Migration.Outcomes.{mint-cases, unlock-cases, approved}
use polkadex_node.Migration.Calls.{
  mint_and_lock, approve, mint, unlock, process_unlock, unlock_taken, deposit_event, locked_amount,
  first_locked_amount, set_migration_operational_status, set_relayer_status,
}

-- The two loops over the locks of an account agree where no identifier is used twice.
locked_amount-skip :
    (prev : ℕ) (ls : List BalanceLock)
    → contains migration_lock (map (λ l. l.id) ls) ≡ false
    → locked_amount prev ls ≡ prev
unfolding locked_amount
locked_amount-skip prev [] h = refl
locked_amount-skip prev (l ∷ ls) h = ground (arith, locked_amount-skip prev ls)

-- The last migration lock, which `mint` adds to, is the first one, which `remove_minted_tokens`
-- burns, where no lock identifier of the account is used twice.
pub locked_amount-eq-first :
    (ls : List BalanceLock)
    → Distinct (map (λ l. l.id) ls)
    → locked_amount 0 ls ≡ first_locked_amount ls
unfolding locked_amount first_locked_amount
locked_amount-eq-first [] h = refl
locked_amount-eq-first (l ∷ ls) h =
    ground (arith, locked_amount-skip l.amount ls, locked_amount-eq-first ls h.1)

module _ (c : LockableCurrency) (config : Config) where
  open c use {Ledger, locks, remove_lock, deposit_creating}

  -- `unlock` succeeds for an account exactly when the migration is operational and the account
  -- holds minted tokens whose lock period is over at the current block.
  pub unlock_iff :
      (who : ℕ) (s : State Ledger)
      → ((unlock c config (signed who) s).0 ≡ ok tt) ↔ (
          (s.operational ≡ true)
          × (b : ℕ) × (s.locked_holders who ≡ some b)
          × (wrapping_add u32_mod b config.lock_period ≤ s.block_number))
  unlock_iff who s = (forward, backward)
    where
      forward :
          (unlock c config (signed who) s).0 ≡ ok tt
          → (s.operational ≡ true)
            × (b : ℕ) × (s.locked_holders who ≡ some b)
            × (wrapping_add u32_mod b config.lock_period ≤ s.block_number)
      forward h = elim (unlock-cases c config (signed who) s) [
        | inl (e, same) ↦ absurd (ground (arith, same))
        | inr (w, b, at, on, held, late, done) ↦ (on, b, ground arith, late)
      ]

      backward :
          (s.operational ≡ true)
            × (b : ℕ) × (s.locked_holders who ≡ some b)
            × (wrapping_add u32_mod b config.lock_period ≤ s.block_number)
          → (unlock c config (signed who) s).0 ≡ ok tt
      backward (on, b, held, late) = unfold unlock process_unlock unlock_taken in ground arith

  -- A call succeeds, or what it leaves is what it found.
  abbrev pub IsAllOrNothing : Action (State Ledger) Error (Unit {0}) → State Ledger → Type 0
  IsAllOrNothing m s = ((m s).0 ≡ ok tt) ⊎ ((m s).1 ≡ s)

  status-IsAllOrNothing :
      (origin : Origin) (who : ℕ) (status : Bool) (s : State Ledger)
      → IsAllOrNothing (set_relayer_status c config origin who status) s
        × IsAllOrNothing (set_migration_operational_status c config origin status) s
  unfolding set_relayer_status set_migration_operational_status
  status-IsAllOrNothing root who status s = (inl refl, inl refl)
  status-IsAllOrNothing (signed by) who status s = (inr refl, inr refl)
  status-IsAllOrNothing unsigned who status s = (inr refl, inr refl)

  -- A call of `mint`, `unlock`, `set_relayer_status` or `set_migration_operational_status` succeeds,
  -- or leaves the whole state as it was, with no storage layer around it.
  pub failed_calls_write_nothing :
      (origin : Origin) (who amount tx : ℕ) (status : Bool) (s : State Ledger)
      → IsAllOrNothing (mint c config origin who amount tx) s
        × IsAllOrNothing (unlock c config origin) s
        × IsAllOrNothing (set_relayer_status c config origin who status) s
        × IsAllOrNothing (set_migration_operational_status c config origin status) s
  failed_calls_write_nothing origin who amount tx status s = (
    elim (mint-cases c config origin who amount tx s) [
      | inl (e, same) ↦ inr (rw same refl)
      | inr (_, _, _, _, _, _, _, _, done) ↦ inl (rw done refl)
    ],
    elim (unlock-cases c config origin s) [
      | inl (e, same) ↦ inr (rw same refl)
      | inr (_, _, _, _, _, _, done) ↦ inl (rw done refl)
    ],
    (status-IsAllOrNothing origin who status s).0,
    (status-IsAllOrNothing origin who status s).1,
  )

  approve-locked_holders :
      (relayer beneficiary amount tx : ℕ) (d : BurnTxDetails) (s : State Ledger)
      → d.approvals ≡ 3
      → (approve c config relayer beneficiary amount tx d s).locked_holders beneficiary
        ≡ some s.block_number
  unfolding approve mint_and_lock deposit_event
  approve-locked_holders relayer beneficiary amount tx d s h = ground arith

  approve-operational :
      (relayer beneficiary amount tx : ℕ) (d : BurnTxDetails) (s : State Ledger)
      → (approve c config relayer beneficiary amount tx d s).operational ≡ s.operational
  unfolding approve mint_and_lock deposit_event
  approve-operational relayer beneficiary amount tx d s = ground arith

  unlock_early :
      (who b : ℕ) (s : State Ledger)
      → s.operational ≡ true
      → s.locked_holders who ≡ some b
      → s.block_number < wrapping_add u32_mod b config.lock_period
      → unlock c config (signed who) s ≡ (err liquidity_restrictions, s)
  unlock_early who b s on held early = elim (unlock-cases c config (signed who) s) [
    | inl (e, same) ↦
        unfold unlock process_unlock unlock_taken in
        ground (arith, update-update_same s.locked_holders who none (some b) held)
    | inr (w, b', at, _, held', late, done) ↦ absurd (ground arith)
  ]

  -- After a `mint` that brings a transaction to its third approval, the beneficiary's `unlock` is
  -- refused, and changes nothing, at every block before the lock period, counted from the block of
  -- the mint, is over.
  pub minted_tokens_stay_locked :
      (relayer beneficiary amount tx block : ℕ) (s : State Ledger)
      → (mint c config (signed relayer) beneficiary amount tx s).0 ≡ ok tt
      → (s.eth_txs tx).approvals ≡ 2
      → block < wrapping_add u32_mod s.block_number config.lock_period
      → let s' = (mint c config (signed relayer) beneficiary amount tx s).1 in
        let later = record s' { block_number = block } in
        unlock c config (signed beneficiary) later ≡ (err liquidity_restrictions, later)
  minted_tokens_stay_locked relayer beneficiary amount tx block s success second early =
      elim (mint-cases c config (signed relayer) beneficiary amount tx s) [
        | inl (e, same) ↦ absurd (ground (arith, same))
        | inr (r, at, _, on, _, _, _, _, done) ↦
            let d = approved r (s.eth_txs tx) in
            rw done (
              unlock_early beneficiary s.block_number _
                (approve-operational r beneficiary amount tx d s ∙ on)
                (approve-locked_holders r beneficiary amount tx d s (omega (arith, second))) early)
      ]

  -- Over a currency with the documented laws, the third approval locks the amount on top of what
  -- the migration has locked before, up to the largest balance, provided that it is positive.
  pub mint_and_lock-lock_of :
      (laws : LedgerLaws c) (relayer beneficiary amount tx : ℕ) (d : BurnTxDetails)
      (s : State Ledger)
      → 0 < amount
      → let s' = mint_and_lock c config relayer beneficiary amount tx d s in
        lock_of migration_lock (locks s'.ledger beneficiary)
        ≡ some (saturating_add u128_mod amount (locked_amount 0 (locks s.ledger beneficiary)))
  unfolding mint_and_lock deposit_event
  mint_and_lock-lock_of laws relayer beneficiary amount tx d s h =
      rw (← laws.locks-deposit_creating beneficiary amount beneficiary s.ledger) (
        laws.lock_of-set_lock migration_lock beneficiary _
          (deposit_creating beneficiary amount s.ledger) (ground arith))
