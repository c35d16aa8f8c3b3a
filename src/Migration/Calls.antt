-- ===== src/Migration/Calls.antt =====
-- The calls of pallets/pdex-migration/src/lib.rs and the functions below them.
use polkadex_node.Prelude.{
  ℕ, ◌+◌, ◌-◌, Bool, not, Option, none, some, List, [], ◌∷◌, ◌++◌, ltb, leb, ◌==◌, if◌then◌else◌,
  length, contains, update, u16_mod, u32_mod, u128_mod, wrapping_add, saturating_add,
}
use polkadex_node.Frame.{
  ok, err, Action, gets, modify, ensure, ◌>>=◌, ◌>>◌, Origin, ensure_root, ensure_signed,
}
use polkadex_node.Currency.{LockableCurrency, BalanceLock}
use polkadex_node.Migration.Types.{
  Config, State, BurnTxDetails, Event, relayer_status_updated, native_pdex_minted_and_locked,
  reverted_minted_tokens, token_burn_detected, Error, unknown_relayer, invalid_mint_amount,
  unknown_beneficiary, liquidity_restrictions, invalid_tx_hash, already_processed_eth_burn_tx,
  relayer_limit_reached, bad_origin, dispatch, migration_lock, Request, sets_operational,
  sets_relayer, mints, unlocks, removes_minted, block_ends,
}

-- The loop of `previous_locked_balance`: the amount of the last migration lock, or the start value.
unfoldable pub locked_amount : ℕ → List BalanceLock → ℕ
locked_amount prev [] = prev
locked_amount prev (l ∷ ls) = locked_amount (if l.id == migration_lock then l.amount else prev) ls

-- The loop of `remove_fradulent_tokens`, which breaks at the first migration lock.
unfoldable pub first_locked_amount : List BalanceLock → ℕ
first_locked_amount [] = 0
first_locked_amount (l ∷ ls) = if l.id == migration_lock then l.amount else first_locked_amount ls

module _ (c : LockableCurrency) (config : Config) where
  open c use {Ledger, locks, set_lock, remove_lock, deposit_creating, burn_from}

  abbrev pub Call : Type 0
  Call = Action (State Ledger) Error (Unit {0})

  unfoldable pub deposit_event : Event → State Ledger → State Ledger
  deposit_event e s = record s { events = s.events ++ e ∷ [] }

  unfoldable pub set_migration_operational_status : Origin → Bool → Call
  set_migration_operational_status origin status = do
    ensure_root bad_origin origin
    modify (λ s. record s { operational = status })

  unfoldable pub set_relayer_status : Origin → ℕ → Bool → Call
  set_relayer_status origin relayer status = do
    ensure_root bad_origin origin
    modify (λ s. record s { relayers = update s.relayers relayer status })
    modify (deposit_event (relayer_status_updated relayer status))

  unfoldable pub previous_locked_balance : ℕ → State Ledger → ℕ
  previous_locked_balance who s = locked_amount 0 (locks s.ledger who)

  -- The third approval: mint, lock, note the block and lower what may still be minted.
  unfoldable pub mint_and_lock : ℕ → ℕ → ℕ → ℕ → BurnTxDetails → State Ledger → State Ledger
  mint_and_lock relayer beneficiary amount eth_hash details s =
      let minted = deposit_creating beneficiary amount s.ledger in
      let previous = locked_amount 0 (locks minted beneficiary) in
      deposit_event (native_pdex_minted_and_locked relayer beneficiary amount) (record s {
        ledger =
            set_lock migration_lock beneficiary (saturating_add u128_mod amount previous) minted;
        locked_holders = update s.locked_holders beneficiary (some s.block_number);
        mintable_tokens = s.mintable_tokens - amount;
        eth_txs = update s.eth_txs eth_hash details;
      })

  -- `process_migration` behind its guards: one more approval, and the mint at the third.
  unfoldable pub approve : ℕ → ℕ → ℕ → ℕ → BurnTxDetails → State Ledger → State Ledger
  approve relayer beneficiary amount eth_hash details s =
      if details.approvals == 3
      then mint_and_lock relayer beneficiary amount eth_hash details s
      else deposit_event (token_burn_detected eth_hash relayer)
          (record s { eth_txs = update s.eth_txs eth_hash details })

  unfoldable pub process_migration : ℕ → ℕ → ℕ → ℕ → BurnTxDetails → Call
  process_migration relayer beneficiary amount eth_hash burn_details = do
    relayer_status ← gets (λ s. s.relayers relayer)
    ensure relayer_status unknown_relayer
    mintable ← gets (λ s. s.mintable_tokens)
    ensure (leb amount mintable) invalid_mint_amount
    ensure (ltb (length burn_details.approvers) config.max_relayers) relayer_limit_reached
    modify (
        approve relayer beneficiary amount eth_hash (record {
          approvals = wrapping_add u16_mod burn_details.approvals 1;
          approvers = burn_details.approvers ++ relayer ∷ [];
        }))

  unfoldable pub mint : Origin → ℕ → ℕ → ℕ → Call
  mint origin beneficiary amount eth_tx = do
    relayer ← ensure_signed bad_origin origin
    ensure (not (eth_tx == 0)) invalid_tx_hash
    operational ← gets (λ s. s.operational)
    ensure operational Error.not_operational
    burn_details ← gets (λ s. s.eth_txs eth_tx)
    ensure (not (contains relayer burn_details.approvers)) already_processed_eth_burn_tx
    process_migration relayer beneficiary amount eth_tx burn_details

  -- `process_unlock` after `take`, which has emptied the entry.
  unfoldable pub unlock_taken : ℕ → Option ℕ → Call
  unlock_taken beneficiary none s = (err unknown_beneficiary, s)
  unlock_taken beneficiary (some locked_block) s =
      if leb (wrapping_add u32_mod locked_block config.lock_period) s.block_number
      then (ok tt, record s { ledger = remove_lock migration_lock beneficiary s.ledger })
      else (
        err liquidity_restrictions,
        record s { locked_holders = update s.locked_holders beneficiary (some locked_block) },
      )

  unfoldable pub process_unlock : ℕ → Call
  process_unlock beneficiary s =
      unlock_taken beneficiary (s.locked_holders beneficiary)
        (record s { locked_holders = update s.locked_holders beneficiary none })

  unfoldable pub unlock : Origin → Call
  unlock origin = do
    beneficiary ← ensure_signed bad_origin origin
    operational ← gets (λ s. s.operational)
    ensure operational Error.not_operational
    process_unlock beneficiary

  -- The burn of `remove_fradulent_tokens` and what follows it.
  unfoldable pub burn_locked : ℕ → ℕ → Call
  burn_locked beneficiary amount_to_burn s = elim (burn_from beneficiary amount_to_burn s.ledger) [
    | ok burned ↦ (
      ok tt,
      deposit_event (reverted_minted_tokens beneficiary) (record s {
        ledger = burned;
        mintable_tokens = wrapping_add u128_mod s.mintable_tokens amount_to_burn;
      }),
    )
    | err e ↦ (err (dispatch e), s)
  ]

  unfoldable pub remove_fradulent_tokens : ℕ → Call
  remove_fradulent_tokens beneficiary s =
      burn_locked beneficiary (first_locked_amount (locks s.ledger beneficiary)) (record s {
        locked_holders = update s.locked_holders beneficiary none;
        ledger = remove_lock migration_lock beneficiary s.ledger;
      })

  unfoldable pub remove_minted_tokens : Origin → ℕ → Call
  remove_minted_tokens origin beneficiary = do
    ensure_root bad_origin origin
    remove_fradulent_tokens beneficiary

  -- What a call leaves behind, with no storage layer of the runtime around it.
  unfoldable pub execute : Request → State Ledger → State Ledger
  execute (sets_operational origin status) s = (set_migration_operational_status origin status s).1
  execute (sets_relayer origin relayer status) s = (set_relayer_status origin relayer status s).1
  execute (mints origin beneficiary amount eth_tx) s = (mint origin beneficiary amount eth_tx s).1
  execute (unlocks origin) s = (unlock origin s).1
  execute (removes_minted origin beneficiary) s = (remove_minted_tokens origin beneficiary s).1
  execute (block_ends) s = record s { block_number = s.block_number + 1 }

  unfoldable pub run : List Request → State Ledger → State Ledger
  run [] s = s
  run (r ∷ rs) s = run rs (execute r s)
