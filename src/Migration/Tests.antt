-- ===== src/Migration/Tests.antt =====
-- Runs of the pdex-migration pallet over the sample ledger.
use polkadex_node.Prelude.{
  ℕ, ◌+◌, ◌≤◌, ◌≡◌, ◌↔◌, refl, ap, length, Distinct, List, [], ◌∷◌, some, none, true, arith,
  if◌then◌else◌, ◌==◌, ◌%◌, ◌^◌,
}
use polkadex_node.Frame.{ok, err, root, signed}
use polkadex_node.Currency.Sample.{Book, book_currency, book_laws}
use polkadex_node.Migration.Types.{
  Config, State, default_burn, Request, mints, unlocks, removes_minted, block_ends,
  liquidity_restrictions, unknown_relayer,
}
use polkadex_node.Migration.Calls.{
  mint, unlock, process_migration, approve, mint_and_lock, deposit_event, run, set_relayer_status,
  set_migration_operational_status,
}
use polkadex_node.Migration.Supply.{supply, run-supply}
use polkadex_node.Migration.Approvals.{IsRecorded, IsConsistent, run-IsConsistent}
use polkadex_node.Migration.Minting.{minted_once, early_terms_ignored}
use polkadex_node.Migration.Locks.{
  unlock_iff, failed_calls_write_nothing, IsAllOrNothing, minted_tokens_stay_locked,
}

abbrev settings : Config
settings = record { max_relayers = 5; lock_period = 10 }

-- Relayers 1 and 2 have approved transaction 7; relayers 1 to 4 are registered.
abbrev pending : State Book
pending = record {
  relayers = λ a. if a == 1 then true else if a == 2 then true else if a == 3 then true else a == 4;
  operational = true;
  mintable_tokens = 1000;
  locked_holders = λ _. none;
  eth_txs =
      λ tx. if tx == 7 then record { approvals = 2; approvers = 1 ∷ 2 ∷ [] } else default_burn;
  ledger = record { issued = 50; free = λ _. 5; held_locks = λ _. [] };
  block_number = 100;
  events = [];
}

pending-IsConsistent : IsConsistent book_currency settings (omega arith) pending
pending-IsConsistent tx = ground arith

third_approval : (mint book_currency settings (signed 3) 9 400 7 pending).1.mintable_tokens ≡ 600
unfolding mint process_migration approve mint_and_lock deposit_event
third_approval = refl

stranger : (mint book_currency settings (signed 8) 9 400 7 pending).0 ≡ err unknown_relayer
unfolding mint process_migration
stranger = refl

abbrev history : List Request
history = mints (signed 3) 9 400 7 ∷ unlocks (signed 9) ∷ block_ends ∷ removes_minted root 9 ∷ []

run-supply_example :
    supply book_currency settings book_laws (run book_currency settings history pending) ≤ 1050
run-supply_example = run-supply book_currency settings book_laws history pending

run-IsConsistent_example :
    IsRecorded settings ((run book_currency settings history pending).eth_txs 7)
run-IsConsistent_example =
    run-IsConsistent book_currency settings (omega arith) history pending pending-IsConsistent 7

minted_once_example :
    let minted = (mint book_currency settings (signed 3) 9 400 7 pending).1 in
    let s₁ = run book_currency settings history minted in
    (length (minted.eth_txs 7).approvers ≡ 3)
    × Distinct (minted.eth_txs 7).approvers
    × ((mint book_currency settings (signed 4) 10 500 7 s₁).1.ledger ≡ s₁.ledger)
unfolding mint process_migration approve mint_and_lock deposit_event
minted_once_example =
    minted_once book_currency settings (omega arith) 7 pending history (signed 3) (signed 4) 9 10
      400 500 pending-IsConsistent (λ h. absurd (ground (arith, ap (λ (l : Book). l.issued) h)))

early_terms_ignored_example :
    mint book_currency settings (signed 3) 9 400 8 pending
    ≡ mint book_currency settings (signed 3) 10 1 8 pending
early_terms_ignored_example =
    early_terms_ignored book_currency settings (signed 3) 9 10 400 1 8 pending (omega arith)
      (omega arith) (omega arith)

unlock_iff_example : ((unlock book_currency settings (signed 9) pending).0 ≡ ok tt) ↔ (
    (pending.operational ≡ true)
    × (b : ℕ) × (pending.locked_holders 9 ≡ some b)
    × ((b + 10) % 2 ^ 32 ≤ 100))
unlock_iff_example = unlock_iff book_currency settings 9 pending

failed_calls_write_nothing_example :
    IsAllOrNothing book_currency settings (mint book_currency settings (signed 8) 9 400 7) pending
    × IsAllOrNothing book_currency settings (unlock book_currency settings (signed 8)) pending
    × IsAllOrNothing book_currency settings
        (set_relayer_status book_currency settings (signed 8) 9 true)
        pending
    × IsAllOrNothing book_currency settings
        (set_migration_operational_status book_currency settings (signed 8) true)
        pending
failed_calls_write_nothing_example =
    failed_calls_write_nothing book_currency settings (signed 8) 9 400 7 true pending

minted_tokens_stay_locked_example :
    let s' = (mint book_currency settings (signed 3) 9 400 7 pending).1 in
    let later = record s' { block_number = 109 } in
    unlock book_currency settings (signed 9) later ≡ (err liquidity_restrictions, later)
unfolding mint process_migration
minted_tokens_stay_locked_example =
    minted_tokens_stay_locked book_currency settings 3 9 400 7 109 pending refl refl (omega arith)
