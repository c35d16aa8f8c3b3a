-- ===== src/Currency.antt =====
-- pallet_balances as the pallets see it: a third-party component, so its ledger and operations are
-- parameters. `LockableCurrency` lists the operations that the sources call, `LedgerLaws` the
-- documented behaviour that a theorem may take as a hypothesis.
pub mod Sample
use polkadex_node.Prelude.{
  ℕ, ◌+◌, ◌≤◌, ◌<◌, ◌≡◌, ◌≢◌, Option, none, some, List, [], ◌∷◌, ◌==◌, if◌then◌else◌,
}
use polkadex_node.Frame.{Result, ok}

-- `pallet_balances::BalanceLock`
pub record BalanceLock : Type 0 where
  pub id : ℕ
  pub amount : ℕ

-- Accounts, amounts and lock identifiers are numbers. The error of a call is a `DispatchError` code.
pub record LockableCurrency : Type 1 where
  pub Ledger : Type 0
  -- `Locks::<T>::get(who)`
  pub locks : Ledger → ℕ → List BalanceLock
  pub total_issuance : Ledger → ℕ
  pub free_balance : Ledger → ℕ → ℕ
  -- `set_lock(id, who, amount, WithdrawReasons::TRANSFER)`
  pub set_lock : ℕ → ℕ → ℕ → Ledger → Ledger
  -- `remove_lock(id, who)`
  pub remove_lock : ℕ → ℕ → Ledger → Ledger
  -- `deposit_creating(who, amount)`
  pub deposit_creating : ℕ → ℕ → Ledger → Ledger
  -- `burn_from(who, amount, Expendable, Exact, Polite)`
  pub burn_from : ℕ → ℕ → Ledger → Result ℕ Ledger
  -- `transfer(payer, payee, amount, KeepAlive)`
  pub transfer : ℕ → ℕ → ℕ → Ledger → Result ℕ Ledger

-- The amount of the first lock with an identifier.
abbrev pub lock_of : ℕ → List BalanceLock → Option ℕ
lock_of i [] = none
lock_of i (l ∷ ls) = if l.id == i then some l.amount else lock_of i ls

module _ (c : LockableCurrency) where
  open c use {
    Ledger, locks, total_issuance, free_balance, set_lock, remove_lock, deposit_creating, burn_from,
    transfer,
  }

  -- What pallet_balances documents.
  pub record LedgerLaws : Type 0 where
    -- A lock of a positive amount is set, in place of one with the same identifier.
    pub lock_of-set_lock :
        (i who amount : ℕ) (l : Ledger)
        → 0 < amount
        → lock_of i (locks (set_lock i who amount l) who) ≡ some amount
    pub locks-set_lock_ne :
        (i who amount other : ℕ) (l : Ledger)
        → who ≢ other
        → locks (set_lock i who amount l) other ≡ locks l other
    pub lock_of-remove_lock :
        (i who : ℕ) (l : Ledger) → lock_of i (locks (remove_lock i who l) who) ≡ none
    pub locks-remove_lock_ne :
        (i who other : ℕ) (l : Ledger)
        → who ≢ other
        → locks (remove_lock i who l) other ≡ locks l other
    pub locks-deposit_creating :
        (who amount other : ℕ) (l : Ledger)
        → locks (deposit_creating who amount l) other ≡ locks l other
    pub locks-transfer :
        (payer payee amount other : ℕ) (l l' : Ledger)
        → transfer payer payee amount l ≡ ok l'
        → locks l' other ≡ locks l other
    -- Locks do not change the issuance; a deposit creates at most its amount (nothing where it is
    -- too small to open an account); an exact burn destroys at least its amount.
    pub issuance-set_lock :
        (i who amount : ℕ) (l : Ledger)
        → total_issuance (set_lock i who amount l) ≡ total_issuance l
    pub issuance-remove_lock :
        (i who : ℕ) (l : Ledger) → total_issuance (remove_lock i who l) ≡ total_issuance l
    pub issuance-deposit_creating :
        (who amount : ℕ) (l : Ledger)
        → total_issuance (deposit_creating who amount l) ≤ total_issuance l + amount
    pub issuance-burn_from :
        (who amount : ℕ) (l l' : Ledger)
        → burn_from who amount l ≡ ok l'
        → total_issuance l' + amount ≤ total_issuance l
    -- A transfer between two accounts moves its amount.
    pub free_balance-transfer :
        (payer payee amount : ℕ) (l l' : Ledger)
        → payer ≢ payee
        → transfer payer payee amount l ≡ ok l'
        → (free_balance l' payee ≡ free_balance l payee + amount)
          × (free_balance l' payer + amount ≡ free_balance l payer)
    pub free_balance-set_lock :
        (i who amount other : ℕ) (l : Ledger)
        → free_balance (set_lock i who amount l) other ≡ free_balance l other
    pub free_balance-remove_lock :
        (i who other : ℕ) (l : Ledger)
        → free_balance (remove_lock i who l) other ≡ free_balance l other
