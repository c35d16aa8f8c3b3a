-- ===== src/Currency/Sample.antt =====
-- A small ledger with locks that meets the laws of `LedgerLaws`.
use polkadex_node.Prelude.{
  ℕ, ◌+◌, ◌-◌, ◌≡◌, refl, some, none, List, [], ◌∷◌, arith, ltb, ◌==◌, if◌then◌else◌, update,
}
use polkadex_node.Frame.{Result, ok, err}
use polkadex_node.Currency.{BalanceLock, LockableCurrency, lock_of, LedgerLaws}

pub record Book : Type 0 where
  pub issued : ℕ
  pub free : ℕ → ℕ
  pub held_locks : ℕ → List BalanceLock

abbrev put_lock : ℕ → ℕ → List BalanceLock → List BalanceLock
put_lock i a [] = record { id = i; amount = a } ∷ []
put_lock i a (l ∷ ls) =
    if l.id == i then record { id = i; amount = a } ∷ ls else l ∷ put_lock i a ls

abbrev drop_lock : ℕ → List BalanceLock → List BalanceLock
drop_lock i [] = []
drop_lock i (l ∷ ls) = if l.id == i then drop_lock i ls else l ∷ drop_lock i ls

lock_of-put_lock : (i a : ℕ) (ls : List BalanceLock) → lock_of i (put_lock i a ls) ≡ some a
lock_of-put_lock i a [] = ground arith
lock_of-put_lock i a (l ∷ ls) = ground (arith, lock_of-put_lock i a ls)

lock_of-drop_lock : (i : ℕ) (ls : List BalanceLock) → lock_of i (drop_lock i ls) ≡ none
lock_of-drop_lock i [] = refl
lock_of-drop_lock i (l ∷ ls) = ground (arith, lock_of-drop_lock i ls)

abbrev move : ℕ → ℕ → ℕ → Book → Result ℕ Book
move payer payee amount b =
    if ltb amount (b.free payer)
    then ok (record b {
      free =
          let without = update b.free payer (b.free payer - amount) in
          update without payee (without payee + amount);
    })
    else err 1

abbrev burn : ℕ → ℕ → Book → Result ℕ Book
burn who amount b =
    if ltb b.issued amount
    then err 2
    else if ltb (b.free who) amount
    then err 2
    else ok
        (record b { issued = b.issued - amount; free = update b.free who (b.free who - amount) })

abbrev pub book_currency : LockableCurrency
book_currency = record {
  Ledger = Book;
  locks = λ b who. b.held_locks who;
  total_issuance = λ b. b.issued;
  free_balance = λ b who. b.free who;
  set_lock = λ i who amount b. record b {
    held_locks = update b.held_locks who (put_lock i amount (b.held_locks who));
  };
  remove_lock =
      λ i who b. record b { held_locks = update b.held_locks who (drop_lock i (b.held_locks who)) };
  deposit_creating = λ who amount b. record b {
    issued = b.issued + amount;
    free = update b.free who (b.free who + amount);
  };
  burn_from = burn;
  transfer = move;
}

pub book_laws : LedgerLaws book_currency
book_laws = record {
  lock_of-set_lock =
      λ i who amount b h. ground (arith, lock_of-put_lock i amount (b.held_locks who));
  locks-set_lock_ne = λ i who amount other b h. ground arith;
  lock_of-remove_lock = λ i who b. ground (arith, lock_of-drop_lock i (b.held_locks who));
  locks-remove_lock_ne = λ i who other b h. ground arith;
  locks-deposit_creating = λ who amount other b. refl;
  locks-transfer = λ payer payee amount other b b' h. ground arith;
  issuance-set_lock = λ i who amount b. refl;
  issuance-remove_lock = λ i who b. refl;
  issuance-deposit_creating = λ who amount b. omega arith;
  issuance-burn_from = λ who amount b b' h. ground arith;
  free_balance-transfer = λ payer payee amount b b' ne h. (ground arith, ground arith);
  free_balance-set_lock = λ i who amount other b. refl;
  free_balance-remove_lock = λ i who other b. refl;
}
