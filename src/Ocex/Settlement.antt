-- ===== src/Ocex/Settlement.antt =====
-- The balances of the orderbook and the settlement of a trade: pallets/ocex/src/settlement.rs.
pub mod Balances
pub mod Conservation
pub mod Totals
pub mod Trades
use polkadex_node.Prelude.{
  ℕ, ◌≡◌, Bool, true, false, Option, none, some, List, [], if◌then◌else◌, BTreeMap, map_get,
  map_insert,
}
use polkadex_node.Frame.{Result, ok, err, Action, pure, raise, ensure, get_or_raise, ◌>>=◌, ◌>>◌}
use polkadex_node.Ocex.Decimal.{Decimals, rounding_off}
use polkadex_node.Ocex.Types.{TradingPairConfig}
use polkadex_node.Ocex.Storage.{TrieDb, OffchainState, get, insert}
use polkadex_node.Ocex.Orders.{Trade, Signatures, AccountAsset, verify_trade, credit, debit}

-- The texts of the errors.
pub data Failure : Type 0 where
  trie_failure : ℕ → Failure
  unable_to_decode_balances account_not_found zero_balance not_enough_balance invalid_trade :
      Failure

-- `FeeConfig` of primitives/polkadex/src/fees.rs
pub record FeeConfig (d : Decimals) : Type 0 where
  pub maker_fraction : d.Decimal
  pub taker_fraction : d.Decimal

-- The codec of the balances of an account.
pub record Codec (d : Decimals) : Type 0 where
  pub encode : BTreeMap d.Decimal → List ℕ
  pub decode : List ℕ → Option (BTreeMap d.Decimal)

pub record CodecLaws (d : Decimals) (c : Codec d) : Type 0 where
  pub decode-encode : (m : BTreeMap d.Decimal) → c.decode (c.encode m) ≡ some m

-- An operation of the storage, with its error.
unfoldable pub in_storage : {S A : Type 0} → Action S ℕ A → Action S Failure A
in_storage m s =
    let (r, s') = m s in elim r [ ok a ↦ (ok a, s') | err e ↦ (err (trie_failure e), s') ]

module _ (d : Decimals) (t : TrieDb) (c : Codec d) where
  open d use {Decimal, zero_decimal, decimal_add, decimal_sub, decimal_mul, below}
  open t use {Trie}

  -- The read of the balances with which `get_balance`, `add_balance` and `sub_balance` begin.
  unfoldable pub load : ℕ → Action (OffchainState Trie) Failure (Option (BTreeMap Decimal))
  load account = do
    stored ← in_storage (get t account)
    elim stored [
      | none ↦ pure none
      | some bytes ↦ elim (c.decode bytes) [
        | none ↦ raise unable_to_decode_balances
        | some balances ↦ pure (some balances)
      ]
    ]

  unfoldable pub get_balance : ℕ → ℕ → Action (OffchainState Trie) Failure Decimal
  get_balance account asset = do
    balances ← load account
    elim balances [
      | none ↦ pure zero_decimal
      | some m ↦ elim (map_get asset m) [ none ↦ pure zero_decimal | some total ↦ pure total ]
    ]

  -- `entry(asset).and_modify(..).or_insert(balance)`: a first balance is not rounded.
  unfoldable pub raised : Option Decimal → Decimal → Decimal
  raised none balance = balance
  raised (some total) balance = rounding_off d (decimal_add total balance)

  unfoldable pub add_balance : ℕ → ℕ → Decimal → Action (OffchainState Trie) Failure (Unit {0})
  add_balance account asset balance = do
    balances ← load account
    m ← elim balances [ none ↦ pure [] | some m ↦ pure m ]
    in_storage (insert t account (c.encode (map_insert asset (raised (map_get asset m) balance) m)))

  -- How much is taken: what is asked for, or for a withdrawal what is there.
  unfoldable pub taken : Bool → Decimal → Decimal → Option Decimal
  taken is_withdrawal available balance =
      if below available balance
      then (if is_withdrawal then some available else none)
      else some balance

  unfoldable pub sub_balance : ℕ → ℕ → Decimal → Bool → Action (OffchainState Trie) Failure Decimal
  sub_balance account asset balance is_withdrawal = do
    balances ← load account
    m ← get_or_raise (λ _. balances) account_not_found
    available ← get_or_raise (λ _. map_get asset m) zero_balance
    amount ← get_or_raise (λ _. taken is_withdrawal available balance) not_enough_balance
    in_storage (
        insert t account
          (c.encode (map_insert asset (rounding_off d (decimal_sub available amount)) m)))
    pure amount

  -- The block of `process_trade` for one party: the credit less the fee, the fee, the debit.
  unfoldable pub settle_party :
      ℕ
      → Decimal
      → AccountAsset × Decimal
      → AccountAsset × Decimal
      → Action (OffchainState Trie) Failure (Unit {0})
  settle_party pot_account fraction credited debited = do
    add_balance credited.0.main credited.0.asset
        (decimal_sub credited.1 (decimal_mul credited.1 fraction))
    add_balance pot_account credited.0.asset (decimal_mul credited.1 fraction)
    sub_balance debited.0.main debited.0.asset debited.1 false
    pure tt

  unfoldable pub process_trade :
      Signatures d
      → ℕ
      → Trade d
      → TradingPairConfig d
      → FeeConfig d
      → FeeConfig d
      → Action (OffchainState Trie) Failure (Unit {0})
  process_trade g pot_account trade config maker_fees taker_fees = do
    ensure (verify_trade d g config trade) invalid_trade
    settle_party pot_account maker_fees.maker_fraction (credit d true trade) (debit d true trade)
    settle_party pot_account taker_fees.taker_fraction (credit d false trade) (debit d false trade)
