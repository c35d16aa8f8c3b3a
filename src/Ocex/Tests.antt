-- ===== src/Ocex/Tests.antt =====
-- Each theorem of the OCEX pallet's storage, settlement and trees at a concrete input.
mod Calls
use polkadex_node.Prelude.{
  ◌↔◌, ℕ, zero, suc, ◌+◌, ◌*◌, ◌^◌, ◌-◌, ltb, ◌⊎◌, ◌≤◌, ◌<◌, ◌≡◌, ◌≢◌, refl, inl, inr, Bool, true,
  false, Option, none, some, List, [], ◌∷◌, arith, ◌==◌, if◌then◌else◌, Bool-cases, contains, keys,
  map_get, map_insert, map_remove, set_insert, set_remove,
}
use polkadex_node.Frame.{Result, ok, err}
use polkadex_node.Ocex.Decimal.{mantissa_limit, rounding_off}
use polkadex_node.Ocex.Types.{TradingPairConfig}
use polkadex_node.Ocex.Storage.{OffchainState, get, insert, remove, insert_all, remove_all, commit}
use polkadex_node.Ocex.Storage.View.{pending}
use polkadex_node.Ocex.Storage.Refinement.{
  reads, inserts, removes, commits, Request, run, execute, abstract_run, commit-abstract_run,
  get-pending,
}
use polkadex_node.Ocex.Orders.{
  ask, bid, OrderSide, limit, open_order, Order, Trade, Signatures, verify_config, verify_signature,
  verify_trade, credit, debit,
}
use polkadex_node.Ocex.Orders.Priority.{
  less, equal, greater, order_cmp, IsAhead, order_cmp_iff, both_less_iff,
}
use polkadex_node.Ocex.Settlement.{
  FeeConfig, in_storage, load, raised, taken, add_balance, sub_balance, settle_party, process_trade,
}
use polkadex_node.Ocex.Settlement.Balances.{entry, entry-sub_balance}
use polkadex_node.Ocex.Settlement.Totals.{total, balance, IsSound}
use polkadex_node.Ocex.Settlement.Trades.{process_trade_creates_nothing}
use polkadex_node.Ocex.Sample.{
  sample_decimals, sample_grid, sample_trie, sample_trie_laws, sample_codec, sample_codec_laws,
  encode_balances, decode_balances,
}

abbrev Trie : Type 0
Trie = ℕ → Option (List ℕ)

abbrev one_account : OffchainState Trie
one_account = record {
  cache = [];
  trie = λ key. if key == 1 then some (9 ∷ []) else none;
  keys_to_remove = [];
}

abbrev some_requests : List Request
some_requests = reads 1 ∷ inserts 2 (5 ∷ []) ∷ removes 1 ∷ inserts 3 (6 ∷ []) ∷ removes 3 ∷ []

commit-abstract_run_example :
    let s' = (commit sample_trie (run sample_trie some_requests one_account)).1 in
    ((j : ℕ) → ok (s'.trie j) ≡ abstract_run some_requests (pending sample_trie one_account) j)
    × (s'.cache ≡ [])
    × (s'.keys_to_remove ≡ [])
    × (◌≡◌ {A = ℕ} 7 (sample_trie.trie_root s'.trie))
unfolding commit run execute get insert remove insert_all remove_all map_get map_insert map_remove
    set_insert set_remove keys
commit-abstract_run_example =
    commit-abstract_run sample_trie sample_trie_laws some_requests one_account 7 (tt, tt) refl

-- Account 1 has 20 of asset 0, account 2 has 100 of asset 5, and 9 is the fee pot.
abbrev unit : ℕ
unit = 10 ^ 18

abbrev two_accounts : OffchainState Trie
two_accounts = record {
  cache = [];
  trie = λ key.
      if key == 1
      then some (0 ∷ 20 * 10 ^ 18 ∷ [])
      else if key == 2
      then some (5 ∷ 100 * 10 ^ 18 ∷ [])
      else none;
  keys_to_remove = [];
}

entry-sub_balance_example :
    let s' =
      (sub_balance sample_decimals sample_trie sample_codec 1 0 (5 * unit) false two_accounts).1 in
    (available : ℕ) × (entry sample_decimals sample_trie sample_codec two_accounts 1 0
      ≡ some available)
    × (((5 * unit ≡ 5 * unit) × (ltb available (5 * unit) ≡ false))
        ⊎ ((5 * unit ≡ available) × (false ≡ true) × (ltb available (5 * unit) ≡ true)))
    × ((b y : ℕ)
        → entry sample_decimals sample_trie sample_codec s' b y ≡ (
            if 1 == b
            then (if 0 == y
                then some (rounding_off sample_decimals (available - 5 * unit))
                else entry sample_decimals sample_trie sample_codec two_accounts b y)
            else entry sample_decimals sample_trie sample_codec two_accounts b y))
unfolding sub_balance load in_storage get taken insert map_get map_insert
entry-sub_balance_example =
    entry-sub_balance sample_decimals sample_trie sample_codec sample_codec_laws 1 0 (5 * unit)
      false two_accounts (5 * unit) refl

abbrev order_of : ℕ → OrderSide → Order sample_decimals
order_of account side = record {
  stid = 1;
  client_order_id = 8;
  avg_filled_price = 0;
  fee = 0;
  filled_quantity = 0;
  status = open_order;
  id = account + 50;
  user = account;
  main_account = account;
  pair = record { base = 0; quote = 5 };
  side = side;
  order_type = limit;
  qty = 2 * unit;
  price = 3 * unit;
  quote_order_qty = 0;
  timestamp = 1;
  overall_unreserved_volume = 0;
  signature = account;
}

abbrev later_order : ℕ → Order sample_decimals
later_order account = record (order_of account bid) { timestamp = 5 }

abbrev one_trade : Trade sample_decimals
one_trade = record {
  maker = order_of 1 ask;
  taker = order_of 2 bid;
  price = 3 * unit;
  amount = 2 * unit;
  time = 4;
}

abbrev one_pair : TradingPairConfig sample_decimals
one_pair = record {
  base_asset = 0;
  quote_asset = 5;
  price_tick_size = unit;
  min_volume = unit;
  max_volume = 1000 * unit;
  qty_step_size = unit;
  operational_status = true;
  base_asset_precision = 9;
  quote_asset_precision = 9;
}

abbrev own_signatures : Signatures sample_decimals
own_signatures = record {
  verify = λ signature payload user. signature == user;
  encode_payload = λ o. [];
  payload_text = λ o. none;
  wrap_prefix = [];
  wrap_postfix = [];
}

-- A thousandth.
abbrev some_fees : FeeConfig sample_decimals
some_fees = record { maker_fraction = 10 ^ 15; taker_fraction = 10 ^ 15 }

two_accounts-IsSound :
    IsSound sample_decimals sample_trie sample_codec sample_grid (100 * unit) two_accounts
unfolding map_get
two_accounts-IsSound account asset = (ground arith, ground arith)

process_trade_creates_nothing_example :
    let s' =
      (process_trade sample_decimals sample_trie sample_codec own_signatures 9 one_trade one_pair
        some_fees some_fees two_accounts).1 in
    total sample_decimals sample_trie sample_codec sample_grid 5 (1 ∷ 2 ∷ 9 ∷ []) s'
    ≤ total sample_decimals sample_trie sample_codec sample_grid 5 (1 ∷ 2 ∷ 9 ∷ []) two_accounts
unfolding process_trade settle_party add_balance sub_balance load in_storage get insert raised taken
    rounding_off map_get map_insert credit debit verify_trade verify_config verify_signature
process_trade_creates_nothing_example =
    process_trade_creates_nothing sample_decimals sample_trie sample_codec sample_grid
      sample_codec_laws own_signatures 9 one_trade one_pair some_fees some_fees (100 * unit)
      two_accounts (1 ∷ 2 ∷ 9 ∷ []) 5 (inl (refl, refl)) two_accounts-IsSound
      (omega arith, omega arith, omega arith) (omega arith, omega arith, omega arith) (omega arith)
      (refl, (refl, (refl, tt))) refl refl refl

order_cmp_iff_example :
    (order_cmp sample_decimals (order_of 1 bid) (later_order 2) ≡ some greater)
    ↔ IsAhead sample_decimals bid (order_of 1 bid) (later_order 2)
order_cmp_iff_example = order_cmp_iff sample_decimals bid (order_of 1 bid) (later_order 2) refl refl

both_less_iff_example :
    (order_cmp sample_decimals (order_of 1 ask) (order_of 2 ask) ≢ some equal)
    × ((order_cmp sample_decimals (order_of 1 ask) (order_of 2 ask) ≡ some less)
          × (order_cmp sample_decimals (order_of 2 ask) (order_of 1 ask) ≡ some less)
        ↔ (ltb (3 * unit) (3 * unit) ≡ false)
          × (ltb (3 * unit) (3 * unit) ≡ false)
          × (◌≡◌ {A = ℕ} 1 1))
both_less_iff_example =
    both_less_iff sample_decimals (λ x y h. ground (arith, h)) ask (order_of 1 ask) (order_of 2 ask)
      refl refl
