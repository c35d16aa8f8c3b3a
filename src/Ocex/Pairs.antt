-- ===== src/Ocex/Pairs.antt =====
-- The trading pairs of the exchange: the calls of pallets/ocex/src/lib.rs.
pub mod Precision
use polkadex_node.Prelude.{
  ℕ, ◌^◌, ◌%◌, min, Bool, true, false, not, ◌&&◌, Option, none, some, ltb, leb, ◌==◌, if◌then◌else◌,
  update₂, contains, is_some,
}
use polkadex_node.Frame.{
  Result, ok, err, Action, pure, raise, gets, modify, ensure, get_or_raise, ◌>>=◌, ◌>>◌, Origin,
}
use polkadex_node.Ocex.Types.{
  Runtime, State, TradingPairConfig, IngressMessage, Event, ingress_open_trading_pair,
  ingress_update_trading_pair, ingress_close_trading_pair, trading_pair_registered,
  trading_pair_updated, shutdown_trading_pair, opened_trading_pair, Error, exchange_not_operational,
  both_assets_cannot_be_same, trading_pair_not_found, trading_pair_not_registered,
  trading_pair_already_registered, trading_pair_is_not_closed, base_not_allowlisted,
  quote_not_allowlisted, amount_overflow, trading_pair_config_cannot_be_zero,
  trading_pair_config_underflow, min_vol_greater_than_max_volume, deposit_max,
  trade_operation_min_value, unit_balance,
}
use polkadex_node.Ocex.Decimal.{Decimals}
use polkadex_node.Ocex.Accounts.{Call, deposit_event, ensure_governance, push_ingress}

-- The parameters of a pair, in units.
pub record UnitParameters (d : Decimals) : Type 0 where
  pub min_volume : d.Decimal
  pub max_volume : d.Decimal
  pub price_tick_size : d.Decimal
  pub qty_step_size : d.Decimal

module _ (r : Runtime) where
  open r use {decimals, Ledger}
  open decimals use {Decimal, from_u128, checked_div, scale}

  abbrev pub Parameters : Type 0
  Parameters = UnitParameters decimals

  unfoldable pub validate_trading_pair_config : ℕ → ℕ → ℕ → ℕ → Call r
  validate_trading_pair_config min_volume max_volume price_tick_size qty_step_size = do
    ensure
        (ltb 0 min_volume && (ltb 0 max_volume && (ltb 0 price_tick_size && ltb 0 qty_step_size)))
        trading_pair_config_cannot_be_zero
    ensure
        (leb min_volume deposit_max
          && (leb max_volume deposit_max
              && (leb price_tick_size deposit_max && leb qty_step_size deposit_max)))
        amount_overflow
    ensure (leb trade_operation_min_value min_volume && ltb trade_operation_min_value max_volume)
        trading_pair_config_underflow
    ensure (ltb min_volume max_volume) min_vol_greater_than_max_volume

  -- `TradingPairs::get(base, quote).ok_or(..)`, the flag, and the write back.
  unfoldable pub set_operational :
      ℕ → ℕ → Bool → TradingPairConfig decimals → State decimals Ledger → State decimals Ledger
  set_operational base quote status pair s = record s {
    trading_pairs =
        update₂ s.trading_pairs base quote (some (record pair { operational_status = status }));
  }

  unfoldable pub close_trading_pair : Origin → ℕ → ℕ → Call r
  close_trading_pair origin base quote = do
    ensure_governance r origin
    operational ← gets (λ s. s.exchange_state)
    ensure operational exchange_not_operational
    ensure (not (base == quote)) both_assets_cannot_be_same
    pair ← get_or_raise (λ s. s.trading_pairs base quote) trading_pair_not_found
    modify (set_operational base quote false pair)
    push_ingress r (ingress_close_trading_pair (record pair { operational_status = false }))
    modify (deposit_event r (shutdown_trading_pair (record pair { operational_status = false })))

  unfoldable pub open_trading_pair : Origin → ℕ → ℕ → Call r
  open_trading_pair origin base quote = do
    ensure_governance r origin
    operational ← gets (λ s. s.exchange_state)
    ensure operational exchange_not_operational
    ensure (not (base == quote)) both_assets_cannot_be_same
    pair ← get_or_raise (λ s. s.trading_pairs base quote) trading_pair_not_found
    modify (set_operational base quote true pair)
    push_ingress r (ingress_open_trading_pair (record pair { operational_status = true }))
    modify (deposit_event r (opened_trading_pair (record pair { operational_status = true })))

  -- `Decimal::from(amount).checked_div(Decimal::from(UNIT_BALANCE))`
  unfoldable pub in_units : ℕ → Option Decimal
  in_units amount = checked_div (from_u128 amount) (from_u128 unit_balance)

  -- The four parameters in units, or none where one of them fails.
  unfoldable pub units_of : ℕ → ℕ → ℕ → ℕ → Option Parameters
  units_of low high tick step = elim (in_units low) [
    | none ↦ none
    | some low' ↦ elim (in_units high) [
      | none ↦ none
      | some high' ↦ elim (in_units tick) [
        | none ↦ none
        | some tick' ↦ elim (in_units step) [
          | none ↦ none
          | some step' ↦ some (record {
            min_volume = low';
            max_volume = high';
            price_tick_size = tick';
            qty_step_size = step';
          })
        ]
      ]
    ]
  ]

  -- The configuration of an open pair.
  abbrev pub opened_pair : ℕ → ℕ → Parameters → ℕ → ℕ → TradingPairConfig decimals
  opened_pair base quote parameters base_precision quote_precision = record {
    base_asset = base;
    quote_asset = quote;
    price_tick_size = parameters.price_tick_size;
    min_volume = parameters.min_volume;
    max_volume = parameters.max_volume;
    qty_step_size = parameters.qty_step_size;
    operational_status = true;
    base_asset_precision = base_precision;
    quote_asset_precision = quote_precision;
  }

  -- The write of a configuration, the message and the event.
  unfoldable pub store_pair :
      TradingPairConfig decimals → IngressMessage decimals → Event decimals → Call r
  store_pair pair message event = do
    modify (λ s. record s {
      trading_pairs = update₂ s.trading_pairs pair.base_asset pair.quote_asset (some pair);
    })
    push_ingress r message
    modify (deposit_event r event)

  unfoldable pub register_trading_pair : Origin → ℕ → ℕ → ℕ → ℕ → ℕ → ℕ → Call r
  register_trading_pair origin base quote min_volume max_volume price_tick_size qty_step_size = do
    ensure_governance r origin
    operational ← gets (λ s. s.exchange_state)
    ensure operational exchange_not_operational
    ensure (not (base == quote)) both_assets_cannot_be_same
    there ← gets (λ s. is_some (s.trading_pairs base quote))
    ensure (not there) trading_pair_already_registered
    reverse ← gets (λ s. is_some (s.trading_pairs quote base))
    ensure (not reverse) trading_pair_already_registered
    validate_trading_pair_config min_volume max_volume price_tick_size qty_step_size
    tokens ← gets (λ s. s.allowlisted_token)
    ensure (contains base tokens) base_not_allowlisted
    ensure (contains quote tokens) quote_not_allowlisted
    parameters ←
        get_or_raise (λ _. units_of min_volume max_volume price_tick_size qty_step_size)
          trading_pair_config_underflow
    pair ← pure (
        opened_pair base quote parameters (scale parameters.qty_step_size % 2 ^ 8)
          (scale parameters.price_tick_size % 2 ^ 8))
    store_pair pair (ingress_open_trading_pair pair) (trading_pair_registered base quote)

  unfoldable pub update_trading_pair : Origin → ℕ → ℕ → ℕ → ℕ → ℕ → ℕ → Call r
  update_trading_pair origin base quote min_volume max_volume price_tick_size qty_step_size = do
    ensure_governance r origin
    operational ← gets (λ s. s.exchange_state)
    ensure operational exchange_not_operational
    ensure (not (base == quote)) both_assets_cannot_be_same
    old ← get_or_raise (λ s. s.trading_pairs base quote) trading_pair_not_registered
    ensure (not old.operational_status) trading_pair_is_not_closed
    validate_trading_pair_config min_volume max_volume price_tick_size qty_step_size
    parameters ←
        get_or_raise (λ _. units_of min_volume max_volume price_tick_size qty_step_size)
          trading_pair_config_underflow
    pair ← pure (
        opened_pair base quote parameters (min (scale parameters.price_tick_size) 255)
          (min (scale parameters.qty_step_size) 255))
    store_pair pair (ingress_update_trading_pair pair) (trading_pair_updated base quote)
