-- ===== src/Ocex/Orders.antt =====
-- Orders and trades of primitives/orderbook/src/types.rs.
pub mod Priority
pub mod Sides
use polkadex_node.Prelude.{
  ℕ, Bool, true, false, not, ◌&&◌, Option, none, some, List, ◌++◌, ◌==◌, if◌then◌else◌,
}
use polkadex_node.Ocex.Decimal.{Decimals}
use polkadex_node.Ocex.Types.{TradingPairConfig}

pub data OrderSide : Type 0 where
  ask bid : OrderSide

pub data OrderType : Type 0 where
  limit market : OrderType

pub data OrderStatus : Type 0 where
  open_order closed_order cancelled_order : OrderStatus

pub record TradingPair : Type 0 where
  pub base : ℕ
  pub quote : ℕ

-- `AccountAsset`
pub record AccountAsset : Type 0 where
  pub main : ℕ
  pub asset : ℕ

module _ (d : Decimals) where
  open d use {Decimal, decimal_mul, mul, rem, is_zero, below}

  pub record Order : Type 0 where
    pub stid : ℕ
    pub client_order_id : ℕ
    pub avg_filled_price : Decimal
    pub fee : Decimal
    pub filled_quantity : Decimal
    pub status : OrderStatus
    pub id : ℕ
    pub user : ℕ
    pub main_account : ℕ
    pub pair : TradingPair
    pub side : OrderSide
    pub order_type : OrderType
    pub qty : Decimal
    pub price : Decimal
    pub quote_order_qty : Decimal
    pub timestamp : ℕ
    pub overall_unreserved_volume : Decimal
    pub signature : ℕ

  pub record Trade : Type 0 where
    pub maker : Order
    pub taker : Order
    pub price : Decimal
    pub amount : Decimal
    pub time : ℕ

  -- What the checks of a signature take from third-party code: the verification, and the payload of
  -- an order as bytes and as text.
  pub record Signatures : Type 0 where
    pub verify : ℕ → List ℕ → ℕ → Bool
    pub encode_payload : Order → List ℕ
    pub payload_text : Order → Option (List ℕ)
    -- `EXT_WRAP_PREFIX` and `EXT_WRAP_POSTFIX`, as bytes
    pub wrap_prefix : List ℕ
    pub wrap_postfix : List ℕ

  -- `Order::verify_config`
  unfoldable pub verify_config : TradingPairConfig d → Order → Bool
  verify_config config o =
      let is_market_same =
        (o.pair.base == config.base_asset) && (o.pair.quote == config.quote_asset) in
      let volume = decimal_mul o.price o.qty in
      elim o.order_type [
        | limit ↦
            is_market_same
            && (not (below volume config.min_volume)
                && (not (below config.max_volume volume)
                    && (is_zero (rem o.price config.price_tick_size)
                        && is_zero (rem o.qty config.qty_step_size))))
        | market ↦ elim o.side [
          | ask ↦ is_market_same && is_zero (rem o.qty config.qty_step_size)
          | bid ↦
              is_market_same
              && (not (below o.quote_order_qty config.min_volume)
                  && (not (below config.max_volume o.quote_order_qty)
                      && is_zero (rem o.quote_order_qty config.price_tick_size)))
        ]
      ]

  -- `Order::verify_signature`, with `verify_extension_signature`
  unfoldable pub verify_signature : Signatures → Order → Bool
  verify_signature g o =
      if g.verify o.signature (g.encode_payload o) o.user then true else elim (g.payload_text o) [
        | none ↦ false
        | some text ↦
            g.verify o.signature (g.wrap_prefix ++ (text ++ g.wrap_postfix)) o.main_account
      ]

  -- `Trade::verify`
  unfoldable pub verify_trade : Signatures → TradingPairConfig d → Trade → Bool
  verify_trade g config t =
      verify_signature g t.maker
      && (verify_signature g t.taker
          && (verify_config config t.maker && verify_config config t.taker))

  -- `Trade::credit`
  unfoldable pub credit : Bool → Trade → AccountAsset × Decimal
  credit maker t =
      let user = if maker then t.maker else t.taker in
      elim user.side [
        | ask ↦ (record { main = user.main_account; asset = user.pair.quote }, mul t.price t.amount)
        | bid ↦ (record { main = user.main_account; asset = user.pair.base }, t.amount)
      ]

  -- `Trade::debit`
  unfoldable pub debit : Bool → Trade → AccountAsset × Decimal
  debit maker t =
      let user = if maker then t.maker else t.taker in
      elim user.side [
        | ask ↦ (record { main = user.main_account; asset = user.pair.base }, t.amount)
        | bid ↦ (record { main = user.main_account; asset = user.pair.quote }, mul t.price t.amount)
      ]
