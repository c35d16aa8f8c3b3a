-- ===== src/Ocex/Orders/Sides.antt =====
-- What a verified trade of primitives/orderbook/src/types.rs exchanges.
use polkadex_node.Prelude.{◌≡◌, refl, ◌⊎◌, inl, inr, true, false, arith}
use polkadex_node.Ocex.Decimal.{Decimals}
use polkadex_node.Ocex.Types.{TradingPairConfig}
use polkadex_node.Ocex.Orders.{
  OrderSide, ask, bid, OrderType, limit, market, Order, Trade, Signatures, verify_config,
  verify_trade, credit, debit,
}

side-cases : (side : OrderSide) → (side ≡ ask) ⊎ (side ≡ bid)
side-cases ask = inl refl
side-cases bid = inr refl

type-cases : (order_type : OrderType) → (order_type ≡ limit) ⊎ (order_type ≡ market)
type-cases limit = inl refl
type-cases market = inr refl

module _ (d : Decimals) where
  verify_config_pair :
      (config : TradingPairConfig d) (o : Order d)
      → verify_config d config o ≡ true
      → (o.pair.base ≡ config.base_asset) × (o.pair.quote ≡ config.quote_asset)
  unfolding verify_config
  verify_config_pair config o h = elim (type-cases o.order_type) [
    | inl is_limit ↦ (ground (arith, is_limit, h), ground (arith, is_limit, h))
    | inr is_market ↦ elim (side-cases o.side) [
      | inl asks ↦ (ground (arith, is_market, asks, h), ground (arith, is_market, asks, h))
      | inr bids ↦ (ground (arith, is_market, bids, h), ground (arith, is_market, bids, h))
    ]
  ]

  -- One of the two sells and the other one buys.
  abbrev pub AreOpposite : Trade d → Type 0
  AreOpposite t =
      ((t.maker.side ≡ ask) × (t.taker.side ≡ bid)) ⊎ ((t.maker.side ≡ bid) × (t.taker.side ≡ ask))

  -- The orders of a verified trade are for the same pair.
  pub verify_trade_pair :
      (g : Signatures d) (config : TradingPairConfig d) (t : Trade d)
      → verify_trade d g config t ≡ true
      → (t.maker.pair.base ≡ t.taker.pair.base) × (t.maker.pair.quote ≡ t.taker.pair.quote)
  unfolding verify_trade
  verify_trade_pair g config t h =
      let of_maker = verify_config_pair config t.maker (ground (arith, h)) in
      let of_taker = verify_config_pair config t.taker (ground (arith, h)) in
      (ground (arith, of_maker, of_taker), ground (arith, of_maker, of_taker))

  -- In a verified trade between opposite sides, what the one is credited the other is debited: the
  -- same amount of the same asset.
  pub credit-debit :
      (g : Signatures d) (config : TradingPairConfig d) (t : Trade d)
      → verify_trade d g config t ≡ true
      → AreOpposite t
      → ((credit d true t).0.asset ≡ (debit d false t).0.asset)
        × ((credit d true t).1 ≡ (debit d false t).1)
        × ((credit d false t).0.asset ≡ (debit d true t).0.asset)
        × ((credit d false t).1 ≡ (debit d true t).1)
  unfolding credit debit
  credit-debit g config t h opposite =
      let same = verify_trade_pair g config t h in
      elim opposite [
        | inl (asks, bids) ↦ (
          ground (arith, asks, bids, same),
          ground (arith, asks, bids, same),
          ground (arith, asks, bids, same),
          ground (arith, asks, bids, same),
        )
        | inr (bids, asks) ↦ (
          ground (arith, asks, bids, same),
          ground (arith, asks, bids, same),
          ground (arith, asks, bids, same),
          ground (arith, asks, bids, same),
        )
      ]
