-- ===== src/Ocex/Orders/Priority.antt =====
-- The order of orders in the book: `OrderKey` and the two `Ord::cmp` of
-- primitives/orderbook/src/types.rs.
use polkadex_node.Prelude.{
  ℕ, ◌<◌, ◌≡◌, ◌≢◌, ◌↔◌, ◌⊎◌, inl, inr, true, false, Option, none, some, arith, ltb, if◌then◌else◌,
  Bool-cases,
}
use polkadex_node.Ocex.Decimal.{Decimals}
use polkadex_node.Ocex.Orders.{OrderSide, ask, bid, Order}

pub data Ordering : Type 0 where
  less equal greater : Ordering

module _ (d : Decimals) where
  open d use {Decimal, below}

  -- The timestamp, an `i64` in the source, is only compared.
  pub record OrderKey : Type 0 where
    pub price : Decimal
    pub timestamp : ℕ
    pub side : OrderSide

  -- `Order::key`
  unfoldable pub key : Order d → OrderKey
  key o = record { price = o.price; timestamp = o.timestamp; side = o.side }

  -- `Decimal::cmp`
  unfoldable pub price_cmp : Decimal → Decimal → Ordering
  price_cmp a b = if below a b then less else if below b a then greater else equal

  -- The arm for equal prices.
  unfoldable pub time_cmp : OrderKey → OrderKey → Ordering
  time_cmp a b = if ltb a.timestamp b.timestamp then greater else less

  -- `OrderKey::cmp`; none is the panic of the assertion on the sides.
  unfoldable pub key_cmp : OrderKey → OrderKey → Option Ordering
  key_cmp a b = elim a.side [
    | bid ↦ elim b.side [
      | ask ↦ none
      | bid ↦ elim (price_cmp a.price b.price) [
        | less ↦ some less
        | equal ↦ some (time_cmp a b)
        | greater ↦ some greater
      ]
    ]
    | ask ↦ elim b.side [
      | bid ↦ none
      | ask ↦ elim (price_cmp a.price b.price) [
        | less ↦ some greater
        | equal ↦ some (time_cmp a b)
        | greater ↦ some less
      ]
    ]
  ]

  -- `Order::cmp`, which reads of an order what its key has.
  unfoldable pub order_cmp : Order d → Order d → Option Ordering
  order_cmp a b = key_cmp (key a) (key b)

  -- A better price, higher for a bid and lower for an ask, or the same price and an earlier time.
  abbrev pub IsAhead : OrderSide → Order d → Order d → Type 0
  IsAhead bid a b =
      ((below b.price a.price ≡ true) × (below a.price b.price ≡ false))
      ⊎ ((below a.price b.price ≡ false)
          × (below b.price a.price ≡ false)
          × (a.timestamp < b.timestamp))
  IsAhead ask a b =
      (below a.price b.price ≡ true)
      ⊎ ((below a.price b.price ≡ false)
          × (below b.price a.price ≡ false)
          × (a.timestamp < b.timestamp))

  -- Of two orders of the same side, the one that compares greater is the one with the better price,
  -- higher for a bid and lower for an ask, or of the same price with the earlier time.
  pub order_cmp_iff :
      (side : OrderSide) (a b : Order d)
      → a.side ≡ side
      → b.side ≡ side
      → (order_cmp a b ≡ some greater) ↔ IsAhead side a b
  unfolding order_cmp key_cmp price_cmp time_cmp key
  order_cmp_iff bid a b p q = (
    λ h. elim (Bool-cases (below a.price b.price)) [
      | inl low ↦ absurd (ground (arith, p, q, low, h))
      | inr high ↦ elim (Bool-cases (below b.price a.price)) [
        | inl better ↦ inl (better, high)
        | inr same ↦ inr (high, same, ground (arith, p, q, high, same, h))
      ]
    ],
    λ h. elim h [
      | inl (better, high) ↦ ground (arith, p, q, better, high)
      | inr (high, same, earlier) ↦ ground (arith, p, q, high, same, earlier)
    ],
  )
  order_cmp_iff ask a b p q = (
    λ h. elim (Bool-cases (below a.price b.price)) [
      | inl low ↦ inl low
      | inr high ↦ elim (Bool-cases (below b.price a.price)) [
        | inl worse ↦ absurd (ground (arith, p, q, high, worse, h))
        | inr same ↦ inr (high, same, ground (arith, p, q, high, same, h))
      ]
    ],
    λ h. elim h [
      | inl low ↦ ground (arith, p, q, low)
      | inr (high, same, earlier) ↦ ground (arith, p, q, high, same, earlier)
    ],
  )

  -- Where the order of prices is asymmetric, the comparison of two orders of one side is never an
  -- equality; and each of the two compares less than the other one exactly where neither price is
  -- below the other and the times are the same, as for an order and itself.
  pub both_less_iff :
      (asymmetric : (x y : Decimal) → below x y ≡ true → below y x ≡ false) (side : OrderSide)
      (a b : Order d)
      → a.side ≡ side
      → b.side ≡ side
      → (order_cmp a b ≢ some equal)
        × ((order_cmp a b ≡ some less) × (order_cmp b a ≡ some less)
            ↔ (below a.price b.price ≡ false)
              × (below b.price a.price ≡ false)
              × (a.timestamp ≡ b.timestamp))
  unfolding order_cmp key_cmp price_cmp time_cmp key
  both_less_iff asymmetric bid a b p q = (
    λ h. ground (arith, p, q, h),
    (
      λ (h, h').
          ground (arith, p, q, h, h', asymmetric a.price b.price, asymmetric b.price a.price),
      λ (high, low, same).
          (ground (arith, p, q, high, low, same), ground (arith, p, q, high, low, same)),
    ),
  )
  both_less_iff asymmetric ask a b p q = (
    λ h. ground (arith, p, q, h),
    (
      λ (h, h').
          ground (arith, p, q, h, h', asymmetric a.price b.price, asymmetric b.price a.price),
      λ (high, low, same).
          (ground (arith, p, q, high, low, same), ground (arith, p, q, high, low, same)),
    ),
  )
