-- ===== src/Ocex/Pairs/Precision.antt =====
-- What registering and updating a trading pair of pallets/ocex/src/lib.rs store.
use polkadex_node.Prelude.{
  ℕ, ◌≡◌, refl, ◌≤◌, ◌<◌, ap, inl, inr, true, false, some, arith, Option-cases, is_some, contains,
  ◌==◌,
}
use polkadex_node.Frame.{ok, Origin}
use polkadex_node.Ocex.Types.{
  Runtime, State, TradingPairConfig, deposit_max, trade_operation_min_value,
}
use polkadex_node.Ocex.Accounts.{deposit_event, push_ingress}
use polkadex_node.Ocex.Pairs.{
  Parameters, units_of, opened_pair, store_pair, validate_trading_pair_config,
  register_trading_pair, update_trading_pair,
}

module _ (r : Runtime) where
  open r use {decimals, Ledger}
  open decimals use {Decimal, scale}

  -- Registering a pair that succeeds is for two different allowed assets that are registered in
  -- neither direction, with volumes within the limits.
  pub register_trading_pair_checks :
      (origin : Origin) (base quote low high tick step : ℕ) (s : State decimals Ledger)
      → (register_trading_pair r origin base quote low high tick step s).0 ≡ ok tt
      → ((base == quote) ≡ false)
        × (is_some (s.trading_pairs base quote) ≡ false)
        × (is_some (s.trading_pairs quote base) ≡ false)
        × (contains base s.allowlisted_token ≡ true)
        × (contains quote s.allowlisted_token ≡ true)
        × (trade_operation_min_value ≤ low)
        × (low < high)
        × (high ≤ deposit_max)
  unfolding register_trading_pair validate_trading_pair_config
  register_trading_pair_checks origin base quote low high tick step s h = (
    ground (arith, h),
    ground (arith, h),
    ground (arith, h),
    ground (arith, h),
    ground (arith, h),
    ground (arith, h),
    ground (arith, h),
    ground (arith, h),
  )

  register_stores :
      (origin : Origin) (base quote low high tick step : ℕ) (s : State decimals Ledger)
      → ((x : Decimal) → scale x ≤ 28)
      → (register_trading_pair r origin base quote low high tick step s).0 ≡ ok tt
      → (p : Parameters r) × (units_of r low high tick step ≡ some p)
        × ((register_trading_pair r origin base quote low high tick step s).1.trading_pairs base
              quote
            ≡ some (opened_pair r base quote p (scale p.qty_step_size) (scale p.price_tick_size)))
  unfolding register_trading_pair validate_trading_pair_config store_pair push_ingress deposit_event
  register_stores origin base quote low high tick step s digits h =
      elim (Option-cases (units_of r low high tick step)) [
        | inl failed ↦ absurd (ground (arith, failed, h))
        | inr (p, found) ↦
            (p, found, ground (arith, found, h, digits p.price_tick_size, digits p.qty_step_size))
      ]

  update_stores :
      (origin : Origin) (base quote low high tick step : ℕ) (s : State decimals Ledger)
      → ((x : Decimal) → scale x ≤ 28)
      → (update_trading_pair r origin base quote low high tick step s).0 ≡ ok tt
      → (p : Parameters r) × (units_of r low high tick step ≡ some p)
        × ((update_trading_pair r origin base quote low high tick step s).1.trading_pairs base quote
            ≡ some (opened_pair r base quote p (scale p.price_tick_size) (scale p.qty_step_size)))
  unfolding update_trading_pair validate_trading_pair_config store_pair push_ingress deposit_event
  update_stores origin base quote low high tick step s digits h =
      elim (Option-cases (units_of r low high tick step)) [
        | inl failed ↦ absurd (ground (arith, failed, h))
        | inr (p, found) ↦
            (p, found, ground (arith, found, h, digits p.price_tick_size, digits p.qty_step_size))
      ]

  -- Where no number has more than 28 digits after the point, updating a pair stores the precisions of
  -- its assets the other way round: of the same parameters, a registration that succeeds takes the
  -- digits of the quantity step for the base and those of the price tick for the quote, an update
  -- that succeeds the reverse, and both store the same otherwise.
  pub update_swaps_precisions :
      (origin origin' : Origin) (base quote low high tick step : ℕ) (s s' : State decimals Ledger)
      → ((x : Decimal) → scale x ≤ 28)
      → (register_trading_pair r origin base quote low high tick step s).0 ≡ ok tt
      → (update_trading_pair r origin' base quote low high tick step s').0 ≡ ok tt
      → (p q : TradingPairConfig decimals) × ((register_trading_pair r origin base quote low high
              tick step s).1.trading_pairs
            base quote
          ≡ some p)
        × ((update_trading_pair r origin' base quote low high tick step s').1.trading_pairs base
              quote
            ≡ some q)
        × (p.base_asset_precision ≡ scale p.qty_step_size)
        × (p.quote_asset_precision ≡ scale p.price_tick_size)
        × (q ≡ record p {
          base_asset_precision = p.quote_asset_precision;
          quote_asset_precision = p.base_asset_precision;
        })
  update_swaps_precisions origin origin' base quote low high tick step s s' digits h h' =
      let (p, found, stored) = register_stores origin base quote low high tick step s digits h in
      let (q, found', stored') = update_stores origin' base quote low high tick step s' digits h' in
      let same : q ≡ p = ground (arith, found, found') in
      (
        opened_pair r base quote p (scale p.qty_step_size) (scale p.price_tick_size),
        opened_pair r base quote q (scale q.price_tick_size) (scale q.qty_step_size),
        stored,
        stored',
        refl,
        refl,
        ap (λ u. opened_pair r base quote u (scale u.price_tick_size) (scale u.qty_step_size)) same,
      )
