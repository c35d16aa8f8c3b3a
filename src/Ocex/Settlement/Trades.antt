-- ===== src/Ocex/Settlement/Trades.antt =====
-- `process_trade` of pallets/ocex/src/settlement.rs creates nothing.
use polkadex_node.Prelude.{
  ℕ, ◌+◌, ◌≤◌, ◌<◌, ◌≡◌, sym, ap, subst, inl, inr, true, false, List, if◌then◌else◌, arith, ◌==◌,
  contains, Distinct, Bool-cases,
}
use polkadex_node.Frame.{Result-cases, ok}
use polkadex_node.Ocex.Decimal.{Decimals, GridLaws, mantissa_limit}
use polkadex_node.Ocex.Storage.{TrieDb, OffchainState}
use polkadex_node.Ocex.Types.{TradingPairConfig}
use polkadex_node.Ocex.Orders.{Trade, Signatures, AccountAsset, verify_trade, credit, debit}
use polkadex_node.Ocex.Orders.Sides.{AreOpposite, credit-debit}
use polkadex_node.Ocex.Settlement.{
  Codec, CodecLaws, FeeConfig, add_balance, sub_balance, settle_party, process_trade,
}
use polkadex_node.Ocex.Settlement.Totals.{total, IsSound}
use polkadex_node.Ocex.Settlement.Conservation.{total-add_balance, total-sub_balance}

module _ (d : Decimals) (t : TrieDb) (c : Codec d) (laws : GridLaws d)
    (codec_laws : CodecLaws d c) where
  open d use {Decimal, decimal_sub, decimal_mul}
  open t use {Trie}
  open laws use {atoms, IsFine}

  -- An amount and the fee on it are on the grid, and the fee is not larger than the amount.
  abbrev pub IsChargeable : Decimal → Decimal → Type 0
  IsChargeable amount fraction =
      IsFine amount
      × IsFine (decimal_mul amount fraction)
      × (atoms (decimal_mul amount fraction) ≤ atoms amount)

  -- What a party's block does: the bound grows by the credit at the most, and the totals by the
  -- credit less the debit.
  abbrev Settled :
      ℕ
      → AccountAsset × Decimal
      → AccountAsset × Decimal
      → OffchainState Trie
      → OffchainState Trie
      → Type 0
  Settled bound credited debited s s' =
      IsSound d t c laws (bound + atoms credited.1) s'
      × ((holders : List ℕ) (y : ℕ)
          → Distinct holders
          → contains debited.0.main holders ≡ true
          → total d t c laws y holders s' + (if debited.0.asset == y then atoms debited.1 else 0)
            ≤ total d t c laws y holders s
              + (if credited.0.asset == y then atoms credited.1 else 0))

  settle_party_lem :
      (pot : ℕ) (fraction : Decimal) (credited debited : AccountAsset × Decimal) (bound : ℕ)
      (s : OffchainState Trie)
      → IsSound d t c laws bound s
      → IsChargeable credited.1 fraction
      → IsFine debited.1
      → bound + atoms credited.1 < mantissa_limit
      → (settle_party d t c pot fraction credited debited s).0 ≡ ok tt
      → Settled bound credited debited s (settle_party d t c pot fraction credited debited s).1
  unfolding settle_party
  settle_party_lem pot fraction credited debited bound s sound (fine, fine_fee, small) fine' fits
        h =
      let fee = decimal_mul credited.1 fraction in
      let net = decimal_sub credited.1 fee in
      let fine_net = laws.decimal_sub-IsFine credited.1 fee fine fine_fee small in
      let net_atoms = laws.atoms-decimal_sub credited.1 fee fine fine_fee small in
      let first = add_balance d t c credited.0.main credited.0.asset net s in
      elim (Result-cases first.0) [
        | inr (e, failed) ↦ absurd (ground (arith, failed, h))
        | inl (_, paid) ↦
            let (sound₁, grows₁) =
              total-add_balance d t c laws codec_laws credited.0.main credited.0.asset net bound s
                sound fine_net (omega (arith, fits, net_atoms)) paid in
            let second = add_balance d t c pot credited.0.asset fee first.1 in
            elim (Result-cases second.0) [
              | inr (e, failed) ↦ absurd (ground (arith, paid, failed, h))
              | inl (_, charged) ↦
                  let (sound₂, grows₂) =
                    total-add_balance d t c laws codec_laws pot credited.0.asset fee
                      (bound + atoms net) first.1 sound₁ fine_fee
                      (omega (arith, fits, net_atoms, small)) charged in
                  let third =
                    sub_balance d t c debited.0.main debited.0.asset debited.1 false second.1 in
                  elim (Result-cases third.0) [
                    | inr (e, failed) ↦ absurd (ground (arith, paid, charged, failed, h))
                    | inl (answer, debit_done) ↦
                        let (sound₃, falls) =
                          total-sub_balance d t c laws codec_laws debited.0.main debited.0.asset
                            debited.1 answer ((bound + atoms net) + atoms fee) second.1 sound₂ fine'
                            debit_done in
                        let e : (settle_party d t c pot fraction credited debited s).1 ≡ third.1 =
                          ground (arith, paid, charged, debit_done) in
                        let same_bound : (bound + atoms net) + atoms fee
                            ≡ bound + atoms credited.1 =
                          omega (arith, net_atoms, small) in
                        subst (Settled bound credited debited s) (sym e) (
                          subst (λ b. IsSound d t c laws b third.1) same_bound sound₃,
                          λ holders y once listed. ground (
                            arith,
                            grows₁ holders y once,
                            grows₂ holders y once,
                            falls holders y once listed,
                            net_atoms,
                            small,
                          ),
                        )
                  ]
            ]
      ]

  -- Settling a trade between opposite sides creates nothing: of every asset, the accounts of a list
  -- with the maker and the taker in it have together at most what they had before, whatever the fees
  -- are and whether the list counts the fee pot or not. The balances and amounts are multiples of
  -- 10 ^ -18 that fit, and a fee is not larger than its amount.
  pub process_trade_creates_nothing :
      (g : Signatures d) (pot : ℕ) (trade : Trade d) (config : TradingPairConfig d)
      (maker_fees taker_fees : FeeConfig d) (bound : ℕ) (s : OffchainState Trie) (holders : List ℕ)
      (y : ℕ)
      → AreOpposite d trade
      → IsSound d t c laws bound s
      → IsChargeable (credit d true trade).1 maker_fees.maker_fraction
      → IsChargeable (credit d false trade).1 taker_fees.taker_fraction
      → (bound + atoms (credit d true trade).1) + atoms (credit d false trade).1 < mantissa_limit
      → Distinct holders
      → contains (debit d true trade).0.main holders ≡ true
      → contains (debit d false trade).0.main holders ≡ true
      → (process_trade d t c g pot trade config maker_fees taker_fees s).0 ≡ ok tt
      → total d t c laws y holders
          (process_trade d t c g pot trade config maker_fees taker_fees s).1
        ≤ total d t c laws y holders s
  unfolding process_trade
  process_trade_creates_nothing g pot trade config maker_fees taker_fees bound s holders y opposite
        sound maker_ok taker_ok fits once maker_in taker_in h =
      elim (Bool-cases (verify_trade d g config trade)) [
        | inr refused ↦ absurd (ground (arith, refused, h))
        | inl verified ↦
            let (asset₁, amount₁, asset₂, amount₂) =
              credit-debit d g config trade verified opposite in
            let c₁ = credit d true trade in
            let d₁ = debit d true trade in
            let c₂ = credit d false trade in
            let d₂ = debit d false trade in
            let first = settle_party d t c pot maker_fees.maker_fraction c₁ d₁ s in
            elim (Result-cases first.0) [
              | inr (e, failed) ↦ absurd (ground (arith, verified, failed, h))
              | inl (_, maker_done) ↦
                  let (sound', grows) =
                    settle_party_lem pot maker_fees.maker_fraction c₁ d₁ bound s sound maker_ok
                      (subst IsFine amount₂ taker_ok.0) (omega (arith, fits)) maker_done in
                  let second = settle_party d t c pot taker_fees.taker_fraction c₂ d₂ first.1 in
                  let taker_done : second.0 ≡ ok tt = ground (arith, verified, maker_done, h) in
                  let (_, falls) =
                    settle_party_lem pot taker_fees.taker_fraction c₂ d₂ (bound + atoms c₁.1)
                      first.1 sound' taker_ok (subst IsFine amount₁ maker_ok.0)
                      (omega (arith, fits)) taker_done in
                  ground (
                    arith,
                    verified,
                    maker_done,
                    grows holders y once maker_in,
                    falls holders y once taker_in,
                    asset₁,
                    asset₂,
                    ap atoms amount₁,
                    ap atoms amount₂,
                  )
            ]
      ]
