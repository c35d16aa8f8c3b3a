-- ===== src/Ocex/Settlement/Conservation.antt =====
-- A settled trade of pallets/ocex/src/settlement.rs creates nothing.
use polkadex_node.Prelude.{
  ℕ, ◌+◌, ◌≤◌, ◌<◌, ◌≡◌, sym, ap, ◌∙◌, subst, inl, inr, true, false, Option, none, some, List,
  if◌then◌else◌, arith, ◌==◌, contains, Distinct,
}
use polkadex_node.Frame.{ok}
use polkadex_node.Ocex.Decimal.{Decimals, GridLaws, mantissa_limit, rounding_off}
use polkadex_node.Ocex.Storage.{TrieDb, OffchainState}
use polkadex_node.Ocex.Settlement.{Codec, CodecLaws, raised, add_balance, sub_balance}
use polkadex_node.Ocex.Settlement.Balances.{entry, entry-add_balance, entry-sub_balance}
use polkadex_node.Ocex.Settlement.Totals.{
  value, balance, total, IsSound, total_grows, total_falls, Changed-IsSound,
}

module _ (d : Decimals) (t : TrieDb) (c : Codec d) (laws : GridLaws d) where
  open d use {Decimal, decimal_add, decimal_sub, below}
  open t use {Trie}
  open laws use {atoms, IsFine}

  -- A raised balance is on the grid, and grows by the amount at the most.
  raised_lem :
      (o : Option Decimal) (amount : Decimal)
      → IsFine (value d t c laws o)
      → IsFine amount
      → atoms (value d t c laws o) + atoms amount < mantissa_limit
      → IsFine (raised d t c o amount)
        × (atoms (raised d t c o amount) ≤ atoms (value d t c laws o) + atoms amount)
  unfolding raised rounding_off
  raised_lem none amount fine fine' fits = (fine', omega arith)
  raised_lem (some v) amount fine fine' fits =
      let sum = decimal_add v amount in
      let exact = laws.decimal_add-IsFine v amount fine fine' fits in
      (
        laws.round_to_zero-IsFine 9 sum exact,
        omega (
          arith,
          laws.atoms-round_to_zero 9 sum exact,
          laws.atoms-decimal_add v amount fine fine' fits,
        ),
      )

  -- A balance less an amount that it covers is on the grid, and falls by the amount at the least.
  lowered_lem :
      (available amount : Decimal)
      → IsFine available
      → IsFine amount
      → below available amount ≡ false
      → IsFine (rounding_off d (decimal_sub available amount))
        × (atoms (rounding_off d (decimal_sub available amount)) + atoms amount ≤ atoms available)
  unfolding rounding_off
  lowered_lem available amount fine fine' enough =
      let covers : atoms amount ≤ atoms available =
        ground (arith, laws.below-atoms available amount fine fine', enough) in
      let rest = decimal_sub available amount in
      let exact = laws.decimal_sub-IsFine available amount fine fine' covers in
      (
        laws.round_to_zero-IsFine 9 rest exact,
        omega (
          arith,
          laws.atoms-round_to_zero 9 rest exact,
          laws.atoms-decimal_sub available amount fine fine' covers,
          covers,
        ),
      )

  module _ (codec_laws : CodecLaws d c) where
    -- Adding an amount to a balance raises no total by more than the amount.
    pub total-add_balance :
        (account asset : ℕ) (amount : Decimal) (bound : ℕ) (s : OffchainState Trie)
        → IsSound d t c laws bound s
        → IsFine amount
        → bound + atoms amount < mantissa_limit
        → (add_balance d t c account asset amount s).0 ≡ ok tt
        → let s' = (add_balance d t c account asset amount s).1 in
          IsSound d t c laws (bound + atoms amount) s'
          × ((holders : List ℕ) (y : ℕ)
              → Distinct holders
              → total d t c laws y holders s'
                ≤ total d t c laws y holders s + (if asset == y then atoms amount else 0))
    total-add_balance account asset amount bound s sound fine fits h =
        let s' = (add_balance d t c account asset amount s).1 in
        let changed = entry-add_balance d t c codec_laws account asset amount s h in
        let o = entry d t c s account asset in
        let (fine', grows) =
          raised_lem o amount (sound account asset).0 fine
            (omega (arith, (sound account asset).1, fits)) in
        (
          Changed-IsSound d t c laws account asset (raised d t c o amount) bound
              (bound + atoms amount) s s' changed sound (omega arith) fine'
              (omega (arith, grows, (sound account asset).1)),
          λ holders y once.
              total_grows d t c laws account asset (raised d t c o amount) (atoms amount) s s'
                holders y changed once grows,
        )

    -- Taking an amount from the balance of a listed holder lowers the total by it.
    pub total-sub_balance :
        (account asset : ℕ) (amount answer : Decimal) (bound : ℕ) (s : OffchainState Trie)
        → IsSound d t c laws bound s
        → IsFine amount
        → (sub_balance d t c account asset amount false s).0 ≡ ok answer
        → let s' = (sub_balance d t c account asset amount false s).1 in
          IsSound d t c laws bound s'
          × ((holders : List ℕ) (y : ℕ)
              → Distinct holders
              → contains account holders ≡ true
              → total d t c laws y holders s' + (if asset == y then atoms amount else 0)
                ≤ total d t c laws y holders s)
    unfolding rounding_off
    total-sub_balance account asset amount answer bound s sound fine h =
        let s' = (sub_balance d t c account asset amount false s).1 in
        let (available, there, which, changed) =
          entry-sub_balance d t c codec_laws account asset amount false s answer h in
        elim which [
          | inr (_, never, _) ↦ absurd (ground (arith, never))
          | inl (all, enough) ↦
              let e : balance d t c laws s account asset ≡ available =
                ap (value d t c laws) there in
              let held = subst (λ w. IsFine w × (atoms w ≤ bound)) e (sound account asset) in
              let same = ap atoms all in
              let (fine', falls) =
                lowered_lem available answer held.0 (subst IsFine (sym all) fine)
                  (ap (λ a. below available a) all ∙ enough) in
              let v = rounding_off d (decimal_sub available answer) in
              (
                Changed-IsSound d t c laws account asset v bound bound s s' changed sound
                    (omega arith) fine' (omega (arith, falls, held.1)),
                λ holders y once listed.
                    total_falls d t c laws account asset v (atoms amount) s s' holders y changed
                      once listed (omega (arith, falls, same, ap atoms e)),
              )
        ]
