-- ===== src/Ocex/Settlement/Totals.antt =====
-- What the accounts of pallets/ocex/src/settlement.rs have together of an asset, and what one
-- changed balance does to it.
use polkadex_node.Prelude.{
  ℕ, ◌+◌, ◌≤◌, ◌≡◌, refl, sym, ap, ◌∙◌, subst, inl, inr, true, false, Option, none, some, List, [],
  ◌∷◌, if◌then◌else◌, arith, ◌==◌, ==_eq, Bool-cases, contains, Distinct,
}
use polkadex_node.Ocex.Decimal.{Decimals, GridLaws}
use polkadex_node.Ocex.Storage.{TrieDb, OffchainState}
use polkadex_node.Ocex.Settlement.{Codec}
use polkadex_node.Ocex.Settlement.Balances.{entry}

module _ (d : Decimals) (t : TrieDb) (c : Codec d) (laws : GridLaws d) where
  open d use {Decimal, zero_decimal}
  open t use {Trie}
  open laws use {atoms, IsFine}

  abbrev pub value : Option Decimal → Decimal
  value none = zero_decimal
  value (some v) = v

  -- The balance of an account in an asset, zero where none is stored.
  abbrev pub balance : OffchainState Trie → ℕ → ℕ → Decimal
  balance s account asset = value (entry d t c s account asset)

  -- What the accounts of a list have together of an asset.
  abbrev pub total : ℕ → List ℕ → OffchainState Trie → ℕ
  total asset [] s = 0
  total asset (a ∷ holders) s = atoms (balance s a asset) + total asset holders s

  -- Every balance is on the grid and at most a bound.
  abbrev pub IsSound : ℕ → OffchainState Trie → Type 0
  IsSound bound s =
      (account asset : ℕ)
      → IsFine (balance s account asset) × (atoms (balance s account asset) ≤ bound)

  -- One balance, and no other, has a new value.
  abbrev pub Changed : ℕ → ℕ → Decimal → OffchainState Trie → OffchainState Trie → Type 0
  Changed account asset v s s' =
      (b y : ℕ)
      → entry d t c s' b y ≡ (
          if account == b
          then (if asset == y then some v else entry d t c s b y)
          else entry d t c s b y)

  total_absent :
      (account asset : ℕ) (v : Decimal) (s s' : OffchainState Trie) (holders : List ℕ) (y : ℕ)
      → Changed account asset v s s'
      → contains account holders ≡ false
      → total y holders s' ≡ total y holders s
  total_absent account asset v s s' [] y changed absent = refl
  total_absent account asset v s s' (a ∷ holders) y changed absent =
      let rest = total_absent account asset v s s' holders y changed (ground (arith, absent)) in
      let same = ap (λ o. atoms (value o)) (changed a y) in ground (arith, rest, same, absent)

  total_other :
      (account asset : ℕ) (v : Decimal) (s s' : OffchainState Trie) (holders : List ℕ) (y : ℕ)
      → Changed account asset v s s'
      → (asset == y) ≡ false
      → total y holders s' ≡ total y holders s
  total_other account asset v s s' [] y changed other = refl
  total_other account asset v s s' (a ∷ holders) y changed other =
      let rest = total_other account asset v s s' holders y changed other in
      let same = ap (λ o. atoms (value o)) (changed a y) in ground (arith, rest, same, other)

  total_present :
      (account asset : ℕ) (v : Decimal) (s s' : OffchainState Trie) (holders : List ℕ)
      → Changed account asset v s s'
      → Distinct holders
      → contains account holders ≡ true
      → total asset holders s' + atoms (balance s account asset) ≡ total asset holders s + atoms v
  total_present account asset v s s' [] changed once there = absurd (ground (arith, there))
  total_present account asset v s s' (a ∷ holders) changed (new, once) there =
      let now = ap (λ o. atoms (value o)) (changed a asset) in
      elim (Bool-cases (account == a)) [
        | inl same ↦
            let e = ==_eq account a same in
            let rest =
              total_absent account asset v s s' holders asset changed
                (subst (λ k. contains k holders ≡ false) (sym e) new) in
            let before = ap (λ k. atoms (balance s k asset)) e in
            ground (arith, rest, now, same, before)
        | inr other ↦
            let rest =
              total_present account asset v s s' holders changed once
                (ground (arith, there, other)) in
            ground (arith, rest, now, other)
      ]

  -- A balance that does not grow by more than an amount raises no total by more.
  pub total_grows :
      (account asset : ℕ) (v : Decimal) (n : ℕ) (s s' : OffchainState Trie) (holders : List ℕ)
      (y : ℕ)
      → Changed account asset v s s'
      → Distinct holders
      → atoms v ≤ atoms (balance s account asset) + n
      → total y holders s' ≤ total y holders s + (if asset == y then n else 0)
  total_grows account asset v n s s' holders y changed once grows = elim (Bool-cases (asset == y)) [
    | inr other ↦ ground (arith, other, total_other account asset v s s' holders y changed other)
    | inl same ↦
        let at = ==_eq asset y same in
        let here : total asset holders s' ≤ total asset holders s + n =
          elim (Bool-cases (contains account holders)) [
            | inl there ↦
                omega (arith, total_present account asset v s s' holders changed once there, grows)
            | inr absent ↦
                omega (arith, total_absent account asset v s s' holders asset changed absent)
          ] in
        ground (arith, same, subst (λ z. total z holders s' ≤ total z holders s + n) at here)
  ]

  -- A balance of a listed holder that falls by an amount lowers the total by it.
  pub total_falls :
      (account asset : ℕ) (v : Decimal) (n : ℕ) (s s' : OffchainState Trie) (holders : List ℕ)
      (y : ℕ)
      → Changed account asset v s s'
      → Distinct holders
      → contains account holders ≡ true
      → atoms v + n ≤ atoms (balance s account asset)
      → total y holders s' + (if asset == y then n else 0) ≤ total y holders s
  total_falls account asset v n s s' holders y changed once there falls =
      elim (Bool-cases (asset == y)) [
        | inr other ↦
            ground (arith, other, total_other account asset v s s' holders y changed other)
        | inl same ↦
            let at = ==_eq asset y same in
            let here : total asset holders s' + n ≤ total asset holders s =
              omega (arith, total_present account asset v s s' holders changed once there, falls) in
            ground (arith, same, subst (λ z. total z holders s' + n ≤ total z holders s) at here)
      ]

  pub Changed-IsSound :
      (account asset : ℕ) (v : Decimal) (bound bound' : ℕ) (s s' : OffchainState Trie)
      → Changed account asset v s s'
      → IsSound bound s
      → bound ≤ bound'
      → IsFine v
      → atoms v ≤ bound'
      → IsSound bound' s'
  Changed-IsSound account asset v bound bound' s s' changed sound up fine small b y =
      elim (Bool-cases (account == b)) [
        | inr other ↦
            let e : balance s' b y ≡ balance s b y =
              ap value (changed b y) ∙ ground (arith, other) in
            subst (λ w. IsFine w × (atoms w ≤ bound')) (sym e)
              ((sound b y).0, omega (arith, (sound b y).1, up))
        | inl same ↦ elim (Bool-cases (asset == y)) [
          | inr other ↦
              let e : balance s' b y ≡ balance s b y =
                ap value (changed b y) ∙ ground (arith, same, other) in
              subst (λ w. IsFine w × (atoms w ≤ bound')) (sym e)
                ((sound b y).0, omega (arith, (sound b y).1, up))
          | inl this ↦
              let e : balance s' b y ≡ v = ap value (changed b y) ∙ ground (arith, same, this) in
              subst (λ w. IsFine w × (atoms w ≤ bound')) (sym e) (fine, small)
        ]
      ]
