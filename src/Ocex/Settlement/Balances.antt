-- ===== src/Ocex/Settlement/Balances.antt =====
-- How the operations of pallets/ocex/src/settlement.rs change the balances that are stored.
use polkadex_node.Prelude.{
  ℕ, ◌≡◌, ap, ◌∙◌, subst, ◌⊎◌, inl, inr, Bool, true, false, Option, none, some, List, [],
  if◌then◌else◌, arith, ◌==◌, ==_eq, Bool-cases, Option-cases, BTreeMap, map_get, map_insert,
  map_get-map_insert,
}
use polkadex_node.Frame.{Result, Result-cases, ok, err}
use polkadex_node.Ocex.Decimal.{Decimals, rounding_off}
use polkadex_node.Ocex.Storage.{TrieDb, OffchainState, get, insert}
use polkadex_node.Ocex.Storage.View.{peek, get-cases, peek-cached, peek-insert}
use polkadex_node.Ocex.Settlement.{
  Codec, CodecLaws, in_storage, load, raised, add_balance, taken, sub_balance,
}

module _ (d : Decimals) (t : TrieDb) (c : Codec d) where
  open d use {Decimal, zero_decimal, decimal_sub, below}
  open t use {Trie}

  -- The balances in an answer of the storage; none where it has none, or they cannot be read.
  abbrev pub entries : Result ℕ (Option (List ℕ)) → BTreeMap Decimal
  entries (err e) = []
  entries (ok none) = []
  entries (ok (some bytes)) = elim (c.decode bytes) [ none ↦ [] | some m ↦ m ]

  -- The balance that is stored for an account and an asset.
  abbrev pub entry : OffchainState Trie → ℕ → ℕ → Option Decimal
  entry s account asset = map_get asset (entries (peek t s account))

  abbrev pub or_new : Option (BTreeMap Decimal) → BTreeMap Decimal
  or_new none = []
  or_new (some m) = m

  get_lem :
      (key : ℕ) (s : OffchainState Trie)
      → ((get t key s).0 ≡ peek t s key) × ((j : ℕ) → peek t (get t key s).1 j ≡ peek t s j)
  get_lem key s = elim (get-cases t key s) [
    | inl same ↦ (ap (λ out. out.0) same, λ j. ap (λ out. peek t out.1 j) same)
    | inr (value, seen, noted) ↦ (
      ap (λ out. out.0) noted,
      λ j. ap (λ out. peek t out.1 j) noted ∙ peek-cached t key value s j seen,
    )
  ]

  -- A read answers with the balances that are stored, and changes none.
  pub load_lem :
      (account : ℕ) (s : OffchainState Trie) (o : Option (BTreeMap Decimal))
      → (load d t c account s).0 ≡ ok o
      → (or_new o ≡ entries (peek t s account))
        × ((j : ℕ) → peek t (load d t c account s).1 j ≡ peek t s j)
  unfolding load in_storage
  load_lem account s o h =
      let (answer, kept) = get_lem account s in
      elim (Result-cases (peek t s account)) [
        | inr (e, failed) ↦ absurd (ground (arith, answer, failed, h))
        | inl (none, found) ↦
            (ground (arith, answer, found, h), λ j. ground (arith, answer, found, kept j))
        | inl (some bytes, found) ↦ elim (Option-cases (c.decode bytes)) [
          | inl failed ↦ absurd (ground (arith, answer, found, failed, h))
          | inr (m, decoded) ↦ (
            ground (arith, answer, found, decoded, h),
            λ j. ground (arith, answer, found, decoded, kept j),
          )
        ]
      ]

  -- The state after new balances of one account are written.
  abbrev Written : ℕ → BTreeMap Decimal → OffchainState Trie → OffchainState Trie → Type 0
  Written account m s s' =
      (j : ℕ) → peek t s' j ≡ (if account == j then ok (some (c.encode m)) else peek t s j)

  insert-Written :
      (account : ℕ) (m : BTreeMap Decimal) (s s₁ out : OffchainState Trie)
      → ((j : ℕ) → peek t s₁ j ≡ peek t s j)
      → out ≡ (insert t account (c.encode m) s₁).1
      → Written account m s out
  insert-Written account m s s₁ out kept same j =
      ap (λ st. peek t st j) same
      ∙ peek-insert t account (c.encode m) s₁ j
      ∙ ap (λ answer. if account == j then ok (some (c.encode m)) else answer) (kept j)

  add_balance-Written :
      (account asset : ℕ) (balance : Decimal) (s : OffchainState Trie)
      → (add_balance d t c account asset balance s).0 ≡ ok tt
      → let m = entries (peek t s account) in
        Written account
          (map_insert asset (raised d t c (map_get asset m) balance) m)
          s
          (add_balance d t c account asset balance s).1
  unfolding add_balance in_storage insert
  add_balance-Written account asset balance s h =
      let s₁ = (load d t c account s).1 in
      let out = (add_balance d t c account asset balance s).1 in
      let P : BTreeMap Decimal → Type 0 =
        λ m. Written account (map_insert asset (raised d t c (map_get asset m) balance) m) s out in
      elim (Result-cases (load d t c account s).0) [
        | inr (e, failed) ↦ absurd (ground (arith, failed, h))
        | inl (none, loaded) ↦
            let (same, kept) = load_lem account s none loaded in
            subst P same (insert-Written account _ s s₁ out kept (ground (arith, loaded)))
        | inl (some m, loaded) ↦
            let (same, kept) = load_lem account s (some m) loaded in
            subst P same (insert-Written account _ s s₁ out kept (ground (arith, loaded)))
      ]

  -- A balance that is there is reduced by the amount that is taken.
  abbrev Reduced :
      ℕ
      → ℕ
      → Decimal
      → Bool
      → Decimal
      → OffchainState Trie
      → OffchainState Trie
      → BTreeMap Decimal
      → Type 0
  Reduced account asset balance is_withdrawal amount s s' m =
      (available : Decimal) × (map_get asset m ≡ some available)
      × (taken d t c is_withdrawal available balance ≡ some amount)
      × Written account (map_insert asset (rounding_off d (decimal_sub available amount)) m) s s'

  sub_balance-Written :
      (account asset : ℕ) (balance : Decimal) (is_withdrawal : Bool) (s : OffchainState Trie)
      (amount : Decimal)
      → (sub_balance d t c account asset balance is_withdrawal s).0 ≡ ok amount
      → Reduced account asset balance is_withdrawal amount s
          (sub_balance d t c account asset balance is_withdrawal s).1
          (entries (peek t s account))
  unfolding sub_balance in_storage insert
  sub_balance-Written account asset balance is_withdrawal s amount h =
      elim (Result-cases (load d t c account s).0) [
        | inr (e, failed) ↦ absurd (ground (arith, failed, h))
        | inl (none, loaded) ↦ absurd (ground (arith, loaded, h))
        | inl (some m, loaded) ↦
            let (same, kept) = load_lem account s (some m) loaded in
            elim (Option-cases (map_get asset m)) [
              | inl missing ↦ absurd (ground (arith, loaded, missing, h))
              | inr (available, there) ↦
                  elim (Option-cases (taken d t c is_withdrawal available balance)) [
                    | inl low ↦ absurd (ground (arith, loaded, there, low, h))
                    | inr (amount', enough) ↦
                        let out = (sub_balance d t c account asset balance is_withdrawal s).1 in
                        let e : amount' ≡ amount = ground (arith, loaded, there, enough, h) in
                        subst (Reduced account asset balance is_withdrawal amount s out) same (
                          available,
                          there,
                          enough ∙ ap (λ a. some a) e,
                          insert-Written account _ s (load d t c account s).1 out kept
                              (ground (arith, loaded, there, enough, e)),
                        )
                  ]
            ]
      ]

  module _ (codec_laws : CodecLaws d c) where
    entry-Written :
        (account asset : ℕ) (v : Decimal) (s s' : OffchainState Trie)
        → Written account (map_insert asset v (entries (peek t s account))) s s'
        → (b y : ℕ)
        → entry s' b y
          ≡ (if account == b then (if asset == y then some v else entry s b y) else entry s b y)
    entry-Written account asset v s s' written b y = elim (Bool-cases (account == b)) [
      | inr other ↦ ap (λ answer. map_get y (entries answer)) (written b) ∙ ground (arith, other)
      | inl same ↦
          let m = map_insert asset v (entries (peek t s account)) in
          let here = ap (λ k. entry s k y) (==_eq account b same) in
          ap (λ answer. map_get y (entries answer)) (written b)
          ∙ ground (
            arith,
            same,
            codec_laws.decode-encode m,
            map_get-map_insert asset y v (entries (peek t s account)),
            here,
          )
    ]

    -- Adding to a balance changes that balance and no other: it is raised, or is there from now on.
    pub entry-add_balance :
        (account asset : ℕ) (balance : Decimal) (s : OffchainState Trie)
        → (add_balance d t c account asset balance s).0 ≡ ok tt
        → (b y : ℕ)
        → entry (add_balance d t c account asset balance s).1 b y ≡ (
            if account == b
            then (if asset == y
                then some (raised d t c (entry s account asset) balance)
                else entry s b y)
            else entry s b y)
    entry-add_balance account asset balance s h =
        entry-Written account asset _ s (add_balance d t c account asset balance s).1
          (add_balance-Written account asset balance s h)

    -- A subtraction that succeeds answers the amount that it is asked for exactly where the balance
    -- is not below it; where the balance is below it, it is a withdrawal, and answers the whole
    -- balance. What is stored from then on is the balance less the answer, rounded off to 9 digits,
    -- and no other balance changes.
    pub entry-sub_balance :
        (account asset : ℕ) (balance : Decimal) (is_withdrawal : Bool) (s : OffchainState Trie)
        (amount : Decimal)
        → (sub_balance d t c account asset balance is_withdrawal s).0 ≡ ok amount
        → (available : Decimal) × (entry s account asset ≡ some available)
          × (((amount ≡ balance) × (below available balance ≡ false))
              ⊎ ((amount ≡ available) × (is_withdrawal ≡ true) × (below available balance ≡ true)))
          × ((b y : ℕ)
              → entry (sub_balance d t c account asset balance is_withdrawal s).1 b y ≡ (
                  if account == b
                  then (if asset == y
                      then some (rounding_off d (decimal_sub available amount))
                      else entry s b y)
                  else entry s b y))
    unfolding taken
    entry-sub_balance account asset balance is_withdrawal s amount h =
        let (available, there, took, written) =
          sub_balance-Written account asset balance is_withdrawal s amount h in
        (
          available,
          there,
          elim (Bool-cases (below available balance)) [
            | inr enough ↦ inl (ground (arith, took, enough), enough)
            | inl low ↦ inr (ground (arith, took, low), ground (arith, took, low), low)
          ],
          entry-Written account asset _ s
              (sub_balance d t c account asset balance is_withdrawal s).1 written,
        )
