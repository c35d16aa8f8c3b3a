-- ===== src/Ocex/Storage/View.antt =====
-- What a reader of `OffchainState` of pallets/ocex/src/storage.rs sees, and what a commit writes.
use polkadex_node.Prelude.{
  ℕ, ◌≡◌, ap, ◌∙◌, subst, ==_eq, ◌⊎◌, inl, inr, Option, none, some, List, BTreeMap, map_insert,
  map_get, ◌==◌, if◌then◌else◌, contains, Ascending, keys, map_get-map_insert, arith, Option-cases,
  Bool-cases,
}
use polkadex_node.Frame.{Result, Result-cases, ok}
use polkadex_node.Ocex.Storage.{TrieDb, OffchainState, get, insert}

-- A value of the cache goes before the answer of the trie.
abbrev pub fallback : Option (List ℕ) → Result ℕ (Option (List ℕ)) → Result ℕ (Option (List ℕ))
fallback (some value) answer = ok (some value)
fallback none answer = answer

module _ (t : TrieDb) where
  open t use {Trie, trie_get}

  -- A map of values in front of a trie.
  abbrev pub overlay : BTreeMap (List ℕ) → Trie → ℕ → Result ℕ (Option (List ℕ))
  overlay m trie j = fallback (map_get j m) (trie_get j trie)

  -- What `get` answers: the cache, then the trie.
  abbrev pub peek : OffchainState Trie → ℕ → Result ℕ (Option (List ℕ))
  peek s = overlay s.cache s.trie

  -- What is to be stored: nothing under a key to remove, else what `get` answers.
  abbrev pub pending : OffchainState Trie → ℕ → Result ℕ (Option (List ℕ))
  pending s j = if contains j s.keys_to_remove then ok none else peek s j

  -- The cache and the set of keys are ordered, as a BTreeMap and a BTreeSet are.
  abbrev pub IsOrdered : OffchainState Trie → Type 0
  IsOrdered s = Ascending (keys s.cache) × Ascending s.keys_to_remove

  -- The state after a value of the trie is noted in the cache.
  abbrev pub cached : ℕ → List ℕ → OffchainState Trie → OffchainState Trie
  cached key value s = record s { cache = map_insert key value s.cache }

  pub get-cases :
      (key : ℕ) (s : OffchainState Trie)
      → (get t key s ≡ (peek s key, s))
        ⊎ ((value : List ℕ) × (peek s key ≡ ok (some value))
            × (get t key s ≡ (peek s key, cached key value s)))
  unfolding get
  get-cases key s = elim (Option-cases (map_get key s.cache)) [
    | inr (value, hit) ↦ inl (ground arith)
    | inl miss ↦ elim (Result-cases (trie_get key s.trie)) [
      | inr (e, failed) ↦ inl (ground arith)
      | inl (none, found) ↦ inl (ground arith)
      | inl (some value, found) ↦ inr (value, ground arith, ground arith)
    ]
  ]

  -- A value that a reader sees anyway may be noted.
  pub peek-cached :
      (key : ℕ) (value : List ℕ) (s : OffchainState Trie) (j : ℕ)
      → peek s key ≡ ok (some value)
      → peek (cached key value s) j ≡ peek s j
  peek-cached key value s j seen =
      ap (λ found. fallback found (trie_get j s.trie)) (map_get-map_insert key j value s.cache)
      ∙ elim (Bool-cases (key == j)) [
        | inl same ↦
            let here = subst (λ k. peek s k ≡ ok (some value)) (==_eq key j same) seen in
            ground (arith, here)
        | inr other ↦ ground arith
      ]

  pub peek-insert :
      (key : ℕ) (value : List ℕ) (s : OffchainState Trie) (j : ℕ)
      → peek (insert t key value s).1 j ≡ (if key == j then ok (some value) else peek s j)
  unfolding insert
  peek-insert key value s j = ground (arith, map_get-map_insert key j value s.cache)
