-- ===== src/Ocex/Storage/Refinement.antt =====
-- `OffchainState` of pallets/ocex/src/storage.rs implements a map: what a sequence of its
-- operations leaves to be stored is what the same sequence does to a plain map.
use polkadex_node.Prelude.{
  ℕ, ◌≡◌, refl, sym, subst, fun_ext, ap, ◌∙◌, inl, inr, false, Option, none, some, List, [], ◌∷◌,
  map_get, keys, ◌==◌, if◌then◌else◌, contains, Ascending-Distinct, map_get-map_insert,
  map_get-map_remove, contains-set_insert, contains-set_remove, arith, Option-cases, Bool-cases,
  update, set_insert-Ascending, set_remove-Ascending, map_insert-Ascending, map_remove-Ascending,
}
use polkadex_node.Frame.{Result, ok}
use polkadex_node.Ocex.Storage.{TrieDb, TrieLaws, OffchainState, get, insert, remove, commit}
use polkadex_node.Ocex.Storage.View.{pending, IsOrdered, get-cases, peek-cached}
use polkadex_node.Ocex.Storage.Commit.{commit-cases}

pub data Request : Type 0 where
  reads : ℕ → Request
  inserts : ℕ → List ℕ → Request
  removes : ℕ → Request
  commits : Request

-- The operations on a plain map; a failed read of the trie is an answer of its own.
abbrev pub abstract_execute :
    Request → (ℕ → Result ℕ (Option (List ℕ))) → ℕ → Result ℕ (Option (List ℕ))
abstract_execute (reads key) m = m
abstract_execute (inserts key value) m = update m key (ok (some value))
abstract_execute (removes key) m = update m key (ok none)
abstract_execute commits m = m

abbrev pub abstract_run :
    List Request → (ℕ → Result ℕ (Option (List ℕ))) → ℕ → Result ℕ (Option (List ℕ))
abstract_run [] m = m
abstract_run (q ∷ qs) m = abstract_run qs (abstract_execute q m)

module _ (t : TrieDb) where
  open t use {Trie, trie_get}

  -- One operation; one that fails leaves the state that it reached.
  unfoldable pub execute : Request → OffchainState Trie → OffchainState Trie
  execute (reads key) s = (get t key s).1
  execute (inserts key value) s = (insert t key value s).1
  execute (removes key) s = (remove t key s).1
  execute commits s = (commit t s).1

  unfoldable pub run : List Request → OffchainState Trie → OffchainState Trie
  run [] s = s
  run (q ∷ qs) s = run qs (execute q s)

  -- A value of the pending map is what `get` answers, unless the key is to be removed.
  pub execute-IsOrdered :
      (laws : TrieLaws t) (q : Request) (s : OffchainState Trie)
      → IsOrdered t s
      → IsOrdered t (execute q s)
  unfolding execute insert remove keys
  execute-IsOrdered laws (reads key) s (c, r) = elim (get-cases t key s) [
    | inl same ↦ subst (λ out. IsOrdered t out.1) (sym same) (c, r)
    | inr (value, _, noted) ↦
        subst (λ out. IsOrdered t out.1) (sym noted) (map_insert-Ascending key value s.cache c, r)
  ]
  execute-IsOrdered laws (inserts key value) s (c, r) =
      (map_insert-Ascending key value s.cache c, set_remove-Ascending key s.keys_to_remove r)
  execute-IsOrdered laws (removes key) s (c, r) =
      (map_remove-Ascending key s.cache c, set_insert-Ascending key s.keys_to_remove r)
  execute-IsOrdered laws commits s (c, r) = elim (commit-cases t laws s (c, r)) [
    | inl (e, trie', failed, _) ↦ subst (λ out. IsOrdered t out.1) (sym failed) (c, r)
    | inr (trie', done, _) ↦ subst (λ out. IsOrdered t out.1) (sym done) (tt, tt)
  ]

  pub execute-abstract_execute :
      (laws : TrieLaws t) (q : Request) (s : OffchainState Trie)
      → IsOrdered t s
      → (j : ℕ) → pending t (execute q s) j ≡ abstract_execute q (pending t s) j
  unfolding execute insert remove map_get
  execute-abstract_execute laws (reads key) s (c, r) j = elim (get-cases t key s) [
    | inl same ↦ ap (λ out. pending t out.1 j) same
    | inr (value, seen, noted) ↦
        ap (λ out. pending t out.1 j) noted
        ∙ (ap (λ a. if contains j s.keys_to_remove then ok none else a)
            (peek-cached t key value s j seen))
  ]
  execute-abstract_execute laws (inserts key value) s (c, r) j =
      let e = map_get-map_insert key j value s.cache in
      let f = contains-set_remove key j s.keys_to_remove (Ascending-Distinct _ r) in
      elim (Bool-cases (key == j)) [
        | inl same ↦ ground (arith, e, f)
        | inr other ↦ ground (arith, e, f)
      ]
  execute-abstract_execute laws (removes key) s (c, r) j =
      let e = map_get-map_remove key j s.cache (Ascending-Distinct _ c) in
      let f = contains-set_insert key j s.keys_to_remove in
      elim (Bool-cases (key == j)) [
        | inl same ↦ ground (arith, e, f)
        | inr other ↦ ground (arith, e, f)
      ]
  execute-abstract_execute laws commits s (c, r) j = elim (commit-cases t laws s (c, r)) [
    | inl (e, trie', failed, kept) ↦
        ap (λ out. pending t out.1 j) failed ∙ elim (Bool-cases (contains j s.keys_to_remove)) [
          | inl gone ↦ ground arith
          | inr stays ↦ elim (Option-cases (map_get j s.cache)) [
            | inl miss ↦ ground (arith, kept j stays miss)
            | inr (value, hit) ↦ ground arith
          ]
        ]
    | inr (trie', done, stored) ↦ ap (λ out. pending t out.1 j) done ∙ stored j
  ]

  -- After any sequence of operations on an `OffchainState`, failed ones among them, the values that
  -- the next commit is to store are those of a plain map under the same sequence.
  pub run-abstract_run :
      (laws : TrieLaws t) (qs : List Request) (s : OffchainState Trie)
      → IsOrdered t s
      → (j : ℕ) → pending t (run qs s) j ≡ abstract_run qs (pending t s) j
  unfolding run
  run-abstract_run laws [] s h j = refl
  run-abstract_run laws (q ∷ qs) s h j =
      run-abstract_run laws qs (execute q s) (execute-IsOrdered laws q s h) j
      ∙ ap (λ m. abstract_run qs m j) (fun_ext (execute-abstract_execute laws q s h))

  run-IsOrdered :
      (laws : TrieLaws t) (qs : List Request) (s : OffchainState Trie)
      → IsOrdered t s
      → IsOrdered t (run qs s)
  unfolding run
  run-IsOrdered laws [] s h = h
  run-IsOrdered laws (q ∷ qs) s h =
      run-IsOrdered laws qs (execute q s) (execute-IsOrdered laws q s h)

  -- A commit that succeeds after a sequence of operations leaves in the trie exactly the values of
  -- a plain map under the same sequence, whatever failed before it, and empties the cache.
  pub commit-abstract_run :
      (laws : TrieLaws t) (qs : List Request) (s : OffchainState Trie) (root : ℕ)
      → IsOrdered t s
      → (commit t (run qs s)).0 ≡ ok root
      → let s' = (commit t (run qs s)).1 in
        ((j : ℕ) → trie_get j s'.trie ≡ abstract_run qs (pending t s) j)
        × (s'.cache ≡ [])
        × (s'.keys_to_remove ≡ [])
        × (root ≡ t.trie_root s'.trie)
  commit-abstract_run laws qs s root h success =
      elim (commit-cases t laws (run qs s) (run-IsOrdered laws qs s h)) [
        | inl (e, trie', failed, _) ↦ absurd (ground (arith, failed, success))
        | inr (trie', done, stored) ↦ (
          λ j. ap (λ out. trie_get j out.1.trie) done ∙ stored j ∙ run-abstract_run laws qs s h j,
          ground (arith, done),
          ground (arith, done),
          ground (arith, done, success),
        )
      ]

  -- `get` answers with the value that the next commit is to store, unless the key is to be removed.
  pub get-pending :
      (key : ℕ) (s : OffchainState Trie)
      → contains key s.keys_to_remove ≡ false
      → (get t key s).0 ≡ pending t s key
  get-pending key s stays = elim (get-cases t key s) [
    | inl same ↦ ground (arith, same)
    | inr (value, seen, noted) ↦ ground (arith, noted)
  ]
