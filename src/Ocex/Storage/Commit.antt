-- ===== src/Ocex/Storage/Commit.antt =====
-- A commit of `OffchainState` of pallets/ocex/src/storage.rs, and the abstract map that a sequence
-- of its operations implements.
use polkadex_node.Prelude.{
  ℕ, ◌≡◌, refl, ap, subst, ==_eq, ◌∙◌, ◌⊎◌, inl, inr, false, none, some, List, [], ◌∷◌, BTreeMap,
  map_get, ◌==◌, if◌then◌else◌, contains, keys, Distinct, Ascending-Distinct, arith, Bool-cases,
  map_get_absent,
}
use polkadex_node.Frame.{Result-cases, ok, err}
use polkadex_node.Ocex.Storage.{TrieDb, TrieLaws, OffchainState, insert_all, remove_all, commit}
use polkadex_node.Ocex.Storage.View.{overlay, pending, IsOrdered}

module _ (t : TrieDb) (laws : TrieLaws t) where
  open t use {Trie, trie_get, trie_insert, trie_remove, trie_root}

  -- Keys that are not inserted keep their value, whatever the outcome.
  insert_all_other :
      (m : BTreeMap (List ℕ)) (trie : Trie) (j : ℕ)
      → map_get j m ≡ none
      → trie_get j (insert_all t m trie).1 ≡ trie_get j trie
  unfolding insert_all map_get
  insert_all_other [] trie j h = refl
  insert_all_other ((key, value) ∷ m) trie j h = elim (Result-cases (trie_insert key value trie)) [
    | inl (trie', done) ↦
        rw (insert_all, done)
          (insert_all_other m trie' j (ground arith)
            ∙ ground (arith, laws.trie_get-trie_insert key value trie trie' j done))
    | inr (e, failed) ↦ rw (insert_all, failed) refl
  ]

  insert_first :
      (key : ℕ) (value : List ℕ) (m : BTreeMap (List ℕ)) (trie trie' : Trie) (j : ℕ)
      → contains key (keys m) ≡ false
      → trie_get j trie' ≡ (if key == j then ok (some value) else trie_get j trie)
      → overlay t m trie' j ≡ overlay t ((key, value) ∷ m) trie j
  unfolding map_get
  insert_first key value m trie trie' j new e = elim (Bool-cases (key == j)) [
    | inl same ↦
        let gone = subst (λ k. map_get k m ≡ none) (==_eq key j same) (map_get_absent key m new) in
        ground (arith, e, gone)
    | inr other ↦ ground (arith, e)
  ]

  insert_all_lem :
      (m : BTreeMap (List ℕ)) (trie : Trie)
      → Distinct (keys m)
      → (insert_all t m trie).0 ≡ ok tt
      → (j : ℕ) → trie_get j (insert_all t m trie).1 ≡ overlay t m trie j
  unfolding insert_all map_get keys
  insert_all_lem [] trie d h j = refl
  insert_all_lem ((key, value) ∷ m) trie (new, d) h j =
      elim (Result-cases (trie_insert key value trie)) [
        | inl (trie', done) ↦
            let rest = insert_all_lem m trie' d (ground arith) j in
            let e = laws.trie_get-trie_insert key value trie trie' j done in
            rw (insert_all, done) (rest ∙ insert_first key value m trie trie' j new e)
        | inr (e, failed) ↦ absurd (ground arith)
      ]

  remove_all_other :
      (s : List ℕ) (trie : Trie) (j : ℕ)
      → contains j s ≡ false
      → trie_get j (remove_all t s trie).1 ≡ trie_get j trie
  unfolding remove_all
  remove_all_other [] trie j h = refl
  remove_all_other (key ∷ s) trie j h = elim (Result-cases (trie_remove key trie)) [
    | inl (trie', done) ↦
        rw (remove_all, done)
          (remove_all_other s trie' j (ground arith)
            ∙ ground (arith, laws.trie_get-trie_remove key trie trie' j done))
    | inr (e, failed) ↦ rw (remove_all, failed) refl
  ]

  remove_all_gone :
      (s : List ℕ) (trie : Trie) (j : ℕ)
      → trie_get j trie ≡ ok none
      → trie_get j (remove_all t s trie).1 ≡ ok none
  unfolding remove_all
  remove_all_gone [] trie j h = h
  remove_all_gone (key ∷ s) trie j h = elim (Result-cases (trie_remove key trie)) [
    | inl (trie', done) ↦
        rw (remove_all, done)
          (remove_all_gone s trie' j
            (ground (arith, laws.trie_get-trie_remove key trie trie' j done)))
    | inr (e, failed) ↦ rw (remove_all, failed) h
  ]

  remove_all_lem :
      (s : List ℕ) (trie : Trie)
      → (remove_all t s trie).0 ≡ ok tt
      → (j : ℕ)
      → trie_get j (remove_all t s trie).1 ≡ (if contains j s then ok none else trie_get j trie)
  unfolding remove_all
  remove_all_lem [] trie h j = refl
  remove_all_lem (key ∷ s) trie h j = elim (Result-cases (trie_remove key trie)) [
    | inl (trie', done) ↦
        let e = laws.trie_get-trie_remove key trie trie' j done in
        let rest = remove_all_lem s trie' (ground arith) j in
        let gone = remove_all_gone s trie' j in
        rw (remove_all, done) (ground (arith, e, rest, gone))
    | inr (e, failed) ↦ absurd (ground arith)
  ]

  -- A commit either fails, and then the trie changed at most under keys that are cached or to be
  -- removed, or it leaves the pending values in the trie, and nothing beside it.
  pub commit-cases :
      (s : OffchainState Trie)
      → IsOrdered t s
      → ((e : ℕ) × (trie' : Trie) × (commit t s ≡ (err e, record s { trie = trie' }))
          × ((j : ℕ)
              → contains j s.keys_to_remove ≡ false
              → map_get j s.cache ≡ none
              → trie_get j trie' ≡ trie_get j s.trie))
        ⊎ ((trie' : Trie) × (commit t s
              ≡ (ok (trie_root trie'), record { cache = []; trie = trie'; keys_to_remove = [] }))
            × ((j : ℕ) → trie_get j trie' ≡ pending t s j))
  unfolding commit
  commit-cases s (ordered, _) =
      let trie₁ = (insert_all t s.cache s.trie).1 in
      let trie₂ = (remove_all t s.keys_to_remove trie₁).1 in
      let kept = insert_all_other s.cache s.trie in
      elim (Result-cases (insert_all t s.cache s.trie).0) [
        | inr (e, failed) ↦ inl (e, trie₁, ground arith, λ j _. kept j)
        | inl (_, inserted) ↦ elim (Result-cases (remove_all t s.keys_to_remove trie₁).0) [
          | inr (e, failed) ↦ inl (
            e,
            trie₂,
            ground arith,
            λ j free miss. remove_all_other s.keys_to_remove trie₁ j free ∙ kept j miss,
          )
          | inl (_, removed) ↦
              let values = insert_all_lem s.cache s.trie (Ascending-Distinct _ ordered) inserted in
              inr (
                trie₂,
                ground arith,
                λ j.
                    remove_all_lem s.keys_to_remove trie₁ removed j
                    ∙ ap (λ a. if contains j s.keys_to_remove then ok none else a) (values j),
              )
        ]
      ]
