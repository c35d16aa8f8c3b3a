-- ===== src/Ocex/Storage.antt =====
-- `OffchainState` of pallets/ocex/src/storage.rs: the trie of the orderbook's balances behind a
-- cache of values and a set of keys to remove. trie_db is a third-party crate, so the trie is a
-- parameter. A key is a number, a value a list of bytes.
pub mod View
pub mod Commit
pub mod Refinement
use polkadex_node.Prelude.{
  ℕ, ◌≡◌, Bool, true, false, Option, none, some, List, [], ◌∷◌, BTreeMap, map_insert, map_get,
  map_remove, set_insert, set_remove, ◌==◌, if◌then◌else◌,
}
use polkadex_node.Frame.{Result, ok, err, Action, pure, modify, ◌>>=◌, ◌>>◌}

-- What the sources call of `TrieDBMut`; an error is the text that `map_trie_error` makes of it.
pub record TrieDb : Type 1 where
  pub Trie : Type 0
  pub trie_get : ℕ → Trie → Result ℕ (Option (List ℕ))
  pub trie_insert : ℕ → List ℕ → Trie → Result ℕ Trie
  pub trie_remove : ℕ → Trie → Result ℕ Trie
  -- `commit`, then `root`
  pub trie_root : Trie → ℕ

-- A trie is a map: what trie_db documents of an insertion and of a removal that succeed.
pub record TrieLaws (t : TrieDb) : Type 0 where
  pub trie_get-trie_insert :
      (key : ℕ) (value : List ℕ) (trie trie' : t.Trie) (j : ℕ)
      → t.trie_insert key value trie ≡ ok trie'
      → t.trie_get j trie' ≡ (if key == j then ok (some value) else t.trie_get j trie)
  pub trie_get-trie_remove :
      (key : ℕ) (trie trie' : t.Trie) (j : ℕ)
      → t.trie_remove key trie ≡ ok trie'
      → t.trie_get j trie' ≡ (if key == j then ok none else t.trie_get j trie)

pub record OffchainState (Trie : Type 0) : Type 0 where
  pub cache : BTreeMap (List ℕ)
  pub trie : Trie
  pub keys_to_remove : List ℕ

module _ (t : TrieDb) where
  open t use {Trie, trie_get, trie_insert, trie_remove, trie_root}

  -- `OffchainState::get`
  unfoldable pub get : ℕ → Action (OffchainState Trie) ℕ (Option (List ℕ))
  get key s = elim (map_get key s.cache) [
    | some value ↦ (ok (some value), s)
    | none ↦ elim (trie_get key s.trie) [
      | err e ↦ (err e, s)
      | ok none ↦ (ok none, s)
      | ok (some value) ↦ (ok (some value), record s { cache = map_insert key value s.cache })
    ]
  ]

  -- `OffchainState::insert`
  unfoldable pub insert : ℕ → List ℕ → Action (OffchainState Trie) ℕ (Unit {0})
  insert key value s = (
    ok tt,
    record s {
      keys_to_remove = set_remove key s.keys_to_remove;
      cache = map_insert key value s.cache;
    },
  )

  -- `OffchainState::remove`
  unfoldable pub remove : ℕ → Action (OffchainState Trie) ℕ (Unit {0})
  remove key s = (
    ok tt,
    record s { cache = map_remove key s.cache; keys_to_remove = set_insert key s.keys_to_remove },
  )

  -- The first loop of `OffchainState::commit`: an error leaves what went into the trie before it.
  unfoldable pub insert_all : BTreeMap (List ℕ) → Action Trie ℕ (Unit {0})
  insert_all [] trie = (ok tt, trie)
  insert_all ((key, value) ∷ rest) trie = elim (trie_insert key value trie) [
    | ok trie' ↦ insert_all rest trie'
    | err e ↦ (err e, trie)
  ]

  -- The second loop of `OffchainState::commit`
  unfoldable pub remove_all : List ℕ → Action Trie ℕ (Unit {0})
  remove_all [] trie = (ok tt, trie)
  remove_all (key ∷ rest) trie = elim (trie_remove key trie) [
    | ok trie' ↦ remove_all rest trie'
    | err e ↦ (err e, trie)
  ]

  -- `OffchainState::commit`
  unfoldable pub commit : Action (OffchainState Trie) ℕ ℕ
  commit s =
      let (inserted, trie₁) = insert_all s.cache s.trie in
      elim inserted [
        | err e ↦ (err e, record s { trie = trie₁ })
        | ok _ ↦
            let (removed, trie₂) = remove_all s.keys_to_remove trie₁ in
            elim removed [
              | err e ↦ (err e, record s { trie = trie₂ })
              | ok _ ↦
                  (ok (trie_root trie₂), record { cache = []; trie = trie₂; keys_to_remove = [] })
            ]
      ]
