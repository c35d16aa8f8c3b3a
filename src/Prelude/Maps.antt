-- ===== src/Prelude/Maps.antt =====
-- `BTreeMap` and `BTreeSet` with numbers for keys: lists in ascending order of the keys.
use Prim.Native.Nat.{ℕ, ◌+◌, ◌≤◌, ◌<◌}
use mathlib.Core.Path.{◌≡◌, refl}
use mathlib.Core.Logic.{inl, inr}
use mathlib.Core.Bool.{Bool, true, false, ◌&&◌}
use mathlib.Core.List.{List, [], ◌∷◌}
use mathlib.Core.Option.{Option, none, some}
use native.Mathlib.Omega.{arith}
use polkadex_node.Prelude.Tests.{◌==◌, ltb, if◌then◌else◌, Bool-cases}
use polkadex_node.Prelude.Lists.{length, contains, Distinct}

-- In ascending order: the order that the sets and the keys of the maps keep.
abbrev pub Ascending : List ℕ → Type 0
Ascending [] = Unit
Ascending (x ∷ xs) = ((j : ℕ) → contains j xs ≡ true → x < j) × Ascending xs

pub Ascending-Distinct : (xs : List ℕ) → Ascending xs → Distinct xs
Ascending-Distinct [] d = tt
Ascending-Distinct (x ∷ xs) (h, d) = (
  elim (Bool-cases (contains x xs)) [
    | inl there ↦ absurd (omega (arith, h x there))
    | inr free ↦ free
  ],
  Ascending-Distinct xs d,
)

abbrev pub BTreeMap : Type 0 → Type 0
BTreeMap V = List (ℕ × V)

module _ {V : Type 0} where
  unfoldable pub map_insert : ℕ → V → BTreeMap V → BTreeMap V
  map_insert k v [] = (k, v) ∷ []
  map_insert k v ((j, w) ∷ m) =
      if k == j
      then (k, v) ∷ m
      else if ltb k j
      then (k, v) ∷ (j, w) ∷ m
      else (j, w) ∷ map_insert k v m

  unfoldable pub contains_key : ℕ → BTreeMap V → Bool
  contains_key k [] = false
  contains_key k ((j, w) ∷ m) = if k == j then true else contains_key k m

  unfoldable pub map_get : ℕ → BTreeMap V → Option V
  map_get k [] = none
  map_get k ((j, w) ∷ m) = if k == j then some w else map_get k m

  unfoldable pub map_remove : ℕ → BTreeMap V → BTreeMap V
  map_remove k [] = []
  map_remove k ((j, w) ∷ m) = if k == j then m else (j, w) ∷ map_remove k m

  -- The keys, in the order of the map.
  unfoldable pub keys : BTreeMap V → List ℕ
  keys [] = []
  keys ((j, w) ∷ m) = j ∷ keys m

  pub map_get-map_insert :
      (k j : ℕ) (v : V) (m : BTreeMap V)
      → map_get j (map_insert k v m) ≡ (if k == j then some v else map_get j m)
  unfolding map_insert map_get
  map_get-map_insert k j v [] = ground arith
  map_get-map_insert k j v ((i, w) ∷ m) = ground (arith, map_get-map_insert k j v m)

  -- A key that is not listed has no value.
  pub map_get_absent : (k : ℕ) (m : BTreeMap V) → contains k (keys m) ≡ false → map_get k m ≡ none
  unfolding map_get keys
  map_get_absent k [] h = refl
  map_get_absent k ((i, w) ∷ m) h = ground (arith, map_get_absent k m)

  pub map_get-map_remove :
      (k j : ℕ) (m : BTreeMap V)
      → Distinct (keys m)
      → map_get j (map_remove k m) ≡ (if k == j then none else map_get j m)
  unfolding map_get map_remove keys
  map_get-map_remove k j [] d = ground arith
  map_get-map_remove k j ((i, w) ∷ m) (h, d) =
      ground (arith, map_get-map_remove k j m d, map_get_absent i m h)

  -- A new key is there, and no key is lost.
  pub contains_key-map_insert :
      (k j : ℕ) (v : V) (m : BTreeMap V)
      → contains_key j (map_insert k v m) ≡ (if k == j then true else contains_key j m)
  unfolding map_insert contains_key
  contains_key-map_insert k j v [] = ground arith
  contains_key-map_insert k j v ((i, w) ∷ m) = ground (arith, contains_key-map_insert k j v m)

  -- An insertion adds one key at most, and drops none.
  pub length-map_insert :
      (k : ℕ) (v : V) (m : BTreeMap V)
      → (length m ≤ length (map_insert k v m)) × (length (map_insert k v m) ≤ length m + 1)
  unfolding map_insert
  length-map_insert k v [] = (omega arith, omega arith)
  length-map_insert k v ((j, w) ∷ m) = ground (arith, length-map_insert k v m)

-- `BTreeSet::insert`
unfoldable pub set_insert : ℕ → List ℕ → List ℕ
set_insert k [] = k ∷ []
set_insert k (j ∷ s) = if k == j then j ∷ s else if ltb k j then k ∷ j ∷ s else j ∷ set_insert k s

-- `BTreeSet::remove`
unfoldable pub set_remove : ℕ → List ℕ → List ℕ
set_remove k [] = []
set_remove k (j ∷ s) = if k == j then s else j ∷ set_remove k s

-- `BTreeSet::from_iter`
unfoldable pub set_from : List ℕ → List ℕ
set_from [] = []
set_from (x ∷ xs) = set_insert x (set_from xs)

-- `==` of two sets, in order.
unfoldable pub set_eq : List ℕ → List ℕ → Bool
set_eq [] [] = true
set_eq [] (y ∷ ys) = false
set_eq (x ∷ xs) [] = false
set_eq (x ∷ xs) (y ∷ ys) = (x == y) && set_eq xs ys

pub contains-set_insert :
    (k j : ℕ) (s : List ℕ) → contains j (set_insert k s) ≡ (if k == j then true else contains j s)
unfolding set_insert
contains-set_insert k j [] = ground arith
contains-set_insert k j (i ∷ s) = ground (arith, contains-set_insert k j s)

pub contains-set_remove :
    (k j : ℕ) (s : List ℕ)
    → Distinct s
    → contains j (set_remove k s) ≡ (if k == j then false else contains j s)
unfolding set_remove
contains-set_remove k j [] d = ground arith
contains-set_remove k j (i ∷ s) (h, d) = ground (arith, contains-set_remove k j s d)

pub contains-set_remove_sub :
    (k j : ℕ) (s : List ℕ) → contains j (set_remove k s) ≡ true → contains j s ≡ true
unfolding set_remove
contains-set_remove_sub k j [] h = h
contains-set_remove_sub k j (i ∷ s) h = ground (arith, contains-set_remove_sub k j s)

pub set_insert-Ascending : (k : ℕ) (s : List ℕ) → Ascending s → Ascending (set_insert k s)
unfolding set_insert
set_insert-Ascending k [] d = (λ j h. ground arith, tt)
set_insert-Ascending k (i ∷ s) (h, d) = elim (Bool-cases (k == i)) [
  | inl same ↦ rw (set_insert, same) (h, d)
  | inr other ↦ elim (Bool-cases (ltb k i)) [
    | inl low ↦ rw (set_insert, other, low) (λ j there. ground (arith, h j), (h, d))
    | inr high ↦
        rw (set_insert, other, high)
          (λ j there. ground (arith, h j, contains-set_insert k j s), set_insert-Ascending k s d)
  ]
]

pub set_remove-Ascending : (k : ℕ) (s : List ℕ) → Ascending s → Ascending (set_remove k s)
unfolding set_remove
set_remove-Ascending k [] d = tt
set_remove-Ascending k (i ∷ s) (h, d) = elim (Bool-cases (k == i)) [
  | inl same ↦ rw (set_remove, same) d
  | inr other ↦
      rw (set_remove, other)
        (λ j there. h j (contains-set_remove_sub k j s there), set_remove-Ascending k s d)
]

-- The keys of a map are a set.
module _ {V : Type 0} where
  pub keys-map_insert :
      (k : ℕ) (v : V) (m : BTreeMap V) → keys (map_insert k v m) ≡ set_insert k (keys m)
  unfolding map_insert keys set_insert
  keys-map_insert k v [] = refl
  keys-map_insert k v ((i, w) ∷ m) = ground (arith, keys-map_insert k v m)

  pub keys-map_remove : (k : ℕ) (m : BTreeMap V) → keys (map_remove k m) ≡ set_remove k (keys m)
  unfolding map_remove keys set_remove
  keys-map_remove k [] = refl
  keys-map_remove k ((i, w) ∷ m) = ground (arith, keys-map_remove k m)

  pub map_insert-Ascending :
      (k : ℕ) (v : V) (m : BTreeMap V) → Ascending (keys m) → Ascending (keys (map_insert k v m))
  map_insert-Ascending k v m d = rw (keys-map_insert k v m) (set_insert-Ascending k (keys m) d)

  pub map_remove-Ascending :
      (k : ℕ) (m : BTreeMap V) → Ascending (keys m) → Ascending (keys (map_remove k m))
  map_remove-Ascending k m d = rw (keys-map_remove k m) (set_remove-Ascending k (keys m) d)
