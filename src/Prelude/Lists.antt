-- ===== src/Prelude/Lists.antt =====
-- Lists measured by native numbers, membership as a test, and storage maps as functions.
use Prim.Native.Nat.{ℕ, zero, suc, ◌+◌, ◌≤◌}
use mathlib.Core.Path.{◌≡◌, refl, fun_ext}
use mathlib.Core.Logic.{◌≢◌}
use mathlib.Core.Bool.{Bool, true, false}
use mathlib.Core.List.{List, [], ◌∷◌, ◌++◌}
use mathlib.Core.Option.{Option, none, some}
use native.Mathlib.Omega.{arith}
use polkadex_node.Prelude.Tests.{◌==◌, if◌then◌else◌}

module _ {ℓ} {A : Type ℓ} where
  abbrev pub length : List A → ℕ
  length [] = 0
  length (x ∷ xs) = suc (length xs)

  abbrev pub get_elem? : List A → ℕ → Option A
  get_elem? [] i = none
  get_elem? (x ∷ xs) zero = some x
  get_elem? (x ∷ xs) (suc i) = get_elem? xs i

  abbrev pub take : ℕ → List A → List A
  take zero xs = []
  take (suc n) [] = []
  take (suc n) (x ∷ xs) = x ∷ take n xs

  abbrev pub is_empty : List A → Bool
  is_empty [] = true
  is_empty (x ∷ xs) = false

  pub length-append : (xs ys : List A) → length (xs ++ ys) ≡ length xs + length ys
  length-append [] ys = omega arith
  length-append (x ∷ xs) ys = omega (arith, length-append xs ys)

  pub length-take-le : (n : ℕ) (xs : List A) → length (take n xs) ≤ n
  length-take-le zero xs = omega arith
  length-take-le (suc n) [] = omega arith
  length-take-le (suc n) (x ∷ xs) = omega (arith, length-take-le n xs)

-- `contains` of a vector of numbers (accounts, networks).
abbrev pub contains : ℕ → List ℕ → Bool
contains a [] = false
contains a (x ∷ xs) = if a == x then true else contains a xs

-- No entry twice.
abbrev pub Distinct : List ℕ → Type 0
Distinct [] = Unit
Distinct (x ∷ xs) = (contains x xs ≡ false) × Distinct xs

pub contains-append :
    (a : ℕ) (xs ys : List ℕ)
    → contains a (xs ++ ys) ≡ (if contains a xs then true else contains a ys)
contains-append a [] ys = refl
contains-append a (x ∷ xs) ys = ground (arith, contains-append a xs ys)

-- A new entry at the end keeps a vector free of duplicates.
pub push-Distinct :
    (a : ℕ) (xs : List ℕ) → contains a xs ≡ false → Distinct xs → Distinct (xs ++ a ∷ [])
push-Distinct a [] h d = (refl, tt)
push-Distinct a (x ∷ xs) h d =
    ground (arith, push-Distinct a xs, contains-append x xs (a ∷ []), d.1, d.0)

-- A storage map: a default is a value of the function, a missing key is `none`.
module _ {ℓ} {V : Type ℓ} where
  abbrev pub update : (ℕ → V) → ℕ → V → ℕ → V
  update f k v j = if k == j then v else f j

  -- A storage double map.
  abbrev pub update₂ : (ℕ → ℕ → V) → ℕ → ℕ → V → ℕ → ℕ → V
  update₂ f k n v j m = if k == j then (if n == m then v else f j m) else f j m

  pub update_self : (f : ℕ → V) (k : ℕ) (v : V) → update f k v k ≡ v
  update_self f k v = ground arith

  pub update_ne : (f : ℕ → V) (k : ℕ) (v : V) (j : ℕ) → k ≢ j → update f k v j ≡ f j
  update_ne f k v j h = ground arith

-- To take an entry out and put it back changes nothing.
pub update-update_same {ℓ} :
    {V : Type ℓ} (f : ℕ → V) (k : ℕ) (v w : V) → f k ≡ w → update (update f k v) k w ≡ f
update-update_same f k v w h = fun_ext λ j. ground arith
