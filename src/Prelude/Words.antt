-- ===== src/Prelude/Words.antt =====
-- Unsigned machine words as native numbers: the bounds, and Rust's wrapping and saturating sums.
use Prim.Native.Nat.{ℕ, ◌+◌, ◌-◌, ◌*◌, ◌%◌, ◌^◌, ◌≤◌, min}
use native.Mathlib.Omega.{arith}

abbrev pub u16_mod : ℕ
u16_mod = 2 ^ 16

abbrev pub u32_mod : ℕ
u32_mod = 2 ^ 32

abbrev pub u64_mod : ℕ
u64_mod = 2 ^ 64

abbrev pub u128_mod : ℕ
u128_mod = 2 ^ 128

-- `saturating_add` of an unsigned type of the given modulus.
abbrev pub saturating_add : ℕ → ℕ → ℕ → ℕ
saturating_add m a b = min (a + b) (m - 1)

-- `saturating_mul` of an unsigned type of the given modulus.
abbrev pub saturating_mul : ℕ → ℕ → ℕ → ℕ
saturating_mul m a b = min (a * b) (m - 1)

-- `+` of an unsigned type of the given modulus in a release build, which wraps.
abbrev pub wrapping_add : ℕ → ℕ → ℕ → ℕ
wrapping_add m a b = (a + b) % m

pub saturating_add-le : (m a b : ℕ) → saturating_add m a b ≤ a + b
saturating_add-le m a b = omega arith
