-- ===== src/Ocex/Decimal.antt =====
-- rust_decimal as the orderbook sees it: a third-party crate, so the numbers and their operations
-- are parameters. `Decimals` lists the operations that the sources call, `GridLaws` the documented
-- behaviour that a theorem may take as a hypothesis.
use polkadex_node.Prelude.{ℕ, ◌+◌, ◌-◌, ◌^◌, ◌≤◌, ◌<◌, ◌≡◌, Bool, Option, ltb}

pub record Decimals : Type 1 where
  pub Decimal : Type 0
  pub zero_decimal : Decimal
  pub from_u128 : ℕ → Decimal
  pub to_u128 : Decimal → Option ℕ
  pub checked_add : Decimal → Decimal → Option Decimal
  pub checked_div : Decimal → Decimal → Option Decimal
  pub decimal_add : Decimal → Decimal → Decimal
  pub decimal_sub : Decimal → Decimal → Decimal
  pub decimal_mul : Decimal → Decimal → Decimal
  -- `Mul::mul`, which panics where the product does not fit
  pub mul : Decimal → Decimal → Decimal
  pub rem : Decimal → Decimal → Decimal
  -- the number of digits after the point
  pub scale : Decimal → ℕ
  pub is_zero : Decimal → Bool
  -- `<`
  pub below : Decimal → Decimal → Bool
  -- `round_dp_with_strategy(digits, RoundingStrategy::ToZero)`
  pub round_to_zero : ℕ → Decimal → Decimal

-- The mantissa of a number has 96 bits.
abbrev pub mantissa_limit : ℕ
mantissa_limit = 2 ^ 96

module _ (d : Decimals) where
  open d use {Decimal, zero_decimal, decimal_add, decimal_sub, below, round_to_zero}

  -- `Order::rounding_off` of primitives/orderbook/src/types.rs
  unfoldable pub rounding_off : Decimal → Decimal
  rounding_off a = round_to_zero 9 a

  -- The numbers that are a multiple of one unit of 10 ^ -18, not negative and of at most 96 bits in
  -- that unit: `atoms` counts the units. Sums and differences of them are exact where they fit.
  pub record GridLaws : Type 1 where
    pub atoms : Decimal → ℕ
    pub IsFine : Decimal → Type 0
    pub zero_decimal-IsFine : IsFine zero_decimal
    pub atoms-zero_decimal : atoms zero_decimal ≡ 0
    pub decimal_add-IsFine :
        (a b : Decimal)
        → IsFine a
        → IsFine b
        → atoms a + atoms b < mantissa_limit
        → IsFine (decimal_add a b)
    pub atoms-decimal_add :
        (a b : Decimal)
        → IsFine a
        → IsFine b
        → atoms a + atoms b < mantissa_limit
        → atoms (decimal_add a b) ≡ atoms a + atoms b
    pub decimal_sub-IsFine :
        (a b : Decimal) → IsFine a → IsFine b → atoms b ≤ atoms a → IsFine (decimal_sub a b)
    pub atoms-decimal_sub :
        (a b : Decimal)
        → IsFine a
        → IsFine b
        → atoms b ≤ atoms a
        → atoms (decimal_sub a b) ≡ atoms a - atoms b
    pub round_to_zero-IsFine :
        (digits : ℕ) (a : Decimal) → IsFine a → IsFine (round_to_zero digits a)
    pub atoms-round_to_zero :
        (digits : ℕ) (a : Decimal) → IsFine a → atoms (round_to_zero digits a) ≤ atoms a
    pub below-atoms : (a b : Decimal) → IsFine a → IsFine b → below a b ≡ ltb (atoms a) (atoms b)
