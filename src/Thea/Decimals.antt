-- ===== src/Thea/Decimals.antt =====
-- The decimals of bridged assets: `AssetMetadata` of primitives/thea/src/types.rs, with the
-- arithmetic of a release build, where `-`, `as` and `pow` wrap.
use polkadex_node.Prelude.{
  ℕ, ◌-◌, ◌*◌, ◌/◌, ◌%◌, ◌^◌, ◌≤◌, ◌<◌, ◌≡◌, refl, inl, inr, Option, none, some, arith, ltb, leb,
  ◌==◌, if◌then◌else◌, true, false, min, Bool-cases, u128_mod, saturating_mul,
}
use native.Mathlib.Nat.{pow-le-pow_right, mul-div_cancel}

pub record AssetMetadata : Type 0 where
  pub decimal : ℕ

-- `AssetMetadata::new`
unfoldable pub new_asset_metadata : ℕ → Option AssetMetadata
new_asset_metadata decimal = if ltb decimal 1 then none else some (record { decimal = decimal })

-- `12 - self.decimal as i8`, as a byte: from 128 on it is negative.
unfoldable pub decimal_diff : AssetMetadata → ℕ
decimal_diff m = (268 - m.decimal) % 256

-- `10u128.pow(e)`
unfoldable pub pow_10 : ℕ → ℕ
pow_10 e = 10 ^ e % u128_mod

-- `saturating_div`: a division by zero panics.
unfoldable pub saturating_div : ℕ → ℕ → Option ℕ
saturating_div amount p = if p == 0 then none else some (amount / p)

unfoldable pub convert_to_native_decimals : AssetMetadata → ℕ → Option ℕ
convert_to_native_decimals m amount =
    if leb 128 (decimal_diff m)
    then saturating_div amount (pow_10 (256 - decimal_diff m))
    else if decimal_diff m == 0
    then some amount
    else some (saturating_mul u128_mod amount (pow_10 (decimal_diff m)))

unfoldable pub convert_from_native_decimals : AssetMetadata → ℕ → Option ℕ
convert_from_native_decimals m amount =
    if leb 128 (decimal_diff m)
    then some (saturating_mul u128_mod amount (pow_10 (256 - decimal_diff m)))
    else if decimal_diff m == 0
    then some amount
    else saturating_div amount (pow_10 (decimal_diff m))

pow_10-small : (e : ℕ) → e ≤ 38 → pow_10 e ≡ 10 ^ e
unfolding pow_10
pow_10-small e h = let top : 10 ^ e ≤ 10 ^ 38 = pow-le-pow_right (omega arith) h in omega arith

pow_pos : (e : ℕ) → 0 < 10 ^ e
pow_pos e =
    let low : 10 ^ 0 ≤ 10 ^ e =
      pow-le-pow_right {n = 10} (omega arith) {i = 0} {j = e} (omega arith) in
    omega arith

-- Scaling up by a power of ten that fits, and down again.
scale_roundtrip :
    (a e : ℕ)
    → e ≤ 38
    → a * 10 ^ e < u128_mod
    → saturating_div (saturating_mul u128_mod a (pow_10 e)) (pow_10 e) ≡ some a
unfolding saturating_div
scale_roundtrip a e small fits = rw (pow_10-small e small) (
    let pos = pow_pos e in
    let back = mul-div_cancel a pos in
    let nonzero : (10 ^ e == 0) ≡ false = ground arith in
    let whole : min (a * 10 ^ e) (u128_mod - 1) ≡ a * 10 ^ e = omega arith in
    rw (nonzero, whole, back) refl)

diff_below : (m : AssetMetadata) → m.decimal ≤ 12 → decimal_diff m ≡ 12 - m.decimal
unfolding decimal_diff
diff_below m h = omega arith

diff_above :
    (m : AssetMetadata) → 12 < m.decimal → m.decimal ≤ 50 → 256 - decimal_diff m ≡ m.decimal - 12
unfolding decimal_diff
diff_above m h k = omega arith

diff_negative : (m : AssetMetadata) → 12 < m.decimal → m.decimal ≤ 50 → 128 ≤ decimal_diff m
unfolding decimal_diff
diff_negative m h k = omega arith

-- An asset of at most 12 decimals loses nothing on the way in: where the native amount fits in 128
-- bits, an amount that is converted to the native decimals is converted back to itself.
pub native_roundtrip :
    (m : AssetMetadata) (amount : ℕ)
    → m.decimal ≤ 12
    → amount * 10 ^ (12 - m.decimal) < u128_mod
    → (native : ℕ) × (convert_to_native_decimals m amount ≡ some native)
      × (convert_from_native_decimals m native ≡ some amount)
unfolding convert_to_native_decimals convert_from_native_decimals
native_roundtrip m amount few fits =
    let d = diff_below m few in
    let positive : leb 128 (decimal_diff m) ≡ false = ground (arith, d) in
    elim (Bool-cases (decimal_diff m == 0)) [
      | inl zero_diff ↦ (amount, ground arith, ground arith)
      | inr scaled ↦ (
        saturating_mul u128_mod amount (pow_10 (decimal_diff m)),
        ground arith,
        rw (positive, scaled, d) (scale_roundtrip amount (12 - m.decimal) (omega arith) fits),
      )
    ]

-- An asset of 13 to 50 decimals loses nothing on the way out: where the foreign amount fits in 128
-- bits, a native amount that is converted to the foreign decimals is converted back to itself.
pub foreign_roundtrip :
    (m : AssetMetadata) (amount : ℕ)
    → 12 < m.decimal
    → m.decimal ≤ 50
    → amount * 10 ^ (m.decimal - 12) < u128_mod
    → (foreign : ℕ) × (convert_from_native_decimals m amount ≡ some foreign)
      × (convert_to_native_decimals m foreign ≡ some amount)
unfolding convert_to_native_decimals convert_from_native_decimals
foreign_roundtrip m amount many bounded fits =
    let d = diff_above m many bounded in
    let n = diff_negative m many bounded in
    let negative : leb 128 (decimal_diff m) ≡ true = ground (arith, n) in
    (
      saturating_mul u128_mod amount (pow_10 (256 - decimal_diff m)),
      ground arith,
      rw (negative, d) (scale_roundtrip amount (m.decimal - 12) (omega arith) fits),
    )
