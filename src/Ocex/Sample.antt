-- ===== src/Ocex/Sample.antt =====
-- A concrete runtime, number type, trie and codec for the tests of the OCEX pallet.
use polkadex_node.Prelude.{
  ℕ, suc, ◌+◌, ◌-◌, ◌*◌, ◌/◌, ◌%◌, ◌^◌, ◌≤◌, ◌<◌, ◌≡◌, ◌≢◌, refl, true, false, Option, none, some,
  List, [], ◌∷◌, arith, ltb, ◌==◌, if◌then◌else◌, update, update₂, BTreeMap, Bool-cases, inl, inr,
}
use native.Mathlib.Nat.{div-mul-le_self}
use polkadex_node.Frame.{Result, ok, err, root, signed, unsigned}
use polkadex_node.Ocex.Decimal.{Decimals, GridLaws, mantissa_limit}
use polkadex_node.Ocex.Storage.{TrieDb, TrieLaws}
use polkadex_node.Ocex.Types.{Runtime, State}
use polkadex_node.Ocex.Settlement.{Codec, CodecLaws}
use polkadex_node.Ocex.Custody.Funds.{CustodyLaws}

-- Numbers as a count of units of 10 ^ -18.
abbrev pub sample_decimals : Decimals
sample_decimals = record {
  Decimal = ℕ;
  zero_decimal = 0;
  from_u128 = λ n. n * 10 ^ 18;
  to_u128 = λ a. some (a / 10 ^ 18);
  checked_add = λ a b. some (a + b);
  checked_div = λ a b. if b == 0 then none else some ((a * 10 ^ 18) / b);
  decimal_add = λ a b. a + b;
  decimal_sub = λ a b. a - b;
  decimal_mul = λ a b. (a * b) / 10 ^ 18;
  mul = λ a b. (a * b) / 10 ^ 18;
  rem = λ a b. a % b;
  scale = λ a. if a % 10 ^ 9 == 0 then 9 else 18;
  is_zero = λ a. a == 0;
  below = ltb;
  round_to_zero = λ digits a. (a / 10 ^ (18 - digits)) * 10 ^ (18 - digits);
}

abbrev pub sample_grid : GridLaws sample_decimals
sample_grid = record {
  atoms = λ a. a;
  IsFine = λ a. a < mantissa_limit;
  zero_decimal-IsFine = omega arith;
  atoms-zero_decimal = refl;
  decimal_add-IsFine = λ a b _ _ h. h;
  atoms-decimal_add = λ a b _ _ _. refl;
  decimal_sub-IsFine = λ a b h _ _. omega (arith, h);
  atoms-decimal_sub = λ a b _ _ _. refl;
  round_to_zero-IsFine = λ digits a h. omega (arith, h, div-mul-le_self a (10 ^ (18 - digits)));
  atoms-round_to_zero = λ digits a _. div-mul-le_self a (10 ^ (18 - digits));
  below-atoms = λ a b _ _. refl;
}

-- A trie as a map.
abbrev pub sample_trie : TrieDb
sample_trie = record {
  Trie = ℕ → Option (List ℕ);
  trie_get = λ key trie. ok (trie key);
  trie_insert = λ key value trie. ok (update trie key (some value));
  trie_remove = λ key trie. ok (update trie key none);
  trie_root = λ trie. 7;
}

pub sample_trie_laws : TrieLaws sample_trie
sample_trie_laws = record {
  trie_get-trie_insert = λ key value trie trie' j h. ground (arith, h);
  trie_get-trie_remove = λ key trie trie' j h. ground (arith, h);
}

abbrev pub encode_balances : BTreeMap ℕ → List ℕ
encode_balances [] = []
encode_balances ((asset, amount) ∷ m) = asset ∷ amount ∷ encode_balances m

abbrev pub decode_balances : List ℕ → Option (BTreeMap ℕ)
decode_balances [] = some []
decode_balances (asset ∷ []) = none
decode_balances (asset ∷ amount ∷ rest) = elim (decode_balances rest) [
  | none ↦ none
  | some m ↦ some ((asset, amount) ∷ m)
]

decode-encode_balances : (m : BTreeMap ℕ) → decode_balances (encode_balances m) ≡ some m
decode-encode_balances [] = refl
decode-encode_balances ((asset, amount) ∷ m) = ground (arith, decode-encode_balances m)

abbrev pub sample_codec : Codec sample_decimals
sample_codec = record { encode = encode_balances; decode = decode_balances }

pub sample_codec_laws : CodecLaws sample_decimals sample_codec
sample_codec_laws = record { decode-encode = decode-encode_balances }

-- Balances by asset and account, with transfers that move an amount that is there.
abbrev pub Holdings : Type 0
Holdings = ℕ → ℕ → ℕ

abbrev pub move : ℕ → ℕ → ℕ → ℕ → Holdings → Result ℕ Holdings
move asset payer payee amount l =
    if ltb (l asset payer) amount
    then err 1
    else let l' = update₂ l asset payer (l asset payer - amount) in
      ok (update₂ l' asset payee (l' asset payee + amount))

abbrev pub take_away : ℕ → ℕ → ℕ → Holdings → Result ℕ Holdings
take_away user asset amount l =
    if ltb (l asset user) amount then err 2 else ok (update₂ l asset user (l asset user - amount))

abbrev pub sample_runtime : Runtime
sample_runtime = record {
  decimals = sample_decimals;
  Ledger = Holdings;
  native_transfer = λ payer payee amount l. move 0 payer payee amount l;
  asset_transfer = λ id payer payee amount l. move (suc id) payer payee amount l;
  parachain_withdraw = λ user asset amount beneficiary fee id l. take_away user asset amount l;
  pallet_account = 99;
  is_governance = λ origin. elim origin [ root ↦ true | signed who ↦ false | unsigned ↦ false ];
  minimum_deposit = 10;
  proxy_limit = 3;
  ingress_limit = 10;
  allowlisted_token_limit = 5;
  withdrawal_limit = 20;
  percent_of = λ part whole. (part * whole + 50) / 100;
  encode_summary = λ summary. summary.snapshot_id ∷ summary.validator_set_id ∷ [];
  verify = λ auth payload signature. signature == auth + 1000;
  new_random_id = λ s. s.block_number + 500;
}

pub sample_percent : (n : ℕ) → 51 * n ≤ 100 * sample_runtime.percent_of 51 n + 50
sample_percent n = omega arith

pub move_lem :
    (asset payer payee amount : ℕ) (l l' : Holdings)
    → payer ≢ payee
    → move asset payer payee amount l ≡ ok l'
    → (l' asset payee ≡ l asset payee + amount) × (l' asset payer + amount ≡ l asset payer)
move_lem asset payer payee amount l l' other h = elim (Bool-cases (ltb (l asset payer) amount)) [
  | inl short ↦ absurd (ground (arith, short, h))
  | inr enough ↦ (ground (arith, enough, h, other), ground (arith, enough, h, other))
]

pub move_keeps_native :
    (id payer payee amount who : ℕ) (l l' : Holdings)
    → move (suc id) payer payee amount l ≡ ok l'
    → l' 0 who ≡ l 0 who
move_keeps_native id payer payee amount who l l' h =
    elim (Bool-cases (ltb (l (suc id) payer) amount)) [
      | inl short ↦ absurd (ground (arith, short, h))
      | inr enough ↦ ground (arith, enough, h)
    ]

pub send_keeps_others :
    (user asset amount who : ℕ) (l l' : Holdings)
    → user ≢ who
    → take_away user asset amount l ≡ ok l'
    → l' 0 who ≡ l 0 who
send_keeps_others user asset amount who l l' other h =
    elim (Bool-cases (ltb (l asset user) amount)) [
      | inl short ↦ absurd (ground (arith, short, h))
      | inr enough ↦ ground (arith, enough, h, other)
    ]

abbrev pub sample_custody : CustodyLaws sample_runtime
sample_custody = record {
  held = λ l asset who. l asset who;
  native_transfer_moves =
      λ payer payee amount l l' other h. move_lem 0 payer payee amount l l' other h;
  asset_transfer_moves =
      λ id payer payee amount l l' other h. move_lem (suc id) payer payee amount l l' other h;
  asset_transfer_keeps_native =
      λ id payer payee amount who l l' h. move_keeps_native id payer payee amount who l l' h;
  parachain_withdraw_keeps_others = λ user asset amount beneficiary fee id who l l' other h.
      send_keeps_others user asset amount who l l' other h;
}

-- A running exchange with the native currency and asset 4 allowed, and three authorities.
abbrev pub sample_state : State sample_decimals Holdings
sample_state = record {
  allowlisted_token = 0 ∷ 5 ∷ [];
  accounts = λ _. none;
  proxies = λ _. none;
  trading_pairs = λ _ _. none;
  snapshot_nonce = 6;
  exchange_state = true;
  withdrawals = λ _. none;
  ingress_messages = λ _. [];
  total_assets = λ _. 0;
  authorities =
      λ id. record { set_id = id; validators = if id == 3 then 21 ∷ 22 ∷ 23 ∷ [] else [] };
  validator_set_id = 3;
  operator_public_key = none;
  block_number = 40;
  ledger = λ asset who. if who == 99 then 50 else 1000;
  events = [];
}
