-- ===== src/Ocex/Custody.antt =====
-- Deposits and withdrawals of the exchange: the calls and helpers of pallets/ocex/src/lib.rs.
pub mod Claims
pub mod Payments
pub mod Tree
pub mod Loop
pub mod Deposits
pub mod Funds
use polkadex_node.Prelude.{
  ℕ, zero, suc, Bool, true, false, not, Option, none, some, List, [], ◌∷◌, ◌++◌, ltb, leb, ◌==◌,
  if◌then◌else◌, update, contains, is_some, is_empty, BTreeMap, map_get, map_insert, map_remove,
  map,
}
use polkadex_node.Frame.{
  Result, ok, err, Action, pure, raise, gets, modify, ensure, get_or_raise, ◌>>=◌, ◌>>◌,
  transactional, Origin, ensure_signed,
}
use polkadex_node.Ocex.Types.{
  Runtime, State, Withdrawal, Fees, SnapshotSummary, WithdrawalDestination, polkadot,
  ingress_deposit, ingress_direct_withdrawal, deposit_successful, withdraw_from_orderbook,
  withdrawal_claimed, withdrawal_ready, Error, bad_origin, dispatch, exchange_not_operational,
  token_not_allowlisted, amount_overflow, deposit_amount_too_low,
  failed_to_convert_decimal_to_balance, account_not_registered, invalid_withdrawal_index,
  deposit_max, withdrawal_max, unit_balance,
}
use polkadex_node.Ocex.Accounts.{Call, deposit_event, push_ingress, register_user}
use polkadex_node.Ocex.Pairs.{in_units}

module _ (r : Runtime) where
  open r use {
    decimals, Ledger, native_transfer, asset_transfer, parachain_withdraw, pallet_account,
    minimum_deposit, new_random_id,
  }
  open decimals use {Decimal, from_u128, to_u128, checked_add, decimal_mul}

  -- A call of another pallet, whose error is passed on.
  unfoldable pub on_ledger : (Ledger → Result ℕ Ledger) → Call r
  on_ledger f s = elim (f s.ledger) [
    | ok l ↦ (ok tt, record s { ledger = l })
    | err e ↦ (err (dispatch e), s)
  ]

  unfoldable pub transfer_asset : ℕ → ℕ → ℕ → ℕ → Call r
  transfer_asset payer payee amount zero = on_ledger (native_transfer payer payee amount)
  transfer_asset payer payee amount (suc id) = on_ledger (asset_transfer id payer payee amount)

  -- `if !Accounts::contains_key(&user) { register_user(..)? }`
  unfoldable pub ensure_registered : ℕ → Call r
  ensure_registered user s =
      if is_some (s.accounts user) then (ok tt, s) else register_user r user user s

  unfoldable pub do_deposit : ℕ → ℕ → ℕ → ℕ → Call r
  do_deposit id user asset amount = do
    operational ← gets (λ s. s.exchange_state)
    ensure operational exchange_not_operational
    tokens ← gets (λ s. s.allowlisted_token)
    ensure (contains asset tokens) token_not_allowlisted
    ensure (leb amount deposit_max) amount_overflow
    ensure (leb minimum_deposit amount) deposit_amount_too_low
    converted ← get_or_raise (λ _. in_units r amount) failed_to_convert_decimal_to_balance
    ensure_registered user
    transfer_asset user pallet_account amount asset
    total ← get_or_raise (λ s. checked_add converted (s.total_assets asset)) amount_overflow
    modify (λ s. record s { total_assets = update s.total_assets asset total })
    push_ingress r (ingress_deposit id user asset converted)
    modify (deposit_event r (deposit_successful id user asset amount))

  unfoldable pub deposit : Origin → ℕ → ℕ → Call r
  deposit origin asset amount = do
    user ← ensure_signed bad_origin origin
    id ← gets new_random_id
    do_deposit id user asset amount

  unfoldable pub withdrawal_from_orderbook : ℕ → ℕ → ℕ → ℕ → Bool → Call r
  withdrawal_from_orderbook user proxy_account asset amount do_force_withdraw = do
    operational ← gets (λ s. s.exchange_state)
    ensure operational exchange_not_operational
    tokens ← gets (λ s. s.allowlisted_token)
    ensure (contains asset tokens) token_not_allowlisted
    registered ← gets (λ s. is_some (s.accounts user))
    ensure registered account_not_registered
    ensure (leb amount withdrawal_max) amount_overflow
    converted ← get_or_raise (λ _. in_units r amount) failed_to_convert_decimal_to_balance
    push_ingress r (ingress_direct_withdrawal proxy_account asset converted do_force_withdraw)
    modify (deposit_event r (withdraw_from_orderbook user asset amount))

  -- The transfer to another chain, where the withdrawal names one.
  unfoldable pub send_on : Withdrawal decimals → ℕ → Call r
  send_on w amount = elim w.destination [
    | none ↦ pure tt
    | some (polkadot location fee) ↦
        on_ledger (parachain_withdraw w.main_account w.asset amount location fee w.id)
  ]

  -- The body of `on_idle_withdrawal_processor`
  unfoldable pub pay_out : Withdrawal decimals → Call r
  pay_out w = do
    amount ←
        get_or_raise (λ _. to_u128 (decimal_mul w.amount (from_u128 unit_balance)))
          failed_to_convert_decimal_to_balance
    transfer_asset pallet_account w.main_account amount w.asset
    send_on w amount

  unfoldable pub on_idle_withdrawal_processor : Withdrawal decimals → Call r
  on_idle_withdrawal_processor w = transactional (pay_out w)

  -- `pop`: the last entry and those before it.
  unfoldable pub pop {ℓ} : {A : Type ℓ} → List A → Option (A × List A)
  pop [] = none
  pop (x ∷ xs) = elim (pop xs) [ none ↦ some (x, []) | some (y, ys) ↦ some (y, x ∷ ys) ]

  -- The round of the loop of `do_withdraw` for one entry.
  unfoldable pub try_withdrawal :
      ℕ
      → Withdrawal decimals
      → List (Withdrawal decimals) × List (Withdrawal decimals)
      → State decimals Ledger
      → (List (Withdrawal decimals) × List (Withdrawal decimals)) × State decimals Ledger
  try_withdrawal snapshot_id w (failed, processed) s =
      let (outcome, s') = on_idle_withdrawal_processor w s in
      elim outcome [
        | ok _ ↦ ((failed, processed ++ w ∷ []), s')
        | err e ↦
            ((failed ++ w ∷ [], processed), deposit_event r (withdrawal_ready snapshot_id w) s')
      ]

  -- The loop of `do_withdraw`, on fuel for the rounds.
  unfoldable pub withdraw_loop :
      ℕ
      → ℕ
      → List (Withdrawal decimals)
      → List (Withdrawal decimals) × List (Withdrawal decimals)
      → State decimals Ledger
      → Option ((List (Withdrawal decimals) × List (Withdrawal decimals)) × State decimals Ledger)
  withdraw_loop zero snapshot_id ws lists s = if is_empty ws then some (lists, s) else none
  withdraw_loop (suc fuel) snapshot_id ws lists s = elim (pop ws) [
    | none ↦ some (lists, s)
    | some (w, rest) ↦
        let (lists', s') = try_withdrawal snapshot_id w lists s in
        withdraw_loop fuel snapshot_id rest lists' s'
  ]

  -- The whole loop of `do_withdraw`: the entries are popped, so the last one goes first.
  unfoldable pub do_withdraw :
      ℕ
      → List (Withdrawal decimals)
      → State decimals Ledger
      → (List (Withdrawal decimals) × List (Withdrawal decimals)) × State decimals Ledger
  do_withdraw snapshot_id [] s = (([], []), s)
  do_withdraw snapshot_id (w ∷ ws) s =
      let (lists, s') = do_withdraw snapshot_id ws s in try_withdrawal snapshot_id w lists s'

  -- The entry of an account after its claim: only withdrawals that failed are put back.
  unfoldable pub put_back :
      ℕ
      → List (Withdrawal decimals)
      → BTreeMap (List (Withdrawal decimals))
      → BTreeMap (List (Withdrawal decimals))
  put_back account failed m =
      if is_empty failed
      then map_remove account m
      else map_insert account failed (map_remove account m)

  -- `if !processed.is_empty() { deposit_event(WithdrawalClaimed { .. }) }`
  unfoldable pub announce :
      ℕ → ℕ → List (Withdrawal decimals) → State decimals Ledger → State decimals Ledger
  announce snapshot_id account processed s =
      if is_empty processed
      then s
      else deposit_event r (withdrawal_claimed snapshot_id account processed) s

  -- `if Withdrawals::get(snapshot_id).is_empty() { Withdrawals::remove(snapshot_id) }`, after the map
  -- is written.
  unfoldable pub store_withdrawals :
      ℕ → BTreeMap (List (Withdrawal decimals)) → State decimals Ledger → State decimals Ledger
  store_withdrawals snapshot_id m s = record s {
    withdrawals = update s.withdrawals snapshot_id (if is_empty m then none else some m);
  }

  unfoldable pub claim_withdraw : Origin → ℕ → ℕ → Call r
  claim_withdraw origin snapshot_id account = do
    ensure_signed bad_origin origin
    m ← get_or_raise (λ s. s.withdrawals snapshot_id) invalid_withdrawal_index
    ws ← get_or_raise (λ _. map_get account m) invalid_withdrawal_index
    (failed, processed) ← λ s. let (lists, s') = do_withdraw snapshot_id ws s in (ok lists, s')
    modify (announce snapshot_id account processed)
    modify (store_withdrawals snapshot_id (put_back account failed m))

  -- The round of the loop of `create_withdrawal_tree` for one withdrawal.
  unfoldable pub add_to_tree :
      Withdrawal decimals
      → BTreeMap (List (Withdrawal decimals))
      → BTreeMap (List (Withdrawal decimals))
  add_to_tree w m = elim (map_get w.main_account m) [
    | some pending ↦ map_insert w.main_account (pending ++ w ∷ []) m
    | none ↦ map_insert w.main_account (w ∷ []) m
  ]

  unfoldable pub tree_loop :
      List (Withdrawal decimals)
      → BTreeMap (List (Withdrawal decimals))
      → BTreeMap (List (Withdrawal decimals))
  tree_loop [] m = m
  tree_loop (w ∷ ws) m = tree_loop ws (add_to_tree w m)

  unfoldable pub create_withdrawal_tree :
      List (Withdrawal decimals) → BTreeMap (List (Withdrawal decimals))
  create_withdrawal_tree pending = tree_loop pending []

-- `SnapshotSummary::get_fees` of primitives/orderbook/src/lib.rs
unfoldable pub get_fees : (r : Runtime) → SnapshotSummary r.decimals → List (Fees r.decimals)
get_fees r summary = map (λ w. record { asset = w.asset; amount = w.fees }) summary.withdrawals
