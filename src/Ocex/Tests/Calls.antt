-- ===== src/Ocex/Tests/Calls.antt =====
-- Each theorem of the OCEX pallet's calls at a concrete input.
use polkadex_node.Prelude.{
  ℕ, ◌+◌, ◌*◌, ◌^◌, ◌≤◌, ◌<◌, ◌≡◌, ◌↔◌, refl, true, none, some, List, [], ◌∷◌, arith, ◌==◌,
  if◌then◌else◌, length, Distinct, map, map_get, set_insert, BTreeMap, u64_mod, saturating_add,
}
use polkadex_node.Frame.{ok, signed, root}
use polkadex_node.Ocex.Types.{State, SnapshotSummary, Withdrawal, TradingPairConfig}
use polkadex_node.Ocex.Accounts.{push_ingress, deposit_event}
use polkadex_node.Ocex.Pairs.{
  in_units, units_of, store_pair, validate_trading_pair_config, register_trading_pair,
  update_trading_pair, close_trading_pair, set_operational,
}
use polkadex_node.Ocex.Pairs.Precision.{update_swaps_precisions}
use polkadex_node.Ocex.Custody.{withdraw_loop, do_withdraw, create_withdrawal_tree}
use polkadex_node.Ocex.Custody.Loop.{count, withdraw_loop-do_withdraw, do_withdraw_loses_none}
use polkadex_node.Ocex.Custody.Funds.{native_total, do_withdraw_pays_processed}
use polkadex_node.Ocex.Custody.Tree.{map_get-create_withdrawal_tree}
use polkadex_node.Ocex.Dispatch.{registers, adds_proxy, removes_proxy, deposits, run}
use polkadex_node.Ocex.Proxies.Run.{IsLinked, run-IsLinked}
use polkadex_node.Ocex.Snapshot.{check_signatures, required_signatures, validate_snapshot}
use polkadex_node.Ocex.Snapshot.Quorum.{
  AreSigned, active, accepted_snapshot_has_quorum, validate_snapshot_iff, IsNext,
}
use polkadex_node.Ocex.Sample.{
  sample_decimals, sample_runtime, sample_state, sample_percent, sample_custody, Holdings,
}

abbrev one_summary : SnapshotSummary sample_decimals
one_summary = record {
  validator_set_id = 3;
  snapshot_id = 7;
  state_hash = 77;
  state_change_id = 12;
  last_processed_blk = 30;
  withdrawals = [];
  egress_messages = [];
  trader_metrics = none;
}

abbrev two_signatures : List (ℕ × ℕ)
two_signatures = (0, 1021) ∷ (2, 1023) ∷ []

accepted_snapshot_has_quorum_example :
    (3 ≡ sample_state.validator_set_id)
    × (7 ≡ saturating_add u64_mod sample_state.snapshot_nonce 1)
    × AreSigned sample_runtime
        (active sample_runtime sample_state)
        (sample_runtime.encode_summary one_summary)
        two_signatures
    × Distinct (map (λ e. e.0) two_signatures)
    × (length (active sample_runtime sample_state) ≤ 2 * length two_signatures)
    × (0 < length two_signatures)
unfolding validate_snapshot check_signatures required_signatures set_insert
accepted_snapshot_has_quorum_example =
    accepted_snapshot_has_quorum sample_runtime sample_percent one_summary two_signatures
      sample_state (record { provides = 77; longevity = 10; propagate = true }) refl

validate_snapshot_iff_example :
    (validate_snapshot sample_runtime one_summary two_signatures sample_state
      ≡ ok (record { provides = 77; longevity = 10; propagate = true }))
    ↔ (IsNext sample_runtime one_summary sample_state
        × (0 < length (active sample_runtime sample_state))
        × (required_signatures sample_runtime (active sample_runtime sample_state)
            ≤ length two_signatures)
        × AreSigned sample_runtime
            (active sample_runtime sample_state)
            (sample_runtime.encode_summary one_summary)
            two_signatures
        × Distinct (map (λ e. e.0) two_signatures))
validate_snapshot_iff_example =
    validate_snapshot_iff sample_runtime one_summary two_signatures sample_state

-- Withdrawals of the native currency: one that the pallet can pay and one that it cannot.
abbrev withdrawal_of : ℕ → ℕ → Withdrawal sample_decimals
withdrawal_of account amount = record {
  id = 1;
  main_account = account;
  amount = amount * 10 ^ 6;
  asset = 0;
  fees = 0;
  stid = 2;
  destination = none;
}

abbrev two_withdrawals : List (Withdrawal sample_decimals)
two_withdrawals = withdrawal_of 1 300 ∷ withdrawal_of 2 20 ∷ []

withdraw_loop-do_withdraw_example :
    withdraw_loop sample_runtime 2 6 two_withdrawals ([], []) sample_state
    ≡ some (do_withdraw sample_runtime 6 two_withdrawals sample_state)
withdraw_loop-do_withdraw_example =
    withdraw_loop-do_withdraw sample_runtime 2 6 two_withdrawals sample_state (omega arith)

do_withdraw_loses_none_example :
    let out = do_withdraw sample_runtime 6 two_withdrawals sample_state in
    count (λ w. w.main_account == 1) out.0.0 + count (λ w. w.main_account == 1) out.0.1 ≡ 1
do_withdraw_loses_none_example =
    do_withdraw_loses_none sample_runtime (λ w. w.main_account == 1) 6 two_withdrawals sample_state

do_withdraw_pays_processed_example :
    let out = do_withdraw sample_runtime 6 two_withdrawals sample_state in
    out.1.ledger 0 99 + native_total sample_runtime out.0.1 ≡ 50
do_withdraw_pays_processed_example =
    do_withdraw_pays_processed sample_runtime sample_custody 6 two_withdrawals sample_state
      (omega arith, (omega arith, tt))

map_get-create_withdrawal_tree_example :
    map_get 2 (create_withdrawal_tree sample_runtime two_withdrawals)
    ≡ some (withdrawal_of 2 20 ∷ [])
map_get-create_withdrawal_tree_example =
    map_get-create_withdrawal_tree sample_runtime two_withdrawals 2

abbrev stored_withdrawals : BTreeMap (List (Withdrawal sample_decimals))
stored_withdrawals = (1, withdrawal_of 1 300 ∷ []) ∷ (2, withdrawal_of 2 20 ∷ []) ∷ []

abbrev claim_state : State sample_decimals Holdings
claim_state = record sample_state {
  withdrawals = λ id. if id == 6 then some stored_withdrawals else none;
}

run-IsLinked_example : IsLinked sample_runtime (
    run sample_runtime
      (registers (signed 1) 11
        ∷ adds_proxy (signed 1) 12
        ∷ removes_proxy (signed 1) 11
        ∷ deposits (signed 4) 0 25
        ∷ [])
      sample_state)
run-IsLinked_example =
    run-IsLinked sample_runtime
      (registers (signed 1) 11
        ∷ adds_proxy (signed 1) 12
        ∷ removes_proxy (signed 1) 11
        ∷ deposits (signed 4) 0 25
        ∷ [])
      sample_state
      (λ proxy main h. absurd (ground (arith, h)), λ main info h. absurd (ground (arith, h)))

abbrev unit : ℕ
unit = 10 ^ 12

abbrev closed_state : State sample_decimals Holdings
closed_state =
    (close_trading_pair sample_runtime root 0 5
      (register_trading_pair sample_runtime root 0 5 unit (9 * unit) unit 1000 sample_state).1).1

update_swaps_precisions_example :
    (p q : TradingPairConfig sample_decimals) × ((register_trading_pair sample_runtime root 0 5 unit
          (9 * unit)
          unit
          1000
          sample_state).1.trading_pairs
        0 5
      ≡ some p)
    × ((update_trading_pair sample_runtime root 0 5 unit
            (9 * unit)
            unit
            1000
            closed_state).1.trading_pairs
          0 5
        ≡ some q)
    × (p.base_asset_precision ≡ sample_decimals.scale p.qty_step_size)
    × (p.quote_asset_precision ≡ sample_decimals.scale p.price_tick_size)
    × (q ≡ record p {
      base_asset_precision = p.quote_asset_precision;
      quote_asset_precision = p.base_asset_precision;
    })
unfolding register_trading_pair update_trading_pair close_trading_pair set_operational store_pair
    units_of in_units validate_trading_pair_config push_ingress deposit_event
update_swaps_precisions_example =
    update_swaps_precisions sample_runtime root root 0 5 unit (9 * unit) unit 1000 sample_state
      closed_state (λ x. ground arith) refl refl
