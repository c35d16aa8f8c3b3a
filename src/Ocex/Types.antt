-- ===== src/Ocex/Types.antt =====
-- The data of the orderbook: primitives/orderbook/src, primitives/polkadex/src/withdrawal.rs, and the
-- storage, events and errors of pallets/ocex/src/lib.rs that the modelled calls use. Accounts, keys,
-- hashes and locations are numbers. An asset is a number too: 0 is `AssetId::Polkadex`, `suc id` is
-- `AssetId::Asset(id)`.
use polkadex_node.Prelude.{ℕ, Bool, Option, List, BTreeMap}
use polkadex_node.Frame.{Origin, Result}
use polkadex_node.Ocex.Decimal.{Decimals}

-- `UNIT_BALANCE` of primitives/polkadex/src/lib.rs
abbrev pub unit_balance : ℕ
unit_balance = 1_000_000_000_000

abbrev pub deposit_max : ℕ
deposit_max = 1_000_000_000_000_000_000_000_000_000

abbrev pub withdrawal_max : ℕ
withdrawal_max = 1_000_000_000_000_000_000_000_000_000

abbrev pub trade_operation_min_value : ℕ
trade_operation_min_value = 10000

pub data WithdrawalDestination : Type 0 where
  polkadot : ℕ → Option (ℕ × ℕ) → WithdrawalDestination

-- `ValidatorSet` of primitives/orderbook/src/lib.rs
pub record ValidatorSet : Type 0 where
  pub set_id : ℕ
  pub validators : List ℕ

-- The balances, which the pallet leaves empty, and the fee configuration, which it leaves at the
-- default, are left out.
pub record AccountInfo : Type 0 where
  pub main_account : ℕ
  pub proxies : List ℕ

module _ (d : Decimals) where
  open d use {Decimal}

  pub record Withdrawal : Type 0 where
    pub id : ℕ
    pub main_account : ℕ
    pub amount : Decimal
    pub asset : ℕ
    pub fees : Decimal
    pub stid : ℕ
    pub destination : Option WithdrawalDestination

  pub record Fees : Type 0 where
    pub asset : ℕ
    pub amount : Decimal

  pub record TradingPairConfig : Type 0 where
    pub base_asset : ℕ
    pub quote_asset : ℕ
    pub price_tick_size : Decimal
    pub min_volume : Decimal
    pub max_volume : Decimal
    pub qty_step_size : Decimal
    pub operational_status : Bool
    pub base_asset_precision : ℕ
    pub quote_asset_precision : ℕ

  -- The ingress messages that the modelled calls push.
  pub data IngressMessage : Type 0 where
    ingress_open_trading_pair ingress_update_trading_pair : TradingPairConfig → IngressMessage
    ingress_close_trading_pair : TradingPairConfig → IngressMessage
    ingress_register_user ingress_add_proxy ingress_remove_proxy : ℕ → ℕ → IngressMessage
    ingress_deposit : ℕ → ℕ → ℕ → Decimal → IngressMessage
    ingress_set_exchange_state : Bool → IngressMessage
    ingress_direct_withdrawal : ℕ → ℕ → Decimal → Bool → IngressMessage

  pub data EgressMessage : Type 0 where
    add_liquidity_result : TradingPairConfig → ℕ → ℕ → Decimal → Decimal → Decimal → EgressMessage
    remove_liquidity_result : TradingPairConfig → ℕ → ℕ → Decimal → Decimal → EgressMessage
    remove_liquidity_failed :
        TradingPairConfig
        → ℕ
        → ℕ
        → Decimal
        → Decimal
        → Decimal
        → Decimal
        → Decimal
        → Decimal
        → EgressMessage
    pool_force_closed : TradingPairConfig → ℕ → Decimal → Decimal → EgressMessage
    trading_fees : BTreeMap Decimal → EgressMessage
    price_oracle : List ((ℕ × ℕ) × Decimal) → EgressMessage

  -- `TradingPairMetricsMap`: per pair, the score and fees of each trader, and their totals.
  abbrev pub TradingPairMetricsMap : Type 0
  TradingPairMetricsMap = List ((ℕ × ℕ) × (BTreeMap (Decimal × Decimal) × (Decimal × Decimal)))

  pub record SnapshotSummary : Type 0 where
    pub validator_set_id : ℕ
    pub snapshot_id : ℕ
    pub state_hash : ℕ
    pub state_change_id : ℕ
    pub last_processed_blk : ℕ
    pub withdrawals : List Withdrawal
    pub egress_messages : List EgressMessage
    pub trader_metrics : Option TradingPairMetricsMap

  pub data Event : Type 0 where
    main_account_registered new_proxy_added proxy_removed : ℕ → ℕ → Event
    trading_pair_registered trading_pair_updated : ℕ → ℕ → Event
    shutdown_trading_pair opened_trading_pair : TradingPairConfig → Event
    deposit_successful : ℕ → ℕ → ℕ → ℕ → Event
    withdrawal_claimed : ℕ → ℕ → List Withdrawal → Event
    withdrawal_ready : ℕ → Withdrawal → Event
    withdraw_from_orderbook : ℕ → ℕ → ℕ → Event
    exchange_state_updated : Bool → Event
    token_allowlisted allowlisted_token_removed : ℕ → Event
    orderbook_operator_key_whitelisted : ℕ → Event
    snapshot_processed user_actions_batch_submitted : ℕ → Event
    fees_claims : ℕ → ℕ → Event
    enclave_registered enclave_allowlisted : ℕ → Event
    enclave_cleanup : List ℕ → Event
    trading_pair_event_is_not_operational failed_to_consume_auction failed_to_create_auction : Event
    dispute_period_updated lmp_scores_updated : ℕ → Event
    trading_fees_burned : ℕ → ℕ → Event
    auction_closed : ℕ → ℕ → ℕ → Event
    lmp_reward_claimed : ℕ → ℕ × ℕ → ℕ → ℕ → Event

  pub record State (Ledger : Type 0) : Type 0 where
    pub allowlisted_token : List ℕ
    pub accounts : ℕ → Option AccountInfo
    pub proxies : ℕ → Option ℕ
    pub trading_pairs : ℕ → ℕ → Option TradingPairConfig
    pub snapshot_nonce : ℕ
    pub exchange_state : Bool
    pub withdrawals : ℕ → Option (BTreeMap (List Withdrawal))
    pub ingress_messages : ℕ → List IngressMessage
    pub total_assets : ℕ → Decimal
    pub authorities : ℕ → ValidatorSet
    pub validator_set_id : ℕ
    pub operator_public_key : Option ℕ
    pub block_number : ℕ
    pub ledger : Ledger
    pub events : List Event

pub data Error : Type 0 where
  -- an error of another pallet or of the origin
  bad_origin : Error
  dispatch : ℕ → Error
  failed_to_convert_decimal_to_balance registeration_should_be_signed_by_main_account : Error
  sender_not_authorized_to_withdraw account_not_registered invalid_withdrawal_index : Error
  invalid_withdrawal_amount trading_pair_is_not_operational trading_pair_is_not_closed : Error
  main_account_already_registered snapshot_nonce_error proxy_already_registered : Error
  enclave_signature_verification_failed main_account_not_found proxy_limit_exceeded : Error
  trading_pair_already_registered both_assets_cannot_be_same trading_pair_not_found : Error
  amount_overflow proxy_not_found minimum_one_proxy_required : Error
  onchain_events_bounded_vec_overflow deposit_overflow trading_pair_not_registered : Error
  trading_pair_config_cannot_be_zero allowlisted_token_limit_reached : Error
  token_not_allowlisted allowlisted_token_removed trading_pair_config_underflow : Error
  exchange_not_operational unable_to_transfer_fee fees_not_collected_fully : Error
  exchange_operational withdrawal_bound_overflow invalid_signature_aggregation : Error
  signer_index_not_found invalid_snapshot_state account_id_cannot_be_decoded : Error
  withdraw_still_in_disputation_period withdraw_belongs_to_disputed_snapshot : Error
  snapshot_dispute_close_block_storage_query_error : Error
  cannot_find_close_block_for_snapshot dispute_interval_not_set worker_not_idle : Error
  invalid_market_weightage lmp_config_not_found rewards_not_ready invalid_lmp_config : Error
  reward_already_claimed base_not_allowlisted quote_not_allowlisted : Error
  min_vol_greater_than_max_volume fee_distribution_config_not_found auction_not_found : Error
  invalid_bid_amount insufficient_balance withdrawal_fee_burn_failed : Error
  trading_fees_burn_failed ingress_queue_full deposit_amount_too_low : Error
  too_many_egress_messages invalid_egress_pool_id : Error

-- What the pallet takes from its configuration and from third-party code.
pub record Runtime : Type 1 where
  pub decimals : Decimals
  pub Ledger : Type 0
  -- `NativeCurrency::transfer(payer, payee, amount, KeepAlive)`
  pub native_transfer : ℕ → ℕ → ℕ → Ledger → Result ℕ Ledger
  -- `OtherAssets::transfer(id, payer, payee, amount, Expendable)`
  pub asset_transfer : ℕ → ℕ → ℕ → ℕ → Ledger → Result ℕ Ledger
  -- `CrossChainGadget::parachain_withdraw(user, asset, amount, beneficiary, fee, id)`
  pub parachain_withdraw : ℕ → ℕ → ℕ → ℕ → Option (ℕ × ℕ) → ℕ → Ledger → Result ℕ Ledger
  pub pallet_account : ℕ
  -- `GovernanceOrigin::ensure_origin`
  pub is_governance : Origin → Bool
  pub minimum_deposit : ℕ
  pub proxy_limit : ℕ
  pub ingress_limit : ℕ
  pub allowlisted_token_limit : ℕ
  pub withdrawal_limit : ℕ
  -- `Percent::from_percent(part) * whole`
  pub percent_of : ℕ → ℕ → ℕ
  pub encode_summary : SnapshotSummary decimals → List ℕ
  -- `auth.verify(payload, signature)`
  pub verify : ℕ → List ℕ → ℕ → Bool
  -- `new_random_id(None)`, which reads the block and the extrinsic
  pub new_random_id : State decimals Ledger → ℕ
