-- ===== src/Thea/Networks.antt =====
-- The governance calls of pallets/thea/src/lib.rs on nonces, networks and relayers.
use polkadex_node.Prelude.{ℕ, Bool, some, leb, update, set_insert, set_remove}
use polkadex_node.Frame.{gets, modify, ensure, transactional, ◌>>=◌, ◌>>◌, Origin, ensure_root}
use polkadex_node.Thea.Types.{
  Runtime, new_network_config, bad_origin, outgoing_nonce_below_finalized, fork_period_too_short,
}
use polkadex_node.Thea.Outgoing.{Call}

module _ (r : Runtime) where
  unfoldable pub update_incoming_nonce : Origin → ℕ → ℕ → Call r
  update_incoming_nonce origin nonce network = transactional (do
    ensure_root bad_origin origin
    modify (λ s. record s { incoming_nonce = update s.incoming_nonce network nonce }))

  unfoldable pub update_outgoing_nonce : Origin → ℕ → ℕ → Call r
  update_outgoing_nonce origin nonce network = transactional (do
    ensure_root bad_origin origin
    current ← gets (λ s. s.outgoing_nonce network)
    ensure (leb current nonce) outgoing_nonce_below_finalized
    modify (λ s. record s { outgoing_nonce = update s.outgoing_nonce network nonce }))

  unfoldable pub add_thea_network : Origin → ℕ → Bool → ℕ → ℕ → ℕ → Call r
  add_thea_network origin network is_evm fork_period min_stake fisherman_stake = do
    ensure_root bad_origin origin
    ensure (leb 2 fork_period) fork_period_too_short
    modify (λ s. record s {
      network_config =
          update s.network_config network
            (new_network_config fork_period min_stake fisherman_stake is_evm);
    })
    modify (λ s. record s { active_networks = set_insert network s.active_networks })

  unfoldable pub remove_thea_network : Origin → ℕ → Call r
  remove_thea_network origin network = do
    ensure_root bad_origin origin
    modify (λ s. record s { active_networks = set_remove network s.active_networks })

  unfoldable pub add_relayer_origin_for_network : Origin → ℕ → ℕ → Call r
  add_relayer_origin_for_network origin network relayer = do
    ensure_root bad_origin origin
    modify (λ s. record s {
      allow_list_testing_relayers = update s.allow_list_testing_relayers network (some relayer);
    })
