-- ===== src/Ocex/Dispatch.antt =====
-- The calls of pallets/ocex/src/lib.rs in any order, each one undone where it fails.
use polkadex_node.Prelude.{ℕ, Bool, List, [], ◌∷◌}
use polkadex_node.Frame.{Origin, transactional}
use polkadex_node.Ocex.Types.{Runtime, State}
use polkadex_node.Ocex.Accounts.{
  Call, register_main_account, add_proxy_account, remove_proxy_account, set_snapshot,
  set_exchange_state, allowlist_token, remove_allowlisted_token, whitelist_orderbook_operator,
}
use polkadex_node.Ocex.Pairs.{
  close_trading_pair, open_trading_pair, register_trading_pair, update_trading_pair,
}
use polkadex_node.Ocex.Custody.{deposit, claim_withdraw}

pub data Request : Type 0 where
  registers adds_proxy removes_proxy : Origin → ℕ → Request
  closes_pair opens_pair : Origin → ℕ → ℕ → Request
  registers_pair updates_pair : Origin → ℕ → ℕ → ℕ → ℕ → ℕ → ℕ → Request
  deposits claims : Origin → ℕ → ℕ → Request
  sets_snapshot : Origin → ℕ → Request
  sets_exchange_state : Origin → Bool → Request
  allowlists removes_token whitelists : Origin → ℕ → Request

module _ (r : Runtime) where
  open r use {decimals, Ledger}

  unfoldable pub call : Request → Call r
  call (registers origin proxy) = register_main_account r origin proxy
  call (adds_proxy origin proxy) = add_proxy_account r origin proxy
  call (removes_proxy origin proxy) = remove_proxy_account r origin proxy
  call (closes_pair origin base quote) = close_trading_pair r origin base quote
  call (opens_pair origin base quote) = open_trading_pair r origin base quote
  call (registers_pair origin base quote low high tick step) =
      register_trading_pair r origin base quote low high tick step
  call (updates_pair origin base quote low high tick step) =
      update_trading_pair r origin base quote low high tick step
  call (deposits origin asset amount) = deposit r origin asset amount
  call (claims origin id account) = claim_withdraw r origin id account
  call (sets_snapshot origin id) = set_snapshot r origin id
  call (sets_exchange_state origin state) = set_exchange_state r origin state
  call (allowlists origin token) = allowlist_token r origin token
  call (removes_token origin token) = remove_allowlisted_token r origin token
  call (whitelists origin key) = whitelist_orderbook_operator r origin key

  -- The storage after a call, in the storage layer that FRAME puts around every call.
  unfoldable pub execute : Request → State decimals Ledger → State decimals Ledger
  execute q s = (transactional (call q) s).1

  unfoldable pub run : List Request → State decimals Ledger → State decimals Ledger
  run [] s = s
  run (q ∷ qs) s = run qs (execute q s)
