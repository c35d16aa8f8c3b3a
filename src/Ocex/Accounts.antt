-- ===== src/Ocex/Accounts.antt =====
-- Accounts, proxies and governance of the exchange: the calls of pallets/ocex/src/lib.rs.
use polkadex_node.Prelude.{
  ℕ, Bool, true, not, Option, none, some, List, [], ◌∷◌, ◌++◌, ltb, ◌==◌, if◌then◌else◌, update,
  length, contains, set_insert, set_remove, is_some,
}
use polkadex_node.Frame.{
  ok, err, Action, gets, modify, ensure, get_or_raise, ◌>>=◌, ◌>>◌, Origin, ensure_signed,
}
use polkadex_node.Ocex.Types.{
  Runtime, State, AccountInfo, IngressMessage, ingress_register_user, ingress_add_proxy,
  ingress_remove_proxy, ingress_set_exchange_state, Event, main_account_registered, new_proxy_added,
  proxy_removed, exchange_state_updated, token_allowlisted, allowlisted_token_removed,
  orderbook_operator_key_whitelisted, Error, bad_origin, exchange_not_operational,
  main_account_not_found, main_account_already_registered, proxy_already_registered,
  proxy_limit_exceeded, proxy_not_found, minimum_one_proxy_required, ingress_queue_full,
  allowlisted_token_limit_reached,
}

-- `AccountInfo::new` of primitives/orderbook/src/ocex.rs
unfoldable pub new_account_info : ℕ → AccountInfo
new_account_info main = record { main_account = main; proxies = [] }

-- `AccountInfo::add_proxy` of primitives/orderbook/src/ocex.rs: `try_push` onto a bounded vector.
unfoldable pub add_proxy : ℕ → ℕ → AccountInfo → Option AccountInfo
add_proxy limit proxy info =
    if ltb (length info.proxies) limit
    then some (record info { proxies = info.proxies ++ proxy ∷ [] })
    else none

-- `position`, then `remove` at that position; none where the proxy is not there.
unfoldable pub remove_first : ℕ → List ℕ → Option (List ℕ)
remove_first a [] = none
remove_first a (x ∷ xs) =
    if x == a then some xs else elim (remove_first a xs) [ none ↦ none | some ys ↦ some (x ∷ ys) ]

module _ (r : Runtime) where
  open r use {decimals, Ledger, is_governance, proxy_limit, ingress_limit, allowlisted_token_limit}

  abbrev pub Call : Type 0
  Call = Action (State decimals Ledger) Error (Unit {0})

  -- `deposit_event`
  unfoldable pub deposit_event : Event decimals → State decimals Ledger → State decimals Ledger
  deposit_event e s = record s { events = s.events ++ e ∷ [] }

  -- `GovernanceOrigin::ensure_origin`
  abbrev pub ensure_governance : Origin → Call
  ensure_governance origin = ensure (is_governance origin) bad_origin

  -- `IngressMessages::try_mutate(current_block_number(), try_push)`
  unfoldable pub push_ingress : IngressMessage decimals → Call
  push_ingress message s =
      let queue = s.ingress_messages s.block_number in
      if ltb (length queue) ingress_limit
      then (
        ok tt,
        record s {
          ingress_messages = update s.ingress_messages s.block_number (queue ++ message ∷ []);
        },
      )
      else (err ingress_queue_full, s)

  unfoldable pub register_user : ℕ → ℕ → Call
  register_user main proxy = do
    operational ← gets (λ s. s.exchange_state)
    ensure operational exchange_not_operational
    registered ← gets (λ s. is_some (s.accounts main))
    ensure (not registered) main_account_already_registered
    taken ← gets (λ s. is_some (s.proxies proxy))
    ensure (not taken) proxy_already_registered
    info ←
        get_or_raise (λ s. add_proxy proxy_limit proxy (new_account_info main)) proxy_limit_exceeded
    modify (λ s. record s { accounts = update s.accounts main (some info) })
    push_ingress (ingress_register_user main proxy)
    modify (λ s. record s { proxies = update s.proxies proxy (some main) })
    modify (deposit_event (main_account_registered main proxy))

  unfoldable pub register_main_account : Origin → ℕ → Call
  register_main_account origin proxy = do
    main ← ensure_signed bad_origin origin
    register_user main proxy

  unfoldable pub add_proxy_account : Origin → ℕ → Call
  add_proxy_account origin proxy = do
    main ← ensure_signed bad_origin origin
    operational ← gets (λ s. s.exchange_state)
    ensure operational exchange_not_operational
    info ← get_or_raise (λ s. s.accounts main) main_account_not_found
    taken ← gets (λ s. is_some (s.proxies proxy))
    ensure (not taken) proxy_already_registered
    info' ← get_or_raise (λ _. add_proxy proxy_limit proxy info) proxy_limit_exceeded
    push_ingress (ingress_add_proxy main proxy)
    modify (λ s. record s { accounts = update s.accounts main (some info') })
    modify (λ s. record s { proxies = update s.proxies proxy (some main) })
    modify (deposit_event (new_proxy_added main proxy))

  -- `Accounts::try_mutate` writes the account back at its end, after the event.
  unfoldable pub remove_proxy_account : Origin → ℕ → Call
  remove_proxy_account origin proxy = do
    main ← ensure_signed bad_origin origin
    operational ← gets (λ s. s.exchange_state)
    ensure operational exchange_not_operational
    info ← get_or_raise (λ s. s.accounts main) main_account_not_found
    ensure (ltb 1 (length info.proxies)) minimum_one_proxy_required
    rest ← get_or_raise (λ _. remove_first proxy info.proxies) proxy_not_found
    push_ingress (ingress_remove_proxy main proxy)
    modify (λ s. record s { proxies = update s.proxies proxy none })
    modify (deposit_event (proxy_removed main proxy))
    modify (λ s. record s {
      accounts = update s.accounts main (some (record info { proxies = rest }));
    })

  unfoldable pub set_snapshot : Origin → ℕ → Call
  set_snapshot origin new_snapshot_id = do
    ensure_governance origin
    modify (λ s. record s { snapshot_nonce = new_snapshot_id })

  unfoldable pub set_exchange_state : Origin → Bool → Call
  set_exchange_state origin state = do
    ensure_governance origin
    modify (λ s. record s { exchange_state = state })
    push_ingress (ingress_set_exchange_state state)
    modify (deposit_event (exchange_state_updated state))

  -- `BoundedBTreeSet::try_insert`: a token that is there already needs no room.
  unfoldable pub allowlist_token : Origin → ℕ → Call
  allowlist_token origin token = do
    ensure_governance origin
    tokens ← gets (λ s. s.allowlisted_token)
    ensure (if contains token tokens then true else ltb (length tokens) allowlisted_token_limit)
        allowlisted_token_limit_reached
    modify (λ s. record s { allowlisted_token = set_insert token tokens })
    modify (deposit_event (token_allowlisted token))

  unfoldable pub remove_allowlisted_token : Origin → ℕ → Call
  remove_allowlisted_token origin token = do
    ensure_governance origin
    modify (λ s. record s { allowlisted_token = set_remove token s.allowlisted_token })
    modify (deposit_event (allowlisted_token_removed token))

  unfoldable pub whitelist_orderbook_operator : Origin → ℕ → Call
  whitelist_orderbook_operator origin operator_public_key = do
    ensure_governance origin
    modify (λ s. record s { operator_public_key = some operator_public_key })
    modify (deposit_event (orderbook_operator_key_whitelisted operator_public_key))
