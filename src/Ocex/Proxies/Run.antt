-- ===== src/Ocex/Proxies/Run.antt =====
-- The accounts and the proxies agree after every sequence of calls of pallets/ocex/src/lib.rs.
use polkadex_node.Prelude.{
  ℕ, ◌≡◌, sym, ap, subst, inl, inr, true, Option, none, some, List, [], ◌∷◌, ◌++◌, arith,
  Bool-cases, update, is_some, contains, Distinct,
}
use polkadex_node.Frame.{ok, root, signed, unsigned, transactional-cases}
use polkadex_node.Ocex.Types.{Runtime, State, AccountInfo}
use polkadex_node.Ocex.Accounts.{
  deposit_event, push_ingress, register_user, register_main_account, add_proxy_account,
  remove_proxy_account, set_snapshot, set_exchange_state, allowlist_token, remove_allowlisted_token,
  whitelist_orderbook_operator,
}
use polkadex_node.Ocex.Pairs.{
  close_trading_pair, open_trading_pair, register_trading_pair, update_trading_pair,
}
use polkadex_node.Ocex.Custody.{ensure_registered, deposit, claim_withdraw}
use polkadex_node.Ocex.Proxies.{AreLinked}
use polkadex_node.Ocex.Proxies.Links.{join-AreLinked, leave-AreLinked}
use polkadex_node.Ocex.Dispatch.{
  Request, registers, adds_proxy, removes_proxy, closes_pair, opens_pair, registers_pair,
  updates_pair, deposits, claims, sets_snapshot, sets_exchange_state, allowlists, removes_token,
  whitelists, call, execute, run,
}
use polkadex_node.Ocex.Proxies.Writes.{
  SameLinks, Joined, close-SameLinks, open-SameLinks, register_pair-SameLinks,
  update_pair-SameLinks, claim-SameLinks, register_writes, add_writes, remove_writes,
  deposit_writes,
}

module _ (r : Runtime) where
  open r use {decimals, Ledger, proxy_limit}

  -- The accounts and the proxies of the storage agree.
  abbrev pub IsLinked : State decimals Ledger → Type 0
  IsLinked s = AreLinked proxy_limit s.accounts s.proxies

  moved-IsLinked :
      (accounts : ℕ → Option AccountInfo) (proxies : ℕ → Option ℕ) (s' : State decimals Ledger)
      → s'.accounts ≡ accounts
      → s'.proxies ≡ proxies
      → AreLinked proxy_limit accounts proxies
      → IsLinked s'
  moved-IsLinked accounts proxies s' e f h =
      subst (λ a. AreLinked proxy_limit a s'.proxies) (sym e)
        (subst (λ p. AreLinked proxy_limit accounts p) (sym f) h)

  same-IsLinked : (s s' : State decimals Ledger) → SameLinks r s s' → IsLinked s → IsLinked s'
  same-IsLinked s s' (e, f) h = moved-IsLinked s.accounts s.proxies s' e f h

  join-IsLinked :
      (main proxy : ℕ) (old : List ℕ) (s s' : State decimals Ledger)
      → IsLinked s
      → ((info : AccountInfo) → s.accounts main ≡ some info → info.proxies ≡ old)
      → Distinct old
      → ((q : ℕ) → contains q old ≡ true → s.proxies q ≡ some main)
      → Joined r main proxy old s s'
      → IsLinked s'
  join-IsLinked main proxy old s s' h known once owns (free, room, a, p) =
      moved-IsLinked
        (update s.accounts main
          (some (record { main_account = main; proxies = old ++ proxy ∷ [] })))
        (update s.proxies proxy (some main)) s' a p
        (join-AreLinked proxy_limit s.accounts s.proxies h main proxy old known once owns free room)

  register-IsLinked :
      (main proxy : ℕ) (s : State decimals Ledger)
      → IsLinked s
      → (register_user r main proxy s).0 ≡ ok tt
      → IsLinked (register_user r main proxy s).1
  register-IsLinked main proxy s h success =
      let (new, joined) = register_writes r main proxy s success in
      join-IsLinked main proxy [] s (register_user r main proxy s).1 h
        (λ info found. absurd (ground (arith, new, found))) tt
        (λ q there. absurd (ground (arith, there))) joined

  add-IsLinked :
      (main proxy : ℕ) (s : State decimals Ledger)
      → IsLinked s
      → (add_proxy_account r (signed main) proxy s).0 ≡ ok tt
      → IsLinked (add_proxy_account r (signed main) proxy s).1
  add-IsLinked main proxy s h success =
      let (info, found, joined) = add_writes r main proxy s success in
      let (named, _, _, once, owns) = h.1 main info found in
      join-IsLinked main proxy info.proxies s (add_proxy_account r (signed main) proxy s).1 h
        (λ info' found'. ground (arith, found, found')) once owns (joined named)

  remove-IsLinked :
      (main proxy : ℕ) (s : State decimals Ledger)
      → IsLinked s
      → (remove_proxy_account r (signed main) proxy s).0 ≡ ok tt
      → IsLinked (remove_proxy_account r (signed main) proxy s).1
  remove-IsLinked main proxy s h success =
      let (info, rest, found, two, left, a, p) = remove_writes r main proxy s success in
      moved-IsLinked (update s.accounts main (some (record info { proxies = rest })))
        (update s.proxies proxy none) (remove_proxy_account r (signed main) proxy s).1 a p
        (leave-AreLinked proxy_limit s.accounts s.proxies h main proxy info rest found two left)

  deposit-IsLinked :
      (user asset amount : ℕ) (s : State decimals Ledger)
      → IsLinked s
      → (deposit r (signed user) asset amount s).0 ≡ ok tt
      → IsLinked (deposit r (signed user) asset amount s).1
  unfolding ensure_registered
  deposit-IsLinked user asset amount s h success =
      let (registered, (a, p)) = deposit_writes r user asset amount s success in
      elim (Bool-cases (is_some (s.accounts user))) [
        | inl there ↦
            moved-IsLinked s.accounts s.proxies (deposit r (signed user) asset amount s).1
              (ground (arith, a, there)) (ground (arith, p, there)) h
        | inr new ↦
            let s₁ = (register_user r user user s).1 in
            moved-IsLinked s₁.accounts s₁.proxies (deposit r (signed user) asset amount s).1
              (ground (arith, a, new)) (ground (arith, p, new))
              (register-IsLinked user user s h (ground (arith, registered, new)))
      ]

  call-IsLinked :
      (q : Request) (s : State decimals Ledger)
      → IsLinked s
      → (call r q s).0 ≡ ok tt
      → IsLinked (call r q s).1
  unfolding call register_main_account add_proxy_account remove_proxy_account deposit set_snapshot
      set_exchange_state push_ingress deposit_event allowlist_token remove_allowlisted_token
      whitelist_orderbook_operator
  call-IsLinked (registers (signed main) proxy) s h success =
      register-IsLinked main proxy s h success
  call-IsLinked (registers root proxy) s h success = absurd (ground (arith, success))
  call-IsLinked (registers unsigned proxy) s h success = absurd (ground (arith, success))
  call-IsLinked (adds_proxy (signed main) proxy) s h success = add-IsLinked main proxy s h success
  call-IsLinked (adds_proxy root proxy) s h success = absurd (ground (arith, success))
  call-IsLinked (adds_proxy unsigned proxy) s h success = absurd (ground (arith, success))
  call-IsLinked (removes_proxy (signed main) proxy) s h success =
      remove-IsLinked main proxy s h success
  call-IsLinked (removes_proxy root proxy) s h success = absurd (ground (arith, success))
  call-IsLinked (removes_proxy unsigned proxy) s h success = absurd (ground (arith, success))
  call-IsLinked (deposits (signed user) asset amount) s h success =
      deposit-IsLinked user asset amount s h success
  call-IsLinked (deposits root asset amount) s h success = absurd (ground (arith, success))
  call-IsLinked (deposits unsigned asset amount) s h success = absurd (ground (arith, success))
  call-IsLinked (closes_pair origin base quote) s h success =
      same-IsLinked s (close_trading_pair r origin base quote s).1
        (close-SameLinks r origin base quote s) h
  call-IsLinked (opens_pair origin base quote) s h success =
      same-IsLinked s (open_trading_pair r origin base quote s).1
        (open-SameLinks r origin base quote s) h
  call-IsLinked (registers_pair origin base quote low high tick step) s h success =
      same-IsLinked s (register_trading_pair r origin base quote low high tick step s).1
        (register_pair-SameLinks r origin base quote low high tick step s) h
  call-IsLinked (updates_pair origin base quote low high tick step) s h success =
      same-IsLinked s (update_trading_pair r origin base quote low high tick step s).1
        (update_pair-SameLinks r origin base quote low high tick step s) h
  call-IsLinked (claims origin id account) s h success =
      same-IsLinked s (claim_withdraw r origin id account s).1
        (claim-SameLinks r origin id account s) h
  call-IsLinked (sets_snapshot origin id) s h success =
      same-IsLinked s (set_snapshot r origin id s).1 (ground arith, ground arith) h
  call-IsLinked (sets_exchange_state origin state) s h success =
      same-IsLinked s (set_exchange_state r origin state s).1 (ground arith, ground arith) h
  call-IsLinked (allowlists origin token) s h success =
      same-IsLinked s (allowlist_token r origin token s).1 (ground arith, ground arith) h
  call-IsLinked (removes_token origin token) s h success =
      same-IsLinked s (remove_allowlisted_token r origin token s).1 (ground arith, ground arith) h
  call-IsLinked (whitelists origin key) s h success =
      same-IsLinked s (whitelist_orderbook_operator r origin key s).1 (ground arith, ground arith) h

  execute-IsLinked :
      (q : Request) (s : State decimals Ledger) → IsLinked s → IsLinked (execute r q s)
  unfolding execute
  execute-IsLinked q s h = elim (transactional-cases (call r q) s) [
    | inl (_, s', called, done) ↦
        let kept = call-IsLinked q s h (ap (λ out. out.0) called) in
        moved-IsLinked (call r q s).1.accounts (call r q s).1.proxies (execute r q s)
          (ground (arith, called, done)) (ground (arith, called, done)) kept
    | inr (e, _, failed) ↦
        moved-IsLinked s.accounts s.proxies (execute r q s) (ground (arith, failed))
          (ground (arith, failed)) h
  ]

  -- Whatever calls come in whatever order, from accounts and proxies that agree, the two maps agree
  -- again: every proxy belongs to exactly one registered account, which lists it, and every account
  -- keeps from one proxy up to the limit of them, all its own.
  pub run-IsLinked :
      (qs : List Request) (s : State decimals Ledger) → IsLinked s → IsLinked (run r qs s)
  unfolding run
  run-IsLinked [] s h = h
  run-IsLinked (q ∷ qs) s h = run-IsLinked qs (execute r q s) (execute-IsLinked q s h)
