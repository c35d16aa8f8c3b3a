-- ===== src/Ocex/Proxies/Writes.antt =====
-- What the calls of pallets/ocex/src/lib.rs write of the accounts and the proxies.
use polkadex_node.Prelude.{
  ℕ, ◌<◌, ◌≡◌, refl, inl, inr, false, Option, none, some, List, [], ◌∷◌, ◌++◌, arith, Option-cases,
  update, is_some, length, map_get,
}
use polkadex_node.Frame.{Result-cases, ok, Origin, root, signed, unsigned}
use polkadex_node.Ocex.Types.{Runtime, State, AccountInfo}
use polkadex_node.Ocex.Accounts.{
  deposit_event, push_ingress, new_account_info, add_proxy, remove_first, register_user,
  add_proxy_account, remove_proxy_account,
}
use polkadex_node.Ocex.Pairs.{
  set_operational, store_pair, close_trading_pair, open_trading_pair, register_trading_pair,
  update_trading_pair, validate_trading_pair_config, in_units,
}
use polkadex_node.Ocex.Custody.{
  ensure_registered, do_deposit, deposit, announce, store_withdrawals, claim_withdraw,
}
use polkadex_node.Ocex.Custody.Payments.{transfer_keeps_storage, do_withdraw_keeps}

module _ (r : Runtime) where
  open r use {decimals, Ledger, proxy_limit}

  abbrev pub SameLinks : State decimals Ledger → State decimals Ledger → Type 0
  SameLinks s s' = (s'.accounts ≡ s.accounts) × (s'.proxies ≡ s.proxies)

  pub close-SameLinks :
      (origin : Origin) (base quote : ℕ) (s : State decimals Ledger)
      → SameLinks s (close_trading_pair r origin base quote s).1
  unfolding close_trading_pair set_operational push_ingress deposit_event
  close-SameLinks origin base quote s = ground arith

  pub open-SameLinks :
      (origin : Origin) (base quote : ℕ) (s : State decimals Ledger)
      → SameLinks s (open_trading_pair r origin base quote s).1
  unfolding open_trading_pair set_operational push_ingress deposit_event
  open-SameLinks origin base quote s = ground arith

  pub register_pair-SameLinks :
      (origin : Origin) (base quote low high tick step : ℕ) (s : State decimals Ledger)
      → SameLinks s (register_trading_pair r origin base quote low high tick step s).1
  unfolding register_trading_pair validate_trading_pair_config store_pair push_ingress deposit_event
  register_pair-SameLinks origin base quote low high tick step s = ground arith

  pub update_pair-SameLinks :
      (origin : Origin) (base quote low high tick step : ℕ) (s : State decimals Ledger)
      → SameLinks s (update_trading_pair r origin base quote low high tick step s).1
  unfolding update_trading_pair validate_trading_pair_config store_pair push_ingress deposit_event
  update_pair-SameLinks origin base quote low high tick step s = ground arith

  not_some : {A : Type 0} (o : Option A) → is_some o ≡ false → o ≡ none
  not_some none h = refl
  not_some (some a) h = absurd (ground (arith, h))

  -- What the calls write that change the accounts.
  abbrev pub Joined : ℕ → ℕ → List ℕ → State decimals Ledger → State decimals Ledger → Type 0
  Joined main proxy old s s' =
      (s.proxies proxy ≡ none)
      × (length old < proxy_limit)
      × (s'.accounts
          ≡ update s.accounts main
              (some (record { main_account = main; proxies = old ++ proxy ∷ [] })))
      × (s'.proxies ≡ update s.proxies proxy (some main))

  pub register_writes :
      (main proxy : ℕ) (s : State decimals Ledger)
      → (register_user r main proxy s).0 ≡ ok tt
      → (s.accounts main ≡ none) × Joined main proxy [] s (register_user r main proxy s).1
  unfolding register_user deposit_event push_ingress add_proxy new_account_info
  register_writes main proxy s success =
      let free : is_some (s.accounts main) ≡ false = ground (arith, success) in
      let new : is_some (s.proxies proxy) ≡ false = ground (arith, success) in
      (
        not_some (s.accounts main) free,
        (
          not_some (s.proxies proxy) new,
          ground (arith, success),
          ground (arith, success),
          ground (arith, success),
        ),
      )

  pub add_writes :
      (main proxy : ℕ) (s : State decimals Ledger)
      → (add_proxy_account r (signed main) proxy s).0 ≡ ok tt
      → (info : AccountInfo) × (s.accounts main ≡ some info)
        × (info.main_account ≡ main
            → Joined main proxy info.proxies s (add_proxy_account r (signed main) proxy s).1)
  unfolding add_proxy_account deposit_event push_ingress add_proxy
  add_writes main proxy s success = elim (Option-cases (s.accounts main)) [
    | inl missing ↦ absurd (ground (arith, missing, success))
    | inr (info, found) ↦
        let new : is_some (s.proxies proxy) ≡ false = ground (arith, found, success) in
        (
          info,
          found,
          λ named. (
            not_some (s.proxies proxy) new,
            ground (arith, found, success),
            ground (arith, found, success, named),
            ground (arith, found, success),
          ),
        )
  ]

  pub remove_writes :
      (main proxy : ℕ) (s : State decimals Ledger)
      → (remove_proxy_account r (signed main) proxy s).0 ≡ ok tt
      → (info : AccountInfo) × (rest : List ℕ) × (s.accounts main ≡ some info)
        × (1 < length info.proxies)
        × (remove_first proxy info.proxies ≡ some rest)
        × ((remove_proxy_account r (signed main) proxy s).1.accounts
            ≡ update s.accounts main (some (record info { proxies = rest })))
        × ((remove_proxy_account r (signed main) proxy s).1.proxies ≡ update s.proxies proxy none)
  unfolding remove_proxy_account deposit_event push_ingress
  remove_writes main proxy s success = elim (Option-cases (s.accounts main)) [
    | inl missing ↦ absurd (ground (arith, missing, success))
    | inr (info, found) ↦ elim (Option-cases (remove_first proxy info.proxies)) [
      | inl missing ↦ absurd (ground (arith, found, missing, success))
      | inr (rest, left) ↦ (
        info,
        rest,
        found,
        ground (arith, found, success),
        left,
        ground (arith, found, left, success),
        ground (arith, found, left, success),
      )
    ]
  ]

  pub deposit_writes :
      (user asset amount : ℕ) (s : State decimals Ledger)
      → (deposit r (signed user) asset amount s).0 ≡ ok tt
      → ((ensure_registered r user s).0 ≡ ok tt)
        × SameLinks (ensure_registered r user s).1 (deposit r (signed user) asset amount s).1
  unfolding deposit do_deposit push_ingress deposit_event
  deposit_writes user asset amount s success =
      let s₁ = (ensure_registered r user s).1 in
      let kept = transfer_keeps_storage r user r.pallet_account amount asset s₁ in
      elim (Option-cases (in_units r amount)) [
        | inl failed ↦ absurd (ground (arith, failed, success))
        | inr (converted, units) ↦ elim (Result-cases (ensure_registered r user s).0) [
          | inr (e, failed) ↦ absurd (ground (arith, units, failed, success))
          | inl (_, registered) ↦ (
            registered,
            (
              ground (arith, units, registered, kept, success),
              ground (arith, units, registered, kept, success),
            ),
          )
        ]
      ]

  pub claim-SameLinks :
      (origin : Origin) (id account : ℕ) (s : State decimals Ledger)
      → SameLinks s (claim_withdraw r origin id account s).1
  unfolding claim_withdraw announce store_withdrawals deposit_event
  claim-SameLinks root id account s = ground arith
  claim-SameLinks unsigned id account s = ground arith
  claim-SameLinks (signed who) id account s = elim (Option-cases (s.withdrawals id)) [
    | inl missing ↦ ground (arith, missing)
    | inr (m, stored) ↦ elim (Option-cases (map_get account m)) [
      | inl missing ↦ ground (arith, stored, missing)
      | inr (ws, there) ↦ ground (arith, stored, there, do_withdraw_keeps r id ws s)
    ]
  ]
