-- ===== src/Ocex/Custody/Deposits.antt =====
-- What a deposit of pallets/ocex/src/lib.rs does where it succeeds.
use polkadex_node.Prelude.{ℕ, ◌≡◌, some, [], ◌∷◌, ◌++◌, update}
use polkadex_node.Frame.{ok}
use polkadex_node.Ocex.Types.{Runtime, State, IngressMessage, ingress_deposit}
use polkadex_node.Ocex.Accounts.{push_ingress}
use polkadex_node.Ocex.Pairs.{in_units}
use polkadex_node.Ocex.Custody.{transfer_asset, ensure_registered}

module _ (r : Runtime) where
  open r use {
    decimals, Ledger, native_transfer, asset_transfer, pallet_account, minimum_deposit,
    ingress_limit, proxy_limit,
  }
  open decimals use {checked_add}

  -- What stays as it is.
  abbrev SameFunds : State decimals Ledger → State decimals Ledger → Type 0
  SameFunds s s' =
      (s'.ledger ≡ s.ledger)
      × (s'.total_assets ≡ s.total_assets)
      × (s'.block_number ≡ s.block_number)

  -- The state after a message is pushed.
  abbrev pushed_to : IngressMessage decimals → State decimals Ledger → State decimals Ledger
  pushed_to message s = record s {
    ingress_messages =
        update s.ingress_messages s.block_number
          (s.ingress_messages s.block_number ++ message ∷ []);
  }

  -- The steps of a deposit that succeeds: the registration, the transfer, the total, the message.
  abbrev Steps : ℕ → ℕ → ℕ → ℕ → State decimals Ledger → Type 0
  Steps id user asset amount s =
      let s₁ = (ensure_registered r user s).1 in
      let s₂ = (transfer_asset r user pallet_account amount asset s₁).1 in
      (converted total : decimals.Decimal) × (in_units r amount ≡ some converted)
      × ((ensure_registered r user s).0 ≡ ok tt)
      × ((transfer_asset r user pallet_account amount asset s₁).0 ≡ ok tt)
      × (checked_add converted (s₂.total_assets asset) ≡ some total)
      × (let s₃ = record s₂ { total_assets = update s₂.total_assets asset total } in
          push_ingress r (ingress_deposit id user asset converted) s₃
          ≡ (ok tt, pushed_to (ingress_deposit id user asset converted) s₃))
