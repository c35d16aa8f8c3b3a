-- ===== src/Ocex/Custody/Payments.antt =====
-- What the payments of pallets/ocex/src/lib.rs leave as it is in storage.
use polkadex_node.Prelude.{ℕ, zero, suc, ◌≡◌, refl, inl, inr, List, [], ◌∷◌, arith, Option-cases}
use polkadex_node.Frame.{Result, Result-cases}
use polkadex_node.Ocex.Types.{Runtime, State, Withdrawal, polkadot, unit_balance}
use polkadex_node.Ocex.Accounts.{deposit_event}
use polkadex_node.Ocex.Custody.{on_ledger, transfer_asset, send_on, pay_out, do_withdraw}
use polkadex_node.Ocex.Custody.Loop.{try-cases}

module _ (r : Runtime) where
  open r use {decimals, Ledger}

  -- What a payment leaves as it is.
  abbrev pub SameStorage : State decimals Ledger → State decimals Ledger → Type 0
  SameStorage s s' =
      (s'.withdrawals ≡ s.withdrawals) × (s'.accounts ≡ s.accounts) × (s'.proxies ≡ s.proxies)

  on_ledger_keeps :
      (f : Ledger → Result ℕ Ledger) (s : State decimals Ledger) → SameStorage s (on_ledger r f s).1
  unfolding on_ledger
  on_ledger_keeps f s = ground arith

  pub transfer_keeps_storage :
      (payer payee amount asset : ℕ) (s : State decimals Ledger)
      → SameStorage s (transfer_asset r payer payee amount asset s).1
  unfolding transfer_asset
  transfer_keeps_storage payer payee amount zero s = on_ledger_keeps _ s
  transfer_keeps_storage payer payee amount (suc id) s = on_ledger_keeps _ s

  send_on_keeps_storage :
      (w : Withdrawal decimals) (amount : ℕ) (s : State decimals Ledger)
      → SameStorage s (send_on r w amount s).1
  unfolding send_on
  send_on_keeps_storage w amount s = elim (Option-cases w.destination) [
    | inl missing ↦ ground (arith, missing)
    | inr (polkadot location fee, given) ↦ ground (
      arith,
      given,
      on_ledger_keeps (r.parachain_withdraw w.main_account w.asset amount location fee w.id) s,
    )
  ]

  pay_out_keeps :
      (w : Withdrawal decimals) (s : State decimals Ledger) → SameStorage s (pay_out r w s).1
  unfolding pay_out
  pay_out_keeps w s =
      elim (Option-cases (
        r.decimals.to_u128 (r.decimals.decimal_mul w.amount (r.decimals.from_u128 unit_balance)))) [
          | inl missing ↦ ground (arith, missing)
          | inr (amount, is_amount) ↦
              let moved = transfer_keeps_storage r.pallet_account w.main_account amount w.asset s in
              let s₁ = (transfer_asset r r.pallet_account w.main_account amount w.asset s).1 in
              let sent = send_on_keeps_storage w amount s₁ in
              elim (Result-cases
                (transfer_asset r r.pallet_account w.main_account amount w.asset s).0) [
                  | inl (_, done) ↦ ground (arith, is_amount, done, moved, sent)
                  | inr (e, failed) ↦ ground (arith, is_amount, failed, moved)
                ]
        ]

  pub do_withdraw_keeps :
      (id : ℕ) (ws : List (Withdrawal decimals)) (s : State decimals Ledger)
      → SameStorage s (do_withdraw r id ws s).1
  unfolding do_withdraw deposit_event
  do_withdraw_keeps id [] s = (refl, refl, refl)
  do_withdraw_keeps id (w ∷ ws) s =
      let (lists, s') = do_withdraw r id ws s in
      let before = do_withdraw_keeps id ws s in
      elim (try-cases r id w lists s') [
        | inl (s'', paid, done) ↦ ground (arith, before, pay_out_keeps w s', paid, done)
        | inr failed ↦ ground (arith, before, failed)
      ]
