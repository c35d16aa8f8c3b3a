-- ===== src/Ocex/Custody/Funds.antt =====
-- What the deposits and the withdrawals of pallets/ocex/src/lib.rs move.
use polkadex_node.Prelude.{
  ℕ, zero, suc, ◌+◌, ◌≡◌, ◌≢◌, sym, subst, inl, inr, Option, none, some, List, [], ◌∷◌, ◌++◌,
  if◌then◌else◌, arith, Option-cases, ◌==◌,
}
use polkadex_node.Frame.{Result, Result-cases, ok, bind_ok}
use polkadex_node.Ocex.Types.{Runtime, State, Withdrawal, polkadot, unit_balance}
use polkadex_node.Ocex.Accounts.{deposit_event}
use polkadex_node.Ocex.Custody.{on_ledger, transfer_asset, send_on, pay_out, do_withdraw}
use polkadex_node.Ocex.Custody.Loop.{try-cases}

module _ (r : Runtime) where
  open r use {decimals, Ledger, native_transfer, asset_transfer, parachain_withdraw, pallet_account}
  open decimals use {from_u128, to_u128, decimal_mul, checked_add}

  -- What the balances of an account, per asset, have to do with the transfers.
  pub record CustodyLaws : Type 0 where
    pub held : Ledger → ℕ → ℕ → ℕ
    pub native_transfer_moves :
        (payer payee amount : ℕ) (l l' : Ledger)
        → payer ≢ payee
        → native_transfer payer payee amount l ≡ ok l'
        → (held l' 0 payee ≡ held l 0 payee + amount) × (held l' 0 payer + amount ≡ held l 0 payer)
    pub asset_transfer_moves :
        (id payer payee amount : ℕ) (l l' : Ledger)
        → payer ≢ payee
        → asset_transfer id payer payee amount l ≡ ok l'
        → (held l' (suc id) payee ≡ held l (suc id) payee + amount)
          × (held l' (suc id) payer + amount ≡ held l (suc id) payer)
    pub asset_transfer_keeps_native :
        (id payer payee amount who : ℕ) (l l' : Ledger)
        → asset_transfer id payer payee amount l ≡ ok l'
        → held l' 0 who ≡ held l 0 who
    -- `()`, the one implementation of `CrossChainWithdraw`, moves nothing.
    pub parachain_withdraw_keeps_others :
        (user asset amount beneficiary : ℕ) (fee : Option (ℕ × ℕ)) (id who : ℕ) (l l' : Ledger)
        → user ≢ who
        → parachain_withdraw user asset amount beneficiary fee id l ≡ ok l'
        → held l' 0 who ≡ held l 0 who

  pub on_ledger_ok :
      (f : Ledger → Result ℕ Ledger) (s s' : State decimals Ledger)
      → on_ledger r f s ≡ (ok tt, s')
      → (l : Ledger) × (f s.ledger ≡ ok l) × (s' ≡ record s { ledger = l })
  unfolding on_ledger
  on_ledger_ok f s s' h = elim (Result-cases (f s.ledger)) [
    | inl (l, done) ↦ (l, done, ground (arith, done, h))
    | inr (e, failed) ↦ absurd (ground (arith, failed, h))
  ]

  -- The amount that a withdrawal is for, in units of the ledger.
  abbrev pub amount_of : Withdrawal decimals → Option ℕ
  amount_of w = to_u128 (decimal_mul w.amount (from_u128 unit_balance))

  -- What a list of withdrawals takes of the native currency.
  abbrev pub native_total : List (Withdrawal decimals) → ℕ
  native_total [] = 0
  native_total (w ∷ ws) =
      (if w.asset == 0 then elim (amount_of w) [ some amount ↦ amount | none ↦ 0 ] else 0)
      + native_total ws

  module _ (laws : CustodyLaws) where
    transfer_keeps :
        (who amount asset : ℕ) (s s' : State decimals Ledger)
        → pallet_account ≢ who
        → transfer_asset r pallet_account who amount asset s ≡ (ok tt, s')
        → laws.held s'.ledger 0 pallet_account + (if asset == 0 then amount else 0)
          ≡ laws.held s.ledger 0 pallet_account
    unfolding transfer_asset
    transfer_keeps who amount zero s s' other h =
        let (l, moved, after) = on_ledger_ok (native_transfer pallet_account who amount) s s' h in
        let e = laws.native_transfer_moves pallet_account who amount s.ledger l other moved in
        ground (arith, e, after)
    transfer_keeps who amount (suc id) s s' other h =
        let (l, moved, after) = on_ledger_ok (asset_transfer id pallet_account who amount) s s' h in
        let e =
          laws.asset_transfer_keeps_native id pallet_account who amount pallet_account s.ledger l
            moved in
        ground (arith, e, after)

    send_on_keeps :
        (w : Withdrawal decimals) (amount : ℕ) (s s' : State decimals Ledger)
        → pallet_account ≢ w.main_account
        → send_on r w amount s ≡ (ok tt, s')
        → laws.held s'.ledger 0 pallet_account ≡ laws.held s.ledger 0 pallet_account
    unfolding send_on
    send_on_keeps w amount s s' other h = elim (Option-cases w.destination) [
      | inl none_given ↦ ground (arith, none_given, h)
      | inr (polkadot location fee, given) ↦
          let (l, moved, after) =
            on_ledger_ok (parachain_withdraw w.main_account w.asset amount location fee w.id) s s'
              (ground (arith, given, h)) in
          let e =
            laws.parachain_withdraw_keeps_others w.main_account w.asset amount location fee w.id
              pallet_account s.ledger l (λ same. other (sym same)) moved in
          ground (arith, e, after)
    ]

    pay_out_lem :
        (w : Withdrawal decimals) (s s' : State decimals Ledger)
        → pallet_account ≢ w.main_account
        → pay_out r w s ≡ (ok tt, s')
        → laws.held s'.ledger 0 pallet_account + native_total (w ∷ [])
          ≡ laws.held s.ledger 0 pallet_account
    unfolding pay_out
    pay_out_lem w s s' other h = elim (Option-cases (amount_of w)) [
      | inl missing ↦ absurd (ground (arith, missing, h))
      | inr (amount, is_amount) ↦
          let (_, s₁, transferred, sent) =
            bind_ok (transfer_asset r pallet_account w.main_account amount w.asset)
              (λ _. send_on r w amount) s s' tt (ground (arith, is_amount, h)) in
          let e = transfer_keeps w.main_account amount w.asset s s₁ other transferred in
          let e' = send_on_keeps w amount s₁ s' other sent in ground (arith, is_amount, e, e')
    ]

    -- No withdrawal is to the account of the pallet.
    abbrev pub AreOutward : List (Withdrawal decimals) → Type 0
    AreOutward [] = Unit
    AreOutward (w ∷ ws) = (pallet_account ≢ w.main_account) × AreOutward ws

    native_total-append :
        (xs ys : List (Withdrawal decimals))
        → native_total (xs ++ ys) ≡ native_total xs + native_total ys
    native_total-append [] ys = omega arith
    native_total-append (x ∷ xs) ys = omega (arith, native_total-append xs ys)

    -- The pallet pays out what the processed withdrawals are for, and nothing for the failed ones: in
    -- the native currency, its balance after a call of `do_withdraw` and the amounts of the processed
    -- withdrawals make up its balance before, where none of them goes to the pallet itself.
    pub do_withdraw_pays_processed :
        (id : ℕ) (ws : List (Withdrawal decimals)) (s : State decimals Ledger)
        → AreOutward ws
        → let out = do_withdraw r id ws s in
          laws.held out.1.ledger 0 pallet_account + native_total out.0.1
          ≡ laws.held s.ledger 0 pallet_account
    unfolding do_withdraw deposit_event
    do_withdraw_pays_processed id [] s outward = omega arith
    do_withdraw_pays_processed id (w ∷ ws) s (other, outward) =
        let (lists, s') = do_withdraw r id ws s in
        let before = do_withdraw_pays_processed id ws s outward in
        let last = native_total-append lists.1 (w ∷ []) in
        let P : (List (Withdrawal decimals) × List (Withdrawal decimals)) × State decimals Ledger
            → Type 0 =
          λ out.
            laws.held out.1.ledger 0 pallet_account + native_total out.0.1
            ≡ laws.held s.ledger 0 pallet_account in
        elim (try-cases r id w lists s') [
          | inl (s'', paid, done) ↦
              subst P (sym done) (omega (arith, before, last, pay_out_lem w s' s'' other paid))
          | inr failed ↦ subst P (sym failed) before
        ]
