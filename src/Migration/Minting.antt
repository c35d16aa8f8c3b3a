-- ===== src/Migration/Minting.antt =====
-- When a burn is minted (`process_migration` of pallets/pdex-migration/src/lib.rs).
use polkadex_node.Prelude.{
  ℕ, ◌+◌, ◌≤◌, ◌<◌, ◌≡◌, ◌≢◌, refl, ◌⊎◌, inl, inr, List, [], ◌∷◌, arith, length, Distinct,
  length-append, Bool-cases, u16_mod, ◌==◌, ==_iff, wrapping_add,
}
use polkadex_node.Frame.{ok, Origin, root, signed, unsigned}
use polkadex_node.Currency.{LockableCurrency}
use polkadex_node.Migration.Types.{Config, State, BurnTxDetails, Request, mints}
use polkadex_node.Migration.Outcomes.{mint-cases, approved}
use polkadex_node.Migration.Calls.{
  mint_and_lock, approve, mint, process_migration, execute, run, deposit_event,
}
use polkadex_node.Migration.Approvals.{
  approved-IsRecorded, approve-eth_txs, IsConsistent, execute-IsConsistent, run-IsConsistent,
  run-approvers_mono,
}

module _ (c : LockableCurrency) (config : Config) (few : config.max_relayers < u16_mod) where
  open c use {Ledger}

  approve_early :
      (relayer beneficiary amount tx : ℕ) (d : BurnTxDetails) (s : State Ledger)
      → d.approvals ≢ 3
      → ((approve c config relayer beneficiary amount tx d s).ledger ≡ s.ledger)
        × ((approve c config relayer beneficiary amount tx d s).mintable_tokens ≡ s.mintable_tokens)
  unfolding approve deposit_event
  approve_early relayer beneficiary amount tx d s h = ground arith

  approve_third :
      (relayer beneficiary amount tx : ℕ) (d : BurnTxDetails) (s : State Ledger)
      → d.approvals ≡ 3
      → amount ≤ s.mintable_tokens
      → (approve c config relayer beneficiary amount tx d s).mintable_tokens + amount
        ≡ s.mintable_tokens
  unfolding approve mint_and_lock deposit_event
  approve_third relayer beneficiary amount tx d s h within = ground arith

  -- Where fewer than 2^16 relayers may approve and approvals count distinct approvers, a `mint`
  -- that succeeds leaves the ledger and the mintable tokens alone, or it is the one that brings
  -- the approvers of its transaction to exactly three distinct accounts.
  pub mint_needs_three :
      (origin : Origin) (beneficiary amount tx : ℕ) (s : State Ledger)
      → IsConsistent c config few s
      → (mint c config origin beneficiary amount tx s).0 ≡ ok tt
      → let s' = (mint c config origin beneficiary amount tx s).1 in
        ((s'.ledger ≡ s.ledger) × (s'.mintable_tokens ≡ s.mintable_tokens))
        ⊎ ((length (s'.eth_txs tx).approvers ≡ 3)
            × Distinct (s'.eth_txs tx).approvers
            × (length (s.eth_txs tx).approvers ≡ 2)
            × (s'.mintable_tokens + amount ≡ s.mintable_tokens))
  mint_needs_three origin beneficiary amount tx s h success =
      elim (mint-cases c config origin beneficiary amount tx s) [
        | inl (e, same) ↦ absurd (ground (arith, same))
        | inr (r, _, _, _, fresh, _, within, room, done) ↦
            let d = approved r (s.eth_txs tx) in
            let v = approved-IsRecorded config few r (s.eth_txs tx) (h tx) fresh room in
            rw (done, approve-eth_txs c config r beneficiary amount tx d s)
              (elim (Bool-cases (d.approvals == 3)) [
                | inr early ↦ inl (approve_early r beneficiary amount tx d s (ground arith))
                | inl third ↦
                    let three : d.approvals ≡ 3 = (==_iff d.approvals 3).0 third in
                    inr (
                      ground (arith, v.counted),
                      ground (arith, v.distinct),
                      omega (
                        arith,
                        v.counted,
                        three,
                        length-append (s.eth_txs tx).approvers (r ∷ []),
                      ),
                      approve_third r beneficiary amount tx d s three within,
                    )
              ])
      ]

  -- Once a transaction has three approvers, no later call of `mint` for it changes the ledger.
  three_are_final :
      (tx : ℕ) (s : State Ledger) (rs : List Request) (origin : Origin) (beneficiary amount : ℕ)
      → IsConsistent c config few s
      → 3 ≤ length (s.eth_txs tx).approvers
      → let s₁ = run c config rs s in
        (mint c config origin beneficiary amount tx s₁).1.ledger ≡ s₁.ledger
  three_are_final tx s rs origin beneficiary amount h three =
      let s₁ = run c config rs s in
      elim (mint-cases c config origin beneficiary amount tx s₁) [
        | inl (e, same) ↦ rw same
        | inr (r, _, _, _, fresh, _, within, room, done) ↦
            let v =
              approved-IsRecorded config few r (s₁.eth_txs tx)
                (run-IsConsistent c config few rs s h tx) fresh room in
            rw done
              (approve_early r beneficiary amount tx (approved r (s₁.eth_txs tx)) s₁ (
                omega (
                  arith,
                  v.counted,
                  run-approvers_mono c config few rs s tx,
                  length-append (s₁.eth_txs tx).approvers (r ∷ []),
                ))).0
      ]

  -- The call of `mint` that changes the ledger leaves its transaction with three approvers.
  minting_call_is_third :
      (origin : Origin) (beneficiary amount tx : ℕ) (s : State Ledger)
      → IsConsistent c config few s
      → (mint c config origin beneficiary amount tx s).1.ledger ≢ s.ledger
      → length ((mint c config origin beneficiary amount tx s).1.eth_txs tx).approvers ≡ 3
  minting_call_is_third origin beneficiary amount tx s h changed =
      elim (mint-cases c config origin beneficiary amount tx s) [
        | inl (e, same) ↦ absurd (changed (rw same refl))
        | inr (r, _, _, _, fresh, _, within, room, done) ↦
            let d = approved r (s.eth_txs tx) in
            let v = approved-IsRecorded config few r (s.eth_txs tx) (h tx) fresh room in
            elim (Bool-cases (d.approvals == 3)) [
              | inr early ↦
                  absurd
                    (changed (rw done (approve_early r beneficiary amount tx d s (ground arith)).0))
              | inl third ↦
                  rw (done, approve-eth_txs c config r beneficiary amount tx d s)
                    (ground (arith, v.counted))
            ]
      ]

  -- Where fewer than 2^16 relayers may approve and approvals count distinct approvers, a burn is
  -- minted at most once, at its third approval: a call of `mint` that changes the ledger leaves its
  -- transaction with exactly three distinct approvers, and no later call of `mint` for the same
  -- transaction changes the ledger, whoever calls, with whatever terms, and whatever has been called
  -- in between.
  pub minted_once :
      (tx : ℕ) (s : State Ledger) (rs : List Request) (origin origin' : Origin)
      (beneficiary beneficiary' amount amount' : ℕ)
      → IsConsistent c config few s
      → (mint c config origin beneficiary amount tx s).1.ledger ≢ s.ledger
      → let minted = (mint c config origin beneficiary amount tx s).1 in
        let s₁ = run c config rs minted in
        (length (minted.eth_txs tx).approvers ≡ 3)
        × Distinct (minted.eth_txs tx).approvers
        × ((mint c config origin' beneficiary' amount' tx s₁).1.ledger ≡ s₁.ledger)
  unfolding execute
  minted_once tx s rs origin origin' beneficiary beneficiary' amount amount' h changed =
      let minted = (mint c config origin beneficiary amount tx s).1 in
      let third = minting_call_is_third origin beneficiary amount tx s h changed in
      let kept : IsConsistent c config few minted =
        execute-IsConsistent c config few (mints origin beneficiary amount tx) s h in
      (
        third,
        (kept tx).distinct,
        three_are_final tx minted rs origin' beneficiary' amount' kept (omega (arith, third)),
      )

module _ (c : LockableCurrency) (config : Config) where
  open c use {Ledger}

  -- Before the third approval `mint` records neither the beneficiary nor the amount: two calls
  -- that differ in both, with amounts that may be minted, have the same effect.
  pub early_terms_ignored :
      (origin : Origin) (b₁ b₂ a₁ a₂ tx : ℕ) (s : State Ledger)
      → a₁ ≤ s.mintable_tokens
      → a₂ ≤ s.mintable_tokens
      → wrapping_add u16_mod (s.eth_txs tx).approvals 1 ≢ 3
      → mint c config origin b₁ a₁ tx s ≡ mint c config origin b₂ a₂ tx s
  unfolding mint process_migration approve
  early_terms_ignored root b₁ b₂ a₁ a₂ tx s h₁ h₂ early = refl
  early_terms_ignored unsigned b₁ b₂ a₁ a₂ tx s h₁ h₂ early = refl
  early_terms_ignored (signed r) b₁ b₂ a₁ a₂ tx s h₁ h₂ early = ground arith
