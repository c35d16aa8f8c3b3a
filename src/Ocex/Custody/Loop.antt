-- ===== src/Ocex/Custody/Loop.antt =====
-- The loop of `do_withdraw` of pallets/ocex/src/lib.rs ends, and loses no withdrawal.
use polkadex_node.Prelude.{
  ℕ, zero, suc, ◌+◌, ◌≤◌, ◌≡◌, refl, sym, ap, ◌∙◌, subst, ◌⊎◌, inl, inr, Bool, none, some, List, [],
  ◌∷◌, ◌++◌, if◌then◌else◌, length, length-append, arith,
}
use polkadex_node.Frame.{ok, transactional-cases}
use polkadex_node.Ocex.Types.{Runtime, State, Withdrawal, withdrawal_ready}
use polkadex_node.Ocex.Accounts.{deposit_event}
use polkadex_node.Ocex.Custody.{
  on_idle_withdrawal_processor, pay_out, pop, try_withdrawal, withdraw_loop, do_withdraw,
}

-- How many entries of a list pass a test.
abbrev pub count {ℓ} : {A : Type ℓ} → (A → Bool) → List A → ℕ
count p [] = 0
count p (x ∷ xs) = (if p x then 1 else 0) + count p xs

pub count-append {ℓ} :
    {A : Type ℓ} (p : A → Bool) (xs ys : List A) → count p (xs ++ ys) ≡ count p xs + count p ys
count-append p [] ys = omega arith
count-append p (x ∷ xs) ys = omega (arith, count-append p xs ys)

module _ (r : Runtime) where
  open r use {decimals, Ledger}

  pop-cases {ℓ} :
      {A : Type ℓ} (xs : List A)
      → ((pop r xs ≡ none) × (xs ≡ []))
        ⊎ ((y : A) × (ys : List A) × (pop r xs ≡ some (y, ys)) × (xs ≡ ys ++ y ∷ []))
  unfolding pop
  pop-cases [] = inl (refl, refl)
  pop-cases (x ∷ xs) = elim (pop-cases xs) [
    | inl (nothing, empty) ↦ inr (x, [], ground (arith, nothing), ap (λ zs. x ∷ zs) empty)
    | inr (y, ys, popped, split) ↦ inr (y, x ∷ ys, ground (arith, popped), ap (λ zs. x ∷ zs) split)
  ]

  -- The loop from lists that hold entries already.
  continue :
      ℕ
      → List (Withdrawal decimals)
      → List (Withdrawal decimals) × List (Withdrawal decimals)
      → State decimals Ledger
      → (List (Withdrawal decimals) × List (Withdrawal decimals)) × State decimals Ledger
  continue id [] lists s = (lists, s)
  continue id (w ∷ ws) lists s =
      let (lists', s') = continue id ws lists s in try_withdrawal r id w lists' s'

  continue-do_withdraw :
      (id : ℕ) (ws : List (Withdrawal decimals)) (s : State decimals Ledger)
      → continue id ws ([], []) s ≡ do_withdraw r id ws s
  unfolding continue do_withdraw
  continue-do_withdraw id [] s = refl
  continue-do_withdraw id (w ∷ ws) s =
      ap (λ out. try_withdrawal r id w out.0 out.1) (continue-do_withdraw id ws s)

  continue-append :
      (id : ℕ) (ws : List (Withdrawal decimals)) (w : Withdrawal decimals)
      (lists : List (Withdrawal decimals) × List (Withdrawal decimals)) (s : State decimals Ledger)
      → let out = try_withdrawal r id w lists s in
        continue id (ws ++ w ∷ []) lists s ≡ continue id ws out.0 out.1
  unfolding continue
  continue-append id [] w lists s = refl
  continue-append id (x ∷ ws) w lists s =
      ap (λ out. try_withdrawal r id x out.0 out.1) (continue-append id ws w lists s)

  loop-continue :
      (fuel id : ℕ) (ws : List (Withdrawal decimals))
      (lists : List (Withdrawal decimals) × List (Withdrawal decimals)) (s : State decimals Ledger)
      → length ws ≤ fuel
      → withdraw_loop r fuel id ws lists s ≡ some (continue id ws lists s)
  unfolding withdraw_loop continue
  loop-continue zero id [] lists s h = refl
  loop-continue zero id (w ∷ ws) lists s h = absurd (omega (arith, h))
  loop-continue (suc fuel) id ws lists s h = elim (pop-cases ws) [
    | inl (nothing, empty) ↦ rw (withdraw_loop, nothing, empty) refl
    | inr (y, ys, popped, split) ↦
        let out = try_withdrawal r id y lists s in
        let short : length ys ≤ fuel =
          omega (arith, length-append ys (y ∷ []), h, ap (λ zs. length zs) split) in
        rw (withdraw_loop, popped)
          (loop-continue fuel id ys out.0 out.1 short
            ∙ ap (λ p. some p)
                (sym (continue-append id ys y lists s)
                  ∙ ap (λ zs. continue id zs lists s) (sym split)))
  ]

  -- The loop that pops one withdrawal after the other comes to its end within as many rounds as
  -- there are withdrawals, and its result is that of processing them from the last to the first.
  pub withdraw_loop-do_withdraw :
      (fuel id : ℕ) (ws : List (Withdrawal decimals)) (s : State decimals Ledger)
      → length ws ≤ fuel
      → withdraw_loop r fuel id ws ([], []) s ≡ some (do_withdraw r id ws s)
  withdraw_loop-do_withdraw fuel id ws s h =
      loop-continue fuel id ws ([], []) s h ∙ ap (λ p. some p) (continue-do_withdraw id ws s)

  -- A withdrawal is paid out and joins the processed ones, or it changes nothing but the events and
  -- joins the failed ones.
  pub try-cases :
      (id : ℕ) (w : Withdrawal decimals)
      (lists : List (Withdrawal decimals) × List (Withdrawal decimals)) (s : State decimals Ledger)
      → let out = try_withdrawal r id w lists s in
        ((s' : State decimals Ledger) × (pay_out r w s ≡ (ok tt, s'))
          × (out ≡ ((lists.0, lists.1 ++ w ∷ []), s')))
        ⊎ (out ≡ ((lists.0 ++ w ∷ [], lists.1), deposit_event r (withdrawal_ready id w) s))
  unfolding try_withdrawal on_idle_withdrawal_processor
  try-cases id w lists s = elim (transactional-cases (pay_out r w) s) [
    | inl (_, s', paid, done) ↦ inl (s', paid, ground (arith, done))
    | inr (e, _, failed) ↦ inr (ground (arith, failed))
  ]

  -- Every withdrawal ends up in one of the two lists, as often as it was handed in: by any test,
  -- the failed and the processed ones together count as many as there were.
  pub do_withdraw_loses_none :
      (p : Withdrawal decimals → Bool) (id : ℕ) (ws : List (Withdrawal decimals))
      (s : State decimals Ledger)
      → let out = do_withdraw r id ws s in count p out.0.0 + count p out.0.1 ≡ count p ws
  unfolding do_withdraw
  do_withdraw_loses_none p id [] s = refl
  do_withdraw_loses_none p id (w ∷ ws) s =
      let (lists, s') = do_withdraw r id ws s in
      let before = do_withdraw_loses_none p id ws s in
      let last = count-append p lists.0 (w ∷ []) in
      let last' = count-append p lists.1 (w ∷ []) in
      elim (try-cases id w lists s') [
        | inl (s'', _, done) ↦
            subst (λ out. count p out.0.0 + count p out.0.1 ≡ count p (w ∷ ws)) (sym done)
              (omega (arith, before, last'))
        | inr failed ↦
            subst (λ out. count p out.0.0 + count p out.0.1 ≡ count p (w ∷ ws)) (sym failed)
              (omega (arith, before, last))
      ]
