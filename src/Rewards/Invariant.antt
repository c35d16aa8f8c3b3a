-- ===== src/Rewards/Invariant.antt =====
-- How the entries of `Distributor` (pallets/rewards/src/lib.rs) change, and what holds of them.
use polkadex_node.Prelude.{
  subst, ℕ, ◌<◌, ◌≡◌, refl, ◌⊎◌, inl, inr, List, [], ◌∷◌, Option, none, some, true, false, arith,
  update₂, Bool-cases, ◌==◌,
}
use polkadex_node.Frame.{err, root, signed, unsigned}
use polkadex_node.Currency.{LockableCurrency}
use polkadex_node.Rewards.Types.{
  State, RewardInfo, RewardInfoForAccount, Error, Environment, Rewardee, rewards_lock_id,
  min_rewards_claimable_amount, Request, creates, initializes, claims, unsigned_initializes,
  unsigned_claims, block_ends,
}
use polkadex_node.Rewards.Calls.{
  initial_info, do_initialize_claim_rewards, do_claim, initialize_claim_rewards, claim,
  unsigned_initialize_claim_rewards, unsigned_claim, execute, run,
}
use polkadex_node.Rewards.Outcomes.{
  create_reward_cycle-cases, do_initialize-cases, do_claim-cases, claimed_info,
}

-- One change of an entry: an account without one is funded, or the account claims.
pub data EntryStep (old : Option RewardInfoForAccount) (new : RewardInfoForAccount) : Type 0 where
  funds :
      (row : Rewardee) (cycle : RewardInfo)
      → old ≡ none
      → min_rewards_claimable_amount < row.total_rewards_in_pdex
      → new ≡ initial_info row cycle
      → EntryStep old new
  collects :
      (info : RewardInfoForAccount) (block : ℕ)
      → old ≡ some info
      → new ≡ claimed_info info block
      → EntryStep old new

-- A funded entry: the flags and the lock are set, and either nothing is claimed or all of it.
pub record IsFunded (info : RewardInfoForAccount) : Type 0 where
  pub ready : info.is_initialized ≡ true
  pub locked : info.lock_id ≡ rewards_lock_id
  pub enough : min_rewards_claimable_amount < info.total_reward_amount
  pub whole :
      ((info.is_initial_rewards_claimed ≡ false) × (info.claim_amount ≡ 0))
      ⊎ ((info.is_initial_rewards_claimed ≡ true) × (info.claim_amount ≡ info.total_reward_amount))

-- An entry is funded, if it is there.
abbrev pub IsFundedAt : Option RewardInfoForAccount → Type 0
IsFundedAt none = Unit
IsFundedAt (some info) = IsFunded info

pub IsFundedAt-some :
    (o : Option RewardInfoForAccount)
    → IsFundedAt o
    → (info : RewardInfoForAccount) → o ≡ some info
    → IsFunded info
IsFundedAt-some o h info e = subst IsFundedAt e h

pub IsFundedAt-all :
    (o : Option RewardInfoForAccount)
    → ((info : RewardInfoForAccount) → o ≡ some info → IsFunded info)
    → IsFundedAt o
IsFundedAt-all none h = tt
IsFundedAt-all (some info) h = h info refl

step-IsFunded :
    (old : Option RewardInfoForAccount) (new : RewardInfoForAccount)
    → EntryStep old new
    → ((info : RewardInfoForAccount) → old ≡ some info → IsFunded info)
    → IsFunded new
unfolding initial_info
step-IsFunded old new (funds row cycle absent large e) h =
    rw e (record { ready = refl; locked = refl; enough = large; whole = inl (refl, refl) })
step-IsFunded old new (collects info block present e) h =
    let v = h info present in
    rw e
      (record { ready = v.ready; locked = v.locked; enough = v.enough; whole = inr (refl, refl) })

module _ (c : LockableCurrency) (env : Environment) where
  open c use {Ledger}

  -- The entries after a call: as before, or one of them has made a step.
  abbrev Steps : State Ledger → State Ledger → Type 0
  Steps s s' =
      (s'.distributor ≡ s.distributor)
      ⊎ ((user : ℕ) × (id : ℕ) × (new : RewardInfoForAccount) × (s'.distributor
            ≡ update₂ s.distributor id user (some new))
          × EntryStep (s.distributor id user) new)

  do_initialize-Steps :
      (user id : ℕ) (s : State Ledger) → Steps s (do_initialize_claim_rewards c env user id s).1
  do_initialize-Steps user id s = elim (do_initialize-cases c env user id s) [
    | inl (e, same) ↦ inl (rw same)
    | inr (info, account, row, moved, _, _, absent, _, _, large, _, done) ↦
        inr (user, id, initial_info row info, rw done, funds row info absent large refl)
  ]

  do_claim-Steps : (user id : ℕ) (s : State Ledger) → Steps s (do_claim c env user id s).1
  do_claim-Steps user id s = elim (do_claim-cases c env user id s) [
    | inl (e, same) ↦ inl (rw same)
    | inr (cycle, info, _, present, _, done) ↦ inr (
      user,
      id,
      claimed_info info s.block_number,
      rw done,
      collects info s.block_number present refl,
    )
  ]

  execute-Steps : (r : Request) (s : State Ledger) → Steps s (execute c env r s)
  unfolding execute initialize_claim_rewards claim unsigned_initialize_claim_rewards unsigned_claim
  execute-Steps (creates origin start end percentage id) s =
      elim (create_reward_cycle-cases c env origin start end percentage id s) [
        | inl (e, same) ↦ inl (rw (same, execute))
        | inr (_, _, _, _, _, done) ↦ inl (rw (done, execute))
      ]
  execute-Steps (initializes root id) s = inl refl
  execute-Steps (initializes (signed user) id) s = do_initialize-Steps user id s
  execute-Steps (initializes unsigned id) s = inl refl
  execute-Steps (claims root id) s = inl refl
  execute-Steps (claims (signed user) id) s = do_claim-Steps user id s
  execute-Steps (claims unsigned id) s = inl refl
  execute-Steps (unsigned_initializes root p) s = inl refl
  execute-Steps (unsigned_initializes (signed _) p) s = inl refl
  execute-Steps (unsigned_initializes unsigned p) s = do_initialize-Steps p.user p.reward_id s
  execute-Steps (unsigned_claims root p) s = inl refl
  execute-Steps (unsigned_claims (signed _) p) s = inl refl
  execute-Steps (unsigned_claims unsigned p) s = do_claim-Steps p.user p.reward_id s
  execute-Steps block_ends s = inl refl

  abbrev pub IsSettled : State Ledger → Type 0
  IsSettled s = (id user : ℕ) → IsFundedAt (s.distributor id user)

  execute-IsSettled : (r : Request) (s : State Ledger) → IsSettled s → IsSettled (execute c env r s)
  execute-IsSettled r s h id user =
      let entry = λ (i u : ℕ). IsFundedAt-some (s.distributor i u) (h i u) in
      IsFundedAt-all ((execute c env r s).distributor id user) λ info present.
        elim (execute-Steps r s) [
          | inl same ↦ entry id user info (rw (← same) present)
          | inr (u, i, new, e, step) ↦ elim (Bool-cases (i == id)) [
            | inr other ↦ entry id user info (ground arith)
            | inl here ↦ elim (Bool-cases (u == user)) [
              | inr other ↦ entry id user info (ground arith)
              | inl there ↦
                  let new_info : new ≡ info = ground arith in
                  rw (← new_info) (step-IsFunded (s.distributor i u) new step (entry i u))
            ]
          ]
        ]

  -- If every entry of `Distributor` is initialised, under the rewards lock, above the minimum, and
  -- claimed either not at all or in full, it stays so whatever is called.
  pub run-IsSettled :
      (rs : List Request) (s : State Ledger) → IsSettled s → IsSettled (run c env rs s)
  unfolding run
  run-IsSettled [] s h = h
  run-IsSettled (r ∷ rs) s h = run-IsSettled rs (execute c env r s) (execute-IsSettled r s h)

  -- An entry with the same total as another.
  abbrev SameTotal : ℕ → Option RewardInfoForAccount → Type 0
  SameTotal total o =
      (info : RewardInfoForAccount) × (o ≡ some info) × (info.total_reward_amount ≡ total)

  step-SameTotal :
      (total : ℕ) (old : Option RewardInfoForAccount) (new : RewardInfoForAccount)
      → EntryStep old new
      → SameTotal total old
      → SameTotal total (some new)
  step-SameTotal total old new (funds row cycle absent large e) (info, present, t) =
      absurd (ground (arith, absent, present))
  step-SameTotal total old new (collects i block was e) (info, present, t) =
      (new, refl, ground (arith, e, was, present, t))

  execute-SameTotal :
      (total id user : ℕ) (r : Request) (s : State Ledger)
      → SameTotal total (s.distributor id user)
      → SameTotal total ((execute c env r s).distributor id user)
  execute-SameTotal total id user r s h = elim (execute-Steps r s) [
    | inl same ↦ rw same h
    | inr (u, i, new, e, step) ↦ rw e (elim (Bool-cases (i == id)) [
      | inr other ↦ rw other h
      | inl here ↦ elim (Bool-cases (u == user)) [
        | inr other ↦ rw (here, other) h
        | inl there ↦
            rw (here, there)
              (step-SameTotal total (s.distributor i u) new step (ground (arith, h.1, h.2)))
      ]
    ])
  ]

  run-SameTotal :
      (total id user : ℕ) (rs : List Request) (s : State Ledger)
      → SameTotal total (s.distributor id user)
      → SameTotal total ((run c env rs s).distributor id user)
  unfolding run
  run-SameTotal total id user [] s h = h
  run-SameTotal total id user (r ∷ rs) s h =
      run-SameTotal total id user rs (execute c env r s) (execute-SameTotal total id user r s h)

  -- Rewards are paid once: an account that has an entry in a cycle keeps it, with its total, and
  -- no later attempt to initialise it, after any calls, pays or changes anything.
  pub initialised_once :
      (id user : ℕ) (info : RewardInfoForAccount) (rs : List Request) (s : State Ledger)
      → s.distributor id user ≡ some info
      → let s₁ = run c env rs s in
        ((info' : RewardInfoForAccount) × (s₁.distributor id user ≡ some info')
          × (info'.total_reward_amount ≡ info.total_reward_amount))
        × ((e : Error) × (do_initialize_claim_rewards c env user id s₁ ≡ (err e, s₁)))
  initialised_once id user info rs s present =
      let s₁ = run c env rs s in
      let kept = run-SameTotal info.total_reward_amount id user rs s (info, present, refl) in
      (
        kept,
        elim (do_initialize-cases c env user id s₁) [
          | inl refused ↦ refused
          | inr (_, _, _, _, _, _, absent, _, _, _, _, _) ↦ absurd (ground (arith, absent, kept.1))
        ],
      )
