-- ===== src/Ocex/Custody/Tree.antt =====
-- The withdrawals of a snapshot by account: `create_withdrawal_tree` of pallets/ocex/src/lib.rs.
use polkadex_node.Prelude.{
  ℕ, ◌≡◌, refl, sym, ap, ◌∙◌, inl, inr, Option, none, some, List, [], ◌∷◌, ◌++◌, if◌then◌else◌,
  arith, Bool-cases, Option-cases, ◌==◌, ==_eq, is_empty, BTreeMap, map_get, map_get-map_insert,
}
use polkadex_node.Ocex.Types.{Runtime, Withdrawal}
use polkadex_node.Ocex.Custody.{add_to_tree, tree_loop, create_withdrawal_tree}

module _ (r : Runtime) where
  open r use {decimals}

  -- The withdrawals to one account, in their order.
  abbrev pub to_account : ℕ → List (Withdrawal decimals) → List (Withdrawal decimals)
  to_account a [] = []
  to_account a (w ∷ ws) = if w.main_account == a then w ∷ to_account a ws else to_account a ws

  -- More withdrawals after those that a map holds for an account.
  abbrev extend :
      Option (List (Withdrawal decimals))
      → List (Withdrawal decimals)
      → Option (List (Withdrawal decimals))
  extend (some pending) more = some (pending ++ more)
  extend none more = if is_empty more then none else some more

  append-step :
      (xs : List (Withdrawal decimals)) (w : Withdrawal decimals) (ys : List (Withdrawal decimals))
      → (xs ++ w ∷ []) ++ ys ≡ xs ++ w ∷ ys
  append-step [] w ys = refl
  append-step (x ∷ xs) w ys = ap (λ zs. x ∷ zs) (append-step xs w ys)

  append_nil : (xs : List (Withdrawal decimals)) → xs ++ [] ≡ xs
  append_nil [] = refl
  append_nil (x ∷ xs) = ap (λ zs. x ∷ zs) (append_nil xs)

  extend_nil : (o : Option (List (Withdrawal decimals))) → extend o [] ≡ o
  extend_nil none = refl
  extend_nil (some pending) = ap (λ zs. some zs) (append_nil pending)

  map_get-add_to_tree :
      (w : Withdrawal decimals) (m : BTreeMap (List (Withdrawal decimals))) (a : ℕ)
      (ws : List (Withdrawal decimals))
      → extend (map_get a (add_to_tree r w m)) (to_account a ws)
        ≡ extend (map_get a m) (to_account a (w ∷ ws))
  unfolding add_to_tree
  map_get-add_to_tree w m a ws = elim (Option-cases (map_get w.main_account m)) [
    | inl missing ↦
        let e = map_get-map_insert w.main_account a (w ∷ []) m in
        elim (Bool-cases (w.main_account == a)) [
          | inr other ↦ ground (arith, e, missing)
          | inl same ↦
              let here = ap (λ k. map_get k m) (sym (==_eq w.main_account a same)) ∙ missing in
              ground (arith, e, missing, here)
        ]
    | inr (pending, there) ↦
        let e = map_get-map_insert w.main_account a (pending ++ w ∷ []) m in
        elim (Bool-cases (w.main_account == a)) [
          | inr other ↦ ground (arith, e, there)
          | inl same ↦
              let here = ap (λ k. map_get k m) (sym (==_eq w.main_account a same)) ∙ there in
              ground (arith, e, there, here, append-step pending w (to_account a ws))
        ]
  ]

  tree_loop_lem :
      (ws : List (Withdrawal decimals)) (m : BTreeMap (List (Withdrawal decimals))) (a : ℕ)
      → map_get a (tree_loop r ws m) ≡ extend (map_get a m) (to_account a ws)
  unfolding tree_loop
  tree_loop_lem [] m a = sym (extend_nil (map_get a m))
  tree_loop_lem (w ∷ ws) m a = tree_loop_lem ws (add_to_tree r w m) a ∙ map_get-add_to_tree w m a ws

  -- The tree of a list of withdrawals holds for every account exactly the withdrawals to it, in
  -- their order, and no entry where there is none.
  pub map_get-create_withdrawal_tree :
      (ws : List (Withdrawal decimals)) (a : ℕ)
      → map_get a (create_withdrawal_tree r ws)
        ≡ (if is_empty (to_account a ws) then none else some (to_account a ws))
  unfolding create_withdrawal_tree map_get
  map_get-create_withdrawal_tree ws a = tree_loop_lem ws [] a
