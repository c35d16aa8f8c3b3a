-- ===== src/Ocex/Proxies/Links.antt =====
-- How a proxy joins an account, and how it leaves: the writes of the calls of pallets/ocex/src/lib.rs.
use polkadex_node.Prelude.{
  ℕ, ◌+◌, ◌≤◌, ◌<◌, ◌≡◌, sym, ap, ◌∙◌, subst, inl, inr, true, false, Option, none, some, List, [],
  ◌∷◌, ◌++◌, if◌then◌else◌, arith, Bool-cases, Option-cases, ◌==◌, ==_eq, update, contains,
  contains-append, Distinct, push-Distinct, length, length-append,
}
use polkadex_node.Ocex.Types.{AccountInfo}
use polkadex_node.Ocex.Accounts.{remove_first}
use polkadex_node.Ocex.Proxies.{AreLinked}

-- What is left of a list without one of its entries.
abbrev IsRest : ℕ → List ℕ → List ℕ → Type 0
IsRest a xs ys =
    (contains a xs ≡ true)
    × (length ys + 1 ≡ length xs)
    × Distinct ys
    × ((q : ℕ) → contains q ys ≡ (if a == q then false else contains q xs))

remove_first-IsRest :
    (a : ℕ) (xs ys : List ℕ) → Distinct xs → remove_first a xs ≡ some ys → IsRest a xs ys
unfolding remove_first
remove_first-IsRest a [] ys d h = absurd (ground (arith, h))
remove_first-IsRest a (x ∷ xs) ys (new, d) h = elim (Bool-cases (x == a)) [
  | inl same ↦
      let e : xs ≡ ys = ground (arith, h, same) in
      subst (IsRest a (x ∷ xs)) e (
        ground (arith, same),
        omega arith,
        d,
        λ q. elim (Bool-cases (x == q)) [
          | inl this ↦
              ground (arith, this, same, subst (λ k. contains k xs ≡ false) (==_eq x q this) new)
          | inr other ↦ ground (arith, other, same)
        ],
      )
  | inr other ↦ elim (Option-cases (remove_first a xs)) [
    | inl missing ↦ absurd (ground (arith, other, missing, h))
    | inr (zs, there) ↦
        let e : x ∷ zs ≡ ys = ground (arith, h, other, there) in
        let (listed, shorter, once, has) = remove_first-IsRest a xs zs d there in
        subst (IsRest a (x ∷ xs)) e (
          ground (arith, listed),
          omega (arith, shorter),
          (ground (arith, has x, new), once),
          λ q. ground (arith, has q, other),
        )
  ]
]

module _ (limit : ℕ) (accounts : ℕ → Option AccountInfo) (proxies : ℕ → Option ℕ)
    (linked : AreLinked limit accounts proxies) where
  abbrev IsOwn : ℕ → ℕ → ℕ → AccountInfo → Type 0
  IsOwn main proxy m info =
      (info.main_account ≡ m)
      × (0 < length info.proxies)
      × (length info.proxies ≤ limit)
      × Distinct info.proxies
      × ((q : ℕ) → contains q info.proxies ≡ true → update proxies proxy (some main) q ≡ some m)

  abbrev IsLeft : ℕ → ℕ → AccountInfo → Type 0
  IsLeft proxy m info =
      (info.main_account ≡ m)
      × (0 < length info.proxies)
      × (length info.proxies ≤ limit)
      × Distinct info.proxies
      × ((q : ℕ) → contains q info.proxies ≡ true → update proxies proxy none q ≡ some m)

  -- A free proxy joins the list of an account, which may be new.
  pub join-AreLinked :
      (main proxy : ℕ) (old : List ℕ)
      → ((info : AccountInfo) → accounts main ≡ some info → info.proxies ≡ old)
      → Distinct old
      → ((q : ℕ) → contains q old ≡ true → proxies q ≡ some main)
      → proxies proxy ≡ none
      → length old < limit
      → AreLinked limit
          (update accounts main
            (some (record { main_account = main; proxies = old ++ proxy ∷ [] })))
          (update proxies proxy (some main))
  join-AreLinked main proxy old known distinct owns free room =
      let joined : AccountInfo = record { main_account = main; proxies = old ++ proxy ∷ [] } in
      let fresh : contains proxy old ≡ false = elim (Bool-cases (contains proxy old)) [
        | inl there ↦ absurd (ground (arith, owns proxy there, free))
        | inr absent ↦ absent
      ] in
      (
        λ q m at. elim (Bool-cases (proxy == q)) [
          | inl same ↦ (
            joined,
            ground (arith, at, same),
            ground (arith, same, contains-append q old (proxy ∷ [])),
          )
          | inr other ↦
              let (info, found, listed) = linked.0 q m (ground (arith, at, other)) in
              elim (Bool-cases (main == m)) [
                | inl same ↦
                    let e = known info (ap accounts (==_eq main m same) ∙ found) in
                    let there = subst (λ l. contains q l ≡ true) e listed in
                    (
                      joined,
                      ground (arith, same),
                      ground (arith, there, contains-append q old (proxy ∷ [])),
                    )
                | inr else_where ↦ (info, ground (arith, found, else_where), listed)
              ]
        ],
        λ m info at. elim (Bool-cases (main == m)) [
          | inl same ↦
              let e : joined ≡ info = ground (arith, at, same) in
              subst (IsOwn main proxy m) e (
                ==_eq main m same,
                omega (arith, length-append old (proxy ∷ [])),
                omega (arith, length-append old (proxy ∷ []), room),
                push-Distinct proxy old fresh distinct,
                λ q there. elim (Bool-cases (proxy == q)) [
                  | inl this ↦ ground (arith, this, same)
                  | inr other ↦
                      let listed = contains-append q old (proxy ∷ []) in
                      ground (arith, other, same, owns q (ground (arith, there, listed, other)))
                ],
              )
          | inr other ↦
              let (named, some_proxy, few, once, owned) =
                linked.1 m info (ground (arith, at, other)) in
              (
                named,
                some_proxy,
                few,
                once,
                λ q there. elim (Bool-cases (proxy == q)) [
                  | inl this ↦
                      absurd (ground (arith, free, ap proxies (==_eq proxy q this), owned q there))
                  | inr not_this ↦ ground (arith, not_this, owned q there)
                ],
              )
        ],
      )

  -- A proxy leaves the list of its account, which keeps another one.
  pub leave-AreLinked :
      (main proxy : ℕ) (info : AccountInfo) (rest : List ℕ)
      → accounts main ≡ some info
      → 1 < length info.proxies
      → remove_first proxy info.proxies ≡ some rest
      → AreLinked limit
          (update accounts main (some (record info { proxies = rest })))
          (update proxies proxy none)
  leave-AreLinked main proxy info rest found two left =
      let (named, _, few, once, owned) = linked.1 main info found in
      let (there, shorter, once', rest_has) =
        remove_first-IsRest proxy info.proxies rest once left in
      let left_info : AccountInfo = record info { proxies = rest } in
      let owner = owned proxy there in
      (
        λ q m at. elim (Bool-cases (proxy == q)) [
          | inl same ↦ absurd (ground (arith, at, same))
          | inr other ↦
              let (info', found', listed) = linked.0 q m (ground (arith, at, other)) in
              elim (Bool-cases (main == m)) [
                | inl same ↦
                    let e : info' ≡ info =
                      ground (arith, sym found' ∙ ap accounts (sym (==_eq main m same)) ∙ found) in
                    let listed' = subst (λ i. contains q i.proxies ≡ true) e listed in
                    (left_info, ground (arith, same), ground (arith, rest_has q, other, listed'))
                | inr else_where ↦ (info', ground (arith, found', else_where), listed)
              ]
        ],
        λ m info' at. elim (Bool-cases (main == m)) [
          | inl same ↦
              let e : left_info ≡ info' = ground (arith, at, same) in
              subst (IsLeft proxy m) e (
                named ∙ ==_eq main m same,
                omega (arith, shorter, two),
                omega (arith, shorter, few),
                once',
                λ q listed. ground (arith, rest_has q, listed, owned q, same),
              )
          | inr other ↦
              let (named', some_proxy, few', once'', owned') =
                linked.1 m info' (ground (arith, at, other)) in
              (
                named',
                some_proxy,
                few',
                once'',
                λ q listed. elim (Bool-cases (proxy == q)) [
                  | inl this ↦ absurd (
                      ground
                        (arith, owner, ap proxies (==_eq proxy q this), owned' q listed, other))
                  | inr not_this ↦ ground (arith, not_this, owned' q listed)
                ],
              )
        ],
      )
