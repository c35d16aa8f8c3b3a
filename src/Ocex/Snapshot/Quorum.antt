-- ===== src/Ocex/Snapshot/Quorum.antt =====
-- What a snapshot that `validate_snapshot` of pallets/ocex/src/lib.rs accepts has: the signatures of
-- a quorum of the active authorities.
use polkadex_node.Prelude.{
  ℕ, ◌+◌, ◌*◌, ◌%◌, ◌≤◌, ◌<◌, ◌≡◌, ◌↔◌, refl, inl, inr, true, false, some, List, [], ◌∷◌, map,
  arith, contains, Distinct, length, is_empty, get_elem?, set_insert, contains-set_insert, u64_mod,
  u32_mod, saturating_add, Bool-cases, Option-cases,
}
use polkadex_node.Frame.{Result-cases, ok}
use polkadex_node.Ocex.Types.{Runtime, State, SnapshotSummary}
use polkadex_node.Ocex.Snapshot.{
  ValidTransaction, check_signatures, required_signatures, validate_snapshot,
}

module _ (r : Runtime) where
  open r use {decimals, Ledger, withdrawal_limit, percent_of, encode_summary, verify}

  -- Each entry of a list is an index of an authority with a signature by it.
  abbrev pub AreSigned : List ℕ → List ℕ → List (ℕ × ℕ) → Type 0
  AreSigned authorities payload [] = Unit
  AreSigned authorities payload ((index, signature) ∷ rest) =
      ((auth : ℕ) × (get_elem? authorities index ≡ some auth)
        × (verify auth payload signature ≡ true))
      × AreSigned authorities payload rest

  -- No index twice, and none of those seen before.
  abbrev pub AreFresh : List ℕ → List (ℕ × ℕ) → Type 0
  AreFresh seen [] = Unit
  AreFresh seen ((index, signature) ∷ rest) =
      (contains index seen ≡ false) × AreFresh (set_insert index seen) rest

  check_signatures_sound :
      (authorities payload seen : List ℕ) (signatures : List (ℕ × ℕ))
      → check_signatures r authorities payload seen signatures ≡ ok tt
      → AreSigned authorities payload signatures × AreFresh seen signatures
  unfolding check_signatures
  check_signatures_sound authorities payload seen [] h = (tt, tt)
  check_signatures_sound authorities payload seen ((index, signature) ∷ rest) h =
      elim (Bool-cases (contains index seen)) [
        | inl repeated ↦ absurd (ground (arith, repeated, h))
        | inr fresh ↦ elim (Option-cases (get_elem? authorities index)) [
          | inl missing ↦ absurd (ground (arith, fresh, missing, h))
          | inr (auth, found) ↦ elim (Bool-cases (verify auth payload signature)) [
            | inr wrong ↦ absurd (ground (arith, fresh, found, wrong, h))
            | inl right ↦
                let (signed, rest_fresh) =
                  check_signatures_sound authorities payload (set_insert index seen) rest
                    (ground (arith, fresh, found, right, h)) in
                (((auth, found, right), signed), (fresh, rest_fresh))
          ]
        ]
      ]

  check_signatures_complete :
      (authorities payload seen : List ℕ) (signatures : List (ℕ × ℕ))
      → AreSigned authorities payload signatures
      → AreFresh seen signatures
      → check_signatures r authorities payload seen signatures ≡ ok tt
  unfolding check_signatures
  check_signatures_complete authorities payload seen [] a f = refl
  check_signatures_complete authorities payload seen ((index, signature) ∷ rest)
        ((auth, found, right), signed) (fresh, rest_fresh) =
      let tail =
        check_signatures_complete authorities payload (set_insert index seen) rest signed
          rest_fresh in
      ground (arith, fresh, found, right, tail)

  -- The indices of a list without repetition are distinct and were not seen before.
  AreFresh-unseen :
      (seen : List ℕ) (signatures : List (ℕ × ℕ)) (j : ℕ)
      → AreFresh seen signatures
      → contains j seen ≡ true
      → contains j (map (λ e. e.0) signatures) ≡ false
  AreFresh-unseen seen [] j f h = refl
  AreFresh-unseen seen ((index, signature) ∷ rest) j (fresh, f) h =
      let later =
        AreFresh-unseen (set_insert index seen) rest j f
          (ground (arith, contains-set_insert index j seen, h)) in
      ground (arith, later, fresh, h)

  AreFresh-Distinct :
      (seen : List ℕ) (signatures : List (ℕ × ℕ))
      → AreFresh seen signatures
      → Distinct (map (λ e. e.0) signatures)
  AreFresh-Distinct seen [] f = tt
  AreFresh-Distinct seen ((index, signature) ∷ rest) (fresh, f) = (
    AreFresh-unseen (set_insert index seen) rest index f
        (ground (arith, contains-set_insert index index seen)),
    AreFresh-Distinct (set_insert index seen) rest f,
  )

  Distinct-AreFresh :
      (seen : List ℕ) (signatures : List (ℕ × ℕ))
      → Distinct (map (λ e. e.0) signatures)
      → ((j : ℕ) → contains j (map (λ e. e.0) signatures) ≡ true → contains j seen ≡ false)
      → AreFresh seen signatures
  Distinct-AreFresh seen [] d new = tt
  Distinct-AreFresh seen ((index, signature) ∷ rest) (once, d) new = (
    ground (arith, new index),
    Distinct-AreFresh (set_insert index seen) rest d
        (λ j there. ground (arith, new j, there, once, contains-set_insert index j seen)),
  )

  -- The checks of a snapshot before its signatures.
  abbrev pub IsNext : SnapshotSummary decimals → State decimals Ledger → Type 0
  IsNext summary s =
      (saturating_add u64_mod s.snapshot_nonce 1 ≡ summary.snapshot_id)
      × (length summary.withdrawals % u32_mod ≤ withdrawal_limit)
      × (summary.validator_set_id ≡ s.validator_set_id)

  -- The active authorities.
  abbrev pub active : State decimals Ledger → List ℕ
  active s = (s.authorities s.validator_set_id).validators

  is_empty-length : (authorities : List ℕ) → is_empty authorities ≡ false → 0 < length authorities
  is_empty-length [] h = absurd (ground (arith, h))
  is_empty-length (a ∷ rest) h = omega arith

  length-is_empty : (authorities : List ℕ) → 0 < length authorities → is_empty authorities ≡ false
  length-is_empty [] h = absurd (omega (arith, h))
  length-is_empty (a ∷ rest) h = refl

  -- The tests that an accepted snapshot has passed.
  passed :
      (summary : SnapshotSummary decimals) (signatures : List (ℕ × ℕ)) (s : State decimals Ledger)
      (v : ValidTransaction)
      → validate_snapshot r summary signatures s ≡ ok v
      → IsNext summary s
        × (is_empty (active s) ≡ false)
        × (required_signatures r (active s) ≤ length signatures)
        × (check_signatures r (active s) (encode_summary summary) [] signatures ≡ ok tt)
  unfolding validate_snapshot
  passed summary signatures s v h = elim (Bool-cases (is_empty (active s))) [
    | inl empty ↦ absurd (ground (arith, empty, h))
    | inr full ↦
        elim (Result-cases (check_signatures r (active s) (encode_summary summary) [] signatures)) [
          | inr (e, wrong) ↦ absurd (ground (arith, full, wrong, h))
          | inl (_, right) ↦ (
            (
              ground (arith, full, right, h),
              ground (arith, full, right, h),
              ground (arith, full, right, h),
            ),
            full,
            ground (arith, full, right, h),
            right,
          )
        ]
  ]

  -- A snapshot is accepted exactly when it is the next one, keeps to the limit of withdrawals, names
  -- the active set of authorities, which is not empty, and carries the required number of entries,
  -- each one a signature of the summary by the active authority at its index, no index twice.
  pub validate_snapshot_iff :
      (summary : SnapshotSummary decimals) (signatures : List (ℕ × ℕ)) (s : State decimals Ledger)
      → (validate_snapshot r summary signatures s
          ≡ ok (record { provides = summary.state_hash; longevity = 10; propagate = true }))
        ↔ (IsNext summary s
            × (0 < length (active s))
            × (required_signatures r (active s) ≤ length signatures)
            × AreSigned (active s) (encode_summary summary) signatures
            × Distinct (map (λ e. e.0) signatures))
  unfolding validate_snapshot
  validate_snapshot_iff summary signatures s = (
    λ h.
        let (next, full, enough, checked) = passed summary signatures s _ h in
        let (signed, fresh) =
          check_signatures_sound (active s) (encode_summary summary) [] signatures checked in
        (
          next,
          is_empty-length (active s) full,
          enough,
          signed,
          AreFresh-Distinct [] signatures fresh,
        ),
    λ (next, some_active, enough, signed, once).
        let full = length-is_empty (active s) some_active in
        let right =
          check_signatures_complete (active s) (encode_summary summary) [] signatures signed
            (Distinct-AreFresh [] signatures once (λ j _. refl)) in
        ground (arith, next, full, enough, right),
  )

  -- What is accepted for settlement carries valid signatures of the summary by at least half of the
  -- active authorities, counted by distinct indices, and by one at the least, where 51 percent of a
  -- number is rounded to a nearest whole.
  pub accepted_snapshot_has_quorum :
      (nearest : (n : ℕ) → 51 * n ≤ 100 * percent_of 51 n + 50) (summary : SnapshotSummary decimals)
      (signatures : List (ℕ × ℕ)) (s : State decimals Ledger) (v : ValidTransaction)
      → validate_snapshot r summary signatures s ≡ ok v
      → (summary.validator_set_id ≡ s.validator_set_id)
        × (summary.snapshot_id ≡ saturating_add u64_mod s.snapshot_nonce 1)
        × AreSigned (active s) (encode_summary summary) signatures
        × Distinct (map (λ e. e.0) signatures)
        × (length (active s) ≤ 2 * length signatures)
        × (0 < length signatures)
  unfolding required_signatures
  accepted_snapshot_has_quorum nearest summary signatures s v h =
      let (next, full, enough, checked) = passed summary signatures s v h in
      let (signed, fresh) =
        check_signatures_sound (active s) (encode_summary summary) [] signatures checked in
      (
        next.2,
        omega (arith, next.0),
        signed,
        AreFresh-Distinct [] signatures fresh,
        omega (arith, enough, nearest (length (active s))),
        omega (arith, enough),
      )
