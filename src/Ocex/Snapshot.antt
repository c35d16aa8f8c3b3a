-- ===== src/Ocex/Snapshot.antt =====
-- `validate_snapshot` of pallets/ocex/src/lib.rs: the gate in front of the unsigned settlement.
pub mod Quorum
use polkadex_node.Prelude.{
  ℕ, ◌+◌, ◌*◌, ◌^◌, ◌%◌, ◌≤◌, ◌<◌, ◌≡◌, ◌↔◌, refl, ◌⊎◌, inl, inr, max, Bool, true, false, not,
  Option, none, some, List, [], ◌∷◌, map, arith, ltb, ◌==◌, if◌then◌else◌, contains, Distinct,
  length, is_empty, get_elem?, set_insert, contains-set_insert, u64_mod, u32_mod, saturating_add,
  Bool-cases, Option-cases,
}
use polkadex_node.Frame.{Result, ok, err}
use polkadex_node.Ocex.Types.{Runtime, State, ValidatorSet, SnapshotSummary}

-- `ValidTransaction::with_tag_prefix("orderbook")` with one tag, for this longevity.
pub record ValidTransaction : Type 0 where
  pub provides : ℕ
  pub longevity : ℕ
  pub propagate : Bool

module _ (r : Runtime) where
  open r use {decimals, Ledger, withdrawal_limit, percent_of, encode_summary, verify}

  -- The loop over the signatures, with the indices seen so far. An error is the number of
  -- `InvalidTransaction::Custom`.
  unfoldable pub check_signatures : List ℕ → List ℕ → List ℕ → List (ℕ × ℕ) → Result ℕ (Unit {0})
  check_signatures authorities payload seen [] = ok tt
  check_signatures authorities payload seen ((index, signature) ∷ rest) =
      if contains index seen then err 16 else elim (get_elem? authorities index) [
        | none ↦ err 12
        | some auth ↦
            if not (verify auth payload signature)
            then err 12
            else check_signatures authorities payload (set_insert index seen) rest
      ]

  -- `max(Percent::from_percent(51) * authorities.len(), 1)`
  unfoldable pub required_signatures : List ℕ → ℕ
  required_signatures authorities = max (percent_of 51 (length authorities)) 1

  unfoldable pub validate_snapshot :
      SnapshotSummary decimals → List (ℕ × ℕ) → State decimals Ledger → Result ℕ ValidTransaction
  validate_snapshot summary signatures s =
      let authorities = (s.authorities s.validator_set_id).validators in
      if not (saturating_add u64_mod s.snapshot_nonce 1 == summary.snapshot_id)
      then err 10
      else if ltb withdrawal_limit (length summary.withdrawals % u32_mod)
      then err 13
      else if not (summary.validator_set_id == s.validator_set_id)
      then err 14
      else if is_empty authorities
      then err 15
      else if ltb (length signatures) (required_signatures authorities)
      then err 11
      else elim (check_signatures authorities (encode_summary summary) [] signatures) [
        | err e ↦ err e
        | ok _ ↦ ok (record { provides = summary.state_hash; longevity = 10; propagate = true })
      ]
