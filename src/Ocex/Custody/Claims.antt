-- ===== src/Ocex/Custody/Claims.antt =====
-- The claims of the withdrawals that are stored: `claim_withdraw` of pallets/ocex/src/lib.rs.
use polkadex_node.Prelude.{
  ℕ, ◌≡◌, Option, none, some, List, [], if◌then◌else◌, is_empty, BTreeMap, map_get,
}
use polkadex_node.Ocex.Types.{Runtime, State, Withdrawal}
use polkadex_node.Ocex.Custody.{put_back, announce}

module _ (r : Runtime) where
  open r use {decimals, Ledger}

  abbrev list_of : Option (List (Withdrawal decimals)) → List (Withdrawal decimals)
  list_of none = []
  list_of (some ws) = ws

  -- The entry of an account in what is stored for a snapshot.
  abbrev pub entry_of :
      Option (BTreeMap (List (Withdrawal decimals))) → ℕ → List (Withdrawal decimals)
  entry_of none account = []
  entry_of (some m) account = list_of (map_get account m)

  -- What is stored for an account under a snapshot.
  abbrev pub owed : State decimals Ledger → ℕ → ℕ → List (Withdrawal decimals)
  owed s id account = entry_of (s.withdrawals id) account

  -- What a claim writes for its snapshot.
  abbrev left_over :
      ℕ
      → List (Withdrawal decimals)
      → BTreeMap (List (Withdrawal decimals))
      → Option (BTreeMap (List (Withdrawal decimals)))
  left_over account failed m =
      let m' = put_back r account failed m in if is_empty m' then none else some m'

  -- All but the withdrawals is what the payments leave, with the event of what was paid.
  abbrev pub IsPaid :
      ℕ
      → ℕ
      → (List (Withdrawal decimals) × List (Withdrawal decimals)) × State decimals Ledger
      → State decimals Ledger
      → Type 0
  IsPaid id account ((failed, processed), paid) s' =
      s' ≡ record (announce r id account processed paid) { withdrawals = s'.withdrawals }
