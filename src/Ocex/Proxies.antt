-- ===== src/Ocex/Proxies.antt =====
-- The accounts and the proxies of pallets/ocex/src/lib.rs agree with each other.
pub mod Links
pub mod Writes
pub mod Run
use polkadex_node.Prelude.{
  ℕ, ◌+◌, ◌≤◌, ◌<◌, ◌≡◌, Bool, true, false, Option, none, some, List, [], ◌∷◌, contains, Distinct,
  length,
}
use polkadex_node.Ocex.Types.{AccountInfo}

-- Every proxy belongs to a registered account that lists it, and every account, under its own name,
-- lists one proxy at least and not more than the limit, none twice, and all of them belong to it.
abbrev pub AreLinked : ℕ → (ℕ → Option AccountInfo) → (ℕ → Option ℕ) → Type 0
AreLinked limit accounts proxies =
    ((proxy main : ℕ)
      → proxies proxy ≡ some main
      → (info : AccountInfo) × (accounts main ≡ some info) × (contains proxy info.proxies ≡ true))
    × ((main : ℕ) (info : AccountInfo)
        → accounts main ≡ some info
        → (info.main_account ≡ main)
          × (0 < length info.proxies)
          × (length info.proxies ≤ limit)
          × Distinct info.proxies
          × ((proxy : ℕ) → contains proxy info.proxies ≡ true → proxies proxy ≡ some main))
