-- ===== src/Frame.antt =====
-- What every pallet takes from the FRAME runtime: calls that read and write storage and may fail,
-- the storage layer of `#[transactional]`, and the origin of a call.
use polkadex_node.Prelude.{
  ℕ, Bool, true, Bool-cases, Option-cases, ◌≡◌, refl, ◌⊎◌, inl, inr, arith, Option, none, some,
  if◌then◌else◌,
}

-- `Result<A, E>`
pub data Result (E A : Type 0) : Type 0 where
  ok : A → Result E A
  err : E → Result E A

pub Result-cases :
    {E A : Type 0} (r : Result E A) → ((a : A) × (r ≡ ok a)) ⊎ ((e : E) × (r ≡ err e))
Result-cases (ok a) = inl (a, refl)
Result-cases (err e) = inr (e, refl)

-- A function over the storage `S`. The storage comes back after an error too, as the writes
-- before it are not undone by the function itself.
abbrev pub Action : Type 0 → Type 0 → Type 0 → Type 0
Action S E A = S → Result E A × S

module _ {S E : Type 0} where
  abbrev pub pure : {A : Type 0} → A → Action S E A
  pure a s = (ok a, s)

  abbrev pub raise : {A : Type 0} → E → Action S E A
  raise e s = (err e, s)

  abbrev pub gets : {A : Type 0} → (S → A) → Action S E A
  gets f s = (ok (f s), s)

  abbrev pub modify : (S → S) → Action S E (Unit {0})
  modify f s = (ok tt, f s)

  -- `ensure!(condition, error)`
  abbrev pub ensure : Bool → E → Action S E (Unit {0})
  ensure c e s = (if c then ok tt else err e, s)

  -- `read.ok_or(error)?`
  abbrev pub get_or_raise : {A : Type 0} → (S → Option A) → E → Action S E A
  get_or_raise f e s = elim (f s) [ none ↦ (err e, s) | some a ↦ (ok a, s) ]

  infixl 5 ◌>>=◌ ◌>>◌
  abbrev pub ◌>>=◌ : {A B : Type 0} → Action S E A → (A → Action S E B) → Action S E B
  ◌>>=◌ m f s = let (r, s') = m s in elim r [ ok a ↦ f a s' | err e ↦ (err e, s') ]

  abbrev pub ◌>>◌ : {A B : Type 0} → Action S E A → Action S E B → Action S E B
  m >> k = m >>= λ _. k

  -- `#[transactional]`: an error undoes the writes.
  abbrev pub transactional : {A : Type 0} → Action S E A → Action S E A
  transactional m s = let (r, s') = m s in elim r [ ok a ↦ (ok a, s') | err e ↦ (err e, s) ]

-- A sequence succeeds where both parts do.
pub bind_ok :
    {S E A B : Type 0} (m : Action S E A) (f : A → Action S E B) (s s' : S) (b : B)
    → (m >>= f) s ≡ (ok b, s')
    → (a : A) × (s₁ : S) × (m s ≡ (ok a, s₁)) × (f a s₁ ≡ (ok b, s'))
bind_ok m f s s' b h = elim (Result-cases (m s).0) [
  | inl (a, done) ↦ (a, (m s).1, ground (arith, done), ground (arith, done, h))
  | inr (e, failed) ↦ absurd (ground (arith, failed, h))
]

pub ensure_ok :
    {S E : Type 0} (c : Bool) (e : E) (s s' : S) (u : Unit {0})
    → ensure c e s ≡ (ok u, s')
    → (c ≡ true) × (s' ≡ s)
ensure_ok c e s s' u h = elim (Bool-cases c) [
  | inl held ↦ (held, ground (arith, held, h))
  | inr fails ↦ absurd (ground (arith, fails, h))
]

pub get_or_raise_ok :
    {S E A : Type 0} (f : S → Option A) (e : E) (s s' : S) (a : A)
    → get_or_raise f e s ≡ (ok a, s')
    → (f s ≡ some a) × (s' ≡ s)
get_or_raise_ok f e s s' a h = elim (Option-cases (f s)) [
  | inl missing ↦ absurd (ground (arith, missing, h))
  | inr (a', found) ↦ (ground (arith, found, h), ground (arith, found, h))
]

-- A transactional call succeeds as its body does, or leaves the storage as it was.
pub transactional-cases :
    {S E A : Type 0} (m : Action S E A) (s : S)
    → ((a : A) × (s' : S) × (m s ≡ (ok a, s')) × (transactional m s ≡ (ok a, s')))
      ⊎ ((e : E) × ((m s).0 ≡ err e) × (transactional m s ≡ (err e, s)))
transactional-cases m s = elim (Result-cases (m s).0) [
  | inl (a, done) ↦ inl (a, (m s).1, ground (arith, done), ground (arith, done))
  | inr (e, failed) ↦ inr (e, failed, ground (arith, failed))
]

-- Who sends a call: `RawOrigin`.
pub data Origin : Type 0 where
  root : Origin
  signed : ℕ → Origin
  unsigned : Origin

-- `ensure_root`, `ensure_signed` and `ensure_none`, with the error that they raise.
module _ {S E : Type 0} (bad_origin : E) where
  abbrev pub ensure_root : Origin → Action S E (Unit {0})
  ensure_root root = pure tt
  ensure_root (signed who) = raise bad_origin
  ensure_root unsigned = raise bad_origin

  abbrev pub ensure_signed : Origin → Action S E ℕ
  ensure_signed root = raise bad_origin
  ensure_signed (signed who) = pure who
  ensure_signed unsigned = raise bad_origin

  abbrev pub ensure_none : Origin → Action S E (Unit {0})
  ensure_none root = raise bad_origin
  ensure_none (signed who) = raise bad_origin
  ensure_none unsigned = pure tt
