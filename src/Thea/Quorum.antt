-- ===== src/Thea/Quorum.antt =====
-- Whose signatures finalise an outgoing message: the submissions that the transaction pool accepts
-- (`validate_signed_outgoing_message` and `submit_signed_outgoing_messages` of
-- pallets/thea/src/lib.rs).
use polkadex_node.Prelude.{
  ℕ, ◌≡◌, ◌≢◌, refl, sym, ap, ◌∙◌, ◌⊎◌, inl, inr, List, [], ◌∷◌, Option, some, arith, ◌==◌, ◌&&◌,
  subst, length, get_elem?, Bool-cases, false, ==_iff,
}
use polkadex_node.Frame.{unsigned}
use polkadex_node.Thea.Types.{Message, SignedMessage, State, Runtime, valid}
use polkadex_node.Thea.Signed.{IsSupermajority}
use polkadex_node.Thea.Outgoing.{
  store_signature, submit_loop, submit_signed_outgoing_messages, validate_signed_outgoing_message,
}
use polkadex_node.Thea.Finality.{
  store-outgoing, submit_loop-cons, submit_loop-IsSound, submit_signed-cases,
}
use polkadex_node.Thea.Validation.{AllChecked, accepted_is_checked, accepted_succeeds}
use polkadex_node.Thea.Genuine.{
  HasSigned, AreGenuine, IsGenuine, entry, store-entry, entry-set, entry-AreGenuine,
}

-- Two slots are the same, or a test tells them apart.
slot-cases : (at nonce n k : ℕ) → ((at ≡ n) × (nonce ≡ k)) ⊎ (((at == n) && (nonce == k)) ≡ false)
slot-cases at nonce n k = elim (Bool-cases ((at == n) && (nonce == k))) [
  | inl here ↦ inl (ground (arith, here), ground (arith, here))
  | inr away ↦ inr away
]

module _ (r : Runtime) where
  open r use {Ledger, verify}

  -- The entry of a message after a submission to a state: genuine signatures of more than two thirds
  -- of the active set, for this set or as they were stored before for another.
  abbrev pub HasQuorum : State Ledger → ℕ → ℕ → State Ledger → Type 0
  HasQuorum s network nonce s' =
      (m : SignedMessage) × (s'.signed_outgoing_messages network nonce ≡ some m)
      × AreGenuine r s.authorities m
      × IsSupermajority (length (s.authorities s.validator_set_id)) m
      × ((m.validator_set_id ≡ s.validator_set_id)
          ⊎ ((m.validator_set_id ≢ s.validator_set_id)
              × (s.signed_outgoing_messages network nonce ≡ some m)))

  -- Every entry is genuine, and one that names a set other than this one is as it was at the start.
  abbrev Kept : (ℕ → List ℕ) → ℕ → State Ledger → State Ledger → Type 0
  Kept authorities id start s =
      (n k : ℕ) (m : SignedMessage)
      → s.signed_outgoing_messages n k ≡ some m
      → AreGenuine r authorities m
        × (m.validator_set_id ≢ id → start.signed_outgoing_messages n k ≡ some m)

  store-Kept :
      (authorities : ℕ → List ℕ) (auth_len id auth_index at nonce signature : ℕ) (message : Message)
      (o : Option SignedMessage) (start s : State Ledger)
      → HasSigned r (authorities id) message auth_index signature
      → s.signed_outgoing_messages at nonce ≡ o
      → Kept authorities id start s
      → Kept authorities id start
          (store_signature r auth_len id auth_index at nonce signature message o s)
  store-Kept authorities auth_len id auth_index at nonce signature message o start s has e kept n k
        m h =
      let new = entry r message id auth_index signature o in
      let after =
        sym (ap (λ f. f n k) (store-entry r auth_len id auth_index at nonce signature message o s))
        ∙ h in
      elim (slot-cases at nonce n k) [
        | inr away ↦ kept n k m (ground (arith, after, away))
        | inl (here, here') ↦
            let same : new ≡ m = ground (arith, after, here, here') in
            let genuine =
              entry-AreGenuine r authorities message id auth_index signature at nonce o s has
                (λ n' k' m' h'. (kept n' k' m' h').0) e in
            (
              subst (AreGenuine r authorities) same genuine,
              λ other. elim (entry-set r message id auth_index signature o) [
                | inl active ↦
                    absurd
                      (other (ap (λ (x : SignedMessage). x.validator_set_id) (sym same) ∙ active))
                | inr before ↦
                    (kept n k m (
                        ap (λ a. s.signed_outgoing_messages a k) (sym here)
                        ∙ ap (λ b. s.signed_outgoing_messages at b) (sym here')
                        ∙ e
                        ∙ before
                        ∙ ap (λ x. some x) same)).1
                      other
              ],
            )
      ]

  submit_loop-Kept :
      (authorities : ℕ → List ℕ) (auth_len id auth_index signer : ℕ) (signatures : List (ℕ × ℕ × ℕ))
      (start s : State Ledger)
      → get_elem? (authorities id) auth_index ≡ some signer
      → s.outgoing_messages ≡ start.outgoing_messages
      → AllChecked r auth_index signer signatures start
      → Kept authorities id start s
      → Kept authorities id start (submit_loop r auth_len id auth_index signatures s).1
  submit_loop-Kept authorities auth_len id auth_index signer [] start s found same checked kept =
      unfold submit_loop in kept
  submit_loop-Kept authorities auth_len id auth_index signer ((at, nonce, signature) ∷ rest) start s
        found same ((_, _, (message, there, genuine)), checked) kept =
      let there₁ : s.outgoing_messages at nonce ≡ some message = rw same there in
      let o = s.signed_outgoing_messages at nonce in
      rw (submit_loop-cons r auth_len id auth_index at nonce signature rest message s there₁) (
        submit_loop-Kept authorities auth_len id auth_index signer rest start
          (store_signature r auth_len id auth_index at nonce signature message o s) found
          (store-outgoing r auth_len id auth_index at nonce signature message o s ∙ same) checked
          (store-Kept authorities auth_len id auth_index at nonce signature message o start s
            (signer, found, genuine) refl kept))

  -- Where all stored signatures are genuine signatures of authorities, by distinct indices, of the
  -- set that their entry names, they are so after every submission that the pool accepts in the state
  -- in which it is executed; and the finalised nonce of a network is as before, or the entry of the
  -- message that it then names has such signatures, by their number strictly more than two thirds of
  -- the size of the active set. That entry names the active set, or it names another set and was
  -- stored before, with the same signatures.
  pub finality_needs_supermajority :
      (auth_index id : ℕ) (signatures : List (ℕ × ℕ × ℕ)) (network : ℕ) (s : State Ledger)
      → IsGenuine r s.authorities s
      → validate_signed_outgoing_message r auth_index id signatures s ≡ valid
      → let s' = (submit_signed_outgoing_messages r unsigned auth_index id signatures s).1 in
        IsGenuine r s.authorities s'
        × ((s'.signed_outgoing_nonce network ≡ s.signed_outgoing_nonce network)
            ⊎ HasQuorum s network (s'.signed_outgoing_nonce network) s')
  finality_needs_supermajority auth_index id signatures network s genuine accepted =
      let (active, _, (signer, found, checked)) =
        accepted_is_checked r auth_index id signatures s accepted in
      elim (submit_signed-cases r unsigned auth_index id signatures s) [
        | inl (e, failed) ↦
            absurd (ground (arith, failed, accepted_succeeds r auth_index id signatures s accepted))
        | inr (_, _, _, done) ↦
            let auth_len = length (s.authorities s.validator_set_id) in
            let s₁ = (submit_loop r auth_len id auth_index signatures s).1 in
            let kept =
              submit_loop-Kept s.authorities auth_len id auth_index signer signatures s s
                (ap (λ i. get_elem? (s.authorities i) auth_index) active ∙ found) refl checked
                (λ n k m h. (genuine n k m h, λ other. h)) in
            rw done (
              λ n k m h. (kept n k m h).0,
              elim (submit_loop-IsSound r auth_len id auth_index network
                  (s.signed_outgoing_nonce network) signatures s (inl refl)) [
                    | inl same ↦ inl same
                    | inr (m, there, quorum) ↦
                        let (all, before) =
                          kept network (s₁.signed_outgoing_nonce network) m there in
                        inr (
                          m,
                          there,
                          all,
                          quorum,
                          elim (Bool-cases (m.validator_set_id == s.validator_set_id)) [
                            | inl now ↦ inl ((==_iff m.validator_set_id s.validator_set_id).0 now)
                            | inr past ↦
                                let other : m.validator_set_id ≢ s.validator_set_id =
                                  ground (arith, past) in
                                inr (other, before (λ same. other (same ∙ active)))
                          ],
                        )
                  ],
            )
      ]
