-- ===== src/Thea/Tests.antt =====
-- Runs of the Thea pallet over the sample runtime.
use polkadex_node.Prelude.{
  inl, inr, Bool-cases, subst, keys, map_get, contains_key, set_eq, set_from, set_insert, ◌&&◌,
  if◌then◌else◌, ◌==◌, ℕ, ◌≡◌, ◌⊎◌, refl, List, [], ◌∷◌, some, none, false, arith, is_empty,
  get_elem?,
}
use polkadex_node.Frame.{ok, root, signed, unsigned}
use polkadex_node.Thea.Types.{State, SignedMessage, valid, custom, l1_deposit}
use polkadex_node.Thea.Outgoing.{
  submit_signed_outgoing_messages, validate_signed_outgoing_message, validate_loop,
  send_thea_message, already_signed,
}
use polkadex_node.Thea.Incoming.{
  submit_incoming_message, place, on_ledger, report_misbehaviour, report_taken, handle_misbehaviour,
  judge, on_initialize,
}
use polkadex_node.Thea.Dispatch.{
  Request, sends, starts_session, starts_block, updates_outgoing, run,
}
use polkadex_node.Thea.Genuine.{AreGenuine, IsGenuine}
use polkadex_node.Thea.Quorum.{HasQuorum, finality_needs_supermajority}
use polkadex_node.Thea.Signed.{contains_signature}
use polkadex_node.Thea.Validation.{accepted_is_checked, AllChecked, accepted_succeeds}
use polkadex_node.Thea.FirstSignature.{first_signature_lem}
use polkadex_node.Thea.Execution.{released, early_message_lost, due_message_settled}
use polkadex_node.Thea.Stakes.{replacement_moves_stakes}
use polkadex_node.Thea.Filed.{rejected_report_restores}
use polkadex_node.Thea.Nonces.{IsFresh, outgoing_message_is_final, sent_message_stays}
use polkadex_node.Thea.Session.{schedule_change, change_authorities}
use polkadex_node.Thea.Rotation.{IsReset, rotation_installs, rotation_resets_pending}
use polkadex_node.Thea.Decimals.{
  convert_to_native_decimals, convert_from_native_decimals, native_roundtrip,
}
use polkadex_node.Thea.Sample.{Vault, vault_runtime, vault_laws, note, waiting, bridge}

bridge-IsFresh : IsFresh vault_runtime bridge
bridge-IsFresh network nonce = ground arith

-- The first authority has signed the outgoing message.
abbrev once_signed : SignedMessage
once_signed = record { validator_set_id = 0; message = note 1; signatures = (0, 12) ∷ [] }

-- The first two of the three authorities have signed the outgoing message.
abbrev twice_signed : SignedMessage
twice_signed = record once_signed { signatures = (0, 12) ∷ (1, 13) ∷ [] }

abbrev nearly_final : State Vault
nearly_final = record bridge {
  signed_outgoing_messages = λ n k. if (n == 1) && (k == 1) then some twice_signed else none;
}

twice_signed-AreGenuine : AreGenuine vault_runtime bridge.authorities twice_signed
unfolding keys map_get
twice_signed-AreGenuine = (
  (λ j h. ground (arith, h), (λ j h. ground (arith, h), tt)),
  λ i x h. elim (Bool-cases (i == 0)) [
    | inl first ↦ (11, ground (arith, h, first), ground (arith, h, first))
    | inr other ↦ (12, ground (arith, h, other), ground (arith, h, other))
  ],
)

nearly_final-IsGenuine : IsGenuine vault_runtime bridge.authorities nearly_final
nearly_final-IsGenuine n k m h = elim (Bool-cases ((n == 1) && (k == 1))) [
  | inr away ↦ absurd (ground (arith, h, away))
  | inl here ↦
      let e : twice_signed ≡ m = ground (arith, h, here) in
      subst (AreGenuine vault_runtime bridge.authorities) e twice_signed-AreGenuine
]

finality_needs_supermajority_example :
    let s' =
      (submit_signed_outgoing_messages vault_runtime unsigned 2 0
        ((1, 1, 14) ∷ [])
        nearly_final).1 in
    IsGenuine vault_runtime nearly_final.authorities s'
    × ((s'.signed_outgoing_nonce 1 ≡ 0)
        ⊎ HasQuorum vault_runtime nearly_final 1 (s'.signed_outgoing_nonce 1) s')
unfolding validate_signed_outgoing_message validate_loop already_signed contains_signature
    contains_key
finality_needs_supermajority_example =
    finality_needs_supermajority vault_runtime 2 0 ((1, 1, 14) ∷ []) 1 nearly_final
      nearly_final-IsGenuine refl

abbrev history : List Request
history =
    sends root (4 ∷ []) 1
    ∷ updates_outgoing root 9 1
    ∷ starts_session (21 ∷ []) (22 ∷ [])
    ∷ starts_block
    ∷ []

outgoing_message_is_final_example :
    (run vault_runtime history bridge).outgoing_messages 1 1 ≡ some (note 1)
outgoing_message_is_final_example =
    outgoing_message_is_final vault_runtime history 1 1 (note 1) bridge bridge-IsFresh (omega arith)
      refl

sent_message_stays_example :
    let out = send_thea_message vault_runtime root (4 ∷ []) 1 bridge in
    (out.0 ≡ ok tt)
    × (out.1.outgoing_nonce 1 ≡ 2)
    × ((run vault_runtime history out.1).outgoing_messages 1 2
        ≡ some (record {
          block_no = 100;
          nonce = 2;
          network = 1;
          payload_type = l1_deposit;
          bytes = 4 ∷ [];
        }))
unfolding run
sent_message_stays_example =
    sent_message_stays vault_runtime [] history (4 ∷ []) 1 bridge bridge-IsFresh (omega arith)

replacement_moves_stakes_example :
    let l' = (submit_incoming_message vault_runtime (signed 4) (note 1) 60 bridge).1.ledger in
    (l'.on_hold 4 ≡ 60) × (l'.on_hold 3 ≡ 0)
unfolding submit_incoming_message place on_ledger
replacement_moves_stakes_example =
    replacement_moves_stakes vault_runtime vault_laws (note 1) 4 60 waiting bridge refl
      (omega arith) (omega arith) refl

rejected_report_restores_example :
    let s₁ = (report_misbehaviour vault_runtime (signed 5) 1 1 bridge).1 in
    let s₂ = (handle_misbehaviour vault_runtime root 1 1 false s₁).1 in
    ((n k : ℕ) → s₂.incoming_messages_queue n k ≡ bridge.incoming_messages_queue n k)
    × (s₂.misbehaviour_reports 1 1 ≡ none)
unfolding report_misbehaviour report_taken handle_misbehaviour judge on_ledger
rejected_report_restores_example =
    rejected_report_restores vault_runtime 5 1 1 root bridge (refl, refl) refl refl

early_message_lost_example :
    let s' = on_initialize vault_runtime 101 bridge in
    (s'.incoming_messages_queue 1 1 ≡ none)
    × (s'.incoming_nonce ≡ bridge.incoming_nonce)
    × (s'.incoming_messages ≡ bridge.incoming_messages)
    × (s'.misbehaviour_reports ≡ bridge.misbehaviour_reports)
    × (s'.ledger ≡ bridge.ledger)
    × (s'.events ≡ [])
early_message_lost_example =
    early_message_lost vault_runtime 101 1 waiting bridge refl refl (omega arith)

due_message_settled_example :
    let s' = on_initialize vault_runtime 120 bridge in
    (s'.incoming_messages_queue 1 1 ≡ none)
    × (s'.incoming_nonce 1 ≡ 1)
    × (s'.incoming_messages 1 1 ≡ some (note 1))
    × (s'.ledger ≡ released vault_runtime waiting (record bridge.ledger { deposits = 1 }))
due_message_settled_example =
    due_message_settled vault_runtime 120 1 waiting bridge refl refl refl (omega arith)

accepted_is_checked_example :
    (0 ≡ bridge.validator_set_id)
    × (is_empty (bridge.authorities 0) ≡ false)
    × ((signer : ℕ) × (get_elem? (bridge.authorities 0) 0 ≡ some signer)
        × AllChecked vault_runtime 0 signer ((1, 1, 12) ∷ []) bridge)
unfolding validate_signed_outgoing_message validate_loop already_signed
accepted_is_checked_example = accepted_is_checked vault_runtime 0 0 ((1, 1, 12) ∷ []) bridge refl

accepted_succeeds_example :
    (submit_signed_outgoing_messages vault_runtime unsigned 0 0 ((1, 1, 12) ∷ []) bridge).0 ≡ ok tt
unfolding validate_signed_outgoing_message validate_loop already_signed
accepted_succeeds_example = accepted_succeeds vault_runtime 0 0 ((1, 1, 12) ∷ []) bridge refl

-- The bridge with one authority.
abbrev lone : State Vault
lone = record bridge { authorities = λ id. if id == 0 then 11 ∷ [] else [] }

first_signature_lem_example :
    let x : ℕ × ℕ × ℕ = (1, 1, 12) in
    let s' = (submit_signed_outgoing_messages vault_runtime unsigned 0 0 (x ∷ []) lone).1 in
    let s'' = (submit_signed_outgoing_messages vault_runtime unsigned 0 0 (x ∷ x ∷ []) lone).1 in
    (s'.signed_outgoing_nonce ≡ lone.signed_outgoing_nonce)
    × (validate_signed_outgoing_message vault_runtime 0 0 (x ∷ []) s' ≡ custom 4)
    × (validate_signed_outgoing_message vault_runtime 0 0 (x ∷ x ∷ []) lone ≡ valid)
    × (s''.signed_outgoing_nonce 1 ≡ 1)
unfolding validate_signed_outgoing_message validate_loop already_signed
first_signature_lem_example = first_signature_lem vault_runtime 0 0 1 1 12 12 lone refl refl

rotation_installs_example :
    let s' = change_authorities vault_runtime (21 ∷ []) (22 ∷ []) bridge in
    (s'.validator_set_id ≡ 1) × (s'.authorities 1 ≡ 21 ∷ []) × (s'.authorities 0 ≡ [])
unfolding set_eq set_from set_insert
rotation_installs_example =
    rotation_installs vault_runtime (21 ∷ []) (22 ∷ []) bridge refl (omega arith)

abbrev half_signed : State Vault
half_signed = record bridge {
  signed_outgoing_messages = λ n k. if (n == 1) && (k == 1) then some once_signed else none;
}

rotation_resets_pending_example : IsReset vault_runtime 1 (
    (change_authorities vault_runtime (21 ∷ []) (21 ∷ []) half_signed).signed_outgoing_messages 1 1)
unfolding set_eq set_from set_insert schedule_change
rotation_resets_pending_example =
    rotation_resets_pending vault_runtime (21 ∷ []) (21 ∷ []) 1 1 half_signed refl refl
      (omega arith) (omega arith)

native_roundtrip_example :
    (native : ℕ) × (convert_to_native_decimals (record { decimal = 6 }) 5_000_000 ≡ some native)
    × (convert_from_native_decimals (record { decimal = 6 }) native ≡ some 5_000_000)
native_roundtrip_example =
    native_roundtrip (record { decimal = 6 }) 5_000_000 (omega arith) (omega arith)
