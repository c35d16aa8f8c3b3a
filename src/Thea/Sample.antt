-- ===== src/Thea/Sample.antt =====
-- A small runtime for pallets/thea/src/lib.rs whose holds meet `HoldLaws`, and a state of the pallet.
use polkadex_node.Prelude.{
  ℕ, ◌+◌, ◌-◌, some, none, List, [], ◌∷◌, arith, ltb, ◌==◌, ◌&&◌, Bool, true, false, if◌then◌else◌,
  update, min,
}
use polkadex_node.Frame.{Result, ok, err, root, signed, unsigned, Origin}
use polkadex_node.Thea.Types.{
  Runtime, HoldLaws, State, Message, IncomingMessage, l1_deposit, parachain,
}

pub record Vault : Type 0 where
  pub free : ℕ → ℕ
  pub on_hold : ℕ → ℕ
  pub deposits : ℕ

abbrev vault_hold : ℕ → ℕ → Vault → Result ℕ Vault
vault_hold who amount v =
    if ltb (v.free who) amount
    then err 1
    else ok (record v {
      free = update v.free who (v.free who - amount);
      on_hold = update v.on_hold who (v.on_hold who + amount);
    })

abbrev vault_release : ℕ → ℕ → Vault → Result ℕ Vault
vault_release who amount v = ok (record v {
  free = update v.free who (v.free who + min amount (v.on_hold who));
  on_hold = update v.on_hold who (v.on_hold who - amount);
})

abbrev vault_transfer : ℕ → ℕ → ℕ → Vault → Result ℕ Vault
vault_transfer payer payee amount v =
    if ltb (v.free payer) amount
    then err 2
    else ok (record v {
      free =
          let without = update v.free payer (v.free payer - amount) in
          update without payee (without payee + amount);
    })

-- Deposits without bytes do not decode.
abbrev vault_execute : ℕ → List ℕ → Vault → Result ℕ (Unit {0}) × Vault
vault_execute network [] v = (err 3, v)
vault_execute network (b ∷ bs) v = (ok tt, record v { deposits = v.deposits + 1 })

abbrev root_only : Origin → Bool
root_only root = true
root_only (signed who) = false
root_only unsigned = false

abbrev pub vault_runtime : Runtime
vault_runtime = record {
  Ledger = Vault;
  hold = vault_hold;
  release = vault_release;
  held = λ v who. v.on_hold who;
  reducible_balance = λ v who. v.free who;
  transfer = vault_transfer;
  burn_from =
      λ who amount v. ok (record v { on_hold = update v.on_hold who (v.on_hold who - amount) });
  execute_deposits = vault_execute;
  is_governance = root_only;
  max_authorities = 4;
  verify = λ signature message signer. signature == signer + message.nonce;
  encode = λ set. set.set_id ∷ set.validators;
}

pub vault_laws : HoldLaws vault_runtime
vault_laws = record {
  held-hold = λ who amount other v v' h. ground arith;
  held-release = λ who amount other v v' h. ground arith;
}

-- A message of network 1 with this nonce.
abbrev pub note : ℕ → Message
note nonce = record {
  block_no = 90;
  nonce = nonce;
  network = 1;
  payload_type = l1_deposit;
  bytes = 7 ∷ [];
}

-- The next message of network 1, which relayer 3 has staked 50 on.
abbrev pub waiting : IncomingMessage
waiting = record { message = note 1; relayer = 3; stake = 50; execute_at = 120 }

-- Three authorities, one network, an incoming and an outgoing message.
abbrev pub bridge : State Vault
bridge = record {
  authorities = λ id. if id == 0 then 11 ∷ 12 ∷ 13 ∷ [] else [];
  validator_set_id = 0;
  next_authorities = [];
  outgoing_messages = λ n k. if (n == 1) && (k == 1) then some (note 1) else none;
  signed_outgoing_messages = λ n k. none;
  incoming_messages_queue = λ n k. if (n == 1) && (k == 1) then some waiting else none;
  incoming_messages = λ n k. none;
  incoming_nonce = λ n. 0;
  outgoing_nonce = λ n. if n == 1 then 1 else 0;
  signed_outgoing_nonce = λ n. 0;
  active_networks = 1 ∷ [];
  network_config = λ n. record {
    fork_period = 20;
    min_stake = 10;
    fisherman_stake = 5;
    network_type = parachain;
  };
  misbehaviour_reports = λ n k. none;
  allow_list_testing_relayers = λ n. none;
  ledger = record { free = λ who. 1000; on_hold = λ who. if who == 3 then 50 else 0; deposits = 0 };
  block_number = 100;
  events = [];
}
