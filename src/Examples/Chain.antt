-- ===== src/Examples/Chain.antt =====
-- Examples for leaving Arkade and paying out on the chain.
use hedge_arkade.Contract.Tx.{MsgTx}
use hedge_arkade.Domain.Records.{ExitPackage, Outpoint, covenant, parse_key}
use hedge_arkade.Adapters.Leaving.{Adapter, adapter_leave, parties, signed_exit, send_exit}
use hedge_arkade.Common.{
  ltb, ◌==◌, if◌then◌else◌, length, Bytes, ℕ, ◌<◌, ◌≡◌, refl, ◌↔◌, true, false, Option, none, [],
  ◌∷◌, ◌++◌, some,
}
use hedge_arkade.Common.Int.{ℤ, pos, sub64, ◌-ℤ◌}
use hedge_arkade.Adapters.Net.{
  Network, Log, pending, mined, next_tx, slept, sent, already_redeemed, mined_tx, looked, ◌>>=◌,
  then_run, chain_call, pure, ◌>>◌, poll, return,
}
use hedge_arkade.Adapters.Chain.{
  unroll, mine_blocks, unroll_rounds, put_in_block, broadcast_raw, output_of, raw_hex,
  taproot_address, to_int64, wait_for_output,
}
use hedge_arkade.UseCases.Ports.{Ports}
use hedge_arkade.Examples.Data.{a_key}
use hedge_arkade.Examples.Steps.{a_stored_exit, a_funded}
use hedge_arkade.Adapters.Broadcasts.{Left, leave_sound}
use hedge_arkade.Adapters.Unrolling.{Unrolls, unroll_iff}
use hedge_arkade.Examples.Adapters.{plain_ports}
use hedge_arkade.UseCases.Packages.{outpoint_of}
use hedge_arkade.Contract.Signing.{finalize, exit_leaf, exit_witness, with_witness}
use hedge_arkade.Contract.Vtxo.{
  leaf_closure, closures, leaf_index, settlement_key, settlement_script_bytes, validate_keys,
}
use hedge_arkade.Contract.Script.{
  adjacency_check, authenticate, covenant_body, field_extract, lock_script_check,
  lock_script_commitment, payout_check, predecessor_check, price_clamp, recipient_check,
  settlement_script, shape_check, start_check, trigger_check,
}
use hedge_arkade.Contract.Terms.{validate}
use hedge_arkade.Remote.Hex.{encode_hex, hex_char}

-- A branch of one transaction, which first waits for a block; a broadcast is refused once, and the
-- output shows at the second look.
abbrev pub a_network : Network
a_network = record {
  has_chain = true;
  can_mine_tx = true;
  mine = λ log blocks. true;
  mine_tx = λ log raw. true;
  new_branch = λ log outpoint. true;
  next_redeem = λ log.
      if length log == 1
      then pending
      else if length log == 3
      then next_tx (9 ∷ [])
      else already_redeemed;
  broadcast = λ log raw. if length log == 5 then none else some (3 ∷ []);
  utxos = λ log address.
      some (
        if ltb (length log) 9
        then []
        else record { txid = 2 ∷ []; vout = 0; amount = 19_700 } ∷ []);
  cancelled = λ log. false;
  patience = 5;
}

abbrev pub an_adapter : Adapter
an_adapter = record { has_wallet = λ user. true; render_address = λ key. some key }

abbrev steps_log : Log
steps_log = mined 1 ∷ mined 1 ∷ slept ∷ mined_tx (9 ∷ []) ∷ []

-- three steps down: a wait, a transaction, and the end
came_down : unroll a_network (record { hash = 1 ∷ []; index = 0 }) [] ≡ (some 1, steps_log)
unfolding unroll ◌>>=◌ then_run mine_blocks chain_call unroll_rounds put_in_block adapter_leave pure
    parties ◌>>◌ outpoint_of signed_exit covenant finalize exit_leaf leaf_closure broadcast_raw
    output_of raw_hex taproot_address to_int64 wait_for_output send_exit poll return sub64 ◌-ℤ◌
    adjacency_check authenticate covenant_body field_extract lock_script_check
    lock_script_commitment payout_check predecessor_check price_clamp recipient_check
    settlement_script shape_check start_check trigger_check exit_witness with_witness validate
    closures leaf_index settlement_key settlement_script_bytes validate_keys parse_key encode_hex
    hex_char
came_down = refl

unroll_example :
    (unroll a_network (record { hash = 1 ∷ []; index = 0 }) [] ≡ (some 1, steps_log)) ↔ (
      (true ≡ true)
      × (true ≡ true)
      × ((steps : ℕ) × (steps < 40) × Unrolls a_network steps 1 ([] ++ mined 1 ∷ []) steps_log))
unroll_example = unroll_iff a_network (record { hash = 1 ∷ []; index = 0 }) [] steps_log 1

abbrev an_exit_tx : MsgTx
an_exit_tx = record {
  version = 2;
  tx_in =
      record {
        previous_out_point = record { hash = 1 ∷ []; index = 0 };
        sequence = 10;
        witness = [];
      }
      ∷ [];
  tx_out = record { value = pos 19_700; pk_script = 5 ∷ [] } ∷ [];
}

abbrev chain_ports : Ports
chain_ports = record plain_ports { decode_tx = λ raw. some an_exit_tx }

abbrev p2tr : Bytes
p2tr = 81 ∷ 32 ∷ a_key

abbrev a_package : ExitPackage
a_package = record a_stored_exit {
  amount = pos 20_000;
  sweep = record { pk_script = p2tr; leaf = []; control_block = [] };
}

abbrev after_exit : Option (Outpoint × ℤ) × Log
after_exit = adapter_leave chain_ports a_network an_adapter a_funded a_package []

abbrev whole_log : Log
whole_log =
    steps_log
    ++ mined 145
      ∷ sent (48 ∷ 50 ∷ [])
      ∷ sent (48 ∷ 50 ∷ [])
      ∷ mined 1
      ∷ looked a_key
      ∷ looked a_key
      ∷ []

left_arkade :
    adapter_leave chain_ports a_network an_adapter a_funded a_package []
    ≡ (some (record { txid = 2 ∷ []; vout = 0 }, pos 19_700), whole_log)
unfolding adapter_leave ◌>>=◌ then_run pure parties ◌>>◌ outpoint_of unroll mine_blocks chain_call
    unroll_rounds put_in_block signed_exit covenant finalize exit_leaf leaf_closure broadcast_raw
    output_of raw_hex taproot_address to_int64 wait_for_output send_exit poll return sub64 ◌-ℤ◌
    adjacency_check authenticate covenant_body field_extract lock_script_check
    lock_script_commitment payout_check predecessor_check price_clamp recipient_check
    settlement_script shape_check start_check trigger_check exit_witness with_witness validate
    closures leaf_index settlement_key settlement_script_bytes validate_keys parse_key encode_hex
    hex_char
left_arkade = refl

leave_example :
    Left chain_ports a_network an_adapter a_funded a_package [] whole_log
      (record { txid = 2 ∷ []; vout = 0 })
      (pos 19_700)
leave_example = leave_sound chain_ports a_network an_adapter a_funded a_package [] left_arkade
