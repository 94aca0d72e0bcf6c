-- ===== src/Examples/Settlement.antt =====
-- Examples for a settlement that the service builds.
use hedge_arkade.Contract.Tx.{MsgTx, TxOut}
use hedge_arkade.Contract.Vtxo.{
  Contract as Covenant, leaf_closure, closures, validate_keys, settlement_key,
  settlement_script_bytes, leaf_index,
}
use hedge_arkade.Contract.Terms.{settlement_split, validate, clamp}
use hedge_arkade.Contract.Arbitration.{contract_price}
use hedge_arkade.Domain.Records.{covenant, split, parse_key}
use hedge_arkade.UseCases.Ports.{FeedPair}
use hedge_arkade.UseCases.Packages.{settlement_owed}
use hedge_arkade.Arkade.Client.{settlement_witness, add_extension}
use hedge_arkade.Adapters.Submitting.{CloseLib, build_settlement, contract_input}
use hedge_arkade.Adapters.Paying.{KeepsOutputs, settlement_pays_owed}
use hedge_arkade.Examples.Adapters.{plain_ports}
use hedge_arkade.Examples.Data.{
  a_library, an_ark_lib, a_contract, a_message, an_offchain, an_outpoint, a_signature,
}
use hedge_arkade.Examples.Machine.{plain_num}
use hedge_arkade.Examples.Steps.{a_funded, reply_or}
use hedge_arkade.Common.{
  Bytes, length, bytes_equal, ok, ℕ, ◌≡◌, refl, sym, ap, true, Option, none, some, List, [], ◌∷◌,
  ◌++◌,
}
use hedge_arkade.Common.Int.{ℤ, pos, ◌-ℤ◌, ◌/ℤ◌, sub64}
use hedge_arkade.Contract.Script.{settlement_script, lock_script_check, lock_script_commitment}
use hedge_arkade.Contract.Oracle.{price_from, oracle_message, le_bytes, field_at, le_value}

abbrev anchor_out : TxOut
anchor_out = record { value = pos 0; pk_script = 81 ∷ [] }

-- Outputs are kept, with the anchor behind them.
abbrev anchoring : CloseLib
anchoring = record {
  off = record an_offchain {
    build_txs = λ input outs tapscript.
        some (record { version = 3; tx_in = []; tx_out = outs ++ anchor_out ∷ [] }, []);
  };
  checkpoint_tapscript = [];
  anchor = 81 ∷ [];
  extension = λ script stack. some (record { value = pos 0; pk_script = length stack ∷ [] });
  encode = λ tx. some [];
  emulator = λ tx checkpoints. true;
}

abbrev outs_or_nil : Option (MsgTx × List MsgTx) → List TxOut
outs_or_nil none = []
outs_or_nil (some (tx, checkpoints)) = tx.tx_out

anchoring-KeepsOutputs : KeepsOutputs anchoring
anchoring-KeepsOutputs input outs tapscript tx checkpoints h =
    (anchor_out, sym (ap outs_or_nil h), refl)

abbrev the_pair : FeedPair
the_pair = record {
  settlement = record { message = a_message; signature = a_signature };
  previous = record { message = a_message; signature = a_signature };
}

abbrev the_covenant : Covenant
the_covenant = reply_or a_contract (covenant plain_ports.parse_pub_key a_funded)

abbrev pay_to : ℤ → ℕ → TxOut
pay_to sats script = record { value = sats; pk_script = script ∷ [] }

abbrev a_settlement : MsgTx
a_settlement = record {
  version = 3;
  tx_in = [];
  tx_out = pay_to (pos 16_666) 1 ∷ pay_to (pos 3_334) 2 ∷ pay_to (pos 0) 4 ∷ anchor_out ∷ [];
}

covenant_now : covenant plain_ports.parse_pub_key a_funded ≡ ok the_covenant
unfolding covenant parse_key
covenant_now = refl

owed_now : settlement_owed plain_ports a_funded the_pair ≡ ok (pos 16_666, pos 3_334)
unfolding settlement_owed covenant price_from oracle_message le_bytes field_at le_value split
    settlement_split validate sub64 ◌-ℤ◌ ◌/ℤ◌ clamp build_settlement contract_input leaf_closure
    closures validate_keys settlement_key settlement_script_bytes settlement_script
    lock_script_check lock_script_commitment leaf_index add_extension bytes_equal
owed_now = refl

built_now :
    build_settlement plain_ports anchoring the_covenant an_outpoint
      (pos 16_666)
      (pos 3_334)
      (settlement_witness the_pair.settlement the_pair.previous)
    ≡ ok (a_settlement, [])
unfolding build_settlement contract_input leaf_closure closures validate_keys covenant validate
    settlement_key settlement_script_bytes settlement_script lock_script_check
    lock_script_commitment leaf_index add_extension bytes_equal
built_now = refl

settlement_pays_example :
    (price : ℤ) × (script : Bytes) × (ext : TxOut) × (last : TxOut) × (contract_price
        plain_ports.library the_covenant a_message a_signature
      ≡ ok price)
    × (settlement_split the_covenant.terms price ≡ ok (pos 16_666, pos 3_334))
    × (settlement_script_bytes a_library an_ark_lib plain_num the_covenant.terms ≡ ok script)
    × (anchoring.extension script (a_signature ∷ a_message ∷ a_signature ∷ a_message ∷ [])
        ≡ some ext)
    × (last.pk_script ≡ 81 ∷ [])
    × (a_settlement.tx_out
        ≡ record { value = pos 16_666; pk_script = the_covenant.terms.short_lock_script }
          ∷ record { value = pos 3_334; pk_script = the_covenant.terms.long_lock_script }
          ∷ ext
          ∷ last
          ∷ [])
settlement_pays_example =
    settlement_pays_owed plain_ports anchoring a_funded the_pair an_outpoint anchoring-KeepsOutputs
      covenant_now owed_now built_now
