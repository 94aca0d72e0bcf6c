-- ===== src/Examples/Early.antt =====
-- Examples for the early close.
use hedge_arkade.Common.{bytes_equal, ok, ◌≡◌, refl, some, List, [], ◌∷◌, ◌++◌}
use hedge_arkade.Common.Int.{pos, ◌+ℤ◌, ◌-ℤ◌, ◌/ℤ◌, add64, sub64}
use hedge_arkade.Contract.Terms.{settlement_split, validate, clamp}
use hedge_arkade.Contract.Oracle.{oracle_message, le_bytes, le_value, field_at, price_from}
use hedge_arkade.Contract.Script.{settlement_script, lock_script_check, lock_script_commitment}
use hedge_arkade.Contract.Tx.{TxOut, out_point_eq}
use hedge_arkade.Contract.Vtxo.{
  validate_keys, settlement_key, settlement_script_bytes, closures, leaf_closure, leaf_index,
}
use hedge_arkade.Contract.Arbitration.{payouts}
use hedge_arkade.Contract.Redemption.{
  Redemption, check_split, propose_redemption, verify_redemption, redemption_input,
  check_checkpoint, spends_contract, priced_split, recomputed_split, pays_outputs, same_checkpoints,
}
use hedge_arkade.Contract.Early.{Closes, Agreed, verify_redemption_sound}
use hedge_arkade.Examples.Machine.{plain_num}
use hedge_arkade.Examples.Data.{
  a_library, an_ark_lib, an_offchain, some_terms, a_signature, a_message, a_contract, an_outpoint,
}

-- the close of the contract at the signed price
abbrev a_close : Redemption
a_close = record {
  ark_tx = record {
    version = 3;
    tx_in = record { previous_out_point = an_outpoint; sequence = 0; witness = [] } ∷ [];
    tx_out = payouts some_terms (pos 16_666) (pos 3_334);
  };
  checkpoints =
      record {
        version = 3;
        tx_in = record { previous_out_point = an_outpoint; sequence = 0; witness = [] } ∷ [];
        tx_out = [];
      }
      ∷ [];
  short_sats = pos 16_666;
  long_sats = pos 3_334;
  price = pos 60;
  message = a_message;
  signature = a_signature;
}

a_close_verified :
    verify_redemption a_library an_ark_lib plain_num an_offchain a_contract
      (some a_close)
      an_outpoint
      []
    ≡ ok tt
unfolding verify_redemption check_checkpoint spends_contract out_point_eq bytes_equal priced_split
    recomputed_split price_from oracle_message le_bytes field_at le_value settlement_split validate
    clamp check_split pays_outputs propose_redemption redemption_input leaf_closure leaf_index
    closures validate_keys settlement_key settlement_script_bytes settlement_script
    lock_script_check lock_script_commitment same_checkpoints sub64 add64 ◌-ℤ◌ ◌+ℤ◌ ◌/ℤ◌
a_close_verified = refl

verify_redemption_sound_example :
    Closes an_outpoint a_close.checkpoints
    × (rest : List TxOut) × (expected : Redemption) × (check_split some_terms
          (pos 16_666)
          (pos 3_334)
        ≡ ok tt)
    × (a_close.ark_tx.tx_out ≡ payouts some_terms (pos 16_666) (pos 3_334) ++ rest)
    × (propose_redemption a_library an_ark_lib plain_num an_offchain a_contract an_outpoint
          (pos 16_666)
          (pos 3_334)
          []
        ≡ ok expected)
    × (an_offchain.tx_id expected.ark_tx ≡ 3 ∷ [])
    × Agreed a_library an_ark_lib plain_num an_offchain a_contract a_close
verify_redemption_sound_example =
    verify_redemption_sound a_library an_ark_lib plain_num an_offchain a_contract a_close
      an_outpoint [] a_close_verified
