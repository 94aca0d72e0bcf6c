-- ===== src/Examples/Leaving.antt =====
-- Examples for the leaves, the exit, and its arbitration.
use hedge_arkade.Common.{
  Bytes, Result, ok, err, ◌≤◌, ◌<◌, ◌≡◌, refl, some, List, [], ◌∷◌, ◌++◌, reverse,
}
use hedge_arkade.Common.Int.{pos, ◌-ℤ◌, ◌*ℤ◌, ◌/ℤ◌, sub64, mul64}
use hedge_arkade.Contract.Errors
use hedge_arkade.Contract.Terms.{settlement_split, validate, clamp}
use hedge_arkade.Contract.Oracle.{oracle_message, le_bytes, le_value, field_at, price_from}
use hedge_arkade.Contract.Script.{settlement_script, lock_script_check, lock_script_commitment}
use hedge_arkade.Contract.Tx.{MsgTx}
use hedge_arkade.Contract.Vtxo.{
  Leaf, Closure, validate_keys, settlement_key, settlement_script_bytes, closures, leaf_closure,
}
use hedge_arkade.Contract.Leaves.{leaf_closure_roles}
use hedge_arkade.Contract.Exit.{SigMap, witness, exit_tx}
use hedge_arkade.Contract.Threshold.{signers, Aligned, witness_threshold}
use hedge_arkade.Contract.Exit.{count_sigs}
use hedge_arkade.Contract.Scale.{scale_to_available}
use hedge_arkade.Contract.Arbitration.{
  Arbitration, arbitrate, verify_arbitration, payouts, max_tx_in_sequence_num,
}
use hedge_arkade.Contract.Verdict.{verify_arbitration_iff, arbitrate-verifies}
use hedge_arkade.Examples.Machine.{plain_num}
use hedge_arkade.Examples.Data.{
  a_library, an_ark_lib, some_terms, a_signature, a_message, a_contract, an_outpoint, a_sweep,
}

abbrev tree_or_nil : Result Errors.Error (List Closure) → List Closure
tree_or_nil (ok tree) = tree
tree_or_nil (err e) = []

abbrev a_tree : List Closure
a_tree = tree_or_nil (closures a_library an_ark_lib plain_num a_contract)

a_tree_built : closures a_library an_ark_lib plain_num a_contract ≡ ok a_tree
unfolding closures validate_keys validate settlement_key settlement_script_bytes settlement_script
    lock_script_check lock_script_commitment
a_tree_built = refl

leaf_closure_roles_example :
    (keys : Bytes × Bytes × Bytes × Bytes) × (tweaked : Bytes) × (validate_keys a_contract.keys
      ≡ ok keys)
    × (settlement_key a_library an_ark_lib plain_num some_terms keys.3 ≡ ok tweaked)
    × (leaf_closure a_library an_ark_lib plain_num a_contract Leaf.settlement
        ≡ ok (Closure.multisig (keys.2 ∷ tweaked ∷ [])))
    × (leaf_closure a_library an_ark_lib plain_num a_contract Leaf.mutual_redemption
        ≡ ok (Closure.multisig (keys.0 ∷ keys.1 ∷ keys.2 ∷ [])))
    × (leaf_closure a_library an_ark_lib plain_num a_contract Leaf.exit
        ≡ ok (Closure.csv_multisig (keys.0 ∷ keys.1 ∷ []) a_contract.exit_delay))
leaf_closure_roles_example =
    leaf_closure_roles a_library an_ark_lib plain_num a_contract a_tree_built

-- the long and the service have signed
abbrev some_sigs : SigMap
some_sigs = (12 ∷ [], 32 ∷ []) ∷ (15 ∷ [], 35 ∷ []) ∷ []

witness_threshold_example :
    (signers an_ark_lib some_sigs a_sweep.keys < 2
      → witness an_ark_lib a_sweep some_sigs ≡ err Errors.too_few_signatures)
    × (2 ≤ signers an_ark_lib some_sigs a_sweep.keys
        → (chosen : List Bytes) × (witness an_ark_lib a_sweep some_sigs
            ≡ ok (reverse chosen ++ (a_sweep.leaf ∷ a_sweep.control_block ∷ [])))
          × (count_sigs chosen ≡ 2)
          × Aligned an_ark_lib some_sigs a_sweep.keys chosen)
witness_threshold_example = witness_threshold an_ark_lib a_sweep some_sigs

abbrev an_exit : MsgTx
an_exit = record {
  version = 2;
  tx_in = record { previous_out_point = an_outpoint; sequence = 144; witness = [] } ∷ [];
  tx_out = record { value = pos 19_000; pk_script = 23 ∷ [] } ∷ [];
}

an_exit_built :
    exit_tx an_ark_lib a_contract an_outpoint (pos 20_000) (pos 1_000) (23 ∷ []) ≡ ok an_exit
unfolding exit_tx sub64 ◌-ℤ◌
an_exit_built = refl

-- At the low boundary the short is owed 16,666 of 20,000, and 18,500 are left.
abbrev an_arbitration : Arbitration
an_arbitration = record {
  tx = record {
    version = 2;
    tx_in =
        record { previous_out_point = an_outpoint; sequence = max_tx_in_sequence_num; witness = [] }
        ∷ [];
    tx_out = payouts some_terms (pos 15_416) (pos 3_084);
  };
  short_sats = pos 15_416;
  long_sats = pos 3_084;
  price = pos 60;
  message = a_message;
  signature = a_signature;
}

arbitration_built :
    arbitrate a_library a_contract
      (some a_sweep)
      an_outpoint
      (pos 19_000)
      (pos 500)
      a_message
      a_signature
    ≡ ok an_arbitration
unfolding arbitrate price_from oracle_message le_bytes field_at le_value settlement_split validate
    clamp scale_to_available sub64 mul64 ◌-ℤ◌ ◌*ℤ◌ ◌/ℤ◌
arbitration_built = refl

verify_arbitration_example :
    verify_arbitration a_library a_contract
      (some an_arbitration)
      (some a_sweep)
      (pos 19_000)
      (pos 500)
    ≡ ok tt
verify_arbitration_example =
    (verify_arbitration_iff a_library a_contract an_arbitration (some a_sweep) (pos 19_000)
        (pos 500)).1
      (
        record {
          previous_out_point = an_outpoint;
          sequence = max_tx_in_sequence_num;
          witness = [];
        },
        an_arbitration,
        refl,
        arbitration_built,
        refl,
      )

arbitrate-verifies_example :
    verify_arbitration a_library a_contract
      (some an_arbitration)
      (some a_sweep)
      (pos 19_000)
      (pos 500)
    ≡ ok tt
arbitrate-verifies_example =
    arbitrate-verifies a_library a_contract (some a_sweep) an_outpoint (pos 19_000) (pos 500)
      a_message a_signature arbitration_built
