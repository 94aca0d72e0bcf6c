-- ===== src/Examples/Signed.antt =====
-- Examples for the signatures of the exit and of its arbitration.
use hedge_arkade.Common.{bytes_equal, ok, err, ◌≡◌, refl, [], ◌∷◌, arith}
use hedge_arkade.Common.Int.{pos, ◌-ℤ◌, sub64}
use hedge_arkade.Contract.Errors
use hedge_arkade.Contract.Exit.{exit_tx, signer_matches}
use hedge_arkade.Contract.Signing.{
  ExitPackage, pre_sign_exit, verify_exit_signature, sign_exit, sign_with, exit_sighash, exit_leaf,
  contract_pk_script,
}
use hedge_arkade.Contract.Presigned.{Schnorr, pre_sign_exit-verifies}
use hedge_arkade.Examples.Data.{a_library, an_ark_lib, a_contract, an_outpoint}
use hedge_arkade.Examples.Machine.{plain_num}
use hedge_arkade.Examples.Adapters.{plain_ports}
use hedge_arkade.Contract.Vtxo.{
  leaf_closure, closures, validate_keys, settlement_key, settlement_script_bytes, leaf_index,
}
use hedge_arkade.Contract.Terms.{validate}
use hedge_arkade.Contract.Script.{
  settlement_script, lock_script_check, adjacency_check, authenticate, covenant_body, field_extract,
  lock_script_commitment, payout_check, predecessor_check, price_clamp, recipient_check,
  shape_check, start_check, trigger_check,
}

pub plain-Schnorr : Schnorr a_library an_ark_lib plain_ports.sig_lib
plain-Schnorr key digest sig h = (refl, refl, ground arith)

abbrev package_or : Errors.Outcome ExitPackage → ExitPackage
package_or (ok p) = p
package_or (err e) = record {
  tx = record { version = 0; tx_in = []; tx_out = [] };
  short_sig = [];
  long_sig = [];
  amount = pos 0;
}

abbrev a_package : ExitPackage
a_package = package_or (
    pre_sign_exit a_library an_ark_lib plain_num plain_ports.sig_lib a_contract
      a_contract.keys.short a_contract.keys.long an_outpoint (pos 20_000) (pos 300) (7 ∷ []))

a_package_signed :
    pre_sign_exit a_library an_ark_lib plain_num plain_ports.sig_lib a_contract
      a_contract.keys.short a_contract.keys.long an_outpoint
      (pos 20_000)
      (pos 300)
      (7 ∷ [])
    ≡ ok a_package
unfolding pre_sign_exit exit_tx sub64 ◌-ℤ◌ signer_matches bytes_equal sign_exit sign_with
    exit_sighash exit_leaf leaf_closure closures validate_keys validate settlement_key
    settlement_script_bytes settlement_script lock_script_check adjacency_check authenticate
    covenant_body field_extract lock_script_commitment payout_check predecessor_check price_clamp
    recipient_check shape_check start_check trigger_check contract_pk_script leaf_index
a_package_signed = refl

pre_sign_exit_example :
    (exit_tx an_ark_lib a_contract an_outpoint (pos 20_000) (pos 300) (7 ∷ []) ≡ ok a_package.tx)
    × (verify_exit_signature a_library an_ark_lib plain_num plain_ports.sig_lib a_contract
          a_contract.keys.short a_package.short_sig a_package.tx a_package.amount
        ≡ ok tt)
    × (verify_exit_signature a_library an_ark_lib plain_num plain_ports.sig_lib a_contract
          a_contract.keys.long a_package.long_sig a_package.tx a_package.amount
        ≡ ok tt)
pre_sign_exit_example =
    pre_sign_exit-verifies a_library an_ark_lib plain_num plain_ports.sig_lib a_contract
      plain-Schnorr a_contract.keys.short a_contract.keys.long an_outpoint (pos 20_000) (pos 300)
      (7 ∷ []) a_package_signed
