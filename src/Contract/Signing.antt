-- ===== src/Contract/Signing.antt =====
-- Signing the exit and the arbitration, and putting the signatures in place (contract/exit.go:
-- `ExitSighash`, `SignExit`, `VerifyExitSignature`, `PreSignExit`, `Finalize`; contract/arbitration.go:
-- `SignArbitration`, `FinalizeArbitration`). A private key stands under its public key.
use hedge_arkade.Common.{
  ◌==◌, length, get_elem?, Bytes, err, ◌>>=◌, ◌>>◌, not, none, some, List, [], ◌∷◌, Option, ok,
  fail_if, map_err,
}
use hedge_arkade.Common.Int.{ℤ}
use hedge_arkade.Contract.Errors
use hedge_arkade.Contract.Library.{Library, ArkLib}
use hedge_arkade.Contract.Tx.{OutPoint, TxOut, MsgTx}
use hedge_arkade.Contract.Vtxo.{
  Contract, Leaf, Closure, multisig, csv_multisig, or_nil, or_library_error, closures, leaf_index,
  leaf_closure,
}
use hedge_arkade.Contract.Exit.{Sweep, SigMap, exit_tx, signer_matches, witness}
use hedge_arkade.Contract.Arbitration.{Arbitration}

-- What btcd and ark-lib do here: a parameter.
pub record SigLib : Type 0 where
  -- `Closure.Script`
  pub closure_script : Closure → Option Bytes
  -- `GetTaprootMerkleProof`: the control block of a leaf of the tree
  pub control_block : List Closure → Bytes → Option Bytes
  -- `Contract.PkScript`, over the tree
  pub tree_pk_script : List Closure → Option Bytes
  -- `CalcTapscriptSignaturehash` of input 0: the transaction, the output that it spends, the leaf
  pub tapscript_sighash : MsgTx → TxOut → Bytes → Option Bytes
  -- `schnorr.Sign` and `Serialize`
  pub sign_digest : Bytes → Bytes → Option Bytes
  -- `CSVMultisigClosure.Witness`
  pub csv_witness : List Bytes → Bytes → SigMap → Option (List Bytes)

pub record ExitPackage : Type 0 where
  pub tx : MsgTx
  pub short_sig : Bytes
  pub long_sig : Bytes
  pub amount : ℤ

-- `schnorr.Sign`, to a nil key and to a failure
unfoldable pub sign_with : SigLib → Option Bytes → Errors.Outcome Bytes → Errors.Outcome Bytes
sign_with sigs key digest = do
  k ← or_nil key
  d ← digest
  map_err (λ _. Errors.sign_failed) (or_library_error (sigs.sign_digest k d))

-- `signed.TxIn[0].Witness = witness`, on a copy
unfoldable pub with_witness : MsgTx → List Bytes → Errors.Outcome MsgTx
with_witness tx stack = elim tx.tx_in [
  | [] ↦ err Errors.panics
  | i ∷ is ↦ ok (record tx { tx_in = record i { witness = stack } ∷ is })
]

-- `Sweep.sighash`
unfoldable pub sweep_sighash : SigLib → Sweep → MsgTx → ℤ → Errors.Outcome Bytes
sweep_sighash sigs sweep tx amount = do
  fail_if (not (length tx.tx_in == 1)) Errors.not_one_input
  or_library_error (
      sigs.tapscript_sighash tx (record { value = amount; pk_script = sweep.pk_script }) sweep.leaf)

-- `SignArbitration`; `none` is a nil proposal.
unfoldable pub sign_arbitration :
    SigLib → Option Bytes → Option Arbitration → Sweep → ℤ → Errors.Outcome Bytes
sign_arbitration sigs none a sweep available = err Errors.nil_key
sign_arbitration sigs (some key) none sweep available = err Errors.no_arbitration
sign_arbitration sigs (some key) (some a) sweep available =
    sign_with sigs (some key) (sweep_sighash sigs sweep a.tx available)

-- `FinalizeArbitration`
unfoldable pub finalize_arbitration :
    ArkLib → Option Arbitration → Sweep → SigMap → Errors.Outcome MsgTx
finalize_arbitration ark none sweep sigs = err Errors.no_arbitration
finalize_arbitration ark (some a) sweep sigs = do
  stack ← witness ark sweep sigs
  with_witness a.tx stack

module _ (lib : Library) (ark : ArkLib) (num : ℤ → Bytes) (sigs : SigLib) (c : Contract) where
  -- `exitLeaf`: the exit tapscript and its control block
  unfoldable pub exit_leaf : Errors.Outcome (Bytes × Bytes)
  exit_leaf = do
    closure ← leaf_closure lib ark num c Leaf.exit
    script ← or_library_error (sigs.closure_script closure)
    tree ← closures lib ark num c
    control ← or_library_error (sigs.control_block tree script)
    ok (script, control)

  -- `PkScript`
  unfoldable pub contract_pk_script : Errors.Outcome Bytes
  contract_pk_script = do tree ← closures lib ark num c; or_library_error (sigs.tree_pk_script tree)

  -- `ExitSighash`
  unfoldable pub exit_sighash : MsgTx → ℤ → Errors.Outcome Bytes
  exit_sighash tx amount = do
    fail_if (not (length tx.tx_in == 1)) Errors.not_one_input
    proof ← exit_leaf
    pk_script ← contract_pk_script
    or_library_error
        (sigs.tapscript_sighash tx (record { value = amount; pk_script = pk_script }) proof.0)

  -- `SignExit`
  unfoldable pub sign_exit : Option Bytes → MsgTx → ℤ → Errors.Outcome Bytes
  sign_exit key tx amount = sign_with sigs key (exit_sighash tx amount)

  -- `VerifyExitSignature`
  unfoldable pub verify_exit_signature :
      Option Bytes → Bytes → MsgTx → ℤ → Errors.Outcome (Unit {0})
  verify_exit_signature key sig tx amount = do
    k ← or_nil key
    fail_if (not (lib.sig_parses sig)) Errors.bad_signature
    digest ← exit_sighash tx amount
    fail_if (not (lib.key_parses (ark.x_only k))) Errors.library_error
    fail_if (not (lib.verify (ark.x_only k) digest sig)) Errors.not_this_key

  -- `PreSignExit`, of the two parties' private keys
  unfoldable pub pre_sign_exit :
      Option Bytes → Option Bytes → OutPoint → ℤ → ℤ → Bytes → Errors.Outcome ExitPackage
  pre_sign_exit short long outpoint amount fee_sats sweep_pk_script = do
    tx ← exit_tx ark c outpoint amount fee_sats sweep_pk_script
    signer_matches ark short c.keys.short
    signer_matches ark long c.keys.long
    short_sig ← sign_exit short tx amount
    long_sig ← sign_exit long tx amount
    ok (record { tx = tx; short_sig = short_sig; long_sig = long_sig; amount = amount })

  -- the map of a package's signatures by x-only key, where the later entry of a key wins
  abbrev pub package_sigs : ExitPackage → Bytes → Bytes → SigMap
  package_sigs pkg short long =
      (ark.x_only long, pkg.long_sig) ∷ (ark.x_only short, pkg.short_sig) ∷ []

  -- the witness that a closure takes, if it is the exit's
  unfoldable pub exit_witness : Closure → Bytes → SigMap → Errors.Outcome (List Bytes)
  exit_witness (multisig keys) control m = err Errors.not_a_csv_leaf
  exit_witness (csv_multisig keys delay) control m =
      or_library_error (sigs.csv_witness keys control m)

  -- `Finalize`; `none` is a nil package.
  unfoldable pub finalize : Option ExitPackage → Errors.Outcome MsgTx
  finalize none = err Errors.no_exit_package
  finalize (some pkg) = do
    proof ← exit_leaf
    index ← leaf_index c Leaf.exit
    tree ← closures lib ark num c
    closure ← elim (get_elem? tree index) [ none ↦ err Errors.panics | some x ↦ ok x ]
    short ← or_nil c.keys.short
    long ← or_nil c.keys.long
    stack ← exit_witness closure proof.1 (package_sigs pkg short long)
    with_witness pkg.tx stack
