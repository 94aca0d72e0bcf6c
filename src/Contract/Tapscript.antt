-- ===== src/Contract/Tapscript.antt =====
-- A party's signature on the leaves that name its key (contract/redemption.go: `SignRedemption`,
-- `SignTapscript`, `leafNamesKey`). The packets are changed in place, so each function returns what it
-- leaves behind beside its outcome, also where it fails half-way. A private key stands under its public
-- key.
use hedge_arkade.Contract.Errors
use hedge_arkade.Common.{
  ◌>>=◌, ◌==◌, Bytes, bytes_equal, err, map_err, fail_if, ℕ, suc, ◌+◌, Bool, true, false, ◌||◌,
  Option, none, some, List, [], ◌∷◌, ◌++◌, ok,
}
use hedge_arkade.Contract.Tx.{TxOut, MsgTx, OutPoint, TxIn}
use hedge_arkade.Contract.Vtxo.{or_library_error}

pub record TapLeaf : Type 0 where
  pub leaf_version : ℕ
  pub script : Bytes

-- `psbt.TaprootScriptSpendSig`
pub record TapSig : Type 0 where
  pub x_only_pub_key : Bytes
  pub leaf_hash : Bytes
  pub signature : Bytes
  pub sighash_type : ℕ

-- `psbt.PInput`, as far as it is read here
pub record PInput : Type 0 where
  pub witness_utxo : Option TxOut
  pub leaf_scripts : List TapLeaf
  pub input_sighash : ℕ
  pub sigs : List TapSig

-- `psbt.Packet`
pub record Packet : Type 0 where
  pub unsigned_tx : MsgTx
  pub inputs : List PInput

-- The closures that ark-lib's decoder tells apart.
pub data Decoded : Type 0 where
  multisig_keys csv_keys cltv_keys : (keys : List Bytes) → Decoded
  other_closure : Decoded

-- What btcd and ark-lib do here: a parameter.
pub record TapLib : Type 0 where
  -- `schnorr.SerializePubKey`
  pub serialize : Bytes → Bytes
  -- `arkscript.DecodeClosure`
  pub decode_closure : Bytes → Option Decoded
  -- `CalcTapscriptSignaturehash`: the outputs that the transaction spends, the hash type, the
  -- transaction, the input's index and the leaf
  pub leaf_sighash : List (OutPoint × TxOut) → ℕ → MsgTx → ℕ → Bytes → Option Bytes
  -- `schnorr.Sign` and `Serialize`
  pub sign_leaf_digest : Bytes → Bytes → Option Bytes
  -- `NewTapLeaf(…).TapHash()`
  pub tap_hash : ℕ → Bytes → Bytes

-- the keys of a closure; the `default` case has none
abbrev closure_keys : Decoded → List Bytes
closure_keys (multisig_keys keys) = keys
closure_keys (csv_keys keys) = keys
closure_keys (cltv_keys keys) = keys
closure_keys other_closure = []

unfoldable pub names : TapLib → Bytes → List Bytes → Bool
names tap mine [] = false
names tap mine (key ∷ keys) = bytes_equal (tap.serialize key) mine || names tap mine keys

-- `leafNamesKey`
unfoldable pub leaf_names_key : TapLib → Bytes → Bytes → Bool
unfolding names
leaf_names_key tap leaf mine = elim (tap.decode_closure leaf) [
  | none ↦ false
  | some closure ↦ names tap mine (closure_keys closure)
]

-- The first loop of `SignTapscript`: what each input spends. An input that the transaction has not
-- is an index out of range.
unfoldable pub prev_outs : List PInput → List TxIn → Errors.Outcome (List (OutPoint × TxOut))
prev_outs [] ins = ok []
prev_outs (p ∷ ps) [] = elim p.witness_utxo [
  | none ↦ err Errors.no_witness_utxo
  | some _ ↦ err Errors.panics
]
prev_outs (p ∷ ps) (i ∷ is) =
    let rest = prev_outs ps is in
    elim p.witness_utxo [
      | none ↦ err Errors.no_witness_utxo
      | some utxo ↦ rest >>= λ outs. ok ((i.previous_out_point, utxo) ∷ outs)
    ]

module _ (tap : TapLib) (key : Bytes) (spent : List (OutPoint × TxOut)) (tx : MsgTx) where
  -- the signature of one leaf of an input
  unfoldable pub make_sig : ℕ → ℕ → TapLeaf → Errors.Outcome TapSig
  make_sig index hash_type leaf = do
    digest ← or_library_error (tap.leaf_sighash spent hash_type tx index leaf.script)
    sig ← map_err (λ _. Errors.sign_failed) (or_library_error (tap.sign_leaf_digest key digest))
    ok (record {
      x_only_pub_key = tap.serialize key;
      leaf_hash = tap.tap_hash leaf.leaf_version leaf.script;
      signature = sig;
      sighash_type = hash_type;
    })

  -- The inner loop: the input's signatures, and how many were added.
  unfoldable pub sign_leaves : ℕ → ℕ → List TapLeaf → List TapSig → List TapSig × Errors.Outcome ℕ
  sign_leaves index hash_type [] sigs = (sigs, ok 0)
  sign_leaves index hash_type (leaf ∷ leaves) sigs =
      elim (leaf_names_key tap leaf.script (tap.serialize key)) [
        | false ↦ sign_leaves index hash_type leaves sigs
        | true ↦ elim (make_sig index hash_type leaf) [
          | err e ↦ (sigs, err e)
          | ok sig ↦
              let rest = sign_leaves index hash_type leaves (sigs ++ sig ∷ []) in
              (rest.0, rest.1 >>= λ n. ok (suc n))
        ]
      ]

  -- The outer loop, from an index on. It stops at the first failure.
  unfoldable pub sign_inputs : ℕ → List PInput → List PInput × Errors.Outcome ℕ
  sign_inputs index [] = ([], ok 0)
  sign_inputs index (p ∷ ps) =
      let here = sign_leaves index p.input_sighash p.leaf_scripts p.sigs in
      let rest = sign_inputs (suc index) ps in
      let p' : PInput = record p { sigs = here.0 } in
      elim here.1 [ err e ↦ (p' ∷ ps, err e) | ok n ↦ (p' ∷ rest.0, rest.1 >>= λ m. ok (n + m)) ]

-- the loop over the inputs, and the test behind it
unfoldable pub signed_inputs :
    Packet → List PInput × Errors.Outcome ℕ → Packet × Errors.Outcome (Unit {0})
signed_inputs packet (inputs, signed) =
    (record packet { inputs = inputs }, signed >>= λ n. fail_if (n == 0) Errors.signs_nothing)

-- `SignTapscript`; `none` is a nil key. A packet is never nil here.
unfoldable pub sign_tapscript : TapLib → Option Bytes → Packet → Packet × Errors.Outcome (Unit {0})
sign_tapscript tap none packet = (packet, err Errors.nil_key)
sign_tapscript tap (some key) packet = elim (prev_outs packet.inputs packet.unsigned_tx.tx_in) [
  | err e ↦ (packet, err e)
  | ok spent ↦ signed_inputs packet (sign_inputs tap key spent packet.unsigned_tx 0 packet.inputs)
]

-- the loop of `SignRedemption` over the checkpoints
unfoldable pub sign_checkpoints :
    TapLib → Option Bytes → List Packet → List Packet × Errors.Outcome (Unit {0})
sign_checkpoints tap key [] = ([], ok tt)
sign_checkpoints tap key (p ∷ ps) =
    let here = sign_tapscript tap key p in
    let rest = sign_checkpoints tap key ps in
    elim here.1 [ err e ↦ (here.0 ∷ ps, err e) | ok _ ↦ (here.0 ∷ rest.0, rest.1) ]

-- the loop behind the ark transaction's signatures, unless these failed
unfoldable pub close_signed :
    TapLib
    → Option Bytes
    → List Packet
    → Packet × Errors.Outcome (Unit {0})
    → (Packet × List Packet) × Errors.Outcome (Unit {0})
close_signed tap key checkpoints (ark_tx, err e) = ((ark_tx, checkpoints), err e)
close_signed tap key checkpoints (ark_tx, ok _) =
    let rest = sign_checkpoints tap key checkpoints in ((ark_tx, rest.0), rest.1)

-- `SignRedemption`, of the ark transaction, `none` where it is nil, and its checkpoints
unfoldable pub sign_close :
    TapLib
    → Option Bytes
    → Option Packet
    → List Packet
    → Option (Packet × List Packet) × Errors.Outcome (Unit {0})
sign_close tap key none checkpoints = (none, err Errors.no_redemption)
sign_close tap key (some ark_tx) checkpoints =
    let done = close_signed tap key checkpoints (sign_tapscript tap key ark_tx) in
    (some done.0, done.1)
