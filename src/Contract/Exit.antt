-- ===== src/Contract/Exit.antt =====
-- The unilateral exit (contract/exit.go): its transaction, the 2-of-3 it pays to, and the witness
-- that spends the 2-of-3.
use hedge_arkade.Common.{
  ltb, ◌==◌, if◌then◌else◌, length, Bytes, bytes_equal, ◌>>=◌, ◌>>◌, map_err, ℕ, zero, suc, not,
  Option, List, [], ◌∷◌, ◌++◌, map, reverse, ok, fail_if,
}
use hedge_arkade.Common.Int.{ℤ, pos, ltb_ℤ, leb_ℤ, sub64}
use hedge_arkade.Contract.Errors
use hedge_arkade.Contract.Library.{ArkLib}
use hedge_arkade.Contract.Terms.{dust}
use hedge_arkade.Contract.Tx.{OutPoint, MsgTx}
use hedge_arkade.Contract.Vtxo.{Contract, or_nil, or_library_error}

-- `SweepThreshold`
abbrev pub sweep_threshold : ℕ
sweep_threshold = 2

pub record Sweep : Type 0 where
  pub keys : List Bytes
  pub leaf : Bytes
  pub control_block : Bytes
  pub pk_script : Bytes

-- What btcd makes of the 2-of-3 leaf: the taproot tree with this one leaf under the unspendable
-- internal key, as the control block and the scriptPubKey, or an error.
pub record SweepLib : Type 0 where
  -- the opcodes CHECKSIG, CHECKSIGADD and NUMEQUAL with the pushes between them, assembled
  pub threshold_leaf : List Bytes → ℕ → Option Bytes
  pub single_leaf_tree : Bytes → Option (Bytes × Bytes)

-- `NewSweep`
unfoldable pub new_sweep :
    ArkLib → SweepLib → Option Bytes → Option Bytes → Option Bytes → Errors.Outcome Sweep
new_sweep ark lib short long service = do
  s ← or_nil short
  l ← or_nil long
  v ← or_nil service
  let keys = s ∷ l ∷ v ∷ []
  leaf ← or_library_error (lib.threshold_leaf (map ark.x_only keys) sweep_threshold)
  tree ← or_library_error (lib.single_leaf_tree leaf)
  ok (record { keys = keys; leaf = leaf; control_block = tree.0; pk_script = tree.1 })

-- A Go map from x-only keys (in hex there) to signatures; a missing key reads as empty.
abbrev pub SigMap : Type 0
SigMap = List (Bytes × Bytes)

unfoldable pub sig_of : Bytes → SigMap → Bytes
sig_of key [] = []
sig_of key ((k, sig) ∷ m) = if bytes_equal k key then sig else sig_of key m

-- The first loop of `Witness`: for each key in script order the signature that goes in, empty for
-- none. `room` is how many are still wanted.
unfoldable pub choose_sigs : ArkLib → SigMap → List Bytes → ℕ → List Bytes
choose_sigs ark sigs [] room = []
choose_sigs ark sigs (key ∷ keys) zero = [] ∷ choose_sigs ark sigs keys zero
choose_sigs ark sigs (key ∷ keys) (suc room) =
    let sig = sig_of (ark.x_only key) sigs in
    sig ∷ choose_sigs ark sigs keys (if length sig == 0 then suc room else room)

-- `len(use)`
unfoldable pub count_sigs : List Bytes → ℕ
count_sigs [] = 0
count_sigs ([] ∷ rest) = count_sigs rest
count_sigs ((b ∷ bs) ∷ rest) = suc (count_sigs rest)

-- `Sweep.Witness`: the chosen signatures, last key first, then the leaf and its control block.
unfoldable pub witness : ArkLib → Sweep → SigMap → Errors.Outcome (List Bytes)
witness ark sweep sigs = do
  let chosen = choose_sigs ark sigs sweep.keys sweep_threshold
  fail_if (ltb (count_sigs chosen) sweep_threshold) Errors.too_few_signatures
  ok (reverse chosen ++ (sweep.leaf ∷ sweep.control_block ∷ []))

-- `ExitTx`
unfoldable pub exit_tx : ArkLib → Contract → OutPoint → ℤ → ℤ → Bytes → Errors.Outcome MsgTx
exit_tx ark c outpoint amount fee_sats sweep_pk_script = do
  fail_if (leb_ℤ amount (pos 0)) Errors.amount_not_positive
  fail_if (ltb_ℤ fee_sats (pos 0)) Errors.fee_negative
  fail_if (ltb_ℤ (sub64 amount fee_sats) (pos dust)) Errors.leaves_less_than_dust
  fail_if (length sweep_pk_script == 0) Errors.sweep_script_empty
  sequence ←
      map_err (λ _. Errors.bad_exit_delay) (or_library_error (ark.bip68_sequence c.exit_delay))
  ok (record {
    version = 2;
    tx_in = record { previous_out_point = outpoint; sequence = sequence; witness = [] } ∷ [];
    tx_out = record { value = sub64 amount fee_sats; pk_script = sweep_pk_script } ∷ [];
  })

-- A party's private key, by its public key; `none` is nil.
-- `signerMatches`
unfoldable pub signer_matches : ArkLib → Option Bytes → Option Bytes → Errors.Outcome (Unit {0})
signer_matches ark key expected = do
  mine ← or_nil key
  theirs ← or_nil expected
  fail_if (not (bytes_equal (ark.x_only mine) (ark.x_only theirs))) Errors.key_mismatch
