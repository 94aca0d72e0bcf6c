-- ===== src/Contract/Redemption.antt =====
-- The early close through the redemption leaf (contract/redemption.go): building it and a party's
-- check of it. A packet stands for its unsigned transaction, which is all that is read here.
use hedge_arkade.Common.{
  ◌==◌, if◌then◌else◌, length, Bytes, bytes_equal, err, ◌>>=◌, ◌>>◌, Bool, not, ◌||◌, none, some,
  List, [], ◌∷◌, Option, fail_if, ok,
}
use hedge_arkade.Common.Int.{ℤ, pos, ltb_ℤ, ◌==ℤ◌, add64}
use hedge_arkade.Contract.Errors
use hedge_arkade.Contract.Library.{Library, ArkLib}
use hedge_arkade.Contract.Terms.{Terms, dust, clamp, settlement_split}
use hedge_arkade.Contract.Tx.{OutPoint, TxIn, TxOut, MsgTx, out_point_eq}
use hedge_arkade.Contract.Vtxo.{Contract, Closure, Leaf, closures, leaf_closure, or_library_error}
use hedge_arkade.Contract.Arbitration.{contract_price, payouts}

-- `offchain.VtxoInput`: the contract's output, with the leaf that is revealed and the whole tree.
pub record VtxoInput : Type 0 where
  pub outpoint : OutPoint
  pub revealed : Closure
  pub tree : List Closure
  pub amount : ℤ

-- What ark-lib's package offchain and btcd do here: a parameter.
pub record Offchain : Type 0 where
  -- the leaf's script, its control block and the encoded tree can be made
  pub reveals : List Closure → Closure → Bool
  -- `offchain.BuildTxs` of one input: the ark transaction and its checkpoints, or an error
  pub build_txs : VtxoInput → List TxOut → Bytes → Option (MsgTx × List MsgTx)
  -- `MsgTx.TxID`
  pub tx_id : MsgTx → Bytes

pub record Redemption : Type 0 where
  pub ark_tx : MsgTx
  pub checkpoints : List MsgTx
  pub short_sats : ℤ
  pub long_sats : ℤ
  pub price : ℤ
  pub message : Bytes
  pub signature : Bytes

-- `checkSplit`
unfoldable pub check_split : Terms → ℤ → ℤ → Errors.Outcome (Unit {0})
check_split t short long = do
  fail_if (ltb_ℤ short (pos dust) || ltb_ℤ long (pos dust)) Errors.split_below_dust
  fail_if (not (add64 short long ==ℤ t.payout_sats)) Errors.split_wrong_sum

module _ (lib : Library) (ark : ArkLib) (num : ℤ → Bytes) (off : Offchain) (c : Contract) where
  -- `RedemptionInput`
  unfoldable pub redemption_input : OutPoint → Errors.Outcome VtxoInput
  redemption_input outpoint = do
    leaf ← leaf_closure lib ark num c Leaf.mutual_redemption
    tree ← closures lib ark num c
    fail_if (not (off.reveals tree leaf)) Errors.library_error
    ok (record { outpoint = outpoint; revealed = leaf; tree = tree; amount = c.terms.payout_sats })

  -- `ProposeRedemption`
  unfoldable pub propose_redemption : OutPoint → ℤ → ℤ → Bytes → Errors.Outcome Redemption
  propose_redemption outpoint short long checkpoint_tapscript = do
    check_split c.terms short long
    input ← redemption_input outpoint
    built ← or_library_error (off.build_txs input (payouts c.terms short long) checkpoint_tapscript)
    ok (record {
      ark_tx = built.0;
      checkpoints = built.1;
      short_sats = short;
      long_sats = long;
      price = pos 0;
      message = [];
      signature = [];
    })

  -- `ProposeRedemptionAt`
  unfoldable pub propose_redemption_at :
      OutPoint → Bytes → Bytes → Bytes → Errors.Outcome Redemption
  propose_redemption_at outpoint checkpoint_tapscript message signature = do
    price ← contract_price lib c message signature
    split ← settlement_split c.terms price
    r ← propose_redemption outpoint split.0 split.1 checkpoint_tapscript
    ok (record r { price = clamp c.terms price; message = message; signature = signature })

  -- the split of a priced proposal, recomputed
  unfoldable pub recomputed_split : Redemption → Errors.Outcome (ℤ × ℤ)
  recomputed_split r = do
    price ← contract_price lib c r.message r.signature
    split ← settlement_split c.terms price
    fail_if (not (split.0 ==ℤ r.short_sats) || not (split.1 ==ℤ r.long_sats)) Errors.price_disagrees
    ok split

  -- the part of `VerifyRedemption` that finds the split to hold the proposal to
  unfoldable pub priced_split : Redemption → Errors.Outcome (ℤ × ℤ)
  unfolding recomputed_split
  priced_split r =
      if length r.signature == 0 then ok (r.short_sats, r.long_sats) else recomputed_split r

-- The loop of `VerifyRedemption` over the two wanted outputs.
unfoldable pub pays_outputs : List TxOut → List TxOut → Errors.Outcome (Unit {0})
pays_outputs [] got = ok tt
pays_outputs (want ∷ wants) [] = err Errors.missing_output
pays_outputs (want ∷ wants) (got ∷ gots) = do
  fail_if (not (got.value ==ℤ want.value)) Errors.wrong_amount
  fail_if (not (bytes_equal got.pk_script want.pk_script)) Errors.wrong_recipient
  pays_outputs wants gots

-- Its last loop: each expected checkpoint against the one at its index.
unfoldable pub same_checkpoints : Offchain → List MsgTx → List MsgTx → Errors.Outcome (Unit {0})
same_checkpoints off [] got = ok tt
same_checkpoints off (want ∷ wants) [] = err Errors.panics
same_checkpoints off (want ∷ wants) (got ∷ gots) = do
  fail_if (not (bytes_equal (off.tx_id want) (off.tx_id got))) Errors.not_the_checkpoint
  same_checkpoints off wants gots

-- The tests on the checkpoints: one of them, with one input, which spends the contract.
unfoldable pub spends_contract : OutPoint → List TxIn → Errors.Outcome (Unit {0})
spends_contract outpoint (i ∷ []) =
    fail_if (not (out_point_eq i.previous_out_point outpoint)) Errors.wrong_outpoint
spends_contract outpoint _ = err Errors.wrong_checkpoint_inputs

unfoldable pub check_checkpoint : OutPoint → List MsgTx → Errors.Outcome (Unit {0})
unfolding spends_contract
check_checkpoint outpoint (checkpoint ∷ []) = spends_contract outpoint checkpoint.tx_in
check_checkpoint outpoint _ = err Errors.wrong_checkpoint_count

module _ (lib : Library) (ark : ArkLib) (num : ℤ → Bytes) (off : Offchain) (c : Contract) where
  -- `VerifyRedemption`; `none` is a nil proposal.
  unfoldable pub verify_redemption :
      Option Redemption → OutPoint → Bytes → Errors.Outcome (Unit {0})
  verify_redemption none outpoint checkpoint_tapscript = err Errors.no_redemption
  verify_redemption (some r) outpoint checkpoint_tapscript = do
    fail_if (not (length r.ark_tx.tx_in == 1)) Errors.wrong_input_count
    check_checkpoint outpoint r.checkpoints
    split ← priced_split lib ark num off c r
    check_split c.terms split.0 split.1
    pays_outputs (payouts c.terms split.0 split.1) r.ark_tx.tx_out
    expected ← propose_redemption lib ark num off c outpoint split.0 split.1 checkpoint_tapscript
    fail_if (not (bytes_equal (off.tx_id expected.ark_tx) (off.tx_id r.ark_tx)))
        Errors.not_the_transaction
    same_checkpoints off expected.checkpoints r.checkpoints
