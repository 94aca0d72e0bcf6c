-- ===== src/Contract/Early.antt =====
-- What the checks on an early close mean (contract/redemption.go).
use hedge_arkade.Common.{
  ◌==◌, Bool-cases, length, Bytes, bytes_equal, bytes_equal_iff, ok, >>=-eq-ok, past_fail_if, ◌≡◌,
  refl, ap, ◌∙◌, ◌↔◌, inl, inr, not, ◌||◌, some, List, [], ◌∷◌, ◌++◌, arith, ◌⊎◌, ==_iff,
}
use hedge_arkade.Common.Int.{ℤ, pos, ◌+ℤ◌, ◌≤ℤ◌, ◌==ℤ◌, ==ℤ_iff, IsInt64, add64}
use hedge_arkade.Contract.Errors
use hedge_arkade.Contract.Library.{Library, ArkLib}
use hedge_arkade.Contract.Terms.{Terms, dust, settlement_split}
use hedge_arkade.Contract.Tx.{OutPoint, TxIn, TxOut, MsgTx, out_point_eq_iff}
use hedge_arkade.Contract.Vtxo.{Contract}
use hedge_arkade.Contract.Arbitration.{contract_price, payouts}
use hedge_arkade.Contract.Redemption.{
  Redemption, Offchain, check_split, propose_redemption, recomputed_split, priced_split,
  pays_outputs, spends_contract, check_checkpoint, verify_redemption,
}

-- Over a payout in `int64` that is not negative and two amounts in `int64`, a split is accepted
-- exactly when each side has dust and the two make up the payout, also where the machine sum
-- wraps.
pub check_split_iff :
    (t : Terms) (short long : ℤ)
    → IsInt64 short
    → IsInt64 long
    → pos 0 ≤ℤ t.payout_sats
    → IsInt64 t.payout_sats
    → (check_split t short long ≡ ok tt)
      ↔ ((pos dust ≤ℤ short) × (pos dust ≤ℤ long) × (short +ℤ long ≡ t.payout_sats))
unfolding check_split add64 ◌+ℤ◌
check_split_iff t short long fs fl hp fp = (λ h. ground arith, λ h. ground arith)

-- The outputs that were wanted come first.
pays_outputs-eq-ok :
    (wants gots : List TxOut)
    → pays_outputs wants gots ≡ ok tt
    → (rest : List TxOut) × (gots ≡ wants ++ rest)
unfolding pays_outputs
pays_outputs-eq-ok [] gots h = (gots, refl)
pays_outputs-eq-ok (w ∷ ws) [] h = absurd (cc)
pays_outputs-eq-ok (w ∷ ws) (g ∷ gs) h =
    let (value_ok, h1) = past_fail_if (not (g.value ==ℤ w.value)) Errors.wrong_amount _ h in
    let (script_ok, h2) =
      past_fail_if (not (bytes_equal g.pk_script w.pk_script)) Errors.wrong_recipient _ h1 in
    let (rest, e) = pays_outputs-eq-ok ws gs h2 in
    (rest, ground (arith, bytes_equal_iff g.pk_script w.pk_script))

-- One checkpoint with one input, which spends the contract.
abbrev pub Closes : OutPoint → List MsgTx → Type 0
Closes outpoint checkpoints =
    (checkpoint : MsgTx) × (input : TxIn) × (checkpoints ≡ checkpoint ∷ [])
    × (checkpoint.tx_in ≡ input ∷ [])
    × (input.previous_out_point ≡ outpoint)

spends_contract-eq-ok :
    (outpoint : OutPoint) (inputs : List TxIn)
    → spends_contract outpoint inputs ≡ ok tt
    → (input : TxIn) × (inputs ≡ input ∷ []) × (input.previous_out_point ≡ outpoint)
unfolding spends_contract
spends_contract-eq-ok outpoint [] h = absurd (cc)
spends_contract-eq-ok outpoint (i ∷ []) h =
    (i, refl, (out_point_eq_iff i.previous_out_point outpoint).0 (ground arith))
spends_contract-eq-ok outpoint (i ∷ j ∷ r) h = absurd (cc)

check_checkpoint-eq-ok :
    (outpoint : OutPoint) (checkpoints : List MsgTx)
    → check_checkpoint outpoint checkpoints ≡ ok tt
    → Closes outpoint checkpoints
unfolding check_checkpoint
check_checkpoint-eq-ok outpoint [] h = absurd (cc)
check_checkpoint-eq-ok outpoint (k ∷ []) h =
    let (i, ei, eo) = spends_contract-eq-ok outpoint k.tx_in h in (k, i, refl, ei, eo)
check_checkpoint-eq-ok outpoint (k ∷ l ∷ r) h = absurd (cc)

module _ (lib : Library) (ark : ArkLib) (num : ℤ → Bytes) (off : Offchain) (c : Contract) where
  -- The split that a proposal is held to: its own, and the rule's at the signed price where it
  -- carries a signature.
  abbrev pub Agreed : Redemption → Type 0
  Agreed r =
      (length r.signature ≡ 0)
      ⊎ ((price : ℤ) × (contract_price lib c r.message r.signature ≡ ok price)
          × (settlement_split c.terms price ≡ ok (r.short_sats, r.long_sats)))

  recomputed_split-eq-ok :
      (r : Redemption) {split : ℤ × ℤ}
      → recomputed_split lib ark num off c r ≡ ok split
      → (split ≡ (r.short_sats, r.long_sats))
        × (price : ℤ) × (contract_price lib c r.message r.signature ≡ ok price)
        × (settlement_split c.terms price ≡ ok split)
  unfolding recomputed_split
  recomputed_split-eq-ok r h =
      let (price, ep, h1) = >>=-eq-ok (contract_price lib c r.message r.signature) _ h in
      let (split, es, h2) = >>=-eq-ok (settlement_split c.terms price) _ h1 in
      let (same, h3) =
        past_fail_if (not (split.0 ==ℤ r.short_sats) || not (split.1 ==ℤ r.long_sats))
          Errors.price_disagrees _ h2 in
      (
        ground (arith, ==ℤ_iff split.0 r.short_sats, ==ℤ_iff split.1 r.long_sats),
        price,
        ep,
        ground arith,
      )

  priced_split-eq-ok :
      (r : Redemption) {split : ℤ × ℤ}
      → priced_split lib ark num off c r ≡ ok split
      → (split ≡ (r.short_sats, r.long_sats)) × Agreed r
  unfolding priced_split
  priced_split-eq-ok r {split} h = elim (Bool-cases (length r.signature == 0)) [
    | inl unsigned ↦ (ground arith, inl ((==_iff (length r.signature) 0).0 unsigned))
    | inr signed ↦
        let (same, price, ep, es) = recomputed_split-eq-ok r {split = split} (ground arith) in
        (same, inr (price, ep, es ∙ ap ok same))
  ]

  -- A proposal that passes the check has one checkpoint with one input, which spends the contract
  -- that the party means to close; its first two outputs pay the stated split, which `checkSplit`
  -- accepts; it has the transaction id of the proposal that the party would build for that split;
  -- and where it carries an oracle signature, the split is `SettlementSplit`'s at the signed
  -- price.
  pub verify_redemption_sound :
      (r : Redemption) (outpoint : OutPoint) (checkpoint_tapscript : Bytes)
      → verify_redemption lib ark num off c (some r) outpoint checkpoint_tapscript ≡ ok tt
      → Closes outpoint r.checkpoints
        × (rest : List TxOut) × (expected : Redemption) × (check_split c.terms r.short_sats
              r.long_sats
            ≡ ok tt)
        × (r.ark_tx.tx_out ≡ payouts c.terms r.short_sats r.long_sats ++ rest)
        × (propose_redemption lib ark num off c outpoint r.short_sats r.long_sats
              checkpoint_tapscript
            ≡ ok expected)
        × (off.tx_id expected.ark_tx ≡ off.tx_id r.ark_tx)
        × Agreed r
  unfolding verify_redemption
  verify_redemption_sound r outpoint tapscript h =
      let (one, h1) =
        past_fail_if (not (length r.ark_tx.tx_in == 1)) Errors.wrong_input_count _ h in
      let (_, ek, h2) = >>=-eq-ok (check_checkpoint outpoint r.checkpoints) _ h1 in
      let (split, es, h3) = >>=-eq-ok (priced_split lib ark num off c r) _ h2 in
      let (same, agreed) = priced_split-eq-ok r es in
      let (_, ec, h4) = >>=-eq-ok (check_split c.terms split.0 split.1) _ h3 in
      let (_, eo, h5) =
        >>=-eq-ok (pays_outputs (payouts c.terms split.0 split.1) r.ark_tx.tx_out) _ h4 in
      let (expected, ee, h6) =
        >>=-eq-ok (propose_redemption lib ark num off c outpoint split.0 split.1 tapscript) _ h5 in
      let (tx_same, h7) =
        past_fail_if (not (bytes_equal (off.tx_id expected.ark_tx) (off.tx_id r.ark_tx)))
          Errors.not_the_transaction _ h6 in
      let (rest, er) = pays_outputs-eq-ok (payouts c.terms split.0 split.1) r.ark_tx.tx_out eo in
      (
        check_checkpoint-eq-ok outpoint r.checkpoints ek,
        rest,
        expected,
        rw same at ec,
        rw same at er,
        rw same at ee,
        (bytes_equal_iff (off.tx_id expected.ark_tx) (off.tx_id r.ark_tx)).0 (ground arith),
        agreed,
      )
