-- ===== src/Arkade/Outputs.antt =====
-- What the client's transactions pay (arkade/funding.go, settle.go).
use hedge_arkade.Common.{
  length, get_elem?, Bytes, bytes_equal_iff, ok, >>=-eq-ok, past_fail_if, ℕ, zero, suc, ◌+◌, ◌<◌,
  ◌≡◌, refl, sym, ◌∙◌, not, Option, none, some, List, [], ◌∷◌, ◌++◌, arith, ap, ok-inj,
}
use hedge_arkade.Common.Int.{ℤ, ◌<ℤ◌, leb_ℤ, ◌==ℤ◌, ==ℤ_iff, add64, sub64}
use hedge_arkade.Contract.Tx.{TxOut}
use hedge_arkade.Arkade.Client.{
  wrong_stakes, dust_change, called, Collateral, change_output, build_bilateral_funding,
  add_extension,
}

called-eq-ok : {A : Type 0} (o : Option A) {a : A} → called o ≡ ok a → o ≡ some a
called-eq-ok none h = absurd (cc)
called-eq-ok (some b) h = cc

change_output-eq-ok :
    (dust amount stake : ℤ) (script : Bytes) {out : TxOut}
    → change_output dust amount stake script ≡ ok out
    → (dust <ℤ sub64 amount stake)
      × (out ≡ record { value = sub64 amount stake; pk_script = script })
unfolding change_output
change_output-eq-ok dust amount stake script h =
    let (above, e) = past_fail_if (leb_ℤ (sub64 amount stake) dust) dust_change _ h in
    (ground (arith, above), cc)

module _ {Input Packet : Type 0} (build_txs : List Input → List TxOut → Option Packet)
    (short_vtxo long_vtxo : ℤ → Option (Collateral Input)) (dust : ℤ) where
  -- A funding transaction that is built has an input from each party. It pays the covenant's address
  -- exactly the payout, which is the `int64` sum of the two stakes, and each party the rest of its own
  -- collateral, above the operator's dust.
  pub build_bilateral_funding_pays :
      (payout_sats : ℤ) (pk_script : Option Bytes) (short_sats long_sats : ℤ) (packet : Packet)
      (outputs : List TxOut)
      → build_bilateral_funding build_txs short_vtxo long_vtxo dust payout_sats pk_script short_sats
          long_sats
        ≡ ok (packet, outputs)
      → (script : Bytes) × (short : Collateral Input) × (long : Collateral Input) × (pk_script
          ≡ some script)
        × (short_vtxo short_sats ≡ some short)
        × (long_vtxo long_sats ≡ some long)
        × (build_txs (short.input ∷ long.input ∷ []) outputs ≡ some packet)
        × (add64 short_sats long_sats ≡ payout_sats)
        × (dust <ℤ sub64 short.amount short_sats)
        × (dust <ℤ sub64 long.amount long_sats)
        × (outputs
            ≡ record { value = payout_sats; pk_script = script }
              ∷ record { value = sub64 short.amount short_sats; pk_script = short.change_script }
              ∷ record { value = sub64 long.amount long_sats; pk_script = long.change_script }
              ∷ [])
  unfolding build_bilateral_funding
  build_bilateral_funding_pays payout_sats pk_script short_sats long_sats packet outputs h =
      let (adds, h1) =
        past_fail_if (not (add64 short_sats long_sats ==ℤ payout_sats)) wrong_stakes _ h in
      let (script, es, h2) = >>=-eq-ok (called pk_script) _ h1 in
      let (short, ei, h3) = >>=-eq-ok (called (short_vtxo short_sats)) _ h2 in
      let (long, el, h4) = >>=-eq-ok (called (long_vtxo long_sats)) _ h3 in
      let (out1, e1, h5) =
        >>=-eq-ok (change_output dust short.amount short_sats short.change_script) _ h4 in
      let (out2, e2, h6) =
        >>=-eq-ok (change_output dust long.amount long_sats long.change_script) _ h5 in
      let (built, eb, h7) =
        >>=-eq-ok
          (called (
            build_txs (short.input ∷ long.input ∷ [])
              (record { value = payout_sats; pk_script = script } ∷ out1 ∷ out2 ∷ [])))
          _ h6 in
      let (above1, is1) = change_output-eq-ok dust short.amount short_sats short.change_script e1 in
      let (above2, is2) = change_output-eq-ok dust long.amount long_sats long.change_script e2 in
      let same = ok-inj h7 in
      (
        script,
        short,
        long,
        called-eq-ok _ es,
        called-eq-ok _ ei,
        called-eq-ok _ el,
        ap (build_txs (short.input ∷ long.input ∷ [])) (sym (ap (λ x. x.1) same))
            ∙ called-eq-ok _ eb
            ∙ ap some (ap (λ x. x.0) same),
        ground (arith, adds, ==ℤ_iff (add64 short_sats long_sats) payout_sats),
        above1,
        above2,
        sym (ap (λ x. x.1) same)
            ∙ ap (λ x. record { value = payout_sats; pk_script = script } ∷ x ∷ out2 ∷ []) is1
            ∙ ap
                (λ y.
                  record { value = payout_sats; pk_script = script }
                  ∷ record {
                    value = sub64 short.amount short_sats;
                    pk_script = short.change_script;
                  }
                  ∷ y
                  ∷ [])
                is2,
      )

-- The extension goes behind every output but an anchor: what a transaction pays keeps its place.
pub get_elem?-add_extension :
    (anchor : Bytes) (ext : TxOut) (outs : List TxOut) (i : ℕ)
    → i + 1 < length outs
    → get_elem? (add_extension anchor ext outs) i ≡ get_elem? outs i
unfolding add_extension
get_elem?-add_extension anchor ext [] i h = absurd (omega arith)
get_elem?-add_extension anchor ext (o ∷ []) i h = absurd (omega arith)
get_elem?-add_extension anchor ext (o ∷ p ∷ outs) zero h = refl
get_elem?-add_extension anchor ext (o ∷ p ∷ outs) (suc i) h =
    get_elem?-add_extension anchor ext (p ∷ outs) i (omega arith)

-- Where the outputs end in the anchor, the extension stands right before it, and every output in front
-- keeps its place.
pub add_extension-anchored :
    (anchor : Bytes) (ext last : TxOut) (outs : List TxOut)
    → last.pk_script ≡ anchor
    → add_extension anchor ext (outs ++ last ∷ []) ≡ outs ++ ext ∷ last ∷ []
unfolding add_extension
add_extension-anchored anchor ext last [] h = ground (arith, bytes_equal_iff last.pk_script anchor)
add_extension-anchored anchor ext last (o ∷ []) h =
    ap (λ xs. o ∷ xs) (add_extension-anchored anchor ext last [] h)
add_extension-anchored anchor ext last (o ∷ p ∷ outs) h =
    ap (λ xs. o ∷ xs) (add_extension-anchored anchor ext last (p ∷ outs) h)
