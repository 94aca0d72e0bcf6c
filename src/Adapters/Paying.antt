-- ===== src/Adapters/Paying.antt =====
-- What a settlement that the service builds pays, and where (service/internal/app/settlement.go,
-- `finishSettling`, over `BuildSettlement` of arkade/settle.go).
use hedge_arkade.Contract.Redemption.{VtxoInput}
use hedge_arkade.Contract.Tx.{MsgTx, OutPoint, TxOut}
use hedge_arkade.Contract.Vtxo.{
  Contract as Covenant, Leaf, or_library_error, settlement_script_bytes,
}
use hedge_arkade.Arkade.Client.{settlement_witness, settlement_outputs, add_extension}
use hedge_arkade.Arkade.Outputs.{add_extension-anchored}
use hedge_arkade.Adapters.Submitting.{CloseLib, build_settlement, contract_input}
use hedge_arkade.UseCases.Ports.{Ports, FeedPair}
use std.Path.{subst}
use hedge_arkade.Domain.Records.{Contract, covenant, parse_key, split, from_contract}
use hedge_arkade.UseCases.Packages.{settlement_owed}
use hedge_arkade.UseCases.Answers.{mapped-eq-ok}
use hedge_arkade.Common.{
  Bytes, ok, map_err, ok-inj, ◌≡◌, ap, ◌∙◌, Option, none, some, List, [], ◌∷◌, ◌++◌, >>=-eq-ok, sym,
}
use hedge_arkade.Common.Int.{ℤ}
use hedge_arkade.Contract.Arbitration.{contract_price}
use hedge_arkade.Contract.Terms.{settlement_split}

-- `BuildTxs` puts the anchor behind the outputs that it is given, and nothing else.
abbrev pub KeepsOutputs : CloseLib → Type 0
KeepsOutputs lib =
    (input : VtxoInput) (outs : List TxOut) (tapscript : Bytes) (tx : MsgTx)
    (checkpoints : List MsgTx)
    → lib.off.build_txs input outs tapscript ≡ some (tx, checkpoints)
    → (last : TxOut) × (tx.tx_out ≡ outs ++ last ∷ []) × (last.pk_script ≡ lib.anchor)

library_answer : {A : Type 0} (r : Option A) {a : A} → or_library_error r ≡ ok a → r ≡ some a
library_answer none h = absurd (cc)
library_answer (some a) h = cc

module _ (ports : Ports) (lib : CloseLib) where
  -- the outputs of a settlement that is built, whatever it pays
  build_settlement_outputs :
      (cov : Covenant) (outpoint : OutPoint) (short long : ℤ) (stack : List Bytes) {tx : MsgTx}
      {checkpoints : List MsgTx}
      → KeepsOutputs lib
      → build_settlement ports lib cov outpoint short long stack ≡ ok (tx, checkpoints)
      → (script : Bytes) × (ext : TxOut) × (last : TxOut) × (settlement_script_bytes ports.library
            ports.ark ports.num cov.terms
          ≡ ok script)
        × (lib.extension script stack ≡ some ext)
        × (last.pk_script ≡ lib.anchor)
        × (tx.tx_out ≡ settlement_outputs cov.terms short long ++ ext ∷ last ∷ [])
  unfolding build_settlement
  build_settlement_outputs cov outpoint short long stack keeps h =
      let (input, _, h1) =
        >>=-eq-ok (contract_input ports lib cov Leaf.settlement outpoint cov.terms.payout_sats) _
          h in
      let (built, eb, h2) =
        >>=-eq-ok
          (or_library_error (
            lib.off.build_txs input (settlement_outputs cov.terms short long)
              lib.checkpoint_tapscript))
          _ h1 in
      let (script, es, h3) =
        >>=-eq-ok (settlement_script_bytes ports.library ports.ark ports.num cov.terms) _ h2 in
      let (ext, ee, h4) = >>=-eq-ok (or_library_error (lib.extension script stack)) _ h3 in
      let (last, eo, anchored) =
        keeps input (settlement_outputs cov.terms short long) lib.checkpoint_tapscript built.0
          built.1 (library_answer _ eb) in
      (
        script,
        ext,
        last,
        es,
        library_answer _ ee,
        anchored,
        sym (ap (λ p. p.0.tx_out) (ok-inj h4))
            ∙ ap (λ outs. add_extension lib.anchor ext outs) eo
            ∙ add_extension-anchored lib.anchor ext last (settlement_outputs cov.terms short long)
                anchored,
      )

  covenant-terms :
      (c : Contract) {cov : Covenant}
      → covenant ports.parse_pub_key c ≡ ok cov
      → cov.terms ≡ c.terms
  unfolding covenant
  covenant-terms c h =
      let (s, _, h1) = >>=-eq-ok (parse_key ports.parse_pub_key c.short_key) _ h in
      let (l, _, h2) = >>=-eq-ok (parse_key ports.parse_pub_key c.long_key) _ h1 in
      let (a, _, h3) = >>=-eq-ok (parse_key ports.parse_pub_key c.arkd_signer) _ h2 in
      let (e, _, h4) = >>=-eq-ok (parse_key ports.parse_pub_key c.emulator_signer) _ h3 in
      sym (ap (λ v. v.terms) (ok-inj h4))

  owed-Split :
      (c : Contract) (pair : FeedPair) {cov : Covenant} {owed : ℤ × ℤ}
      → covenant ports.parse_pub_key c ≡ ok cov
      → settlement_owed ports c pair ≡ ok owed
      → (price : ℤ) × (contract_price ports.library cov pair.settlement.message
            pair.settlement.signature
          ≡ ok price)
        × (settlement_split cov.terms price ≡ ok owed)
  unfolding settlement_owed split
  owed-Split c pair {cov} ec h =
      let (cov', ec', h1) = >>=-eq-ok (covenant ports.parse_pub_key c) _ h in
      let (price, ep, h2) =
        >>=-eq-ok
          (map_err from_contract
            (contract_price ports.library cov' pair.settlement.message pair.settlement.signature))
          _ h1 in
      let same : cov' ≡ cov = ok-inj (sym ec' ∙ ec) in
      (
        price,
        subst
            (λ v.
              contract_price ports.library v pair.settlement.message pair.settlement.signature
              ≡ ok price)
            same
            (mapped-eq-ok
              (contract_price ports.library cov' pair.settlement.message pair.settlement.signature)
              ep),
        rw (covenant-terms c ec) (mapped-eq-ok (settlement_split c.terms price) h2),
      )

  -- Where `BuildTxs` keeps the outputs that it is given and puts the anchor behind them: the settlement
  -- that the service builds from the signed pair pays, by the price in the message and by the contract's
  -- payout rule, the short's lock script in output 0 and the long's in output 1, where the covenant looks
  -- for them; then come the extension, of an entry with the contract's own script and with the two
  -- signed messages as its witness, the predecessor's on top, and the anchor, and nothing else.
  pub settlement_pays_owed :
      (c : Contract) (pair : FeedPair) (outpoint : OutPoint) {cov : Covenant} {owed : ℤ × ℤ}
      {tx : MsgTx} {checkpoints : List MsgTx}
      → KeepsOutputs lib
      → covenant ports.parse_pub_key c ≡ ok cov
      → settlement_owed ports c pair ≡ ok owed
      → build_settlement ports lib cov outpoint owed.0 owed.1
          (settlement_witness pair.settlement pair.previous)
        ≡ ok (tx, checkpoints)
      → (price : ℤ) × (script : Bytes) × (ext : TxOut) × (last : TxOut) × (contract_price
            ports.library cov pair.settlement.message pair.settlement.signature
          ≡ ok price)
        × (settlement_split cov.terms price ≡ ok owed)
        × (settlement_script_bytes ports.library ports.ark ports.num cov.terms ≡ ok script)
        × (lib.extension script (
              pair.settlement.signature ∷ pair.settlement.message ∷ pair.previous.signature
              ∷ pair.previous.message ∷ [])
            ≡ some ext)
        × (last.pk_script ≡ lib.anchor)
        × (tx.tx_out
            ≡ record { value = owed.0; pk_script = cov.terms.short_lock_script }
              ∷ record { value = owed.1; pk_script = cov.terms.long_lock_script }
              ∷ ext
              ∷ last
              ∷ [])
  settlement_pays_owed c pair outpoint {cov} {owed} keeps ec eo eb =
      let (price, ep, es) = owed-Split c pair ec eo in
      let (script, ext, last, built, extended, anchored, outs) =
        build_settlement_outputs cov outpoint owed.0 owed.1
          (settlement_witness pair.settlement pair.previous) keeps eb in
      (price, script, ext, last, ep, es, built, extended, anchored, outs)
