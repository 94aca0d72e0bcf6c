-- ===== src/UseCases/Evidence.antt =====
-- What the packages of the use cases have behind them (service/internal/app/exit.go,
-- `verifyArbitration`; service/internal/app/funding.go, `presignExit`).
use std.Path.{subst}
use hedge_arkade.Common.{
  length, Bytes, ok, map_err, >>=-eq-ok, ℕ, ◌≡◌, refl, sym, ap, ◌∙◌, true, Option, none, some, List,
  [], ◌∷◌, arith, ok-inj,
}
use hedge_arkade.Common.Int.{ℤ, pos, ==ℤ_iff, sub64}
use hedge_arkade.Contract.Terms.{settlement_split}
use hedge_arkade.Contract.Tx.{OutPoint, MsgTx, TxOut}
use hedge_arkade.Contract.Vtxo.{Contract as Covenant}
use hedge_arkade.Contract.Exit.{Sweep, exit_tx}
use hedge_arkade.Contract.Scale.{scale_to_available}
use hedge_arkade.Contract.Signing.{verify_exit_signature}
use hedge_arkade.Contract.Arbitration.{
  Arbitration as Proposed, verify_arbitration, contract_price, payouts,
}
use hedge_arkade.Contract.Verdict.{verify_arbitration_iff, arbitrate-eq-ok}
use hedge_arkade.Domain.Records.{
  Contract, Arbitration, ExitPackage, from_contract, failed_call, complete,
}
use hedge_arkade.UseCases.Ports.{Ports}
use hedge_arkade.UseCases.Action.{answer, require}
use hedge_arkade.UseCases.Packages.{
  sweep_of, outpoint_of, same_amounts, check_arbitration, exit_signature, exit_package,
}
use hedge_arkade.UseCases.Answers.{mapped-eq-ok, answer-eq-ok, required}

-- A transaction that pays the two amounts of a proposal to the contract's lock scripts, where the
-- amounts are the payout rule's at the price of the proposal's own oracle message, shared out over
-- what is available after the fee.
abbrev pub FollowsMessage : Ports → Covenant → Arbitration → MsgTx → Type 0
FollowsMessage ports cov a tx =
    (price : ℤ) × (split : ℤ × ℤ) × (contract_price ports.library cov a.message a.signature
      ≡ ok price)
    × (settlement_split cov.terms price ≡ ok split)
    × (scale_to_available split.0 split.1 cov.terms.payout_sats
          (sub64 a.available ports.arbitration_fee_sats)
        ≡ ok (a.short_sats, a.long_sats))
    × (tx.tx_out ≡ payouts cov.terms a.short_sats a.long_sats)

same_amounts-eq-ok :
    (a : Arbitration) (outs : List TxOut) (first second : TxOut)
    → outs ≡ first ∷ second ∷ []
    → same_amounts a outs ≡ ok tt
    → (first.value ≡ a.short_sats) × (second.value ≡ a.long_sats)
unfolding same_amounts
same_amounts-eq-ok a outs first second e h =
    let h1 : same_amounts a (first ∷ second ∷ []) ≡ ok tt = ap (same_amounts a) (sym e) ∙ h in
    (
      ground (arith, h1, ==ℤ_iff first.value a.short_sats),
      ground (arith, h1, ==ℤ_iff second.value a.long_sats),
    )

-- the same, of the amounts that the party computed, which are the stored ones
follows :
    (ports : Ports) (cov : Covenant) (a : Arbitration) (tx : MsgTx) (short long : ℤ)
    → short ≡ a.short_sats
    → long ≡ a.long_sats
    → FollowsMessage ports cov (record a { short_sats = short; long_sats = long }) tx
    → FollowsMessage ports cov a tx
follows ports cov a tx short long s l f =
    subst (λ b. FollowsMessage ports cov b tx)
      (ap (λ x. record a { short_sats = x; long_sats = long }) s
        ∙ ap (λ y. record a { long_sats = y }) l)
      f

-- A stored proposal that passes a party's check decodes to a transaction with one input that pays
-- the two amounts stored beside it, and the amounts follow the signed message, whatever the service
-- said.
pub check_arbitration_sound :
    (ports : Ports) (c : Contract) (a : Arbitration)
    → check_arbitration ports c a ≡ ok tt
    → (cov : Covenant) × (sweep : Sweep) × (tx : MsgTx) × (sweep_of ports c ≡ ok (cov, sweep))
      × (ports.decode_tx a.raw_tx ≡ some tx)
      × (length tx.tx_in ≡ 1)
      × FollowsMessage ports cov a tx
unfolding check_arbitration
check_arbitration_sound ports c a h =
    let ((cov, sweep), es, h1) = >>=-eq-ok (sweep_of ports c) _ h in
    let (tx, et, h2) = >>=-eq-ok (answer (ports.decode_tx a.raw_tx)) _ h1 in
    let stored : Proposed = record {
      tx = tx;
      short_sats = a.short_sats;
      long_sats = a.long_sats;
      price = a.price;
      message = a.message;
      signature = a.signature;
    } in
    let (_, ev, h3) =
      >>=-eq-ok
        (map_err from_contract (
          verify_arbitration ports.library cov (some stored) (some sweep) a.available
            ports.arbitration_fee_sats))
        _ h2 in
    let (input, expected, ei, ee, eo) =
      (verify_arbitration_iff ports.library cov stored (some sweep) a.available
          ports.arbitration_fee_sats).0
        (mapped-eq-ok _ ev) in
    let (price, split, ep, ex, ef, eo', _, _, _, _) =
      arbitrate-eq-ok ports.library cov (some sweep) input.previous_out_point a.available
        ports.arbitration_fee_sats a.message a.signature ee in
    let (s, l) = same_amounts-eq-ok a tx.tx_out _ _ (eo ∙ eo') h3 in
    (
      cov,
      sweep,
      tx,
      es,
      answer-eq-ok _ et,
      rw ei refl,
      follows ports cov a tx expected.short_sats expected.long_sats s l
          (price, split, ep, ex, ef, eo ∙ eo'),
    )

exit_signature-eq-ok :
    (ports : Ports) (c : Contract) (cov : Covenant) (tx : MsgTx) (pkg : ExitPackage)
    (user : Option ℕ) (key : Option Bytes) {sig : Bytes}
    → exit_signature ports c cov tx pkg user key ≡ ok sig
    → verify_exit_signature ports.library ports.ark ports.num ports.sig_lib cov key sig tx
        pkg.amount
      ≡ ok tt
unfolding exit_signature
exit_signature-eq-ok ports c cov tx pkg none key h = absurd (cc)
exit_signature-eq-ok ports c cov tx pkg (some user) key {sig} h =
    let (s, es, h1) = >>=-eq-ok (answer (ports.sign_exit_by user c pkg)) _ h in
    let (_, ev, h2) =
      >>=-eq-ok
        (map_err from_contract (
          verify_exit_signature ports.library ports.ark ports.num ports.sig_lib cov key s tx
            pkg.amount))
        _ h1 in
    let same : s ≡ sig = cc in
    subst
      (λ x.
        verify_exit_signature ports.library ports.ark ports.num ports.sig_lib cov key x tx
          pkg.amount
        ≡ ok tt)
      same (mapped-eq-ok _ ev)

-- What is behind a package: the exit transaction of the contract's own funding outpoint and payout,
-- less the exit fee, to the 2-of-3 of both parties and the service, with two signatures that pass
-- the check under the contract's keys.
abbrev pub Covers : Ports → Contract → ExitPackage → Type 0
Covers ports c pkg =
    (cov : Covenant) × (sweep : Sweep) × (outpoint : OutPoint) × (tx : MsgTx) × (sweep_of ports c
      ≡ ok (cov, sweep))
    × (outpoint_of ports c.funding ≡ ok outpoint)
    × (exit_tx ports.ark cov outpoint c.terms.payout_sats ports.exit_fee_sats sweep.pk_script
        ≡ ok tx)
    × (ports.encode_tx tx ≡ some pkg.raw_tx)
    × (complete pkg ≡ true)
    × (verify_exit_signature ports.library ports.ark ports.num ports.sig_lib cov cov.keys.short
          pkg.short_sig tx pkg.amount
        ≡ ok tt)
    × (verify_exit_signature ports.library ports.ark ports.num ports.sig_lib cov cov.keys.long
          pkg.long_sig tx pkg.amount
        ≡ ok tt)
    × (pkg.amount ≡ c.terms.payout_sats)

-- The package that funding builds is covered: it holds the exit transaction of the contract's own
-- funding outpoint and payout, less the exit fee, to the 2-of-3 of both parties and the service, and
-- two signatures that each pass the check under the contract's key of that side.
pub exit_package-Covers :
    (ports : Ports) (c : Contract) (pkg : ExitPackage)
    → exit_package ports c ≡ ok pkg
    → Covers ports c pkg
unfolding exit_package
exit_package-Covers ports c pkg h =
    let ((cov, sweep), es, h1) = >>=-eq-ok (sweep_of ports c) _ h in
    let (outpoint, eo, h2) = >>=-eq-ok (outpoint_of ports c.funding) _ h1 in
    let (tx, et, h3) =
      >>=-eq-ok
        (map_err from_contract
          (exit_tx ports.ark cov outpoint c.terms.payout_sats ports.exit_fee_sats sweep.pk_script))
        _ h2 in
    let (raw, er, h4) = >>=-eq-ok (answer (ports.encode_tx tx)) _ h3 in
    let unsigned : ExitPackage = record {
      raw_tx = raw;
      amount = c.terms.payout_sats;
      sweep = record {
        pk_script = sweep.pk_script;
        leaf = sweep.leaf;
        control_block = sweep.control_block;
      };
      short_sig = [];
      long_sig = [];
      swept = none;
      swept_sats = pos 0;
    } in
    let (short, ess, h5) =
      >>=-eq-ok (exit_signature ports c cov tx unsigned c.short_user cov.keys.short) _ h4 in
    let (long, el, h6) =
      >>=-eq-ok (exit_signature ports c cov tx unsigned c.long_user cov.keys.long) _ h5 in
    let signed : ExitPackage = record unsigned { short_sig = short; long_sig = long } in
    let (u, ec, h7) = >>=-eq-ok (require (complete signed) failed_call) (λ _. ok signed) h6 in
    let same = ok-inj h7 in
    subst (Covers ports c) same (
      cov,
      sweep,
      outpoint,
      tx,
      es,
      eo,
      mapped-eq-ok _ et,
      answer-eq-ok _ er,
      required _ failed_call ec,
      exit_signature-eq-ok ports c cov tx unsigned c.short_user cov.keys.short ess,
      exit_signature-eq-ok ports c cov tx unsigned c.long_user cov.keys.long el,
      refl,
    )
