-- ===== src/UseCases/Packages.antt =====
-- What the use cases compute without the store: the pre-signed exit (service/internal/app/funding.go,
-- `presignExit`, `outpointOf`), the 2-of-3 rebuilt and the arbitration with its check
-- (service/internal/app/exit.go, `sweepOf`, `Arbitrate`, `verifyArbitration`), and the early close at
-- the oracle's price (service/internal/app/redemption.go, `ProposeRedemption`).
use hedge_arkade.Common.{
  ◌>>=◌, ◌>>◌, Bytes, err, ℕ, not, ◌||◌, Option, none, some, List, [], ◌∷◌, ok, map_err, fail_if,
}
use hedge_arkade.Common.Int.{ℤ, pos, ◌==ℤ◌}
use hedge_arkade.Contract.Tx.{OutPoint, MsgTx, TxOut}
use hedge_arkade.Contract.Vtxo.{Contract as Covenant}
use hedge_arkade.Contract.Exit.{Sweep, new_sweep, exit_tx}
use hedge_arkade.Contract.Signing.{verify_exit_signature}
use hedge_arkade.Contract.Arbitration.{
  Arbitration as Proposed, arbitrate, verify_arbitration, contract_price,
}
use hedge_arkade.Domain.Records.{
  Contract, Redemption, Arbitration, ExitPackage, Outpoint, Reply, invalid, failed_call,
  from_contract, split, covenant, complete, set_signature,
}
use hedge_arkade.UseCases.Ports.{Ports, FeedPair}
use hedge_arkade.UseCases.Action.{answer, require}

-- `outpointOf`, of a field that may be nil
unfoldable pub outpoint_of : Ports → Option Outpoint → Reply OutPoint
outpoint_of ports none = err failed_call
outpoint_of ports (some o) = do
  hash ← answer (ports.chain_hash o.txid)
  ok (record { hash = hash; index = o.vout })

-- `sweepOf`
unfoldable pub sweep_of : Ports → Contract → Reply (Covenant × Sweep)
sweep_of ports c = do
  cov ← covenant ports.parse_pub_key c
  sweep ←
      map_err from_contract
        (new_sweep ports.ark ports.sweep_lib cov.keys.short cov.keys.long (some ports.service_key))
  ok (cov, sweep)

-- one round of the loop of `presignExit`: a party's signature, checked
unfoldable pub exit_signature :
    Ports → Contract → Covenant → MsgTx → ExitPackage → Option ℕ → Option Bytes → Reply Bytes
exit_signature ports c cov tx pkg none key = err failed_call
exit_signature ports c cov tx pkg (some user) key = do
  sig ← answer (ports.sign_exit_by user c pkg)
  map_err from_contract (
      verify_exit_signature ports.library ports.ark ports.num ports.sig_lib cov key sig tx
        pkg.amount)
  ok sig

-- the package that `presignExit` builds for a contract without one
unfoldable pub exit_package : Ports → Contract → Reply ExitPackage
exit_package ports c = do
  rebuilt ← sweep_of ports c
  outpoint ← outpoint_of ports c.funding
  tx ← map_err from_contract (
      exit_tx ports.ark rebuilt.0 outpoint c.terms.payout_sats ports.exit_fee_sats
        rebuilt.1.pk_script)
  raw ← answer (ports.encode_tx tx)
  let unsigned : ExitPackage = record {
    raw_tx = raw;
    amount = c.terms.payout_sats;
    sweep = record {
      pk_script = rebuilt.1.pk_script;
      leaf = rebuilt.1.leaf;
      control_block = rebuilt.1.control_block;
    };
    short_sig = [];
    long_sig = [];
    swept = none;
    swept_sats = pos 0;
  }
  short ← exit_signature ports c rebuilt.0 tx unsigned c.short_user rebuilt.0.keys.short
  long ← exit_signature ports c rebuilt.0 tx unsigned c.long_user rebuilt.0.keys.long
  let pkg : ExitPackage = record unsigned { short_sig = short; long_sig = long }
  require (complete pkg) failed_call
  ok pkg

-- the proposal of `Arbitrate`, with the service's signature
unfoldable pub proposed_arbitration : Ports → Contract → ExitPackage → Reply Arbitration
proposed_arbitration ports c pkg = do
  pair ← answer ports.feed_pair
  rebuilt ← sweep_of ports c
  outpoint ← outpoint_of ports pkg.swept
  proposal ← map_err from_contract (
      arbitrate ports.library rebuilt.0 (some rebuilt.1) outpoint pkg.swept_sats
        ports.arbitration_fee_sats pair.settlement.message pair.settlement.signature)
  raw ← answer (ports.encode_tx proposal.tx)
  let unsigned : Arbitration = record {
    short_sats = proposal.short_sats;
    long_sats = proposal.long_sats;
    price = proposal.price;
    message = proposal.message;
    signature = proposal.signature;
    raw_tx = raw;
    available = pkg.swept_sats;
    signatures = [];
    txid = [];
  }
  sig ← answer (ports.sign_sweep_as_service c unsigned)
  ok (record unsigned { signatures = (ports.ark.x_only ports.service_key, sig) ∷ [] })

-- "The numbers stored beside it": the two outputs against the proposal's amounts.
unfoldable pub same_amounts : Arbitration → List TxOut → Reply (Unit {0})
same_amounts a (first ∷ second ∷ []) =
    fail_if (not (first.value ==ℤ a.short_sats) || not (second.value ==ℤ a.long_sats)) invalid
same_amounts a _ = err invalid

-- `verifyArbitration`
unfoldable pub check_arbitration : Ports → Contract → Arbitration → Reply (Unit {0})
check_arbitration ports c a = do
  rebuilt ← sweep_of ports c
  tx ← answer (ports.decode_tx a.raw_tx)
  let stored : Proposed = record {
    tx = tx;
    short_sats = a.short_sats;
    long_sats = a.long_sats;
    price = a.price;
    message = a.message;
    signature = a.signature;
  }
  map_err from_contract (
      verify_arbitration ports.library rebuilt.0 (some stored) (some rebuilt.1) a.available
        ports.arbitration_fee_sats)
  same_amounts a tx.tx_out

-- `SignSweep` and the map entry of `SignArbitration`
unfoldable pub sign_proposal : Ports → ℕ → Contract → Arbitration → Reply Arbitration
sign_proposal ports who c a = do
  sig ← answer (ports.sign_sweep who c a)
  key ← answer (ports.public_key who)
  ok (record a { signatures = set_signature (ports.ark.x_only key) sig a.signatures })

-- the split, the price and its evidence of an early close at the oracle's price
unfoldable pub oracle_close : Ports → Contract → Redemption → Reply Redemption
oracle_close ports c draft = do
  pair ← answer ports.feed_pair
  cov ← covenant ports.parse_pub_key c
  price ←
      map_err from_contract
        (contract_price ports.library cov pair.settlement.message pair.settlement.signature)
  owed ← split c price
  ok (record draft {
    short_sats = owed.0;
    long_sats = owed.1;
    price = price;
    message = pair.settlement.message;
    signature = pair.settlement.signature;
  })

-- the split that `finishSettling` pays, from the signed pair
unfoldable pub settlement_owed : Ports → Contract → FeedPair → Reply (ℤ × ℤ)
settlement_owed ports c pair = do
  cov ← covenant ports.parse_pub_key c
  price ←
      map_err from_contract
        (contract_price ports.library cov pair.settlement.message pair.settlement.signature)
  split c price
