-- ===== src/Adapters/Payouts.antt =====
-- What paying an arbitration out puts on the chain (service/internal/arkadeadapter/arkadeadapter.go,
-- `PayOut`).
use mathlib.Core.List.{append-nil}
use hedge_arkade.Contract.Errors
use hedge_arkade.Contract.Exit.{witness}
use hedge_arkade.Adapters.Net.{
  ◌>>=◌, ◌>>◌, >>=-eq-some, Network, Log, mined, Net, return, then_run, repeated, sent,
}
use hedge_arkade.Contract.Tx.{MsgTx}
use hedge_arkade.Contract.Vtxo.{Contract as Covenant}
use hedge_arkade.Domain.Records.{Contract, Arbitration, AppError}
use hedge_arkade.Common.{
  if◌then◌else◌, Option-cases, Bytes, ok, err, Result-cases, ℕ, suc, ◌≡◌, sym, ap, ◌∙◌, inl, inr,
  Bool, true, false, none, some, List, [], ◌∷◌, ◌++◌, arith,
}
use hedge_arkade.Common.Int.{pos}
use hedge_arkade.UseCases.Ports.{Ports}
use hedge_arkade.Adapters.Leaving.{
  Adapter, signed_payout, settle_block, value_of, adapter_pay, parties,
}
use hedge_arkade.Contract.Exit.{Sweep, witness}
use hedge_arkade.UseCases.Packages.{sweep_of}
use hedge_arkade.Contract.Presigned.{finalize_arbitration_same, SameButWitness}
use hedge_arkade.Adapters.Broadcasts.{
  mined-eq-some, pure-eq-some, broadcast-eq-some, return-eq-some,
}
use hedge_arkade.Contract.Signing.{finalize_arbitration}
use hedge_arkade.Adapters.Chain.{raw_hex, mine_blocks, broadcast_raw}

module _ (ports : Ports) (net : Network) (adapter : Adapter) where
  -- A payout that was finalized is the stored transaction, with the witness of the 2-of-3 that the
  -- contract's keys and the service's make, over the stored signatures.
  pub record Finalized (c : Contract) (a : Arbitration) (signed : MsgTx) : Type 0 where
    pub cov : Covenant
    pub sweep : Sweep
    pub is_sweep : sweep_of ports c ≡ ok (cov, sweep)
    pub stored : MsgTx
    pub is_stored : ports.decode_tx a.raw_tx ≡ some stored
    pub stack : List Bytes
    pub is_stack : witness ports.ark sweep a.signatures ≡ ok stack
    pub same : SameButWitness stored signed stack

  signed_payout-eq :
      (c : Contract) (a : Arbitration) (cov : Covenant) (sweep : Sweep) (tx : MsgTx)
      → sweep_of ports c ≡ ok (cov, sweep)
      → ports.decode_tx a.raw_tx ≡ some tx
      → signed_payout ports net adapter c a
        ≡ value_of (
            finalize_arbitration ports.ark
              (some (record {
                tx = tx;
                short_sats = a.short_sats;
                long_sats = a.long_sats;
                price = pos 0;
                message = [];
                signature = [];
              }))
              sweep
              a.signatures)
  unfolding signed_payout
  signed_payout-eq c a cov sweep tx es et = ground (arith, es, et)

  finalized_of : {A : Type 0} (r : Errors.Outcome A) {x : A} → value_of r ≡ some x → r ≡ ok x
  finalized_of (ok y) h = cc
  finalized_of (err e) h = absurd (cc)

  no_sweep_payout :
      (c : Contract) (a : Arbitration) {e : AppError}
      → sweep_of ports c ≡ err e
      → signed_payout ports net adapter c a ≡ none
  unfolding signed_payout
  no_sweep_payout c a h = ground (arith, h)

  no_tx_payout :
      (c : Contract) (a : Arbitration) {p : Covenant × Sweep}
      → sweep_of ports c ≡ ok p
      → ports.decode_tx a.raw_tx ≡ none
      → signed_payout ports net adapter c a ≡ none
  unfolding signed_payout
  no_tx_payout c a h h' = ground (arith, h, h')

  signed_payout-Finalized :
      (c : Contract) (a : Arbitration) {signed : MsgTx}
      → signed_payout ports net adapter c a ≡ some signed
      → Finalized c a signed
  signed_payout-Finalized c a h = elim (Result-cases (sweep_of ports c)) [
    | inl (e, no') ↦ absurd (cc (h, no_sweep_payout c a no'))
    | inr ((cov, sweep), es) ↦ elim (Option-cases (ports.decode_tx a.raw_tx)) [
      | inl no' ↦ absurd (cc (h, no_tx_payout c a es no'))
      | inr (tx, et) ↦
          let (stack, ew, same) =
            finalize_arbitration_same ports.ark _ sweep a.signatures
              (finalized_of _ (sym (signed_payout-eq c a cov sweep tx es et) ∙ h)) in
          record {
            cov = cov;
            sweep = sweep;
            is_sweep = es;
            stored = tx;
            is_stored = et;
            stack = stack;
            is_stack = ew;
            same = same;
          }
    ]
  ]

  -- the block that is produced behind a payout
  abbrev last_block : Log
  last_block = if net.has_chain then mined 1 ∷ [] else []

  block_step :
      {B : Type 0} (chain : Bool) (next : Net B) (log : Log) {r : B} {log' : Log}
      → ((if chain then mine_blocks net 1 else return tt) >> next) log ≡ (some r, log')
      → next (log ++ (if chain then mined 1 ∷ [] else [])) ≡ (some r, log')
  unfolding return ◌>>◌ ◌>>=◌ then_run
  block_step true next log h = mined-eq-some net 1 next log h
  block_step false next log h = rw (append-nil log) h

  block-eq-some :
      {B : Type 0} (next : Net B) (log : Log) {r : B} {log' : Log}
      → (settle_block ports net adapter >> next) log ≡ (some r, log')
      → next (log ++ last_block) ≡ (some r, log')
  unfolding settle_block
  block-eq-some next log h = block_step net.has_chain next log h

  -- What a payout has put on the chain: one transaction, offered until it was taken, which is the
  -- arbitration finalized, and a block where there is a chain to produce it.
  pub record PaidOut (c : Contract) (a : Arbitration) (log log' : Log) (txid : Bytes) : Type 0 where
    pub signed : MsgTx
    pub finalized : Finalized c a signed
    pub raw : Bytes
    pub serialized : raw_hex ports.encode_tx signed ≡ some raw
    pub refused : ℕ
    pub taken : net.broadcast (log ++ repeated refused (sent raw)) raw ≡ some txid
    pub done : log' ≡ (log ++ repeated (suc refused) (sent raw)) ++ last_block

  -- Whatever the network answers: a payout that succeeds has offered one transaction until it was taken,
  -- and its id is what the network gave. The transaction is the stored arbitration with the witness of
  -- the 2-of-3 over the stored signatures, and nothing else of it is changed.
  pub pay_sound :
      (c : Contract) (a : Arbitration) (log : Log) {txid : Bytes} {log' : Log}
      → adapter_pay ports net adapter c a log ≡ (some txid, log')
      → PaidOut c a log log' txid
  unfolding adapter_pay
  pay_sound c a log {txid} {log'} h =
      let (_, _, h1) = pure-eq-some (parties adapter.has_wallet c.short_user c.long_user) _ log h in
      let (signed, es, h2) = pure-eq-some (signed_payout ports net adapter c a) _ log h1 in
      let (given, offered, eb, h3) =
        >>=-eq-some (broadcast_raw net (raw_hex ports.encode_tx signed)) _ log h2 in
      let (raw, refused, er, el, ea) =
        broadcast-eq-some net (raw_hex ports.encode_tx signed) log eb in
      let (same, last) = return-eq-some given _ (block-eq-some _ offered h3) in
      record {
        signed = signed;
        finalized = signed_payout-Finalized c a es;
        raw = raw;
        serialized = er;
        refused = refused;
        taken = ea ∙ ap some same;
        done = sym last ∙ ap (λ l. l ++ last_block) el;
      }
