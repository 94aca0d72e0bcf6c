-- ===== src/Adapters/Broadcasts.antt =====
-- What leaving Arkade and paying out have done on the chain by the time that they succeed
-- (service/internal/arkadeadapter/arkadeadapter.go, `LeaveArkade`, `PayOut`).
use hedge_arkade.Adapters.Net.{
  ◌>>=◌, ◌>>◌, chain_call, >>=-eq-some, pure, Network, then_run, Utxo, Net, Log, when_true, mined,
  repeated, sent, poll-chain_call, return, looked,
}
use hedge_arkade.Contract.Tx.{OutPoint, MsgTx}
use hedge_arkade.Domain.Records.{Contract, ExitPackage, Outpoint, Reply}
use hedge_arkade.Common.{
  Bool-cases, Option-cases, Bytes, ok, err, ℕ, suc, ◌+◌, ◌<◌, ◌≡◌, refl, sym, ap, ◌∙◌, inl, inr,
  Bool, true, false, Option, none, some, List, [], ◌∷◌, ◌++◌, arith,
}
use hedge_arkade.Common.Int.{ℤ, ◌==ℤ◌, ==ℤ_iff, sub64}
use hedge_arkade.Adapters.Chain.{
  output_of, broadcast_raw, mine_blocks, to_int64, found_output, wait_for_output, raw_hex, unroll,
  taproot_address,
}
use hedge_arkade.UseCases.Ports.{Ports}
use hedge_arkade.Adapters.Leaving.{
  Adapter, adapter_leave, value_of, signed_exit, parties, send_exit,
}
use hedge_arkade.UseCases.Packages.{outpoint_of}
use hedge_arkade.Adapters.Unrolling.{Unrolls, unroll_iff}

pub pure-eq-some :
    {A B : Type 0} (x : Option A) (next : A → Net B) (log : Log) {b : B} {log' : Log}
    → (pure x >>= next) log ≡ (some b, log')
    → (a : A) × (x ≡ some a) × (next a log ≡ (some b, log'))
unfolding pure ◌>>=◌ then_run
pure-eq-some none next log h = absurd (cc)
pure-eq-some (some a) next log h = (a, refl, h)

guard-eq-some :
    {B : Type 0} (b : Bool) (next : Net B) (log : Log) {r : B} {log' : Log}
    → (pure (when_true b) >> next) log ≡ (some r, log')
    → (b ≡ true) × (next log ≡ (some r, log'))
unfolding pure ◌>>◌ ◌>>=◌ then_run
guard-eq-some false next log h = absurd (cc)
guard-eq-some true next log h = (refl, h)

module _ (net : Network) where
  pub mined-eq-some :
      {B : Type 0} (blocks : ℕ) (next : Net B) (log : Log) {r : B} {log' : Log}
      → (mine_blocks net blocks >> next) log ≡ (some r, log')
      → next (log ++ mined blocks ∷ []) ≡ (some r, log')
  unfolding ◌>>◌ ◌>>=◌ then_run mine_blocks chain_call
  mined-eq-some blocks next log h = elim (Bool-cases (net.mine log blocks)) [
    | inl yes' ↦ ground (arith, h, yes')
    | inr no' ↦ absurd (ground (arith, h, no'))
  ]

  pub mined-done :
      {B : Type 0} (blocks : ℕ) (next : Net B) (log : Log) {r : B} {log' : Log}
      → (mine_blocks net blocks >> next) log ≡ (some r, log')
      → net.mine log blocks ≡ true
  unfolding ◌>>◌ ◌>>=◌ then_run mine_blocks chain_call
  mined-done blocks next log h = elim (Bool-cases (net.mine log blocks)) [
    | inl yes' ↦ yes'
    | inr no' ↦ absurd (ground (arith, h, no'))
  ]

  -- A broadcast that succeeds was accepted at its last try, and every try was the same transaction.
  pub broadcast-eq-some :
      (raw : Option Bytes) (log : Log) {txid : Bytes} {log' : Log}
      → broadcast_raw net raw log ≡ (some txid, log')
      → (bytes : Bytes) × (failures : ℕ) × (raw ≡ some bytes)
        × (log' ≡ log ++ repeated (suc failures) (sent bytes))
        × (net.broadcast (log ++ repeated failures (sent bytes)) bytes ≡ some txid)
  unfolding broadcast_raw pure
  broadcast-eq-some none log h = absurd (cc)
  broadcast-eq-some (some bytes) log h =
      let (failures, le, el, ea) =
        poll-chain_call net.patience (sent bytes) (λ log. net.broadcast log bytes) log h in
      (bytes, failures, refl, el, ea)

skipped :
    (sats : ℤ) (u : Utxo) (us : List Utxo) {v : Utxo}
    → (to_int64 u.amount ==ℤ sats) ≡ false
    → output_of sats (u ∷ us) ≡ some v
    → output_of sats us ≡ some v
unfolding output_of
skipped sats u us other h = ground (arith, h, other)

output_of-exact :
    (sats : ℤ) (us : List Utxo) {u : Utxo} → output_of sats us ≡ some u → to_int64 u.amount ≡ sats
unfolding output_of
output_of-exact sats [] h = absurd (cc)
output_of-exact sats (u ∷ us) h = elim (Bool-cases (to_int64 u.amount ==ℤ sats)) [
  | inl same ↦ ground (arith, h, same, ==ℤ_iff (to_int64 u.amount) sats)
  | inr other ↦ output_of-exact sats us (skipped sats u us other h)
]

after_skipped :
    (u v : Utxo) (us : List Utxo)
    → ((before : List Utxo) × (after : List Utxo) × (us ≡ before ++ v ∷ after))
    → (before : List Utxo) × (after : List Utxo) × (u ∷ us ≡ before ++ v ∷ after)
after_skipped u v us (before, after, e) = (u ∷ before, after, ap (λ l. u ∷ l) e)

output_of-listed :
    (sats : ℤ) (us : List Utxo) {v : Utxo}
    → output_of sats us ≡ some v
    → (before : List Utxo) × (after : List Utxo) × (us ≡ before ++ v ∷ after)
unfolding output_of
output_of-listed sats [] h = absurd (cc)
output_of-listed sats (u ∷ us) {v} h = elim (Bool-cases (to_int64 u.amount ==ℤ sats)) [
  | inl same ↦ let here : u ≡ v = ground (arith, h, same) in ([], us, ap (λ x. x ∷ us) here)
  | inr other ↦ after_skipped u v us (output_of-listed sats us {v = v} (skipped sats u us other h))
]

found_output-exact :
    (net : Network) (address : Bytes) (sats : ℤ) (log : Log) {u : Utxo}
    → found_output net address sats log ≡ some u
    → (us : List Utxo) × (net.utxos log address ≡ some us) × (output_of sats us ≡ some u)
found_output-exact net address sats log h = elim (Option-cases (net.utxos log address)) [
  | inl e ↦ absurd (ground (arith, h, e))
  | inr (us, e) ↦ (us, e, ground (arith, h, e))
]

pub return-eq-some :
    {A : Type 0} (a : A) (log : Log) {b : A} {log' : Log}
    → return a log ≡ (some b, log')
    → (a ≡ b) × (log ≡ log')
unfolding return
return-eq-some a log h = (cc, cc)

-- Waiting for an output has asked for the address until one of exactly so many sats stood there.
wait-eq-some :
    (net : Network) (address : Bytes) (sats : ℤ) (log : Log) {u : Utxo} {log' : Log}
    → wait_for_output net address sats log ≡ (some u, log')
    → (unseen : ℕ) × (log' ≡ log ++ repeated (suc unseen) (looked address))
      × (to_int64 u.amount ≡ sats)
      × ((us : List Utxo) × (before : List Utxo) × (after : List Utxo) × (net.utxos
              (log ++ repeated unseen (looked address))
              address
            ≡ some us)
          × (us ≡ before ++ u ∷ after))
unfolding wait_for_output
wait-eq-some net address sats log h =
    let (unseen, _, el, eq) =
      poll-chain_call net.patience (looked address) (found_output net address sats) log h in
    let (us, seen, eus) = found_output-exact net address sats _ eq in
    let (before, after, listed) = output_of-listed sats us eus in
    (unseen, el, output_of-exact sats us eus, (us, before, after, seen, listed))

pub value_of-eq-some : {A : Type 0} (r : Reply A) {a : A} → value_of r ≡ some a → r ≡ ok a
value_of-eq-some (ok a) h = cc
value_of-eq-some (err e) h = absurd (cc)

module _ (ports : Ports) (net : Network) (adapter : Adapter) where
  -- the log when the exit is first offered, when it was taken and is in a block, and behind that
  abbrev matured_at : Contract → Log → Log
  matured_at c log = log ++ mined (c.exit_delay.value + 1) ∷ []

  -- The exit on the chain: one block more than its delay, the transaction offered until it was taken, a
  -- block, and the sweep's address asked for until an output of exactly the swept amount was listed there.
  pub record Landed (c : Contract) (e : ExitPackage) (tx : MsgTx) (log log' : Log)
      (landed : Outpoint) (sats : ℤ) : Type 0 where
    pub is_matured : net.mine log (c.exit_delay.value + 1) ≡ true
    pub raw : Bytes
    pub serialized : raw_hex ports.encode_tx tx ≡ some raw
    pub refused : ℕ
    pub txid : Bytes
    pub is_taken : net.broadcast (matured_at c log ++ repeated refused (sent raw)) raw ≡ some txid
    pub is_confirmed : net.mine (matured_at c log ++ repeated (suc refused) (sent raw)) 1 ≡ true
    pub address : Bytes
    pub is_address :
        taproot_address ports.library.key_parses adapter.render_address e.sweep.pk_script
        ≡ some address
    pub unseen : ℕ
    pub output : Utxo
    pub before : List Utxo
    pub after : List Utxo
    pub is_listed :
        net.utxos
          (((matured_at c log ++ repeated (suc refused) (sent raw)) ++ mined 1 ∷ [])
            ++ repeated unseen (looked address))
          address
        ≡ some (before ++ output ∷ after)
    pub done :
        log'
        ≡ ((matured_at c log ++ repeated (suc refused) (sent raw)) ++ mined 1 ∷ [])
          ++ repeated (suc unseen) (looked address)
    pub swept : sats ≡ sub64 e.amount ports.exit_fee_sats
    pub exact : to_int64 output.amount ≡ sats
    pub is_landed : landed ≡ record { txid = output.txid; vout = output.vout }

  send_exit_sound :
      (c : Contract) (e : ExitPackage) (tx : MsgTx) (log : Log) {landed : Outpoint} {sats : ℤ}
      {log' : Log}
      → send_exit ports net adapter c e tx log ≡ (some (landed, sats), log')
      → Landed c e tx log log' landed sats
  unfolding send_exit
  send_exit_sound c e tx log h =
      let h1 = mined-eq-some net (c.exit_delay.value + 1) _ log h in
      let (txid, offered, eb, h2) =
        >>=-eq-some (broadcast_raw net (raw_hex ports.encode_tx tx)) _ (matured_at c log) h1 in
      let (raw, refused, er, el, et) =
        broadcast-eq-some net (raw_hex ports.encode_tx tx) (matured_at c log) eb in
      let h3 = mined-eq-some net 1 _ offered h2 in
      let (address, ea, h4) =
        pure-eq-some
          (taproot_address ports.library.key_parses adapter.render_address e.sweep.pk_script) _
          (offered ++ mined 1 ∷ []) h3 in
      let (utxo, final, ew, h5) =
        >>=-eq-some (wait_for_output net address (sub64 e.amount ports.exit_fee_sats)) _
          (offered ++ mined 1 ∷ []) h4 in
      let (unseen, ef, exact, (us, before, after, seen, listed)) =
        wait-eq-some net address _ (offered ++ mined 1 ∷ []) ew in
      let (same, last) = return-eq-some _ final h5 in
      record {
        is_matured = mined-done net (c.exit_delay.value + 1) _ log h;
        raw = raw;
        serialized = er;
        refused = refused;
        txid = txid;
        is_taken = et;
        is_confirmed = rw (← el) (mined-done net 1 _ offered h2);
        address = address;
        is_address = ea;
        unseen = unseen;
        output = utxo;
        before = before;
        after = after;
        is_listed = rw (← el) (seen ∙ ap some listed);
        done =
            sym last
            ∙ (ef ∙ ap (λ l. (l ++ mined 1 ∷ []) ++ repeated (suc unseen) (looked address)) el);
        swept = sym (ap (λ p. p.1) same);
        exact = exact ∙ ap (λ p. p.1) same;
        is_landed = sym (ap (λ p. p.0) same);
      }

  -- Leaving Arkade: the contract's branch brought down in fewer than forty steps, and then the exit, which
  -- is the stored package finalized.
  pub record Left (c : Contract) (e : ExitPackage) (log log' : Log) (landed : Outpoint) (sats : ℤ)
      : Type 0 where
    pub outpoint : OutPoint
    pub has_funding : outpoint_of ports c.funding ≡ ok outpoint
    pub down : Log
    pub steps : ℕ
    pub published : ℕ
    pub few : steps < 40
    pub unrolled : Unrolls net steps published (log ++ mined 1 ∷ []) down
    pub tx : MsgTx
    pub finalized : signed_exit ports net adapter c e ≡ some tx
    pub is_sent : Landed c e tx down log' landed sats

  -- Whatever the network answers: leaving Arkade, where it succeeds, has brought the contract's own
  -- branch down in fewer than forty steps, then produced one block more than the exit's delay, offered
  -- the stored package, finalized, and nothing else until it was taken, produced a block,
  -- and looked at the sweep's address until an output of exactly the package's amount less the fee was
  -- listed there. The network took the transaction and produced the blocks, and that output and that
  -- amount are what is returned.
  pub leave_sound :
      (c : Contract) (e : ExitPackage) (log : Log) {landed : Outpoint} {sats : ℤ} {log' : Log}
      → adapter_leave ports net adapter c e log ≡ (some (landed, sats), log')
      → Left c e log log' landed sats
  unfolding adapter_leave
  leave_sound c e log h =
      let (_, _, h1) = pure-eq-some (parties adapter.has_wallet c.short_user c.long_user) _ log h in
      let (_, h2) = guard-eq-some net.has_chain _ log h1 in
      let (outpoint, eo, h3) = pure-eq-some (value_of (outpoint_of ports c.funding)) _ log h2 in
      let (published, down, eu, h4) = >>=-eq-some (unroll net outpoint) _ log h3 in
      let (_, _, (steps, few, u)) = (unroll_iff net outpoint log down published).0 eu in
      let (tx, et, h5) = pure-eq-some (signed_exit ports net adapter c e) _ down h4 in
      record {
        outpoint = outpoint;
        has_funding = value_of-eq-some (outpoint_of ports c.funding) eo;
        down = down;
        steps = steps;
        published = published;
        few = few;
        unrolled = u;
        tx = tx;
        finalized = et;
        is_sent = send_exit_sound c e tx down h5;
      }
