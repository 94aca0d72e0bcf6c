-- ===== src/Adapters/Leaving.antt =====
-- Leaving Arkade and paying an arbitration out on the chain
-- (service/internal/arkadeadapter/arkadeadapter.go: `parties`, `LeaveArkade`, `PayOut`, `parseTx`).
use hedge_arkade.Adapters.Net.{◌>>=◌, ◌>>◌, Network, Net, pure, when_true, return}
use hedge_arkade.Contract.Tx.{MsgTx}
use hedge_arkade.Contract.Signing.{ExitPackage as Presigned, finalize, finalize_arbitration}
use hedge_arkade.Domain.Records.{Contract, ExitPackage, Arbitration, Outpoint, covenant}
use hedge_arkade.Common.{
  if◌then◌else◌, Bytes, Result, ok, err, ℕ, ◌+◌, Bool, Option, none, some, [],
}
use hedge_arkade.Common.Int.{ℤ, pos, sub64}
use hedge_arkade.UseCases.Ports.{Ports}
use hedge_arkade.UseCases.Packages.{sweep_of, outpoint_of}
use hedge_arkade.Adapters.Chain.{
  mine_blocks, broadcast_raw, raw_hex, unroll, taproot_address, wait_for_output,
}

-- What the adapter is built with beside the ports' libraries.
pub record Adapter : Type 0 where
  -- `wallets.Wallet` of a user succeeds
  pub has_wallet : ℕ → Bool
  -- `NewAddressTaproot` and `EncodeAddress`, on the adapter's network
  pub render_address : Bytes → Option Bytes

abbrev pub value_of {ℓ} : {E : Type ℓ} {A : Type 0} → Result E A → Option A
value_of (ok a) = some a
value_of (err _) = none

abbrev wallets_of : (ℕ → Bool) → ℕ → ℕ → Option (ℕ × ℕ)
wallets_of has_wallet short long =
    if has_wallet short then (if has_wallet long then some (short, long) else none) else none

-- `parties`: both users, with their wallets
unfoldable pub parties : (ℕ → Bool) → Option ℕ → Option ℕ → Option (ℕ × ℕ)
parties has_wallet (some short) (some long) = wallets_of has_wallet short long
parties has_wallet _ _ = none

-- the package that `LeaveArkade` hands to `Finalize`
abbrev pub presigned : MsgTx → ExitPackage → Presigned
presigned tx e = record {
  tx = tx;
  short_sig = e.short_sig;
  long_sig = e.long_sig;
  amount = e.amount;
}

module _ (ports : Ports) (net : Network) (adapter : Adapter) where
  -- `Finalize` of the stored package, for the contract's covenant
  unfoldable pub signed_exit : Contract → ExitPackage → Option MsgTx
  signed_exit c e = elim (covenant ports.parse_pub_key c) [
    | err _ ↦ none
    | ok cov ↦ elim (ports.decode_tx e.raw_tx) [
      | none ↦ none
      | some tx ↦
          value_of
            (finalize ports.library ports.ark ports.num ports.sig_lib cov (some (presigned tx e)))
    ]
  ]

  -- the second half of `LeaveArkade`: the timelock, the exit, and the output that it lands in
  unfoldable pub send_exit : Contract → ExitPackage → MsgTx → Net (Outpoint × ℤ)
  send_exit c e signed = do
    mine_blocks net (c.exit_delay.value + 1)
    _ ← broadcast_raw net (raw_hex ports.encode_tx signed)
    mine_blocks net 1
    address ←
        pure (taproot_address ports.library.key_parses adapter.render_address e.sweep.pk_script)
    utxo ← wait_for_output net address (sub64 e.amount ports.exit_fee_sats)
    return (record { txid = utxo.txid; vout = utxo.vout }, sub64 e.amount ports.exit_fee_sats)

  -- `LeaveArkade`
  unfoldable pub adapter_leave : Contract → ExitPackage → Net (Outpoint × ℤ)
  adapter_leave c e = do
    _ ← pure (parties adapter.has_wallet c.short_user c.long_user)
    pure (when_true net.has_chain)
    outpoint ← pure (value_of (outpoint_of ports c.funding))
    _ ← unroll net outpoint
    signed ← pure (signed_exit c e)
    send_exit c e signed

  -- `FinalizeArbitration` of the stored proposal, over the sweep rebuilt
  unfoldable pub signed_payout : Contract → Arbitration → Option MsgTx
  signed_payout c a = elim (sweep_of ports c) [
    | err _ ↦ none
    | ok (cov, sweep) ↦ elim (ports.decode_tx a.raw_tx) [
      | none ↦ none
      | some tx ↦ value_of (
          finalize_arbitration ports.ark
            (some (record {
              tx = tx;
              short_sats = a.short_sats;
              long_sats = a.long_sats;
              price = pos 0;
              message = [];
              signature = [];
            }))
            sweep a.signatures)
    ]
  ]

  -- the block behind a payout, where there is a chain to produce it
  unfoldable pub settle_block : Net (Unit {0})
  settle_block = if net.has_chain then mine_blocks net 1 else return tt

  -- `PayOut`. The signatures are stored in hex and decoded here; a stored one is the bytes themselves.
  unfoldable pub adapter_pay : Contract → Arbitration → Net Bytes
  adapter_pay c a = do
    _ ← pure (parties adapter.has_wallet c.short_user c.long_user)
    signed ← pure (signed_payout c a)
    txid ← broadcast_raw net (raw_hex ports.encode_tx signed)
    settle_block
    return txid
