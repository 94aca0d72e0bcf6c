-- ===== src/Adapters/Chain.antt =====
-- Calls to the chain (arkade/chainops.go, arkade/unroll.go). An outpoint's txid and a transaction's
-- bytes are as btcd gives them; `unroll` returns the number of transactions where it succeeds.
use hedge_arkade.Adapters.Net.{
  chain_call, next_tx, already_redeemed, pending, failed_branch, ◌>>=◌, Utxo, Network, Net, Log,
  chain_call, pure, poll, next_tx, mined, mined_tx, sent, looked, slept, when_true,
}
use hedge_arkade.Contract.Tx.{OutPoint, MsgTx}
use hedge_arkade.Common.{
  ◌==◌, if◌then◌else◌, length, drop, Bytes, ℕ, zero, suc, Bool, true, false, not, Option, none,
  some, List, [], ◌∷◌,
}
use hedge_arkade.Common.Int.{ℤ, pos, ◌==ℤ◌, wrap64}
use hedge_arkade.Remote.Hex.{encode_hex}

-- `RawHex`, over `Serialize`
unfoldable pub raw_hex : (MsgTx → Option Bytes) → MsgTx → Option Bytes
raw_hex serialize tx = elim (serialize tx) [ none ↦ none | some raw ↦ some (encode_hex raw) ]

-- `TaprootAddress`: 34 bytes, whose key parses; the network's encoding is a parameter.
unfoldable pub taproot_address : (Bytes → Bool) → (Bytes → Option Bytes) → Bytes → Option Bytes
taproot_address key_parses render pk_script =
    if not (length pk_script == 34)
    then none
    else if not (key_parses (drop 2 pk_script))
    then none
    else render (drop 2 pk_script)

-- `int64(x)` of a `uint64`
unfoldable pub to_int64 : ℕ → ℤ
to_int64 n = wrap64 (pos n)

-- the loop of `WaitForOutput`: `int64(u.Amount) == sats`
unfoldable pub output_of : ℤ → List Utxo → Option Utxo
output_of sats [] = none
output_of sats (u ∷ us) = if to_int64 u.amount ==ℤ sats then some u else output_of sats us

module _ (net : Network) where
  -- `chain.Mine`
  unfoldable pub mine_blocks : ℕ → Net (Unit {0})
  mine_blocks blocks = chain_call (mined blocks) (λ log. when_true (net.mine log blocks))

  -- `mineTx`
  unfoldable pub put_in_block : Bytes → Net (Unit {0})
  put_in_block raw =
      if net.can_mine_tx
      then chain_call (mined_tx raw) (λ log. when_true (net.mine_tx log raw))
      else pure none

  -- `Broadcast`, of a transaction that is serialised
  unfoldable pub broadcast_raw : Option Bytes → Net Bytes
  broadcast_raw none = pure none
  broadcast_raw (some raw) =
      poll net.patience (chain_call (sent raw) (λ log. net.broadcast log raw))

  -- the outputs of an address, down to one of exactly so many sats
  abbrev pub found_output : Bytes → ℤ → Log → Option Utxo
  found_output address sats log = elim (net.utxos log address) [
    | none ↦ none
    | some us ↦ output_of sats us
  ]

  -- `WaitForOutput`
  unfoldable pub wait_for_output : Bytes → ℤ → Net Utxo
  wait_for_output address sats =
      poll net.patience (chain_call (looked address) (found_output address sats))

  -- `unrollLimit`
  abbrev pub unroll_limit : ℕ
  unroll_limit = 40

  -- The loop of `Unroll`: the rounds left, and what is published.
  unfoldable pub unroll_rounds : ℕ → ℕ → Net ℕ
  unroll_rounds zero published log = (none, log)
  unroll_rounds (suc rounds) published log = elim (net.cancelled log) [
    | true ↦ (none, log)
    | false ↦ elim (net.next_redeem log) [
      | next_tx raw ↦ (put_in_block raw >>= λ _. unroll_rounds rounds (suc published)) log
      | already_redeemed ↦ (some published, log)
      | pending ↦
          (mine_blocks 1 >>= λ _.
          chain_call slept (λ _. some tt) >>= λ _. unroll_rounds rounds published)
            log
      | failed_branch ↦ (none, log)
    ]
  ]

  -- `Unroll`
  unfoldable pub unroll : OutPoint → Net ℕ
  unroll outpoint log =
      if net.new_branch log outpoint
      then (mine_blocks 1 >>= λ _. unroll_rounds unroll_limit 0) log
      else (none, log)
