-- ===== src/Adapters/Signer.antt =====
-- Signing on a party's behalf (service/internal/signer/signer.go) with the key that its seed makes
-- (service/internal/wallets/wallets.go, `Key`). A private key stands under its public key.
use hedge_arkade.Contract.Errors
use hedge_arkade.Contract.Tx.{MsgTx}
use hedge_arkade.Contract.Arbitration.{Arbitration as Proposed}
use hedge_arkade.Domain.Records.{Contract, ExitPackage, Arbitration, covenant, Reply, from_contract}
use hedge_arkade.Common.{
  ◌>>=◌, ◌==◌, if◌then◌else◌, length, Bytes, ok, err, ℕ, Option, none, some, [], map_err,
}
use hedge_arkade.Common.Int.{pos}
use hedge_arkade.Contract.Tapscript.{Packet, sign_tapscript, TapLib}
use hedge_arkade.UseCases.Ports.{Ports}
use hedge_arkade.Adapters.Leaving.{value_of}
use hedge_arkade.UseCases.Action.{answer}
use hedge_arkade.UseCases.Packages.{sweep_of}
use hedge_arkade.Contract.Signing.{sign_exit, sign_arbitration}

pub record KeyStore : Type 0 where
  -- `Seeds.Seed`
  pub seed : ℕ → Option Bytes
  -- `btcec.PrivKeyFromBytes`
  pub key_of_seed : Bytes → Bytes
  -- `arkade.Decode` and `B64Encode`
  pub decode_packet : Bytes → Option Packet
  pub encode_packet : Packet → Option Bytes
  pub tap : TapLib

-- a seed of 32 bytes
abbrev seed_key : (Bytes → Bytes) → Option Bytes → Option Bytes
seed_key key_of none = none
seed_key key_of (some seed) = if length seed == 32 then some (key_of seed) else none

-- `Registry.Key`
unfoldable pub user_key : KeyStore → ℕ → Option Bytes
user_key ks user = seed_key ks.key_of_seed (ks.seed user)

-- the packet behind a signing that succeeded
abbrev resigned : KeyStore → Packet × Errors.Outcome (Unit {0}) → Option Bytes
resigned ks (packet, ok _) = ks.encode_packet packet
resigned ks (packet, err _) = none

-- `SignLeaf`
unfoldable pub signer_sign_leaf : KeyStore → ℕ → Bytes → Option Bytes
signer_sign_leaf ks user packet_b64 = elim (user_key ks user) [
  | none ↦ none
  | some key ↦ elim (ks.decode_packet packet_b64) [
    | none ↦ none
    | some packet ↦ resigned ks (sign_tapscript ks.tap (some key) packet)
  ]
]

module _ (ks : KeyStore) (ports : Ports) where
  -- `SignExit` with a party's key
  unfoldable pub sign_stored_exit : Bytes → Contract → ExitPackage → Reply Bytes
  sign_stored_exit key c exit = do
    cov ← covenant ports.parse_pub_key c
    tx ← answer (ports.decode_tx exit.raw_tx)
    map_err from_contract
        (sign_exit ports.library ports.ark ports.num ports.sig_lib cov (some key) tx exit.amount)

  -- `SignExit`
  unfoldable pub signer_sign_exit : ℕ → Contract → ExitPackage → Option Bytes
  signer_sign_exit user c exit = elim (user_key ks user) [
    | none ↦ none
    | some key ↦ value_of (sign_stored_exit key c exit)
  ]

  -- the stored proposal as `SignSweep` hands it on: its transaction alone
  abbrev pub bare_proposal : MsgTx → Proposed
  bare_proposal tx = record {
    tx = tx;
    short_sats = pos 0;
    long_sats = pos 0;
    price = pos 0;
    message = [];
    signature = [];
  }

  -- `SignSweep` and `SignSweepAsService`, with a key
  unfoldable pub sign_stored_sweep : Bytes → Contract → Arbitration → Reply Bytes
  sign_stored_sweep key c a = do
    rebuilt ← sweep_of ports c
    tx ← answer (ports.decode_tx a.raw_tx)
    map_err from_contract
        (sign_arbitration ports.sig_lib (some key) (some (bare_proposal tx)) rebuilt.1 a.available)

  -- `SignSweep`
  unfoldable pub signer_sign_sweep : ℕ → Contract → Arbitration → Option Bytes
  signer_sign_sweep user c a = elim (user_key ks user) [
    | none ↦ none
    | some key ↦ value_of (sign_stored_sweep key c a)
  ]

  -- `SignSweepAsService`
  unfoldable pub signer_sign_sweep_as_service : Contract → Arbitration → Option Bytes
  signer_sign_sweep_as_service c a = value_of (sign_stored_sweep ports.service_key c a)

  -- the use cases' ports with this signer behind them
  abbrev pub with_signer : Ports
  with_signer = record ports {
    public_key = user_key ks;
    sign_leaf = signer_sign_leaf ks;
    sign_exit_by = signer_sign_exit;
    sign_sweep = signer_sign_sweep;
    sign_sweep_as_service = signer_sign_sweep_as_service;
  }
