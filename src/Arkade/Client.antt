-- ===== src/Arkade/Client.antt =====
-- The transactions that the client builds for the operator (arkade/funding.go, settle.go), the round of
-- signatures (arkade/submit.go) and the operator's delay (arkade/stack.go). ark-lib's builder, the
-- wallets and the signers are parameters; `none` is an error of theirs.
use hedge_arkade.Common.{
  ◌>>=◌, ◌>>◌, if◌then◌else◌, Bytes, bytes_equal, Result, ok, err, fail_if, ℕ, ◌-◌, ◌%◌, ◌^◌, Bool,
  not, Option, none, some, [], ◌∷◌, List,
}
use hedge_arkade.Common.Int.{ℤ, pos, negsuc, leb_ℤ, ◌==ℤ◌, add64, sub64}
use hedge_arkade.Contract.Tx.{OutPoint, TxOut, RelativeLocktime, second, block}
use hedge_arkade.Contract.Terms.{Terms}

-- `SignedPrice`, and the stack of `SettlementWitness`, bottom item first
pub record SignedPrice : Type 0 where
  pub message : Bytes
  pub signature : Bytes

abbrev pub settlement_witness : SignedPrice → SignedPrice → List Bytes
settlement_witness settlement previous =
    settlement.signature ∷ settlement.message ∷ previous.signature ∷ previous.message ∷ []

-- `uint32(value)`
unfoldable pub to_uint32 : ℤ → ℕ
to_uint32 (pos n) = n % 2 ^ 32
to_uint32 (negsuc n) = 2 ^ 32 - 1 - n % 2 ^ 32

-- `Locktime`: from 512 on a delay is in seconds; the value is a `uint32`.
unfoldable pub locktime : ℤ → RelativeLocktime
locktime value = record {
  locktime_type = if leb_ℤ (pos 512) value then second else block;
  value = to_uint32 value;
}

-- A party's collateral: what `SpendableVtxo` finds for a stake, with the script that its change goes to.
pub record Collateral (Input : Type 0) : Type 0 where
  pub input : Input
  pub amount : ℤ
  pub change_script : Bytes

pub data FundingError : Type 0 where
  wrong_stakes dust_change call_failed : FundingError

-- the answer of a call
abbrev pub called : {A : Type 0} → Option A → Result FundingError A
called none = err call_failed
called (some a) = ok a

-- one round of the loop over the change
unfoldable pub change_output : ℤ → ℤ → ℤ → Bytes → Result FundingError TxOut
change_output dust amount stake script = do
  fail_if (leb_ℤ (sub64 amount stake) dust) dust_change
  ok (record { value = sub64 amount stake; pk_script = script })

module _ {Input Packet : Type 0} (build_txs : List Input → List TxOut → Option Packet)
    (short_vtxo long_vtxo : ℤ → Option (Collateral Input)) (dust : ℤ) where
  -- `BuildBilateralFunding`, of the contract's script: the outputs are the contract's, and each side's
  -- change.
  unfoldable pub build_bilateral_funding :
      ℤ → Option Bytes → ℤ → ℤ → Result FundingError (Packet × List TxOut)
  build_bilateral_funding payout_sats pk_script short_sats long_sats = do
    fail_if (not (add64 short_sats long_sats ==ℤ payout_sats)) wrong_stakes
    script ← called pk_script
    short ← called (short_vtxo short_sats)
    long ← called (long_vtxo long_sats)
    short_change ← change_output dust short.amount short_sats short.change_script
    long_change ← change_output dust long.amount long_sats long.change_script
    let outputs : List TxOut =
        record { value = payout_sats; pk_script = script } ∷ short_change ∷ long_change ∷ []
    packet ← called (build_txs (short.input ∷ long.input ∷ []) outputs)
    ok (packet, outputs)

-- the outputs of `BuildSettlement`
abbrev pub settlement_outputs : Terms → ℤ → ℤ → List TxOut
settlement_outputs t short long =
    record { value = short; pk_script = t.short_lock_script }
    ∷ record { value = long; pk_script = t.long_lock_script }
    ∷ []

-- `AddEmulatorPacket`: the extension goes before the anchor, if the last output is one.
unfoldable pub add_extension : Bytes → TxOut → List TxOut → List TxOut
add_extension anchor ext [] = ext ∷ []
add_extension anchor ext (o ∷ []) =
    if bytes_equal o.pk_script anchor then ext ∷ o ∷ [] else o ∷ ext ∷ []
add_extension anchor ext (o ∷ p ∷ outs) = o ∷ add_extension anchor ext (p ∷ outs)

-- the inner loop of `signEach`: one signer over every packet
unfoldable pub sign_round : (Bytes → Option Bytes) → List Bytes → Option (List Bytes)
sign_round sign [] = some []
sign_round sign (packet ∷ packets) =
    let rest = sign_round sign packets in
    elim (sign packet) [
      | none ↦ none
      | some done ↦ elim rest [ none ↦ none | some others ↦ some (done ∷ others) ]
    ]

-- `signEach`
unfoldable pub sign_each : List (Bytes → Option Bytes) → List Bytes → Option (List Bytes)
sign_each [] packets = some packets
sign_each (sign ∷ signers) packets = elim (sign_round sign packets) [
  | none ↦ none
  | some signed ↦ sign_each signers signed
]

-- the loop of `SignEveryone` over the transaction
unfoldable pub sign_one : List (Bytes → Option Bytes) → Bytes → Option Bytes
sign_one [] packet = some packet
sign_one (sign ∷ signers) packet = elim (sign packet) [
  | none ↦ none
  | some done ↦ sign_one signers done
]

-- `SignEveryone`, of packets that are encoded
unfoldable pub sign_everyone :
    List (Bytes → Option Bytes) → Bytes → List Bytes → Option (Bytes × List Bytes)
sign_everyone signers tx checkpoints = elim (sign_one signers tx) [
  | none ↦ none
  | some signed_tx ↦ elim (sign_each signers checkpoints) [
    | none ↦ none
    | some signed ↦ some (signed_tx, signed)
  ]
]

-- The operator's two calls: `SubmitTx`, which returns the txid and the checkpoints to sign, and
-- `FinalizeTx`.
pub record Operator : Type 0 where
  pub submit_tx : Bytes → List Bytes → Option (Bytes × List Bytes)
  pub finalize_tx : Bytes → List Bytes → Bool

-- `SubmitToArkd`, behind the encoding
unfoldable pub submit_to_arkd :
    Operator → List (Bytes → Option Bytes) → Bytes → List Bytes → Result FundingError Bytes
submit_to_arkd arkd signers tx checkpoints = do
  signed ← called (sign_everyone signers tx checkpoints)
  returned ← called (arkd.submit_tx signed.0 signed.1)
  final ← called (sign_each signers returned.1)
  fail_if (not (arkd.finalize_tx returned.0 final)) call_failed
  ok returned.0

-- `FundBilaterally`: the contract is output 0 of the transaction that both parties sign.
unfoldable pub fund_bilaterally :
    {Input Packet : Type 0} (build_txs : List Input → List TxOut → Option Packet)
    (short_vtxo long_vtxo : ℤ → Option (Collateral Input)) (dust : ℤ)
    → (encode : Packet → Option (Bytes × List Bytes)) → Operator
    → (registered : Bytes → Bool) → (chain_hash : Bytes → Option Bytes)
    → (short_signer long_signer : Bytes → Option Bytes) → ℤ
    → Option Bytes
    → ℤ
    → ℤ
    → Result FundingError OutPoint
fund_bilaterally build_txs short_vtxo long_vtxo dust encode arkd registered chain_hash short_signer
      long_signer payout_sats pk_script short_sats long_sats =
    do
      built ←
          build_bilateral_funding build_txs short_vtxo long_vtxo dust payout_sats pk_script
            short_sats long_sats
      packets ← called (encode built.0)
      txid ← submit_to_arkd arkd (short_signer ∷ long_signer ∷ []) packets.0 packets.1
      fail_if (not (registered txid)) call_failed
      hash ← called (chain_hash txid)
      ok (record { hash = hash; index = 0 })
