-- ===== src/Adapters/Submitting.antt =====
-- Settling and closing early through the operator (service/internal/arkadeadapter/arkadeadapter.go: `Settle`,
-- `BuildRedemption`, `SubmitRedemption`), over `ContractInput`, `BuildSettlement` (arkade/settle.go),
-- `SubmitToEmulator` (arkade/submit.go) and `SubmitSigned` (arkade/redeem.go).
use hedge_arkade.Contract.Errors
use hedge_arkade.Contract.Redemption.{Offchain, VtxoInput, propose_redemption}
use hedge_arkade.Contract.Tx.{MsgTx, OutPoint, TxOut}
use hedge_arkade.Contract.Vtxo.{
  Contract as Covenant, Leaf, closures, leaf_closure, or_library_error, settlement_script_bytes,
}
use hedge_arkade.Domain.Records.{Contract, Redemption, covenant}
use hedge_arkade.UseCases.Ports.{Ports, FeedPair}
use hedge_arkade.UseCases.Packages.{outpoint_of}
use hedge_arkade.Arkade.Client.{
  Operator, sign_each, sign_everyone, settlement_outputs, settlement_witness, add_extension,
}
use hedge_arkade.Arkade.Wallet.{encode_all}
use hedge_arkade.Adapters.Funding.{Purse, purse_of}
use hedge_arkade.Common.{
  ◌>>=◌, ◌>>◌, if◌then◌else◌, Bytes, err, ℕ, Bool, false, not, Option, none, some, List, [], ◌∷◌,
  fail_if, ok,
}
use hedge_arkade.Common.Int.{ℤ}

-- What ark-lib, the emulator's packet format and the emulator itself do: a parameter.
pub record CloseLib : Type 0 where
  pub off : Offchain
  pub checkpoint_tapscript : Bytes
  -- the script of the P2A anchor
  pub anchor : Bytes
  -- `NewPacket` of one entry for input 0, and the output of its extension
  pub extension : Bytes → List Bytes → Option TxOut
  -- `B64Encode`
  pub encode : MsgTx → Option Bytes
  -- `Emulator.SubmitTx`
  pub emulator : Bytes → List Bytes → Bool

-- `SubmitSigned`
unfoldable pub submit_signed :
    Operator
    → List (Bytes → Option Bytes)
    → List (Bytes → Option Bytes)
    → Bytes
    → List Bytes
    → Option Bytes
submit_signed arkd transport finalizers tx checkpoints =
    elim (sign_everyone transport tx checkpoints) [
      | none ↦ none
      | some signed ↦ elim (arkd.submit_tx signed.0 signed.1) [
        | none ↦ none
        | some returned ↦ elim (sign_each finalizers returned.1) [
          | none ↦ none
          | some final ↦ if arkd.finalize_tx returned.0 final then some returned.0 else none
        ]
      ]
    ]

-- `SubmitToEmulator`, of packets that are not yet encoded
unfoldable pub submit_to_emulator :
    CloseLib → List (Bytes → Option Bytes) → MsgTx → List MsgTx → Bool
submit_to_emulator lib signers tx checkpoints = elim (lib.encode tx) [
  | none ↦ false
  | some packet ↦ elim (encode_all lib.encode checkpoints) [
    | none ↦ false
    | some encoded ↦ elim (sign_everyone signers packet encoded) [
      | none ↦ false
      | some signed ↦ lib.emulator signed.0 signed.1
    ]
  ]
]

module _ (ports : Ports) (lib : CloseLib) where
  -- `ContractInput`
  unfoldable pub contract_input : Covenant → Leaf → OutPoint → ℤ → Errors.Outcome VtxoInput
  contract_input c leaf outpoint amount = do
    revealed ← leaf_closure ports.library ports.ark ports.num c leaf
    tree ← closures ports.library ports.ark ports.num c
    fail_if (not (lib.off.reveals tree revealed)) Errors.library_error
    ok (record { outpoint = outpoint; revealed = revealed; tree = tree; amount = amount })

  -- `BuildSettlement`, the extension before the anchor
  unfoldable pub build_settlement :
      Covenant → OutPoint → ℤ → ℤ → List Bytes → Errors.Outcome (MsgTx × List MsgTx)
  build_settlement c outpoint short long stack = do
    input ← contract_input c Leaf.settlement outpoint c.terms.payout_sats
    built ←
        or_library_error
          (lib.off.build_txs input (settlement_outputs c.terms short long) lib.checkpoint_tapscript)
    script ← settlement_script_bytes ports.library ports.ark ports.num c.terms
    ext ← or_library_error (lib.extension script stack)
    ok (record built.0 { tx_out = add_extension lib.anchor ext built.0.tx_out }, built.1)

  -- `Adapter.BuildRedemption`
  unfoldable pub adapter_build : Contract → ℤ → ℤ → Option (Bytes × List Bytes)
  adapter_build c short long = elim (covenant ports.parse_pub_key c) [
    | err _ ↦ none
    | ok cov ↦ elim (outpoint_of ports c.funding) [
      | err _ ↦ none
      | ok outpoint ↦
          elim (propose_redemption ports.library ports.ark ports.num lib.off cov outpoint short long
            lib.checkpoint_tapscript) [
              | err _ ↦ none
              | ok proposal ↦ elim (lib.encode proposal.ark_tx) [
                | none ↦ none
                | some tx ↦ elim (encode_all lib.encode proposal.checkpoints) [
                  | none ↦ none
                  | some checkpoints ↦ some (tx, checkpoints)
                ]
              ]
            ]
    ]
  ]

  module _ (purse : ℕ → Option Purse) where
    -- `parties`, of which the short's wallet carries what follows
    unfoldable pub carrier : Contract → Option Purse
    carrier c = elim (purse_of purse c.short_user) [
      | none ↦ none
      | some short ↦ elim (purse_of purse c.long_user) [ none ↦ none | some _ ↦ some short ]
    ]

    -- `Adapter.Settle`
    unfoldable pub adapter_settle : Contract → ℤ → ℤ → FeedPair → Bool
    adapter_settle c short long pair = elim (carrier c) [
      | none ↦ false
      | some wallet ↦ elim (covenant ports.parse_pub_key c) [
        | err _ ↦ false
        | ok cov ↦ elim (outpoint_of ports c.funding) [
          | err _ ↦ false
          | ok outpoint ↦
              elim (build_settlement cov outpoint short long
                (settlement_witness pair.settlement pair.previous)) [
                  | err _ ↦ false
                  | ok built ↦ submit_to_emulator lib (wallet.signer ∷ []) built.0 built.1
                ]
        ]
      ]
    ]

    -- `leafSigner`; a side without a user is not reached here.
    abbrev leaf_signer : Option ℕ → Bytes → Option Bytes
    leaf_signer none packet = none
    leaf_signer (some user) packet = ports.sign_leaf user packet

    -- the two leaf signers that `finishRedeeming` hands on
    abbrev pub leaf_signers : Contract → List (Bytes → Option Bytes)
    leaf_signers c = leaf_signer c.short_user ∷ leaf_signer c.long_user ∷ []

    -- `Adapter.SubmitRedemption`: no wallet signs on the way in.
    unfoldable pub adapter_submit : Contract → Redemption → Bool
    adapter_submit c r = elim (carrier c) [
      | none ↦ false
      | some wallet ↦ elim (submit_signed wallet.arkd [] (leaf_signers c) r.ark_tx r.checkpoints) [
        | none ↦ false
        | some txid ↦ wallet.registered txid
      ]
    ]
