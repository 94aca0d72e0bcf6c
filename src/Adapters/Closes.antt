-- ===== src/Adapters/Closes.antt =====
-- What it takes for an early close to go through (service/internal/arkadeadapter/arkadeadapter.go,
-- `SubmitRedemption`, over arkade/redeem.go).
use hedge_arkade.Arkade.Client.{Operator}
use hedge_arkade.Arkade.Rounds.{sign_separately}
use hedge_arkade.Adapters.Submitting.{submit_signed}
use hedge_arkade.UseCases.Ports.{Ports}
use hedge_arkade.Common.{Bytes, ◌≡◌, true, Option, some, List, []}

-- The operator takes the packets as they are, and then takes what it returned with each of the packets
-- carried through the signers by itself.
abbrev pub Taken : Operator → List (Bytes → Option Bytes) → Bytes → List Bytes → Bytes → Type 0
Taken arkd signers tx checkpoints txid =
    (returned : List Bytes) × (final : List Bytes) × (arkd.submit_tx tx checkpoints
      ≡ some (txid, returned))
    × (sign_separately signers returned ≡ some final)
    × (arkd.finalize_tx txid final ≡ true)

module _ (arkd : Operator) (signers : List (Bytes → Option Bytes)) (tx : Bytes)
    (checkpoints : List Bytes) where
  abbrev submission : Option Bytes
  submission = submit_signed arkd [] signers tx checkpoints
