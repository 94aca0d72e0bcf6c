-- ===== src/Arkade/Wallet.antt =====
-- A party's wallet (arkade/wallet.go: `Balance`, `SpendableVtxo`, `SignAll`, `Encode`) and the registry
-- that keeps one for each user (service/internal/wallets/wallets.go). What the SDK lists and signs is a
-- parameter.
use hedge_arkade.Arkade.Client.{Collateral, sign_round}
use hedge_arkade.Contract.Tx.{OutPoint}
use hedge_arkade.Common.{
  ◌==◌, if◌then◌else◌, Bytes, ℕ, Bool, not, ◌&&◌, Option, none, List, [], ◌∷◌, bytes_equal, some,
}
use hedge_arkade.Common.Int.{ℤ, pos, ltb_ℤ, add64}
use hedge_arkade.Adapters.Chain.{to_int64}
use hedge_arkade.Remote.Hex.{encode_hex}

-- `types.Vtxo`, with what `IsRecoverable` says of it. The script is hex, the amount a `uint64`.
pub record Vtxo : Type 0 where
  pub txid : Bytes
  pub vout : ℕ
  pub script : Bytes
  pub amount : ℕ
  pub recoverable : Bool

-- the loop of `Balance`, from what was added up so far
unfoldable pub balance_from : ℤ × ℤ → List Vtxo → ℤ × ℤ
balance_from sums [] = sums
balance_from (spendable, recoverable) (v ∷ vs) =
    balance_from
      (if v.recoverable
        then (spendable, add64 recoverable (to_int64 v.amount))
        else (add64 spendable (to_int64 v.amount), recoverable))
      vs

-- `Balance`: what can be spent, and what cannot yet
unfoldable pub wallet_balance : List Vtxo → ℤ × ℤ
wallet_balance vs = balance_from (pos 0, pos 0) vs

-- `v.Script != wanted || int64(v.Amount) < min`, and then `v.IsRecoverable()`
unfoldable pub coin_usable : Bytes → ℤ → Vtxo → Bool
coin_usable wanted least v =
    bytes_equal v.script wanted && not (ltb_ℤ (to_int64 v.amount) least) && not v.recoverable

-- the loop of `SpendableVtxo`, down to the first that will do
unfoldable pub first_usable : Bytes → ℤ → List Vtxo → Option Vtxo
unfolding coin_usable
first_usable wanted least [] = none
first_usable wanted least (v ∷ vs) =
    if coin_usable wanted least v then some v else first_usable wanted least vs

-- `offchain.VtxoInput` of the wallet's collaborative path; the revealed leaf and its proof are what
-- ark-lib makes of the default script.
pub record WalletInput : Type 0 where
  pub outpoint : OutPoint
  pub tapscript : Bytes
  pub input_amount : ℤ

pub record WalletLib : Type 0 where
  -- `VtxoPkScript`: `TapTree` and `P2TRScript` of the default script
  pub pk_script : Option Bytes
  -- the forfeit closure's leaf, its proof, the control block and the encoded tree
  pub collaborative_path : Option Bytes
  -- `ChainHash`
  pub hash_of : Bytes → Option Bytes

-- the input that spends a VTXO
unfoldable pub input_of : WalletLib → Vtxo → Option WalletInput
input_of lib v = elim lib.collaborative_path [
  | none ↦ none
  | some path ↦ elim (lib.hash_of v.txid) [
    | none ↦ none
    | some hash ↦ some (record {
      outpoint = record { hash = hash; index = v.vout };
      tapscript = path;
      input_amount = to_int64 v.amount;
    })
  ]
]

-- the input with the script that change goes to
abbrev as_collateral : Bytes → Option WalletInput → Option (Collateral WalletInput)
as_collateral script none = none
as_collateral script (some input) =
    some (record { input = input; amount = input.input_amount; change_script = script })

abbrev input_or_none : WalletLib → Option Vtxo → Option WalletInput
input_or_none lib none = none
input_or_none lib (some v) = input_of lib v

-- `SpendableVtxo`; `none` for the list is an error of the SDK
unfoldable pub spendable_vtxo : WalletLib → Option (List Vtxo) → ℤ → Option (Collateral WalletInput)
spendable_vtxo lib listed least = elim lib.pk_script [
  | none ↦ none
  | some script ↦ elim listed [
    | none ↦ none
    | some vs ↦ as_collateral script (input_or_none lib (first_usable (encode_hex script) least vs))
  ]
]

-- `Encode`
unfoldable pub encode_all {ℓ} : {A : Type ℓ} → (A → Option Bytes) → List A → Option (List Bytes)
encode_all encode [] = some []
encode_all encode (p ∷ ps) =
    let rest = encode_all encode ps in
    elim (encode p) [
      | none ↦ none
      | some b64 ↦ elim rest [ none ↦ none | some others ↦ some (b64 ∷ others) ]
    ]

abbrev both_signed :
    (Bytes → Option Bytes) → Bytes → Option (List Bytes) → Option (Bytes × List Bytes)
both_signed sign signed none = none
both_signed sign signed (some encoded) = elim (sign_round sign encoded) [
  | none ↦ none
  | some checkpoints ↦ some (signed, checkpoints)
]

-- `SignAll`
unfoldable pub wallet_sign_all {ℓ} :
    {A : Type ℓ}
    → (A → Option Bytes)
    → (Bytes → Option Bytes)
    → A
    → List A
    → Option (Bytes × List Bytes)
wallet_sign_all encode sign tx checkpoints = elim (encode tx) [
  | none ↦ none
  | some encoded ↦ elim (sign encoded) [
    | none ↦ none
    | some signed ↦ both_signed sign signed (encode_all encode checkpoints)
  ]
]

-- The registry's map of wallets that are built, by user.
module _ {W : Type 0} (key_of : ℕ → Option Bytes) (new_wallet : Bytes → Option W) where
  unfoldable pub built_wallet : ℕ → List (ℕ × W) → Option W
  built_wallet user [] = none
  built_wallet user ((u, w) ∷ ws) = if u == user then some w else built_wallet user ws

  -- `Registry.Wallet`, which runs under the registry's lock
  unfoldable pub get_wallet : ℕ → List (ℕ × W) → Option W × List (ℕ × W)
  get_wallet user built = elim (built_wallet user built) [
    | some w ↦ (some w, built)
    | none ↦ elim (key_of user) [
      | none ↦ (none, built)
      | some key ↦ elim (new_wallet key) [
        | none ↦ (none, built)
        | some w ↦ (some w, (user, w) ∷ built)
      ]
    ]
  ]
