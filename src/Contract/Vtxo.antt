-- ===== src/Contract/Vtxo.antt =====
-- The contract and its taproot leaves (contract/vtxo.go).
use hedge_arkade.Common.{
  if◌then◌else◌, get_elem?, Bytes, err, ◌>>=◌, ◌>>◌, map_err, ℕ, Bool, Option, none, some, List, [],
  ◌∷◌, ok, check,
}
use hedge_arkade.Common.Int.{ℤ}
use hedge_arkade.Contract.Errors
use hedge_arkade.Contract.Library.{Library, ArkLib}
use hedge_arkade.Contract.Script.{settlement_script}
use hedge_arkade.Contract.Terms.{Terms, validate}
use hedge_arkade.Contract.Tx.{RelativeLocktime}

-- `Leaf`; any other number is `unknown`.
pub data Leaf : Type 0 where
  settlement mutual_redemption exit unknown : Leaf

-- `Keys`: compressed public keys, `none` for a nil pointer.
pub record Keys : Type 0 where
  pub short : Option Bytes
  pub long : Option Bytes
  pub arkd_signer : Option Bytes
  pub emulator_signer : Option Bytes

pub record Contract : Type 0 where
  pub terms : Terms
  pub keys : Keys
  pub exit_delay : RelativeLocktime
  pub enable_mutual_redemption : Bool

-- ark-lib's closures that the tree uses.
pub data Closure : Type 0 where
  multisig : List Bytes → Closure
  csv_multisig : List Bytes → RelativeLocktime → Closure

abbrev pub or_nil : Option Bytes → Errors.Outcome Bytes
or_nil none = err Errors.nil_key
or_nil (some key) = ok key

abbrev pub or_library_error {ℓ} : {A : Type ℓ} → Option A → Errors.Outcome A
or_library_error none = err Errors.library_error
or_library_error (some a) = ok a

-- `Keys.validate`: every key is there. The loop's order over the Go map only picks which of the
-- missing keys the message names.
unfoldable pub validate_keys : Keys → Errors.Outcome (Bytes × Bytes × Bytes × Bytes)
validate_keys k = do
  short ← or_nil k.short
  long ← or_nil k.long
  arkd ← or_nil k.arkd_signer
  emulator ← or_nil k.emulator_signer
  ok (short, long, arkd, emulator)

module _ (lib : Library) (ark : ArkLib) (num : ℤ → Bytes) where
  -- `Contract.SettlementScript`, in bytes
  unfoldable pub settlement_script_bytes : Terms → Errors.Outcome Bytes
  settlement_script_bytes t = do
    script ← settlement_script lib num t
    or_library_error (ark.assemble script)

  -- `SettlementKey`
  unfoldable pub settlement_key : Terms → Bytes → Errors.Outcome Bytes
  settlement_key t emulator = do
    script ← settlement_script_bytes t
    ok (ark.arkade_script_key emulator script)

  -- `Closures`: the leaves in tree order.
  unfoldable pub closures : Contract → Errors.Outcome (List Closure)
  closures c = do
    keys ← validate_keys c.keys
    check (validate c.terms)
    _ ← map_err (λ _. Errors.bad_exit_delay) (or_library_error (ark.bip68_sequence c.exit_delay))
    tweaked ← settlement_key c.terms keys.3
    let settle = multisig (keys.2 ∷ tweaked ∷ [])
    let redeem = multisig (keys.0 ∷ keys.1 ∷ keys.2 ∷ [])
    let leave = csv_multisig (keys.0 ∷ keys.1 ∷ []) c.exit_delay
    ok (settle ∷ (if c.enable_mutual_redemption then redeem ∷ leave ∷ [] else leave ∷ []))

-- `leafIndex`
unfoldable pub leaf_index : Contract → Leaf → Errors.Outcome ℕ
leaf_index c settlement = ok 0
leaf_index c mutual_redemption =
    if c.enable_mutual_redemption then ok 1 else err Errors.redemption_disabled
leaf_index c exit = if c.enable_mutual_redemption then ok 2 else ok 1
leaf_index c unknown = err Errors.unknown_leaf

-- The closure that `Tapscript` reveals for a leaf: the one at the leaf's index.
unfoldable pub leaf_closure :
    Library → ArkLib → (ℤ → Bytes) → Contract → Leaf → Errors.Outcome Closure
leaf_closure lib ark num c leaf = do
  tree ← closures lib ark num c
  index ← leaf_index c leaf
  elim (get_elem? tree index) [ none ↦ err Errors.panics | some closure ↦ ok closure ]
