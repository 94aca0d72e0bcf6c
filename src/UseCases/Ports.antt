-- ===== src/UseCases/Ports.antt =====
-- What the use cases ask of the adapters (service/internal/app/ports.go): the answers that one call
-- gets. `none` and `false` are errors of the adapter. A user is a number.
use hedge_arkade.Common.{Bytes, ℕ, Bool, Option, List}
use hedge_arkade.Common.Int.{ℤ}
use hedge_arkade.Contract.Library.{Library, ArkLib}
use hedge_arkade.Contract.Tx.{MsgTx, RelativeLocktime}
use hedge_arkade.Contract.Vtxo.{Contract as Covenant}
use hedge_arkade.Contract.Exit.{SweepLib}
use hedge_arkade.Contract.Signing.{SigLib}
use hedge_arkade.Arkade.Client.{SignedPrice}
use hedge_arkade.Domain.State.{TransitionError}
use hedge_arkade.Domain.Records.{
  Contract, Redemption, Arbitration, ExitPackage, Outpoint, Price, AppError, bad_transition,
}

-- `Pair` of ports.go
pub record FeedPair : Type 0 where
  pub settlement : SignedPrice
  pub previous : SignedPrice

pub record Ports : Type 0 where
  -- the libraries of the contract package, and btcd's encodings
  pub library : Library
  pub ark : ArkLib
  pub num : ℤ → Bytes
  pub sweep_lib : SweepLib
  pub sig_lib : SigLib
  pub parse_pub_key : Bytes → Option Bytes
  pub encode_tx : MsgTx → Option Bytes
  pub decode_tx : Bytes → Option MsgTx
  pub chain_hash : Bytes → Option Bytes
  -- `Contract.Validate` of a covenant, against the operator's exit delay and policy
  pub operator_accepts : Covenant → RelativeLocktime → Bool → Bool
  -- `Stack`
  pub stack_arkd_signer : Bytes
  pub stack_emulator_signer : Bytes
  pub stack_exit_delay : RelativeLocktime
  pub stack_dust : ℤ
  pub stack_allows_block_timelocks : Bool
  -- the service's own key and fees, fields of `App`
  pub service_key : Bytes
  pub arbitration_fee_sats : ℤ
  pub exit_fee_sats : ℤ
  -- the service's clock, in nanoseconds, the database's, and `uuid.New`
  pub clock : ℤ
  pub db_now : ℤ
  pub fresh_id : ℕ
  -- `Feed`
  pub feed_pub_key : Option Bytes
  pub feed_latest : Option Price
  pub feed_pair : Option FeedPair
  pub feed_set_price : ℤ → Bool
  -- `Signer`
  pub public_key : ℕ → Option Bytes
  pub sign_leaf : ℕ → Bytes → Option Bytes
  pub sign_exit_by : ℕ → Contract → ExitPackage → Option Bytes
  pub sign_sweep : ℕ → Contract → Arbitration → Option Bytes
  pub sign_sweep_as_service : Contract → Arbitration → Option Bytes
  -- `Arkade`: spendable and recoverable sats
  pub balance : ℕ → Option (ℤ × ℤ)
  pub vtxo_pk_script : ℕ → Option Bytes
  pub fund_contract : Contract → Option Outpoint
  pub settle_contract : Contract → ℤ → ℤ → FeedPair → Bool
  pub build_redemption : Contract → ℤ → ℤ → Option (Bytes × List Bytes)
  pub submit_redemption : Contract → Redemption → Bool
  pub leave_arkade : Contract → ExitPackage → Option (Outpoint × ℤ)
  pub pay_out : Contract → Arbitration → Option Bytes

-- What `fmt.Errorf("%w: this contract is …", domain.ErrTransition)` is.
abbrev pub wrong_state : AppError
wrong_state = bad_transition TransitionError.illegal_transition
