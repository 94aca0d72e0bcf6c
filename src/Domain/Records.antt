-- ===== src/Domain/Records.antt =====
-- The records of the domain and their small methods (service/internal/domain: contract.go,
-- redemption.go, exit.go, arbitration.go, price.go, errors.go). A UUID is a number; `none` is a
-- nil pointer.
use hedge_arkade.Common.{
  ◌==◌, if◌then◌else◌, length, Bytes, Result, err, ◌>>=◌, map_err, ℕ, Bool, true, false, not, ◌&&◌,
  ◌||◌, Option, none, some, List, [], ◌∷◌, ok, leb, bytes_equal,
}
use hedge_arkade.Common.Int.{ℤ, pos, ◌/ℤ◌, leb_ℤ, mul64}
use hedge_arkade.Contract.Errors
use hedge_arkade.Contract.Terms.{Terms, settlement_split}
use hedge_arkade.Contract.Tx.{RelativeLocktime}
use hedge_arkade.Contract.Vtxo.{Contract as Covenant}
use hedge_arkade.Domain.State.{State, proposed, state_eq, TransitionError}

pub data Side : Type 0 where
  short long : Side

-- `Side.Other`
unfoldable pub other : Side → Side
other short = long
other long = short

pub record Outpoint : Type 0 where
  pub txid : Bytes
  pub vout : ℕ

pub record Contract : Type 0 where
  pub id : ℕ
  pub state : State
  pub creator : Side
  pub short_user : Option ℕ
  pub long_user : Option ℕ
  pub terms : Terms
  pub short_key : Bytes
  pub long_key : Bytes
  pub arkd_signer : Bytes
  pub emulator_signer : Bytes
  pub exit_delay : RelativeLocktime
  pub enable_mutual_redemption : Bool
  pub pk_script : Bytes
  pub short_stake : ℤ
  pub long_stake : ℤ
  pub funding : Option Outpoint
  pub updated_at : ℤ

-- The errors of the service that its callers tell apart (domain/errors.go, domain/state.go,
-- app/app.go); `failed_call` is any other.
pub data AppError : Type 0 where
  not_found name_taken conflict not_allowed invalid not_yet failed_call : AppError
  bad_transition : TransitionError → AppError
  from_contract : Errors.Error → AppError

abbrev pub Reply {ℓ} : Type ℓ → Type ℓ
Reply A = Result AppError A

-- `Lost`: someone else got there first.
unfoldable pub lost : AppError → Bool
lost conflict = true
lost (bad_transition TransitionError.illegal_transition) = true
lost _ = false

-- one round of the loop of `Covenant`: an empty key is refused, the others are parsed
unfoldable pub parse_key : (Bytes → Option Bytes) → Bytes → Reply (Option Bytes)
parse_key parse [] = err failed_call
parse_key parse (b ∷ bs) = elim (parse (b ∷ bs)) [
  | none ↦ err failed_call
  | some key ↦ ok (some key)
]

-- `Covenant`, over `btcec.ParsePubKey`.
unfoldable pub covenant : (Bytes → Option Bytes) → Contract → Reply Covenant
unfolding parse_key
covenant parse c = do
  s ← parse_key parse c.short_key
  l ← parse_key parse c.long_key
  a ← parse_key parse c.arkd_signer
  e ← parse_key parse c.emulator_signer
  ok (record {
    terms = c.terms;
    keys = record { short = s; long = l; arkd_signer = a; emulator_signer = e };
    exit_delay = c.exit_delay;
    enable_mutual_redemption = c.enable_mutual_redemption;
  })

-- `UserOn`
unfoldable pub user_on : Contract → Side → Option ℕ
user_on c short = c.short_user
user_on c long = c.long_user

-- `c.ShortUser != nil && *c.ShortUser == user`
unfoldable pub is_user : Option ℕ → ℕ → Bool
is_user none user = false
is_user (some u) user = u == user

-- `SideOf`
unfoldable pub side_of : Contract → ℕ → Option Side
unfolding is_user
side_of c user =
    if is_user c.short_user user
    then some short
    else if is_user c.long_user user
    then some long
    else none

unfoldable pub is_nil {ℓ} : {A : Type ℓ} → Option A → Bool
is_nil none = true
is_nil (some _) = false

-- `Open`
unfoldable pub is_open : Contract → Bool
unfolding is_nil
is_open c = state_eq c.state proposed && (is_nil c.short_user || is_nil c.long_user)

-- `Split`
unfoldable pub split : Contract → ℤ → Reply (ℤ × ℤ)
split c price = map_err from_contract (settlement_split c.terms price)

-- `Liquidated`, `Matured`, `Settleable`
unfoldable pub liquidated : Contract → ℤ → Bool
liquidated c price = leb_ℤ price c.terms.low_price || leb_ℤ c.terms.high_price price

unfoldable pub matured : Contract → ℤ → Bool
matured c timestamp = leb_ℤ c.terms.maturity_timestamp timestamp

unfoldable pub settleable : Contract → ℤ → ℤ → Bool
unfolding liquidated matured
settleable c price timestamp = liquidated c price || matured c timestamp

pub record Redemption : Type 0 where
  pub proposed_by : ℕ
  pub short_sats : ℤ
  pub long_sats : ℤ
  pub price : ℤ
  pub message : Bytes
  pub signature : Bytes
  pub ark_tx : Bytes
  pub checkpoints : List Bytes
  pub short_signed : Bool
  pub long_signed : Bool

-- `Signed`, `SignedBy`, `HasSigned`, `FromOracle`
unfoldable pub signed : Redemption → Bool
signed r = r.short_signed && r.long_signed

unfoldable pub signed_by : Side → Redemption → Redemption
signed_by short r = record r { short_signed = true }
signed_by long r = record r { long_signed = true }

unfoldable pub has_signed : Side → Redemption → Bool
has_signed short r = r.short_signed
has_signed long r = r.long_signed

unfoldable pub from_oracle : Redemption → Bool
from_oracle r = not (length r.signature == 0)

-- `Sweep` of domain/exit.go
pub record SweepRow : Type 0 where
  pub pk_script : Bytes
  pub leaf : Bytes
  pub control_block : Bytes

-- `Exit` and `ExitPackage`
pub record ExitPackage : Type 0 where
  pub raw_tx : Bytes
  pub amount : ℤ
  pub sweep : SweepRow
  pub short_sig : Bytes
  pub long_sig : Bytes
  pub swept : Option Outpoint
  pub swept_sats : ℤ

-- `Complete`, `OnChain`
unfoldable pub complete : ExitPackage → Bool
complete p = not (length p.short_sig == 0) && not (length p.long_sig == 0)

unfoldable pub on_chain : ExitPackage → Bool
unfolding is_nil
on_chain p = not (is_nil p.swept)

-- The arbitration that the service proposed. `signatures` is a Go map, by x-only key.
pub record Arbitration : Type 0 where
  pub short_sats : ℤ
  pub long_sats : ℤ
  pub price : ℤ
  pub message : Bytes
  pub signature : Bytes
  pub raw_tx : Bytes
  pub available : ℤ
  pub signatures : List (Bytes × Bytes)
  pub txid : Bytes

-- `Arbitration.Signed`
unfoldable pub two_signed : Arbitration → Bool
two_signed a = leb 2 (length a.signatures)

-- `Signatures[key] = signature`
unfoldable pub set_signature : Bytes → Bytes → List (Bytes × Bytes) → List (Bytes × Bytes)
set_signature key sig [] = (key, sig) ∷ []
set_signature key sig ((k, s) ∷ m) =
    if bytes_equal k key then (k, sig) ∷ m else (k, s) ∷ set_signature key sig m

-- `Price`
pub record Price : Type 0 where
  pub sequence : ℕ
  pub timestamp : ℤ
  pub price : ℤ

-- `CentsPerBTC × 1e6`: the scale between a hedge value and the nominal units
abbrev pub nominal_scale : ℕ
nominal_scale = 100_000_000

-- `NominalUnits` and `HedgeValueCents`, in `int64`.
unfoldable pub nominal_units : ℤ → ℤ
nominal_units cents = mul64 cents (pos nominal_scale)

unfoldable pub hedge_value_cents : ℤ → ℤ
hedge_value_cents nominal = nominal /ℤ pos nominal_scale
