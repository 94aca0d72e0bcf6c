-- ===== src/Contract/Terms.antt =====
-- The contract's parameters and the payout rule: contract/settlement.go (`Terms`, `validate`)
-- and contract/arbitration.go (`SettlementSplit`).
use hedge_arkade.Common.{
  ℕ, ◌<◌, ◌≡◌, Option, none, some, ok, ◌>>◌, fail_if, check, length, Bytes, ◌==◌, not,
  if◌then◌else◌, ◌*◌,
}
use hedge_arkade.Common.Int.{ℤ, pos, leb_ℤ, ltb_ℤ, max_ℤ, min_ℤ, ◌/ℤ◌, sub64, ◌<ℤ◌, ◌≤ℤ◌, IsInt64}
use hedge_arkade.Contract.Errors

-- `Dust`
abbrev pub dust : ℕ
dust = 1332

pub record Terms : Type 0 where
  pub nominal : ℤ  -- NominalUnitsXSatsPerBtc
  pub leverage : ℤ  -- SatsForNominalUnitsAtHighLiquidation
  pub payout_sats : ℤ
  pub low_price : ℤ  -- LowLiquidationPrice
  pub high_price : ℤ  -- HighLiquidationPrice
  pub short_lock_script : Bytes
  pub long_lock_script : Bytes
  pub oracle_pub_key : Bytes
  pub start_timestamp : ℤ
  pub maturity_timestamp : ℤ

-- The `switch` of `validate`, in its order; `none` is a nil error.
unfoldable pub validate : Terms → Option Errors.Error
validate t =
    if leb_ℤ t.nominal (pos 0)
    then some Errors.nominal_not_positive
    else if leb_ℤ t.payout_sats (pos 0)
    then some Errors.payout_not_positive
    else if ltb_ℤ t.payout_sats (pos (2 * dust))
    then some Errors.payout_below_dust
    else if leb_ℤ t.low_price (pos 0)
    then some Errors.low_not_positive
    else if leb_ℤ t.high_price t.low_price
    then some Errors.high_not_above_low
    else if ltb_ℤ t.leverage (pos 0)
    then some Errors.leverage_negative
    else if length t.short_lock_script == 0
    then some Errors.short_script_empty
    else if length t.long_lock_script == 0
    then some Errors.long_script_empty
    else if not (length t.oracle_pub_key == 32)
    then some Errors.oracle_key_length
    else if leb_ℤ t.start_timestamp (pos 0)
    then some Errors.start_not_positive
    else if leb_ℤ t.maturity_timestamp t.start_timestamp
    then some Errors.maturity_not_after_start
    else none

-- `min(max(price, LowLiquidationPrice), HighLiquidationPrice)`
unfoldable pub clamp : Terms → ℤ → ℤ
clamp t price = min_ℤ (max_ℤ price t.low_price) t.high_price

-- `SettlementSplit`, in `int64` arithmetic.
unfoldable pub settlement_split : Terms → ℤ → Errors.Outcome (ℤ × ℤ)
settlement_split t price = do
  check (validate t)
  fail_if (leb_ℤ price (pos 0)) Errors.price_not_positive
  let clamped = clamp t price
  let raw = sub64 (t.nominal /ℤ clamped) t.leverage
  let floored = max_ℤ raw (pos dust)
  let short = min_ℤ floored (sub64 t.payout_sats (pos dust))
  ok (short, sub64 t.payout_sats short)

-- What `validate` accepts.
pub record IsValid (t : Terms) : Type 0 where
  pub nominal_pos : pos 0 <ℤ t.nominal
  pub payout_covers : pos (2 * dust) ≤ℤ t.payout_sats
  pub low_pos : pos 0 <ℤ t.low_price
  pub low_lt_high : t.low_price <ℤ t.high_price
  pub leverage_nonneg : pos 0 ≤ℤ t.leverage
  pub short_script : 0 < length t.short_lock_script
  pub long_script : 0 < length t.long_lock_script
  pub oracle_key : length t.oracle_pub_key ≡ 32
  pub start_pos : pos 0 <ℤ t.start_timestamp
  pub start_lt_maturity : t.start_timestamp <ℤ t.maturity_timestamp

-- The fields that the payout rule computes with are `int64` values.
pub record FitsInt64 (t : Terms) : Type 0 where
  pub nominal_fits : IsInt64 t.nominal
  pub leverage_fits : IsInt64 t.leverage
  pub payout_fits : IsInt64 t.payout_sats
