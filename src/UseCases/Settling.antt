-- ===== src/UseCases/Settling.antt =====
-- Settling through the covenant, and the price (service/internal/app/settlement.go).
use hedge_arkade.Common.{if◌then◌else◌, ok, err, fail_if, ℕ, Bool, none, some}
use hedge_arkade.Common.Int.{ℤ, pos, leb_ℤ}
use hedge_arkade.Domain.State.{State}
use hedge_arkade.Domain.Records.{
  Contract, Reply, failed_call, not_yet, invalid, settleable, liquidated, matured, split, is_nil,
}
use hedge_arkade.UseCases.Ports.{Ports}
use hedge_arkade.UseCases.Packages.{settlement_owed}
use hedge_arkade.UseCases.Action.{
  Action, ◌>>=◌, ◌>>◌, lift, answer, require, get, move_to, in_state,
}

-- `Settle`: whoever asks
unfoldable pub settle : Ports → ℕ → Action Contract
settle ports id = do
  c ← get id
  lift (in_state State.active c)
  price ← lift (answer ports.feed_latest)
  lift (require (settleable c price.price price.timestamp) not_yet)
  move_to ports.db_now c State.settling

-- `finishSettling`
unfoldable pub finish_settling : Ports → Contract → Action Contract
finish_settling ports c = do
  lift (fail_if (is_nil c.funding) failed_call)
  pair ← lift (answer ports.feed_pair)
  owed ← lift (settlement_owed ports c pair)
  lift (require (ports.settle_contract c owed.0 owed.1 pair) failed_call)
  move_to ports.db_now c State.settled

pub record Projection : Type 0 where
  pub price : ℤ
  pub short_sats : ℤ
  pub long_sats : ℤ
  pub is_liquidated : Bool
  pub is_matured : Bool

-- `Project`
unfoldable pub project : Ports → Contract → Reply Projection
project ports c = elim ports.feed_latest [
  | none ↦ err failed_call
  | some price ↦ elim (split c price.price) [
    | err e ↦ err e
    | ok (short, long) ↦ ok (record {
      price = price.price;
      short_sats = short;
      long_sats = long;
      is_liquidated = liquidated c price.price;
      is_matured = matured c price.timestamp;
    })
  ]
]

-- `SetPrice`
unfoldable pub set_oracle_price : Ports → ℤ → Reply (Unit {0})
set_oracle_price ports price =
    if leb_ℤ price (pos 0) then err invalid else require (ports.feed_set_price price) failed_call
