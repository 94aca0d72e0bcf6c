-- ===== src/UseCases/Funding.antt =====
-- Funding a contract (service/internal/app/funding.go: `Fund`, `affordable`, `finishFunding`,
-- `presignExit`).
use hedge_arkade.Common.{ok, err, ℕ, Option, none, some, fail_if}
use hedge_arkade.Common.Int.{ℤ, pos, ltb_ℤ, add64}
use hedge_arkade.Domain.State.{State}
use hedge_arkade.Domain.Records.{Contract, Reply, failed_call, not_yet}
use hedge_arkade.Store.Rows.{for_contract, put_exit}
use hedge_arkade.UseCases.Ports.{Ports}
use hedge_arkade.UseCases.Packages.{exit_package}
use hedge_arkade.UseCases.Action.{
  Action, ◌>>=◌, ◌>>◌, return, lift, answer, get, move_to, save_row, in_state, party,
}

-- what a side must hold: its stake, and change above the operator's dust
abbrev pub needed_sats : Ports → ℤ → ℤ
needed_sats ports stake = add64 (add64 stake ports.stack_dust) (pos 1)

-- one round of the loop of `affordable`
unfoldable pub can_pay : Ports → Option ℕ → ℤ → Reply (Unit {0})
can_pay ports none stake = err failed_call
can_pay ports (some user) stake = elim (ports.balance user) [
  | none ↦ err failed_call
  | some (spendable, recoverable) ↦ fail_if (ltb_ℤ spendable (needed_sats ports stake)) not_yet
]

-- `affordable`: the short, then the long
unfoldable pub affordable : Ports → Contract → Reply (Unit {0})
affordable ports c = elim (can_pay ports c.short_user c.short_stake) [
  | err e ↦ err e
  | ok _ ↦ can_pay ports c.long_user c.long_stake
]

-- `Fund`
unfoldable pub fund : Ports → ℕ → ℕ → Action Contract
fund ports id who = do
  c ← get id
  side ← lift (party c who)
  lift (in_state State.accepted c)
  lift (affordable ports c)
  move_to ports.db_now c State.funding

-- the first half of `finishFunding`: the outpoint is written before anything else
unfoldable pub record_funding : Ports → Contract → Action Contract
record_funding ports c = elim c.funding [
  | some _ ↦ return c
  | none ↦ lift (answer (ports.fund_contract c)) >>= λ outpoint.
      save_row ports.db_now (record c { funding = some outpoint }) >>= λ _.
      return (record c { funding = some outpoint })
]

-- `presignExit`
unfoldable pub presign_exit : Ports → Contract → Action (Unit {0})
presign_exit ports c st = elim (for_contract c.id st.exits) [
  | some _ ↦ (ok tt, st)
  | none ↦ elim (exit_package ports c) [
    | err e ↦ (err e, st)
    | ok pkg ↦ (ok tt, record st { exits = put_exit c.id pkg st.exits })
  ]
]

-- `finishFunding`
unfoldable pub finish_funding : Ports → Contract → Action Contract
finish_funding ports c = do
  funded ← record_funding ports c
  presign_exit ports funded
  move_to ports.db_now funded State.active
