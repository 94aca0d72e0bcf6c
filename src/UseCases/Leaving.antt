-- ===== src/UseCases/Leaving.antt =====
-- Leaving Arkade and the arbitration behind it (service/internal/app/exit.go).
use hedge_arkade.Common.{if◌then◌else◌, ℕ, some}
use hedge_arkade.Domain.State.{State}
use hedge_arkade.Domain.Records.{
  Contract, Arbitration, ExitPackage, not_yet, complete, on_chain, two_signed,
}
use hedge_arkade.Store.Rows.{for_contract, put_exit, put_arbitration}
use hedge_arkade.UseCases.Ports.{Ports}
use hedge_arkade.UseCases.Packages.{proposed_arbitration, check_arbitration, sign_proposal}
use hedge_arkade.UseCases.Action.{
  Action, ◌>>=◌, ◌>>◌, return, lift, ask, change, answer, require, row_or_not_found, get, move_to,
  in_state, party,
}

-- `exits.Get`, `exits.Put`, `arbitrations.ForContract`, `arbitrations.Put`
unfoldable pub get_exit : ℕ → Action ExitPackage
get_exit id = ask (λ st. row_or_not_found (for_contract id st.exits))

unfoldable pub store_exit : ℕ → ExitPackage → Action (Unit {0})
store_exit id pkg = change (λ st. record st { exits = put_exit id pkg st.exits })

unfoldable pub get_arbitration : ℕ → Action Arbitration
get_arbitration id = ask (λ st. row_or_not_found (for_contract id st.arbitrations))

unfoldable pub store_arbitration : ℕ → Arbitration → Action (Unit {0})
store_arbitration id a =
    change (λ st. record st { arbitrations = put_arbitration id a st.arbitrations })

-- `Exit`
unfoldable pub exit_contract : Ports → ℕ → ℕ → Action Contract
exit_contract ports id who = do
  c ← get id
  side ← lift (party c who)
  lift (in_state State.active c)
  pkg ← get_exit id
  lift (require (complete pkg) not_yet)
  move_to ports.db_now c State.exiting

-- the part of `finishExiting` that is done once: broadcast, and write where the exit landed
unfoldable pub land : Ports → Contract → ExitPackage → Action (Unit {0})
land ports c pkg =
    if on_chain pkg
    then return tt
    else lift (answer (ports.leave_arkade c pkg)) >>= λ landed.
        store_exit c.id (record pkg { swept = some landed.0; swept_sats = landed.1 })

-- `finishExiting`
unfoldable pub finish_exiting : Ports → Contract → Action Contract
finish_exiting ports c = do
  pkg ← get_exit c.id
  land ports c pkg
  move_to ports.db_now c State.exited

-- `Arbitrate`
unfoldable pub arbitrate_contract : Ports → ℕ → Action Arbitration
arbitrate_contract ports id = do
  c ← get id
  lift (in_state State.exited c)
  pkg ← get_exit id
  lift (require (on_chain pkg) not_yet)
  a ← lift (proposed_arbitration ports c pkg)
  store_arbitration id a
  moved ← move_to ports.db_now c State.arbitrating
  return a

-- `SignArbitration`
unfoldable pub sign_contract_arbitration : Ports → ℕ → ℕ → Action Arbitration
sign_contract_arbitration ports id who = do
  c ← get id
  side ← lift (party c who)
  lift (in_state State.arbitrating c)
  a ← get_arbitration id
  lift (check_arbitration ports c a)
  signed ← lift (sign_proposal ports who c a)
  store_arbitration id signed
  return signed

-- the payout of a proposal with two signatures
unfoldable pub pay_out_signed : Ports → Contract → Arbitration → Action (Unit {0})
pay_out_signed ports c a = do
  txid ← lift (answer (ports.pay_out c a))
  store_arbitration c.id (record a { txid = txid })
  moved ← move_to ports.db_now c State.arbitrated
  return tt

-- `finishArbitrating`: waiting for a signature is no failure.
unfoldable pub finish_arbitrating : Ports → Contract → Action (Unit {0})
finish_arbitrating ports c = do
  a ← get_arbitration c.id
  (if two_signed a then pay_out_signed ports c a else return tt)
