-- ===== src/UseCases/Worker.antt =====
-- The worker (service/internal/app/worker.go): one pass over what is outstanding.
use hedge_arkade.Common.{if◌then◌else◌, ℕ, Bool, not, List, [], ◌∷◌}
use hedge_arkade.Common.Int.{ℤ, ◌-ℤ◌, ltb_ℤ}
use hedge_arkade.Domain.State.{State}
use hedge_arkade.Domain.Records.{Contract, is_nil}
use hedge_arkade.Store.Rows.{Store, in_state}
use hedge_arkade.UseCases.Ports.{Ports}
use hedge_arkade.UseCases.Closing.{finish_redeeming, transient, give_up}
use hedge_arkade.UseCases.Funding.{finish_funding}
use hedge_arkade.UseCases.Settling.{finish_settling}
use hedge_arkade.UseCases.Leaving.{finish_exiting, finish_arbitrating}

-- The `switch` of `Worker.advance`: the store behind it. The error is only logged.
unfoldable pub finish_step : Ports → Contract → State → Store → Store
finish_step ports c State.funding st = (finish_funding ports c st).1
finish_step ports c State.settling st = (finish_settling ports c st).1
finish_step ports c State.redeeming st = (finish_redeeming ports ports.db_now c st).1
finish_step ports c State.exiting st = (finish_exiting ports c st).1
finish_step ports c State.arbitrating st = (finish_arbitrating ports c st).1
finish_step ports c _ st = st

-- `Worker.advance`, on a contract as it was read. The times are nanoseconds.
unfoldable pub work : Ports → ℤ → Contract → Store → Store
work ports give_up_after c st =
    if ltb_ℤ give_up_after (ports.clock -ℤ c.updated_at)
    then give_up ports.db_now c st
    else finish_step ports c c.state st

-- the states of `transient`
abbrev outstanding : State → Bool
outstanding s = not (is_nil (transient s))

-- the loop of `Tick`, over the contracts that were read, each with the answers that it gets
unfoldable pub work_all : (ℕ → Ports) → ℤ → List Contract → Store → Store
work_all ports give_up_after [] st = st
work_all ports give_up_after (c ∷ cs) st =
    work_all ports give_up_after cs (work (ports c.id) give_up_after c st)

-- `Tick`
unfoldable pub tick : (ℕ → Ports) → ℤ → Store → Store
tick ports give_up_after st = work_all ports give_up_after (in_state outstanding st.contracts) st
