-- ===== src/UseCases/Service.antt =====
-- The service as its clients and its clock drive it (service/internal/app): every use case that writes
-- to the store, and the worker's pass, as requests. A request comes with the answers that the adapters
-- give it; requests run one behind the other.
use hedge_arkade.Common.{ℕ, List, [], ◌∷◌}
use hedge_arkade.Common.Int.{ℤ}
use hedge_arkade.Store.Rows.{Store}
use hedge_arkade.UseCases.Ports.{Ports}
use hedge_arkade.UseCases.Opening.{Proposal, propose, accept}
use hedge_arkade.UseCases.Funding.{fund}
use hedge_arkade.UseCases.Settling.{settle}
use hedge_arkade.UseCases.Offering.{offer_close}
use hedge_arkade.UseCases.Closing.{sign_redemption, reject_redemption, cancel}
use hedge_arkade.UseCases.Leaving.{exit_contract, arbitrate_contract, sign_contract_arbitration}
use hedge_arkade.UseCases.Worker.{tick}

-- `id` is the contract's and `who` the user's.
pub data Request : Type 0 where
  open_position : (p : Proposal) → Request
  take_side fund_it call_off close_signed close_rejected leave_it sign_payout :
      (id who : ℕ) → Request
  settle_it arbitrate_it : (id : ℕ) → Request
  close_offered : (id who : ℕ) (wanted : ℤ × ℤ) → Request
  -- `Tick`, with the answers that each contract's step gets
  work_through : (answers : ℕ → Ports) (give_up_after : ℤ) → Request

-- the store that a request leaves
unfoldable pub serve : Ports → Request → Store → Store
serve ports (open_position p) st = (propose ports p st).1
serve ports (take_side id who) st = (accept ports id who st).1
serve ports (fund_it id who) st = (fund ports id who st).1
serve ports (call_off id who) st = (cancel ports.db_now id who st).1
serve ports (close_signed id who) st = (sign_redemption ports ports.db_now id who st).1
serve ports (close_rejected id who) st = (reject_redemption ports.db_now id who st).1
serve ports (leave_it id who) st = (exit_contract ports id who st).1
serve ports (sign_payout id who) st = (sign_contract_arbitration ports id who st).1
serve ports (settle_it id) st = (settle ports id st).1
serve ports (arbitrate_it id) st = (arbitrate_contract ports id st).1
serve ports (close_offered id who wanted) st = (offer_close ports id who wanted st).1
serve ports (work_through answers give_up_after) st = tick answers give_up_after st

-- from the first to the last
unfoldable pub serve_all : List (Ports × Request) → Store → Store
serve_all [] st = st
serve_all ((ports, r) ∷ rs) st = serve_all rs (serve ports r st)
