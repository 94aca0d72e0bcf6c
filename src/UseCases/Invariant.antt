-- ===== src/UseCases/Invariant.antt =====
-- What holds of the database whatever the service is asked (service/internal/app,
-- service/internal/postgres).
use hedge_arkade.Common.{
  Bool-cases, Option-cases, Result-cases, ℕ, ◌≡◌, inl, inr, Option, none, some, List, [], ◌∷◌,
}
use hedge_arkade.Common.Int.{ℤ, ◌-ℤ◌, ltb_ℤ}
use std.Path.{subst}
use hedge_arkade.Domain.State.{State}
use hedge_arkade.Domain.Records.{Contract, Arbitration, ExitPackage}
use hedge_arkade.Store.Rows.{Store, advance}
use hedge_arkade.UseCases.Ports.{Ports}
use hedge_arkade.UseCases.Closing.{give_up, transient}
use hedge_arkade.UseCases.Worker.{finish_step, work, work_all, tick}
use hedge_arkade.UseCases.Backed.{IsSound, Entry, advance-IsSound}
use hedge_arkade.UseCases.Kept.{
  propose-IsSound, accept-IsSound, fund-IsSound, settle-IsSound, finish_settling-IsSound,
  offer_close-IsSound, finish_funding-IsSound,
}
use hedge_arkade.UseCases.WayOut.{
  sign_contract_arbitration-IsSound, finish_arbitrating-IsSound, cancel-IsSound, reject-IsSound,
  finish_redeeming-IsSound, sign_redemption-IsSound,
}
use hedge_arkade.UseCases.Exits.{
  exit_contract-IsSound, arbitrate_contract-IsSound, finish_exiting-IsSound,
}
use hedge_arkade.UseCases.Service.{Request, serve, serve_all}

abbrev EntryAfter : Option State → State → Option ExitPackage → Option Arbitration → Type 0
EntryAfter none s pkg a = Unit
EntryAfter (some to) s pkg a = Entry to s pkg a

stuck_after :
    (s : State) (pkg : Option ExitPackage) (a : Option Arbitration)
    → EntryAfter (transient s) s pkg a
unfolding transient
stuck_after State.proposed pkg a = tt
stuck_after _ pkg a = tt

-- where the worker gives up, the entry condition of the state behind it holds
stuck-Entry :
    (s to : State) (pkg : Option ExitPackage) (a : Option Arbitration)
    → transient s ≡ some to
    → Entry to s pkg a
stuck-Entry s to pkg a e = subst (λ t. EntryAfter t s pkg a) e (stuck_after s pkg a)

give_up-IsSound : (now : ℤ) (c : Contract) (st : Store) → IsSound st → IsSound (give_up now c st)
unfolding give_up
give_up-IsSound now c st i = elim (Option-cases (transient c.state)) [
  | inl settled ↦ rw (give_up, settled) i
  | inr (to, stuck) ↦ elim (Result-cases (advance now c to st)) [
    | inl (e, refused) ↦ rw (give_up, stuck, refused) i
    | inr ((moved, st'), h) ↦
        rw (give_up, stuck, h)
          (advance-IsSound now c to st moved st' i (λ b. stuck-Entry c.state to _ _ stuck) h)
  ]
]

finish_step-IsSound :
    (ports : Ports) (c : Contract) (s : State) (st : Store)
    → IsSound st
    → IsSound (finish_step ports c s st)
unfolding finish_step
finish_step-IsSound ports c State.funding st i = (finish_funding-IsSound ports c).at st i
finish_step-IsSound ports c State.settling st i = (finish_settling-IsSound ports c).at st i
finish_step-IsSound ports c State.redeeming st i =
    finish_redeeming-IsSound ports ports.db_now c st i
finish_step-IsSound ports c State.exiting st i = (finish_exiting-IsSound ports c st i).at
finish_step-IsSound ports c State.arbitrating st i = (finish_arbitrating-IsSound ports c).at st i
finish_step-IsSound ports c _ st i = i

work-IsSound :
    (ports : Ports) (give_up_after : ℤ) (c : Contract) (st : Store)
    → IsSound st
    → IsSound (work ports give_up_after c st)
unfolding work
work-IsSound ports give_up_after c st i =
    elim (Bool-cases (ltb_ℤ give_up_after (ports.clock -ℤ c.updated_at))) [
      | inl late ↦ rw (work, late) (give_up-IsSound ports.db_now c st i)
      | inr in_time ↦ rw (work, in_time) (finish_step-IsSound ports c c.state st i)
    ]

work_all-IsSound :
    (answers : ℕ → Ports) (give_up_after : ℤ) (cs : List Contract) (st : Store)
    → IsSound st
    → IsSound (work_all answers give_up_after cs st)
unfolding work_all
work_all-IsSound answers give_up_after [] st i = i
work_all-IsSound answers give_up_after (c ∷ cs) st i =
    work_all-IsSound answers give_up_after cs _ (work-IsSound (answers c.id) give_up_after c st i)

-- Every request leaves a sound store sound, also where it fails half-way.
pub serve-IsSound :
    (ports : Ports) (r : Request) (st : Store) → IsSound st → IsSound (serve ports r st)
unfolding serve tick
serve-IsSound ports (Request.open_position p) st i = (propose-IsSound ports p).at st i
serve-IsSound ports (Request.take_side id who) st i = (accept-IsSound ports id who).at st i
serve-IsSound ports (Request.fund_it id who) st i = (fund-IsSound ports id who).at st i
serve-IsSound ports (Request.call_off id who) st i = cancel-IsSound ports.db_now id who st i
serve-IsSound ports (Request.close_signed id who) st i =
    sign_redemption-IsSound ports ports.db_now id who st i
serve-IsSound ports (Request.close_rejected id who) st i = reject-IsSound ports.db_now id who st i
serve-IsSound ports (Request.leave_it id who) st i = (exit_contract-IsSound ports id who st i).at
serve-IsSound ports (Request.sign_payout id who) st i =
    (sign_contract_arbitration-IsSound ports id who).at st i
serve-IsSound ports (Request.settle_it id) st i = (settle-IsSound ports id).at st i
serve-IsSound ports (Request.arbitrate_it id) st i = (arbitrate_contract-IsSound ports id st i).at
serve-IsSound ports (Request.close_offered id who wanted) st i =
    (offer_close-IsSound ports id who wanted).at st i
serve-IsSound ports (Request.work_through answers give_up_after) st i =
    work_all-IsSound answers give_up_after _ st i

-- Whatever the requests and the adapters' answers, a sound store stays sound: ids stay different, the
-- log of each contract walks the lifecycle to its stored state, no contract is leaving Arkade without
-- an exit package that holds both signatures, none is behind the exit without the place where it landed,
-- and none is in arbitration without a proposal.
pub serve_all-IsSound :
    (rs : List (Ports × Request)) (st : Store) → IsSound st → IsSound (serve_all rs st)
unfolding serve_all
serve_all-IsSound [] st i = i
serve_all-IsSound ((ports, r) ∷ rs) st i =
    serve_all-IsSound rs (serve ports r st) (serve-IsSound ports r st i)
