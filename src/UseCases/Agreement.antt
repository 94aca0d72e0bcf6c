-- ===== src/UseCases/Agreement.antt =====
-- When a party's signature goes on an early close (service/internal/app/redemption.go,
-- `SignRedemption`).
use hedge_arkade.Common.{if◌then◌else◌, ok, err, ℕ, ◌≡◌, ◌⊎◌, true, false}
use hedge_arkade.Common.Int.{ℤ}
use hedge_arkade.Domain.State.{State}
use hedge_arkade.Domain.Records.{Contract, Redemption, Reply, Side, has_signed, signed}
use hedge_arkade.Store.Rows.{Store, advance}
use hedge_arkade.UseCases.Ports.{Ports}
use hedge_arkade.UseCases.Closing.{with_proposal, countersign, store_signed}

-- What a countersignature leaves behind: the contract is redeeming once both have signed, and
-- otherwise only the proposal changed.
abbrev pub Countersigned : ℤ → ℕ → Contract → Redemption → Store → Store → Type 0
Countersigned now id c r st st' =
    ((signed r ≡ true)
      × (moved : Contract) × (advance now c State.redeeming (with_proposal id r st)
          ≡ ok (moved, st')))
    ⊎ ((signed r ≡ false) × (st' ≡ with_proposal id r st))

-- the rest of the use case behind its guards
abbrev behind_guards :
    Ports → ℤ → ℕ → ℕ → Contract → Side → Redemption → Store → Reply Redemption × Store
behind_guards ports now id who c side r st =
    if has_signed side r then (ok r, st) else elim (countersign ports who c side r) [
      | err e ↦ (err e, st)
      | ok r' ↦ store_signed now id c r' st
    ]
