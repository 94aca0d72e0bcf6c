-- ===== src/UseCases/Trigger.antt =====
-- When a contract may be settled, and what the on-chain payout waits for
-- (service/internal/app/settlement.go, `Settle`; exit.go, `finishArbitrating`).
use hedge_arkade.Contract.Terms.{Terms}
use hedge_arkade.Common.{ok, ℕ, ◌≡◌, refl, sym, ◌∙◌, ◌↔◌, ◌⊎◌, true, some, arith, ap}
use hedge_arkade.Common.Int.{◌≤ℤ◌}
use std.Path.{subst}
use hedge_arkade.Domain.State.{State}
use hedge_arkade.Domain.Lifecycle.{◌⟶◌, state_eq_iff}
use hedge_arkade.Domain.Records.{Contract, Price, settleable}
use hedge_arkade.Store.Rows.{Store, find_contract, get_contract}
use hedge_arkade.Store.Advance.{Keyed, advance_iff, after_move}
use hedge_arkade.Store.History.{find-same_id}
use hedge_arkade.UseCases.Ports.{Ports}
use hedge_arkade.UseCases.Action.{
  and_then, ◌>>=◌, ◌>>◌, lift, ask, answer, get, move_to, in_state, attempt,
}
use hedge_arkade.UseCases.Settling as Settling
use hedge_arkade.UseCases.Steps.{read-done, each-done, past-done, moved-done}
use hedge_arkade.UseCases.Answers.{get_contract-done, in_state-done, answer-eq-ok, required}

-- The covenant's own trigger: the price is at or beyond a boundary, or the contract matured.
abbrev pub Fires : Terms → Price → Type 0
Fires t p =
    (p.price ≤ℤ t.low_price) ⊎ (t.high_price ≤ℤ p.price) ⊎ (t.maturity_timestamp ≤ℤ p.timestamp)

settleable-Fires :
    (c : Contract) (p : Price) → (settleable c p.price p.timestamp ≡ true) ↔ Fires c.terms p
unfolding settleable
settleable-Fires c p = (λ h. ground arith, λ h. ground arith)

-- A live contract whose trigger fires at the oracle's latest price, and what settling makes of it.
abbrev pub Triggered : Ports → ℕ → Store → Contract → Store → Type 0
Triggered ports id st c' st' =
    (c : Contract) × (price : Price) × (find_contract id st.contracts ≡ some c)
    × (c.state ≡ State.active)
    × (ports.feed_latest ≡ some price)
    × Fires c.terms price
    × (c' ≡ record c { state = State.settling })
    × (st' ≡ after_move ports.db_now c State.settling st)

settled_from :
    (ports : Ports) (id : ℕ) (st : Store) (c' : Contract) (st' : Store)
    → Keyed st.contracts
    → Settling.settle ports id st ≡ (ok c', st')
    → Triggered ports id st c' st'
unfolding Settling.settle get
settled_from ports id st c' st' k h =
    let (c, ec, h1) = read-done st (get_contract id) _ h in
    let (es, h2) = past-done st (in_state State.active c) _ h1 in
    let (price, ep, h3) = each-done st (answer ports.feed_latest) _ h2 in
    let (et, h4) = past-done st _ _ h3 in
    let (_, _, moved, left) =
      (advance_iff ports.db_now c State.settling st c' st' k).0
        (moved-done ports.db_now c State.settling st h4) in
    (
      c,
      price,
      get_contract-done id st c ec,
      in_state-done State.active c es,
      answer-eq-ok _ ep,
      (settleable-Fires c price).0 (required _ _ et),
      moved,
      left,
    )

settles :
    (ports : Ports) (id : ℕ) (st : Store) (c' : Contract) (st' : Store)
    → Keyed st.contracts
    → Triggered ports id st c' st'
    → Settling.settle ports id st ≡ (ok c', st')
unfolding Settling.settle get ask ◌>>=◌ ◌>>◌ and_then lift get_contract move_to attempt
settles ports id st c' st' k (c, price, found, live, ep, fires, moved, left) =
    let held = (advance_iff ports.db_now c State.settling st c' st' k).1 (
      subst (λ s. s ⟶ State.settling) (sym live) ◌⟶◌.settle,
      (
        c,
        ap (λ n. find_contract n st.contracts) (find-same_id id st.contracts c found) ∙ found,
        refl,
      ),
      moved,
      left,
    ) in
    let et = (settleable-Fires c price).1 fires in
    ground (arith, found, live, ep, et, held, state_eq_iff c.state State.active)

-- Over rows with distinct ids, `Settle` succeeds, for whoever asks, exactly for an active contract whose
-- price at the oracle's latest is at or below the low boundary, or at or above the high one, or which
-- matured at that price's time. It returns the contract in the settling state and leaves the store in
-- which that contract alone has moved, with the event of the step.
pub settle_iff :
    (ports : Ports) (id : ℕ) (st : Store) (c' : Contract) (st' : Store)
    → Keyed st.contracts
    → (Settling.settle ports id st ≡ (ok c', st')) ↔ Triggered ports id st c' st'
settle_iff ports id st c' st' k = (settled_from ports id st c' st' k, settles ports id st c' st' k)
