-- ===== src/UseCases/Rules.antt =====
-- What the use cases around the early close guarantee (service/internal/app/redemption.go,
-- worker.go).
use std.Path.{subst}
use hedge_arkade.Store.History.{find-same_id}
use hedge_arkade.Common.{
  Option-cases, ok, err, Result-cases, ℕ, ◌≡◌, refl, sym, ap, ◌∙◌, ◌↔◌, inl, inr, true, Option,
  none, some, arith,
}
use hedge_arkade.Common.Int.{ℤ}
use hedge_arkade.Domain.State.{State}
use hedge_arkade.Domain.Lifecycle.{◌⟶◌}
use hedge_arkade.Domain.Records.{Contract, Redemption, AppError, Reply, Side, side_of, signed}
use hedge_arkade.Store.Rows.{
  Store, find_contract, get_contract, update_rows, add_event, advance, for_contract,
}
use hedge_arkade.Store.Advance.{Keyed, advance-eq-ok, advance_held}
use hedge_arkade.UseCases.Ports.{Ports}
use hedge_arkade.UseCases.Action.{party}
use hedge_arkade.UseCases.Closing.{
  without_proposal, moved_or_kept, own_contract, reject_redemption, submitted, finish_redeeming,
  transient, give_up,
}

-- A row in the table, one of whose parties the user is.
abbrev pub Owns : ℕ → ℕ → Store → Contract → Type 0
Owns id who st c =
    (find_contract id st.contracts ≡ some c) × (side : Side) × (side_of c who ≡ some side)

own_contract-eq-ok :
    (id who : ℕ) (st : Store) (c : Contract) → own_contract id who st ≡ ok c → Owns id who st c
unfolding own_contract get_contract party
own_contract-eq-ok id who st c h = elim (Option-cases (find_contract id st.contracts)) [
  | inl missing ↦ absurd (ground arith)
  | inr (row, found) ↦ elim (Option-cases (side_of row who)) [
    | inl stranger ↦ absurd (ground arith)
    | inr (side, e) ↦ (ground arith, side, ground arith)
  ]
]

own_contract_of :
    (id who : ℕ) (st : Store) (c : Contract) → Owns id who st c → own_contract id who st ≡ ok c
unfolding own_contract get_contract party
own_contract_of id who st c (found, side, e) = ground arith

pub moved_or_kept-eq-ok :
    {A : Type 0} (m : Reply (Contract × Store)) (a b : A) (st st' : Store)
    → moved_or_kept m a st ≡ (ok b, st')
    → (moved : Contract) × (m ≡ ok (moved, st')) × (a ≡ b)
moved_or_kept-eq-ok (ok (c, s)) a b st st' h = (c, cc, cc)
moved_or_kept-eq-ok (err e) a b st st' h = absurd (cc)

abbrev LeadsTo : State → Option State → Type 0
LeadsTo s none = Unit
LeadsTo s (some to) = s ⟶ to

stuck_step : (s : State) → LeadsTo s (transient s)
unfolding transient
stuck_step State.funding = ◌⟶◌.fail
stuck_step State.settling = ◌⟶◌.settle_again
stuck_step State.redeeming = ◌⟶◌.redeem_again
stuck_step State.exiting = ◌⟶◌.exit_again
stuck_step State.arbitrating = ◌⟶◌.arbitrate_again
stuck_step State.proposed = tt
stuck_step State.accepted = tt
stuck_step State.active = tt
stuck_step State.settled = tt
stuck_step State.redemption_proposed = tt
stuck_step State.redeemed = tt
stuck_step State.exited = tt
stuck_step State.arbitrated = tt
stuck_step State.cancelled = tt
stuck_step State.failed = tt
stuck_step State.unknown = tt

transient_step : (s to : State) → transient s ≡ some to → s ⟶ to
transient_step s to e = subst (LeadsTo s) e (stuck_step s)

-- Over rows with distinct ids, a contract that is stuck in one of the worker's transient states,
-- and whose row is still where the worker read it, is written off into the state that the table
-- names, with the step in the event log.
pub give_up_moves :
    (now : ℤ) (c : Contract) (to : State) (st : Store) (row : Contract)
    → Keyed st.contracts
    → transient c.state ≡ some to
    → find_contract c.id st.contracts ≡ some row
    → row.state ≡ c.state
    → give_up now c st
      ≡ add_event c.id
          (some c.state)
          to
          (record st { contracts = update_rows now (record c { state = to }) c.state st.contracts })
unfolding give_up
give_up_moves now c to st row k stuck found at =
    ground (arith, stuck, advance_held now c to st row k (transient_step c.state to stuck) found at)

rejected :
    (now : ℤ) (id who : ℕ) (st : Store) (c : Contract)
    → own_contract id who st ≡ ok c
    → reject_redemption now id who st
      ≡ moved_or_kept
          (advance now c State.active (without_proposal id st))
          (record c { state = State.active })
          (without_proposal id st)
unfolding reject_redemption
rejected now id who st c own = ground (arith, own)

not_rejected :
    (now : ℤ) (id who : ℕ) (st : Store) (e : AppError)
    → own_contract id who st ≡ err e
    → reject_redemption now id who st ≡ (err e, st)
unfolding reject_redemption
not_rejected now id who st e own = ground (arith, own)

reject-ok :
    (now : ℤ) (id who : ℕ) (st : Store) (c' : Contract) (st' : Store)
    → Keyed st.contracts
    → reject_redemption now id who st ≡ (ok c', st')
    → (c : Contract) × Owns id who st c × (c.state ⟶ State.active)
reject-ok now id who st c' st' k h = elim (Result-cases (own_contract id who st)) [
  | inl (e, refused) ↦ absurd (cc (h, not_rejected now id who st e refused))
  | inr (c, own) ↦
      let (moved, ea, _) =
        moved_or_kept-eq-ok (advance now c State.active (without_proposal id st))
          (record c { state = State.active }) c' (without_proposal id st) st'
          (sym (rejected now id who st c own) ∙ h) in
      let step = (advance-eq-ok now c State.active (without_proposal id st) moved st' k ea).0 in
      (c, own_contract-eq-ok id who st c own, step)
]

-- Over rows with distinct ids, a rejection succeeds exactly for a party of a contract whose state
-- has a step to active. No other guard is asked, so it also succeeds while a contract is being
-- funded.
pub reject_redemption_iff :
    (now : ℤ) (id who : ℕ) (st : Store)
    → Keyed st.contracts
    → ((c : Contract) × (st' : Store) × (reject_redemption now id who st ≡ (ok c, st')))
      ↔ ((c : Contract) × Owns id who st c × (c.state ⟶ State.active))
reject_redemption_iff now id who st k = (
  λ (c', st', h). reject-ok now id who st c' st' k h,
  λ (c, owns, step).
      let same = find-same_id id st.contracts c owns.0 in
      let held =
        advance_held now c State.active (without_proposal id st) c k step
          (ap (λ n. find_contract n st.contracts) same ∙ owns.0) refl in
      (
        _,
        _,
        rejected now id who st c (own_contract_of id who st c owns)
            ∙ ap (λ m. moved_or_kept m (record c { state = State.active }) (without_proposal id st))
                held,
      ),
)

submitted-eq-ok :
    (ports : Ports) (c : Contract) (st : Store) (r : Redemption)
    → submitted ports c st ≡ ok r
    → (for_contract c.id st.redemptions ≡ some r)
      × (signed r ≡ true)
      × (ports.submit_redemption c r ≡ true)
unfolding submitted
submitted-eq-ok ports c st r h = elim (Option-cases (for_contract c.id st.redemptions)) [
  | inl missing ↦ absurd (ground arith)
  | inr (stored, found) ↦ (ground arith, ground arith, ground arith)
]

finished :
    (ports : Ports) (now : ℤ) (c : Contract) (st : Store) (r : Redemption)
    → submitted ports c st ≡ ok r
    → finish_redeeming ports now c st
      ≡ moved_or_kept
          (advance now c State.redeemed (without_proposal c.id st))
          r
          (without_proposal c.id st)
unfolding finish_redeeming
finished ports now c st r e = ground (arith, e)

not_finished :
    (ports : Ports) (now : ℤ) (c : Contract) (st : Store) (e : AppError)
    → submitted ports c st ≡ err e
    → finish_redeeming ports now c st ≡ (err e, st)
unfolding finish_redeeming
not_finished ports now c st e h = ground (arith, h)

only_redeeming : {s : State} → s ⟶ State.redeemed → s ≡ State.redeeming
only_redeeming ◌⟶◌.finish_redeeming = refl

-- Over rows with distinct ids, a close that finishes has submitted the stored proposal, with both
-- signatures, and was of a contract that is redeeming.
pub finish_redeeming-signed :
    (ports : Ports) (now : ℤ) (c : Contract) (st st' : Store) (r : Redemption)
    → Keyed st.contracts
    → finish_redeeming ports now c st ≡ (ok r, st')
    → (for_contract c.id st.redemptions ≡ some r)
      × (signed r ≡ true)
      × (ports.submit_redemption c r ≡ true)
      × (c.state ≡ State.redeeming)
finish_redeeming-signed ports now c st st' r k h = elim (Result-cases (submitted ports c st)) [
  | inl (e, refused) ↦ absurd (cc (h, not_finished ports now c st e refused))
  | inr (r', sent) ↦
      let (moved, ea, same) =
        moved_or_kept-eq-ok (advance now c State.redeemed (without_proposal c.id st)) r' r
          (without_proposal c.id st) st' (sym (finished ports now c st r' sent) ∙ h) in
      let step = (advance-eq-ok now c State.redeemed (without_proposal c.id st) moved st' k ea).0 in
      let (found, both, submits) = submitted-eq-ok ports c st r (sent ∙ ap ok same) in
      (found, both, submits, only_redeeming step)
]
