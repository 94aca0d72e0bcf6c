-- ===== src/UseCases/Answers.antt =====
-- What the answers of a use case's small steps say when they are no error.
use hedge_arkade.Common.{
  Option-cases, ok, err, map_err, ℕ, ◌≡◌, refl, inl, inr, Bool, true, false, Option, none, some,
  arith,
}
use hedge_arkade.Contract.Errors
use hedge_arkade.Domain.State.{State, state_eq}
use hedge_arkade.Domain.Lifecycle.{state_eq_iff}
use hedge_arkade.Domain.Records.{Contract, AppError, Side, from_contract, side_of}
use hedge_arkade.Store.Rows.{Store, find_contract, get_contract}
use hedge_arkade.UseCases.Action.{answer, require, row_or_not_found, in_state, party}

pub answer-eq-ok : {A : Type 0} (o : Option A) {a : A} → answer o ≡ ok a → o ≡ some a
answer-eq-ok none h = absurd (cc)
answer-eq-ok (some b) h = cc

pub mapped-eq-ok :
    {A : Type 0} (r : Errors.Outcome A) {a : A} → map_err from_contract r ≡ ok a → r ≡ ok a
mapped-eq-ok (ok b) h = cc
mapped-eq-ok (err e) h = absurd (cc)

pub required : (b : Bool) (e : AppError) {u : Unit {0}} → require b e ≡ ok u → b ≡ true
required true e h = refl
required false e h = absurd (cc)

pub found_row :
    {V : Type 0} (found : Option V) {v : V} → row_or_not_found found ≡ ok v → found ≡ some v
found_row none h = absurd (cc)
found_row (some w) h = cc

pub in_state-done : (s : State) (c : Contract) {u : Unit {0}} → in_state s c ≡ ok u → c.state ≡ s
in_state-done s c h = (state_eq_iff c.state s).0 (required (state_eq c.state s) _ h)

pub get_contract-done :
    (id : ℕ) (st : Store) (c : Contract)
    → get_contract id st ≡ ok c
    → find_contract id st.contracts ≡ some c
unfolding get_contract
get_contract-done id st c h = elim (Option-cases (find_contract id st.contracts)) [
  | inl missing ↦ absurd (ground (arith, missing, h))
  | inr (row, found) ↦ ground (arith, found, h)
]

pub party-done :
    (c : Contract) (who : ℕ) (side : Side) → party c who ≡ ok side → side_of c who ≡ some side
unfolding party
party-done c who side h = elim (Option-cases (side_of c who)) [
  | inl stranger ↦ absurd (ground (arith, stranger, h))
  | inr (s, e) ↦ ground (arith, e, h)
]
