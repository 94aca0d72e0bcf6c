-- ===== src/UseCases/Steps.antt =====
-- What a use case that succeeded has done, statement by statement.
use hedge_arkade.Common.{ok, err, Result-cases, ◌≡◌, refl, ap, inl, inr, arith}
use hedge_arkade.Common.Int.{ℤ}
use hedge_arkade.Domain.Records.{Contract, Reply}
use hedge_arkade.Domain.State.{State}
use hedge_arkade.Store.Rows.{Store, advance, write, add_event}
use hedge_arkade.UseCases.Action.{
  Action, and_then, ◌>>=◌, ◌>>◌, lift, ask, change, attempt, move_to,
}

stepped :
    {A B : Type 0} (r : Reply A) (st' : Store) (next : A → Action B) {b : B} {st'' : Store}
    → and_then (r, st') next ≡ (ok b, st'')
    → (a : A) × (r ≡ ok a) × (next a st' ≡ (ok b, st''))
unfolding and_then
stepped (ok a) st' next h = (a, refl, h)
stepped (err e) st' next h = absurd (cc)

module _ {A B : Type 0} (st : Store) {b : B} {st'' : Store} where
  pub read-done :
      (q : Store → Reply A) (next : A → Action B)
      → (ask q >>= next) st ≡ (ok b, st'')
      → (a : A) × (q st ≡ ok a) × (next a st ≡ (ok b, st''))
  unfolding ◌>>=◌ ask
  read-done q next h = stepped (q st) st next h

  pub each-done :
      (r : Reply A) (next : A → Action B)
      → (lift r >>= next) st ≡ (ok b, st'')
      → (a : A) × (r ≡ ok a) × (next a st ≡ (ok b, st''))
  unfolding ◌>>=◌ lift
  each-done r next h = stepped r st next h

module _ {B : Type 0} (st : Store) {b : B} {st'' : Store} where
  pub past-done :
      (r : Reply (Unit {0})) (next : Action B)
      → (lift r >> next) st ≡ (ok b, st'')
      → (r ≡ ok tt) × (next st ≡ (ok b, st''))
  unfolding ◌>>=◌ ◌>>◌ lift
  past-done r next h = let (u, e, k) = stepped r st (λ _. next) h in (e, k)

  pub change-done :
      (f : Store → Store) (next : Action B)
      → (change f >> next) st ≡ (ok b, st'')
      → next (f st) ≡ (ok b, st'')
  unfolding ◌>>=◌ ◌>>◌ change and_then
  change-done f next h = h

moved :
    (now : ℤ) (c : Contract) (to : State) (st : Store) (c' : Contract) (st' : Store)
    → move_to now c to st ≡ (ok c', st')
    → advance now c to st ≡ ok (c', st')
unfolding move_to attempt
moved now c to st c' st' h = elim (Result-cases (advance now c to st)) [
  | inl (e, refused) ↦ absurd (ground (arith, refused, h))
  | inr ((m, s), done) ↦ ground (arith, done, h)
]

pub moved-done :
    (now : ℤ) (c : Contract) (to : State) (st : Store) {c' : Contract} {st' : Store}
    → move_to now c to st ≡ (ok c', st')
    → advance now c to st ≡ ok (c', st')
moved-done now c to st h = moved now c to st _ _ h

-- a step of the contract in the middle of a block
pub step-done :
    {B : Type 0} (now : ℤ) (c : Contract) (to : State) (st : Store) (next : Contract → Action B)
    {b : B} {st'' : Store}
    → (move_to now c to >>= next) st ≡ (ok b, st'')
    → (c' : Contract) × (st' : Store) × (advance now c to st ≡ ok (c', st'))
      × (next c' st' ≡ (ok b, st''))
unfolding ◌>>=◌
step-done now c to st next {b} {st''} h =
    let (r, s) = move_to now c to st in
    let (c', e, k) = stepped r s next h in (c', s, moved now c to st c' s (ap (λ x. (x, s)) e), k)

-- a step touches the contracts and the log alone
pub advance-other_tables :
    (now : ℤ) (c : Contract) (to : State) (st : Store) (c' : Contract) (st' : Store)
    → advance now c to st ≡ ok (c', st')
    → (st'.redemptions ≡ st.redemptions)
      × (st'.exits ≡ st.exits)
      × (st'.arbitrations ≡ st.arbitrations)
unfolding advance write add_event
advance-other_tables now c to st c' st' h =
    (ground (arith, h), ground (arith, h), ground (arith, h))
