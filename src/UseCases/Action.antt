-- ===== src/UseCases/Action.antt =====
-- A use case over the store: its reply, and the store that it leaves, also where it fails half-way.
use hedge_arkade.Common.{ok, err, ℕ, Bool, true, false, Option, none, some}
use hedge_arkade.Common.Int.{ℤ}
use hedge_arkade.Domain.State.{State, state_eq}
use hedge_arkade.Domain.Records.{
  Contract, AppError, Reply, Side, failed_call, not_allowed, not_found, side_of,
}
use hedge_arkade.Store.Rows.{Store, get_contract, advance, save}
use hedge_arkade.UseCases.Ports.{wrong_state}

abbrev pub Action : Type 0 → Type 0
Action A = Store → Reply A × Store

-- what runs behind a call: nothing, where the call failed
unfoldable pub and_then : {A B : Type 0} → Reply A × Store → (A → Action B) → Reply B × Store
and_then (ok a, st) next = next a st
and_then (err e, st) next = (err e, st)

infixl 5 ◌>>=◌ ◌>>◌
unfoldable pub ◌>>=◌ : {A B : Type 0} → Action A → (A → Action B) → Action B
◌>>=◌ m next st = and_then (m st) next

unfoldable pub ◌>>◌ : {B : Type 0} → Action (Unit {0}) → Action B → Action B
first >> second = first >>= λ _. second

unfoldable pub return : {A : Type 0} → A → Action A
return a st = (ok a, st)

-- what does not touch the store
unfoldable pub lift : {A : Type 0} → Reply A → Action A
lift r st = (r, st)

-- a query
unfoldable pub ask : {A : Type 0} → (Store → Reply A) → Action A
ask query st = (query st, st)

-- a statement that cannot fail
unfoldable pub change : (Store → Store) → Action (Unit {0})
change f st = (ok tt, f st)

abbrev pub settle_reply : {A : Type 0} → Store → Reply (A × Store) → Reply A × Store
settle_reply st (ok (a, st')) = (ok a, st')
settle_reply st (err e) = (err e, st)

-- a statement that may fail, and then leaves the store alone
unfoldable pub attempt : {A : Type 0} → (Store → Reply (A × Store)) → Action A
attempt f st = settle_reply st (f st)

-- an adapter's answer
abbrev pub answer : {A : Type 0} → Option A → Reply A
answer none = err failed_call
answer (some a) = ok a

-- `if !cond { return err }`
abbrev pub require : Bool → AppError → Reply (Unit {0})
require true e = ok tt
require false e = err e

-- the row of a map, or `ErrNotFound`
abbrev pub row_or_not_found : {A : Type 0} → Option A → Reply A
row_or_not_found none = err not_found
row_or_not_found (some a) = ok a

-- `contracts.Get`, `contracts.Advance`, `contracts.Save`
unfoldable pub get : ℕ → Action Contract
get id = ask (get_contract id)

unfoldable pub move_to : ℤ → Contract → State → Action Contract
move_to now c to = attempt (advance now c to)

abbrev pub save_reply : Reply Store → Reply (Unit {0} × Store)
save_reply (err e) = err e
save_reply (ok st) = ok (tt, st)

unfoldable pub save_row : ℤ → Contract → Action (Unit {0})
save_row now c = attempt (λ st. save_reply (save now c st))

-- `c.State != s` refused
abbrev pub in_state : State → Contract → Reply (Unit {0})
in_state s c = require (state_eq c.state s) wrong_state

-- `c.SideOf(who)`, refused to a stranger
unfoldable pub party : Contract → ℕ → Reply Side
party c who = elim (side_of c who) [ none ↦ err not_allowed | some side ↦ ok side ]
