-- ===== src/Store/History.antt =====
-- The event log (service/internal/postgres/contracts.go, `event` inside `Create` and `Advance`):
-- in every store that the operations can reach it is a walk of the lifecycle for each contract.
use std.Path.{subst}
use hedge_arkade.Common.{
  ◌==◌, if◌then◌else◌, ==_iff, Option-cases, ok, ℕ, ◌≡◌, sym, ap, ◌∙◌, inl, inr, Option, none, some,
  List, [], ◌∷◌, arith,
}
use hedge_arkade.Common.Int.{ℤ}
use hedge_arkade.Domain.State.{State}
use hedge_arkade.Domain.Lifecycle.{state_eq_iff, ◌⟶◌}
use hedge_arkade.Domain.Records.{Contract}
use hedge_arkade.Store.Rows.{
  Store, Event, find_contract, update_rows, add_event, create, advance, save,
}
use hedge_arkade.Store.Advance.{Keyed, find-update_rows, advance-eq-ok, write-eq-ok}

-- The state that the log last saw a contract move to.
abbrev last_state : ℕ → List Event → Option State
last_state id [] = none
last_state id (e ∷ es) = if e.contract_id == id then some e.to_state else last_state id es

-- An event opens a contract's history or takes a step of the diagram.
abbrev IsStep : Option State → State → Type 0
IsStep none to = Unit
IsStep (some from) to = from ⟶ to

-- Each event starts where the contract's last one ended.
abbrev pub Walks : List Event → Type 0
Walks [] = Unit
Walks (e ∷ es) =
    (e.from_state ≡ last_state e.contract_id es) × IsStep e.from_state e.to_state × Walks es

abbrev pub state_of : Option Contract → Option State
state_of none = none
state_of (some c) = some c.state

pub record IsValid (st : Store) : Type 0 where
  pub keyed : Keyed st.contracts
  pub walks : Walks st.events
  pub current : (id : ℕ) → last_state id st.events ≡ state_of (find_contract id st.contracts)

-- What the service can do to the store.
pub data Change (st : Store) : Store → Type 0 where
  created : (c : Contract) {st' : Store} → create c st ≡ ok st' → Change st st'
  advanced :
      (now : ℤ) (c : Contract) (to : State) {moved : Contract} {st' : Store}
      → advance now c to st ≡ ok (moved, st')
      → Change st st'
  saved : (now : ℤ) (c : Contract) {st' : Store} → save now c st ≡ ok st' → Change st st'

pub find-same_id :
    (id : ℕ) (rows : List Contract) (c : Contract) → find_contract id rows ≡ some c → c.id ≡ id
unfolding find_contract
find-same_id id [] c h = absurd (cc)
find-same_id id (row ∷ rows) c h = ground (arith, find-same_id id rows c)

-- where a row is after an update, by its state alone
pub state_of-update :
    (now : ℤ) (c : Contract) (from : State) (id : ℕ) (rows : List Contract) (row : Contract)
    → find_contract c.id rows ≡ some row
    → row.state ≡ from
    → state_of (find_contract id (update_rows now c from rows))
      ≡ (if c.id == id then some c.state else state_of (find_contract id rows))
state_of-update now c from id rows row found at = elim (Option-cases (find_contract id rows)) [
  | inl missing ↦ ground (arith, find-update_rows now c from id rows, ==_iff c.id id)
  | inr (r, e) ↦ ground (
    arith,
    find-update_rows now c from id rows,
    find-same_id id rows r e,
    ==_iff c.id id,
    ==_iff r.id c.id,
    state_eq_iff r.state from,
  )
]

update_rows-Keyed :
    (now : ℤ) (c : Contract) (from : State) (rows : List Contract)
    → Keyed rows
    → Keyed (update_rows now c from rows)
unfolding update_rows
update_rows-Keyed now c from [] k = tt
update_rows-Keyed now c from (row ∷ rows) (fresh, k) =
    (ground (arith, find-update_rows now c from row.id rows), update_rows-Keyed now c from rows k)

created_current :
    (c : Contract) (st : Store)
    → IsValid st
    → find_contract c.id st.contracts ≡ none
    → (id : ℕ)
    → last_state id
        (record { contract_id = c.id; from_state = none; to_state = c.state } ∷ st.events)
      ≡ state_of (find_contract id (c ∷ st.contracts))
unfolding find_contract
created_current c st v fresh id = ground (arith, v.current id)

pub create-IsValid :
    (c : Contract) (st st' : Store) → IsValid st → create c st ≡ ok st' → IsValid st'
unfolding create add_event
create-IsValid c st st' v h = elim (Option-cases (find_contract c.id st.contracts)) [
  | inl fresh ↦
      let e : add_event c.id none c.state (record st { contracts = c ∷ st.contracts }) ≡ st' = cc in
      subst IsValid e (record {
        keyed = (fresh, v.keyed);
        walks = (sym (v.current c.id ∙ ap state_of fresh), tt, v.walks);
        current = created_current c st v fresh;
      })
  | inr (row, taken) ↦ absurd (cc)
]

advanced_current :
    (now : ℤ) (c : Contract) (to : State) (st : Store) (row : Contract)
    → IsValid st
    → find_contract c.id st.contracts ≡ some row
    → row.state ≡ c.state
    → (id : ℕ)
    → last_state id
        (record { contract_id = c.id; from_state = some c.state; to_state = to } ∷ st.events)
      ≡ state_of (find_contract id (update_rows now (record c { state = to }) c.state st.contracts))
advanced_current now c to st row v found at id = ground (
  arith,
  v.current id,
  state_of-update now (record c { state = to }) c.state id st.contracts row found at,
)

pub advance-IsValid :
    (now : ℤ) (c : Contract) (to : State) (st : Store) (moved : Contract) (st' : Store)
    → IsValid st
    → advance now c to st ≡ ok (moved, st')
    → IsValid st'
unfolding add_event
advance-IsValid now c to st moved st' v h =
    let (step, row, found, at, _, e) = advance-eq-ok now c to st moved st' v.keyed h in
    subst IsValid (sym e) (record {
      keyed = update_rows-Keyed now (record c { state = to }) c.state st.contracts v.keyed;
      walks = (sym (v.current c.id ∙ ap state_of found ∙ ap some at), step, v.walks);
      current = advanced_current now c to st row v found at;
    })

pub save-IsValid :
    (now : ℤ) (c : Contract) (st st' : Store) → IsValid st → save now c st ≡ ok st' → IsValid st'
unfolding save
save-IsValid now c st st' v h =
    let (row, found, at, e) = write-eq-ok now c c.state st st' v.keyed h in
    subst IsValid (sym e) (record {
      keyed = update_rows-Keyed now c c.state st.contracts v.keyed;
      walks = v.walks;
      current = λ id. ground (
        arith,
        v.current id,
        state_of-update now c c.state id st.contracts row found at,
        ==_iff c.id id,
        v.current c.id,
      );
    })

-- the stores that a list of changes reaches
infix 40 ◌↠◌
pub data ◌↠◌ : Store → Store → Type 0 where
  stay : {st : Store} → st ↠ st
  then_change : {st st' st'' : Store} → st ↠ st' → Change st' st'' → st ↠ st''

change-IsValid : {st st' : Store} → Change st st' → IsValid st → IsValid st'
change-IsValid (created c h) v = create-IsValid c _ _ v h
change-IsValid (advanced now c to h) v = advance-IsValid now c to _ _ _ v h
change-IsValid (saved now c h) v = save-IsValid now c _ _ v h

-- Whatever sequence of creations, transitions and saves has run on a valid store, whoever made
-- them, the store is valid: the ids are different, each event is a step of the diagram from where
-- the contract's last event ended, and the last event of a contract is its stored state.
pub reachable-IsValid : {st st' : Store} → st ↠ st' → IsValid st → IsValid st'
reachable-IsValid stay v = v
reachable-IsValid (then_change path change) v = change-IsValid change (reachable-IsValid path v)
