-- ===== src/Store/Advance.antt =====
-- The compare-and-swap of `Advance` (service/internal/postgres/contracts.go): when it moves a row,
-- what it leaves alone, and who loses a race.
use hedge_arkade.Common.{
  ◌==◌, if◌then◌else◌, ==_iff, Bool-cases, Option-cases, ok, err, >>=-eq-ok, Result-cases, ℕ, ◌≡◌,
  refl, sym, ap, ◌∙◌, ◌≢◌, ◌↔◌, inl, inr, ◌&&◌, Option, none, List, [], ◌∷◌, arith, some, map, true,
}
use hedge_arkade.Common.Int.{ℤ}
use hedge_arkade.Domain.State.{State, state_eq, transition}
use hedge_arkade.Domain.Lifecycle.{state_eq_iff, ◌⟶◌, transition_iff}
use hedge_arkade.Domain.Records.{Contract, conflict}
use hedge_arkade.Store.Rows.{
  Store, find_contract, update_rows, rows_affected, write, add_event, advance,
}

-- The ids of the rows are pairwise different, as the primary key keeps them.
abbrev pub Keyed : List Contract → Type 0
Keyed [] = Unit
Keyed (c ∷ cs) = (find_contract c.id cs ≡ none) × Keyed cs

-- what the update does to the row that a lookup finds
pub find-update_rows :
    (now : ℤ) (c : Contract) (from : State) (id : ℕ) (rows : List Contract)
    → find_contract id (update_rows now c from rows) ≡ elim (find_contract id rows) [
      | none ↦ none
      | some row ↦
          some (
            if row.id == c.id && state_eq row.state from
            then record c { updated_at = now }
            else row)
    ]
unfolding find_contract update_rows
find-update_rows now c from id [] = refl
find-update_rows now c from id (row ∷ rows) = ground (arith, find-update_rows now c from id rows)

affected-none :
    (c : Contract) (from : State) (rows : List Contract)
    → find_contract c.id rows ≡ none
    → rows_affected c from rows ≡ 0
unfolding find_contract rows_affected
affected-none c from [] h = refl
affected-none c from (row ∷ rows) h = ground (arith, affected-none c from rows)

-- With keyed rows a statement touches the one row of its id, if that is in the state asked for.
affected :
    (c : Contract) (from : State) (rows : List Contract)
    → Keyed rows
    → rows_affected c from rows ≡ elim (find_contract c.id rows) [
      | none ↦ 0
      | some row ↦ if state_eq row.state from then 1 else 0
    ]
unfolding find_contract rows_affected
affected c from [] k = refl
affected c from (row ∷ rows) k = elim (Bool-cases (row.id == c.id)) [
  | inl same ↦
      let id_eq = (==_iff row.id c.id).0 same in
      rw (affected-none c from rows (rw id_eq at k.0), same) (ground arith)
  | inr other ↦ rw (affected c from rows k.1, other) (omega arith)
]

-- the state of a row that may be missing
abbrev state_or_unknown : Option Contract → State
state_or_unknown none = State.unknown
state_or_unknown (some c) = c.state

write_held :
    (now : ℤ) (c : Contract) (from : State) (st : Store) (row : Contract)
    → Keyed st.contracts
    → find_contract c.id st.contracts ≡ some row
    → row.state ≡ from
    → write now c from st ≡ ok (record st { contracts = update_rows now c from st.contracts })
unfolding write
write_held now c from st row k found same =
    ground (arith, affected c from st.contracts k, state_eq_iff row.state from)

write_conflict :
    (now : ℤ) (c : Contract) (from : State) (st : Store)
    → Keyed st.contracts
    → ((row : Contract) → find_contract c.id st.contracts ≡ some row → row.state ≢ from)
    → write now c from st ≡ err conflict
unfolding write
write_conflict now c from st k behind = elim (Option-cases (find_contract c.id st.contracts)) [
  | inl missing ↦ ground (arith, affected c from st.contracts k)
  | inr (row, found) ↦
      ground (arith, affected c from st.contracts k, state_eq_iff row.state from, behind row found)
]

pub write-eq-ok :
    (now : ℤ) (c : Contract) (from : State) (st st' : Store)
    → Keyed st.contracts
    → write now c from st ≡ ok st'
    → (row : Contract) × (find_contract c.id st.contracts ≡ some row)
      × (row.state ≡ from)
      × (st' ≡ record st { contracts = update_rows now c from st.contracts })
write-eq-ok now c from st st' k h = elim (Option-cases (find_contract c.id st.contracts)) [
  | inl missing ↦ absurd (cc (h, write_conflict now c from st k (λ row e. absurd (cc))))
  | inr (row, found) ↦ elim (Bool-cases (state_eq row.state from)) [
    | inl same ↦
        let at = (state_eq_iff row.state from).0 same in
        (row, found, at, cc (h, write_held now c from st row k found at))
    | inr differs ↦ absurd (
        cc (
          h,
          write_conflict now c from st k (λ r e same. cc (
            differs,
            (state_eq_iff row.state from).1 (ap state_or_unknown (sym found ∙ e) ∙ same),
          )),
        ))
  ]
]

pub advance-eq-ok :
    (now : ℤ) (c : Contract) (to : State) (st : Store) (moved : Contract) (st' : Store)
    → Keyed st.contracts
    → advance now c to st ≡ ok (moved, st')
    → (c.state ⟶ to)
      × (row : Contract) × (find_contract c.id st.contracts ≡ some row)
      × (row.state ≡ c.state)
      × (moved ≡ record c { state = to })
      × (st'
          ≡ add_event c.id (some c.state) to (record st {
            contracts = update_rows now (record c { state = to }) c.state st.contracts;
          }))
unfolding advance
advance-eq-ok now c to st moved st' k h = elim (Result-cases (transition c.state to)) [
  | inl (e, refused) ↦ absurd (cc)
  | inr (_, allowed) ↦
      let (w, ew, h1) =
        >>=-eq-ok (write now (record c { state = to }) c.state st) _ (rw allowed at h) in
      let (row, found, at, es) = write-eq-ok now (record c { state = to }) c.state st w k ew in
      ((transition_iff c.state to).0 allowed, row, found, at, cc, cc)
]

pub advance_held :
    (now : ℤ) (c : Contract) (to : State) (st : Store) (row : Contract)
    → Keyed st.contracts
    → c.state ⟶ to
    → find_contract c.id st.contracts ≡ some row
    → row.state ≡ c.state
    → advance now c to st
      ≡ ok (
        record c { state = to },
        add_event c.id (some c.state) to (record st {
          contracts = update_rows now (record c { state = to }) c.state st.contracts;
        }),
      )
unfolding advance
advance_held now c to st row k step found at = rw (
  (transition_iff c.state to).1 step,
  write_held now (record c { state = to }) c.state st row k found at,
)

-- the row as it is written, where the ids agree
abbrev pub replaced : ℤ → Contract → Contract → Contract
replaced now c row = if row.id == c.id then record c { updated_at = now } else row

-- The store behind a move: the row of the contract's id is the caller's copy in the new state, the event
-- is the latest, and nothing else is changed.
abbrev pub after_move : ℤ → Contract → State → Store → Store
after_move now c to st = record st {
  contracts = map (replaced now (record c { state = to })) st.contracts;
  events = record { contract_id = c.id; from_state = some c.state; to_state = to } ∷ st.events;
}

absent_rows :
    (now : ℤ) (c : Contract) (from : State) (rows : List Contract)
    → find_contract c.id rows ≡ none
    → update_rows now c from rows ≡ map (replaced now c) rows
unfolding find_contract update_rows
absent_rows now c from [] h = refl
absent_rows now c from (row ∷ rows) h = elim (Bool-cases (row.id == c.id)) [
  | inl same ↦ absurd (ground (arith, same, h))
  | inr other ↦
      let rest = absent_rows now c from rows (ground (arith, other, h)) in
      ground (arith, other, rest)
]

-- With keyed rows, and the row of the id in the state asked for, the statement replaces that row.
held_rows :
    (now : ℤ) (c : Contract) (from : State) (rows : List Contract) {row : Contract}
    → Keyed rows
    → find_contract c.id rows ≡ some row
    → row.state ≡ from
    → update_rows now c from rows ≡ map (replaced now c) rows
unfolding find_contract update_rows
held_rows now c from [] k h at = refl
held_rows now c from (head ∷ rows) {row} k h at = elim (Bool-cases (head.id == c.id)) [
  | inl same ↦
      let id_eq = (==_iff head.id c.id).0 same in
      let rest = absent_rows now c from rows (rw id_eq at k.0) in
      let here : head ≡ row = ground (arith, same, h) in
      let held : state_eq head.state from ≡ true =
        (state_eq_iff head.state from).1 (ap (λ r. r.state) here ∙ at) in
      ground (arith, same, held, rest)
  | inr other ↦
      let rest = held_rows now c from rows {row = row} k.1 (ground (arith, other, h)) at in
      ground (arith, other, rest)
]

moved_rows :
    (now : ℤ) (c : Contract) (to : State) (st : Store) {row : Contract}
    → Keyed st.contracts
    → find_contract c.id st.contracts ≡ some row
    → row.state ≡ c.state
    → add_event c.id
        (some c.state)
        to
        (record st { contracts = update_rows now (record c { state = to }) c.state st.contracts })
      ≡ after_move now c to st
unfolding add_event
moved_rows now c to st k found at =
    ap
      (λ rows. record st {
        contracts = rows;
        events =
            record { contract_id = c.id; from_state = some c.state; to_state = to } ∷ st.events;
      })
      (held_rows now (record c { state = to }) c.state st.contracts k found at)

-- Over rows with distinct ids, `Advance` succeeds exactly when the diagram has the step and the stored
-- row is still in the state that the caller read. It returns the caller's copy in the new state, and
-- leaves the store in which that copy, under the database's clock, has replaced the row, with the event
-- of the step in front of the log and everything else as it was.
pub advance_iff :
    (now : ℤ) (c : Contract) (to : State) (st : Store) (moved : Contract) (st' : Store)
    → Keyed st.contracts
    → (advance now c to st ≡ ok (moved, st')) ↔ (
        (c.state ⟶ to)
        × ((row : Contract) × (find_contract c.id st.contracts ≡ some row) × (row.state ≡ c.state))
        × (moved ≡ record c { state = to })
        × (st' ≡ after_move now c to st))
advance_iff now c to st moved st' k = (
  λ h.
      let (step, row, found, at, em, es) = advance-eq-ok now c to st moved st' k h in
      (step, (row, found, at), em, es ∙ moved_rows now c to st k found at),
  λ (step, (row, found, at), em, es).
      advance_held now c to st row k step found at
      ∙ ap ok (λ i. (sym em i, (moved_rows now c to st k found at ∙ sym es) i)),
)

-- Over rows with distinct ids, a caller whose copy is behind the stored row gets a conflict for
-- any step that the diagram allows.
pub advance_stale :
    (now : ℤ) (c : Contract) (to : State) (st : Store) (row : Contract)
    → Keyed st.contracts
    → c.state ⟶ to
    → find_contract c.id st.contracts ≡ some row
    → row.state ≢ c.state
    → advance now c to st ≡ err conflict
unfolding advance
advance_stale now c to st row k step found behind = rw (
  (transition_iff c.state to).1 step,
  write_conflict now (record c { state = to }) c.state st k
      (λ r e same. behind (ap state_or_unknown (sym found ∙ e) ∙ same)),
)
