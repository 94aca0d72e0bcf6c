-- ===== src/UseCases/Backed.antt =====
-- What the database holds between any two requests: a valid history, and behind every contract that
-- is leaving Arkade the rows that its way out needs (service/internal/domain/exit.go).
use hedge_arkade.Common.{
  ◌==◌, ==_iff, Bool-cases, ok, ℕ, ◌≡◌, refl, sym, inl, inr, Bool, true, false, not, ◌&&◌, Option,
  none, some, List, arith,
}
use hedge_arkade.Common.Int.{ℤ}
use hedge_arkade.Domain.State.{State}
use std.Path.{subst}
use hedge_arkade.Domain.Records.{
  Redemption, Contract, ExitPackage, Arbitration, complete, on_chain, is_nil, Redemption,
}
use hedge_arkade.Store.Rows.{
  Store, find_contract, advance, save, create, add_event, update_rows, for_contract,
}
use hedge_arkade.Store.History.{
  IsValid, state_of, state_of-update, advance-IsValid, save-IsValid, create-IsValid,
}
use hedge_arkade.Store.Advance.{advance-eq-ok, write-eq-ok}
use hedge_arkade.Domain.Lifecycle.{◌⟶◌}

-- a package that both parties signed
abbrev pub usable : Option ExitPackage → Bool
usable none = false
usable (some pkg) = complete pkg

-- one whose exit is on the chain
abbrev pub landed : Option ExitPackage → Bool
landed none = false
landed (some pkg) = complete pkg && on_chain pkg

-- what a state needs: leaving, a package with both signatures; behind it, the place where the exit
-- landed too; in arbitration, a proposal
abbrev pub backed : Option State → Option ExitPackage → Option Arbitration → Bool
backed (some State.exiting) pkg a = usable pkg
backed (some State.exited) pkg a = landed pkg
backed (some State.arbitrating) pkg a = landed pkg && not (is_nil a)
backed (some State.arbitrated) pkg a = landed pkg && not (is_nil a)
backed _ pkg a = true

abbrev pub Backed : Store → ℕ → Option State → Type 0
Backed st id s = backed s (for_contract id st.exits) (for_contract id st.arbitrations) ≡ true

pub record IsSound (st : Store) : Type 0 where
  pub valid : IsValid st
  pub ready : (id : ℕ) → Backed st id (state_of (find_contract id st.contracts))

-- what a step adds to that, which the request that takes it has to check or to write
abbrev pub Entry : State → State → Option ExitPackage → Option Arbitration → Type 0
Entry State.exiting from pkg a = usable pkg ≡ true
Entry State.exited State.exiting pkg a = landed pkg ≡ true
Entry State.arbitrating from pkg a = is_nil a ≡ false
Entry _ from pkg a = Unit

entered :
    {s to : State} (pkg : Option ExitPackage) (a : Option Arbitration)
    → s ⟶ to
    → Entry to s pkg a
    → backed (some s) pkg a ≡ true
    → backed (some to) pkg a ≡ true
entered pkg a ◌⟶◌.leave e b = e
entered pkg a ◌⟶◌.land e b = e
entered pkg a ◌⟶◌.arbitrate e b = ground (arith, e, b)
entered pkg a ◌⟶◌.pay_out e b = b
entered pkg a ◌⟶◌.arbitrate_again e b = ground (arith, b)
entered pkg a _ e b = refl

-- the other tables have no part in the history
pub other_tables-IsValid :
    (st : Store) (rs : List (ℕ × Redemption)) (es : List (ℕ × ExitPackage))
    (rows : List (ℕ × Arbitration))
    → IsValid st
    → IsValid (record st { redemptions = rs; exits = es; arbitrations = rows })
other_tables-IsValid st rs es rows v = record {
  keyed = v.keyed;
  walks = v.walks;
  current = v.current;
}

pub redemptions-IsSound :
    (st : Store) (rs : List (ℕ × Redemption))
    → IsSound st
    → IsSound (record st { redemptions = rs })
redemptions-IsSound st rs i = record {
  valid = other_tables-IsValid st rs st.exits st.arbitrations i.valid;
  ready = i.ready;
}

-- where a row is after a write of one contract, the states being compared
after_write :
    (now : ℤ) (c : Contract) (from : State) (st : Store) (row : Contract)
    → find_contract c.id st.contracts ≡ some row
    → row.state ≡ from
    → ((id : ℕ) → Backed st id (state_of (find_contract id st.contracts)))
    → Backed st c.id (some c.state)
    → (id : ℕ) → Backed st id (state_of (find_contract id (update_rows now c from st.contracts)))
after_write now c from st row found at b entry id =
    let e = state_of-update now c from id st.contracts row found at in
    elim (Bool-cases (c.id == id)) [
      | inl same ↦
          let same_id = (==_iff c.id id).0 same in
          rw (e, same) (subst (λ k. Backed st k (some c.state)) same_id entry)
      | inr other ↦ rw (e, other) (b id)
    ]

-- A step of a sound store leaves it sound, where its entry condition holds; that may use
-- what the stored row already has behind it.
pub advance-IsSound :
    (now : ℤ) (c : Contract) (to : State) (st : Store) (moved : Contract) (st' : Store)
    → IsSound st
    → (Backed st c.id (some c.state)
        → Entry to c.state (for_contract c.id st.exits) (for_contract c.id st.arbitrations))
    → advance now c to st ≡ ok (moved, st')
    → IsSound st'
unfolding add_event
advance-IsSound now c to st moved st' i entry h =
    let (step, row, found, at, _, e) = advance-eq-ok now c to st moved st' i.valid.keyed h in
    let was : Backed st c.id (some c.state) =
      rw (← at) (subst (λ r. Backed st c.id (state_of r)) found (i.ready c.id)) in
    let v = advance-IsValid now c to st moved st' i.valid h in
    subst IsSound (sym e) (record {
      valid = subst IsValid e v;
      ready =
          after_write now (record c { state = to }) c.state st row found at i.ready
            (entered _ _ step (entry was) was);
    })

pub save-IsSound :
    (now : ℤ) (c : Contract) (st st' : Store) → IsSound st → save now c st ≡ ok st' → IsSound st'
unfolding save
save-IsSound now c st st' i h =
    let (row, found, at, e) = write-eq-ok now c c.state st st' i.valid.keyed h in
    let was : Backed st c.id (some c.state) =
      rw (← at) (subst (λ r. Backed st c.id (state_of r)) found (i.ready c.id)) in
    subst IsSound (sym e) (record {
      valid = subst IsValid e (save-IsValid now c st st' i.valid h);
      ready = after_write now c c.state st row found at i.ready was;
    })

created_ready :
    (c : Contract) (st st' : Store)
    → ((id : ℕ) → Backed st id (state_of (find_contract id st.contracts)))
    → c.state ≡ State.proposed
    → create c st ≡ ok st'
    → (id : ℕ) → Backed st' id (state_of (find_contract id st'.contracts))
unfolding create add_event find_contract
created_ready c st st' b fresh h id = ground (arith, b id, fresh, h)

-- A new contract that is still a proposal leaves a sound store sound.
pub create-IsSound :
    (c : Contract) (st st' : Store)
    → IsSound st
    → c.state ≡ State.proposed
    → create c st ≡ ok st'
    → IsSound st'
create-IsSound c st st' i fresh h = record {
  valid = create-IsValid c st st' i.valid h;
  ready = created_ready c st st' i.ready fresh h;
}
