-- ===== src/Store/Rows.antt =====
-- The tables and their operations (service/internal/postgres/contracts.go, redemptions.go).
use hedge_arkade.Common.{
  ◌==◌, if◌then◌else◌, err, ◌>>=◌, ◌>>◌, ℕ, ◌+◌, Bool, true, false, not, ◌&&◌, ◌||◌, Option, none,
  some, List, [], ◌∷◌, ok, fail_if, map_err,
}
use hedge_arkade.Common.Int.{ℤ}
use hedge_arkade.Domain.State.{State, state_eq, transition}
use hedge_arkade.Domain.Records.{
  Contract, Redemption, ExitPackage, Arbitration, AppError, Reply, not_found, conflict,
  bad_transition, is_user, is_open,
}

-- A row of `contract_events`; the first event of a contract comes from no state.
pub record Event : Type 0 where
  pub contract_id : ℕ
  pub from_state : Option State
  pub to_state : State

pub record Store : Type 0 where
  pub contracts : List Contract
  pub events : List Event  -- the latest first
  pub redemptions : List (ℕ × Redemption)
  pub exits : List (ℕ × ExitPackage)
  pub arbitrations : List (ℕ × Arbitration)

-- `SELECT … WHERE id = $1`
unfoldable pub find_contract : ℕ → List Contract → Option Contract
find_contract id [] = none
find_contract id (c ∷ cs) = if c.id == id then some c else find_contract id cs

-- `Get`
unfoldable pub get_contract : ℕ → Store → Reply Contract
get_contract id st = elim (find_contract id st.contracts) [ none ↦ err not_found | some c ↦ ok c ]

-- `UPDATE contracts SET … WHERE id = $1 AND state = $28`: the rows after it. `updated_at` is the
-- database's clock.
unfoldable pub update_rows : ℤ → Contract → State → List Contract → List Contract
update_rows now c from [] = []
update_rows now c from (row ∷ rows) =
    (if row.id == c.id && state_eq row.state from then record c { updated_at = now } else row)
    ∷ update_rows now c from rows

-- `RowsAffected` of that statement
unfoldable pub rows_affected : Contract → State → List Contract → ℕ
rows_affected c from [] = 0
rows_affected c from (row ∷ rows) =
    (if row.id == c.id && state_eq row.state from then 1 else 0) + rows_affected c from rows

-- `write`
unfoldable pub write : ℤ → Contract → State → Store → Reply Store
write now c from st = do
  fail_if (rows_affected c from st.contracts == 0) conflict
  ok (record st { contracts = update_rows now c from st.contracts })

-- `event`
unfoldable pub add_event : ℕ → Option State → State → Store → Store
add_event id from to st = record st {
  events = record { contract_id = id; from_state = from; to_state = to } ∷ st.events;
}

-- `Create`: the primary key refuses a second row of one id.
unfoldable pub create : Contract → Store → Reply Store
create c st = do
  fail_if (elim (find_contract c.id st.contracts) [ none ↦ false | some _ ↦ true ])
      AppError.failed_call
  ok (add_event c.id none c.state (record st { contracts = c ∷ st.contracts }))

-- `Advance`: the transition is checked, then the row is moved if it is still in the state that the
-- caller read, and the event lands with it. The caller's copy comes back moved.
unfoldable pub advance : ℤ → Contract → State → Store → Reply (Contract × Store)
advance now c to st = do
  map_err bad_transition (transition c.state to)
  let moved = record c { state = to }
  st' ← write now moved c.state st
  ok (moved, add_event c.id (some c.state) to st')

-- `Save`
unfoldable pub save : ℤ → Contract → Store → Reply Store
save now c st = write now c c.state st

-- `InState`, without its order
unfoldable pub in_state : (State → Bool) → List Contract → List Contract
in_state wanted [] = []
in_state wanted (c ∷ cs) = if wanted c.state then c ∷ in_state wanted cs else in_state wanted cs

-- `ContractFilter` and the conditions of `List`, for one row
pub record ContractFilter : Type 0 where
  pub state : Option State
  pub user : Option ℕ
  pub only_open : Bool

unfoldable pub selected : ContractFilter → Contract → Bool
selected f c =
    elim f.state [ none ↦ true | some s ↦ state_eq c.state s ]
    && (elim f.user [ none ↦ true | some u ↦ is_user c.short_user u || is_user c.long_user u ]
        && (not f.only_open || is_open c))

-- One table keyed by the contract: `ForContract`, `Put` with its ON CONFLICT update, and `Drop`.
module _ {ℓ} {V : Type ℓ} where
  unfoldable pub for_contract : ℕ → List (ℕ × V) → Option V
  for_contract id [] = none
  for_contract id ((k, v) ∷ m) = if k == id then some v else for_contract id m

  unfoldable pub put : ℕ → V → List (ℕ × V) → List (ℕ × V)
  put id v [] = (id, v) ∷ []
  put id v ((k, w) ∷ m) = if k == id then (id, v) ∷ m else (k, w) ∷ put id v m

  -- where a row is already there, `ON CONFLICT` writes only some columns of it
  unfoldable pub upsert : (V → V → V) → ℕ → V → List (ℕ × V) → List (ℕ × V)
  upsert merge id v [] = (id, v) ∷ []
  upsert merge id v ((k, w) ∷ m) =
      if k == id then (id, merge w v) ∷ m else (k, w) ∷ upsert merge id v m

  unfoldable pub drop_row : ℕ → List (ℕ × V) → List (ℕ × V)
  drop_row id [] = []
  drop_row id ((k, v) ∷ m) = if k == id then drop_row id m else (k, v) ∷ drop_row id m

-- `ExitRepo.Put`: an existing row takes only where the exit landed.
unfoldable pub put_exit : ℕ → ExitPackage → List (ℕ × ExitPackage) → List (ℕ × ExitPackage)
put_exit = upsert (λ old new. record old { swept = new.swept; swept_sats = new.swept_sats })

-- `ArbitrationRepo.Put`: an existing row takes only the signatures and the txid.
unfoldable pub put_arbitration : ℕ → Arbitration → List (ℕ × Arbitration) → List (ℕ × Arbitration)
put_arbitration = upsert (λ old new. record old { signatures = new.signatures; txid = new.txid })
