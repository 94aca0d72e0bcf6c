-- ===== src/Examples/Tables.antt =====
-- Examples for the life of a contract and for the tables.
use hedge_arkade.Common.{ok, ◌≡◌, refl, true, none, some, [], ◌∷◌}
use hedge_arkade.Common.Int.{pos}
use hedge_arkade.Domain.State.{State}
use hedge_arkade.Domain.Lifecycle.{◌⟶◌}
use hedge_arkade.Domain.Records.{Contract, Side}
use hedge_arkade.Store.Rows.{Store, find_contract, advance, create, add_event}
use hedge_arkade.Store.Advance.{Keyed, advance_iff, after_move}
use hedge_arkade.Store.History as History
use hedge_arkade.Store.History.{
  Change, created, advanced, ◌↠◌, stay, then_change, reachable-IsValid,
}
use hedge_arkade.Contract.Tx.{block}
use hedge_arkade.Examples.Data.{some_terms}

-- A contract between the users 1 and 2.
abbrev pub a_row : Contract
a_row = record {
  id = 5;
  state = State.active;
  creator = Side.short;
  short_user = some 1;
  long_user = some 2;
  terms = some_terms;
  short_key = 2 ∷ [];
  long_key = 3 ∷ [];
  arkd_signer = 4 ∷ [];
  emulator_signer = 5 ∷ [];
  exit_delay = record { locktime_type = block; value = 144 };
  enable_mutual_redemption = true;
  pk_script = [];
  short_stake = pos 10_000;
  long_stake = pos 10_000;
  funding = none;
  updated_at = pos 0;
}

abbrev no_rows : Store
no_rows = record { contracts = []; events = []; redemptions = []; exits = []; arbitrations = [] }

abbrev one_row : Store
one_row = record {
  contracts = a_row ∷ [];
  events = record { contract_id = 5; from_state = none; to_state = State.active } ∷ [];
  redemptions = [];
  exits = [];
  arbitrations = [];
}

-- the caller's copy of it before it was funded
abbrev stale_row : Contract
stale_row = record a_row { state = State.funding }

one_row-Keyed : Keyed one_row.contracts
unfolding find_contract
one_row-Keyed = (refl, tt)

row_found : find_contract 5 one_row.contracts ≡ some a_row
unfolding find_contract
row_found = refl

advance_example :
    advance (pos 9) a_row State.exiting one_row
    ≡ ok (record a_row { state = State.exiting }, after_move (pos 9) a_row State.exiting one_row)
advance_example =
    (advance_iff (pos 9) a_row State.exiting one_row (record a_row { state = State.exiting })
        (after_move (pos 9) a_row State.exiting one_row) one_row-Keyed).1
      (◌⟶◌.leave, (a_row, row_found, refl), refl, refl)

no_rows-IsValid : History.IsValid no_rows
unfolding find_contract
no_rows-IsValid = record { keyed = tt; walks = tt; current = λ id. refl }

row_created : create a_row no_rows ≡ ok one_row
unfolding create find_contract add_event
row_created = refl

reachable_example : History.IsValid one_row
reachable_example =
    reachable-IsValid (then_change stay (Change.created a_row row_created)) no_rows-IsValid
