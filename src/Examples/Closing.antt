-- ===== src/Examples/Closing.antt =====
-- Examples for the use cases around the early close.
use hedge_arkade.Common.{ok, ◌≡◌, refl, true, false, some, [], ◌∷◌}
use hedge_arkade.Common.Int.{pos, ◌+ℤ◌, ◌-ℤ◌, ◌/ℤ◌, add64, sub64}
use hedge_arkade.Contract.Oracle.{oracle_message, le_bytes, le_value, field_at, price_from}
use hedge_arkade.Contract.Terms.{settlement_split, validate, clamp}
use hedge_arkade.Domain.State.{
  State, state_eq, rank, transition, transitions, is_valid, can_go_to, successors, among,
}
use hedge_arkade.Domain.Lifecycle.{◌⟶◌}
use hedge_arkade.Domain.Records.{
  Contract, Redemption, short, side_of, split, covenant, parse_key, from_oracle, signed,
}
use hedge_arkade.Store.Rows.{
  Store, find_contract, advance, update_rows, rows_affected, write, add_event, for_contract,
  drop_row,
}
use hedge_arkade.Store.Advance.{Keyed}
use hedge_arkade.UseCases.Closing.{
  check_proposed_split, check_evidence, verify_proposal, reject_redemption, submitted,
  finish_redeeming, transient, give_up,
}
use hedge_arkade.UseCases.Rules.{give_up_moves, reject_redemption_iff, finish_redeeming-signed}
use hedge_arkade.Examples.Data.{a_message, a_signature}
use hedge_arkade.Examples.Adapters.{plain_ports}
use hedge_arkade.Examples.Tables.{a_row}

abbrev pub row_in : State → Contract
row_in s = record a_row { state = s }

abbrev pub store_in : State → Redemption → Store
store_in s r = record {
  contracts = row_in s ∷ [];
  events = [];
  redemptions = (5, r) ∷ [];
  exits = [];
  arbitrations = [];
}

pub store_in-Keyed : (s : State) (r : Redemption) → Keyed (store_in s r).contracts
unfolding find_contract
store_in-Keyed s r = (refl, tt)

pub row_of :
    (s : State) (r : Redemption) → find_contract 5 (store_in s r).contracts ≡ some (row_in s)
unfolding find_contract
row_of s r = refl

-- The short has proposed to close at the signed price of 50.
abbrev pub a_proposal : Redemption
a_proposal = record {
  proposed_by = 1;
  short_sats = pos 16_666;
  long_sats = pos 3_334;
  price = pos 50;
  message = a_message;
  signature = a_signature;
  ark_tx = 8 ∷ [];
  checkpoints = (9 ∷ []) ∷ [];
  short_signed = true;
  long_signed = false;
}

-- The same with the long's signatures.
abbrev a_signed_proposal : Redemption
a_signed_proposal = record a_proposal {
  ark_tx = 2 ∷ 8 ∷ [];
  checkpoints = (2 ∷ 9 ∷ []) ∷ [];
  long_signed = true;
}

proposal_verifies :
    verify_proposal plain_ports (row_in State.redemption_proposed) a_proposal ≡ ok tt
unfolding verify_proposal check_proposed_split check_evidence from_oracle covenant parse_key
    price_from oracle_message le_bytes field_at le_value split settlement_split validate clamp add64
    sub64 ◌+ℤ◌ ◌-ℤ◌ ◌/ℤ◌
proposal_verifies = refl

abbrev closing_store : Store
closing_store =
    add_event 5 (some State.redemption_proposed) State.redeeming
      (record (store_in State.redemption_proposed a_signed_proposal) {
        contracts =
            update_rows (pos 9) (row_in State.redeeming) State.redemption_proposed
              (row_in State.redemption_proposed ∷ []);
      })

-- A rejection while the contract is being funded makes it active.
reject_redemption_example :
    (c : Contract) × (st' : Store) × (reject_redemption
        (pos 9)
        5
        1
        (store_in State.funding a_proposal)
      ≡ (ok c, st'))
unfolding side_of
reject_redemption_example =
    (reject_redemption_iff (pos 9) 5 1 (store_in State.funding a_proposal)
        (store_in-Keyed State.funding a_proposal)).1
      (row_in State.funding, (row_of State.funding a_proposal, short, refl), ◌⟶◌.go_live)

give_up_example :
    give_up (pos 9) (row_in State.settling) (store_in State.settling a_proposal)
    ≡ add_event 5 (some State.settling) State.active (record (store_in State.settling a_proposal) {
      contracts =
          update_rows (pos 9) (row_in State.active) State.settling (row_in State.settling ∷ []);
    })
unfolding transient
give_up_example =
    give_up_moves (pos 9) (row_in State.settling) State.active (store_in State.settling a_proposal)
      (row_in State.settling) (store_in-Keyed State.settling a_proposal) refl
      (row_of State.settling a_proposal) refl

abbrev closed_store : Store
closed_store =
    add_event 5 (some State.redeeming) State.redeemed
      (record (store_in State.redeeming a_signed_proposal) {
        redemptions = [];
        contracts =
            update_rows (pos 9) (row_in State.redeemed) State.redeeming
              (row_in State.redeeming ∷ []);
      })

closes :
    finish_redeeming plain_ports
      (pos 9)
      (row_in State.redeeming)
      (store_in State.redeeming a_signed_proposal)
    ≡ (ok a_signed_proposal, closed_store)
unfolding finish_redeeming submitted for_contract signed drop_row advance transition is_valid
    can_go_to transitions successors among state_eq rank write rows_affected
closes = refl

finish_redeeming_example :
    (for_contract 5 (store_in State.redeeming a_signed_proposal).redemptions
      ≡ some a_signed_proposal)
    × (signed a_signed_proposal ≡ true)
    × (true ≡ true)
    × (State.redeeming ≡ State.redeeming)
finish_redeeming_example =
    finish_redeeming-signed plain_ports (pos 9) (row_in State.redeeming)
      (store_in State.redeeming a_signed_proposal) closed_store a_signed_proposal
      (store_in-Keyed State.redeeming a_signed_proposal) closes
