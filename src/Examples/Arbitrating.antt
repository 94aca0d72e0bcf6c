-- ===== src/Examples/Arbitrating.antt =====
-- Examples for the arbitration behind an exit.
use hedge_arkade.Common.{length, bytes_equal, ok, ◌≡◌, refl, some, [], ◌∷◌}
use hedge_arkade.Common.Int.{pos, ◌-ℤ◌, ◌*ℤ◌, ◌/ℤ◌, sub64, mul64}
use hedge_arkade.Contract.Tx.{MsgTx}
use hedge_arkade.Contract.Vtxo.{Contract as Covenant}
use hedge_arkade.Contract.Exit.{Sweep, new_sweep}
use hedge_arkade.Contract.Arbitration.{
  payouts, max_tx_in_sequence_num, verify_arbitration, arbitrate, match_outputs,
}
use hedge_arkade.Domain.State.{
  State, state_eq, rank, among, can_go_to, is_valid, successors, transition, transitions,
}
use hedge_arkade.Domain.Records.{
  Contract, ExitPackage, Arbitration, Reply, Side, side_of, covenant, parse_key, on_chain, is_user,
  set_signature, is_nil,
}
use hedge_arkade.Store.Rows.{
  Store, find_contract, for_contract, put_arbitration, get_contract, upsert, add_event, advance,
  rows_affected, update_rows, write,
}
use hedge_arkade.UseCases.Ports.{Ports}
use hedge_arkade.UseCases.Action.{
  and_then, ◌>>=◌, ◌>>◌, ask, get, lift, party, move_to, attempt, return, change,
}
use hedge_arkade.UseCases.Packages.{
  proposed_arbitration, check_arbitration, sign_proposal, sweep_of, same_amounts, outpoint_of,
}
use hedge_arkade.UseCases.Leaving.{
  arbitrate_contract, sign_contract_arbitration, get_arbitration, get_exit, store_arbitration,
}
use hedge_arkade.UseCases.Evidence.{check_arbitration_sound, FollowsMessage}
use hedge_arkade.UseCases.Arbitrating.{sign_arbitration_checked, arbitrate_again}
use hedge_arkade.Examples.Data.{some_terms, a_message, a_signature}
use hedge_arkade.Examples.Adapters.{plain_ports}
use hedge_arkade.Examples.Closing.{row_in}
use hedge_arkade.Contract.Oracle.{price_from, oracle_message, le_bytes, field_at, le_value}
use hedge_arkade.Contract.Terms.{settlement_split, validate, clamp}
use hedge_arkade.Contract.Scale.{scale_to_available}

-- the exit left 19 700 sats, of which the fee takes 200
abbrev a_landed : ExitPackage
a_landed = record {
  raw_tx = 2 ∷ [];
  amount = pos 20_000;
  sweep = record { pk_script = []; leaf = []; control_block = [] };
  short_sig = 1 ∷ [];
  long_sig = 2 ∷ [];
  swept = some (record { txid = 2 ∷ []; vout = 0 });
  swept_sats = pos 19_700;
}

abbrev a_payout : MsgTx
a_payout = record {
  version = 2;
  tx_in =
      record {
        previous_out_point = record { hash = 2 ∷ []; index = 0 };
        sequence = max_tx_in_sequence_num;
        witness = [];
      }
      ∷ [];
  tx_out = payouts some_terms (pos 16_249) (pos 3251);
}

abbrev decoding_ports : Ports
decoding_ports = record plain_ports { decode_tx = λ raw. some a_payout }

abbrev a_stored : Arbitration
a_stored = record {
  short_sats = pos 16_249;
  long_sats = pos 3251;
  price = pos 60;
  message = a_message;
  signature = a_signature;
  raw_tx = 2 ∷ [];
  available = pos 19_700;
  signatures = (3 ∷ [], 3 ∷ []) ∷ [];
  txid = [];
}

checks : check_arbitration decoding_ports (row_in State.arbitrating) a_stored ≡ ok tt
unfolding check_arbitration sweep_of covenant new_sweep verify_arbitration arbitrate price_from
    oracle_message le_bytes field_at le_value settlement_split validate scale_to_available sub64
    ◌-ℤ◌ match_outputs mul64 ◌*ℤ◌ ◌/ℤ◌ bytes_equal clamp parse_key same_amounts
checks = refl

check_arbitration_example :
    (cov : Covenant) × (sweep : Sweep) × (tx : MsgTx) × (sweep_of decoding_ports
        (row_in State.arbitrating)
      ≡ ok (cov, sweep))
    × (decoding_ports.decode_tx a_stored.raw_tx ≡ some tx)
    × (length tx.tx_in ≡ 1)
    × FollowsMessage decoding_ports cov a_stored tx
check_arbitration_example =
    check_arbitration_sound decoding_ports (row_in State.arbitrating) a_stored checks

abbrev exited_store : State → Arbitration → Store
exited_store s a = record {
  contracts = row_in s ∷ [];
  events = [];
  redemptions = [];
  exits = (5, a_landed) ∷ [];
  arbitrations = (5, a) ∷ [];
}

-- the long signs
abbrev a_signed : Arbitration
a_signed = record a_stored { signatures = (3 ∷ [], 3 ∷ []) ∷ (2 ∷ [], 2 ∷ []) ∷ [] }

long_signed :
    sign_contract_arbitration decoding_ports 5 2 (exited_store State.arbitrating a_stored)
    ≡ (ok a_signed, exited_store State.arbitrating a_signed)
unfolding sign_contract_arbitration ◌>>=◌ and_then get ask get_contract find_contract lift party
    side_of ◌>>◌ state_eq get_arbitration for_contract check_arbitration sweep_of arbitrate_contract
    get_exit on_chain proposed_arbitration covenant mul64 sub64 ◌*ℤ◌ ◌-ℤ◌ ◌/ℤ◌ bytes_equal arbitrate
    match_outputs verify_arbitration new_sweep field_at le_value price_from scale_to_available clamp
    settlement_split validate is_user parse_key set_signature rank put_arbitration upsert change
    return store_arbitration same_amounts sign_proposal is_nil among can_go_to is_valid successors
    transition transitions add_event advance rows_affected update_rows write attempt move_to
    outpoint_of oracle_message le_bytes
long_signed = refl

sign_arbitration_example :
    (c : Contract) × (side : Side) × (a : Arbitration) × (find_contract 5
        (exited_store State.arbitrating a_stored).contracts
      ≡ some c)
    × (side_of c 2 ≡ some side)
    × (c.state ≡ State.arbitrating)
    × (for_contract 5 (exited_store State.arbitrating a_stored).arbitrations ≡ some a)
    × (check_arbitration decoding_ports c a ≡ ok tt)
    × (sign_proposal decoding_ports 2 c a ≡ ok a_signed)
    × (exited_store State.arbitrating a_signed ≡ record (exited_store State.arbitrating a_stored) {
      arbitrations =
          put_arbitration 5 a_signed (exited_store State.arbitrating a_stored).arbitrations;
    })
sign_arbitration_example =
    sign_arbitration_checked decoding_ports 5 2 (exited_store State.arbitrating a_stored) a_signed
      (exited_store State.arbitrating a_signed) long_signed

-- an earlier proposal, of another message
abbrev an_old : Arbitration
an_old = record a_stored {
  message = [];
  raw_tx = 9 ∷ [];
  short_sats = pos 10_000;
  long_sats = pos 9500;
}

abbrev again : Reply Arbitration × Store
again = arbitrate_contract plain_ports 5 (exited_store State.exited an_old)

proposed_again :
    arbitrate_contract plain_ports 5 (exited_store State.exited an_old) ≡ (ok a_stored, again.1)
unfolding arbitrate_contract ◌>>=◌ and_then get ask get_contract find_contract ◌>>◌ lift state_eq
    get_exit for_contract on_chain proposed_arbitration sweep_of covenant new_sweep outpoint_of
    arbitrate price_from oracle_message le_bytes field_at le_value settlement_split validate
    scale_to_available sub64 ◌-ℤ◌ store_arbitration change move_to attempt mul64 ◌*ℤ◌ ◌/ℤ◌ clamp
    is_nil parse_key among can_go_to is_valid rank successors transition transitions add_event
    advance put_arbitration rows_affected update_rows upsert write return
proposed_again = refl

old_there : for_contract 5 (exited_store State.exited an_old).arbitrations ≡ some an_old
unfolding for_contract
old_there = refl

arbitrate_again_example :
    ((c : Contract) × (pkg : ExitPackage) × (find_contract 5
          (exited_store State.exited an_old).contracts
        ≡ some c)
      × (for_contract 5 (exited_store State.exited an_old).exits ≡ some pkg)
      × (proposed_arbitration plain_ports c pkg ≡ ok a_stored))
    × (for_contract 5 again.1.arbitrations
        ≡ some (record an_old { signatures = a_stored.signatures; txid = a_stored.txid }))
arbitrate_again_example =
    arbitrate_again plain_ports 5 (exited_store State.exited an_old) an_old a_stored again.1
      old_there proposed_again
