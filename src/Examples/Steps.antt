-- ===== src/Examples/Steps.antt =====
-- Examples for the use cases, each from a store in which it succeeds.
use hedge_arkade.Common.{inl, arith, ok, err, ◌≡◌, refl, none, some, [], ◌∷◌}
use hedge_arkade.Common.Int.{pos, ◌-ℤ◌, sub64}
use hedge_arkade.Contract.Terms.{validate}
use hedge_arkade.Contract.Vtxo.{
  leaf_closure, closures, validate_keys, settlement_key, leaf_index, settlement_script_bytes,
}
use hedge_arkade.Domain.State.{State}
use hedge_arkade.Domain.Records.{Contract, ExitPackage, Reply, covenant, complete, parse_key}
use hedge_arkade.Store.Rows.{Store}
use hedge_arkade.Store.Advance.{after_move}
use hedge_arkade.UseCases.Opening as Opening
use hedge_arkade.UseCases.Settling as Settling
use hedge_arkade.UseCases.Packages.{exit_package, sweep_of, outpoint_of, exit_signature}
use hedge_arkade.UseCases.Evidence.{Covers, exit_package-Covers}
use hedge_arkade.UseCases.Trigger.{settle_iff}
use hedge_arkade.Examples.Adapters.{plain_ports}
use hedge_arkade.Examples.Closing.{row_in, store_in, a_proposal, store_in-Keyed, row_of}
use hedge_arkade.Contract.Exit.{new_sweep, exit_tx}
use hedge_arkade.Contract.Signing.{
  verify_exit_signature, exit_sighash, exit_leaf, contract_pk_script,
}
use hedge_arkade.Contract.Script.{
  adjacency_check, authenticate, covenant_body, field_extract, lock_script_check,
  lock_script_commitment, payout_check, predecessor_check, price_clamp, recipient_check,
  settlement_script, shape_check, start_check, trigger_check,
}

-- `Settle`, below the low boundary
settle_example : Settling.settle plain_ports 5 (store_in State.active a_proposal) ≡ (
  ok (row_in State.settling),
  after_move (pos 9) (row_in State.active) State.settling (store_in State.active a_proposal),
)
settle_example =
    (settle_iff plain_ports 5 (store_in State.active a_proposal) (row_in State.settling)
        (after_move (pos 9) (row_in State.active) State.settling (store_in State.active a_proposal))
        (store_in-Keyed State.active a_proposal)).1
      (
        row_in State.active,
        record { sequence = 7; timestamp = pos 100; price = pos 50 },
        row_of State.active a_proposal,
        refl,
        refl,
        inl (omega arith),
        refl,
        refl,
      )

abbrev pub a_funded : Contract
a_funded = record (row_in State.funding) { funding = some (record { txid = 1 ∷ []; vout = 0 }) }

abbrev pub reply_or {ℓ} : {A : Type ℓ} → A → Reply A → A
reply_or a (ok b) = b
reply_or a (err e) = a

abbrev pub no_package : ExitPackage
no_package = record {
  raw_tx = [];
  amount = pos 0;
  sweep = record { pk_script = []; leaf = []; control_block = [] };
  short_sig = [];
  long_sig = [];
  swept = none;
  swept_sats = pos 0;
}

abbrev pub a_stored_exit : ExitPackage
a_stored_exit = reply_or no_package (exit_package plain_ports a_funded)

presigned : exit_package plain_ports a_funded ≡ ok a_stored_exit
unfolding exit_package sweep_of covenant new_sweep outpoint_of exit_tx sub64 ◌-ℤ◌ exit_signature
    verify_exit_signature exit_sighash exit_leaf leaf_closure closures validate_keys validate
    settlement_key adjacency_check authenticate covenant_body field_extract lock_script_check
    lock_script_commitment payout_check predecessor_check price_clamp recipient_check
    settlement_script shape_check start_check trigger_check contract_pk_script leaf_index
    settlement_script_bytes complete parse_key
presigned = refl

exit_package_example : Covers plain_ports a_funded a_stored_exit
exit_package_example = exit_package-Covers plain_ports a_funded a_stored_exit presigned

-- `Accept` of a proposal by the short, at terms whose trigger fires below 60
abbrev a_proposed : Contract
a_proposed = record (row_in State.proposed) {
  long_user = none;
  long_key = [];
  short_stake = pos 20_000;
  long_stake = pos 0;
}

abbrev proposed_store : Store
proposed_store = record {
  contracts = a_proposed ∷ [];
  events = [];
  redemptions = [];
  exits = [];
  arbitrations = [];
}

abbrev accepted_reply : Reply Contract × Store
accepted_reply = Opening.accept plain_ports 5 2 proposed_store

abbrev an_accepted : Contract
an_accepted = record a_proposed {
  state = State.accepted;
  long_user = some 2;
  long_key = 2 ∷ 2 ∷ [];
  terms = record a_proposed.terms { long_lock_script = 2 ∷ [] };
  short_stake = pos 16_666;
  long_stake = pos 3_334;
  pk_script = 7 ∷ 7 ∷ [];
}
