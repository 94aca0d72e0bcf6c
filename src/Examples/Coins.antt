-- ===== src/Examples/Coins.antt =====
-- Examples for the wallets' coins and for closing early through the operator.
use hedge_arkade.Adapters.Funding.{
  Purse, FundingLib, adapter_fund, with_wallets, fund_from, adapter_balance,
}
use hedge_arkade.Adapters.Fragments.{fragments_never_fund}
use hedge_arkade.Domain.State.{State}
use hedge_arkade.Domain.Records.{Contract, failed_call, covenant, parse_key, side_of, Side}
use hedge_arkade.UseCases.Funding.{finish_funding, fund}
use hedge_arkade.Examples.Closing.{row_in, store_in, a_proposal}
use hedge_arkade.Arkade.Wallet.{
  Vtxo, WalletLib, spendable_vtxo, coin_usable, first_usable, input_of, wallet_balance,
  balance_from,
}
use hedge_arkade.Examples.Adapters.{plain_ports}
use hedge_arkade.UseCases.Funding.{can_pay}
use hedge_arkade.Adapters.Chain.{to_int64}
use hedge_arkade.Adapters.Submitting.{CloseLib}
use hedge_arkade.Arkade.Client.{sign_one}
use hedge_arkade.Examples.Data.{an_offchain}
use hedge_arkade.Common.{refl}
use hedge_arkade.Common.{
  ◌==◌, if◌then◌else◌, length, bytes_equal, ok, err, ℕ, ◌≡◌, refl, true, false, Option, none, some,
  List, [], ◌∷◌, arith,
}
use hedge_arkade.Common.Int.{pos, ◌+ℤ◌, ◌-ℤ◌, add64, sub64}
use hedge_arkade.Arkade.Client.{
  fund_bilaterally, build_bilateral_funding, change_output, sign_each, sign_everyone, sign_one,
  sign_round, submit_to_arkd,
}
use hedge_arkade.Contract.Signing.{contract_pk_script}
use hedge_arkade.Contract.Vtxo.{closures, validate_keys, settlement_key, settlement_script_bytes}
use hedge_arkade.Contract.Terms.{validate}
use hedge_arkade.Contract.Script.{
  settlement_script, lock_script_check, lock_script_commitment, adjacency_check, authenticate,
  covenant_body, field_extract, payout_check, predecessor_check, price_clamp, recipient_check,
  shape_check, start_check, trigger_check,
}
use hedge_arkade.Remote.Hex.{encode_hex, hex_char}
use hedge_arkade.Store.Rows.{Store, find_contract}
use hedge_arkade.Store.Advance.{after_move, Keyed}

abbrev coin : ℕ → Vtxo
coin amount = record { txid = 1 ∷ []; vout = 0; script = []; amount = amount; recoverable = false }

abbrev two_coins : List Vtxo
two_coins = coin 10_000 ∷ coin 10_000 ∷ []

abbrev coin_lib : WalletLib
coin_lib = record { pk_script = some []; collaborative_path = some []; hash_of = λ txid. some txid }

abbrev purse_with : List Vtxo → Purse
purse_with vs = record {
  lib = coin_lib;
  listed = some vs;
  signer = λ packet. some packet;
  arkd = record {
    submit_tx = λ tx checkpoints. some (tx, checkpoints);
    finalize_tx = λ txid checkpoints. true;
  };
  registered = λ txid. true;
}

-- The short has the two coins, the long one that is large enough.
abbrev two_purses : ℕ → Option Purse
two_purses user = some (purse_with (if user == 1 then two_coins else coin 30_000 ∷ []))

abbrev a_funding_lib : FundingLib
a_funding_lib = record {
  Packets = ℕ;
  build_txs = λ inputs outs. some (length inputs);
  encode = λ n. some (n ∷ [], []);
  hash_string = λ hash. hash;
}

abbrev unfunded_row : Contract
unfunded_row = record (row_in State.funding) { short_stake = pos 16_666; long_stake = pos 3_334 }

-- With a single coin of the same sum the contract is funded.
funded_by_one_coin :
    adapter_fund plain_ports a_funding_lib
      (λ user. some (purse_with (coin 20_000 ∷ [])))
      unfunded_row
    ≡ some (record { txid = 2 ∷ []; vout = 0 })
unfolding adapter_fund covenant fund_from fund_bilaterally build_bilateral_funding add64 ◌+ℤ◌
    contract_pk_script closures validate_keys validate settlement_key settlement_script_bytes
    settlement_script lock_script_check lock_script_commitment spendable_vtxo to_int64 change_output
    sign_each sign_everyone sign_one sign_round submit_to_arkd coin_usable first_usable input_of
    sub64 ◌-ℤ◌ bytes_equal adjacency_check authenticate covenant_body field_extract payout_check
    predecessor_check price_clamp recipient_check shape_check start_check trigger_check parse_key
    encode_hex hex_char
funded_by_one_coin = refl

-- the same before it was funded, which both have accepted
abbrev accepted_row : Contract
accepted_row = record unfunded_row { state = State.accepted }

abbrev accepted_store : Store
accepted_store = record (store_in State.accepted a_proposal) { contracts = accepted_row ∷ [] }

accepted_store-Keyed : Keyed accepted_store.contracts
unfolding find_contract
accepted_store-Keyed = (refl, tt)

accepted_found : find_contract 5 accepted_store.contracts ≡ some accepted_row
unfolding find_contract
accepted_found = refl

accepted_seat : side_of accepted_row 1 ≡ some Side.short
unfolding side_of can_pay adapter_balance wallet_balance balance_from add64 ◌+ℤ◌ to_int64
accepted_seat = refl

long_can_pay :
    can_pay (with_wallets plain_ports a_funding_lib two_purses) (some 2) (pos 3_334) ≡ ok tt
unfolding can_pay adapter_balance wallet_balance balance_from add64 ◌+ℤ◌ to_int64
long_can_pay = refl

fragments_example :
    (fund (with_wallets plain_ports a_funding_lib two_purses) 5 1 accepted_store
      ≡ (ok unfunded_row, after_move (pos 9) accepted_row State.funding accepted_store))
    × (finish_funding
          (with_wallets plain_ports a_funding_lib two_purses)
          unfunded_row
          (store_in State.funding a_proposal)
        ≡ (err failed_call, store_in State.funding a_proposal))
unfolding to_int64
fragments_example =
    fragments_never_fund plain_ports a_funding_lib two_purses accepted_row 5 1 Side.short
      accepted_store (store_in State.funding a_proposal) 1 16_666 1332 (purse_with two_coins)
      two_coins accepted_store-Keyed accepted_found refl accepted_seat refl refl refl refl refl refl
      (omega arith) (omega arith) (omega arith) long_can_pay

-- A close that the short and the long have signed, over an operator that returns one checkpoint.
abbrev close_lib : CloseLib
close_lib = record {
  off = an_offchain;
  checkpoint_tapscript = [];
  anchor = [];
  extension = λ script stack. none;
  encode = λ tx. some (tx.version ∷ []);
  emulator = λ tx checkpoints. true;
}
