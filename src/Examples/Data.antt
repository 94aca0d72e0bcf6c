-- ===== src/Examples/Data.antt =====
-- A contract, its libraries and its oracle messages, for examples.
use hedge_arkade.Common.{◌==◌, length, drop, Bytes, refl, true, false, none, [], ◌∷◌, arith, some}
use hedge_arkade.Common.Int.{pos}
use hedge_arkade.Contract.Library.{Library, ArkLib}
use hedge_arkade.Contract.Terms.{Terms, FitsInt64}
use hedge_arkade.Contract.Terms as Terms
use hedge_arkade.Contract.Tx.{OutPoint, block}
use hedge_arkade.Contract.Vtxo.{Contract}
use hedge_arkade.Contract.Exit.{Sweep}
use hedge_arkade.Contract.Redemption.{Offchain}
use hedge_arkade.Contract.Oracle.{oracle_message}

-- Hashes leave their input, one byte is a signature, and no script is a witness program.
abbrev pub a_library : Library
a_library = record {
  sha256 = λ bs. bs;
  key_parses = λ key. true;
  sig_parses = λ sig. true;
  verify = λ key digest sig. length sig == 1;
  is_witness_program = λ script. false;
  witness_program_info = λ script. none;
}

abbrev pub an_ark_lib : ArkLib
an_ark_lib = record {
  assemble = λ script. some (length script ∷ []);
  x_only = λ key. drop 1 key;
  bip68_sequence = λ delay. some delay.value;
  arkade_script_key = λ key script. 9 ∷ script;
}

abbrev pub an_offchain : Offchain
an_offchain = record {
  reveals = λ tree leaf. true;
  build_txs = λ input outs tapscript. some (
    record {
      version = 3;
      tx_in = record { previous_out_point = input.outpoint; sequence = 0; witness = [] } ∷ [];
      tx_out = outs;
    },
    record {
      version = 3;
      tx_in = record { previous_out_point = input.outpoint; sequence = 0; witness = [] } ∷ [];
      tx_out = [];
    }
        ∷ [],
  );
  tx_id = λ tx. tx.version ∷ [];
}

abbrev pub a_key : Bytes
a_key =
    1 ∷ 2 ∷ 3 ∷ 4 ∷ 5 ∷ 6 ∷ 7 ∷ 8 ∷ 1 ∷ 2 ∷ 3 ∷ 4 ∷ 5 ∷ 6 ∷ 7 ∷ 8 ∷ 1 ∷ 2 ∷ 3 ∷ 4 ∷ 5 ∷ 6 ∷ 7 ∷ 8
    ∷ 1 ∷ 2 ∷ 3 ∷ 4 ∷ 5 ∷ 6 ∷ 7 ∷ 8 ∷ []

abbrev pub some_terms : Terms
some_terms = record {
  nominal = pos 1_000_000;
  leverage = pos 0;
  payout_sats = pos 20_000;
  low_price = pos 60;
  high_price = pos 200;
  short_lock_script = 1 ∷ [];
  long_lock_script = 2 ∷ [];
  oracle_pub_key = a_key;
  start_timestamp = pos 1000;
  maturity_timestamp = pos 2000;
}

pub some_terms-IsValid : Terms.IsValid some_terms
some_terms-IsValid = record {
  nominal_pos = omega arith;
  payout_covers = omega arith;
  low_pos = omega arith;
  low_lt_high = omega arith;
  leverage_nonneg = omega arith;
  short_script = omega arith;
  long_script = omega arith;
  oracle_key = refl;
  start_pos = omega arith;
  start_lt_maturity = omega arith;
}

pub some_terms-FitsInt64 : FitsInt64 some_terms
some_terms-FitsInt64 = record {
  nominal_fits = omega arith;
  leverage_fits = omega arith;
  payout_fits = omega arith;
}

abbrev pub a_contract : Contract
a_contract = record {
  terms = some_terms;
  keys = record {
    short = some (2 ∷ 11 ∷ []);
    long = some (2 ∷ 12 ∷ []);
    arkd_signer = some (3 ∷ 13 ∷ []);
    emulator_signer = some (3 ∷ 14 ∷ []);
  };
  exit_delay = record { locktime_type = block; value = 144 };
  enable_mutual_redemption = true;
}

-- The price dropped below the low boundary, at 50.
abbrev pub a_message : Bytes
a_message = oracle_message 1500 8 50

abbrev pub a_signature : Bytes
a_signature = 7 ∷ []

abbrev pub an_outpoint : OutPoint
an_outpoint = record { hash = 4 ∷ []; index = 0 }

abbrev pub a_sweep : Sweep
a_sweep = record {
  keys = (2 ∷ 11 ∷ []) ∷ (2 ∷ 12 ∷ []) ∷ (2 ∷ 15 ∷ []) ∷ [];
  leaf = 21 ∷ [];
  control_block = 22 ∷ [];
  pk_script = 23 ∷ [];
}
