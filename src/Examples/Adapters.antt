-- ===== src/Examples/Adapters.antt =====
-- Adapters for examples: every call answers, a signature is one byte, and the price is 50.
use hedge_arkade.Common.{length, true, none, some, [], ◌∷◌}
use hedge_arkade.Common.Int.{pos}
use hedge_arkade.Contract.Tx.{block}
use hedge_arkade.UseCases.Ports.{Ports}
use hedge_arkade.Examples.Data.{a_key, a_library, an_ark_lib, a_message, a_signature}
use hedge_arkade.Examples.Machine.{plain_num}

abbrev pub plain_ports : Ports
plain_ports = record {
  library = a_library;
  ark = an_ark_lib;
  num = plain_num;
  sweep_lib = record {
    threshold_leaf = λ keys n. some (n ∷ []);
    single_leaf_tree = λ leaf. some (6 ∷ leaf, 5 ∷ leaf);
  };
  sig_lib = record {
    closure_script = λ closure. some (1 ∷ []);
    control_block = λ tree leaf. some (2 ∷ []);
    tree_pk_script = λ tree. some (7 ∷ 7 ∷ []);
    tapscript_sighash = λ tx out leaf. some leaf;
    sign_digest = λ key digest. some (length digest ∷ []);
    csv_witness = λ keys script sigs. some [];
  };
  parse_pub_key = λ key. some key;
  encode_tx = λ tx. some (tx.version ∷ []);
  decode_tx = λ raw. none;
  chain_hash = λ txid. some txid;
  operator_accepts = λ covenant delay blocks. true;
  stack_arkd_signer = 4 ∷ 4 ∷ [];
  stack_emulator_signer = 5 ∷ 5 ∷ [];
  stack_exit_delay = record { locktime_type = block; value = 10 };
  stack_dust = pos 1332;
  stack_allows_block_timelocks = true;
  service_key = 3 ∷ 3 ∷ [];
  arbitration_fee_sats = pos 200;
  exit_fee_sats = pos 300;
  clock = pos 3_000_000_000;
  db_now = pos 9;
  fresh_id = 5;
  feed_pub_key = some a_key;
  feed_latest = some (record { sequence = 7; timestamp = pos 100; price = pos 50 });
  feed_pair = some (record {
    settlement = record { message = a_message; signature = a_signature };
    previous = record { message = a_message; signature = a_signature };
  });
  feed_set_price = λ price. true;
  public_key = λ user. some (user ∷ user ∷ []);
  sign_leaf = λ user packet. some (user ∷ packet);
  sign_exit_by = λ user c pkg. some (user ∷ []);
  sign_sweep = λ user c a. some (user ∷ []);
  sign_sweep_as_service = λ c a. some (3 ∷ []);
  balance = λ user. some (pos 50_000_000, pos 0);
  vtxo_pk_script = λ user. some (user ∷ []);
  fund_contract = λ c. some (record { txid = 1 ∷ []; vout = 0 });
  settle_contract = λ c short long pair. true;
  build_redemption = λ c short long. some (8 ∷ [], (9 ∷ []) ∷ []);
  submit_redemption = λ c r. true;
  leave_arkade = λ c pkg. some (record { txid = 2 ∷ []; vout = 0 }, pos 19_999_700);
  pay_out = λ c a. some (3 ∷ []);
}
