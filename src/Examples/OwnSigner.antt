-- ===== src/Examples/OwnSigner.antt =====
-- Examples for the service's own signer and for paying an arbitration out.
use hedge_arkade.Contract.Tx.{MsgTx}
use hedge_arkade.Contract.Errors
use hedge_arkade.Contract.Vtxo.{
  Contract as Covenant, leaf_closure, closures, validate_keys, settlement_key,
  settlement_script_bytes, leaf_index,
}
use hedge_arkade.Contract.Exit.{Sweep, exit_tx, new_sweep, witness, count_sigs, choose_sigs, sig_of}
use hedge_arkade.Domain.Records.{Contract, ExitPackage, Arbitration, complete, covenant, parse_key}
use hedge_arkade.UseCases.Ports.{Ports}
use hedge_arkade.UseCases.Packages.{exit_package, sweep_of, outpoint_of}
use hedge_arkade.Adapters.Net.{
  ◌>>=◌, ◌>>◌, Log, sent, mined, then_run, pure, chain_call, poll, return,
}
use hedge_arkade.Adapters.Signer.{KeyStore, user_key}
use hedge_arkade.Adapters.Signatures.{
  HashesTo32, CanSign, Determined, own_ports, Holds, exit_package_completes,
}
use hedge_arkade.Adapters.Leaving.{adapter_pay, parties, signed_payout, settle_block}
use hedge_arkade.Adapters.Payouts.{PaidOut, pay_sound}
use hedge_arkade.Examples.Adapters.{plain_ports}
use hedge_arkade.Examples.Chain.{a_network, an_adapter}
use hedge_arkade.Examples.Data.{a_contract, a_key, a_sweep}
use hedge_arkade.Contract.Presigned.{Schnorr}
use hedge_arkade.Examples.Steps.{a_funded, reply_or}
use hedge_arkade.Common.{
  refl, ok, err, true, none, some, [], ◌∷◌, ◌++◌, take, drop, length, ◌≡◌, arith, bytes_equal,
}
use hedge_arkade.Common.{Bool-cases, length-append, if◌then◌else◌, ◌==◌, inl, inr, Bytes}
use hedge_arkade.Common.Int.{pos, ◌-ℤ◌, sub64}
use hedge_arkade.Contract.Signing.{
  finalize_arbitration, exit_sighash, exit_leaf, contract_pk_script, with_witness,
}
use hedge_arkade.Contract.Terms.{validate}
use hedge_arkade.Contract.Script.{
  settlement_script, lock_script_check, lock_script_commitment, adjacency_check, authenticate,
  covenant_body, field_extract, payout_check, predecessor_check, price_clamp, recipient_check,
  shape_check, start_check, trigger_check,
}
use hedge_arkade.Adapters.Chain.{broadcast_raw, mine_blocks, raw_hex}
use hedge_arkade.Remote.Hex.{encode_hex, hex_char}

-- A user's seed begins with the user's number, and its key is that number twice.
abbrev a_key_store : KeyStore
a_key_store = record {
  seed = λ user. some (user ∷ drop 1 a_key);
  key_of_seed = λ seed. take 1 seed ++ take 1 seed;
  decode_packet = λ packet. none;
  encode_packet = λ packet. none;
  tap = record {
    serialize = λ key. key;
    decode_closure = λ leaf. none;
    leaf_sighash = λ outs kind tx index leaf. some leaf;
    sign_leaf_digest = λ key digest. some digest;
    tap_hash = λ version leaf. leaf;
  };
}

abbrev no_tx : MsgTx
no_tx = record { version = 0; tx_in = []; tx_out = [] }

abbrev tx_or : Errors.Outcome MsgTx → MsgTx
tx_or (ok tx) = tx
tx_or (err e) = no_tx

-- The funded contract, with the two users' own keys.
abbrev an_own_row : Contract
an_own_row = record a_funded { short_key = 1 ∷ 1 ∷ []; long_key = 2 ∷ 2 ∷ [] }

abbrev a_rebuilt : Covenant × Sweep
a_rebuilt = reply_or (a_contract, a_sweep) (sweep_of plain_ports an_own_row)

abbrev the_exit : MsgTx
the_exit = tx_or (
    exit_tx plain_ports.ark a_rebuilt.0 (record { hash = 1 ∷ []; index = 0 })
      an_own_row.terms.payout_sats plain_ports.exit_fee_sats a_rebuilt.1.pk_script)

abbrev signer_ports : Ports
signer_ports = record plain_ports { decode_tx = λ raw. some the_exit }

-- Hashes of 32 bytes, and signatures of 64: the hash twice.
abbrev strict_ports : Ports
strict_ports = record signer_ports {
  library = record signer_ports.library { verify = λ key digest sig. length sig == 64 };
  sig_lib = record signer_ports.sig_lib {
    tapscript_sighash = λ tx out leaf. some a_key;
    sign_digest = λ key digest. if length digest == 32 then some (digest ++ digest) else none;
  };
}

strict-Schnorr : Schnorr strict_ports.library strict_ports.ark strict_ports.sig_lib
strict-Schnorr key digest sig h = elim (Bool-cases (length digest == 32)) [
  | inr other ↦ absurd (ground (arith, other, h))
  | inl whole ↦
      let twice : digest ++ digest ≡ sig = ground (arith, whole, h) in
      (refl, refl, rw (← twice) (ground (arith, whole, length-append digest digest)))
]

strict-HashesTo32 : HashesTo32 strict_ports
strict-HashesTo32 tx spent leaf digest h = let is_key : a_key ≡ digest = cc in rw (← is_key) refl

any_key-CanSign : (key : Bytes) → CanSign strict_ports key
any_key-CanSign key digest whole =
    (digest ++ digest, ground (arith, whole), ground (arith, whole, length-append digest digest))

determined : Determined a_key_store strict_ports strict-Schnorr strict-HashesTo32 an_own_row
unfolding sweep_of covenant new_sweep outpoint_of exit_tx sub64 ◌-ℤ◌ exit_sighash exit_leaf
    leaf_closure closures validate_keys validate settlement_key settlement_script_bytes
    settlement_script lock_script_check adjacency_check authenticate covenant_body field_extract
    lock_script_commitment payout_check predecessor_check price_clamp recipient_check shape_check
    start_check trigger_check contract_pk_script leaf_index parse_key
determined = record {
  cov = a_rebuilt.0;
  sweep = a_rebuilt.1;
  is_sweep = refl;
  outpoint = record { hash = 1 ∷ []; index = 0 };
  is_outpoint = refl;
  tx = the_exit;
  is_tx = refl;
  raw = 2 ∷ [];
  is_raw = refl;
  decodes = refl;
  digest = a_key;
  is_digest = refl;
}

short-Holds :
    Holds a_key_store strict_ports strict-Schnorr strict-HashesTo32 an_own_row.short_user
      a_rebuilt.0.keys.short
unfolding user_key sweep_of covenant new_sweep
short-Holds = (1, 1 ∷ 1 ∷ [], 1 ∷ 1 ∷ [], refl, refl, refl, refl, any_key-CanSign (1 ∷ 1 ∷ []))

long-Holds :
    Holds a_key_store strict_ports strict-Schnorr strict-HashesTo32 an_own_row.long_user
      a_rebuilt.0.keys.long
unfolding user_key sweep_of covenant new_sweep
long-Holds = (2, 2 ∷ 2 ∷ [], 2 ∷ 2 ∷ [], refl, refl, refl, refl, any_key-CanSign (2 ∷ 2 ∷ []))

exit_package_completes_example :
    (pkg : ExitPackage) × (exit_package
        (own_ports a_key_store strict_ports strict-Schnorr strict-HashesTo32)
        an_own_row
      ≡ ok pkg)
    × (complete pkg ≡ true)
    × (pkg.raw_tx ≡ 2 ∷ [])
unfolding determined sweep_of
exit_package_completes_example =
    exit_package_completes a_key_store strict_ports strict-Schnorr strict-HashesTo32 an_own_row
      determined short-Holds long-Holds

-- The arbitration of the contract, which the short and the service have signed.
abbrev an_arbitration : Arbitration
an_arbitration = record {
  short_sats = pos 9_000;
  long_sats = pos 10_500;
  price = pos 50;
  message = [];
  signature = [];
  raw_tx = 2 ∷ [];
  available = pos 19_700;
  signatures = (1 ∷ [], 6 ∷ []) ∷ (3 ∷ [], 7 ∷ []) ∷ [];
  txid = [];
}

abbrev paid_log : Log
paid_log = sent (48 ∷ 50 ∷ []) ∷ mined 1 ∷ []

paid_now :
    adapter_pay signer_ports a_network an_adapter an_own_row an_arbitration []
    ≡ (some (3 ∷ []), paid_log)
unfolding adapter_pay ◌>>=◌ then_run pure parties signed_payout sweep_of covenant new_sweep
    finalize_arbitration witness count_sigs choose_sigs sig_of bytes_equal with_witness exit_tx
    sub64 ◌-ℤ◌ broadcast_raw raw_hex poll chain_call ◌>>◌ settle_block mine_blocks return encode_hex
    hex_char
paid_now = refl

pay_example :
    PaidOut signer_ports a_network an_adapter an_own_row an_arbitration [] paid_log (3 ∷ [])
pay_example = pay_sound signer_ports a_network an_adapter an_own_row an_arbitration [] paid_now
