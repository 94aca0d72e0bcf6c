-- ===== src/Examples/Packets.antt =====
-- Examples for signing the revealed leaves of a packet.
use hedge_arkade.Contract.Tapscript.{
  TapLib, PInput, Packet, sign_tapscript, multisig_keys, prev_outs, signed_inputs, sign_inputs,
  sign_leaves, leaf_names_key, make_sig,
}
use hedge_arkade.Common.{ok, ◌≡◌, refl, some, [], ◌∷◌, bytes_equal}
use hedge_arkade.Common.Int.{pos}
use hedge_arkade.Contract.LeafSigs.{SignedOwn, sign_tapscript_own}

-- A leaf is the key that it names.
abbrev pub plain_tap : TapLib
plain_tap = record {
  serialize = λ key. key;
  decode_closure = λ script. some (multisig_keys (script ∷ []));
  leaf_sighash = λ spent hash_type tx index leaf. some (index ∷ leaf);
  sign_leaf_digest = λ key digest. some (7 ∷ digest);
  tap_hash = λ version leaf. version ∷ leaf;
}

-- an input with a leaf of the key 1 and one of the key 2, and a signature by the latter
abbrev an_input : PInput
an_input = record {
  witness_utxo = some (record { value = pos 20_000; pk_script = 5 ∷ [] });
  leaf_scripts =
      record { leaf_version = 192; script = 1 ∷ [] }
      ∷ record { leaf_version = 192; script = 2 ∷ [] }
      ∷ [];
  input_sighash = 0;
  sigs =
      record {
        x_only_pub_key = 2 ∷ [];
        leaf_hash = 192 ∷ 2 ∷ [];
        signature = 9 ∷ [];
        sighash_type = 0;
      }
      ∷ [];
}

abbrev pub a_packet : Packet
a_packet = record {
  unsigned_tx = record {
    version = 3;
    tx_in =
        record {
          previous_out_point = record { hash = 4 ∷ []; index = 0 };
          sequence = 0;
          witness = [];
        }
        ∷ [];
    tx_out = [];
  };
  inputs = an_input ∷ [];
}

-- the key 1 signs its leaf, behind the signature that was there
one_signed : (sign_tapscript plain_tap (some (1 ∷ [])) a_packet).1 ≡ ok tt
unfolding sign_tapscript prev_outs signed_inputs sign_inputs sign_leaves leaf_names_key bytes_equal
    make_sig
one_signed = refl

sign_tapscript_example :
    SignedOwn plain_tap (1 ∷ []) a_packet (sign_tapscript plain_tap (some (1 ∷ [])) a_packet)
sign_tapscript_example = sign_tapscript_own plain_tap (1 ∷ []) a_packet
