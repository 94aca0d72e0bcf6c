-- ===== src/Contract/Library.antt =====
-- What the contract package takes from libraries outside the repository (btcec/schnorr, sha256,
-- btcd's txscript): a parameter of the development. Nothing is assumed of it here.

use hedge_arkade.Common.{Bytes, ℕ, Bool, Option}
use hedge_arkade.Contract.Tx.{RelativeLocktime}
use hedge_arkade.Contract.Opcodes.{Script}

pub record Library : Type 0 where
  -- `sha256.Sum256`
  pub sha256 : Bytes → Bytes
  -- `schnorr.ParsePubKey` and `schnorr.ParseSignature` succeed
  pub key_parses : Bytes → Bool
  pub sig_parses : Bytes → Bool
  -- `sig.Verify(digest, key)`, by key, digest and signature
  pub verify : Bytes → Bytes → Bytes → Bool
  -- `txscript.IsWitnessProgram`
  pub is_witness_program : Bytes → Bool
  -- `txscript.ExtractWitnessProgramInfo`: the version and the program, or an error
  pub witness_program_info : Bytes → Option (ℕ × Bytes)

-- What it takes from ark-lib and the emulator to build a taproot tree and its transactions.
pub record ArkLib : Type 0 where
  -- `ScriptBuilder.Script`: a script's bytes, or an error
  pub assemble : Script → Option Bytes
  -- `schnorr.SerializePubKey`: the x-only form of a compressed key
  pub x_only : Bytes → Bytes
  -- `arklib.BIP68Sequence`: the sequence number of a delay, or an error
  pub bip68_sequence : RelativeLocktime → Option ℕ
  -- `arkade.ComputeArkadeScriptPublicKey(key, arkade.ArkadeScriptHash(script))`
  pub arkade_script_key : Bytes → Bytes → Bytes
