-- ===== src/Contract/Opcodes.antt =====
-- Scripts as `txscript.ScriptBuilder` builds them (contract/settlement.go, contract/exit.go).
use hedge_arkade.Common.{Bytes, List}
use hedge_arkade.Common.Int.{ℤ}

-- The opcodes of the emulator's package `arkade` that the script uses.
pub data Opcode : Type 0 where
  op_0 op_1 inspect_num_inputs push_current_input_index inspect_input_value : Opcode
  inspect_output_value inspect_output_script_pub_key : Opcode
  num_equal num_equal_verify equal_verify verify : Opcode
  dup over swap to_alt_stack from_alt_stack : Opcode
  sha256 check_sig_from_stack substr bin2num : Opcode
  add sub div min max less_than greater_than greater_than_or_equal bool_or : Opcode

-- `AddOp`, `AddData` and `AddInt64` of `txscript.ScriptBuilder`.
pub data Instr : Type 0 where
  op : Opcode → Instr
  push : Bytes → Instr
  int : ℤ → Instr

abbrev pub Script : Type 0
Script = List Instr
