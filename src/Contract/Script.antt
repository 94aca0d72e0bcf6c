-- ===== src/Contract/Script.antt =====
-- The covenant: the Arkade Script that `Terms.SettlementScript` emits (contract/settlement.go),
-- instruction by instruction, in the parts that the source's comments mark.
use hedge_arkade.Common.{
  if◌then◌else◌, Bytes, err, ◌>>=◌, ◌>>◌, ℕ, not, none, some, [], ◌∷◌, ◌++◌, ok, check,
}
use hedge_arkade.Common.Int.{ℤ, pos, negsuc, sub64}
use hedge_arkade.Contract.Library.{Library}
use hedge_arkade.Contract.Errors
use hedge_arkade.Contract.Terms.{Terms, dust, validate}
use hedge_arkade.Contract.Oracle.{
  oracle_field_size, oracle_timestamp_offset, oracle_sequence_offset, oracle_price_offset,
}
use hedge_arkade.Contract.Opcodes.{
  Script, Opcode, int, op, push, substr, inspect_output_script_pub_key, inspect_num_inputs, dup,
  from_alt_stack, swap, op_0, bin2num, num_equal_verify, op_1, to_alt_stack, less_than,
  greater_than, greater_than_or_equal, div, equal_verify, push_current_input_index, sha256, verify,
  num_equal, sub, inspect_input_value, check_sig_from_stack, add, min, bool_or, max, over,
  inspect_output_value,
}

-- `lockScriptCommitment`: what the VM pushes for a scriptPubKey.
unfoldable pub lock_script_commitment : Library → Bytes → Errors.Outcome (Bytes × ℤ)
lock_script_commitment lib lock_script =
    let info = lib.witness_program_info lock_script in
    if not (lib.is_witness_program lock_script)
    then ok (lib.sha256 lock_script, negsuc 0)
    else elim info [
      | none ↦ err Errors.library_error
      | some (version, program) ↦ ok (program, pos version)
    ]

-- `bigNumBytes`, by the emulator's number encoding `num`.
module _ (lib : Library) (num : ℤ → Bytes) where
  -- `addFieldExtract`
  unfoldable pub field_extract : ℕ → Script
  field_extract offset =
      int (pos offset) ∷ int (pos oracle_field_size) ∷ op substr ∷ op bin2num ∷ []

  -- what `addLockScriptCheck` emits for a commitment
  unfoldable pub recipient_check : Opcode → Bytes × ℤ → Script
  recipient_check index_op (digest, version) =
      op index_op
      ∷ op inspect_output_script_pub_key
      ∷ push (num version)
      ∷ op num_equal_verify
      ∷ push digest
      ∷ op equal_verify
      ∷ []

  -- `addLockScriptCheck`
  unfoldable pub lock_script_check : Opcode → Bytes → Errors.Outcome Script
  lock_script_check index_op lock_script = do
    commitment ← lock_script_commitment lib lock_script
    ok (recipient_check index_op commitment)

  module _ (t : Terms) where
    -- "Transaction shape", and "The VTXO holds exactly what the contract was funded with".
    unfoldable pub shape_check : Script
    shape_check =
        op inspect_num_inputs
        ∷ op op_1
        ∷ op num_equal_verify
        ∷ op push_current_input_index
        ∷ op inspect_input_value
        ∷ push (num t.payout_sats)
        ∷ op num_equal_verify
        ∷ []

    -- One half of "Authenticate both oracle messages".
    unfoldable pub authenticate : Script
    authenticate =
        op dup
        ∷ op to_alt_stack
        ∷ op sha256
        ∷ push t.oracle_pub_key
        ∷ op check_sig_from_stack
        ∷ op verify
        ∷ []

    -- "The predecessor is before maturity".
    unfoldable pub predecessor_check : Script
    predecessor_check =
        op from_alt_stack
        ∷ op from_alt_stack
        ∷ op dup
        ∷ (field_extract oracle_timestamp_offset
            ++ (push (num t.maturity_timestamp) ∷ op less_than ∷ op verify ∷ []))

    -- "The two messages are adjacent in the oracle's sequence".
    unfoldable pub adjacency_check : Script
    adjacency_check =
        field_extract oracle_sequence_offset
        ++ (op dup
            ∷ op op_0
            ∷ op greater_than
            ∷ op verify
            ∷ op op_1
            ∷ op add
            ∷ op over
            ∷ (field_extract oracle_sequence_offset ++ (op num_equal_verify ∷ [])))

    -- "The settlement message is not before the earliest liquidation".
    unfoldable pub start_check : Script
    start_check =
        op dup
        ∷ (field_extract oracle_timestamp_offset
            ++ (op dup ∷ push (num t.start_timestamp) ∷ op greater_than_or_equal ∷ op verify ∷ []))

    -- "Price, rejected if not positive, then clamped".
    unfoldable pub price_clamp : Script
    price_clamp =
        op swap
        ∷ (field_extract oracle_price_offset
            ++ (op dup
                ∷ op op_0
                ∷ op greater_than
                ∷ op verify
                ∷ push (num t.high_price)
                ∷ op min
                ∷ push (num t.low_price)
                ∷ op max
                ∷ []))

    -- "Either matured, or the price crossed a boundary".
    unfoldable pub trigger_check : Script
    trigger_check =
        op dup
        ∷ op to_alt_stack
        ∷ op dup
        ∷ push (num t.low_price)
        ∷ op num_equal
        ∷ op swap
        ∷ push (num t.high_price)
        ∷ op num_equal
        ∷ op bool_or
        ∷ op swap
        ∷ push (num t.maturity_timestamp)
        ∷ op greater_than_or_equal
        ∷ op bool_or
        ∷ op verify
        ∷ op from_alt_stack
        ∷ []

    -- "Payouts"
    unfoldable pub payout_check : Script
    payout_check =
        push (num t.nominal)
        ∷ op swap
        ∷ op div
        ∷ push (num t.leverage)
        ∷ op sub
        ∷ push (num (pos dust))
        ∷ op max
        ∷ push (num (sub64 t.payout_sats (pos dust)))
        ∷ op min
        ∷ op dup
        ∷ push (num t.payout_sats)
        ∷ op swap
        ∷ op sub
        ∷ op op_1
        ∷ op inspect_output_value
        ∷ op num_equal_verify
        ∷ op op_0
        ∷ op inspect_output_value
        ∷ op num_equal
        ∷ []

    -- Everything behind the two recipient checks.
    unfoldable pub covenant_body : Script
    covenant_body =
        authenticate
        ++ (authenticate
            ++ (predecessor_check
                ++ (adjacency_check
                    ++ (start_check ++ (price_clamp ++ (trigger_check ++ payout_check))))))

    -- `SettlementScript`
    unfoldable pub settlement_script : Errors.Outcome Script
    settlement_script = do
      check (validate t)
      short ← lock_script_check op_0 t.short_lock_script
      long ← lock_script_check op_1 t.long_lock_script
      ok (shape_check ++ (short ++ (long ++ covenant_body)))
