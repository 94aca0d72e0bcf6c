-- ===== src/Contract/Vm.antt =====
-- The emulator's VM (github.com/arkade-os/emulator/pkg/arkade), which is not in the repository: a
-- parameter, with one law for each opcode that the covenant uses, as the comments of
-- contract/settlement.go describe it. A law speaks only of stacks of the shape that the covenant
-- makes, and of numbers in the VM's own encoding.
use hedge_arkade.Common.{
  if◌then◌else◌, Option-cases, length, take, drop, Bytes, bytes_equal, ℕ, ◌+◌, ◌≤◌, ◌<◌, ◌≡◌, refl,
  ◌⊎◌, inl, inr, Bool, true, false, not, ◌&&◌, ◌||◌, Option, none, some, List, [], ◌∷◌, ◌++◌,
}
use hedge_arkade.Common.Int.{
  ℤ, pos, negsuc, ◌+ℤ◌, ◌-ℤ◌, ◌/ℤ◌, ◌<ℤ◌, ltb_ℤ, leb_ℤ, ◌==ℤ◌, max_ℤ, min_ℤ, int64_min_abs,
}
use hedge_arkade.Contract.Library.{Library}
use hedge_arkade.Contract.Oracle.{le_bytes}
use hedge_arkade.Contract.Opcodes.{
  Instr, Script, push, int, op, op_0, op_1, dup, over, swap, to_alt_stack, from_alt_stack, add, sub,
  div, min, max, less_than, greater_than, greater_than_or_equal, num_equal, num_equal_verify,
  bool_or, verify, equal_verify, sha256, substr, bin2num, check_sig_from_stack, inspect_num_inputs,
  push_current_input_index, inspect_input_value, inspect_output_value,
  inspect_output_script_pub_key,
}

-- The transaction that spends the contract, as the introspection opcodes see it: `Spend` of
-- contract/vm.go. An output is its amount and its lock script.
pub record Spend : Type 0 where
  pub num_inputs : ℕ
  pub input_sats : ℤ
  pub output_0 : ℤ × Bytes
  pub output_1 : ℤ × Bytes

-- The main stack and the alt stack, the top element first.
abbrev pub Machine : Type 0
Machine = List Bytes × List Bytes

-- What the VM pushes for an output's scriptPubKey, by the comment on `addLockScriptCheck`; `none`
-- where it has nothing to push.
abbrev pub pushed_commitment : Library → Bytes → Option (Bytes × ℤ)
pushed_commitment lib script =
    let info = lib.witness_program_info script in
    if not (lib.is_witness_program script)
    then some (lib.sha256 script, negsuc 0)
    else elim info [ none ↦ none | some (version, program) ↦ some (program, pos version) ]

-- A test that fails the script.
abbrev pub guarded : Bool → Option Machine → Option Machine
guarded true r = r
guarded false r = none

abbrev pub push_commitment : Option (Bytes × ℤ) → (ℤ → Bytes) → Machine → Option Machine
push_commitment none num m = none
push_commitment (some (digest, version)) num (s, a) = some (num version ∷ digest ∷ s, a)

pub record Vm (lib : Library) (num : ℤ → Bytes) (tx : Spend) : Type 0 where
  -- one instruction; `none` is a failed script
  pub step : Instr → Machine → Option Machine
  pub flag : Bool → Bytes
  -- what `Execute` reports of the stacks that a script ends with
  pub accepts : Machine → Bool
  pub accepts-flag : (b : Bool) → accepts (flag b ∷ [], []) ≡ b
  -- pushes and stack moves
  pub step-push : (d : Bytes) (s a : List Bytes) → step (push d) (s, a) ≡ some (d ∷ s, a)
  pub step-int : (n : ℤ) (s a : List Bytes) → step (int n) (s, a) ≡ some (num n ∷ s, a)
  pub step-op_0 : (s a : List Bytes) → step (op op_0) (s, a) ≡ some (num (pos 0) ∷ s, a)
  pub step-op_1 : (s a : List Bytes) → step (op op_1) (s, a) ≡ some (num (pos 1) ∷ s, a)
  pub step-dup : (x : Bytes) (s a : List Bytes) → step (op dup) (x ∷ s, a) ≡ some (x ∷ x ∷ s, a)
  pub step-over :
      (x y : Bytes) (s a : List Bytes) → step (op over) (x ∷ y ∷ s, a) ≡ some (y ∷ x ∷ y ∷ s, a)
  pub step-swap :
      (x y : Bytes) (s a : List Bytes) → step (op swap) (x ∷ y ∷ s, a) ≡ some (y ∷ x ∷ s, a)
  pub step-to_alt_stack :
      (x : Bytes) (s a : List Bytes) → step (op to_alt_stack) (x ∷ s, a) ≡ some (s, x ∷ a)
  pub step-from_alt_stack :
      (x : Bytes) (s a : List Bytes) → step (op from_alt_stack) (s, x ∷ a) ≡ some (x ∷ s, a)
  -- numbers: the operand on top is the second one
  pub step-add :
      (x y : ℤ) (s a : List Bytes)
      → step (op add) (num y ∷ num x ∷ s, a) ≡ some (num (x +ℤ y) ∷ s, a)
  pub step-sub :
      (x y : ℤ) (s a : List Bytes)
      → step (op sub) (num y ∷ num x ∷ s, a) ≡ some (num (x -ℤ y) ∷ s, a)
  pub step-div :
      (x y : ℤ) (s a : List Bytes)
      → pos 0 <ℤ y
      → step (op div) (num y ∷ num x ∷ s, a) ≡ some (num (x /ℤ y) ∷ s, a)
  pub step-min :
      (x y : ℤ) (s a : List Bytes)
      → step (op min) (num y ∷ num x ∷ s, a) ≡ some (num (min_ℤ x y) ∷ s, a)
  pub step-max :
      (x y : ℤ) (s a : List Bytes)
      → step (op max) (num y ∷ num x ∷ s, a) ≡ some (num (max_ℤ x y) ∷ s, a)
  pub step-less_than :
      (x y : ℤ) (s a : List Bytes)
      → step (op less_than) (num y ∷ num x ∷ s, a) ≡ some (flag (ltb_ℤ x y) ∷ s, a)
  pub step-greater_than :
      (x y : ℤ) (s a : List Bytes)
      → step (op greater_than) (num y ∷ num x ∷ s, a) ≡ some (flag (ltb_ℤ y x) ∷ s, a)
  pub step-greater_than_or_equal :
      (x y : ℤ) (s a : List Bytes)
      → step (op greater_than_or_equal) (num y ∷ num x ∷ s, a) ≡ some (flag (leb_ℤ y x) ∷ s, a)
  pub step-num_equal :
      (x y : ℤ) (s a : List Bytes)
      → step (op num_equal) (num y ∷ num x ∷ s, a) ≡ some (flag (x ==ℤ y) ∷ s, a)
  pub step-num_equal_verify :
      (x y : ℤ) (s a : List Bytes)
      → step (op num_equal_verify) (num y ∷ num x ∷ s, a) ≡ guarded (x ==ℤ y) (some (s, a))
  pub step-bool_or :
      (x y : Bool) (s a : List Bytes)
      → step (op bool_or) (flag y ∷ flag x ∷ s, a) ≡ some (flag (x || y) ∷ s, a)
  pub step-verify :
      (x : Bool) (s a : List Bytes) → step (op verify) (flag x ∷ s, a) ≡ guarded x (some (s, a))
  -- bytes
  pub step-equal_verify :
      (x y : Bytes) (s a : List Bytes)
      → step (op equal_verify) (y ∷ x ∷ s, a) ≡ guarded (bytes_equal x y) (some (s, a))
  pub step-sha256 :
      (x : Bytes) (s a : List Bytes) → step (op sha256) (x ∷ s, a) ≡ some (lib.sha256 x ∷ s, a)
  pub step-substr :
      (x : Bytes) (i n : ℕ) (s a : List Bytes)
      → i + n ≤ length x
      → step (op substr) (num (pos n) ∷ num (pos i) ∷ x ∷ s, a) ≡ some (take n (drop i x) ∷ s, a)
  -- little-endian, the top bit being the sign
  pub step-bin2num :
      (v : ℕ) (s a : List Bytes)
      → v < int64_min_abs
      → step (op bin2num) (le_bytes 8 v ∷ s, a) ≡ some (num (pos v) ∷ s, a)
  -- A signature that does not verify fails the script at once or leaves a false.
  pub step-check_sig :
      (key digest sig : Bytes) (s a : List Bytes)
      → lib.verify key digest sig ≡ true
      → step (op check_sig_from_stack) (key ∷ digest ∷ sig ∷ s, a) ≡ some (flag true ∷ s, a)
  pub step-check_sig_bad :
      (key digest sig : Bytes) (s a : List Bytes)
      → lib.verify key digest sig ≡ false
      → (step (op check_sig_from_stack) (key ∷ digest ∷ sig ∷ s, a) ≡ none)
        ⊎ (step (op check_sig_from_stack) (key ∷ digest ∷ sig ∷ s, a) ≡ some (flag false ∷ s, a))
  -- introspection
  pub step-inspect_num_inputs :
      (s a : List Bytes)
      → step (op inspect_num_inputs) (s, a) ≡ some (num (pos tx.num_inputs) ∷ s, a)
  pub step-push_current_input_index :
      (s a : List Bytes) → step (op push_current_input_index) (s, a) ≡ some (num (pos 0) ∷ s, a)
  pub step-inspect_input_value :
      (s a : List Bytes)
      → step (op inspect_input_value) (num (pos 0) ∷ s, a) ≡ some (num tx.input_sats ∷ s, a)
  pub step-inspect_output_value_0 :
      (s a : List Bytes)
      → step (op inspect_output_value) (num (pos 0) ∷ s, a) ≡ some (num tx.output_0.0 ∷ s, a)
  pub step-inspect_output_value_1 :
      (s a : List Bytes)
      → step (op inspect_output_value) (num (pos 1) ∷ s, a) ≡ some (num tx.output_1.0 ∷ s, a)
  pub step-inspect_output_script_0 :
      (s a : List Bytes)
      → step (op inspect_output_script_pub_key) (num (pos 0) ∷ s, a)
        ≡ push_commitment (pushed_commitment lib tx.output_0.1) num (s, a)
  pub step-inspect_output_script_1 :
      (s a : List Bytes)
      → step (op inspect_output_script_pub_key) (num (pos 1) ∷ s, a)
        ≡ push_commitment (pushed_commitment lib tx.output_1.1) num (s, a)

abbrev pub and_then : Option Machine → (Machine → Option Machine) → Option Machine
and_then none f = none
and_then (some m) f = f m

pub and_then-guarded :
    (b : Bool) (r : Option Machine) (k : Machine → Option Machine)
    → and_then (guarded b r) k ≡ guarded b (and_then r k)
and_then-guarded true r k = refl
and_then-guarded false r k = refl

module _ {lib : Library} {num : ℤ → Bytes} {tx : Spend} (vm : Vm lib num tx) where
  -- The script from its first instruction to its last.
  unfoldable pub run : Script → Machine → Option Machine
  run [] m = some m
  run (i ∷ is) m = and_then (vm.step i m) (run is)

  -- What `Execute` reports of where a script has ended.
  unfoldable pub outcome : Option Machine → Bool
  outcome none = false
  outcome (some m) = vm.accepts m

  -- `Run` of contract/vm.go: whether the VM accepts the spend, with the witness as its stack.
  unfoldable pub accepted_by : Script → List Bytes → Bool
  accepted_by script stack = outcome (run script (stack, []))

  pub outcome-guarded : (b : Bool) (r : Option Machine) → outcome (guarded b r) ≡ b && outcome r
  unfolding outcome
  outcome-guarded true r = refl
  outcome-guarded false r = refl

  pub outcome-flag : (b : Bool) → outcome (some (vm.flag b ∷ [], [])) ≡ b
  unfolding outcome
  outcome-flag b = vm.accepts-flag b

  pub run-append : (p q : Script) (m : Machine) → run (p ++ q) m ≡ and_then (run p m) (run q)
  unfolding run
  run-append [] q m = refl
  run-append (i ∷ p) q m = elim (Option-cases (vm.step i m)) [
    | inl e ↦ rw e
    | inr (m', e) ↦ rw e (run-append p q m')
  ]
