-- ===== src/Examples/Machine.antt =====
-- A machine that obeys the opcode laws of Contract/Vm, for examples: numbers are one byte with a
-- sign byte behind a negative one.
use hedge_arkade.Common.{
  take, drop, Bytes, bytes_equal, ℕ, zero, ◌<◌, ◌≡◌, refl, ap, inr, Bool, true, false, not, ◌||◌,
  Option, none, [], ◌∷◌, arith, some,
}
use hedge_arkade.Common.Int.{
  ℤ, pos, negsuc, pos_part, ◌+ℤ◌, ◌-ℤ◌, ◌/ℤ◌, ltb_ℤ, leb_ℤ, ◌==ℤ◌, max_ℤ, min_ℤ, int64_min_abs,
}
use hedge_arkade.Contract.Library.{Library}
use hedge_arkade.Contract.Opcodes.{Opcode, Instr}
use hedge_arkade.Contract.Oracle.{le_bytes, le_value}
use hedge_arkade.Contract.Feed.{le_value-le_bytes}
use hedge_arkade.Contract.Vm.{Spend, Machine, Vm, pushed_commitment, push_commitment, guarded}

abbrev pub plain_num : ℤ → Bytes
plain_num (pos n) = n ∷ []
plain_num (negsuc n) = n ∷ 0 ∷ []

abbrev num_of : Bytes → ℤ
num_of [] = pos 0
num_of (n ∷ []) = pos n
num_of (n ∷ _ ∷ _) = negsuc n

num_of-plain_num : (x : ℤ) → num_of (plain_num x) ≡ x
num_of-plain_num (pos n) = refl
num_of-plain_num (negsuc n) = refl

abbrev plain_flag : Bool → Bytes
plain_flag true = 1 ∷ []
plain_flag false = 0 ∷ []

abbrev truth : Bytes → Bool
truth b = not (num_of b ==ℤ pos 0)

abbrev plain_accepts : Machine → Bool
plain_accepts (x ∷ [], []) = truth x
plain_accepts _ = false

truth-plain_flag : (b : Bool) → truth (plain_flag b) ≡ b
truth-plain_flag true = refl
truth-plain_flag false = refl

abbrev output_at : Spend → ℤ → ℤ × Bytes
output_at tx (pos zero) = tx.output_0
output_at tx _ = tx.output_1

module _ (lib : Library) (tx : Spend) where
  abbrev plain_step : Instr → Machine → Option Machine
  plain_step (Instr.push d) (s, a) = some (d ∷ s, a)
  plain_step (Instr.int n) (s, a) = some (plain_num n ∷ s, a)
  plain_step (Instr.op Opcode.op_0) (s, a) = some (plain_num (pos 0) ∷ s, a)
  plain_step (Instr.op Opcode.op_1) (s, a) = some (plain_num (pos 1) ∷ s, a)
  plain_step (Instr.op Opcode.dup) (x ∷ s, a) = some (x ∷ x ∷ s, a)
  plain_step (Instr.op Opcode.over) (x ∷ y ∷ s, a) = some (y ∷ x ∷ y ∷ s, a)
  plain_step (Instr.op Opcode.swap) (x ∷ y ∷ s, a) = some (y ∷ x ∷ s, a)
  plain_step (Instr.op Opcode.to_alt_stack) (x ∷ s, a) = some (s, x ∷ a)
  plain_step (Instr.op Opcode.from_alt_stack) (s, x ∷ a) = some (x ∷ s, a)
  plain_step (Instr.op Opcode.add) (y ∷ x ∷ s, a) = some (plain_num (num_of x +ℤ num_of y) ∷ s, a)
  plain_step (Instr.op Opcode.sub) (y ∷ x ∷ s, a) = some (plain_num (num_of x -ℤ num_of y) ∷ s, a)
  plain_step (Instr.op Opcode.div) (y ∷ x ∷ s, a) = some (plain_num (num_of x /ℤ num_of y) ∷ s, a)
  plain_step (Instr.op Opcode.min) (y ∷ x ∷ s, a) =
      some (plain_num (min_ℤ (num_of x) (num_of y)) ∷ s, a)
  plain_step (Instr.op Opcode.max) (y ∷ x ∷ s, a) =
      some (plain_num (max_ℤ (num_of x) (num_of y)) ∷ s, a)
  plain_step (Instr.op Opcode.less_than) (y ∷ x ∷ s, a) =
      some (plain_flag (ltb_ℤ (num_of x) (num_of y)) ∷ s, a)
  plain_step (Instr.op Opcode.greater_than) (y ∷ x ∷ s, a) =
      some (plain_flag (ltb_ℤ (num_of y) (num_of x)) ∷ s, a)
  plain_step (Instr.op Opcode.greater_than_or_equal) (y ∷ x ∷ s, a) =
      some (plain_flag (leb_ℤ (num_of y) (num_of x)) ∷ s, a)
  plain_step (Instr.op Opcode.num_equal) (y ∷ x ∷ s, a) =
      some (plain_flag (num_of x ==ℤ num_of y) ∷ s, a)
  plain_step (Instr.op Opcode.num_equal_verify) (y ∷ x ∷ s, a) =
      guarded (num_of x ==ℤ num_of y) (some (s, a))
  plain_step (Instr.op Opcode.bool_or) (y ∷ x ∷ s, a) =
      some (plain_flag (truth x || truth y) ∷ s, a)
  plain_step (Instr.op Opcode.verify) (x ∷ s, a) = guarded (truth x) (some (s, a))
  plain_step (Instr.op Opcode.equal_verify) (y ∷ x ∷ s, a) = guarded (bytes_equal x y) (some (s, a))
  plain_step (Instr.op Opcode.sha256) (x ∷ s, a) = some (lib.sha256 x ∷ s, a)
  plain_step (Instr.op Opcode.substr) (n ∷ i ∷ x ∷ s, a) =
      some (take (pos_part (num_of n)) (drop (pos_part (num_of i)) x) ∷ s, a)
  plain_step (Instr.op Opcode.bin2num) (x ∷ s, a) = some (plain_num (pos (le_value 8 x)) ∷ s, a)
  plain_step (Instr.op Opcode.check_sig_from_stack) (key ∷ digest ∷ sig ∷ s, a) =
      some (plain_flag (lib.verify key digest sig) ∷ s, a)
  plain_step (Instr.op Opcode.inspect_num_inputs) (s, a) =
      some (plain_num (pos tx.num_inputs) ∷ s, a)
  plain_step (Instr.op Opcode.push_current_input_index) (s, a) = some (plain_num (pos 0) ∷ s, a)
  plain_step (Instr.op Opcode.inspect_input_value) (i ∷ s, a) =
      some (plain_num tx.input_sats ∷ s, a)
  plain_step (Instr.op Opcode.inspect_output_value) (i ∷ s, a) =
      some (plain_num (output_at tx (num_of i)).0 ∷ s, a)
  plain_step (Instr.op Opcode.inspect_output_script_pub_key) (i ∷ s, a) =
      push_commitment (pushed_commitment lib (output_at tx (num_of i)).1) plain_num (s, a)
  plain_step _ _ = none

  num2 :
      {A : Type 0} (f : ℤ → ℤ → A) (x y : ℤ)
      → f (num_of (plain_num x)) (num_of (plain_num y)) ≡ f x y
  num2 f x y = rw (num_of-plain_num x, num_of-plain_num y)

  flags_or : (x y : Bool) → (truth (plain_flag x) || truth (plain_flag y)) ≡ (x || y)
  flags_or x y = rw (truth-plain_flag x, truth-plain_flag y)

  read_back : (v : ℕ) → v < int64_min_abs → le_value 8 (le_bytes 8 v) ≡ v
  unfolding le_bytes le_value
  read_back v h = le_value-le_bytes 8 v [] (omega arith)

  pub plain_vm : Vm lib plain_num tx
  plain_vm = record {
    step = plain_step;
    flag = plain_flag;
    accepts = plain_accepts;
    accepts-flag = truth-plain_flag;
    step-push = λ d s a. refl;
    step-int = λ n s a. refl;
    step-op_0 = λ s a. refl;
    step-op_1 = λ s a. refl;
    step-dup = λ x s a. refl;
    step-over = λ x y s a. refl;
    step-swap = λ x y s a. refl;
    step-to_alt_stack = λ x s a. refl;
    step-from_alt_stack = λ x s a. refl;
    step-add = λ x y s a. num2 (λ p q. some (plain_num (p +ℤ q) ∷ s, a)) x y;
    step-sub = λ x y s a. num2 (λ p q. some (plain_num (p -ℤ q) ∷ s, a)) x y;
    step-div = λ x y s a h. num2 (λ p q. some (plain_num (p /ℤ q) ∷ s, a)) x y;
    step-min = λ x y s a. num2 (λ p q. some (plain_num (min_ℤ p q) ∷ s, a)) x y;
    step-max = λ x y s a. num2 (λ p q. some (plain_num (max_ℤ p q) ∷ s, a)) x y;
    step-less_than = λ x y s a. num2 (λ p q. some (plain_flag (ltb_ℤ p q) ∷ s, a)) x y;
    step-greater_than = λ x y s a. num2 (λ p q. some (plain_flag (ltb_ℤ q p) ∷ s, a)) x y;
    step-greater_than_or_equal = λ x y s a. num2 (λ p q. some (plain_flag (leb_ℤ q p) ∷ s, a)) x y;
    step-num_equal = λ x y s a. num2 (λ p q. some (plain_flag (p ==ℤ q) ∷ s, a)) x y;
    step-num_equal_verify = λ x y s a. num2 (λ p q. guarded (p ==ℤ q) (some (s, a))) x y;
    step-bool_or = λ x y s a. ap (λ b. some (plain_flag b ∷ s, a)) (flags_or x y);
    step-verify = λ x s a. ap (λ b. guarded b (some (s, a))) (truth-plain_flag x);
    step-equal_verify = λ x y s a. refl;
    step-sha256 = λ x s a. refl;
    step-substr = λ x i n s a h. refl;
    step-bin2num = λ v s a h. ap (λ n. some (plain_num (pos n) ∷ s, a)) (read_back v h);
    step-check_sig = λ key digest sig s a h. ap (λ b. some (plain_flag b ∷ s, a)) h;
    step-check_sig_bad = λ key digest sig s a h. inr (ap (λ b. some (plain_flag b ∷ s, a)) h);
    step-inspect_num_inputs = λ s a. refl;
    step-push_current_input_index = λ s a. refl;
    step-inspect_input_value = λ s a. refl;
    step-inspect_output_value_0 = λ s a. refl;
    step-inspect_output_value_1 = λ s a. refl;
    step-inspect_output_script_0 = λ s a. refl;
    step-inspect_output_script_1 = λ s a. refl;
  }
