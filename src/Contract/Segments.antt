-- ===== src/Contract/Segments.antt =====
-- What each part of the covenant does to the stacks, in any VM that obeys the opcode laws.
use hedge_arkade.Common.{Bool-cases, Bytes, ℕ, ◌<◌, ◌≡◌, inl, inr, ◌||◌, some, List, ◌∷◌}
use hedge_arkade.Common.Int.{
  ℤ, pos, ◌+ℤ◌, ◌-ℤ◌, ◌/ℤ◌, ◌<ℤ◌, ltb_ℤ, leb_ℤ, ◌==ℤ◌, max_ℤ, min_ℤ, int64_min_abs, sub64,
}
use hedge_arkade.Contract.Library.{Library}
use hedge_arkade.Contract.Oracle.{oracle_message}
use hedge_arkade.Contract.Terms.{Terms, dust}
use hedge_arkade.Contract.Vm.{Vm, Spend, run, guarded, run-append, and_then-guarded}
use hedge_arkade.Contract.Script.{
  shape_check, authenticate, predecessor_check, adjacency_check, start_check, price_clamp,
  trigger_check, payout_check,
}
use hedge_arkade.Contract.Fields.{run-timestamp, run-sequence, run-price}

module _ {lib : Library} {num : ℤ → Bytes} {tx : Spend} (vm : Vm lib num tx) where
  module _ (t : Terms) where
    pub run-shape_check :
        (s a : List Bytes)
        → run vm (shape_check lib num t) (s, a)
          ≡ guarded
              (pos tx.num_inputs ==ℤ pos 1)
              (guarded (tx.input_sats ==ℤ t.payout_sats) (some (s, a)))
    unfolding run shape_check
    run-shape_check s a = simp (
      vm.step-inspect_num_inputs, vm.step-op_1, vm.step-num_equal_verify,
      vm.step-push_current_input_index, vm.step-inspect_input_value, vm.step-push, and_then-guarded,
    )

    pub run-authenticate :
        (msg sig : Bytes) (s a : List Bytes)
        → run vm (authenticate lib num t) (msg ∷ sig ∷ s, a)
          ≡ guarded (lib.verify t.oracle_pub_key (lib.sha256 msg) sig) (some (s, msg ∷ a))
    unfolding run authenticate
    run-authenticate msg sig s a =
        elim (Bool-cases (lib.verify t.oracle_pub_key (lib.sha256 msg) sig)) [
          | inl good ↦ simp (
            vm.step-dup,
            vm.step-to_alt_stack,
            vm.step-sha256,
            vm.step-push,
            good,
            vm.step-check_sig t.oracle_pub_key (lib.sha256 msg) sig s (msg ∷ a) good,
            vm.step-verify,
          )
          | inr bad ↦
              elim (vm.step-check_sig_bad t.oracle_pub_key (lib.sha256 msg) sig s (msg ∷ a) bad) [
                | inl e ↦
                    simp (vm.step-dup, vm.step-to_alt_stack, vm.step-sha256, vm.step-push, bad, e)
                | inr e ↦ simp (
                  vm.step-dup, vm.step-to_alt_stack, vm.step-sha256, vm.step-push, bad, e,
                  vm.step-verify,
                )
              ]
        ]

    -- the settlement message (ts, sq, pr) and its predecessor (ts', sq', pr')
    module _ (ts sq pr ts' sq' pr' : ℕ) where
      abbrev settlement : Bytes
      settlement = oracle_message ts sq pr

      abbrev previous : Bytes
      previous = oracle_message ts' sq' pr'

      pub run-predecessor_check :
          (s a : List Bytes)
          → ts' < int64_min_abs
          → run vm (predecessor_check lib num t) (s, settlement ∷ previous ∷ a)
            ≡ guarded (ltb_ℤ (pos ts') t.maturity_timestamp) (some (previous ∷ settlement ∷ s, a))
      unfolding run predecessor_check
      run-predecessor_check s a h = simp (
        vm.step-from_alt_stack,
        vm.step-dup,
        run-append vm,
        run-timestamp vm ts' sq' pr' (previous ∷ settlement ∷ s) a h,
        vm.step-push,
        vm.step-less_than,
        vm.step-verify,
        and_then-guarded,
      )

      pub run-adjacency_check :
          (s a : List Bytes)
          → sq < int64_min_abs
          → sq' < int64_min_abs
          → run vm (adjacency_check lib num t) (previous ∷ settlement ∷ s, a)
            ≡ guarded
                (ltb_ℤ (pos 0) (pos sq'))
                (guarded (pos sq' +ℤ pos 1 ==ℤ pos sq) (some (settlement ∷ s, a)))
      unfolding run adjacency_check
      run-adjacency_check s a h h' = simp (
        vm.step-dup,
        run-append vm,
        run-sequence vm ts' sq' pr' (settlement ∷ s) a h',
        vm.step-op_0,
        vm.step-greater_than,
        vm.step-verify,
        vm.step-op_1,
        vm.step-add,
        vm.step-over,
        run-sequence vm ts sq pr (num (pos sq' +ℤ pos 1) ∷ settlement ∷ s) a h,
        vm.step-num_equal_verify,
        and_then-guarded,
      )

      pub run-start_check :
          (s a : List Bytes)
          → ts < int64_min_abs
          → run vm (start_check lib num t) (settlement ∷ s, a)
            ≡ guarded (leb_ℤ t.start_timestamp (pos ts)) (some (num (pos ts) ∷ settlement ∷ s, a))
      unfolding run start_check
      run-start_check s a h = simp (
        vm.step-dup,
        run-append vm,
        run-timestamp vm ts sq pr (settlement ∷ s) a h,
        vm.step-push,
        vm.step-greater_than_or_equal,
        vm.step-verify,
        and_then-guarded,
      )

      pub run-price_clamp :
          (s a : List Bytes)
          → pr < int64_min_abs
          → run vm (price_clamp lib num t) (num (pos ts) ∷ settlement ∷ s, a)
            ≡ guarded
                (ltb_ℤ (pos 0) (pos pr))
                (some (num (max_ℤ (min_ℤ (pos pr) t.high_price) t.low_price) ∷ num (pos ts) ∷ s, a))
      unfolding run price_clamp
      run-price_clamp s a h = simp (
        vm.step-swap,
        vm.step-dup,
        run-append vm,
        run-price vm ts sq pr (num (pos ts) ∷ s) a h,
        vm.step-push,
        vm.step-op_0,
        vm.step-greater_than,
        vm.step-verify,
        vm.step-min,
        vm.step-max,
        and_then-guarded,
      )

    pub run-trigger_check :
        (c ts : ℤ) (s a : List Bytes)
        → run vm (trigger_check lib num t) (num c ∷ num ts ∷ s, a)
          ≡ guarded
              ((c ==ℤ t.low_price || c ==ℤ t.high_price) || leb_ℤ t.maturity_timestamp ts)
              (some (num c ∷ s, a))
    unfolding run trigger_check
    run-trigger_check c ts s a = simp (
      vm.step-dup, vm.step-to_alt_stack, vm.step-push, vm.step-num_equal, vm.step-swap,
      vm.step-bool_or, vm.step-greater_than_or_equal, vm.step-verify, vm.step-from_alt_stack,
      and_then-guarded,
    )

    -- what the script computes for the short from the clamped price
    abbrev pub script_short : ℤ → ℤ
    script_short c =
        min_ℤ (max_ℤ (t.nominal /ℤ c -ℤ t.leverage) (pos dust)) (sub64 t.payout_sats (pos dust))

    pub run-payout_check :
        (c : ℤ) (s a : List Bytes)
        → pos 0 <ℤ c
        → run vm (payout_check lib num t) (num c ∷ s, a)
          ≡ guarded
              (t.payout_sats -ℤ script_short c ==ℤ tx.output_1.0)
              (some (vm.flag (script_short c ==ℤ tx.output_0.0) ∷ s, a))
    unfolding run payout_check
    run-payout_check c s a h = simp (
      vm.step-push,
      vm.step-swap,
      vm.step-div t.nominal c s a h,
      vm.step-sub,
      vm.step-max,
      vm.step-min,
      vm.step-dup,
      vm.step-op_1,
      vm.step-inspect_output_value_1,
      vm.step-num_equal_verify,
      vm.step-op_0,
      vm.step-inspect_output_value_0,
      vm.step-num_equal,
      and_then-guarded,
    )
