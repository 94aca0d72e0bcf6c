-- ===== src/Contract/Covenant.antt =====
-- The covenant as a whole (contract/settlement.go, `SettlementScript`): which spends it accepts.
use hedge_arkade.Common.{
  Option-cases, Bytes, bytes_equal, ℕ, ◌<◌, refl, inl, inr, Bool, true, false, ◌&&◌, ◌||◌, Option,
  none, some, List, [], ◌∷◌, ◌++◌, arith, ◌≡◌,
}
use hedge_arkade.Common.Int.{ℤ, pos, ◌+ℤ◌, ◌-ℤ◌, ltb_ℤ, leb_ℤ, ◌==ℤ◌, max_ℤ, min_ℤ, int64_min_abs}
use hedge_arkade.Contract.Library.{Library}
use hedge_arkade.Contract.Oracle.{oracle_message}
use hedge_arkade.Contract.Terms.{Terms, IsValid, FitsInt64, clamp}
use hedge_arkade.Contract.Split.{short_owed, cap_exact, clamp_pos}
use hedge_arkade.Contract.Vm.{
  Vm, Spend, run, guarded, run-append, and_then-guarded, pushed_commitment, outcome, accepted_by,
  outcome-guarded, outcome-flag, Machine,
}
use hedge_arkade.Contract.Script.{covenant_body, recipient_check, shape_check}
use hedge_arkade.Contract.Opcodes.{op_0, op_1}
use hedge_arkade.Contract.Segments.{
  script_short, run-authenticate, run-predecessor_check, run-shape_check, run-adjacency_check,
  run-start_check, run-price_clamp, run-trigger_check, run-payout_check,
}

-- Whether what the VM pushes for an output is the commitment that the script compares with.
abbrev pub pays_to : Option (Bytes × ℤ) → Bytes × ℤ → Bool
pays_to none c = false
pays_to (some (digest, version)) c = version ==ℤ c.1 && bytes_equal digest c.0

guarded_and : (b c : Bool) (r : Option Machine) → guarded b (guarded c r) ≡ guarded (b && c) r
guarded_and true c r = refl
guarded_and false c r = refl

module _ {lib : Library} {num : ℤ → Bytes} {tx : Spend} (vm : Vm lib num tx) where
  run-recipient_check_0 :
      (c : Bytes × ℤ) (s a : List Bytes)
      → run vm (recipient_check lib num op_0 c) (s, a)
        ≡ guarded (pays_to (pushed_commitment lib tx.output_0.1) c) (some (s, a))
  unfolding recipient_check run
  run-recipient_check_0 (digest, version) s a =
      elim (Option-cases (pushed_commitment lib tx.output_0.1)) [
        | inl e ↦ simp (vm.step-op_0, vm.step-inspect_output_script_0, e)
        | inr ((d, v), e) ↦ simp (
          vm.step-op_0, vm.step-inspect_output_script_0, e, vm.step-push, vm.step-num_equal_verify,
          vm.step-equal_verify, and_then-guarded, guarded_and,
        )
      ]

  run-recipient_check_1 :
      (c : Bytes × ℤ) (s a : List Bytes)
      → run vm (recipient_check lib num op_1 c) (s, a)
        ≡ guarded (pays_to (pushed_commitment lib tx.output_1.1) c) (some (s, a))
  unfolding recipient_check run
  run-recipient_check_1 (digest, version) s a =
      elim (Option-cases (pushed_commitment lib tx.output_1.1)) [
        | inl e ↦ simp (vm.step-op_1, vm.step-inspect_output_script_1, e)
        | inr ((d, v), e) ↦ simp (
          vm.step-op_1, vm.step-inspect_output_script_1, e, vm.step-push, vm.step-num_equal_verify,
          vm.step-equal_verify, and_then-guarded, guarded_and,
        )
      ]

  module _ (t : Terms) (v : IsValid t) (f : FitsInt64 t) where
    -- the script's clamp is the service's
    script_clamp : (pr : ℕ) → max_ℤ (min_ℤ (pos pr) t.high_price) t.low_price ≡ clamp t (pos pr)
    unfolding clamp
    script_clamp pr = ground (arith, v.low_lt_high)

    script_short-eq : (p : ℤ) → script_short vm t (clamp t p) ≡ short_owed t p
    unfolding short_owed
    script_short-eq p = rw (cap_exact t v f)

    module _ (ts sq pr ts' sq' pr' : ℕ) (sig sig' : Bytes) (ts_small : ts < int64_min_abs)
        (sq_small : sq < int64_min_abs) (pr_small : pr < int64_min_abs)
        (ts'_small : ts' < int64_min_abs) (sq'_small : sq' < int64_min_abs) where
      -- the tests of the part behind the recipients, in the script's order
      abbrev pub body_test : Bool
      body_test =
          lib.verify t.oracle_pub_key (lib.sha256 (oracle_message ts' sq' pr')) sig'
          && (lib.verify t.oracle_pub_key (lib.sha256 (oracle_message ts sq pr)) sig
              && (ltb_ℤ (pos ts') t.maturity_timestamp
                  && (ltb_ℤ (pos 0) (pos sq')
                      && (pos sq' +ℤ pos 1 ==ℤ pos sq
                          && (leb_ℤ t.start_timestamp (pos ts)
                              && (ltb_ℤ (pos 0) (pos pr)
                                  && (((clamp t (pos pr) ==ℤ t.low_price
                                          || clamp t (pos pr) ==ℤ t.high_price)
                                        || leb_ℤ t.maturity_timestamp (pos ts))
                                      && (t.payout_sats -ℤ short_owed t (pos pr) ==ℤ tx.output_1.0
                                          && (short_owed t (pos pr) ==ℤ tx.output_0.0)))))))))

      outcome-body :
          outcome vm (
            run vm
              (covenant_body lib num t)
              (oracle_message ts' sq' pr' ∷ sig' ∷ oracle_message ts sq pr ∷ sig ∷ [], []))
          ≡ body_test
      unfolding covenant_body
      outcome-body = simp (
        run-append vm,
        run-authenticate vm t,
        and_then-guarded,
        run-predecessor_check vm t ts sq pr ts' sq' pr' [] [] ts'_small,
        run-adjacency_check vm t ts sq pr ts' sq' pr' [] [] sq_small sq'_small,
        run-start_check vm t ts sq pr ts' sq' pr' [] [] ts_small,
        run-price_clamp vm t ts sq pr ts' sq' pr' [] [] pr_small,
        script_clamp pr,
        run-trigger_check vm t,
        run-payout_check vm t (clamp t (pos pr)) [] [] (clamp_pos t v f (pos pr)),
        script_short-eq (pos pr),
        outcome-guarded vm,
        outcome-flag vm,
      )

      pub accepted_by-eq :
          (c d : Bytes × ℤ)
          → accepted_by vm
              (shape_check lib num t
                ++ (recipient_check lib num op_0 c
                    ++ (recipient_check lib num op_1 d ++ covenant_body lib num t)))
              (oracle_message ts' sq' pr' ∷ sig' ∷ oracle_message ts sq pr ∷ sig ∷ [])
            ≡ ((pos tx.num_inputs ==ℤ pos 1)
                && ((tx.input_sats ==ℤ t.payout_sats)
                    && (pays_to (pushed_commitment lib tx.output_0.1) c
                        && (pays_to (pushed_commitment lib tx.output_1.1) d && body_test))))
      unfolding accepted_by
      accepted_by-eq c d = simp (
        run-append vm,
        run-shape_check vm t,
        run-recipient_check_0,
        run-recipient_check_1,
        and_then-guarded,
        outcome-guarded vm,
        outcome-body,
      )
