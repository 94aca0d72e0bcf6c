-- ===== src/Examples/Covenant.antt =====
-- Examples for the covenant and the payout rule.
use hedge_arkade.Common.{Result, ok, err, ◌≡◌, refl, inl, true, [], ◌∷◌, arith}
use hedge_arkade.Common.Int.{pos, negsuc, ◌-ℤ◌, ◌/ℤ◌, sub64}
use hedge_arkade.Contract.Errors
use hedge_arkade.Contract.Opcodes.{Script}
use hedge_arkade.Contract.Terms.{settlement_split, validate, clamp}
use hedge_arkade.Contract.Script.{settlement_script, lock_script_check, lock_script_commitment}
use hedge_arkade.Contract.Oracle.{oracle_message}
use hedge_arkade.Contract.Vm.{Spend, accepted_by}
use hedge_arkade.Contract.Settlement.{Settles, settlement_script-accepts_iff}
use hedge_arkade.Examples.Machine.{plain_num, plain_vm}
use hedge_arkade.Examples.Data.{a_library, some_terms, some_terms-FitsInt64, a_signature}

abbrev a_spend : Spend
a_spend = record {
  num_inputs = 1;
  input_sats = pos 20_000;
  output_0 = (pos 16_666, 1 ∷ []);
  output_1 = (pos 3_334, 2 ∷ []);
}

abbrev script_or_nil : Result Errors.Error Script → Script
script_or_nil (ok script) = script
script_or_nil (err e) = []

abbrev a_script : Script
a_script = script_or_nil (settlement_script a_library plain_num some_terms)

a_script_built : settlement_script a_library plain_num some_terms ≡ ok a_script
unfolding settlement_script lock_script_check lock_script_commitment validate
a_script_built = refl

a_spend-Settles : Settles a_library a_spend some_terms 1500 8 50 1400 7 70 a_signature a_signature
unfolding settlement_split validate clamp sub64 ◌-ℤ◌ ◌/ℤ◌ lock_script_commitment
a_spend-Settles = record {
  one_input = refl;
  holds_payout = refl;
  short_paid = ((1 ∷ [], negsuc 0), refl, refl);
  long_paid = ((2 ∷ [], negsuc 0), refl, refl);
  previous_signed = refl;
  settlement_signed = refl;
  previous_before_maturity = omega arith;
  previous_numbered = omega arith;
  adjacent = refl;
  started = omega arith;
  price_pos = omega arith;
  triggered = inl (omega arith);
  split_paid = refl;
}

settlement_script-accepts_example :
    accepted_by
      (plain_vm a_library a_spend)
      a_script
      (oracle_message 1400 7 70 ∷ a_signature ∷ oracle_message 1500 8 50 ∷ a_signature ∷ [])
    ≡ true
settlement_script-accepts_example =
    (settlement_script-accepts_iff (plain_vm a_library a_spend) some_terms some_terms-FitsInt64 1500
        8 50 1400 7 70 a_signature a_signature (omega arith) (omega arith) (omega arith)
        (omega arith) (omega arith) a_script_built).1
      a_spend-Settles
