-- ===== src/Contract/Errors.antt =====
-- The errors of the contract package (contract/*.go), one constructor for each message. The
-- `%w` context that a caller puts round an error is left out: the innermost message names it.
use hedge_arkade.Common.{Result}

pub data Error : Type 0 where
  -- Terms.validate
  nominal_not_positive payout_not_positive payout_below_dust low_not_positive : Error
  high_not_above_low leverage_negative short_script_empty long_script_empty : Error
  oracle_key_length start_not_positive maturity_not_after_start : Error
  -- SettlementSplit, PriceFrom
  price_not_positive message_length bad_oracle_key bad_signature : Error
  oracle_did_not_sign price_out_of_range : Error
  -- arbitration.go
  no_sweep fee_negative cannot_cover_dust no_arbitration : Error
  -- exit.go
  nil_key amount_not_positive leaves_less_than_dust sweep_script_empty : Error
  bad_exit_delay not_one_input not_this_key key_mismatch no_exit_package : Error
  not_a_csv_leaf too_few_signatures sign_failed : Error
  -- vtxo.go
  redemption_disabled unknown_leaf : Error
  -- redemption.go
  split_below_dust split_wrong_sum no_redemption wrong_input_count : Error
  wrong_checkpoint_count wrong_checkpoint_inputs wrong_outpoint price_disagrees : Error
  missing_output wrong_amount wrong_recipient wrong_output_count : Error
  not_the_transaction not_the_checkpoint no_witness_utxo signs_nothing : Error
  -- an index out of range: the Go program panics there
  panics : Error
  -- an error that a library call returned
  library_error : Error

abbrev pub Outcome {ℓ} : Type ℓ → Type ℓ
Outcome A = Result Error A
