-- ===== src/Contract/Arbitration.antt =====
-- Arbitration after a unilateral exit (contract/arbitration.go): building the transaction that
-- empties the 2-of-3 from a signed price, and a party's check of it.
use hedge_arkade.Common.{
  ◌==◌, length, Bytes, bytes_equal, err, ◌>>=◌, ◌>>◌, ℕ, true, false, not, Option, none, some, List,
  [], ◌∷◌, fail_if, ok,
}
use hedge_arkade.Common.Int.{ℤ, pos, ltb_ℤ, ◌==ℤ◌, sub64}
use hedge_arkade.Contract.Errors
use hedge_arkade.Contract.Library.{Library}
use hedge_arkade.Contract.Oracle.{price_from}
use hedge_arkade.Contract.Scale.{scale_to_available}
use hedge_arkade.Contract.Terms.{Terms, clamp, settlement_split}
use hedge_arkade.Contract.Tx.{OutPoint, TxIn, TxOut, MsgTx}
use hedge_arkade.Contract.Vtxo.{Contract}
use hedge_arkade.Contract.Exit.{Sweep}

pub record Arbitration : Type 0 where
  pub tx : MsgTx
  pub short_sats : ℤ
  pub long_sats : ℤ
  pub price : ℤ
  pub message : Bytes
  pub signature : Bytes

-- `wire.MaxTxInSequenceNum`
abbrev pub max_tx_in_sequence_num : ℕ
max_tx_in_sequence_num = 0xffff_ffff

-- `Contract.PriceFrom`
abbrev pub contract_price : Library → Contract → Bytes → Bytes → Errors.Outcome ℤ
contract_price lib c = price_from lib c.terms.oracle_pub_key

-- the two outputs, to the short and to the long
abbrev pub payouts : Terms → ℤ → ℤ → List TxOut
payouts t short long =
    record { value = short; pk_script = t.short_lock_script }
    ∷ record { value = long; pk_script = t.long_lock_script }
    ∷ []

-- `Arbitrate`; `none` is a nil sweep.
unfoldable pub arbitrate :
    Library
    → Contract
    → Option Sweep
    → OutPoint
    → ℤ
    → ℤ
    → Bytes
    → Bytes
    → Errors.Outcome Arbitration
arbitrate lib c sweep outpoint available fee_sats message signature = do
  fail_if (elim sweep [ none ↦ true | some _ ↦ false ]) Errors.no_sweep
  fail_if (ltb_ℤ fee_sats (pos 0)) Errors.fee_negative
  price ← contract_price lib c message signature
  split ← settlement_split c.terms price
  final ← scale_to_available split.0 split.1 c.terms.payout_sats (sub64 available fee_sats)
  ok (record {
    tx = record {
      version = 2;
      tx_in =
          record { previous_out_point = outpoint; sequence = max_tx_in_sequence_num; witness = [] }
          ∷ [];
      tx_out = payouts c.terms final.0 final.1;
    };
    short_sats = final.0;
    long_sats = final.1;
    price = clamp c.terms price;
    message = message;
    signature = signature;
  })

-- The loop over the expected outputs, beside the outputs of the transaction under check.
unfoldable pub match_outputs : List TxOut → List TxOut → Errors.Outcome (Unit {0})
match_outputs [] got = ok tt
match_outputs (want ∷ wants) [] = err Errors.panics
match_outputs (want ∷ wants) (got ∷ gots) = do
  fail_if (not (got.value ==ℤ want.value)) Errors.wrong_amount
  fail_if (not (bytes_equal got.pk_script want.pk_script)) Errors.wrong_recipient
  match_outputs wants gots

-- `a.Tx.TxIn[0]`
abbrev pub first_input : List TxIn → Errors.Outcome TxIn
first_input [] = err Errors.panics
first_input (i ∷ _) = ok i

-- `VerifyArbitration`; `none` is a nil proposal.
unfoldable pub verify_arbitration :
    Library → Contract → Option Arbitration → Option Sweep → ℤ → ℤ → Errors.Outcome (Unit {0})
verify_arbitration lib c none sweep available fee_sats = err Errors.no_arbitration
verify_arbitration lib c (some a) sweep available fee_sats = do
  input ← first_input a.tx.tx_in
  expected ← arbitrate lib c sweep input.previous_out_point available fee_sats a.message a.signature
  fail_if (not (length a.tx.tx_out == 2)) Errors.wrong_output_count
  match_outputs expected.tx.tx_out a.tx.tx_out
  fail_if (not (length a.tx.tx_in == 1)) Errors.wrong_input_count
