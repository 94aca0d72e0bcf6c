-- ===== src/Contract/Verdict.antt =====
-- What an arbitration pays and what a party's check of it means (contract/arbitration.go).
use hedge_arkade.Common.{
  ◌==◌, length, Bytes, bytes_equal, bytes_equal_iff, ok, >>=-eq-ok, past_fail_if, ◌≡◌, refl, ◌↔◌,
  true, false, not, Option, none, some, List, [], ◌∷◌, arith,
}
use hedge_arkade.Common.Int.{ℤ, pos, ◌+ℤ◌, ◌-ℤ◌, ◌≤ℤ◌, ltb_ℤ, ◌==ℤ◌, IsInt64, sub64, sub64_exact}
use hedge_arkade.Contract.Errors
use hedge_arkade.Contract.Library.{Library}
use hedge_arkade.Contract.Scale.{scale_to_available, scale_conserves}
use hedge_arkade.Contract.Terms.{clamp, settlement_split, dust}
use hedge_arkade.Contract.Tx.{OutPoint, TxIn, TxOut}
use hedge_arkade.Contract.Vtxo.{Contract}
use hedge_arkade.Contract.Exit.{Sweep}
use hedge_arkade.Contract.Arbitration.{
  Arbitration, arbitrate, contract_price, payouts, match_outputs, verify_arbitration, first_input,
  max_tx_in_sequence_num,
}

pub match_outputs_iff :
    (wants gots : List TxOut)
    → length wants ≡ length gots
    → (match_outputs wants gots ≡ ok tt) ↔ (gots ≡ wants)
unfolding match_outputs
match_outputs_iff [] [] e = (λ _. refl, λ _. refl)
match_outputs_iff [] (g ∷ gs) e = absurd (omega arith)
match_outputs_iff (w ∷ ws) [] e = absurd (omega arith)
match_outputs_iff (w ∷ ws) (g ∷ gs) e = (
  λ h.
      let (same_value, h1) = past_fail_if (not (g.value ==ℤ w.value)) Errors.wrong_amount _ h in
      let (same_script, h2) =
        past_fail_if (not (bytes_equal g.pk_script w.pk_script)) Errors.wrong_recipient _ h1 in
      let rest = (match_outputs_iff ws gs (omega arith)).0 h2 in
      ground (arith, bytes_equal_iff g.pk_script w.pk_script),
  λ h.
      ground
        (arith, bytes_equal_iff g.pk_script w.pk_script, match_outputs_iff ws gs (omega arith)),
)

-- The signed price that an arbitration rests on, the split at that price, and the shares of what
-- is left after the fee: its outputs pay those shares to the contract's lock scripts, and its
-- numbers are those of its outputs.
pub arbitrate-eq-ok :
    (lib : Library) (c : Contract) (sweep : Option Sweep) (outpoint : OutPoint) (available fee : ℤ)
    (message signature : Bytes) {a : Arbitration}
    → arbitrate lib c sweep outpoint available fee message signature ≡ ok a
    → (price : ℤ) × (split : ℤ × ℤ) × (contract_price lib c message signature ≡ ok price)
      × (settlement_split c.terms price ≡ ok split)
      × (scale_to_available split.0 split.1 c.terms.payout_sats (sub64 available fee)
          ≡ ok (a.short_sats, a.long_sats))
      × (a.tx.tx_out ≡ payouts c.terms a.short_sats a.long_sats)
      × (a.tx.tx_in
          ≡ record {
            previous_out_point = outpoint;
            sequence = max_tx_in_sequence_num;
            witness = [];
          }
            ∷ [])
      × (a.price ≡ clamp c.terms price)
      × (a.message ≡ message)
      × (a.signature ≡ signature)
unfolding arbitrate
arbitrate-eq-ok lib c sweep outpoint available fee message signature e =
    let (_, e1) = past_fail_if (elim sweep [ none ↦ true | some _ ↦ false ]) Errors.no_sweep _ e in
    let (_, e2) = past_fail_if (ltb_ℤ fee (pos 0)) Errors.fee_negative _ e1 in
    let (price, ep, e3) = >>=-eq-ok (contract_price lib c message signature) _ e2 in
    let (split, es, e4) = >>=-eq-ok (settlement_split c.terms price) _ e3 in
    let (final, ef, e5) =
      >>=-eq-ok (scale_to_available split.0 split.1 c.terms.payout_sats (sub64 available fee)) _
        e4 in
    (
      price,
      split,
      ep,
      es,
      ground arith,
      ground arith,
      ground arith,
      ground arith,
      ground arith,
      ground arith,
    )

-- An arbitration that is built, with the available amount less the fee in `int64`, shares out
-- exactly that, with at least dust on each side.
pub arbitrate_conserves :
    (lib : Library) (c : Contract) (sweep : Option Sweep) (outpoint : OutPoint) (available fee : ℤ)
    (message signature : Bytes) {a : Arbitration}
    → IsInt64 (available -ℤ fee)
    → arbitrate lib c sweep outpoint available fee message signature ≡ ok a
    → (pos dust ≤ℤ a.short_sats)
      × (pos dust ≤ℤ a.long_sats)
      × (a.short_sats +ℤ a.long_sats ≡ available -ℤ fee)
arbitrate_conserves lib c sweep outpoint available fee message signature fits e =
    let (_, split, _, _, es, _, _, _, _, _) =
      arbitrate-eq-ok lib c sweep outpoint available fee message signature e in
    let exact = sub64_exact available fee fits in
    scale_conserves split.0 split.1 c.terms.payout_sats (available -ℤ fee) fits (rw (← exact) es)

two_outputs :
    (lib : Library) (c : Contract) (sweep : Option Sweep) (outpoint : OutPoint) (available fee : ℤ)
    (message signature : Bytes) {a : Arbitration}
    → arbitrate lib c sweep outpoint available fee message signature ≡ ok a
    → length a.tx.tx_out ≡ 2
two_outputs lib c sweep outpoint available fee message signature e =
    let (_, _, _, _, _, eo, _, _, _, _) =
      arbitrate-eq-ok lib c sweep outpoint available fee message signature e in
    rw eo

single_input :
    (inputs : List TxIn) {i : TxIn}
    → first_input inputs ≡ ok i
    → length inputs ≡ 1
    → inputs ≡ i ∷ []
single_input [] e one = absurd (omega arith)
single_input (x ∷ []) e one = cc
single_input (x ∷ y ∷ r) e one = absurd (omega arith)

-- A party's check accepts a proposal exactly when it has one input and its outputs are those of the
-- arbitration that the party builds itself from the oracle's message and signature.
pub verify_arbitration_iff :
    (lib : Library) (c : Contract) (a : Arbitration) (sweep : Option Sweep) (available fee : ℤ)
    → (verify_arbitration lib c (some a) sweep available fee ≡ ok tt) ↔ (
        (input : TxIn) × (expected : Arbitration) × (a.tx.tx_in ≡ input ∷ [])
        × (arbitrate lib c sweep input.previous_out_point available fee a.message a.signature
            ≡ ok expected)
        × (a.tx.tx_out ≡ expected.tx.tx_out))
unfolding verify_arbitration
verify_arbitration_iff lib c a sweep available fee = (
  λ h.
      let (input, ei, h1) = >>=-eq-ok (first_input a.tx.tx_in) _ h in
      let (expected, ee, h2) =
        >>=-eq-ok
          (arbitrate lib c sweep input.previous_out_point available fee a.message a.signature) _
          h1 in
      let (two, h3) = past_fail_if (not (length a.tx.tx_out == 2)) Errors.wrong_output_count _ h2 in
      let (_, em, h4) = >>=-eq-ok (match_outputs expected.tx.tx_out a.tx.tx_out) _ h3 in
      let both =
        two_outputs lib c sweep input.previous_out_point available fee a.message a.signature ee in
      (
        input,
        expected,
        single_input a.tx.tx_in ei (ground arith),
        ee,
        (match_outputs_iff expected.tx.tx_out a.tx.tx_out (ground (arith, both, two))).0 em,
      ),
  λ (input, expected, ei, ee, eo).
      let both =
        two_outputs lib c sweep input.previous_out_point available fee a.message a.signature ee in
      rw (ei, ee, eo)
        (rw (both, (match_outputs_iff expected.tx.tx_out expected.tx.tx_out refl).1 refl) refl),
)

-- The service's own proposal passes the check of whoever is given it, unchanged.
pub arbitrate-verifies :
    (lib : Library) (c : Contract) (sweep : Option Sweep) (outpoint : OutPoint) (available fee : ℤ)
    (message signature : Bytes) {a : Arbitration}
    → arbitrate lib c sweep outpoint available fee message signature ≡ ok a
    → verify_arbitration lib c (some a) sweep available fee ≡ ok tt
arbitrate-verifies lib c sweep outpoint available fee message signature {a} e =
    let (_, _, _, _, _, _, ei, _, em, es) =
      arbitrate-eq-ok lib c sweep outpoint available fee message signature e in
    (verify_arbitration_iff lib c a sweep available fee).1 (_, a, ei, simp (em, es) e, refl)
