-- ===== src/Examples/Payout.antt =====
-- Examples for the payout rule, the oracle's messages, and sharing out what an exit left.
use hedge_arkade.Common.{ok, ◌-◌, ◌≡◌, refl, arith}
use hedge_arkade.Common.Int.{ℤ, pos, ◌+ℤ◌, ◌-ℤ◌, ◌*ℤ◌, ◌/ℤ◌, ◌≤ℤ◌, sub64, mul64}
use hedge_arkade.Contract.Terms.{settlement_split, validate, clamp}
use hedge_arkade.Contract.Payout.{split_conserves, split_total, split_antitone}
use hedge_arkade.Contract.Scale.{
  scale_to_available, scale_exact, scale_conserves, scale_overflow, fair_share,
}
use hedge_arkade.Examples.Data.{some_terms, some_terms-FitsInt64, some_terms-IsValid}

split_at : settlement_split some_terms (pos 100) ≡ ok (pos 10_000, pos 10_000)
unfolding settlement_split validate clamp sub64 ◌-ℤ◌ ◌/ℤ◌
split_at = refl

split_above : settlement_split some_terms (pos 150) ≡ ok (pos 6_666, pos 13_334)
unfolding settlement_split validate clamp sub64 ◌-ℤ◌ ◌/ℤ◌
split_above = refl

split_conserves_example :
    (pos 1332 ≤ℤ pos 6_666) × (pos 1332 ≤ℤ pos 13_334) × (pos 6_666 +ℤ pos 13_334 ≡ pos 20_000)
split_conserves_example = split_conserves some_terms (pos 150) some_terms-FitsInt64 split_above

split_total_example : (r : ℤ × ℤ) × (settlement_split some_terms (pos 100) ≡ ok r)
split_total_example =
    (split_total some_terms (pos 100) some_terms-FitsInt64).1 (some_terms-IsValid, omega arith)

split_antitone_example : (pos 6_666 ≤ℤ pos 10_000) × (pos 10_000 ≤ℤ pos 13_334)
split_antitone_example =
    split_antitone some_terms (pos 100) (pos 150) some_terms-FitsInt64 (omega arith) split_at
      split_above

scale_exact_example :
    scale_to_available (pos 6_666) (pos 13_334) (pos 20_000) (pos 15_000)
    ≡ ok (pos (fair_share 6_666 20_000 15_000), pos (15_000 - fair_share 6_666 20_000 15_000))
scale_exact_example =
    scale_exact 6_666 20_000 15_000 (pos 13_334) (omega arith) (omega arith) (omega arith)

scaled :
    scale_to_available (pos 6_666) (pos 13_334) (pos 20_000) (pos 15_000)
    ≡ ok (pos 4_999, pos 10_001)
unfolding scale_to_available sub64 mul64 ◌-ℤ◌ ◌*ℤ◌ ◌/ℤ◌
scaled = refl

scale_conserves_example :
    (pos 1332 ≤ℤ pos 4_999) × (pos 1332 ≤ℤ pos 10_001) × (pos 4_999 +ℤ pos 10_001 ≡ pos 15_000)
scale_conserves_example =
    scale_conserves (pos 6_666) (pos 13_334) (pos 20_000) (pos 15_000) (omega arith) scaled

-- 40 BTC on each side
scale_overflow_example :
    scale_to_available
      (pos 4_000_000_000)
      (pos 4_000_000_000)
      (pos 8_000_000_000)
      (pos 4_000_000_000)
    ≡ ok (pos 1332, pos (4_000_000_000 - 1332))
scale_overflow_example =
    scale_overflow 4_000_000_000 8_000_000_000 4_000_000_000 (pos 4_000_000_000) (omega arith)
      (omega arith) (omega arith) (omega arith)
