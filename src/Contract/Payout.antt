-- ===== src/Contract/Payout.antt =====
-- What the payout rule `SettlementSplit` promises (contract/arbitration.go): conservation, totality,
-- monotonicity, and the clamp that makes every price beyond a boundary settle alike.
use hedge_arkade.Contract.Terms.{Terms, settlement_split, FitsInt64, IsValid, dust, clamp}
use hedge_arkade.Common.{ℕ, ◌<◌, ◌≤◌, ◌≡◌, ◌/◌, arith, ok, ◌↔◌}
use hedge_arkade.Common.Int.{◌/ℤ◌, ℤ, pos, ◌<ℤ◌, ◌≤ℤ◌, negsuc, ◌+ℤ◌, min_ℤ, max_ℤ, ◌-ℤ◌, int_laws}
use hedge_arkade.Contract.Split.{
  short_owed, settlement_split-eq-ok, clamp_cases, clamp_mono, short_owed_bounds,
  settlement_split-exact, clamp_bounds,
}

div_antitone : (n c d : ℕ) → 0 < c → c ≤ d → n / d ≤ n / c
div_antitone n c d hc h = grind arith

quotient_antitone : (n c d : ℤ) → pos 0 <ℤ n → pos 0 <ℤ c → c ≤ℤ d → n /ℤ d ≤ℤ n /ℤ c
unfolding ◌/ℤ◌
quotient_antitone (pos n) (pos c) (pos d) hn hc h =
    omega (arith, div_antitone n c d (omega arith) (omega arith))
quotient_antitone (pos n) (pos c) (negsuc d) hn hc h = absurd (omega arith)
quotient_antitone (pos n) (negsuc c) d hn hc h = absurd (omega arith)
quotient_antitone (negsuc n) c d hn hc h = absurd (omega arith)

capped_mono :
    (a b cap : ℤ) → a ≤ℤ b → min_ℤ (max_ℤ a (pos dust)) cap ≤ℤ min_ℤ (max_ℤ b (pos dust)) cap
capped_mono a b cap h = ground arith

short_owed_antitone :
    (t : Terms) (v : IsValid t) (p q : ℤ) → p ≤ℤ q → short_owed t q ≤ℤ short_owed t p
unfolding short_owed
short_owed_antitone t v p q h =
    let c = clamp_mono t p q h in
    let k =
      quotient_antitone t.nominal (clamp t p) (clamp t q) v.nominal_pos
        (omega (arith, clamp_bounds t p v.low_lt_high, v.low_pos)) c in
    capped_mono (t.nominal /ℤ clamp t q -ℤ t.leverage) (t.nominal /ℤ clamp t p -ℤ t.leverage)
      (t.payout_sats -ℤ pos dust) (omega int_laws)

-- Over terms that fit in `int64`, every payout of the rule conserves the contract: both sides get
-- at least dust and the two sum to the payout exactly.
pub split_conserves :
    (t : Terms) (price : ℤ) {s l : ℤ}
    → FitsInt64 t
    → settlement_split t price ≡ ok (s, l)
    → (pos dust ≤ℤ s) × (pos dust ≤ℤ l) × (s +ℤ l ≡ t.payout_sats)
split_conserves t price f e =
    let (v, _, es, el) = settlement_split-eq-ok t price f e in
    let (lo, hi) = short_owed_bounds t v f price in
    rw (es, el) (omega int_laws, omega int_laws, omega int_laws)

-- Over terms that fit in `int64` there is a split exactly when `validate` accepts the terms and
-- the price is positive.
pub split_total :
    (t : Terms) (price : ℤ)
    → FitsInt64 t
    → ((r : ℤ × ℤ) × (settlement_split t price ≡ ok r)) ↔ (IsValid t × (pos 0 <ℤ price))
split_total t price f = (
  λ (r, e). let (v, h, _, _) = settlement_split-eq-ok t price f e in (v, h),
  λ (v, h). (
    (short_owed t price, t.payout_sats -ℤ short_owed t price),
    settlement_split-exact t v f price h,
  ),
)

-- Over terms that fit in `int64`, of two prices that have a split the higher never pays the short
-- more, nor the long less.
pub split_antitone :
    (t : Terms) (p q : ℤ) {s l s' l' : ℤ}
    → FitsInt64 t
    → p ≤ℤ q
    → settlement_split t p ≡ ok (s, l)
    → settlement_split t q ≡ ok (s', l')
    → (s' ≤ℤ s) × (l ≤ℤ l')
split_antitone t p q f h e e' =
    let (v, _, es, el) = settlement_split-eq-ok t p f e in
    let (_, _, es', el') = settlement_split-eq-ok t q f e' in
    let anti = short_owed_antitone t v p q h in rw (es, el, es', el') (anti, omega int_laws)

-- Over valid terms every positive price beyond a boundary settles as the boundary does, so there
-- is no message to shop for.
pub split_liquidated :
    (t : Terms) (p : ℤ)
    → pos 0 <ℤ p
    → IsValid t
    → (p ≤ℤ t.low_price → settlement_split t p ≡ settlement_split t t.low_price)
      × (t.high_price ≤ℤ p → settlement_split t p ≡ settlement_split t t.high_price)
unfolding settlement_split
split_liquidated t p hp v = (
  λ h.
      ground
        (arith, clamp_cases t p v.low_lt_high, clamp_cases t t.low_price v.low_lt_high, v.low_pos),
  λ h. ground (
    arith,
    clamp_cases t p v.low_lt_high,
    clamp_cases t t.high_price v.low_lt_high,
    v.low_pos,
    v.low_lt_high,
  ),
)
