-- ===== src/Contract/Split.antt =====
-- What `validate` accepts, and what the payout rule `SettlementSplit` pays
-- (contract/settlement.go, contract/arbitration.go).
use hedge_arkade.Common.{
  ◌≡◌, ◌↔◌, none, arith, ℕ, ◌/◌, ◌≤◌, ok, false, true, Option-cases, inl, inr, Bool-cases,
}
use hedge_arkade.Contract.Terms.{Terms, IsValid, validate, clamp, dust, FitsInt64, settlement_split}
use hedge_arkade.Common.Int.{
  ℤ, ◌/ℤ◌, ◌-ℤ◌, ◌<ℤ◌, ◌≤ℤ◌, min_ℤ, pos, max_ℤ, negsuc, IsInt64, sub64, -ℤ_parts, sub64_exact,
  leb_ℤ,
}

-- `validate` returns a nil error for exactly the well-formed terms.
pub validate-eq-none_iff : (t : Terms) → (validate t ≡ none) ↔ IsValid t
unfolding validate
validate-eq-none_iff t = (λ h. ground arith, λ v. ground arith)

-- The clamped price lies between the boundaries.
pub clamp_bounds :
    (t : Terms) (price : ℤ)
    → t.low_price <ℤ t.high_price
    → (t.low_price ≤ℤ clamp t price) × (clamp t price ≤ℤ t.high_price)
unfolding clamp
clamp_bounds t price h = ground arith

-- A price beyond a boundary counts as the boundary, and one inside counts as itself.
pub clamp_cases :
    (t : Terms) (price : ℤ)
    → t.low_price <ℤ t.high_price
    → (price ≤ℤ t.low_price → clamp t price ≡ t.low_price)
      × (t.high_price ≤ℤ price → clamp t price ≡ t.high_price)
      × (t.low_price ≤ℤ price → price ≤ℤ t.high_price → clamp t price ≡ price)
unfolding clamp
clamp_cases t price h = (λ p. ground arith, λ p. ground arith, λ p q. ground arith)

pub clamp_mono : (t : Terms) (p q : ℤ) → p ≤ℤ q → clamp t p ≤ℤ clamp t q
unfolding clamp
clamp_mono t p q h = ground arith

-- The payout rule over the integers, with no wrap-around: what the short is owed at a price.
unfoldable pub short_owed : Terms → ℤ → ℤ
short_owed t price =
    min_ℤ (max_ℤ (t.nominal /ℤ clamp t price -ℤ t.leverage) (pos dust)) (t.payout_sats -ℤ pos dust)

pub div_le : (a b : ℕ) → a / b ≤ a
div_le a b = grind arith

-- Over valid terms the quotient of the rule is a natural number not above the nominal.
pub quotient_bounds : (n c : ℤ) → pos 0 <ℤ n → pos 0 <ℤ c → (pos 0 ≤ℤ n /ℤ c) × (n /ℤ c ≤ℤ n)
unfolding ◌/ℤ◌
quotient_bounds (pos n) (pos c) hn hc = omega (arith, div_le n c)
quotient_bounds (pos n) (negsuc c) hn hc = absurd (omega arith)
quotient_bounds (negsuc n) c hn hc = absurd (omega arith)

pub IsInt64-sub :
    (q n l : ℤ) → pos 0 ≤ℤ q → q ≤ℤ n → IsInt64 n → pos 0 ≤ℤ l → IsInt64 l → IsInt64 (q -ℤ l)
unfolding ◌-ℤ◌
IsInt64-sub q n l hq hn fn hl fl = ground arith

leb_ℤ-false : (a b : ℤ) → b <ℤ a → leb_ℤ a b ≡ false
leb_ℤ-false a b h = ground arith

leb_ℤ-true : (a b : ℤ) → a ≤ℤ b → leb_ℤ a b ≡ true
leb_ℤ-true a b h = ground arith

fits-between : (p s : ℤ) → IsInt64 p → pos 0 ≤ℤ s → s ≤ℤ p → IsInt64 s
fits-between p s f lo hi = ground arith

-- Where nothing wraps, the rule's arithmetic is that of the integers.
module _ (t : Terms) (v : IsValid t) (f : FitsInt64 t) where
  pub clamp_pos : (price : ℤ) → pos 0 <ℤ clamp t price
  clamp_pos price = omega (arith, clamp_bounds t price v.low_lt_high, v.low_pos)

  raw_exact :
      (price : ℤ)
      → sub64 (t.nominal /ℤ clamp t price) t.leverage ≡ t.nominal /ℤ clamp t price -ℤ t.leverage
  raw_exact price =
      let (lo, hi) = quotient_bounds t.nominal (clamp t price) v.nominal_pos (clamp_pos price) in
      sub64_exact _ _ (IsInt64-sub _ _ _ lo hi f.nominal_fits v.leverage_nonneg f.leverage_fits)

  pub cap_exact : sub64 t.payout_sats (pos dust) ≡ t.payout_sats -ℤ pos dust
  cap_exact = sub64_exact _ _ (
      IsInt64-sub _ _ (pos dust) (omega (arith, v.payout_covers)) (omega arith) f.payout_fits
        (omega arith) (omega arith))

  -- Both sides are owed at least dust, and together exactly the payout.
  pub short_owed_bounds :
      (price : ℤ)
      → (pos dust ≤ℤ short_owed t price) × (short_owed t price ≤ℤ t.payout_sats -ℤ pos dust)
  unfolding short_owed
  short_owed_bounds price =
      let cover = v.payout_covers in
      let q = t.nominal /ℤ clamp t price -ℤ t.leverage in
      ground (arith, -ℤ_parts t.payout_sats (pos dust))

  rest_exact :
      (price : ℤ) → sub64 t.payout_sats (short_owed t price) ≡ t.payout_sats -ℤ short_owed t price
  rest_exact price =
      let (lo, hi) = short_owed_bounds price in
      let cover = v.payout_covers in
      sub64_exact _ _ (
        IsInt64-sub _ _ _ (omega arith) (omega arith) f.payout_fits (omega arith) (
          fits-between t.payout_sats (short_owed t price) f.payout_fits (omega arith)
            (omega (arith, -ℤ_parts t.payout_sats (pos dust)))))

  -- Over valid terms and a positive price the rule returns, and what it returns is the formula
  -- over the unbounded integers: no step of its `int64` arithmetic wraps.
  pub settlement_split-exact :
      (price : ℤ)
      → pos 0 <ℤ price
      → settlement_split t price ≡ ok (short_owed t price, t.payout_sats -ℤ short_owed t price)
  unfolding settlement_split short_owed
  settlement_split-exact price h = rw (
    (validate-eq-none_iff t).1 v,
    leb_ℤ-false price (pos 0) h,
    raw_exact price,
    cap_exact,
    rest_exact price,
  )

accepted : (t : Terms) (price : ℤ) {r : ℤ × ℤ} → settlement_split t price ≡ ok r → IsValid t
unfolding settlement_split
accepted t price e = elim (Option-cases (validate t)) [
  | inl h ↦ (validate-eq-none_iff t).0 h
  | inr (x, h) ↦ absurd (ground arith)
]

price_accepted :
    (t : Terms) (price : ℤ) {r : ℤ × ℤ} → settlement_split t price ≡ ok r → pos 0 <ℤ price
unfolding settlement_split
price_accepted t price e = elim (Option-cases (validate t)) [
  | inl h ↦ elim (Bool-cases (leb_ℤ price (pos 0))) [
    | inl b ↦ absurd (ground arith)
    | inr b ↦ ground arith
  ]
  | inr (x, h) ↦ absurd (ground arith)
]

-- A result of the rule shows that the terms and the price were accepted, and is the formula's.
pub settlement_split-eq-ok :
    (t : Terms) (price : ℤ) {s l : ℤ}
    → FitsInt64 t
    → settlement_split t price ≡ ok (s, l)
    → IsValid t
      × (pos 0 <ℤ price)
      × (s ≡ short_owed t price)
      × (l ≡ t.payout_sats -ℤ short_owed t price)
settlement_split-eq-ok t price f e =
    let v = accepted t price e in
    let h = price_accepted t price e in
    let r = settlement_split-exact t v f price h in (v, h, cc, cc)
