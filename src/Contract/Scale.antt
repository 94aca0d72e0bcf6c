-- ===== src/Contract/Scale.antt =====
-- Sharing out what the 2-of-3 holds (contract/arbitration.go, `scaleToAvailable`), in `int64`
-- arithmetic, and what it promises.
use hedge_arkade.Common.{
  ltb, if◌then◌else◌, Bool-cases, ◌>>◌, ℕ, ◌+◌, ◌-◌, ◌*◌, ◌/◌, ◌≤◌, ◌<◌, ◌≡◌, ◌⊎◌, inl, inr, false,
  arith, fail_if, ok,
}
use hedge_arkade.Common.Int.{
  ℤ, pos, negsuc, ◌+ℤ◌, ◌-ℤ◌, ◌*ℤ◌, ◌/ℤ◌, ◌≤ℤ◌, ltb_ℤ, max_ℤ, min_ℤ, int64_min_abs, uint64_mod,
  IsInt64, sub64, mul64,
}
use native.Mathlib.Nat.{mul-le-mul_left, mul-le-mul_right, div-le_of_le-mul, le-div_iff_mul-le}
use hedge_arkade.Contract.Errors
use hedge_arkade.Contract.Terms.{dust}

-- `scaleToAvailable`; its second argument, what the long was owed, is not read. What was owed is
-- the payout, which is positive behind `validate`, where Go would panic on a zero.
unfoldable pub scale_to_available : ℤ → ℤ → ℤ → ℤ → Errors.Outcome (ℤ × ℤ)
scale_to_available short long owed payable = do
  fail_if (ltb_ℤ payable (pos (2 * dust))) Errors.cannot_cover_dust
  let scaled = mul64 short payable /ℤ owed
  let floored = max_ℤ scaled (pos dust)
  let final = min_ℤ floored (sub64 payable (pos dust))
  ok (final, sub64 payable final)

-- The short's share of the payable amount, over the naturals.
unfoldable pub fair_share : ℕ → ℕ → ℕ → ℕ
fair_share short owed payable =
    let scaled = short * payable / owed in
    let floored = if ltb scaled dust then dust else scaled in
    if ltb (payable - dust) floored then payable - dust else floored

sub64-pos : (a b : ℕ) → b ≤ a → a < int64_min_abs → sub64 (pos a) (pos b) ≡ pos (a - b)
unfolding sub64 ◌-ℤ◌
sub64-pos a b h f = ground arith

pub mul64-pos : (a b : ℕ) → a * b < int64_min_abs → mul64 (pos a) (pos b) ≡ pos (a * b)
unfolding mul64 ◌*ℤ◌
mul64-pos a b h = ground arith

-- A product between 2 ^ 63 and 2 ^ 64 wraps to a negative number.
mul64-wraps :
    (a b : ℕ)
    → int64_min_abs ≤ a * b
    → a * b < uint64_mod
    → mul64 (pos a) (pos b) ≡ negsuc (uint64_mod - 1 - a * b)
unfolding mul64 ◌*ℤ◌
mul64-wraps a b lo hi = ground arith

fair_share_bounds :
    (short owed payable : ℕ)
    → 2 * dust ≤ payable
    → (dust ≤ fair_share short owed payable) × (fair_share short owed payable + dust ≤ payable)
unfolding fair_share
fair_share_bounds short owed payable h = ground arith

-- the floor and the cap, on naturals
capped :
    (k payable : ℕ)
    → min_ℤ (max_ℤ (pos k) (pos dust)) (pos (payable - dust))
      ≡ pos (
          let floored = if ltb k dust then dust else k in
          if ltb (payable - dust) floored then payable - dust else floored)
capped k payable = ground arith

covers : (payable : ℕ) → 2 * dust ≤ payable → ltb_ℤ (pos payable) (pos (2 * dust)) ≡ false
covers payable h = ground arith

-- Where the product fits in 63 bits and the payable amount covers two dust outputs, the share is
-- the proportional one, floored and capped at dust for each side, and the rest goes to the long.
pub scale_exact :
    (short owed payable : ℕ) (long : ℤ)
    → short * payable < int64_min_abs
    → 2 * dust ≤ payable
    → payable < int64_min_abs
    → scale_to_available (pos short) long (pos owed) (pos payable)
      ≡ ok (pos (fair_share short owed payable), pos (payable - fair_share short owed payable))
unfolding scale_to_available fair_share ◌/ℤ◌
scale_exact short owed payable long fits cover small =
    let (_, room) = fair_share_bounds short owed payable cover in
    rw (
      covers payable cover,
      mul64-pos short payable fits,
      sub64-pos payable dust (omega arith) small,
      capped (short * payable / owed) payable,
      sub64-pos payable (fair_share short owed payable) (omega arith) small,
    )

share_of :
    (z : ℤ) (n : ℕ)
    → 2 * dust ≤ n
    → (k : ℕ) × (min_ℤ (max_ℤ z (pos dust)) (pos (n - dust)) ≡ pos k) × (dust ≤ k) × (k + dust ≤ n)
share_of (pos z) n h =
    let floored = if ltb z dust then dust else z in
    (if ltb (n - dust) floored then n - dust else floored, ground arith, ground arith, ground arith)
share_of (negsuc z) n h = (dust, ground arith, omega arith, omega arith)

-- A result over a payable amount in `int64` shares it out whole, with at least dust on each side,
-- also where the product wraps.
pub scale_conserves :
    (short long owed : ℤ) (payable : ℤ) {s l : ℤ}
    → IsInt64 payable
    → scale_to_available short long owed payable ≡ ok (s, l)
    → (pos dust ≤ℤ s) × (pos dust ≤ℤ l) × (s +ℤ l ≡ payable)
unfolding scale_to_available ◌+ℤ◌
scale_conserves short long owed (negsuc n) f e = absurd (ground arith)
scale_conserves short long owed (pos n) f e = elim (Bool-cases (ltb_ℤ (pos n) (pos (2 * dust)))) [
  | inl bad ↦ absurd (ground arith)
  | inr good ↦
      let (k, ek, lo, hi) = share_of (mul64 short (pos n) /ℤ owed) n (ground arith) in
      ground (arith, sub64-pos n dust, sub64-pos n k)
]

neg_quotient : (m owed : ℕ) → max_ℤ (negsuc m /ℤ pos owed) (pos dust) ≡ pos dust
unfolding ◌/ℤ◌
neg_quotient m owed = ground arith

dust_share : (n : ℕ) → 2 * dust ≤ n → min_ℤ (pos dust) (pos (n - dust)) ≡ pos dust
dust_share n h = ground arith

-- A product in [2 ^ 63, 2 ^ 64) wraps to a negative number, and of a payable amount that covers
-- two dust outputs the short is paid only dust, whatever it was owed.
pub scale_overflow :
    (short owed payable : ℕ) (long : ℤ)
    → int64_min_abs ≤ short * payable
    → short * payable < uint64_mod
    → 2 * dust ≤ payable
    → payable < int64_min_abs
    → scale_to_available (pos short) long (pos owed) (pos payable)
      ≡ ok (pos dust, pos (payable - dust))
unfolding scale_to_available
scale_overflow short owed payable long lo hi cover small = rw (
  covers payable cover,
  mul64-wraps short payable lo hi,
  neg_quotient (uint64_mod - 1 - short * payable) owed,
  sub64-pos payable dust (omega arith) small,
  dust_share payable cover,
  sub64-pos payable dust (omega arith) small,
)

share_le :
    (short long payable : ℕ)
    → 0 < short + long
    → payable ≤ short + long
    → short * payable / (short + long) ≤ short
share_le short long payable h le =
    div-le_of_le-mul (short + long) (omega (arith, mul-le-mul_left short le))

owed_lower :
    (short long payable d : ℕ)
    → payable ≡ long + d
    → d ≤ short
    → d * (short + long) ≤ short * payable
owed_lower short long payable d e h = rw e (omega (arith, mul-le-mul_right long h))

le_total : (a b : ℕ) → (a ≤ b) ⊎ (b ≤ a)
le_total a b = omega arith

none_left : (a b : ℕ) → a ≤ b → a - b ≡ 0
none_left a b h = omega arith

share_ge :
    (short long payable : ℕ)
    → 0 < short + long
    → payable ≤ short + long
    → payable - long ≤ short * payable / (short + long)
share_ge short long payable h le = (le-div_iff_mul-le h).1 (elim (le_total payable long) [
  | inl small ↦ rw (none_left payable long small) (omega arith)
  | inr big ↦ owed_lower short long payable (payable - long) (omega arith) (omega arith)
])

-- Where both sides were owed dust, the product fits in 63 bits, and the payable amount covers two
-- dust outputs and is at most what was owed, neither side is paid more than it was owed.
pub scale_shared :
    (short long payable : ℕ)
    → dust ≤ short
    → dust ≤ long
    → short * payable < int64_min_abs
    → 2 * dust ≤ payable
    → payable ≤ short + long
    → payable < int64_min_abs
    → (s : ℕ) × (l : ℕ) × (scale_to_available
          (pos short)
          (pos long)
          (pos (short + long))
          (pos payable)
        ≡ ok (pos s, pos l))
      × (s ≤ short)
      × (l ≤ long)
unfolding fair_share
scale_shared short long payable ds dl fits cover le small =
    let share = fair_share short (short + long) payable in
    let above = share_le short long payable (omega arith) le in
    let below = share_ge short long payable (omega arith) le in
    (
      share,
      payable - share,
      scale_exact short (short + long) payable (pos long) fits cover small,
      ground arith,
      ground arith,
    )
