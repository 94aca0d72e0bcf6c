-- ===== src/Domain/Laws.antt =====
-- What the small methods of the domain mean (service/internal/domain/contract.go, price.go).
use hedge_arkade.Common.{ℕ, ◌*◌, ◌≤◌, ◌<◌, ◌≡◌, ap, ◌≢◌, ◌↔◌, ◌⊎◌, true, none, some, arith}
use hedge_arkade.Common.Int.{ℤ, pos, ◌*ℤ◌, ◌/ℤ◌, ◌≤ℤ◌, ◌<ℤ◌, int64_min_abs, uint64_mod, mul64}
use native.Mathlib.Nat.{mul-div_left}
use hedge_arkade.Contract.Scale.{mul64-pos}
use hedge_arkade.Contract.Terms.{clamp}
use hedge_arkade.Domain.Records.{
  Contract, Side, short, long, user_on, side_of, settleable, nominal_units, hedge_value_cents,
  nominal_scale,
}

-- With the low boundary under the high one, the service asks to settle exactly when the covenant
-- would: the clamped price is a boundary or the contract matured.
pub settleable_iff :
    (c : Contract) (price timestamp : ℤ)
    → c.terms.low_price <ℤ c.terms.high_price
    → (settleable c price timestamp ≡ true) ↔ (
        (clamp c.terms price ≡ c.terms.low_price)
        ⊎ (clamp c.terms price ≡ c.terms.high_price)
        ⊎ (c.terms.maturity_timestamp ≤ℤ timestamp))
unfolding settleable clamp
settleable_iff c price timestamp h = (λ e. ground arith, λ e. ground arith)

holds : (c : Contract) (user : ℕ) (s : Side) → side_of c user ≡ some s → user_on c s ≡ some user
unfolding side_of user_on
holds c user short h = ground arith
holds c user long h = ground arith

holds_neither :
    (c : Contract) (user : ℕ) → side_of c user ≡ none → (s : Side) → user_on c s ≢ some user
unfolding side_of user_on
holds_neither c user h short e = ground arith
holds_neither c user h long e = ground arith

-- The side that `SideOf` names is one that the user holds, and it names none only to a user who
-- holds neither.
pub side_of_sound :
    (c : Contract) (user : ℕ)
    → ((s : Side) → side_of c user ≡ some s → user_on c s ≡ some user)
      × (side_of c user ≡ none → (s : Side) → user_on c s ≢ some user)
side_of_sound c user = (holds c user, holds_neither c user)

-- Scaling a hedge value and back gives it back, as long as the product fits in 63 bits.
pub hedge_value_round_trip :
    (cents : ℕ)
    → cents * nominal_scale < int64_min_abs
    → hedge_value_cents (nominal_units (pos cents)) ≡ pos cents
unfolding hedge_value_cents nominal_units ◌/ℤ◌
hedge_value_round_trip cents h =
    rw (mul64-pos cents nominal_scale h) (ap pos (mul-div_left cents (omega arith)))

-- Where the product is between 2 ^ 63 and 2 ^ 64 it wraps, and the nominal units of a hedge are
-- negative.
nominal_units_wraps :
    (cents : ℕ)
    → int64_min_abs ≤ cents * nominal_scale
    → cents * nominal_scale < uint64_mod
    → nominal_units (pos cents) <ℤ pos 0
unfolding nominal_units mul64 ◌*ℤ◌
nominal_units_wraps cents lo hi = ground arith
