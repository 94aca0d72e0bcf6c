-- ===== src/UseCases/Proposal.antt =====
-- What a party checks before it signs an early close (service/internal/app/redemption.go,
-- `verifyRedemption` with `checkSplit`).
use hedge_arkade.Common.{
  ok, >>=-eq-ok, Result-cases, ◌≡◌, ap, ◌∙◌, inl, inr, arith, false, ◌⊎◌, Bool-cases,
}
use hedge_arkade.Common.Int.{◌≤ℤ◌, ==ℤ_iff, add64}
use hedge_arkade.Contract.Arbitration.{contract_price}
use hedge_arkade.Contract.Vtxo.{Contract as Covenant}
use hedge_arkade.Domain.Records.{Contract, Redemption, split, covenant, from_oracle}
use hedge_arkade.UseCases.Ports.{Ports}
use hedge_arkade.UseCases.Closing.{check_proposed_split, check_evidence, verify_proposal}

-- The evidence of a proposal that names a price: the price is the signed one, and the split is the
-- covenant's at it.
abbrev pub Priced : Ports → Contract → Redemption → Type 0
Priced ports c r =
    (cov : Covenant) × (covenant ports.parse_pub_key c ≡ ok cov)
    × (contract_price ports.library cov r.message r.signature ≡ ok r.price)
    × (split c r.price ≡ ok (r.short_sats, r.long_sats))

check_evidence-eq-ok :
    (ports : Ports) (c : Contract) (r : Redemption)
    → check_evidence ports c r ≡ ok tt
    → Priced ports c r
unfolding check_evidence
check_evidence-eq-ok ports c r h =
    let (cov, ec, h1) = >>=-eq-ok (covenant ports.parse_pub_key c) _ h in
    elim (Result-cases (contract_price ports.library cov r.message r.signature)) [
      | inl (e, bad) ↦ absurd (ground arith)
      | inr (price, ep) ↦ elim (Result-cases (split c price)) [
        | inl (e, bad) ↦ absurd (ground arith)
        | inr (owed, es) ↦
            let same : price ≡ r.price = ground (arith, ==ℤ_iff price r.price) in
            let first : owed.0 ≡ r.short_sats = ground (arith, ==ℤ_iff owed.0 r.short_sats) in
            let second : owed.1 ≡ r.long_sats = ground (arith, ==ℤ_iff owed.1 r.long_sats) in
            (cov, ec, ep ∙ ap ok same, cc)
      ]
    ]

-- What `verifyRedemption` lets a party sign: the two amounts make up the payout, as `int64` adds
-- them, and clear the operator's dust; and where the proposal carries a signature its price and its
-- split are those of the oracle's message.
verify_proposal_sound :
    (ports : Ports) (c : Contract) (r : Redemption)
    → verify_proposal ports c r ≡ ok tt
    → (add64 r.short_sats r.long_sats ≡ c.terms.payout_sats)
      × (ports.stack_dust ≤ℤ r.short_sats)
      × (ports.stack_dust ≤ℤ r.long_sats)
      × ((from_oracle r ≡ false) ⊎ Priced ports c r)
unfolding verify_proposal check_proposed_split
verify_proposal_sound ports c r h =
    let sum = add64 r.short_sats r.long_sats in
    (
      ground (arith, ==ℤ_iff sum c.terms.payout_sats),
      ground arith,
      ground arith,
      elim (Bool-cases (from_oracle r)) [
        | inl priced ↦ inr (check_evidence-eq-ok ports c r (ground arith))
        | inr bare ↦ inl bare
      ],
    )
