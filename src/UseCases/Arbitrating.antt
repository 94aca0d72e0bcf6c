-- ===== src/UseCases/Arbitrating.antt =====
-- A party's signature on an arbitration, and what a second arbitration stores
-- (service/internal/app/exit.go: `SignArbitration`, `Arbitrate`, `finishArbitrating`;
-- service/internal/postgres/arbitrations.go: `Put`).
use hedge_arkade.Common.{==_iff, ok, ℕ, ◌≡◌, refl, ap, ◌∙◌, some, List, sym}
use std.Path.{subst}
use hedge_arkade.Domain.State.{State}
use hedge_arkade.Domain.Records.{Contract, Arbitration, ExitPackage, Side, side_of}
use hedge_arkade.Store.Rows.{Store, find_contract, get_contract, for_contract, put_arbitration}
use hedge_arkade.UseCases.Ports.{Ports}
use hedge_arkade.UseCases.Action.{return, get, in_state, party}
use hedge_arkade.UseCases.Packages.{check_arbitration, sign_proposal, proposed_arbitration}
use hedge_arkade.UseCases.Leaving.{
  get_exit, get_arbitration, store_arbitration, sign_contract_arbitration, arbitrate_contract,
}
use hedge_arkade.UseCases.Sound.{for_contract-upsert}
use hedge_arkade.UseCases.Steps.{
  read-done, each-done, past-done, change-done, step-done, advance-other_tables,
}
use hedge_arkade.UseCases.Answers.{get_contract-done, party-done, in_state-done, found_row}

-- `return`
returned :
    {A : Type 0} (a b : A) (st st' : Store) → return a st ≡ (ok b, st') → (a ≡ b) × (st ≡ st')
unfolding return
returned a b st st' h = (cc, cc)

-- Whoever's signature is stored is a party of a contract in arbitration, and the stored proposal
-- passed that party's own check before it was signed; the reply is that proposal with the
-- signature, and nothing else of the store changes.
pub sign_arbitration_checked :
    (ports : Ports) (id who : ℕ) (st : Store) (signed : Arbitration) (st' : Store)
    → sign_contract_arbitration ports id who st ≡ (ok signed, st')
    → (c : Contract) × (side : Side) × (a : Arbitration) × (find_contract id st.contracts ≡ some c)
      × (side_of c who ≡ some side)
      × (c.state ≡ State.arbitrating)
      × (for_contract id st.arbitrations ≡ some a)
      × (check_arbitration ports c a ≡ ok tt)
      × (sign_proposal ports who c a ≡ ok signed)
      × (st' ≡ record st { arbitrations = put_arbitration id signed st.arbitrations })
unfolding sign_contract_arbitration get get_arbitration store_arbitration
sign_arbitration_checked ports id who st signed st' h =
    let (c, ec, h1) = read-done st (get_contract id) _ h in
    let (side, es, h2) = each-done st (party c who) _ h1 in
    let (ei, h3) = past-done st (in_state State.arbitrating c) _ h2 in
    let (a, ea, h4) = read-done st _ _ h3 in
    let (ev, h5) = past-done st (check_arbitration ports c a) _ h4 in
    let (s, eg, h6) = each-done st (sign_proposal ports who c a) _ h5 in
    let h7 = change-done st _ _ h6 in
    let (same, stored) = returned s signed _ st' h7 in
    (
      c,
      side,
      a,
      get_contract-done id st c ec,
      party-done c who side es,
      in_state-done State.arbitrating c ei,
      found_row _ ea,
      ev,
      eg ∙ ap ok same,
      sym stored ∙ ap (λ x. record st { arbitrations = put_arbitration id x st.arbitrations }) same,
    )

-- what an existing row takes of a new proposal
stored_again :
    (id : ℕ) (old a : Arbitration) (m : List (ℕ × Arbitration))
    → for_contract id m ≡ some old
    → for_contract id (put_arbitration id a m)
      ≡ some (record old { signatures = a.signatures; txid = a.txid })
unfolding put_arbitration
stored_again id old a m found =
    rw (for_contract-upsert _ id a id m, (==_iff id id).1 refl, found) refl

-- Where a contract already has a proposal from an earlier arbitration, a new one is answered with the
-- proposal that follows from the exit and from the oracle's latest pair, but the stored one keeps its own
-- transaction, amounts, price and message, and takes only the new proposal's signatures and txid.
pub arbitrate_again :
    (ports : Ports) (id : ℕ) (st : Store) (old a : Arbitration) (st' : Store)
    → for_contract id st.arbitrations ≡ some old
    → arbitrate_contract ports id st ≡ (ok a, st')
    → ((c : Contract) × (pkg : ExitPackage) × (find_contract id st.contracts ≡ some c)
        × (for_contract id st.exits ≡ some pkg)
        × (proposed_arbitration ports c pkg ≡ ok a))
      × (for_contract id st'.arbitrations
          ≡ some (record old { signatures = a.signatures; txid = a.txid }))
unfolding arbitrate_contract get get_exit store_arbitration
arbitrate_again ports id st old a st' there h =
    let (c, ec, h1) = read-done st (get_contract id) _ h in
    let (ei, h2) = past-done st (in_state State.exited c) _ h1 in
    let (pkg, ep, h3) = read-done st _ _ h2 in
    let (el, h4) = past-done st _ _ h3 in
    let (new, en, h5) = each-done st (proposed_arbitration ports c pkg) _ h4 in
    let h6 = change-done st _ _ h5 in
    let (c', s, em, h7) = step-done ports.db_now c State.arbitrating _ _ h6 in
    let (same, there') = returned new a s st' h7 in
    let (_, _, kept) = advance-other_tables ports.db_now c State.arbitrating _ c' s em in
    (
      (c, pkg, get_contract-done id st c ec, found_row _ ep, en ∙ ap ok same),
      subst
          (λ x.
            for_contract id st'.arbitrations
            ≡ some (record old { signatures = x.signatures; txid = x.txid }))
          same
          (ap (λ x. for_contract id x.arbitrations) (sym there')
            ∙ ap (for_contract id) kept
            ∙ stored_again id old new st.arbitrations there),
    )
