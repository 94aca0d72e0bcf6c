-- ===== src/UseCases/Stakes.antt =====
-- What accepting a position settles: who, at which price, for how much, and where
-- (service/internal/app/contracts.go, `Accept`).
use hedge_arkade.Common.{Bytes, ok, ℕ, ◌≡◌, refl, sym, true, Option, none, some}
use hedge_arkade.Common.Int.{ℤ, pos, ◌+ℤ◌, ◌≤ℤ◌}
use std.Path.{subst}
use hedge_arkade.Contract.Terms.{settlement_split, FitsInt64, dust}
use hedge_arkade.Contract.Payout.{split_conserves}
use hedge_arkade.Contract.Vtxo.{Contract as Covenant}
use hedge_arkade.Domain.State.{State}
use hedge_arkade.Domain.Records.{
  Contract, Side, short, long, other, Price, side_of, is_nil, split, covenant, user_on,
}
use hedge_arkade.Store.Rows.{Store, find_contract, get_contract}
use hedge_arkade.Store.Advance.{Keyed, advance-eq-ok}
use hedge_arkade.UseCases.Ports.{Ports}
use hedge_arkade.UseCases.Action.{answer, get, in_state}
use hedge_arkade.UseCases.Opening.{seat, staked, address_of}
use hedge_arkade.UseCases.Opening as Opening
use hedge_arkade.UseCases.Steps.{read-done, each-done, past-done, moved-done}
use hedge_arkade.UseCases.Answers.{
  mapped-eq-ok, get_contract-done, in_state-done, required, answer-eq-ok,
}

-- An accepted position: the other side is the acceptor's, the stakes are what the covenant would
-- pay at the price of the moment, and the address is the covenant's own.
abbrev pub Accepted : Ports → ℕ → Contract → Contract → Type 0
Accepted ports who row c =
    (price : Price) × (cov : Covenant) × (ports.feed_latest ≡ some price)
    × (user_on c (other row.creator) ≡ some who)
    × (settlement_split c.terms price.price ≡ ok (c.short_stake, c.long_stake))
    × (covenant ports.parse_pub_key c ≡ ok cov)
    × (address_of ports cov ≡ ok c.pk_script)
    × (c.state ≡ State.accepted)

-- the contract that `Accept` moves
abbrev taken : Contract → ℕ → Bytes → Bytes → ℤ × ℤ → Bytes → Contract
taken row who key script owed pk_script =
    record (staked (seat (other row.creator) who key script row) owed) {
      pk_script = pk_script;
      state = State.accepted;
    }

seated :
    (side : Side) (who : ℕ) (key script : Bytes) (owed : ℤ × ℤ) (pk_script : Bytes) (c : Contract)
    → user_on
        (record (staked (seat side who key script c) owed) {
          pk_script = pk_script;
          state = State.accepted;
        })
        side
      ≡ some who
unfolding user_on seat staked
seated short who key script owed pk_script c = refl
seated long who key script owed pk_script c = refl

taken-Accepted :
    (ports : Ports) (who : ℕ) (row : Contract) (price : Price) (key script : Bytes) (owed : ℤ × ℤ)
    (cov : Covenant) (pk_script : Bytes)
    → ports.feed_latest ≡ some price
    → split (seat (other row.creator) who key script row) price.price ≡ ok owed
    → covenant ports.parse_pub_key (staked (seat (other row.creator) who key script row) owed)
      ≡ ok cov
    → address_of ports cov ≡ ok pk_script
    → Accepted ports who row (taken row who key script owed pk_script)
unfolding split staked covenant
taken-Accepted ports who row price key script owed cov pk_script ep eo ev ea = (
  price,
  cov,
  ep,
  seated (other row.creator) who key script owed pk_script row,
  mapped-eq-ok _ eo,
  ev,
  ea,
  refl,
)

nobody : (o : Option Side) → is_nil o ≡ true → o ≡ none
unfolding is_nil
nobody none h = refl
nobody (some s) h = absurd (cc)

pub accept_sound :
    (ports : Ports) (id who : ℕ) (st : Store) (c : Contract) (st' : Store)
    → Keyed st.contracts
    → Opening.accept ports id who st ≡ (ok c, st')
    → (row : Contract) × (find_contract id st.contracts ≡ some row)
      × (row.state ≡ State.proposed)
      × (side_of row who ≡ none)
      × Accepted ports who row c
unfolding Opening.accept get
accept_sound ports id who st c st' k h =
    let (row, er, h1) = read-done st (get_contract id) _ h in
    let (es, h2) = past-done st (in_state State.proposed row) _ h1 in
    let (en, h3) = past-done st _ _ h2 in
    let (price, ep, h4) = each-done st (answer ports.feed_latest) _ h3 in
    let (key, ek, h5) = each-done st (answer (ports.public_key who)) _ h4 in
    let (script, ec, h6) = each-done st (answer (ports.vtxo_pk_script who)) _ h5 in
    let seated_row = seat (other row.creator) who key script row in
    let (owed, eo, h7) = each-done st (split seated_row price.price) _ h6 in
    let (cov, ev, h8) = each-done st (covenant ports.parse_pub_key (staked seated_row owed)) _ h7 in
    let (_, h9) = past-done st _ _ h8 in
    let (pk_script, ea, h10) = each-done st (address_of ports cov) _ h9 in
    let final =
      moved-done ports.db_now (record (staked seated_row owed) { pk_script = pk_script })
        State.accepted st h10 in
    let (_, _, _, _, em, _) = advance-eq-ok ports.db_now _ State.accepted st c st' k final in
    (
      row,
      get_contract-done id st row er,
      in_state-done State.proposed row es,
      nobody _ (required _ _ en),
      subst (Accepted ports who row) (sym em) (
          taken-Accepted ports who row price key script owed cov pk_script (answer-eq-ok _ ep) eo ev
            ea),
    )

-- Where the terms fit in `int64`, the two stakes of an accepted position make up the payout, with at
-- least dust on each side.
pub accept_conserves :
    (ports : Ports) (id who : ℕ) (st : Store) (c : Contract) (st' : Store)
    → Keyed st.contracts
    → FitsInt64 c.terms
    → Opening.accept ports id who st ≡ (ok c, st')
    → (pos dust ≤ℤ c.short_stake)
      × (pos dust ≤ℤ c.long_stake)
      × (c.short_stake +ℤ c.long_stake ≡ c.terms.payout_sats)
accept_conserves ports id who st c st' k fits h =
    let (row, _, _, _, (price, cov, _, _, es, _, _, _)) = accept_sound ports id who st c st' k h in
    split_conserves c.terms price.price fits es
