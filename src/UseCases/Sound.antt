-- ===== src/UseCases/Sound.antt =====
-- Which statements of the use cases leave a sound store sound (service/internal/postgres/exits.go,
-- arbitrations.go, and the use cases of service/internal/app that take no way out of Arkade).
use hedge_arkade.Common.{
  ◌==◌, if◌then◌else◌, ==_iff, Bool-cases, ℕ, ◌≡◌, refl, sym, inl, inr, true, Option, none, some,
  List, [], ◌∷◌, arith,
}
use std.Path.{subst}
use hedge_arkade.Domain.State.{State}
use hedge_arkade.Domain.Records.{ExitPackage, Arbitration, complete, on_chain, is_nil}
use hedge_arkade.Store.Rows.{Store, for_contract, upsert, put_exit, put_arbitration}
use hedge_arkade.UseCases.Backed.{IsSound, Backed, backed, other_tables-IsValid}

-- the row of an id behind a write of another
abbrev written {ℓ} : {V : Type ℓ} → (V → V → V) → V → Option V → V
written merge v none = v
written merge v (some w) = merge w v

pub for_contract-upsert {ℓ} :
    {V : Type ℓ} (merge : V → V → V) (id : ℕ) (v : V) (id' : ℕ) (m : List (ℕ × V))
    → for_contract id' (upsert merge id v m)
      ≡ (if id == id' then some (written merge v (for_contract id m)) else for_contract id' m)
unfolding for_contract upsert
for_contract-upsert merge id v id' [] = ground arith
for_contract-upsert merge id v id' ((k, w) ∷ m) =
    ground (arith, for_contract-upsert merge id v id' m)

-- what a new package may replace: nothing, or a package that it leaves on the chain
abbrev pub Replaces : Option ExitPackage → ExitPackage → Type 0
Replaces none pkg = Unit
Replaces (some old) pkg = on_chain pkg ≡ true

package_backs :
    (s : Option State) (old : Option ExitPackage) (pkg : ExitPackage) (a : Option Arbitration)
    → Replaces old pkg
    → backed s old a ≡ true
    → backed s
        (some (written (λ w v. record w { swept = v.swept; swept_sats = v.swept_sats }) pkg old))
        a
      ≡ true
unfolding complete on_chain
package_backs (some State.exiting) (some old) pkg a r b = b
package_backs (some State.exited) (some old) pkg a r b = ground (arith, r, b)
package_backs (some State.arbitrating) (some old) pkg a r b = ground (arith, r, b)
package_backs (some State.arbitrated) (some old) pkg a r b = ground (arith, r, b)
package_backs (some State.exiting) none pkg a r b = absurd (cc)
package_backs (some State.exited) none pkg a r b = absurd (cc)
package_backs (some State.arbitrating) none pkg a r b = absurd (ground (arith, b))
package_backs (some State.arbitrated) none pkg a r b = absurd (ground (arith, b))
package_backs none old pkg a r b = refl
package_backs (some _) old pkg a r b = refl

proposal_backs :
    (s : Option State) (pkg : Option ExitPackage) (old : Option Arbitration) (a : Arbitration)
    → backed s pkg old ≡ true
    → backed s pkg (some a) ≡ true
unfolding is_nil
proposal_backs (some State.exiting) pkg old a b = b
proposal_backs (some State.exited) pkg old a b = b
proposal_backs (some State.arbitrating) pkg old a b = ground (arith, b)
proposal_backs (some State.arbitrated) pkg old a b = ground (arith, b)
proposal_backs none pkg old a b = refl
proposal_backs (some _) pkg old a b = refl

package_ready :
    (st : Store) (id : ℕ) (pkg : ExitPackage) (id' : ℕ) (s : Option State)
    → Replaces (for_contract id st.exits) pkg
    → Backed st id' s
    → Backed (record st { exits = put_exit id pkg st.exits }) id' s
unfolding put_exit
package_ready st id pkg id' s r b = elim (Bool-cases (id == id')) [
  | inl same ↦
      rw
        (
          for_contract-upsert (λ w v. record w { swept = v.swept; swept_sats = v.swept_sats }) id
              pkg id' st.exits,
          same,
        )
        (package_backs s (for_contract id st.exits) pkg (for_contract id' st.arbitrations) r (
          subst (λ k. backed s (for_contract k st.exits) (for_contract id' st.arbitrations) ≡ true)
            (sym ((==_iff id id').0 same)) b))
  | inr other ↦
      rw
        (
          for_contract-upsert (λ w v. record w { swept = v.swept; swept_sats = v.swept_sats }) id
              pkg id' st.exits,
          other,
        )
        b
]

proposal_ready :
    (st : Store) (id : ℕ) (a : Arbitration) (id' : ℕ) (s : Option State)
    → Backed st id' s
    → Backed (record st { arbitrations = put_arbitration id a st.arbitrations }) id' s
unfolding put_arbitration
proposal_ready st id a id' s b = elim (Bool-cases (id == id')) [
  | inl same ↦
      rw
        (
          for_contract-upsert (λ w v. record w { signatures = v.signatures; txid = v.txid }) id a
              id' st.arbitrations,
          same,
        )
        (proposal_backs s (for_contract id' st.exits) (for_contract id' st.arbitrations) _ b)
  | inr other ↦
      rw
        (
          for_contract-upsert (λ w v. record w { signatures = v.signatures; txid = v.txid }) id a
              id' st.arbitrations,
          other,
        )
        b
]

pub put_exit-IsSound :
    (st : Store) (id : ℕ) (pkg : ExitPackage)
    → IsSound st
    → Replaces (for_contract id st.exits) pkg
    → IsSound (record st { exits = put_exit id pkg st.exits })
put_exit-IsSound st id pkg i r = record {
  valid = other_tables-IsValid st st.redemptions _ st.arbitrations i.valid;
  ready = λ k. package_ready st id pkg k _ r (i.ready k);
}

pub put_arbitration-IsSound :
    (st : Store) (id : ℕ) (a : Arbitration)
    → IsSound st
    → IsSound (record st { arbitrations = put_arbitration id a st.arbitrations })
put_arbitration-IsSound st id a i = record {
  valid = other_tables-IsValid st st.redemptions st.exits _ i.valid;
  ready = λ k. proposal_ready st id a k _ (i.ready k);
}
