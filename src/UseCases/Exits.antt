-- ===== src/UseCases/Exits.antt =====
-- `Exit`, `finishExiting` and `Arbitrate` (service/internal/app/exit.go) on a sound store: what each
-- has checked or written before it moves the contract.
use hedge_arkade.Common.{
  ==_iff, Bool-cases, Option-cases, ok, err, Result-cases, ℕ, ◌≡◌, refl, sym, ◌⊎◌, inl, inr, true,
  false, Option, some, List, arith,
}
use hedge_arkade.Common.Int.{ℤ}
use std.Path.{subst}
use hedge_arkade.Domain.State.{State}
use hedge_arkade.Domain.Records.{
  Outpoint, failed_call, Contract, ExitPackage, Arbitration, AppError, complete, on_chain, is_nil,
  Outpoint, failed_call,
}
use hedge_arkade.Store.Rows.{Store, get_contract, advance, for_contract, put_exit, put_arbitration}
use hedge_arkade.Store.History.{find-same_id}
use hedge_arkade.UseCases.Ports.{Ports}
use hedge_arkade.UseCases.Action.{
  and_then, ◌>>=◌, ◌>>◌, return, lift, change, attempt, move_to, get,
}
use hedge_arkade.UseCases.Keeps.{
  Keeps-return, Leaves, Leaves-read, Leaves-each, Leaves-change, Leaves-last, Leaves-then,
  Leaves-stop,
}
use hedge_arkade.UseCases.Backed.{Backed, backed, IsSound, Entry, usable, advance-IsSound}
use hedge_arkade.UseCases.Sound.{for_contract-upsert, put_exit-IsSound, put_arbitration-IsSound}
use hedge_arkade.UseCases.Leaving.{
  get_exit, store_exit, store_arbitration, exit_contract, land, finish_exiting, arbitrate_contract,
}
use hedge_arkade.UseCases.Answers.{get_contract-done, found_row, required}

-- one step from a store that meets its entry condition
moved-IsSound :
    (now : ℤ) (c : Contract) (to : State) (st : Store)
    → IsSound st
    → (Backed st c.id (some c.state)
        → Entry to c.state (for_contract c.id st.exits) (for_contract c.id st.arbitrations))
    → Leaves IsSound st (move_to now c to)
unfolding move_to attempt
moved-IsSound now c to st i entry = record {
  at = elim (Result-cases (advance now c to st)) [
    | inl (e, refused) ↦ rw refused i
    | inr ((moved, st'), h) ↦ rw h (advance-IsSound now c to st moved st' i entry h)
  ];
}

got_id : (id : ℕ) (st : Store) (c : Contract) → get_contract id st ≡ ok c → c.id ≡ id
got_id id st c h = find-same_id id st.contracts c (get_contract-done id st c h)

usable_of :
    (st : Store) (id id' : ℕ) (pkg : ExitPackage)
    → id' ≡ id
    → for_contract id st.exits ≡ some pkg
    → complete pkg ≡ true
    → usable (for_contract id' st.exits) ≡ true
usable_of st id id' pkg same found full = rw (same, found) full

pub exit_contract-IsSound :
    (ports : Ports) (id who : ℕ) (st : Store)
    → IsSound st
    → Leaves IsSound st (exit_contract ports id who)
unfolding exit_contract get get_exit ◌>>◌
exit_contract-IsSound ports id who st i = Leaves-read st i _ _ λ c got.
    Leaves-each st i _ _ λ side mine. Leaves-each st i _ _ λ u live.
      Leaves-read st i _ _ λ pkg stored. Leaves-each st i _ _ λ v full.
        moved-IsSound ports.db_now c State.exiting st i (λ b.
          usable_of st id c.id pkg (got_id id st c got) (found_row _ stored) (required _ _ full))

proposal_stored :
    (st : Store) (id id' : ℕ) (a : Arbitration)
    → id' ≡ id
    → is_nil (for_contract id' (put_arbitration id a st.arbitrations)) ≡ false
unfolding put_arbitration is_nil
proposal_stored st id id' a same =
    rw (for_contract-upsert _ id a id' st.arbitrations, (==_iff id id').1 (sym same)) refl

pub arbitrate_contract-IsSound :
    (ports : Ports) (id : ℕ) (st : Store)
    → IsSound st
    → Leaves IsSound st (arbitrate_contract ports id)
unfolding arbitrate_contract get get_exit store_arbitration ◌>>◌
arbitrate_contract-IsSound ports id st i = Leaves-read st i _ _ λ c got.
    Leaves-each st i _ _ λ u out. Leaves-read st i _ _ λ pkg stored.
      Leaves-each st i _ _ λ v landed. Leaves-each st i _ _ λ a made. Leaves-change st _ _ (
        Leaves-last _ _ _
          (moved-IsSound ports.db_now c State.arbitrating _ (put_arbitration-IsSound st id a i)
            (λ b. proposal_stored st id c.id a (got_id id st c got)))
          λ m. Keeps-return _)

-- what `land` does: nothing, where the exit is on the chain; else it writes where it landed, or fails
landing :
    (ports : Ports) (c : Contract) (pkg : ExitPackage) (st : Store)
    → ((on_chain pkg ≡ true) × (land ports c pkg st ≡ (ok tt, st)))
      ⊎ (((to : Outpoint × ℤ) × (land ports c pkg st ≡ (
        ok tt,
        record st {
          exits = put_exit c.id (record pkg { swept = some to.0; swept_sats = to.1 }) st.exits;
        },
      )))
          ⊎ ((e : AppError) × (land ports c pkg st ≡ (err e, st))))
unfolding land return lift ◌>>=◌ and_then store_exit change
landing ports c pkg st = elim (Bool-cases (on_chain pkg)) [
  | inl there ↦ inl (there, ground (arith, there))
  | inr not_yet ↦ elim (Option-cases (ports.leave_arkade c pkg)) [
    | inl failed ↦ inr (inr (failed_call, ground (arith, not_yet, failed)))
    | inr (to, left) ↦ inr (inl (to, ground (arith, not_yet, left)))
  ]
]

-- a package that is on the chain lets its contract out, if the contract had it complete
way_out :
    (s : State) (pkg : ExitPackage) (a : Option Arbitration)
    → on_chain pkg ≡ true
    → backed (some s) (some pkg) a ≡ true
    → Entry State.exited s (some pkg) a
way_out State.exiting pkg a there b = ground (arith, there, b)
way_out _ pkg a there b = tt

-- what is stored once `land` has written
landed_row :
    (id : ℕ) (pkg : ExitPackage) (to : Outpoint × ℤ) (m : List (ℕ × ExitPackage))
    → for_contract id m ≡ some pkg
    → for_contract id (put_exit id (record pkg { swept = some to.0; swept_sats = to.1 }) m)
      ≡ some (record pkg { swept = some to.0; swept_sats = to.1 })
unfolding put_exit
landed_row id pkg to m found =
    rw
      (
        for_contract-upsert _ id (record pkg { swept = some to.0; swept_sats = to.1 }) id m,
        (==_iff id id).1 refl,
        found,
      )
      refl

out_of :
    (now : ℤ) (c : Contract) (pkg : ExitPackage) (st : Store)
    → IsSound st
    → on_chain pkg ≡ true
    → for_contract c.id st.exits ≡ some pkg
    → Leaves IsSound st (move_to now c State.exited)
out_of now c pkg st i there found = moved-IsSound now c State.exited st i (
    subst
      (λ p.
        backed (some c.state) p (for_contract c.id st.arbitrations) ≡ true
        → Entry State.exited c.state p (for_contract c.id st.arbitrations))
      (sym found) (way_out c.state pkg (for_contract c.id st.arbitrations) there))

pub finish_exiting-IsSound :
    (ports : Ports) (c : Contract) (st : Store)
    → IsSound st
    → Leaves IsSound st (finish_exiting ports c)
unfolding finish_exiting get_exit on_chain
finish_exiting-IsSound ports c st i = Leaves-read st i _ _ λ pkg stored.
    let found = found_row _ stored in
    elim (landing ports c pkg st) [
      | inl (there, e) ↦ Leaves-then st st _ _ e (out_of ports.db_now c pkg st i there found)
      | inr (inl (to, e)) ↦ Leaves-then st _ _ _ e (
          out_of ports.db_now c _ _
            (put_exit-IsSound st c.id (record pkg { swept = some to.0; swept_sats = to.1 }) i
              (rw found refl))
            refl (landed_row c.id pkg to st.exits found))
      | inr (inr (x, e)) ↦ Leaves-stop st _ _ x e i
    ]
