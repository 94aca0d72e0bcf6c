-- ===== src/UseCases/Kept.antt =====
-- The use cases that leave no way out of Arkade (service/internal/app/contracts.go, funding.go,
-- settlement.go, redemption.go) on a sound store.
use hedge_arkade.Common.{
  Option-cases, Bytes, ok, Result-cases, ℕ, ◌≡◌, refl, sym, ◌⊎◌, inl, inr, Option, none, arith,
}
use hedge_arkade.Common.Int.{ℤ}
use std.Path.{subst}
use hedge_arkade.Domain.State.{State}
use hedge_arkade.Domain.Records.{Contract, ExitPackage, Arbitration, Redemption, Side}
use hedge_arkade.UseCases.Closing.{with_proposal}
use hedge_arkade.Store.Rows.{put, Store, advance, save, create, for_contract, put_exit}
use hedge_arkade.UseCases.Funding.{fund, finish_funding, record_funding, presign_exit}
use hedge_arkade.UseCases.Settling.{settle, finish_settling}
use hedge_arkade.UseCases.Opening.{accept, propose, proposed_contract, created_row, seat, Proposal}
use hedge_arkade.UseCases.Ports.{Ports}
use hedge_arkade.UseCases.Action.{change, move_to, save_row, save_reply}
use hedge_arkade.UseCases.Keeps.{
  Keeps, keeps_rules, Keeps-bind, Keeps-attempt, Keeps-get, Keeps-each, Keeps-past, Keeps-return,
}
use hedge_arkade.UseCases.Backed.{
  IsSound, Entry, advance-IsSound, save-IsSound, redemptions-IsSound, create-IsSound,
}
use hedge_arkade.UseCases.Sound.{put_exit-IsSound, Replaces}
use hedge_arkade.UseCases.Offering.{offer_close}
use hedge_arkade.UseCases.Opening.{created_row, seat, propose, accept, proposed_contract, Proposal}
use hedge_arkade.UseCases.Funding.{presign_exit, record_funding, finish_funding, fund}
use hedge_arkade.UseCases.Closing.{with_proposal}
use hedge_arkade.UseCases.Packages.{exit_package}

pub Keeps-move_to :
    (now : ℤ) (c : Contract) (to : State)
    → ((pkg : Option ExitPackage) (a : Option Arbitration) → Entry to c.state pkg a)
    → Keeps IsSound (move_to now c to)
unfolding move_to
Keeps-move_to now c to entry =
    Keeps-attempt (advance now c to)
      (λ st moved st' i h. advance-IsSound now c to st moved st' i (λ _. entry _ _) h)

saved_row :
    (now : ℤ) (c : Contract) (st : Store) (u : Unit {0}) (st' : Store)
    → save_reply (save now c st) ≡ ok (u, st')
    → save now c st ≡ ok st'
saved_row now c st u st' h = elim (Result-cases (save now c st)) [
  | inl (e, refused) ↦ absurd (ground (arith, refused, h))
  | inr (s, done) ↦ ground (arith, done, h)
]

pub Keeps-save_row : (now : ℤ) (c : Contract) → Keeps IsSound (save_row now c)
unfolding save_row
Keeps-save_row now c =
    Keeps-attempt _ (λ st u st' i h. save-IsSound now c st st' i (saved_row now c st u st' h))

Keeps-with_proposal : (id : ℕ) (r : Redemption) → Keeps IsSound (change (with_proposal id r))
unfolding change
Keeps-with_proposal id r = record {
  at = λ st i. redemptions-IsSound st (put id r st.redemptions) i;
}

pub fund-IsSound : (ports : Ports) (id who : ℕ) → Keeps IsSound (fund ports id who)
unfolding fund
fund-IsSound ports id who = search (keeps_rules, Keeps-move_to) depth 30

pub settle-IsSound : (ports : Ports) (id : ℕ) → Keeps IsSound (settle ports id)
unfolding settle
settle-IsSound ports id = search (keeps_rules, Keeps-move_to) depth 30

pub finish_settling-IsSound :
    (ports : Ports) (c : Contract) → Keeps IsSound (finish_settling ports c)
unfolding finish_settling
finish_settling-IsSound ports c = search (keeps_rules, Keeps-move_to) depth 30

pub accept-IsSound : (ports : Ports) (id who : ℕ) → Keeps IsSound (accept ports id who)
unfolding accept
accept-IsSound ports id who = Keeps-bind _ _ (Keeps-get id) λ c. Keeps-past _ _ (
    Keeps-past _ _ (
      Keeps-each _ _ λ price. Keeps-each _ _ λ key. Keeps-each _ _ λ script. Keeps-each _ _ λ owed.
        Keeps-each _ _ λ cov.
          Keeps-past _ _
            (Keeps-each _ _ λ pk_script. Keeps-move_to _ _ State.accepted (λ pkg a. tt))))

pub offer_close-IsSound :
    (ports : Ports) (id who : ℕ) (wanted : ℤ × ℤ) → Keeps IsSound (offer_close ports id who wanted)
unfolding offer_close
offer_close-IsSound ports id who wanted =
    search (keeps_rules, Keeps-move_to, Keeps-with_proposal) depth 30

created_IsSound :
    (c : Contract) (st : Store) (m : Contract) (st' : Store)
    → c.state ≡ State.proposed
    → IsSound st
    → created_row c st ≡ ok (m, st')
    → IsSound st'
created_IsSound c st m st' fresh i h = elim (Result-cases (create c st)) [
  | inl (e, refused) ↦ absurd (ground (arith, refused, h))
  | inr (s, made) ↦ create-IsSound c st st' i fresh (ground (arith, made, h))
]

seat-state :
    (side : Side) (user : ℕ) (key script : Bytes) (c : Contract)
    → (seat side user key script c).state ≡ c.state
unfolding seat
seat-state Side.short user key script c = refl
seat-state Side.long user key script c = refl

pub propose-IsSound : (ports : Ports) (p : Proposal) → Keeps IsSound (propose ports p)
unfolding propose proposed_contract
propose-IsSound ports p = Keeps-each _ _ λ side. Keeps-each _ _ λ oracle_pub_key.
    Keeps-each _ _ λ price. Keeps-past _ _ (
      Keeps-each _ _ λ key. Keeps-each _ _ λ script.
        Keeps-attempt _
          (λ st m st' i h. created_IsSound _ st m st' (seat-state side p.creator key script _) i h))

no_package :
    (st : Store) (id : ℕ) (pkg : ExitPackage)
    → for_contract id st.exits ≡ none
    → Replaces (for_contract id st.exits) pkg
no_package st id pkg e = rw e tt

presigned :
    (ports : Ports) (c : Contract) (st : Store)
    → ((presign_exit ports c st).1 ≡ st)
      ⊎ ((pkg : ExitPackage) × (for_contract c.id st.exits ≡ none)
          × ((presign_exit ports c st).1 ≡ record st { exits = put_exit c.id pkg st.exits }))
unfolding presign_exit
presigned ports c st = elim (Option-cases (for_contract c.id st.exits)) [
  | inl missing ↦ elim (Result-cases (exit_package ports c)) [
    | inl (e, refused) ↦ inl (ground (arith, missing, refused))
    | inr (pkg, built) ↦ inr (pkg, missing, ground (arith, missing, built))
  ]
  | inr (pkg, there) ↦ inl (ground (arith, there))
]

presign_exit-IsSound : (ports : Ports) (c : Contract) → Keeps IsSound (presign_exit ports c)
presign_exit-IsSound ports c = record {
  at = λ st i. elim (presigned ports c st) [
    | inl e ↦ subst IsSound (sym e) i
    | inr (pkg, missing, e) ↦
        subst IsSound (sym e) (put_exit-IsSound st c.id pkg i (no_package st c.id pkg missing))
  ];
}

record_funding-IsSound : (ports : Ports) (c : Contract) → Keeps IsSound (record_funding ports c)
unfolding record_funding
record_funding-IsSound ports c = elim (Option-cases c.funding) [
  | inl missing ↦
      rw missing (Keeps-each _ _ λ o. Keeps-bind _ _ (Keeps-save_row _ _) λ u. Keeps-return _)
  | inr (o, there) ↦ rw there (Keeps-return _)
]

pub finish_funding-IsSound : (ports : Ports) (c : Contract) → Keeps IsSound (finish_funding ports c)
unfolding finish_funding
finish_funding-IsSound ports c =
    search (keeps_rules, Keeps-move_to, presign_exit-IsSound, record_funding-IsSound) depth 30
