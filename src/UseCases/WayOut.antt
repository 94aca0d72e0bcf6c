-- ===== src/UseCases/WayOut.antt =====
-- The way out of Arkade (service/internal/app/exit.go), the early close's two signatures and
-- rejection (redemption.go), on a sound store.
use hedge_arkade.Common.{Bool-cases, Result-cases, ℕ, inl, inr}
use hedge_arkade.Common.Int.{ℤ}
use hedge_arkade.Domain.State.{State}
use hedge_arkade.Domain.Records.{Contract, Arbitration, Redemption, signed, has_signed}
use hedge_arkade.Store.Rows.{Store, advance, for_contract}
use hedge_arkade.UseCases.Ports.{Ports}
use hedge_arkade.UseCases.Action.{change}
use hedge_arkade.UseCases.Keeps.{Keeps, keeps_rules, Keeps-ask}
use hedge_arkade.UseCases.Backed.{IsSound, Entry, advance-IsSound, redemptions-IsSound}
use hedge_arkade.UseCases.Sound.{put_arbitration-IsSound}
use hedge_arkade.UseCases.Kept.{Keeps-move_to}
use hedge_arkade.UseCases.Closing.{
  moved_or_kept, with_proposal, without_proposal, sign_redemption, reject_redemption, cancel,
  finish_redeeming, open_proposal, countersign, store_signed, own_contract, submitted,
}
use hedge_arkade.UseCases.Leaving.{
  get_arbitration, store_arbitration, sign_contract_arbitration, pay_out_signed, finish_arbitrating,
}

Keeps-store_arbitration : (id : ℕ) (a : Arbitration) → Keeps IsSound (store_arbitration id a)
unfolding store_arbitration change
Keeps-store_arbitration id a = record { at = λ st i. put_arbitration-IsSound st id a i }

Keeps-get_arbitration : (id : ℕ) → Keeps IsSound (get_arbitration id)
unfolding get_arbitration
Keeps-get_arbitration id = Keeps-ask _

pub sign_contract_arbitration-IsSound :
    (ports : Ports) (id who : ℕ) → Keeps IsSound (sign_contract_arbitration ports id who)
unfolding sign_contract_arbitration
sign_contract_arbitration-IsSound ports id who =
    search (keeps_rules, Keeps-store_arbitration, Keeps-get_arbitration) depth 30

pay_out_signed-IsSound :
    (ports : Ports) (c : Contract) (a : Arbitration) → Keeps IsSound (pay_out_signed ports c a)
unfolding pay_out_signed
pay_out_signed-IsSound ports c a =
    search (keeps_rules, Keeps-store_arbitration, Keeps-move_to) depth 30

pub finish_arbitrating-IsSound :
    (ports : Ports) (c : Contract) → Keeps IsSound (finish_arbitrating ports c)
unfolding finish_arbitrating
finish_arbitrating-IsSound ports c =
    search (keeps_rules, Keeps-get_arbitration, pay_out_signed-IsSound) depth 30

-- a step behind which the reply is another's
moved_or_kept-IsSound :
    {A : Type 0} (now : ℤ) (c : Contract) (to : State) (a : A) (st : Store)
    → IsSound st
    → Entry to c.state (for_contract c.id st.exits) (for_contract c.id st.arbitrations)
    → IsSound (moved_or_kept (advance now c to st) a st).1
moved_or_kept-IsSound now c to a st i entry = elim (Result-cases (advance now c to st)) [
  | inl (e, refused) ↦ rw refused i
  | inr ((moved, st'), h) ↦ rw h (advance-IsSound now c to st moved st' i (λ _. entry) h)
]

pub cancel-IsSound :
    (now : ℤ) (id who : ℕ) (st : Store) → IsSound st → IsSound (cancel now id who st).1
unfolding cancel
cancel-IsSound now id who st i = elim (Result-cases (own_contract id who st)) [
  | inl (e, refused) ↦ rw (cancel, refused) i
  | inr (c, own) ↦ rw (cancel, own) (moved_or_kept-IsSound now c State.cancelled _ st i tt)
]

pub reject-IsSound :
    (now : ℤ) (id who : ℕ) (st : Store) → IsSound st → IsSound (reject_redemption now id who st).1
unfolding reject_redemption
reject-IsSound now id who st i = elim (Result-cases (own_contract id who st)) [
  | inl (e, refused) ↦ rw (reject_redemption, refused) i
  | inr (c, own) ↦
      rw (reject_redemption, own)
        (moved_or_kept-IsSound now c State.active _ (without_proposal id st)
          (redemptions-IsSound st _ i) tt)
]

pub finish_redeeming-IsSound :
    (ports : Ports) (now : ℤ) (c : Contract) (st : Store)
    → IsSound st
    → IsSound (finish_redeeming ports now c st).1
unfolding finish_redeeming
finish_redeeming-IsSound ports now c st i = elim (Result-cases (submitted ports c st)) [
  | inl (e, refused) ↦ rw (finish_redeeming, refused) i
  | inr (r, sent) ↦
      rw (finish_redeeming, sent)
        (moved_or_kept-IsSound now c State.redeemed _ (without_proposal c.id st)
          (redemptions-IsSound st _ i) tt)
]

store_signed-IsSound :
    (now : ℤ) (id : ℕ) (c : Contract) (r : Redemption) (st : Store)
    → IsSound st
    → IsSound (store_signed now id c r st).1
unfolding store_signed
store_signed-IsSound now id c r st i = elim (Bool-cases (signed r)) [
  | inl both ↦
      rw (store_signed, both)
        (moved_or_kept-IsSound now c State.redeeming _ (with_proposal id r st)
          (redemptions-IsSound st _ i) tt)
  | inr one ↦ rw (store_signed, one) (redemptions-IsSound st _ i)
]

pub sign_redemption-IsSound :
    (ports : Ports) (now : ℤ) (id who : ℕ) (st : Store)
    → IsSound st
    → IsSound (sign_redemption ports now id who st).1
unfolding sign_redemption
sign_redemption-IsSound ports now id who st i = elim (Result-cases (open_proposal id who st)) [
  | inl (e, refused) ↦ rw (sign_redemption, refused) i
  | inr ((c, side, r), opened) ↦ elim (Bool-cases (has_signed side r)) [
    | inl again ↦ rw (sign_redemption, opened, again) i
    | inr first ↦ elim (Result-cases (countersign ports who c side r)) [
      | inl (e, refused) ↦ rw (sign_redemption, opened, first, refused) i
      | inr (r', done) ↦
          rw (sign_redemption, opened, first, done) (store_signed-IsSound now id c r' st i)
    ]
  ]
]
