-- ===== src/Domain/Lifecycle.antt =====
-- What the transition table of service/internal/domain/state.go means for a contract's life.
use hedge_arkade.Common.{==_iff, ok, ℕ, zero, suc, ◌≡◌, refl, sym, ap, ◌∙◌, ◌↔◌, true, false, arith}
use hedge_arkade.Domain.State.{
  State, proposed, accepted, funding, active, settling, settled, redemption_proposed, redeeming,
  redeemed, exiting, exited, arbitrating, arbitrated, cancelled, failed, unknown, transition,
  terminal, is_valid, state_eq, rank,
}

-- the state at a place of the enumeration
unrank : ℕ → State
unrank zero = proposed
unrank (suc zero) = accepted
unrank (suc (suc zero)) = funding
unrank (suc (suc (suc zero))) = active
unrank (suc (suc (suc (suc zero)))) = settling
unrank (suc (suc (suc (suc (suc zero))))) = settled
unrank (suc (suc (suc (suc (suc (suc zero)))))) = redemption_proposed
unrank (suc (suc (suc (suc (suc (suc (suc zero))))))) = redeeming
unrank (suc (suc (suc (suc (suc (suc (suc (suc zero)))))))) = redeemed
unrank (suc (suc (suc (suc (suc (suc (suc (suc (suc zero))))))))) = exiting
unrank (suc (suc (suc (suc (suc (suc (suc (suc (suc (suc zero)))))))))) = exited
unrank (suc (suc (suc (suc (suc (suc (suc (suc (suc (suc (suc zero))))))))))) = arbitrating
unrank (suc (suc (suc (suc (suc (suc (suc (suc (suc (suc (suc (suc zero)))))))))))) = arbitrated
unrank (suc (suc (suc (suc (suc (suc (suc (suc (suc (suc (suc (suc (suc zero))))))))))))) =
    cancelled
unrank (suc (suc (suc (suc (suc (suc (suc (suc (suc (suc (suc (suc (suc (suc zero)))))))))))))) =
    failed
unrank _ = unknown

unrank-rank : (s : State) → unrank (rank s) ≡ s
unfolding unrank rank
unrank-rank proposed = refl
unrank-rank _ = refl

-- `==` on states decides equality.
pub state_eq_iff : (a b : State) → (state_eq a b ≡ true) ↔ (a ≡ b)
unfolding state_eq
state_eq_iff a b = (
  λ h. sym (unrank-rank a) ∙ ap unrank ((==_iff (rank a) (rank b)).0 h) ∙ unrank-rank b,
  λ h. (==_iff (rank a) (rank b)).1 (ap rank h),
)

-- The diagram of the lifecycle.
infix 40 ◌⟶◌ ◌⟶*◌
pub data ◌⟶◌ : State → State → Type 0 where
  accept : proposed ⟶ accepted
  withdraw : proposed ⟶ cancelled
  fund : accepted ⟶ funding
  call_off : accepted ⟶ cancelled
  go_live : funding ⟶ active
  fail : funding ⟶ failed
  settle : active ⟶ settling
  propose_close : active ⟶ redemption_proposed
  leave : active ⟶ exiting
  finish_settling : settling ⟶ settled
  settle_again : settling ⟶ active
  close : redemption_proposed ⟶ redeeming
  reject : redemption_proposed ⟶ active
  finish_redeeming : redeeming ⟶ redeemed
  redeem_again : redeeming ⟶ active
  land : exiting ⟶ exited
  exit_again : exiting ⟶ active
  arbitrate : exited ⟶ arbitrating
  pay_out : arbitrating ⟶ arbitrated
  arbitrate_again : arbitrating ⟶ exited

pub data ◌⟶*◌ : State → State → Type 0 where
  here : {s : State} → s ⟶* s
  via : {s t u : State} → s ⟶ t → t ⟶* u → s ⟶* u

pub ruleset edges = (
  accept, withdraw, fund, call_off, go_live, fail, settle, propose_close, leave, finish_settling,
  settle_again, close, reject, finish_redeeming, redeem_again, land, exit_again, arbitrate, pay_out,
  arbitrate_again,
)

edge_of : (s next : State) → transition s next ≡ ok tt → s ⟶ next
unfolding transition
edge_of proposed accepted h = accept
edge_of proposed cancelled h = withdraw
edge_of accepted funding h = fund
edge_of accepted cancelled h = call_off
edge_of funding active h = go_live
edge_of funding failed h = fail
edge_of active settling h = settle
edge_of active redemption_proposed h = propose_close
edge_of active exiting h = leave
edge_of settling settled h = finish_settling
edge_of settling active h = settle_again
edge_of redemption_proposed redeeming h = close
edge_of redemption_proposed active h = reject
edge_of redeeming redeemed h = finish_redeeming
edge_of redeeming active h = redeem_again
edge_of exiting exited h = land
edge_of exiting active h = exit_again
edge_of exited arbitrating h = arbitrate
edge_of arbitrating arbitrated h = pay_out
edge_of arbitrating exited h = arbitrate_again
edge_of _ _ h = absurd (ground arith)

transition_of : {s next : State} → s ⟶ next → transition s next ≡ ok tt
unfolding transition
transition_of accept = refl
transition_of withdraw = refl
transition_of fund = refl
transition_of call_off = refl
transition_of go_live = refl
transition_of fail = refl
transition_of settle = refl
transition_of propose_close = refl
transition_of leave = refl
transition_of finish_settling = refl
transition_of settle_again = refl
transition_of close = refl
transition_of reject = refl
transition_of finish_redeeming = refl
transition_of redeem_again = refl
transition_of land = refl
transition_of exit_again = refl
transition_of arbitrate = refl
transition_of pay_out = refl
transition_of arbitrate_again = refl

not_terminal : {s next : State} → s ⟶ next → terminal s ≡ false
unfolding terminal
not_terminal accept = refl
not_terminal withdraw = refl
not_terminal fund = refl
not_terminal call_off = refl
not_terminal go_live = refl
not_terminal fail = refl
not_terminal settle = refl
not_terminal propose_close = refl
not_terminal leave = refl
not_terminal finish_settling = refl
not_terminal settle_again = refl
not_terminal close = refl
not_terminal reject = refl
not_terminal finish_redeeming = refl
not_terminal redeem_again = refl
not_terminal land = refl
not_terminal exit_again = refl
not_terminal arbitrate = refl
not_terminal pay_out = refl
not_terminal arbitrate_again = refl

terminal_of : (s : State) → ((next : State) → ¬ (s ⟶ next)) → terminal s ≡ true
unfolding terminal
terminal_of proposed h = absurd (h accepted accept)
terminal_of accepted h = absurd (h funding fund)
terminal_of funding h = absurd (h active go_live)
terminal_of active h = absurd (h settling settle)
terminal_of settling h = absurd (h settled finish_settling)
terminal_of redemption_proposed h = absurd (h redeeming close)
terminal_of redeeming h = absurd (h redeemed finish_redeeming)
terminal_of exiting h = absurd (h exited land)
terminal_of exited h = absurd (h arbitrating arbitrate)
terminal_of arbitrating h = absurd (h arbitrated pay_out)
terminal_of _ h = refl

ending : (s : State) → is_valid s ≡ true → (t : State) × (terminal t ≡ true) × (s ⟶* t)
unfolding terminal is_valid
ending proposed v = (cancelled, refl, via withdraw here)
ending accepted v = (cancelled, refl, via call_off here)
ending funding v = (failed, refl, via fail here)
ending active v = (settled, refl, via settle (via finish_settling here))
ending settling v = (settled, refl, via finish_settling here)
ending redemption_proposed v = (redeemed, refl, via close (via finish_redeeming here))
ending redeeming v = (redeemed, refl, via finish_redeeming here)
ending exiting v = (arbitrated, refl, via land (via arbitrate (via pay_out here)))
ending exited v = (arbitrated, refl, via arbitrate (via pay_out here))
ending arbitrating v = (arbitrated, refl, via pay_out here)
ending settled v = (settled, refl, here)
ending redeemed v = (redeemed, refl, here)
ending arbitrated v = (arbitrated, refl, here)
ending cancelled v = (cancelled, refl, here)
ending failed v = (failed, refl, here)
ending unknown v = absurd (cc)

-- `Transition` allows exactly the steps of the diagram.
pub transition_iff : (s next : State) → (transition s next ≡ ok tt) ↔ (s ⟶ next)
transition_iff s next = (edge_of s next, transition_of)

-- A state is terminal exactly when nothing may follow it.
pub terminal_iff : (s : State) → (terminal s ≡ true) ↔ ((next : State) → ¬ (s ⟶ next))
terminal_iff s = (λ h next e. cc (h, not_terminal e), terminal_of s)

-- From every known state some terminal state can be reached, so no contract is trapped.
terminal_reachable : (s : State) → is_valid s ≡ true → (t : State) × (terminal t ≡ true) × (s ⟶* t)
terminal_reachable s v = ending s v
