-- ===== src/Domain/State.antt =====
-- The life of a contract (service/internal/domain/state.go). A state outside the fifteen constants
-- of the Go string type is `unknown`.
use hedge_arkade.Common.{
  ◌==◌, length, Result, ◌>>◌, ℕ, Bool, true, false, not, ◌||◌, Option, none, some, List, [], ◌∷◌,
  fail_if,
}

pub data State : Type 0 where
  proposed accepted funding active settling settled : State
  redemption_proposed redeeming redeemed : State
  exiting exited arbitrating arbitrated cancelled failed unknown : State

pub State-discrete : Discrete State
State-discrete = hlevel

-- `transitions`: `none` for a key that the map has not.
unfoldable pub transitions : State → Option (List State)
transitions proposed = some (accepted ∷ cancelled ∷ [])
transitions accepted = some (funding ∷ cancelled ∷ [])
transitions funding = some (active ∷ failed ∷ [])
transitions active = some (settling ∷ redemption_proposed ∷ exiting ∷ [])
transitions settling = some (settled ∷ active ∷ [])
transitions redemption_proposed = some (redeeming ∷ active ∷ [])
transitions redeeming = some (redeemed ∷ active ∷ [])
transitions exiting = some (exited ∷ active ∷ [])
transitions exited = some (arbitrating ∷ [])
transitions arbitrating = some (arbitrated ∷ exited ∷ [])
transitions unknown = none
transitions _ = some []

-- `States`
unfoldable pub states : List State
states =
    proposed ∷ accepted ∷ funding ∷ active ∷ settling ∷ settled ∷ redemption_proposed ∷ redeeming
    ∷ redeemed ∷ exiting ∷ exited ∷ arbitrating ∷ arbitrated ∷ cancelled ∷ failed ∷ []

-- a missing key of the map reads as nil
unfoldable pub successors : State → List State
unfolding transitions
successors s = elim (transitions s) [ none ↦ [] | some next ↦ next ]

-- `Valid`, `Terminal`
unfoldable pub is_valid : State → Bool
unfolding transitions
is_valid s = elim (transitions s) [ none ↦ false | some _ ↦ true ]

unfoldable pub terminal : State → Bool
unfolding successors
terminal s = length (successors s) == 0

-- `==` on states, by the place in the enumeration
unfoldable pub rank : State → ℕ
rank proposed = 0
rank accepted = 1
rank funding = 2
rank active = 3
rank settling = 4
rank settled = 5
rank redemption_proposed = 6
rank redeeming = 7
rank redeemed = 8
rank exiting = 9
rank exited = 10
rank arbitrating = 11
rank arbitrated = 12
rank cancelled = 13
rank failed = 14
rank unknown = 15

unfoldable pub state_eq : State → State → Bool
unfolding rank
state_eq a b = rank a == rank b

unfoldable pub among : State → List State → Bool
unfolding state_eq
among s [] = false
among s (x ∷ xs) = state_eq x s || among s xs

-- `CanGoTo`
unfoldable pub can_go_to : State → State → Bool
unfolding successors among
can_go_to s next = among next (successors s)

pub data TransitionError : Type 0 where
  unknown_state illegal_transition : TransitionError

-- `Transition`
unfoldable pub transition : State → State → Result TransitionError (Unit {0})
unfolding is_valid can_go_to
transition s next = do
  fail_if (not (is_valid s)) unknown_state
  fail_if (not (is_valid next)) unknown_state
  fail_if (not (can_go_to s next)) illegal_transition
