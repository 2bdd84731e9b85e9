-- ===== src/Warmkit/Fsm.antt =====
-- warmkit/fsm.go, `FSM`: each method is one critical section of its mutex, so a history of any
-- number of goroutines is a list of calls.
pub mod Order
use itmo_master_research.Base.{
  Bool, false, ◌||◌, ◌≡◌, Option, none, some, List, [], ◌∷◌, if◌then◌else◌,
}
use itmo_master_research.Warmkit.Types.{
  State, starting, registered, warming, ready, active, failed, other, state_eq, Error,
  invalid_transition,
}

pub record Fsm : Type 0 where
  pub state : State

unfoldable pub new_fsm : Fsm
new_fsm = record { state = starting }

unfoldable pub valid_transition : State → State → Bool
unfolding state_eq
valid_transition starting to = state_eq to registered || state_eq to failed
valid_transition registered to = state_eq to warming || state_eq to failed
valid_transition warming to = state_eq to ready || state_eq to failed
valid_transition ready to = state_eq to active || state_eq to failed
valid_transition active to = false
valid_transition failed to = false
valid_transition (other s) to = false

unfoldable pub transition : Fsm → State → Fsm × Option Error
unfolding valid_transition
transition f next =
    if valid_transition f.state next
    then (record f { state = next }, none)
    else (f, some (invalid_transition f.state next))

unfoldable pub force : Fsm → State → Fsm
force f next = record f { state = next }

-- A history of `Transition` calls, whose errors the callers drop.
unfoldable pub transitions : Fsm → List State → Fsm
unfolding transition
transitions f [] = f
transitions f (s ∷ ss) = transitions (transition f s).0 ss
