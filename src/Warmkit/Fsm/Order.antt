-- ===== src/Warmkit/Fsm/Order.antt =====
-- The life cycle as a relation, and what every history of transitions of warmkit/fsm.go obeys.
use mathlib.Core.List.{Sublist, Sublistᴰ}
use itmo_master_research.Base.{
  ℕ, ◌≤◌, ◌<◌, ◌≡◌, refl, ap, subst, ◌⊎◌, inl, inr, ◌≢◌, true, none, some, List, [], ◌∷◌, arith,
  Bool-cases,
}
use itmo_master_research.Warmkit.Types.{
  State, starting, registered, warming, ready, active, failed, other, invalid_transition,
}
use itmo_master_research.Warmkit.Fsm.{Fsm, new_fsm, valid_transition, transition, transitions}

-- How far along the life cycle a state is; the two last states are never left.
abbrev pub rank : State → ℕ
rank starting = 0
rank registered = 1
rank warming = 2
rank ready = 3
rank active = 4
rank failed = 4
rank (other s) = 5

-- The arrows of the life cycle.
pub data Edge : State → State → Type 0 where
  register : Edge starting registered
  warm : Edge registered warming
  finish : Edge warming ready
  promote : Edge ready active
  fail_starting : Edge starting failed
  fail_registered : Edge registered failed
  fail_warming : Edge warming failed
  fail_ready : Edge ready failed

Edge-valid : {s t : State} → Edge s t → valid_transition s t ≡ true
unfolding valid_transition
Edge-valid register = refl
Edge-valid warm = refl
Edge-valid finish = refl
Edge-valid promote = refl
Edge-valid fail_starting = refl
Edge-valid fail_registered = refl
Edge-valid fail_warming = refl
Edge-valid fail_ready = refl

Edge-rank : {s t : State} → Edge s t → rank s < rank t
Edge-rank register = omega arith
Edge-rank warm = omega arith
Edge-rank finish = omega arith
Edge-rank promote = omega arith
Edge-rank fail_starting = omega arith
Edge-rank fail_registered = omega arith
Edge-rank fail_warming = omega arith
Edge-rank fail_ready = omega arith

ruleset edges =
    (register, warm, finish, promote, fail_starting, fail_registered, fail_warming, fail_ready)

valid-Edge : (s t : State) → valid_transition s t ≡ true → Edge s t
unfolding valid_transition
valid-Edge starting t h = grind (arith, edges)
valid-Edge registered t h = grind (arith, edges)
valid-Edge warming t h = grind (arith, edges)
valid-Edge ready t h = grind (arith, edges)
valid-Edge _ t h = grind arith

-- `Transition` accepts the arrows of the life cycle and nothing else; it then moves to the state
-- asked for, and otherwise leaves the machine alone and reports both states.
pub transition_lem :
    (f : Fsm) (next : State)
    → (Edge f.state next × (transition f next ≡ (record { state = next }, none)))
      ⊎ ((¬ Edge f.state next) × (transition f next ≡ (f, some (invalid_transition f.state next))))
unfolding transition
transition_lem f next = elim (Bool-cases (valid_transition f.state next)) [
  | inl ok ↦ inl (valid-Edge f.state next ok, rw ok)
  | inr bad ↦ inr (λ edge. cc (Edge-valid edge), rw bad)
]

abbrev pub IsTerminal : State → Type 0
IsTerminal s = (s ≡ active) ⊎ (s ≡ failed)

step-rank : (f : Fsm) (next : State) → rank f.state ≤ rank (transition f next).0.state
step-rank f next = elim (transition_lem f next) [
  | inl (edge, e) ↦ rw e (omega (arith, Edge-rank edge))
  | inr (_, e) ↦ rw e (omega arith)
]

-- Under every sequence of requested transitions the state never moves back along the life cycle.
pub transitions-rank : (f : Fsm) (ss : List State) → rank f.state ≤ rank (transitions f ss).state
unfolding transitions
transitions-rank f [] = omega arith
transitions-rank f (s ∷ ss) = omega (arith, step-rank f s, transitions-rank (transition f s).0 ss)

step_terminal : (f : Fsm) (s : State) → IsTerminal f.state → (transition f s).0 ≡ f
unfolding transition
step_terminal f s h = ground arith

-- A machine in `Active` or `Failed` stays as it is under every sequence of requested transitions.
pub transitions_terminal : (f : Fsm) (ss : List State) → IsTerminal f.state → transitions f ss ≡ f
unfolding transitions
transitions_terminal f [] h = refl
transitions_terminal f (s ∷ ss) h = rw (step_terminal f s h) (transitions_terminal f ss h)

-- What is left of the way to `Active`.
abbrev pub road : State → List State
road starting = registered ∷ warming ∷ ready ∷ active ∷ []
road registered = warming ∷ ready ∷ active ∷ []
road warming = ready ∷ active ∷ []
road ready = active ∷ []
road _ = []

Edge-road : {s t : State} → Edge s t → (t ≡ failed) ⊎ (road s ≡ t ∷ road t)
Edge-road register = inr refl
Edge-road warm = inr refl
Edge-road finish = inr refl
Edge-road promote = inr refl
Edge-road fail_starting = inl refl
Edge-road fail_registered = inl refl
Edge-road fail_warming = inl refl
Edge-road fail_ready = inl refl

step-road :
    (f : Fsm) (s : State)
    → ((transition f s).0 ≡ f)
      ⊎ ((transition f s).0.state ≡ failed)
      ⊎ (road f.state ≡ s ∷ road (transition f s).0.state)
unfolding transition
step-road f s = elim (transition_lem f s) [
  | inl (edge, e) ↦ rw e (inr (Edge-road edge))
  | inr (_, e) ↦ rw e (inl refl)
]

stuck_failed : (f : Fsm) (ss : List State) → f.state ≡ failed → (transitions f ss).state ≢ active
stuck_failed f ss h a = cc (ap (λ (g : Fsm). g.state) (transitions_terminal f ss (inr h)))

walked :
    (f : Fsm) (ss : List State) → (transitions f ss).state ≡ active → Sublistᴰ (road f.state) ss
unfolding transitions
walked f [] h = rw h Sublistᴰ.slnil
walked f (s ∷ ss) h = elim (step-road f s) [
  | inl stay ↦ Sublistᴰ.cons (walked f ss (subst (λ g. (transitions g ss).state ≡ active) stay h))
  | inr (inl down) ↦ absurd (stuck_failed (transition f s).0 ss down h)
  | inr (inr on) ↦ rw on (Sublistᴰ.cons-cons refl (walked (transition f s).0 ss h))
]

-- A machine that starts afresh is `Active` only after a sequence of requests in which
-- `Registered`, `Warming`, `Ready` and `Active` stand in this order.
pub transitions-active :
    (ss : List State)
    → (transitions new_fsm ss).state ≡ active
    → Sublist (registered ∷ warming ∷ ready ∷ active ∷ []) ss
unfolding new_fsm
transitions-active ss h = ∣ walked new_fsm ss h ∣₁
