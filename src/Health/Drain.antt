-- ===== src/Health/Drain.antt =====
-- internal/health/state.go: the state machine that reports the transitions of a health state.
use go_kubegrpc.Base.{ℕ, List, [], ◌∷◌, ◌++◌, ◌==◌, if◌then◌else◌}
use go_kubegrpc.Health.{HealthState, health_unknown, health_serving, health_not_serving}

-- `StateMachine`; `transitions` are the calls of onTrans, in their order.
pub record StateMachine : Type 0 where
  pub current : HealthState
  pub transitions : List HealthState

unfoldable pub new_state_machine : StateMachine
new_state_machine = record { current = health_unknown; transitions = [] }

-- What `Drain` finds: a state or the end of the channel, or that the context is done.
pub data Arrival : Type 0 where
  state : HealthState → Arrival
  closed done : Arrival

abbrev pub index : HealthState → ℕ
index health_unknown = 0
index health_serving = 1
index health_not_serving = 2

-- The body of the loop of `Drain`, on a state.
unfoldable pub observe : HealthState → StateMachine → StateMachine
observe s sm =
    if index s == index sm.current
    then sm
    else record { current = s; transitions = sm.transitions ++ s ∷ [] }

-- `Drain` over what has arrived.
unfoldable pub drain : List Arrival → StateMachine → StateMachine
unfolding observe
drain [] sm = sm
drain (state s ∷ is) sm = drain is (observe s sm)
drain (closed ∷ is) sm = sm
drain (done ∷ is) sm = sm
