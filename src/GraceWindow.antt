-- ===== src/GraceWindow.antt =====
-- internal/resolver/k8s/statemachine.go: the grace window of the Kubernetes resolver. Its mutex makes
-- each snapshot and each deferred check one step. A time is the reading of a clock, as a number of
-- nanoseconds, and a zero time.Time is `none`; `emitted` are the calls of the callback and `warnings`
-- the times of the WARN lines, newest first. A goroutine of scheduleGraceCheck is an element of
-- `checks`, the delay it waits for.
pub mod Laws
pub mod Timing
pub mod Warnings
use go_kubegrpc.Base.{
  ℕ, ◌≡◌, refl, List, [], ◌∷◌, Option, none, some, Bool, true, false, if◌then◌else◌,
}
use go_kubegrpc.Base.Int.{ℤ, sub_ℕ, ◌-ℤ◌, leb_ℤ, ltb_ℤ}
use go_kubegrpc.Resolver.{
  ResolverState, connected, disconnected, in_grace_window, Endpoint, Snapshot,
}

pub record StateMachine : Type 0 where
  pub grace_window : ℤ
  pub state : ResolverState
  pub disconnected_at : Option ℕ
  pub last_warn_at : Option ℕ
  pub last_endpoints : List Endpoint
  pub checks : List ℤ
  pub warnings : List ℕ
  pub emitted : List Snapshot

-- `NewStateMachine`.
unfoldable pub new_state_machine : ℤ → StateMachine
new_state_machine grace_window = record {
  grace_window = grace_window;
  state = connected;
  disconnected_at = none;
  last_warn_at = none;
  last_endpoints = [];
  checks = [];
  warnings = [];
  emitted = [];
}

-- `maybeLogWarn`.
abbrev pub warn : ℕ → StateMachine → StateMachine
warn now sm = record sm { last_warn_at = some now; warnings = now ∷ sm.warnings }

unfoldable pub maybe_log_warn : ℕ → StateMachine → StateMachine
maybe_log_warn now sm = elim sm.last_warn_at [
  | none ↦ warn now sm
  | some t ↦ if leb_ℤ sm.grace_window (sub_ℕ now t) then warn now sm else sm
]

abbrev pub emit_snapshot : Snapshot → StateMachine → StateMachine
emit_snapshot snap sm = record sm { emitted = snap ∷ sm.emitted }

-- The start of the outage, if it is not known yet.
unfoldable pub started : ℕ → Option ℕ → ℕ
started now none = now
started now (some t) = t

-- The last-known endpoints, kept where a snapshot has none.
unfoldable pub last_known : List Endpoint → List Endpoint → List Endpoint
last_known [] before = before
last_known (e ∷ es) before = e ∷ es

-- The transition to InGraceWindow: the state, the warning, and the last-known endpoints.
unfoldable pub enter_grace : ℕ → Bool → StateMachine → StateMachine
unfolding maybe_log_warn
enter_grace now failed sm =
    let warned = maybe_log_warn now (record sm { state = in_grace_window }) in
    emit_snapshot
      (record { endpoints = warned.last_endpoints; state = in_grace_window; failed = failed })
      warned

-- The callback of `Start` on a Disconnected snapshot.
unfoldable pub on_disconnected : ℕ → Snapshot → StateMachine → StateMachine
unfolding started enter_grace
on_disconnected now snap before =
    let at = started now before.disconnected_at in
    let sm = record before { disconnected_at = some at } in
    let elapsed = sub_ℕ now at in
    if leb_ℤ sm.grace_window elapsed
    then enter_grace now snap.failed sm
    else emit_snapshot snap
        (record sm { state = disconnected; checks = (sm.grace_window -ℤ elapsed) ∷ sm.checks })

-- The callback of `Start` at a time, on a snapshot of the inner resolver.
unfoldable pub on_snapshot : ℕ → Snapshot → StateMachine → StateMachine
unfolding last_known on_disconnected
on_snapshot now snap sm = elim snap.state [
  | connected ↦ emit_snapshot snap (record sm {
    disconnected_at = none;
    last_warn_at = none;
    state = connected;
    last_endpoints = last_known snap.endpoints sm.last_endpoints;
  })
  | disconnected ↦ on_disconnected now snap sm
  | in_grace_window ↦ emit_snapshot snap (record sm { state = in_grace_window })
]

-- `scheduleGraceCheck` once its delay is over, at a time; its error is nil.
unfoldable pub grace_check : ℕ → StateMachine → StateMachine
unfolding enter_grace
grace_check now sm = elim sm.state [
  | disconnected ↦ elim sm.disconnected_at [
    | none ↦ sm
    | some at ↦ if ltb_ℤ (sub_ℕ now at) sm.grace_window then sm else enter_grace now false sm
  ]
  | _ ↦ sm
]
