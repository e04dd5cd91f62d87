-- ===== src/GraceWindow/Laws.antt =====
-- Every history of the state machine: what it emits and when it warns.
use go_kubegrpc.Base.{
  ℕ, ◌≡◌, refl, List, [], ◌∷◌, Option, none, some, Bool, false, arith, if◌then◌else◌, ◌⊎◌, inl, inr,
  Option-cases, Bool-cases,
}
use go_kubegrpc.Base.Int.{ℤ, sub_ℕ, leb_ℤ}
use go_kubegrpc.Resolver.{
  ResolverState, connected, disconnected, in_grace_window, Endpoint, Snapshot,
}
use go_kubegrpc.GraceWindow.{
  StateMachine, new_state_machine, on_snapshot, grace_check, started, on_disconnected, enter_grace,
  maybe_log_warn,
}

-- What reaches the state machine: a snapshot of the inner resolver, or a deferred check that is due.
pub data Input : Type 0 where
  received : ℕ → Snapshot → Input
  due : ℕ → Input

unfoldable pub receive : Input → StateMachine → StateMachine
receive (received now snap) sm = on_snapshot now snap sm
receive (due now) sm = grace_check now sm

-- The state machine after a history, newest first.
unfoldable pub run : ℤ → List Input → StateMachine
run grace [] = new_state_machine grace
run grace (i ∷ is) = receive i (run grace is)

-- When the outage of a history began, if there is one at its end: at the first Disconnected snapshot
-- since the last Connected one.
abbrev pub outage : List Input → Option ℕ
outage [] = none
outage (due now ∷ is) = outage is
outage (received now snap ∷ is) = elim snap.state [
  | connected ↦ none
  | disconnected ↦ elim (outage is) [ none ↦ some now | some at ↦ some at ]
  | in_grace_window ↦ outage is
]

-- The endpoints of the last Connected snapshot of a history that had any.
abbrev pub last_seen : List Input → List Endpoint
last_seen [] = []
last_seen (due now ∷ is) = last_seen is
last_seen (received now snap ∷ is) = elim snap.state [
  | connected ↦ elim snap.endpoints [ [] ↦ last_seen is | e ∷ es ↦ e ∷ es ]
  | _ ↦ last_seen is
]

pub state-cases :
    (s : ResolverState) → (s ≡ connected) ⊎ ((s ≡ disconnected) ⊎ (s ≡ in_grace_window))
state-cases connected = inl refl
state-cases disconnected = inr (inl refl)
state-cases in_grace_window = inr (inr refl)

-- What a transition to InGraceWindow leaves alone.
pub enter_grace-keeps :
    (now : ℕ) (failed : Bool) (sm : StateMachine)
    → let after = enter_grace now failed sm in
      (after.grace_window ≡ sm.grace_window)
      × (after.disconnected_at ≡ sm.disconnected_at)
      × (after.last_endpoints ≡ sm.last_endpoints)
      × (after.state ≡ in_grace_window)
      × (after.emitted
          ≡ record { endpoints = sm.last_endpoints; state = in_grace_window; failed = failed }
            ∷ sm.emitted)
unfolding enter_grace maybe_log_warn
enter_grace-keeps now failed sm = elim (Option-cases sm.last_warn_at) [
  | inl e ↦ rw e (refl, refl, refl, refl, refl)
  | inr (t, e) ↦ elim (Bool-cases (leb_ℤ sm.grace_window (sub_ℕ now t))) [
    | inl f ↦ rw (e, f) (refl, refl, refl, refl, refl)
    | inr f ↦ rw (e, f) (refl, refl, refl, refl, refl)
  ]
]

-- What the state machine knows of its history.
abbrev pub Knows : ℤ → List Input → StateMachine → Type 0
Knows grace is sm =
    (sm.grace_window ≡ grace)
    × (sm.disconnected_at ≡ outage is)
    × (sm.last_endpoints ≡ last_seen is)

receive-Knows :
    (grace : ℤ) (i : Input) (is : List Input) (sm : StateMachine)
    → Knows grace is sm
    → Knows grace (i ∷ is) (receive i sm)
unfolding receive on_snapshot on_disconnected grace_check
receive-Knows grace (received now snap) is sm h = elim (state-cases snap.state) [
  | inl e ↦ ground arith
  | inr (inl e) ↦ ground (
    arith,
    enter_grace-keeps now snap.failed
        (record sm { disconnected_at = some (started now sm.disconnected_at) }),
  )
  | inr (inr e) ↦ ground arith
]
receive-Knows grace (due now) is sm h = ground (arith, enter_grace-keeps now false sm)

pub run-Knows : (grace : ℤ) (is : List Input) → Knows grace is (run grace is)
unfolding run new_state_machine
run-Knows grace [] = (refl, refl, refl)
run-Knows grace (i ∷ is) = receive-Knows grace i is (run grace is) (run-Knows grace is)

-- The last-known endpoints, as they are served beyond the grace window.
abbrev pub last_known_snapshot : List Input → Bool → Snapshot
last_known_snapshot is failed = record {
  endpoints = last_seen is;
  state = in_grace_window;
  failed = failed;
}

-- Whether an outage has lasted at least the grace window at a time.
abbrev pub is_long : ℤ → ℕ → Option ℕ → Bool
is_long grace now none = false
is_long grace now (some at) = leb_ℤ grace (sub_ℕ now at)

-- What the callback is to have been given after an input: a snapshot as it is, but the last-known
-- endpoints for a Disconnected one, or a check in the Disconnected state, in an outage that is long.
abbrev pub served : ℤ → Input → List Input → ResolverState → List Snapshot → List Snapshot
served grace (received now snap) is state emitted = elim snap.state [
  | disconnected ↦
      if is_long grace now (outage (received now snap ∷ is))
      then last_known_snapshot is snap.failed ∷ emitted
      else snap ∷ emitted
  | _ ↦ snap ∷ emitted
]
served grace (due now) is state emitted = elim state [
  | disconnected ↦
      if is_long grace now (outage is) then last_known_snapshot is false ∷ emitted else emitted
  | _ ↦ emitted
]

-- R8.5: after any history an input makes the callback see the snapshot as it is, except that a
-- Disconnected one, or a check in the Disconnected state, in an outage of at least the grace window
-- makes it see InGraceWindow with the endpoints of the last Connected snapshot that had any. A check
-- otherwise makes it see nothing.
pub run-emitted :
    (grace : ℤ) (i : Input) (is : List Input)
    → (run grace (i ∷ is)).emitted ≡ served grace i is (run grace is).state (run grace is).emitted
unfolding run receive on_snapshot on_disconnected grace_check
run-emitted grace (received now snap) is = elim (state-cases snap.state) [
  | inl e ↦ ground arith
  | inr (inl e) ↦
      let sm = run grace is in
      ground (
        arith,
        run-Knows grace is,
        enter_grace-keeps now snap.failed
            (record sm { disconnected_at = some (started now sm.disconnected_at) }),
      )
  | inr (inr e) ↦ ground arith
]
run-emitted grace (due now) is =
    ground (arith, run-Knows grace is, enter_grace-keeps now false (run grace is))
