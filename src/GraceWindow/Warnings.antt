-- ===== src/GraceWindow/Warnings.antt =====
-- How often the state machine warns.
use go_kubegrpc.Base.{
  ℕ, ◌≤◌, ◌≡◌, refl, sym, subst, List, [], ◌∷◌, none, some, Bool, true, false, arith, inl, inr,
  Option-cases, Bool-cases,
}
use go_kubegrpc.Base.Int.{ltb_ℤ, ℤ, sub_ℕ, leb_ℤ, ◌≤ℤ◌}
use go_kubegrpc.Resolver.{Snapshot}
use go_kubegrpc.GraceWindow.{
  StateMachine, new_state_machine, on_snapshot, grace_check, started, on_disconnected, enter_grace,
  maybe_log_warn,
}
use go_kubegrpc.GraceWindow.Laws.{Input, received, due, receive, run, state-cases, run-Knows}

-- Each warning is at least the grace window after the one before it.
abbrev pub Spaced : ℤ → List ℕ → Type 0
Spaced grace [] = Unit
Spaced grace (t ∷ []) = Unit
Spaced grace (t ∷ s ∷ ts) = (grace ≤ℤ sub_ℕ t s) × Spaced grace (s ∷ ts)

-- The newest warning is not after a time.
abbrev Before : List ℕ → ℕ → Type 0
Before [] t = Unit
Before (s ∷ ts) t = s ≤ t

-- What the warnings of a state machine have to do with its outage at a time.
abbrev IsWarned : ℕ → StateMachine → Type 0
IsWarned clock sm =
    Spaced sm.grace_window sm.warnings
    × Before sm.warnings clock
    × ((at : ℕ) → sm.disconnected_at ≡ some at → at ≤ clock)
    × ((at : ℕ) → sm.last_warn_at ≡ none → sm.disconnected_at ≡ some at → Before sm.warnings at)
    × ((t : ℕ) → sm.last_warn_at ≡ some t → (ts : List ℕ) × (sm.warnings ≡ t ∷ ts))

-- The inputs of a history come in the order of the clock.
abbrev pub time : Input → ℕ
time (received now snap) = now
time (due now) = now

abbrev pub InOrder : List Input → Type 0
InOrder [] = Unit
InOrder (i ∷ []) = Unit
InOrder (i ∷ j ∷ is) = (time j ≤ time i) × InOrder (j ∷ is)

Spaced-cons :
    (grace : ℤ) (now at : ℕ) (ws : List ℕ)
    → Spaced grace ws
    → Before ws at
    → grace ≤ℤ sub_ℕ now at
    → Spaced grace (now ∷ ws)
Spaced-cons grace now at [] s b h = tt
Spaced-cons grace now at (t ∷ ws) s b h = (ground arith, s)

Before-later : (ws : List ℕ) (s t : ℕ) → Before ws s → s ≤ t → Before ws t
Before-later [] s t b h = tt
Before-later (w ∷ ws) s t b h = omega arith

enter_grace-IsWarned :
    (now clock at : ℕ) (failed : Bool) (sm : StateMachine)
    → clock ≤ now
    → sm.disconnected_at ≡ some at
    → leb_ℤ sm.grace_window (sub_ℕ now at) ≡ true
    → IsWarned clock sm
    → IsWarned now (enter_grace now failed sm)
unfolding enter_grace maybe_log_warn
enter_grace-IsWarned now clock at failed sm c d long h = elim (Option-cases sm.last_warn_at) [
  | inl e ↦ rw e (
    Spaced-cons sm.grace_window now at sm.warnings h.0 (h.3 at e d) (ground arith),
    ground arith,
    (λ a f. ground (arith, h.2 a f)),
    (λ a f. ground arith),
    λ t f. (sm.warnings, ground arith),
  )
  | inr (t, e) ↦
      let (ts, f) = h.4 t e in
      elim (Bool-cases (leb_ℤ sm.grace_window (sub_ℕ now t))) [
        | inl g ↦
            rw (e, maybe_log_warn, g)
              (
                Spaced-cons sm.grace_window now t sm.warnings h.0
                    (subst (λ ws. Before ws t) (sym f) (omega arith)) (ground arith),
                ground arith,
                (λ a k. ground (arith, h.2 a k)),
                (λ a k. ground arith),
                λ u k. (sm.warnings, ground arith),
              )
        | inr g ↦
            rw (e, maybe_log_warn, g)
              (
                h.0,
                Before-later sm.warnings clock now h.1 c,
                (λ a k. ground (arith, h.2 a k)),
                (λ a k. ground arith),
                λ u k. (ts, ground arith),
              )
      ]
]

later-IsWarned :
    (clock now : ℕ) (sm : StateMachine) → clock ≤ now → IsWarned clock sm → IsWarned now sm
later-IsWarned clock now sm c h =
    (h.0, Before-later sm.warnings clock now h.1 c, (λ a k. ground (arith, h.2 a k)), h.3, h.4)

-- An outage that is known, or that begins now.
begins-IsWarned :
    (clock now : ℕ) (sm : StateMachine)
    → clock ≤ now
    → IsWarned clock sm
    → IsWarned now (record sm { disconnected_at = some (started now sm.disconnected_at) })
unfolding started
begins-IsWarned clock now sm c h = elim (Option-cases sm.disconnected_at) [
  | inl e ↦ rw e (
    h.0,
    Before-later sm.warnings clock now h.1 c,
    (λ a k. ground arith),
    (λ a k l. Before-later sm.warnings clock a h.1 (ground arith)),
    h.4,
  )
  | inr (at, e) ↦ rw e (
    h.0,
    Before-later sm.warnings clock now h.1 c,
    (λ a k. ground (arith, h.2 at e)),
    (λ a k l. Before-later sm.warnings at a (h.3 at k e) (ground arith)),
    h.4,
  )
]

on_disconnected-IsWarned :
    (clock now : ℕ) (snap : Snapshot) (sm : StateMachine)
    → clock ≤ now
    → IsWarned clock sm
    → IsWarned now (on_disconnected now snap sm)
unfolding on_disconnected
on_disconnected-IsWarned clock now snap sm c h =
    let at = started now sm.disconnected_at in
    let begun = record sm { disconnected_at = some at } in
    elim (Bool-cases (leb_ℤ sm.grace_window (sub_ℕ now at))) [
      | inl e ↦ rw e (
          enter_grace-IsWarned now now at snap.failed begun (omega arith) refl e
            (begins-IsWarned clock now sm c h))
      | inr e ↦ rw e (begins-IsWarned clock now sm c h)
    ]

grace_check-IsWarned :
    (clock now : ℕ) (sm : StateMachine)
    → clock ≤ now
    → IsWarned clock sm
    → IsWarned now (grace_check now sm)
unfolding grace_check
grace_check-IsWarned clock now sm c h =
    let unchanged = later-IsWarned clock now sm c h in
    elim (state-cases sm.state) [
      | inl s ↦ rw (s, grace_check) unchanged
      | inr (inr s) ↦ rw (s, grace_check) unchanged
      | inr (inl s) ↦ elim (Option-cases sm.disconnected_at) [
        | inl d ↦ rw (s, grace_check, d) unchanged
        | inr (at, d) ↦ elim (Bool-cases (ltb_ℤ (sub_ℕ now at) sm.grace_window)) [
          | inl e ↦ rw (s, grace_check, d, e) unchanged
          | inr e ↦
              rw (s, grace_check, d, e)
                (enter_grace-IsWarned now clock at false sm c d (ground arith) h)
        ]
      ]
    ]

receive-IsWarned :
    (clock : ℕ) (i : Input) (sm : StateMachine)
    → clock ≤ time i
    → IsWarned clock sm
    → IsWarned (time i) (receive i sm)
unfolding receive on_snapshot
receive-IsWarned clock (due now) sm c h = grace_check-IsWarned clock now sm c h
receive-IsWarned clock (received now snap) sm c h = elim (state-cases snap.state) [
  | inl s ↦
      rw (s, on_snapshot)
        (
          h.0,
          Before-later sm.warnings clock now h.1 c,
          (λ a k. ground arith),
          (λ a k l. ground arith),
          λ a k. ground arith,
        )
  | inr (inl s) ↦ rw (s, on_snapshot) (on_disconnected-IsWarned clock now snap sm c h)
  | inr (inr s) ↦ rw (s, on_snapshot) (later-IsWarned clock now sm c h)
]

-- The last input of a history is not after a time.
abbrev Ends : List Input → ℕ → Type 0
Ends [] t = Unit
Ends (i ∷ is) t = time i ≤ t

run-IsWarned :
    (grace : ℤ) (is : List Input) (clock : ℕ)
    → InOrder is
    → Ends is clock
    → IsWarned clock (run grace is)
unfolding run new_state_machine
run-IsWarned grace [] clock o e =
    (tt, tt, (λ a k. ground arith), (λ a k l. tt), λ a k. ground arith)
run-IsWarned grace (i ∷ []) clock o e =
    later-IsWarned (time i) clock (run grace (i ∷ [])) e
      (receive-IsWarned 0 i (run grace []) (omega arith) (run-IsWarned grace [] 0 tt tt))
run-IsWarned grace (i ∷ j ∷ is) clock o e =
    later-IsWarned (time i) clock (run grace (i ∷ j ∷ is)) e (
      receive-IsWarned (time j) i (run grace (j ∷ is)) o.0
        (run-IsWarned grace (j ∷ is) (time j) o.1 (omega arith)))

-- R8.5: over any history whose times are in order, each WARN line comes at least the grace window
-- after the one before it, also where the connection comes back in between.
pub run-Spaced : (grace : ℤ) (is : List Input) → InOrder is → Spaced grace (run grace is).warnings
unfolding run new_state_machine
run-Spaced grace [] o = tt
run-Spaced grace (i ∷ is) o =
    subst (λ g. Spaced g (run grace (i ∷ is)).warnings) (run-Knows grace (i ∷ is)).0
      (run-IsWarned grace (i ∷ is) (time i) o (omega arith)).0
