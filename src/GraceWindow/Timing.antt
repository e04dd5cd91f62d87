-- ===== src/GraceWindow/Timing.antt =====
-- When the state machine enters the grace window.
use go_kubegrpc.Base.{ℕ, ◌≡◌, refl, ap, ◌∙◌, List, ◌∷◌, some, false, arith}
use go_kubegrpc.Base.Int.{ℤ, sub_ℕ, leb_ℤ, ◌≤ℤ◌, ◌-ℤ◌}
use go_kubegrpc.Resolver.{disconnected, in_grace_window, Snapshot}
use go_kubegrpc.GraceWindow.{StateMachine, on_snapshot, grace_check, started, on_disconnected}
use go_kubegrpc.GraceWindow.Laws.{
  Input, received, due, receive, run, outage, is_long, enter_grace-keeps, run-Knows,
}

on_disconnected-waits :
    (now : ℕ) (snap : Snapshot) (sm : StateMachine)
    → leb_ℤ sm.grace_window (sub_ℕ now (started now sm.disconnected_at)) ≡ false
    → let after = on_disconnected now snap sm in
      (after.state ≡ disconnected)
      × (after.checks ≡ (sm.grace_window -ℤ sub_ℕ now (started now sm.disconnected_at)) ∷ sm.checks)
      × (after.disconnected_at ≡ some (started now sm.disconnected_at))
      × (after.grace_window ≡ sm.grace_window)
unfolding on_disconnected
on_disconnected-waits now snap sm h = rw h (refl, refl, refl, refl)

grace_check-enters :
    (now at : ℕ) (sm : StateMachine)
    → sm.state ≡ disconnected
    → sm.disconnected_at ≡ some at
    → sm.grace_window ≤ℤ sub_ℕ now at
    → (grace_check now sm).state ≡ in_grace_window
unfolding grace_check
grace_check-enters now at sm s d h =
    rw (s, grace_check, d) (ground (arith, enter_grace-keeps now false sm))

delay_over :
    (grace : ℤ) (now later at : ℕ)
    → (grace -ℤ sub_ℕ now at) ≤ℤ sub_ℕ later now
    → grace ≤ℤ sub_ℕ later at
unfolding ◌-ℤ◌
delay_over grace now later at h = ground arith

-- R8.5: a Disconnected snapshot in an outage shorter than the grace window starts a deferred check
-- with what is left of the window as its delay, and if the check is made once that is over, before
-- any other input, the state machine is in the grace window.
pub run-check :
    (grace : ℤ) (now later at : ℕ) (snap : Snapshot) (is : List Input)
    → snap.state ≡ disconnected
    → outage (received now snap ∷ is) ≡ some at
    → is_long grace now (some at) ≡ false
    → (grace -ℤ sub_ℕ now at) ≤ℤ sub_ℕ later now
    → ((run grace (received now snap ∷ is)).checks
        ≡ (grace -ℤ sub_ℕ now at) ∷ (run grace is).checks)
      × ((run grace (due later ∷ received now snap ∷ is)).state ≡ in_grace_window)
unfolding run receive on_snapshot
run-check grace now later at snap is e began short over =
    let before = run grace is in
    let knows = run-Knows grace is in
    let same : on_snapshot now snap before ≡ on_disconnected now snap before = rw e refl in
    let began_at : started now before.disconnected_at ≡ at = ground (arith, e) in
    let waits = on_disconnected-waits now snap before (ground (arith, began_at)) in
    rw same (
      waits.1 ∙ rw (began_at, knows.0) refl,
      grace_check-enters later at (on_disconnected now snap before) waits.0
          (waits.2 ∙ ap some began_at) (rw (waits.3, knows.0) (delay_over grace now later at over)),
    )
