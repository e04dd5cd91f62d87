-- ===== src/Health/Checks.antt =====
-- internal/health/checker.go: the fallback to Check, and the states that a checker sends.
use go_kubegrpc.Base.{◌≡◌, List, [], ◌∷◌, ◌++◌, some, Bool, true, false, ◌&&◌, ℕ, if◌then◌else◌}
use go_kubegrpc.Health.{
  streaming, err, HealthState, Checker, CheckerConfig, Event, watched, received, ticked, cancelled,
  dialing, periodic, exited, do_check, is_unimplemented,
}

module _ {E : Type 0} (status_code : E → ℕ) (cfg : CheckerConfig) where
  -- Whether the goroutine still runs after some events in runPeriodicCheck, newest first.
  abbrev pub is_running : List (Event E) → Bool
  is_running [] = true
  is_running (cancelled ∷ es) = false
  is_running (ticked answer delivered ∷ es) = delivered && is_running es
  is_running (_ ∷ es) = is_running es

  -- What Check answered before the goroutine ended.
  abbrev pub polled : List (Event E) → List HealthState
  polled [] = []
  polled (ticked answer delivered ∷ es) =
      if delivered && is_running es then do_check answer ∷ polled es else polled es
  polled (_ ∷ es) = polled es

  -- What holds behind a fallback.
  abbrev Polls : List (Event E) → Checker → Checker → Type 0
  Polls es before c =
      (c.phase ≡ (if is_running es then periodic else exited))
      × (c.sent ≡ polled es ++ before.sent)
      × (c.watches ≡ before.watches)
      × (c.waits ≡ before.waits)

  -- An answer that makes a checker fall back: Watch, or its stream, is Unimplemented.
  abbrev pub FallsBack : Checker → Event E → Type 0
  FallsBack c (watched (some e) delivered) =
      (c.phase ≡ dialing) × (is_unimplemented status_code e ≡ true)
  FallsBack c (received false (err e) delivered) =
      (c.phase ≡ streaming) × (is_unimplemented status_code e ≡ true)
  FallsBack c _ = ⊥
