-- ===== src/Health/Waits.antt =====
-- internal/health/checker.go: the backoff of a checker, and a checker that is disabled.
use native.Mathlib.Omega.{pow_step}
use go_kubegrpc.Base.{
  ◌∙◌, ap, ◌≡◌, refl, List, [], ◌∷◌, none, some, true, false, ℕ, arith, ◌*◌, ◌^◌, if◌then◌else◌,
  All, zero, suc, ◌≤◌, ltb,
}
use go_kubegrpc.Health.{
  ok, health_serving, err, Checker, CheckerConfig, Event, watched, elapsed, received, ticked,
  cancelled, dialing, waiting, exited, run, step, start, enter_periodic, send_state, wait_backoff,
  redial, on_watched, on_received, second, grow,
}

-- The backoff after some failures in a row.
abbrev pub delay : ℕ → ℕ
delay n = if ltb (10 * second) (2 ^ n * second) then 10 * second else 2 ^ n * second

grow-delay : (n : ℕ) → grow (delay n) ≡ delay (suc n)
unfolding grow
grow-delay n = ground (arith, pow_step 2 n)

delay-bounds : (n : ℕ) → (second ≤ delay n) × (delay n ≤ 10 * second)
delay-bounds zero = ground arith
delay-bounds (suc n) = ground (arith, pow_step 2 n, delay-bounds n)

module _ {E : Type 0} (status_code : E → ℕ) (cfg : CheckerConfig) where
  -- How often the backoff has elapsed since the last stream, in a history, newest first.
  abbrev pub failures : List (Event E) → ℕ
  failures [] = 0
  failures (watched none delivered ∷ es) =
      let rest = failures es in elim (run status_code cfg es).phase [ dialing ↦ 0 | _ ↦ rest ]
  failures (elapsed ∷ es) =
      let rest = failures es in
      elim (run status_code cfg es).phase [ waiting ↦ suc rest | _ ↦ rest ]
  failures (_ ∷ es) = failures es

  abbrev pub InBounds : ℕ → Type 0
  InBounds w = (second ≤ w) × (w ≤ 10 * second)

  abbrev Backs : ℕ → Checker → Type 0
  Backs n c = (c.backoff ≡ delay n) × All InBounds c.waits

  step-Backs :
      (e : Event E) (es : List (Event E))
      → Backs (failures es) (run status_code cfg es)
      → Backs (failures (e ∷ es)) (step status_code cfg e (run status_code cfg es))
  unfolding step on_watched on_received enter_periodic wait_backoff send_state redial
  step-Backs (watched none d) es h = ground arith
  step-Backs (watched (some e) true) es h = ground (arith, delay-bounds (failures es))
  step-Backs (watched (some e) false) es h = ground arith
  step-Backs elapsed es h = ground (arith, grow-delay (failures es))
  step-Backs (received true (err e) d) es h = ground arith
  step-Backs (received false (err e) true) es h = ground arith
  step-Backs (received false (err e) false) es h = ground arith
  step-Backs (received b (ok s) true) es h = ground arith
  step-Backs (received b (ok s) false) es h = ground arith
  step-Backs (ticked answer true) es h = ground arith
  step-Backs (ticked answer false) es h = ground arith
  step-Backs cancelled es h = ground arith

  run-Backs : (es : List (Event E)) → Backs (failures es) (run status_code cfg es)
  unfolding run start
  run-Backs [] = ground arith
  run-Backs (e ∷ es) = step-Backs e es (run-Backs es)

-- R6.1: after any history of a checker the backoff is 2 ^ n seconds, at most 10, where n counts the
-- backoffs that have elapsed since Watch last gave a stream, and each delay that was waited for is
-- between 1 and 10 seconds.
pub run-waits :
    {E : Type 0} (status_code : E → ℕ) (cfg : CheckerConfig) (es : List (Event E))
    → ((run status_code cfg es).backoff ≡ delay (failures status_code cfg es))
      × All (InBounds status_code cfg) (run status_code cfg es).waits
run-waits status_code cfg es = run-Backs status_code cfg es

module _ {E : Type 0} (status_code : E → ℕ) (cfg : CheckerConfig) where
  step_exited : (e : Event E) (c : Checker) → c.phase ≡ exited → step status_code cfg e c ≡ c
  unfolding step
  step_exited (watched a d) c h = rw h refl
  step_exited elapsed c h = rw h refl
  step_exited (received b a d) c h = rw h refl
  step_exited (ticked a d) c h = rw h refl
  step_exited cancelled c h = rw h refl

  run_exited :
      (es : List (Event E)) → (start cfg).phase ≡ exited → run status_code cfg es ≡ start cfg
  unfolding run
  run_exited [] h = refl
  run_exited (e ∷ es) h =
      let ih = run_exited es h in ap (step status_code cfg e) ih ∙ step_exited e (start cfg) h

-- R6.7: a checker that is disabled sends HealthServing once, calls neither Watch nor Check and does
-- not wait, whatever happens.
run_disabled :
    {E : Type 0} (status_code : E → ℕ) (cfg : CheckerConfig) (es : List (Event E))
    → cfg.enable_check ≡ false
    → let c = run status_code cfg es in
      (c.sent ≡ health_serving ∷ [])
      × (c.watches ≡ 0)
      × (c.probes ≡ [])
      × (c.waits ≡ [])
      × (c.phase ≡ exited)
unfolding start
run_disabled status_code cfg es h =
    rw (run_exited status_code cfg es (rw h refl), h) (refl, refl, refl, refl, refl)
