-- ===== src/Tests/Probes.antt =====
-- Health checks at concrete inputs.
use go_kubegrpc.Base.{◌↔◌, ◌++◌, All, map, ◌≡◌, refl, List, [], ◌∷◌, none, some, true, false, ℕ}
use go_kubegrpc.Base.Int.{pos}
use go_kubegrpc.Base.Result.{ok, err}
use go_kubegrpc.Text.{codes}
use go_kubegrpc.Health.{
  health_unknown, start, CheckerConfig, Event, watched, elapsed, received, ticked, run, HealthState,
  health_serving, health_not_serving,
}
use go_kubegrpc.Health.Drain.{closed, state}
use go_kubegrpc.Health.Drain.{new_state_machine, drain}
use mathlib.Core.List.{reverse}
use go_kubegrpc.Base.Maps.{in_order, lookup}
use go_kubegrpc.Pool
use go_kubegrpc.Pool.Queries.{is_healthy}
use go_kubegrpc.Balancer.{Balancer, new_balancer}
use go_kubegrpc.Tests.Pools.{blank, key}
use go_kubegrpc.Tests.Balancers
use go_kubegrpc.Health.Waits.{InBounds, failures, delay, run-waits}
use go_kubegrpc.Health.Transitions.{last_or, Alternates, consume, drain_refines}
use go_kubegrpc.Health.Reports.{latest, on_transition, Owns, checker_config, monitored_health}

-- An error is its code.
abbrev code : ℕ → ℕ
code e = e

abbrev cfg : CheckerConfig
cfg = record {
  service_name = codes "api";
  interval = pos 10000000000;
  timeout = pos 2000000000;
  enable_check = true;
}

-- Unavailable once, a stream, a serving answer, and an error of the stream.
abbrev history : List (Event ℕ)
history =
    received false (err 14) true
    ∷ received false (ok 1) true
    ∷ watched none true
    ∷ elapsed
    ∷ watched (some 14) true
    ∷ []

run-history :
    (run code cfg history).sent ≡ health_not_serving ∷ health_serving ∷ health_not_serving ∷ []
unfolding run
run-history = refl

-- Watch is Unimplemented, then Check answers.
abbrev polls : List (Event ℕ)
polls = ticked (err 4) true ∷ ticked (ok 1) true ∷ []

run-waits_example :
    ((run code cfg history).backoff ≡ delay (failures code cfg history))
    × All (InBounds code cfg) (run code cfg history).waits
run-waits_example = run-waits code cfg history

abbrev disabled : CheckerConfig
disabled = record cfg { enable_check = false }

disabled_sends : (run code disabled history).sent ≡ health_serving ∷ []
unfolding run start
disabled_sends = refl

-- A consumer that keeps the state it was last told.
abbrev keep : HealthState → HealthState → HealthState
keep s t = s

abbrev told : List HealthState
told = health_serving ∷ health_serving ∷ health_not_serving ∷ []

drain_refines_example :
    let after = drain (map state told ++ closed ∷ []) new_state_machine in
    (consume keep after.transitions health_unknown ≡ consume keep told health_unknown)
    × Alternates health_unknown after.transitions
    × (after.current ≡ last_or health_unknown told)
drain_refines_example = drain_refines keep health_unknown told closed [] (λ s x. refl) refl tt

drain-told :
    (drain (map state told) new_state_machine).transitions
    ≡ health_serving ∷ health_not_serving ∷ []
unfolding drain new_state_machine
drain-told = refl

-- A pool with one entry, whose check ran.
abbrev b : Balancer
b =
    let fresh = new_balancer blank Balancers.cfg in
    record fresh { pool = record fresh.pool { entries = (key, 0) ∷ []; next_ref = 1 } }

b-Owns : Owns [] in_order 0 b
unfolding new_balancer lookup Pool.PoolKey-discrete
b-Owns = refl

b_health : (b.pool.store 0).health ≡ Pool.unknown
unfolding new_balancer
b_health = refl

monitored_health_example :
    let sent = (run code (checker_config b.cfg) history).sent in
    let sm = drain (map state (reverse sent) ++ closed ∷ []) new_state_machine in
    let c = consume (on_transition [] in_order 0) sm.transitions b in
    (((c.pool.store 0).health ≡ Pool.serving) ↔ (latest sent ≡ health_serving))
    × (((c.pool.store 0).health ≡ Pool.not_serving) ↔ (latest sent ≡ health_not_serving))
    × (((c.pool.store 0).health ≡ Pool.unknown) ↔ (latest sent ≡ health_unknown))
    × ((is_healthy (c.pool.store 0) ≡ true)
        ↔ ((latest sent ≡ health_serving) × ((b.pool.store 0).draining ≡ false)))
monitored_health_example =
    monitored_health code history [] in_order 0 b closed [] b-Owns b_health tt
