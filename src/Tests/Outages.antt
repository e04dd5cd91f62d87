-- ===== src/Tests/Outages.antt =====
-- The grace window at concrete inputs.
use go_kubegrpc.Base.{◌≡◌, refl, List, [], ◌∷◌, some, true, false, arith}
use go_kubegrpc.Base.Int.{pos, ◌-ℤ◌, sub_ℕ}
use go_kubegrpc.Text.{codes}
use go_kubegrpc.Resolver.{Endpoint, Snapshot, connected, disconnected, in_grace_window}
use go_kubegrpc.GraceWindow.{started}
use go_kubegrpc.GraceWindow.Laws.{receive, Input, received, due, run, served, outage, run-emitted}
use go_kubegrpc.Base.{none, map, All, ◌≢◌, ◌↔◌, ◌≤◌}
use go_kubegrpc.Base.Maps.{lookup, in_order}
use go_kubegrpc.Base.Count.{count}
use go_kubegrpc.Resolver.{Key-discrete, key_of}
use go_kubegrpc.Pool.{PoolKey-discrete}
use go_kubegrpc.Balancer.{Balancer, BuildConfig, new_balancer, pool_key}
use go_kubegrpc.GraceWindow.{new_state_machine, on_snapshot}
use go_kubegrpc.Adapter.{build_config}
use go_kubegrpc.Adapter.Members.{IsReadable}
use go_kubegrpc.Adapter.Emissions.{PipelineReach, begins, inputs, pass_on, shown}
use go_kubegrpc.Adapter.Outages.{pipeline_members, disconnected_empties}
use go_kubegrpc.Tests.Pools.{blank, granted}
use go_kubegrpc.Tests.Snapshots.{
  target, config, pod_key, all_granted, config_uncapped, pods-IsReadable,
}
use go_kubegrpc.GraceWindow.Timing.{run-check}
use go_kubegrpc.GraceWindow.Warnings.{InOrder, Spaced, run-Spaced}

abbrev pod : Endpoint
pod = record { address = codes "10.0.0.1"; port = 80; ready = true }

abbrev up : Snapshot
up = record { endpoints = pod ∷ []; state = connected; failed = false }

abbrev down : Snapshot
down = record { endpoints = []; state = disconnected; failed = true }

-- Connected at 5; the connection is lost at 10.
abbrev history : List Input
history = received 10 down ∷ received 5 up ∷ []

run-emitted_example :
    (run (pos 30) (due 45 ∷ history)).emitted
    ≡ served (pos 30) (due 45) history (run (pos 30) history).state (run (pos 30) history).emitted
run-emitted_example = run-emitted (pos 30) (due 45) history

outage_ten : outage history ≡ some 10
unfolding started
outage_ten = refl

run-check_example :
    ((run (pos 30) history).checks
      ≡ (pos 30 -ℤ sub_ℕ 10 10) ∷ (run (pos 30) (received 5 up ∷ [])).checks)
    × ((run (pos 30) (due 40 ∷ history)).state ≡ in_grace_window)
unfolding ◌-ℤ◌
run-check_example =
    run-check (pos 30) 10 40 10 down (received 5 up ∷ []) refl outage_ten refl (omega arith)

history-InOrder : InOrder (due 80 ∷ due 45 ∷ history)
history-InOrder = (omega arith, (omega arith, (omega arith, tt)))

run-Spaced_example : Spaced (pos 30) (run (pos 30) (due 80 ∷ due 45 ∷ history)).warnings
run-Spaced_example = run-Spaced (pos 30) (due 80 ∷ due 45 ∷ history) history-InOrder

-- The pod is found and becomes ready; then the connection is lost.
abbrev first_config : BuildConfig
first_config = build_config target config

abbrev found : Balancer
found =
    pass_on [] granted in_order first_config [] (run (pos 30) (received 5 up ∷ [])).emitted
      (new_balancer blank first_config)

found-PipelineReach :
    PipelineReach [] granted target config (pos 30) blank first_config (received 5 up ∷ []) found
unfolding run new_state_machine
found-PipelineReach = inputs (received 5 up) in_order begins

up-IsReadable : All IsReadable (shown (run (pos 30) (received 5 up ∷ [])).emitted)
unfolding run new_state_machine on_snapshot receive
up-IsReadable = pods-IsReadable

pipeline_members_example :
    (lookup PoolKey-discrete (pool_key first_config pod_key) found.pool.entries ≢ none) ↔ (
      1
      ≤ count Key-discrete pod_key (map key_of (shown (run (pos 30) (received 5 up ∷ [])).emitted)))
pipeline_members_example =
    pipeline_members [] granted target config (pos 30) blank first_config (received 5 up ∷ []) found
      pod_key all_granted config_uncapped up-IsReadable found-PipelineReach

abbrev lost : Balancer
lost =
    pass_on [] granted in_order first_config (run (pos 30) (received 5 up ∷ [])).emitted
      (run (pos 30) history).emitted found

disconnected_empties_example :
    lookup PoolKey-discrete (pool_key first_config pod_key) lost.pool.entries ≡ none
unfolding started
disconnected_empties_example =
    disconnected_empties [] granted target config (pos 30) blank first_config 10 down
      (received 5 up ∷ []) lost pod_key all_granted config_uncapped refl refl refl
      (inputs (received 10 down) in_order found-PipelineReach)
