-- ===== src/Tests/Snapshots.antt =====
-- A snapshot of the resolver on its way to the pool.
use go_kubegrpc.Base.{
  false, length, ◌+◌, ◌⊎◌, some, none, ℕ, ◌≡◌, ◌≢◌, ◌↔◌, refl, List, [], ◌∷◌, some, arith, true,
  All,
}
use go_kubegrpc.Base.Int.{pos}
use go_kubegrpc.Base.Maps.{lookup, in_order}
use go_kubegrpc.Text.{Bytes, codes}
use go_kubegrpc.Resolver.{Endpoint, Key}
use go_kubegrpc.Address.{is_space}
use go_kubegrpc.Target.{Target}
use go_kubegrpc.Pool.{PoolKey-discrete}
use go_kubegrpc.Pool.Invariant.{IsPool, new_pool-IsPool}
use go_kubegrpc.Balancer.{Balancer, new_balancer, pool_key}
use go_kubegrpc.Balancer.Snapshots.{InScope}
use go_kubegrpc.Config.{Config, default_config}
use go_kubegrpc.Tests.Retries.{exact}
use go_kubegrpc.Adapter.Lifetime.{
  waiter_exits, awaiting_loop, loop_exits, start, new_inner, closed, close_moves, Wrapper, move,
  wrap, Move, moves,
}
use go_kubegrpc.Watcher
use go_kubegrpc.GraceWindow.{new_state_machine, on_snapshot}
use go_kubegrpc.Watcher.{EndpointSlice, extract_endpoints}
use go_kubegrpc.Watcher.Run.{send_snapshot}
use go_kubegrpc.Watcher.Offers.{IsOffered}
use go_kubegrpc.Adapter.Pipeline.{send_snapshot_members}
use go_kubegrpc.Adapter.Shutdown.{CanMove, rank, moves_close}
use go_kubegrpc.Adapter.{deliver, build_config}
use go_kubegrpc.Adapter.Members.{IsReadable}
use go_kubegrpc.Tests.Pools.{blank, granted}

abbrev pub target : Target
target = record {
  scheme = codes "k8s";
  namespace = codes "prod";
  service = codes "api";
  port = record { name = []; number = 80 };
}

abbrev pub config : Config exact
config = record (default_config exact 2) { load_balancing_policy = codes "least_request" }

abbrev pub pods : List Endpoint
pods = record { address = codes "10.0.0.1"; port = 80; ready = true } ∷ []

abbrev pub pod_key : Key
pod_key = record { address = codes "10.0.0.1"; port = 80 }

abbrev idle_balancer : Balancer
idle_balancer = new_balancer blank (build_config target config)

pub pods-IsReadable : All IsReadable pods
unfolding is_space
pods-IsReadable = ground arith

pub all_granted : (n : ℕ) (addr : Bytes) → granted n addr ≡ true
all_granted n addr = refl

idle-IsPool : IsPool idle_balancer.pool
unfolding new_balancer
idle-IsPool = new_pool-IsPool blank

idle-InScope : InScope (build_config target config) idle_balancer.pool
unfolding new_balancer lookup
idle-InScope j r e = ground arith

pub config_uncapped : config.max_subconnections ≡ pos 0
unfolding default_config
config_uncapped = refl

-- The goroutines end as soon as they may, and Close goes on.
abbrev closing : List Move
closing = close_moves ∷ loop_exits ∷ waiter_exits ∷ close_moves ∷ close_moves ∷ close_moves ∷ []

abbrev shut : Wrapper
shut = record {
  inner = record { started = true; cancelled = true; once = true; done = true };
  cancelled = true;
  waiter_done = true;
  stage = closed;
}

closing_moves : moves closing (wrap new_inner) ≡ some shut
unfolding moves wrap new_inner start
closing_moves = refl

-- A resolver that was not started has no loop, so that a Close of it waits for ever.
abbrev unstarted : Wrapper
unstarted = record {
  inner = new_inner;
  cancelled = false;
  waiter_done = false;
  stage = awaiting_loop;
}

unstarted_blocked : (move close_moves unstarted ≡ none) × (move loop_exits unstarted ≡ none)
unfolding move new_inner
unstarted_blocked = (refl, refl)

moves_close_example :
    (length closing + rank shut ≡ 6)
    × ((shut.stage ≡ closed) ⊎ CanMove shut)
    × ((shut.stage ≡ closed) ↔ (rank shut ≡ 0))
moves_close_example = moves_close closing shut closing_moves

-- One pod is ready on port 80, and one is terminating.
abbrev slices : List EndpointSlice
slices =
    record {
      ports = record { name = none; port = some 80 } ∷ [];
      endpoints =
          record { addresses = codes "10.0.0.1" ∷ []; ready = none; terminating = none }
          ∷ record { addresses = codes "10.0.0.2" ∷ []; ready = some true; terminating = some true }
          ∷ [];
    }
    ∷ []

abbrev watched_port : Watcher.Port
watched_port = record { name = target.port.name; number = target.port.number }

slices-IsReadable : All IsReadable (extract_endpoints slices watched_port)
unfolding is_space extract_endpoints
slices-IsReadable = ground arith

send_snapshot_members_example :
    let snap = send_snapshot watched_port slices in
    let after = deliver [] granted in_order (build_config target config) snap idle_balancer in
    ((on_snapshot 5 snap (new_state_machine (pos 30))).emitted
      ≡ snap ∷ (new_state_machine (pos 30)).emitted)
    × ((lookup PoolKey-discrete (pool_key (build_config target config) pod_key) after.pool.entries
          ≢ none)
        ↔ IsOffered pod_key.address pod_key.port watched_port slices)
send_snapshot_members_example =
    send_snapshot_members [] granted in_order target config slices 5 (new_state_machine (pos 30))
      idle_balancer pod_key all_granted idle-IsPool idle-InScope config_uncapped slices-IsReadable
