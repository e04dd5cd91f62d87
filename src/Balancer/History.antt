-- ===== src/Balancer/History.antt =====
-- Every history of the balancer: its handlers, drain goroutines and pickers, in any interleaving.
use go_kubegrpc.Base.{ℕ, ◌≡◌, refl, List, Option, Bool}
use go_kubegrpc.Base.Maps.{MapOrder}
use go_kubegrpc.Text.{Bytes}
use go_kubegrpc.Pool.Counts.{in_map, in_list, creations, shutdowns}
use go_kubegrpc.Pool.Invariant.{IsPool}
use go_kubegrpc.Base.Int.{ℤ}
use go_kubegrpc.Base.{◌+◌, ◌≤◌}
use go_kubegrpc.Picker.{Store}
use go_kubegrpc.Pool.{Wake, drain_step, write, Ref, HealthState, ConnState}
use go_kubegrpc.Pool.Lifecycle.{drains, counts, Reach-placed, Reach-owned, here, Reach}
use go_kubegrpc.Balancer.{
  true, Picker, new_balancer, BuildConfig, Balancer, Policies, update_client_conn_state,
}
use go_kubegrpc.Balancer.SubConns.{Probe, update_sub_conn_state, on_health}
use go_kubegrpc.Balancer.Steps.{
  Reach-trans, once, update_client_conn_state-Reach, update_sub_conn_state-Reach, on_health-Reach,
}

-- What may happen to a balancer: gRPC calls a handler, a health check reports a transition, a drain
-- goroutine wakes, or a picker or a Done callback counts an RPC of an entry.
pub data BalancerStep (policies : Policies) (grants : ℕ → Bytes → Bool) (b : Balancer)
    : Balancer → Type 1 where
  updates :
      (order : MapOrder) (attributes : Option BuildConfig) (addrs : List Bytes)
      → BalancerStep policies grants b
          (update_client_conn_state policies grants order attributes addrs b)
  changes :
      (order : MapOrder) (probe : Probe) (sc : ℕ) (state : ConnState)
      → BalancerStep policies grants b (update_sub_conn_state policies order probe sc state b)
  reports :
      (order : MapOrder) (r : Ref) (state : HealthState)
      → BalancerStep policies grants b (on_health policies order r state b)
  wakes :
      (w : Wake) (r : Ref)
      → BalancerStep policies grants b (record b { pool = drain_step w r b.pool })
  picks :
      (picker : Picker) (r : Ref) (n : ℤ)
      → BalancerStep policies grants b (record b {
        picker = picker;
        pool = record b.pool {
          store = write r (record (b.pool.store r) { in_flight = n }) b.pool.store;
        };
      })

pub data BalancerReach (policies : Policies) (grants : ℕ → Bytes → Bool) (b : Balancer)
    : Balancer → Type 1 where
  start : BalancerReach policies grants b b
  step :
      {c d : Balancer}
      → BalancerReach policies grants b c
      → BalancerStep policies grants c d
      → BalancerReach policies grants b d

-- A step of a handler or of a drain goroutine.
abbrev pub IsHandler :
    {policies : Policies} {grants : ℕ → Bytes → Bool} {b c : Balancer}
    → BalancerStep policies grants b c
    → Type 0
IsHandler (updates order attributes addrs) = Unit
IsHandler (changes order probe sc state) = Unit
IsHandler (reports order r state) = Unit
IsHandler (wakes w r) = Unit
IsHandler (picks picker r n) = ⊥

pub handler-Reach :
    {counting : Bool} {policies : Policies} {grants : ℕ → Bytes → Bool} {b c : Balancer}
    (s : BalancerStep policies grants b c)
    → IsHandler s
    → Reach counting grants b.pool c.pool
handler-Reach {policies = policies} {grants} {b} (updates order attributes addrs) h =
    update_client_conn_state-Reach grants policies order attributes addrs b
handler-Reach {policies = policies} {grants} {b} (changes order probe sc state) h =
    update_sub_conn_state-Reach grants policies order probe sc state b
handler-Reach {policies = policies} {grants} {b} (reports order r state) h =
    on_health-Reach grants policies order r state b
handler-Reach {grants = grants} (wakes w r) h = once grants (drains w r)
handler-Reach (picks picker r n) h = absurd h

step-Reach :
    {policies : Policies} {grants : ℕ → Bytes → Bool} {b c : Balancer}
    → BalancerStep policies grants b c
    → Reach true grants b.pool c.pool
step-Reach (updates order attributes addrs) = handler-Reach (updates order attributes addrs) tt
step-Reach (changes order probe sc state) = handler-Reach (changes order probe sc state) tt
step-Reach (reports order r state) = handler-Reach (reports order r state) tt
step-Reach {grants = grants} (wakes w r) = once grants (drains w r)
step-Reach {grants = grants} (picks picker r n) = once grants (counts r n refl)

pub history :
    {policies : Policies} {grants : ℕ → Bytes → Bool} {b c : Balancer}
    → BalancerReach policies grants b c
    → Reach true grants b.pool c.pool
history start = here
history (step h s) = Reach-trans (history h) (step-Reach s)

-- R4.2, R4.3, R4.5: after any history of a new balancer, whatever order its handlers visit maps in
-- and whichever NewSubConn calls succeed, the map of the pool has each key once, at an entry with
-- that key which is not draining, and each SubConn created is in the map, at a drain goroutine, or
-- shut down, in exactly one of these places and once.
pub BalancerReach-placed :
    (policies : Policies) (grants : ℕ → Bytes → Bool) (store : Store) (cfg : BuildConfig)
    (b : Balancer) (sc : ℕ)
    → BalancerReach policies grants (new_balancer store cfg) b
    → IsPool b.pool
      × (in_map sc b.pool.store b.pool.entries
            + in_list sc b.pool.store b.pool.drains
            + shutdowns sc b.pool.log
          ≡ creations sc b.pool.log)
      × (creations sc b.pool.log ≤ 1)
unfolding new_balancer
BalancerReach-placed policies grants store cfg b sc h =
    let placed = Reach-placed grants store b.pool sc (history h) in
    (Reach-owned grants store b.pool (history h), placed.0, placed.1)
