-- ===== src/Pool/Queries.antt =====
-- internal/balancer/pool.go: Snapshot and HealthyEntries, the entries that pass a test.
use go_kubegrpc.Base.{ℕ, List, [], ◌∷◌, Bool, true, false, not, ◌&&◌, if◌then◌else◌}
use go_kubegrpc.Base.Maps.{MapOrder}
use go_kubegrpc.Pool.{PoolKey, HealthState, Ref, SubConnEntry, Pool, serving}

-- The entries of a loop over the map that pass a test.
unfoldable pub select :
    (SubConnEntry → Bool) → (Ref → SubConnEntry) → List (PoolKey × Ref) → List Ref
select test store [] = []
select test store ((_, r) ∷ m) =
    if test (store r) then r ∷ select test store m else select test store m

unfoldable pub is_live : SubConnEntry → Bool
is_live e = not e.draining

unfoldable pub is_serving : HealthState → Bool
is_serving serving = true
is_serving _ = false

unfoldable pub is_healthy : SubConnEntry → Bool
unfolding is_serving
is_healthy e = not e.draining && is_serving e.health

-- `Pool.Snapshot` and `Pool.HealthyEntries`.
unfoldable pub snapshot : MapOrder → ℕ → Pool → List Ref
unfolding select is_live
snapshot order loop p = select is_live p.store (order.visit (PoolKey × Ref) loop p.entries)

unfoldable pub healthy_entries : MapOrder → ℕ → Pool → List Ref
unfolding select is_healthy
healthy_entries order loop p =
    select is_healthy p.store (order.visit (PoolKey × Ref) loop p.entries)
