-- ===== src/Balancer/Scope.antt =====
-- The namespace and service of the pool's keys.
use go_kubegrpc.Base.{ℕ, sym, ap, ◌∙◌, List, [], ◌∷◌, Option, Bool, arith, Option-cases, inl, inr}
use go_kubegrpc.Base.Maps.{lookup, MapOrder}
use go_kubegrpc.Text.{Bytes}
use go_kubegrpc.Resolver.{Endpoint, Endpoints, Key, Key-discrete, key_of}
use go_kubegrpc.Pool.{Pool, PoolKey, PoolKey-discrete, add, remove}
use go_kubegrpc.Pool.Lookup.{endpoint_key, lookup-add_ne, lookup-remove}
use go_kubegrpc.Balancer.{
  BuildConfig, Balancer, Policies, add_missing, remove_stale, reconcile_pool, current_endpoints,
  pool_key, capped_desired, apply_config, update_client_conn_state,
}
use go_kubegrpc.Balancer.Snapshots.{InScope}
use go_kubegrpc.Balancer.Update.{update_pool}

add-InScope :
    (grants : ℕ → Bytes → Bool) (cfg : BuildConfig) (ep : Endpoint) (p : Pool)
    → InScope cfg p
    → InScope cfg (add grants cfg.namespace cfg.service ep p).0
add-InScope grants cfg ep p s k r e =
    elim (PoolKey-discrete (endpoint_key cfg.namespace cfg.service ep) k) [
      | yes same ↦
          (sym (ap (λ (q : PoolKey). q.namespace) same), sym (ap (λ (q : PoolKey). q.service) same))
      | no ne ↦ s k r (sym (lookup-add_ne grants cfg.namespace cfg.service ep k p ne) ∙ e)
    ]

remove-InScope :
    (cfg : BuildConfig) (key : PoolKey) (p : Pool) → InScope cfg p → InScope cfg (remove key p)
remove-InScope cfg key p s k r e = s k r (ground (arith, lookup-remove key k p))

add_missing-InScope :
    (grants : ℕ → Bytes → Bool) (cfg : BuildConfig) (current desired : Endpoints) (p : Pool)
    → InScope cfg p
    → InScope cfg (add_missing grants cfg current desired p)
unfolding add_missing
add_missing-InScope grants cfg current [] p s = s
add_missing-InScope grants cfg current ((k, ep) ∷ desired) p s =
    elim (Option-cases (lookup Key-discrete k current)) [
      | inl e ↦
          rw (e, add_missing)
            (add_missing-InScope grants cfg current desired _ (add-InScope grants cfg ep p s))
      | inr (x, e) ↦ rw (e, add_missing) (add_missing-InScope grants cfg current desired p s)
    ]

remove_stale-InScope :
    (cfg : BuildConfig) (desired current : Endpoints) (p : Pool)
    → InScope cfg p
    → InScope cfg (remove_stale cfg desired current p)
unfolding remove_stale
remove_stale-InScope cfg desired [] p s = s
remove_stale-InScope cfg desired ((k, ep) ∷ current) p s =
    elim (Option-cases (lookup Key-discrete k desired)) [
      | inl e ↦
          rw (e, remove_stale)
            (remove_stale-InScope cfg desired current _
              (remove-InScope cfg (pool_key cfg (key_of ep)) p s))
      | inr (x, e) ↦ rw (e, remove_stale) (remove_stale-InScope cfg desired current p s)
    ]

-- An update leaves the pool in the scope of the configuration in force.
pub update_client_conn_state-InScope :
    (policies : Policies) (grants : ℕ → Bytes → Bool) (order : MapOrder)
    (attributes : Option BuildConfig) (addrs : List Bytes) (b : Balancer)
    → let cfg = (apply_config attributes b).cfg in
      InScope cfg b.pool
      → InScope cfg (update_client_conn_state policies grants order attributes addrs b).pool
unfolding reconcile_pool
update_client_conn_state-InScope policies grants order attributes addrs b s k r e =
    let cfg = (apply_config attributes b).cfg in
    let desired = capped_desired order cfg.max_subconns addrs in
    let current = current_endpoints order b.pool in
    remove_stale-InScope cfg desired (order.visit (Key × Endpoint) 3 current)
      (add_missing grants cfg current (order.visit (Key × Endpoint) 2 desired) b.pool)
      (add_missing-InScope grants cfg current (order.visit (Key × Endpoint) 2 desired) b.pool s) k r
      (ap (lookup PoolKey-discrete k) (sym (update_pool policies grants order attributes addrs b))
        ∙ e)
