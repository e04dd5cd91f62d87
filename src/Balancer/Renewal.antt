-- ===== src/Balancer/Renewal.antt =====
-- What a resolver update leaves of the health of the entries in the pool.
use go_kubegrpc.Base.{ℕ, inl, inr, List, [], ◌∷◌, Option, none, some, Bool, Option-cases}
use go_kubegrpc.Base.Maps.{lookup, MapOrder}
use go_kubegrpc.Text.{Bytes}
use go_kubegrpc.Resolver.{Endpoint, Endpoints, Key, Key-discrete, key_of}
use go_kubegrpc.Pool.{Pool}
use go_kubegrpc.Pool.Invariant.{IsPool, add-IsPool}
use go_kubegrpc.Pool.Renewal.{Renews, Renews-refl, Renews-trans, add-Renews, remove-Renews}
use go_kubegrpc.Balancer.{
  BuildConfig, Balancer, Policies, add_missing, remove_stale, reconcile_pool, pool_key,
  current_endpoints, capped_desired, rebuild_picker, apply_config, update_client_conn_state,
}

add_missing-Renews :
    (grants : ℕ → Bytes → Bool) (cfg : BuildConfig) (current desired : Endpoints) (p : Pool)
    → IsPool p
    → Renews p (add_missing grants cfg current desired p)
unfolding add_missing
add_missing-Renews grants cfg current [] p i = Renews-refl p
add_missing-Renews grants cfg current ((k, ep) ∷ desired) p i =
    elim (Option-cases (lookup Key-discrete k current)) [
      | inl e ↦
          rw (e, add_missing)
            (Renews-trans p _ _ (add-Renews grants cfg.namespace cfg.service ep p i) (
              add_missing-Renews grants cfg current desired _
                (add-IsPool grants cfg.namespace cfg.service ep p i)))
      | inr (x, e) ↦ rw (e, add_missing) (add_missing-Renews grants cfg current desired p i)
    ]

remove_stale-Renews :
    (cfg : BuildConfig) (desired current : Endpoints) (p : Pool)
    → Renews p (remove_stale cfg desired current p)
unfolding remove_stale
remove_stale-Renews cfg desired [] p = Renews-refl p
remove_stale-Renews cfg desired ((k, ep) ∷ current) p =
    elim (Option-cases (lookup Key-discrete k desired)) [
      | inl e ↦
          rw (e, remove_stale)
            (Renews-trans p _ _ (remove-Renews (pool_key cfg (key_of ep)) p)
              (remove_stale-Renews cfg desired current _))
      | inr (x, e) ↦ rw (e, remove_stale) (remove_stale-Renews cfg desired current p)
    ]

reconcile_pool-Renews :
    (grants : ℕ → Bytes → Bool) (order : MapOrder) (cfg : BuildConfig) (desired : Endpoints)
    (p : Pool)
    → IsPool p
    → Renews p (reconcile_pool grants order cfg desired p)
unfolding reconcile_pool
reconcile_pool-Renews grants order cfg desired p i =
    let current = current_endpoints order p in
    Renews-trans p _ _
      (add_missing-Renews grants cfg current (order.visit (Key × Endpoint) 2 desired) p i)
      (remove_stale-Renews cfg desired (order.visit (Key × Endpoint) 3 current) _)

-- The picker and the log have no part in it.
Renews-rebuild_picker :
    (policies : Policies) (order : MapOrder) (loop : ℕ) (b : Balancer) (p q : Pool)
    → Renews p q
    → Renews p (rebuild_picker policies order loop (record b { pool = q })).pool
unfolding rebuild_picker
Renews-rebuild_picker policies order loop b p q h = record { later = h.later; entry = h.entry }

pub update_client_conn_state-Renews :
    (policies : Policies) (grants : ℕ → Bytes → Bool) (order : MapOrder)
    (attributes : Option BuildConfig) (addrs : List Bytes) (b : Balancer)
    → IsPool b.pool
    → Renews b.pool (update_client_conn_state policies grants order attributes addrs b).pool
unfolding update_client_conn_state apply_config
update_client_conn_state-Renews policies grants order none addrs b i =
    Renews-rebuild_picker policies order 4 b b.pool _ (
      reconcile_pool-Renews grants order b.cfg (capped_desired order b.cfg.max_subconns addrs)
        b.pool i)
update_client_conn_state-Renews policies grants order (some cfg) addrs b i =
    Renews-rebuild_picker policies order 4 (apply_config (some cfg) b) b.pool _ (
      reconcile_pool-Renews grants order cfg (capped_desired order cfg.max_subconns addrs) b.pool i)
