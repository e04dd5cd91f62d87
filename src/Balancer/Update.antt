-- ===== src/Balancer/Update.antt =====
-- The reconciliation of UpdateClientConnState: which keys the pool holds after it, and which entries
-- it leaves alone.
use go_kubegrpc.Base.{
  if◌then◌else◌, ◌*◌, ℕ, ◌≡◌, ◌≢◌, ◌↔◌, ◌∙◌, refl, ap, List, Option, none, some, Bool, true, arith,
  Option-cases, inl, inr, ltb,
}
use go_kubegrpc.Base.Maps.{lookup, MapOrder}
use go_kubegrpc.Base.Count.{count-visit, present, absent}
use go_kubegrpc.Text.{Bytes}
use go_kubegrpc.Resolver.{Endpoint, Endpoints, Key, Key-discrete}
use go_kubegrpc.Pool.{Pool, PoolKey-discrete}
use go_kubegrpc.Pool.Invariant.{IsPool}
use go_kubegrpc.Balancer.{
  BuildConfig, Balancer, Policies, pool_key, reconcile_pool, current_endpoints, capped_desired,
  apply_config, update_client_conn_state, rebuild_picker, add_missing,
}
use go_kubegrpc.Balancer.Loops.{add_missing_kept, add_missing_present, lookup-remove_stale}
use go_kubegrpc.Balancer.Snapshots.{
  IsEndpoints, InScope, visit-IsKeyed, lookup-current_endpoints, capped_desired-IsEndpoints,
  current_endpoints-IsEndpoints,
}

module _ (order : MapOrder) (cfg : BuildConfig) (desired : Endpoints) (p : Pool) (k : Key) where
  -- What the second loop leaves under a key, whatever the first loop made of the pool.
  lookup-reconcile_pool :
      (grants : ℕ → Bytes → Bool)
      → IsPool p
      → InScope cfg p
      → let q =
          add_missing grants cfg
            (current_endpoints order p)
            (order.visit (Key × Endpoint) 2 desired)
            p in
        lookup PoolKey-discrete (pool_key cfg k) (reconcile_pool grants order cfg desired p).entries
        ≡ (if ltb 0 (
              present (lookup PoolKey-discrete (pool_key cfg k) p.entries)
              * absent (lookup Key-discrete k desired))
            then none
            else lookup PoolKey-discrete (pool_key cfg k) q.entries)
  unfolding reconcile_pool
  lookup-reconcile_pool grants i s =
      let current = current_endpoints order p in
      let visited = order.visit (Key × Endpoint) 3 current in
      let e = current_endpoints-IsEndpoints order p in
      lookup-remove_stale cfg desired k visited
        (add_missing grants cfg current (order.visit (Key × Endpoint) 2 desired) p)
        (visit-IsKeyed order 3 current e.0)
      ∙ ground (
        arith,
        count-visit Key-discrete order 3 k current e.1,
        lookup-current_endpoints order cfg p k i s,
      )

  -- An entry that the pool has and that stays desired is left alone.
  pub reconcile_pool_kept :
      (grants : ℕ → Bytes → Bool)
      → IsEndpoints desired
      → IsPool p
      → InScope cfg p
      → lookup PoolKey-discrete (pool_key cfg k) p.entries ≢ none
      → lookup Key-discrete k desired ≢ none
      → lookup PoolKey-discrete (pool_key cfg k) (reconcile_pool grants order cfg desired p).entries
        ≡ lookup PoolKey-discrete (pool_key cfg k) p.entries
  reconcile_pool_kept grants d i s h wanted =
      let current = current_endpoints order p in
      let visited = order.visit (Key × Endpoint) 2 desired in
      let here : lookup Key-discrete k current ≢ none =
        λ e. ground (arith, lookup-current_endpoints order cfg p k i s) in
      let stays =
        add_missing_kept grants cfg current k visited p (visit-IsKeyed order 2 desired d.0)
          (inr here) in
      ground (arith, lookup-reconcile_pool grants i s, stays)

  -- The pool holds no key that is not desired.
  pub reconcile_pool_undesired :
      (grants : ℕ → Bytes → Bool)
      → IsEndpoints desired
      → IsPool p
      → InScope cfg p
      → lookup Key-discrete k desired ≡ none
      → lookup PoolKey-discrete (pool_key cfg k) (reconcile_pool grants order cfg desired p).entries
        ≡ none
  reconcile_pool_undesired grants d i s f =
      let current = current_endpoints order p in
      let visited = order.visit (Key × Endpoint) 2 desired in
      let counted = count-visit Key-discrete order 2 k desired d.1 in
      elim (Option-cases (lookup PoolKey-discrete (pool_key cfg k) p.entries)) [
        | inr (r, e) ↦ ground (arith, lookup-reconcile_pool grants i s)
        | inl e ↦ ground (
          arith,
          lookup-reconcile_pool grants i s,
          add_missing_kept grants cfg current k visited p (visit-IsKeyed order 2 desired d.0)
              (inl (counted ∙ ap present f)),
        )
      ]

  -- Where every Add is granted, the pool holds the desired keys and no others.
  pub reconcile_pool_members :
      (grants : ℕ → Bytes → Bool)
      → ((n : ℕ) (addr : Bytes) → grants n addr ≡ true)
      → IsEndpoints desired
      → IsPool p
      → InScope cfg p
      → absent (
          lookup PoolKey-discrete
            (pool_key cfg k)
            (reconcile_pool grants order cfg desired p).entries)
        ≡ absent (lookup Key-discrete k desired)
  reconcile_pool_members grants g d i s =
      let current = current_endpoints order p in
      let visited = order.visit (Key × Endpoint) 2 desired in
      let keyed = visit-IsKeyed order 2 desired d.0 in
      let counted = count-visit Key-discrete order 2 k desired d.1 in
      let same = lookup-current_endpoints order cfg p k i s in
      elim (Option-cases (lookup PoolKey-discrete (pool_key cfg k) p.entries)) [
        | inr (r, e) ↦
            ground (arith, lookup-reconcile_pool grants i s, reconcile_pool_kept grants d i s)
        | inl e ↦ elim (Option-cases (lookup Key-discrete k desired)) [
          | inl f ↦ ground (arith, reconcile_pool_undesired grants d i s f)
          | inr (ep, f) ↦ ground (
            arith,
            lookup-reconcile_pool grants i s,
            add_missing_present grants cfg current g k visited p keyed (ground (arith, same))
                (inl (ground (arith, counted))),
          )
        ]
      ]

apply_config_pool :
    (attributes : Option BuildConfig) (b : Balancer) → (apply_config attributes b).pool ≡ b.pool
unfolding apply_config
apply_config_pool none b = refl
apply_config_pool (some cfg) b = refl

pub update_pool :
    (policies : Policies) (grants : ℕ → Bytes → Bool) (order : MapOrder)
    (attributes : Option BuildConfig) (addrs : List Bytes) (b : Balancer)
    → let cfg = (apply_config attributes b).cfg in
      (update_client_conn_state policies grants order attributes addrs b).pool.entries
      ≡ (reconcile_pool grants order cfg
          (capped_desired order cfg.max_subconns addrs)
          b.pool).entries
unfolding update_client_conn_state rebuild_picker
update_pool policies grants order attributes addrs b = rw (apply_config_pool attributes b) refl

-- R4.1, R4.2, R12.1: where every NewSubConn succeeds, the pool satisfies its invariant, and its keys
-- have the namespace and service of the configuration in force, a resolver update leaves in the pool
-- exactly the endpoints desired under the cap, whatever order Go visits its maps in.
pub update_client_conn_state_members :
    (policies : Policies) (grants : ℕ → Bytes → Bool) (order : MapOrder)
    (attributes : Option BuildConfig) (addrs : List Bytes) (b : Balancer) (k : Key)
    → ((n : ℕ) (addr : Bytes) → grants n addr ≡ true)
    → IsPool b.pool
    → InScope (apply_config attributes b).cfg b.pool
    → let cfg = (apply_config attributes b).cfg in
      let after = update_client_conn_state policies grants order attributes addrs b in
      (lookup PoolKey-discrete (pool_key cfg k) after.pool.entries ≢ none)
      ↔ (lookup Key-discrete k (capped_desired order cfg.max_subconns addrs) ≢ none)
update_client_conn_state_members policies grants order attributes addrs b k g i s =
    let cfg = (apply_config attributes b).cfg in
    let desired = capped_desired order cfg.max_subconns addrs in
    ground (
      arith,
      update_pool policies grants order attributes addrs b,
      reconcile_pool_members order cfg desired b.pool k grants g
          (capped_desired-IsEndpoints order cfg.max_subconns addrs) i s,
    )

-- Where the pool satisfies its invariant and its keys have the namespace and service of the
-- configuration in force, an endpoint that is in the pool and stays desired keeps its entry, and so
-- its SubConn, whether or not NewSubConn succeeds for others.
pub update_client_conn_state_kept :
    (policies : Policies) (grants : ℕ → Bytes → Bool) (order : MapOrder)
    (attributes : Option BuildConfig) (addrs : List Bytes) (b : Balancer) (k : Key)
    → IsPool b.pool
    → InScope (apply_config attributes b).cfg b.pool
    → let cfg = (apply_config attributes b).cfg in
      let after = update_client_conn_state policies grants order attributes addrs b in
      lookup PoolKey-discrete (pool_key cfg k) b.pool.entries ≢ none
      → lookup Key-discrete k (capped_desired order cfg.max_subconns addrs) ≢ none
      → lookup PoolKey-discrete (pool_key cfg k) after.pool.entries
        ≡ lookup PoolKey-discrete (pool_key cfg k) b.pool.entries
update_client_conn_state_kept policies grants order attributes addrs b k i s h wanted =
    let cfg = (apply_config attributes b).cfg in
    let desired = capped_desired order cfg.max_subconns addrs in
    ap (lookup PoolKey-discrete (pool_key cfg k))
      (update_pool policies grants order attributes addrs b)
    ∙ reconcile_pool_kept order cfg desired b.pool k grants
        (capped_desired-IsEndpoints order cfg.max_subconns addrs) i s h wanted
