-- ===== src/Balancer/Steps.antt =====
-- The handlers of the balancer, as histories of the pool's own steps.
use go_kubegrpc.Base.{
  Bool-cases, ℕ, refl, List, [], ◌∷◌, Option, none, some, Bool, true, false, Option-cases, inl, inr,
}
use go_kubegrpc.Base.Maps.{lookup, MapOrder}
use go_kubegrpc.Text.{Bytes}
use go_kubegrpc.Resolver.{Endpoint, Endpoints, Key, Key-discrete}
use go_kubegrpc.Pool.Counts.{creations, shutdowns}
use go_kubegrpc.Base.{Bool-cases}
use go_kubegrpc.Pool.{
  cancel_health, dial_health, connect, Pool, PoolKey, Ref, HealthState, ConnState,
  update_conn_state,
}
use go_kubegrpc.Pool.Lifecycle.{
  writes, probes, connects, removes, adds, here, next, emits, Step, Reach,
}
use go_kubegrpc.Balancer.{
  current_endpoints, capped_desired, BuildConfig, Balancer, Policies, add_missing, remove_stale,
  reconcile_pool, rebuild_picker, apply_config, update_client_conn_state,
}
use go_kubegrpc.Balancer.SubConns.{
  on_ready, on_failure, on_ready, on_failure, Probe, start_health_check, stop_health_check,
  on_state, update_sub_conn_state, on_health, find_key_for_sub_conn, get_pool_entry,
}

pub Reach-trans :
    {counting : Bool} {grants : ℕ → Bytes → Bool} {p q r : Pool}
    → Reach counting grants p q
    → Reach counting grants q r
    → Reach counting grants p r
Reach-trans h here = h
Reach-trans h (next k s) = next (Reach-trans h k) s

module _ {counting : Bool} (grants : ℕ → Bytes → Bool) where
  pub once : {p q : Pool} → Step counting grants p q → Reach counting grants p q
  once s = next here s

  add_missing-Reach :
      (cfg : BuildConfig) (current desired : Endpoints) (p : Pool)
      → Reach counting grants p (add_missing grants cfg current desired p)
  unfolding add_missing
  add_missing-Reach cfg current [] p = here
  add_missing-Reach cfg current ((k, ep) ∷ desired) p =
      elim (Option-cases (lookup Key-discrete k current)) [
        | inl e ↦ rw e (
            Reach-trans (once (adds cfg.namespace cfg.service ep))
              (add_missing-Reach cfg current desired _))
        | inr (x, e) ↦ rw e (add_missing-Reach cfg current desired p)
      ]

  remove_stale-Reach :
      (cfg : BuildConfig) (desired current : Endpoints) (p : Pool)
      → Reach counting grants p (remove_stale cfg desired current p)
  unfolding remove_stale
  remove_stale-Reach cfg desired [] p = here
  remove_stale-Reach cfg desired ((k, ep) ∷ current) p =
      elim (Option-cases (lookup Key-discrete k desired)) [
        | inl e ↦ rw e (Reach-trans (once (removes _)) (remove_stale-Reach cfg desired current _))
        | inr (x, e) ↦ rw e (remove_stale-Reach cfg desired current p)
      ]

  rebuild_picker-Reach :
      (policies : Policies) (order : MapOrder) (loop : ℕ) (b : Balancer) {p q : Pool}
      → Reach counting grants p q
      → Reach counting grants p (rebuild_picker policies order loop (record b { pool = q })).pool
  unfolding rebuild_picker creations shutdowns
  rebuild_picker-Reach policies order loop b h = next h (emits _ (λ sc log. (refl, refl)))

  start_health_check-Reach :
      (probe : Probe) (r : Ref) (p : Pool) → Reach counting grants p (start_health_check probe r p)
  unfolding start_health_check creations shutdowns
  start_health_check-Reach Probe.dial_failed r p = here
  start_health_check-Reach Probe.watch_failed r p =
      next
        (next
          (next (once (emits (dial_health r) (λ sc log. (refl, refl))))
            (writes r _ refl refl refl refl))
          (emits (cancel_health r) (λ sc log. (refl, refl))))
        (writes r _ refl refl refl refl)
  start_health_check-Reach Probe.started r p =
      next (once (emits (dial_health r) (λ sc log. (refl, refl)))) (writes r _ refl refl refl refl)

  stop_health_check-Reach : (r : Ref) (p : Pool) → Reach counting grants p (stop_health_check r p)
  unfolding stop_health_check creations shutdowns
  stop_health_check-Reach r p = elim (Bool-cases (p.store r).health_cancel) [
    | inl e ↦ rw e (
        next (once (emits (cancel_health r) (λ sc log. (refl, refl))))
          (writes r _ refl refl refl refl))
    | inr e ↦ rw e here
  ]

  on_ready-Reach :
      (order : MapOrder) (probe : Probe) (check : Bool) (key : PoolKey) (p : Pool)
      → Reach counting grants p (on_ready order probe check key p)
  unfolding on_ready
  on_ready-Reach order probe false key p = once (probes key _)
  on_ready-Reach order probe true key p = elim (Option-cases (get_pool_entry order 1 key p)) [
    | inl e ↦ rw (e, on_ready) here
    | inr (r, e) ↦ elim (Bool-cases (p.store r).health_cancel) [
      | inl f ↦ rw (e, on_ready, f) here
      | inr f ↦ rw (e, on_ready, f) (start_health_check-Reach probe r p)
    ]
  ]

  on_failure-Reach :
      (order : MapOrder) (key : PoolKey) (p : Pool)
      → Reach counting grants p (on_failure order key p)
  unfolding on_failure
  on_failure-Reach order key p = elim (Option-cases (get_pool_entry order 1 key p)) [
    | inl e ↦ rw (e, on_failure) (once (probes key _))
    | inr (r, e) ↦ rw (e, on_failure) (next (stop_health_check-Reach r p) (probes key _))
  ]

  on_state-Reach :
      (order : MapOrder) (probe : Probe) (check : Bool) (sc : ℕ) (key : PoolKey) (state : ConnState)
      (p : Pool)
      → Reach counting grants p (on_state order probe check sc key state p)
  unfolding on_state creations shutdowns
  on_state-Reach order probe check sc key ConnState.ready p = on_ready-Reach order probe check key p
  on_state-Reach order probe check sc key ConnState.transient_failure p =
      on_failure-Reach order key p
  on_state-Reach order probe check sc key ConnState.shut_down p = on_failure-Reach order key p
  on_state-Reach order probe check sc key ConnState.idle p =
      once (emits (connect sc) (λ s log. (refl, refl)))
  on_state-Reach order probe check sc key ConnState.connecting p = here

  reconcile_pool-Reach :
      (order : MapOrder) (cfg : BuildConfig) (desired : Endpoints) (p : Pool)
      → Reach counting grants p (reconcile_pool grants order cfg desired p)
  unfolding reconcile_pool
  reconcile_pool-Reach order cfg desired p =
      let current = current_endpoints order p in
      Reach-trans (add_missing-Reach cfg current (order.visit (Key × Endpoint) 2 desired) p)
        (remove_stale-Reach cfg desired (order.visit (Key × Endpoint) 3 current) _)

  pub update_client_conn_state-Reach :
      (policies : Policies) (order : MapOrder) (attributes : Option BuildConfig)
      (addrs : List Bytes) (b : Balancer)
      → Reach counting grants b.pool
          (update_client_conn_state policies grants order attributes addrs b).pool
  unfolding update_client_conn_state apply_config
  update_client_conn_state-Reach policies order none addrs b =
      rebuild_picker-Reach policies order 4 b
        (reconcile_pool-Reach order b.cfg (capped_desired order b.cfg.max_subconns addrs) b.pool)
  update_client_conn_state-Reach policies order (some cfg) addrs b =
      rebuild_picker-Reach policies order 4 (apply_config (some cfg) b)
        (reconcile_pool-Reach order cfg (capped_desired order cfg.max_subconns addrs) b.pool)

  pub update_sub_conn_state-Reach :
      (policies : Policies) (order : MapOrder) (probe : Probe) (sc : ℕ) (state : ConnState)
      (b : Balancer)
      → Reach counting grants b.pool (update_sub_conn_state policies order probe sc state b).pool
  unfolding update_sub_conn_state
  update_sub_conn_state-Reach policies order probe sc state b =
      elim (Option-cases (find_key_for_sub_conn order sc b.pool)) [
        | inl e ↦ rw (e, update_sub_conn_state) here
        | inr (key, e) ↦
            rw (e, update_sub_conn_state)
              (rebuild_picker-Reach policies order 2 b (
                Reach-trans (once (connects key state)) (
                  on_state-Reach order probe b.cfg.enable_health_check sc key state
                    (update_conn_state key state b.pool))))
      ]

  pub on_health-Reach :
      (policies : Policies) (order : MapOrder) (r : Ref) (state : HealthState) (b : Balancer)
      → Reach counting grants b.pool (on_health policies order r state b).pool
  unfolding on_health
  on_health-Reach policies order r state b =
      rebuild_picker-Reach policies order 0 b (once (probes (b.pool.store r).key state))
