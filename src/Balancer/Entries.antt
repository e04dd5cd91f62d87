-- ===== src/Balancer/Entries.antt =====
-- The handlers that leave the map of the pool alone.
use go_kubegrpc.Base.{
  ℕ, ◌≡◌, refl, ◌∙◌, true, false, Bool, arith, Option-cases, Bool-cases, inl, inr,
}
use go_kubegrpc.Base.Maps.{lookup, MapOrder}
use go_kubegrpc.Pool.{
  Pool, PoolKey, PoolKey-discrete, Ref, HealthState, ConnState, Wake, reverify, drain_step,
  update_conn_state, update_health,
}
use go_kubegrpc.Balancer.{Balancer, Policies, rebuild_picker}
use go_kubegrpc.Balancer.SubConns.{
  Probe, start_health_check, stop_health_check, on_ready, on_failure, on_state,
  find_key_for_sub_conn, get_pool_entry, update_sub_conn_state, on_health,
}

pub entries-drain_step : (w : Wake) (r : Ref) (p : Pool) → (drain_step w r p).entries ≡ p.entries
unfolding drain_step
entries-drain_step w r p = ground arith

entries-reverify : (state : ConnState) (p : Pool) → (reverify state p).entries ≡ p.entries
unfolding reverify
entries-reverify ConnState.idle p = refl
entries-reverify ConnState.connecting p = refl
entries-reverify ConnState.ready p = refl
entries-reverify ConnState.transient_failure p = refl
entries-reverify ConnState.shut_down p = refl

pub entries-update_conn_state :
    (key : PoolKey) (state : ConnState) (p : Pool)
    → (update_conn_state key state p).entries ≡ p.entries
unfolding update_conn_state
entries-update_conn_state key state p =
    elim (Option-cases (lookup PoolKey-discrete key p.entries)) [
      | inl e ↦ rw (e, update_conn_state) refl
      | inr (r, e) ↦ rw (e, update_conn_state) (entries-reverify state _)
    ]

pub entries-update_health :
    (key : PoolKey) (state : HealthState) (p : Pool)
    → (update_health key state p).entries ≡ p.entries
unfolding update_health
entries-update_health key state p = ground arith

entries-start_health_check :
    (probe : Probe) (r : Ref) (p : Pool) → (start_health_check probe r p).entries ≡ p.entries
unfolding start_health_check
entries-start_health_check Probe.dial_failed r p = refl
entries-start_health_check Probe.watch_failed r p = refl
entries-start_health_check Probe.started r p = refl

entries-stop_health_check : (r : Ref) (p : Pool) → (stop_health_check r p).entries ≡ p.entries
unfolding stop_health_check
entries-stop_health_check r p = ground arith

entries-on_ready :
    (order : MapOrder) (probe : Probe) (check : Bool) (key : PoolKey) (p : Pool)
    → (on_ready order probe check key p).entries ≡ p.entries
unfolding on_ready
entries-on_ready order probe false key p = entries-update_health key _ p
entries-on_ready order probe true key p = elim (Option-cases (get_pool_entry order 1 key p)) [
  | inl e ↦ rw (e, on_ready) refl
  | inr (r, e) ↦ elim (Bool-cases (p.store r).health_cancel) [
    | inl f ↦ rw (e, on_ready, f) refl
    | inr f ↦ rw (e, on_ready, f) (entries-start_health_check probe r p)
  ]
]

entries-on_failure :
    (order : MapOrder) (key : PoolKey) (p : Pool) → (on_failure order key p).entries ≡ p.entries
unfolding on_failure
entries-on_failure order key p = elim (Option-cases (get_pool_entry order 1 key p)) [
  | inl e ↦ rw (e, on_failure) (entries-update_health key _ p)
  | inr (r, e) ↦
      rw (e, on_failure)
        (entries-update_health key _ (stop_health_check r p) ∙ entries-stop_health_check r p)
]

entries-on_state :
    (order : MapOrder) (probe : Probe) (check : Bool) (sc : ℕ) (key : PoolKey) (state : ConnState)
    (p : Pool)
    → (on_state order probe check sc key state p).entries ≡ p.entries
unfolding on_state
entries-on_state order probe check sc key ConnState.ready p =
    entries-on_ready order probe check key p
entries-on_state order probe check sc key ConnState.transient_failure p =
    entries-on_failure order key p
entries-on_state order probe check sc key ConnState.shut_down p = entries-on_failure order key p
entries-on_state order probe check sc key ConnState.idle p = refl
entries-on_state order probe check sc key ConnState.connecting p = refl

pub entries-update_sub_conn_state :
    (policies : Policies) (order : MapOrder) (probe : Probe) (sc : ℕ) (state : ConnState)
    (b : Balancer)
    → (update_sub_conn_state policies order probe sc state b).pool.entries ≡ b.pool.entries
unfolding update_sub_conn_state rebuild_picker
entries-update_sub_conn_state policies order probe sc state b =
    elim (Option-cases (find_key_for_sub_conn order sc b.pool)) [
      | inl e ↦ rw (e, update_sub_conn_state) refl
      | inr (key, e) ↦
          rw (e, update_sub_conn_state)
            (entries-on_state order probe b.cfg.enable_health_check sc key state
                (update_conn_state key state b.pool)
              ∙ entries-update_conn_state key state b.pool)
    ]

pub entries-on_health :
    (policies : Policies) (order : MapOrder) (r : Ref) (state : HealthState) (b : Balancer)
    → (on_health policies order r state b).pool.entries ≡ b.pool.entries
unfolding on_health rebuild_picker
entries-on_health policies order r state b = entries-update_health (b.pool.store r).key state b.pool
