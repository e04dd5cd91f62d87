-- ===== src/Health/Reports.antt =====
-- internal/balancer/builder.go: what the balancer makes of the transitions of a health check.
use go_kubegrpc.Base.{
  Bool, true, false, ◌↔◌, ◌≡◌, refl, ◌∙◌, ap, List, [], ◌∷◌, ◌++◌, ℕ, arith, some, map,
}
use go_kubegrpc.Base.Maps.{lookup, MapOrder}
use mathlib.Core.List.{reverse, reverse_aux}
use go_kubegrpc.Pool
use go_kubegrpc.Pool.{SubConnEntry, Pool, PoolKey-discrete, Ref, update_health, write}
use go_kubegrpc.Pool.Queries.{is_healthy, is_serving}
use go_kubegrpc.Balancer.{BuildConfig, Balancer, Policies, rebuild_picker}
use go_kubegrpc.Balancer.SubConns.{on_health}
use go_kubegrpc.Health.{
  HealthState, health_unknown, health_serving, health_not_serving, CheckerConfig, Event, run,
}
use go_kubegrpc.Health.Drain.{state}
use go_kubegrpc.Health.Drain.{Arrival, drain, new_state_machine}
use go_kubegrpc.Health.Transitions.{drain-last, consume, last_or, Stops}

-- The switch of the callback of `startHealthCheck`.
unfoldable pub to_pool_state : HealthState → Pool.HealthState
to_pool_state health_serving = Pool.serving
to_pool_state health_not_serving = Pool.not_serving
to_pool_state health_unknown = Pool.unknown

-- UpdateHealth at an entry of the map.
update_health-entry :
    (r : Ref) (s : Pool.HealthState) (p : Pool)
    → lookup PoolKey-discrete (p.store r).key p.entries ≡ some r
    → let q = update_health (p.store r).key s p in
      (lookup PoolKey-discrete (q.store r).key q.entries ≡ some r)
      × ((q.store r).health ≡ s)
      × ((q.store r).draining ≡ (p.store r).draining)
unfolding write update_health lookup
update_health-entry r s p h = rw (h, update_health) (ground (arith, h))

-- The configuration that `startHealthCheck` gives the checker.
unfoldable pub checker_config : BuildConfig → CheckerConfig
checker_config cfg = record {
  service_name = cfg.health_check_service_name;
  interval = cfg.health_check_interval;
  timeout = cfg.health_check_timeout;
  enable_check = cfg.enable_health_check;
}

module _ (policies : Policies) (order : MapOrder) (r : Ref) where
  -- The callback, on a transition of the entry's health.
  unfoldable pub on_transition : HealthState → Balancer → Balancer
  unfolding to_pool_state on_health
  on_transition s b = on_health policies order r (to_pool_state s) b

  -- The entry is the one in the map under its key.
  abbrev pub Owns : Balancer → Type 0
  Owns b = lookup PoolKey-discrete (b.pool.store r).key b.pool.entries ≡ some r

  -- What a transition leaves.
  on_transition-health :
      (s : HealthState) (b : Balancer)
      → Owns b
      → let c = on_transition s b in
        Owns c
        × ((c.pool.store r).health ≡ to_pool_state s)
        × ((c.pool.store r).draining ≡ (b.pool.store r).draining)
  unfolding on_transition on_health rebuild_picker
  on_transition-health s b h = update_health-entry r (to_pool_state s) b.pool h

  on_transitions-health :
      (ts : List HealthState) (t : HealthState) (b : Balancer)
      → Owns b
      → (b.pool.store r).health ≡ to_pool_state t
      → let c = consume on_transition ts b in
        Owns c
        × ((c.pool.store r).health ≡ to_pool_state (last_or t ts))
        × ((c.pool.store r).draining ≡ (b.pool.store r).draining)
  on_transitions-health [] t b h e = (h, e, refl)
  on_transitions-health (u ∷ us) t b h e =
      let one = on_transition-health u b h in
      let rest = on_transitions-health us u (on_transition u b) one.0 one.1 in
      (rest.0, rest.1, rest.2 ∙ one.2)

-- The latest of the states that were sent, newest first.
abbrev pub latest : List HealthState → HealthState
latest [] = health_unknown
latest (s ∷ ss) = s

last_or-reverse_aux :
    (s t : HealthState) (ss ts : List HealthState)
    → last_or s (reverse_aux ss (t ∷ ts)) ≡ last_or t ts
last_or-reverse_aux s t [] ts = refl
last_or-reverse_aux s t (u ∷ us) ts = last_or-reverse_aux s u us (t ∷ ts)

last_or-reverse : (ss : List HealthState) → last_or health_unknown (reverse ss) ≡ latest ss
last_or-reverse [] = refl
last_or-reverse (s ∷ ss) = last_or-reverse_aux health_unknown s ss []

-- An entry whose health is what the callback makes of a state.
reported_health :
    (t : HealthState) (draining : Bool) (e : SubConnEntry)
    → e.health ≡ to_pool_state t
    → e.draining ≡ draining
    → ((e.health ≡ Pool.serving) ↔ (t ≡ health_serving))
      × ((e.health ≡ Pool.not_serving) ↔ (t ≡ health_not_serving))
      × ((e.health ≡ Pool.unknown) ↔ (t ≡ health_unknown))
      × ((is_healthy e ≡ true) ↔ ((t ≡ health_serving) × (draining ≡ false)))
unfolding is_healthy is_serving to_pool_state
reported_health health_unknown draining e h d = ground (arith, h, d)
reported_health health_serving draining e h d = ground (arith, h, d)
reported_health health_not_serving draining e h d = ground (arith, h, d)

-- R6.2 to R6.5: let an entry be in the map under its key, without a health state so far, and let a
-- checker run for it as the balancer configures it. Whatever that checker has met, once Drain has
-- taken all that the checker sent and stopped, the entry is Serving exactly where the checker sent
-- HealthServing last, NotServing exactly where it sent HealthNotServing last, and else Unknown; it
-- can be picked exactly where HealthServing was sent last and the entry does not drain.
pub monitored_health :
    {E : Type 0} (status_code : E → ℕ) (es : List (Event E)) (policies : Policies)
    (order : MapOrder) (r : Ref) (b : Balancer) (stop : Arrival) (rest : List Arrival)
    → Owns policies order r b
    → (b.pool.store r).health ≡ Pool.unknown
    → Stops stop
    → let sent = (run status_code (checker_config b.cfg) es).sent in
      let sm = drain (map state (reverse sent) ++ stop ∷ rest) new_state_machine in
      let c = consume (on_transition policies order r) sm.transitions b in
      (((c.pool.store r).health ≡ Pool.serving) ↔ (latest sent ≡ health_serving))
      × (((c.pool.store r).health ≡ Pool.not_serving) ↔ (latest sent ≡ health_not_serving))
      × (((c.pool.store r).health ≡ Pool.unknown) ↔ (latest sent ≡ health_unknown))
      × ((is_healthy (c.pool.store r) ≡ true)
          ↔ ((latest sent ≡ health_serving) × ((b.pool.store r).draining ≡ false)))
unfolding to_pool_state
monitored_health status_code es policies order r b stop rest h e stops =
    let sent = (run status_code (checker_config b.cfg) es).sent in
    let sm = drain (map state (reverse sent) ++ stop ∷ rest) new_state_machine in
    let reported = drain-last (reverse sent) stop rest stops ∙ last_or-reverse sent in
    let after = on_transitions-health policies order r sm.transitions health_unknown b h e in
    reported_health (latest sent) (b.pool.store r).draining
      ((consume (on_transition policies order r) sm.transitions b).pool.store r)
      (after.1 ∙ ap to_pool_state reported) after.2
