-- ===== src/Balancer/SubConns.antt =====
-- internal/balancer/builder.go: what the balancer does on the connectivity of a SubConn and on the
-- transitions of its health check. `Probe` stands for how the start of a health check ends in gRPC.
use go_kubegrpc.Base.{
  ℕ, List, [], ◌∷◌, Option, none, some, Bool, true, false, ite, if◌then◌else◌, ℕ_discrete,
}
use go_kubegrpc.Base.Maps.{MapOrder}
use go_kubegrpc.Pool.{
  Pool, PoolKey, PoolKey-discrete, Ref, HealthState, serving, not_serving, ConnState, idle,
  connecting, ready, transient_failure, shut_down, connect, dial_health, cancel_health, emit, write,
  update_conn_state, update_health,
}
use go_kubegrpc.Pool.Queries.{snapshot}
use go_kubegrpc.Picker.{Store}
use go_kubegrpc.Balancer.{Balancer, Policies, rebuild_picker}

-- The first entry of a list that has a SubConn, or a key.
unfoldable pub find_sub_conn : ℕ → Store → List Ref → Option PoolKey
find_sub_conn sc store [] = none
find_sub_conn sc store (r ∷ rs) =
    ite (ℕ_discrete (store r).sub_conn sc) (some (store r).key) (find_sub_conn sc store rs)

unfoldable pub find_entry : PoolKey → Store → List Ref → Option Ref
find_entry key store [] = none
find_entry key store (r ∷ rs) =
    ite (PoolKey-discrete (store r).key key) (some r) (find_entry key store rs)

-- `findKeyForSubConn` and `getPoolEntry`.
unfoldable pub find_key_for_sub_conn : MapOrder → ℕ → Pool → Option PoolKey
unfolding find_sub_conn
find_key_for_sub_conn order sc p = find_sub_conn sc p.store (snapshot order 0 p)

unfoldable pub get_pool_entry : MapOrder → ℕ → PoolKey → Pool → Option Ref
unfolding find_entry
get_pool_entry order loop key p = find_entry key p.store (snapshot order loop p)

-- How grpc.NewClient and Watch end.
pub data Probe : Type 0 where
  dial_failed watch_failed started : Probe

abbrev pub set_cancel : Bool → Ref → Pool → Pool
set_cancel b r p = record p { store = write r (record (p.store r) { health_cancel = b }) p.store }

-- `startHealthCheck`: a Watch that fails is cancelled.
unfoldable pub start_health_check : Probe → Ref → Pool → Pool
start_health_check dial_failed r p = p
start_health_check watch_failed r p =
    set_cancel false r (emit (cancel_health r) (set_cancel true r (emit (dial_health r) p)))
start_health_check started r p = set_cancel true r (emit (dial_health r) p)

-- `stopHealthCheck`.
unfoldable pub stop_health_check : Ref → Pool → Pool
stop_health_check r p =
    if (p.store r).health_cancel then set_cancel false r (emit (cancel_health r) p) else p

-- A ready SubConn: its health check starts if there is none yet, or it serves at once.
unfoldable pub on_ready : MapOrder → Probe → Bool → PoolKey → Pool → Pool
unfolding get_pool_entry start_health_check
on_ready order probe false key p = update_health key serving p
on_ready order probe true key p = elim (get_pool_entry order 1 key p) [
  | none ↦ p
  | some r ↦ if (p.store r).health_cancel then p else start_health_check probe r p
]

-- A failed or closed SubConn: its health check stops, and it is not serving.
unfoldable pub on_failure : MapOrder → PoolKey → Pool → Pool
unfolding get_pool_entry stop_health_check
on_failure order key p =
    update_health key not_serving
      (elim (get_pool_entry order 1 key p) [ none ↦ p | some r ↦ stop_health_check r p ])

-- The switch on the connectivity state.
unfoldable pub on_state : MapOrder → Probe → Bool → ℕ → PoolKey → ConnState → Pool → Pool
unfolding on_ready on_failure
on_state order probe check sc key ready p = on_ready order probe check key p
on_state order probe check sc key transient_failure p = on_failure order key p
on_state order probe check sc key shut_down p = on_failure order key p
on_state order probe check sc key idle p = emit (connect sc) p
on_state order probe check sc key connecting p = p

-- `UpdateSubConnState`.
unfoldable pub update_sub_conn_state :
    Policies → MapOrder → Probe → ℕ → ConnState → Balancer → Balancer
unfolding find_key_for_sub_conn on_state rebuild_picker
update_sub_conn_state policies order probe sc state b =
    elim (find_key_for_sub_conn order sc b.pool) [
      | none ↦ b
      | some key ↦ rebuild_picker policies order 2 (record b {
        pool =
            on_state order probe b.cfg.enable_health_check sc key state
              (update_conn_state key state b.pool);
      })
    ]

-- The transition callback of an entry's health check; the entry is found again by its key.
unfoldable pub on_health : Policies → MapOrder → Ref → HealthState → Balancer → Balancer
unfolding rebuild_picker
on_health policies order r state b =
    rebuild_picker policies order 0
      (record b { pool = update_health (b.pool.store r).key state b.pool })
