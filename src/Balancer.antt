-- ===== src/Balancer.antt =====
-- internal/balancer/builder.go: the balancer over the pool. Its mutex makes every call of gRPC and
-- every health transition one step. A picker is installed by storing it and sending it to gRPC,
-- which the log shows. Arguments that stand for what is not in the repository: `order`, the order in
-- which Go visits maps; `grants`, whether a NewSubConn succeeds. Not modelled: log lines, and the logger in the configuration.
pub mod SubConns
pub mod Loops
pub mod Snapshots
pub mod Update
pub mod Scope
pub mod Steps
pub mod History
pub mod Rebuild
pub mod Entries
pub mod Desired
pub mod Bounds
pub mod Find
pub mod Effects
pub mod Changes
pub mod Traffic
pub mod Deterministic
pub mod Renewal
pub mod Verdicts
pub mod Availability
pub mod Addresses
use go_kubegrpc.Base.{
  ℕ, suc, ◌≡◌, refl, List, [], ◌∷◌, Option, none, some, Bool, true, false, ite, if◌then◌else◌,
  length, ltb, map, ℕ_discrete,
}
use go_kubegrpc.Base.Int.{ℤ}
use go_kubegrpc.Base.Maps.{lookup, insert, values, MapOrder}
use go_kubegrpc.Base.Result.{Result, ok, err}
use go_kubegrpc.Text.{Bytes, codes}
use go_kubegrpc.Sort.{sort_by}
use go_kubegrpc.Resolver.{Endpoint, Endpoints, Key, Key-discrete, key_of}
use go_kubegrpc.Address.{parse_addr_to_endpoint}
use go_kubegrpc.Cap.{cap_endpoints, endpoints_to_map}
use go_kubegrpc.Pool.{
  Pool, PoolKey, PoolKey-discrete, Ref, SubConnEntry, HealthState, unknown, serving, not_serving,
  ConnState, idle, connecting, ready, transient_failure, shut_down, connect, dial_health,
  cancel_health, update_state, emit, write, new_pool, add, remove, update_conn_state, update_health,
}
use go_kubegrpc.Pool.Queries.{snapshot, healthy_entries}
use go_kubegrpc.Picker.{Store, address_of, RrPicker, new_rr_picker}
use go_kubegrpc.Registry.{lookup_policy}

pub record BuildConfig : Type 0 where
  pub namespace : Bytes
  pub service : Bytes
  pub policy : Bytes
  pub max_subconns : ℤ
  pub enable_health_check : Bool
  pub health_check_service_name : Bytes
  pub health_check_interval : ℤ
  pub health_check_timeout : ℤ

-- The installed picker; a custom policy's is known by a number.
pub data Picker : Type 0 where
  no_healthy : Bytes → Picker
  rr : RrPicker → Picker
  lr : List Ref → Picker
  custom : ℕ → List Ref → Picker

abbrev pub Policies : Type 0
Policies = List (Bytes × (List Ref → Picker))

pub record Balancer : Type 0 where
  pub cfg : BuildConfig
  pub policy : Bytes
  pub pool : Pool
  pub picker : Picker

-- A policy that is not "" replaces the one before it.
unfoldable pub or_policy : Bytes → Bytes → Bytes
or_policy [] before = before
or_policy (c ∷ policy) before = c ∷ policy

-- `newK8sBalancer`.
unfoldable pub new_balancer : Store → BuildConfig → Balancer
unfolding new_pool or_policy
new_balancer store cfg = record {
  cfg = cfg;
  policy = or_policy cfg.policy (codes "round_robin");
  pool = new_pool store;
  picker = no_healthy cfg.service;
}

unfoldable pub connectivity_state_for_healthy : ℕ → ConnState
connectivity_state_for_healthy n = if ltb 0 n then ready else transient_failure

-- The picker for the healthy entries; an unknown policy falls back to round robin.
unfoldable pub build_picker : Policies → MapOrder → Balancer → List Ref → Picker
unfolding new_rr_picker
build_picker policies order b [] = no_healthy b.cfg.service
build_picker policies order b (r ∷ rs) = elim (lookup_policy order b.policy policies) [
  | ok factory ↦ factory (r ∷ rs)
  | err _ ↦ rr (new_rr_picker (r ∷ rs))
]

unfoldable pub sorted_healthy : MapOrder → ℕ → Pool → List Ref
sorted_healthy order loop p = sort_by (address_of p.store) (healthy_entries order loop p)

-- `rebuildPickerLocked`.
unfoldable pub rebuild_picker : Policies → MapOrder → ℕ → Balancer → Balancer
unfolding sorted_healthy build_picker connectivity_state_for_healthy
rebuild_picker policies order loop b =
    let healthy = sorted_healthy order loop b.pool in
    record b {
      picker = build_picker policies order b healthy;
      pool = emit (update_state (connectivity_state_for_healthy (length healthy))) b.pool;
    }

-- The configuration in the resolver's attributes, if there is one.
unfoldable pub apply_config : Option BuildConfig → Balancer → Balancer
unfolding or_policy
apply_config none b = b
apply_config (some cfg) b = record b { cfg = cfg; policy = or_policy cfg.policy b.policy }

-- An address that does not parse is skipped.
unfoldable pub add_parsed : Bytes → Endpoints → Endpoints
unfolding key_of
add_parsed addr m = elim (parse_addr_to_endpoint addr) [
  | err _ ↦ m
  | ok ep ↦ insert Key-discrete (key_of ep) ep m
]

unfoldable pub parse_addresses : List Bytes → Endpoints → Endpoints
unfolding add_parsed
parse_addresses [] m = m
parse_addresses (a ∷ addrs) m = parse_addresses addrs (add_parsed a m)

-- The desired endpoints under the cap.
unfoldable pub capped_desired : MapOrder → ℤ → List Bytes → Endpoints
unfolding parse_addresses
capped_desired order max addrs =
    endpoints_to_map
      (cap_endpoints (values (order.visit (Key × Endpoint) 0 (parse_addresses addrs []))) max)

unfoldable pub endpoint_of : SubConnEntry → Endpoint
endpoint_of e = record { address = e.key.address; port = e.key.port; ready = true }

unfoldable pub add_current : Store → List Ref → Endpoints → Endpoints
unfolding endpoint_of key_of
add_current store [] m = m
add_current store (r ∷ rs) m =
    let ep = endpoint_of (store r) in add_current store rs (insert Key-discrete (key_of ep) ep m)

-- The endpoints in the pool.
unfoldable pub current_endpoints : MapOrder → Pool → Endpoints
unfolding add_current
current_endpoints order p = add_current p.store (snapshot order 1 p) []

-- The first loop of the reconciliation; an endpoint that cannot be added is left out.
unfoldable pub add_missing : (ℕ → Bytes → Bool) → BuildConfig → Endpoints → Endpoints → Pool → Pool
add_missing grants cfg current [] p = p
add_missing grants cfg current ((k, ep) ∷ desired) p =
    add_missing grants cfg current desired (elim (lookup Key-discrete k current) [
      | some _ ↦ p
      | none ↦ (add grants cfg.namespace cfg.service ep p).0
    ])

unfoldable pub pool_key : BuildConfig → Key → PoolKey
pool_key cfg k = record {
  namespace = cfg.namespace;
  service = cfg.service;
  address = k.address;
  port = k.port;
}

-- The second loop.
unfoldable pub remove_stale : BuildConfig → Endpoints → Endpoints → Pool → Pool
unfolding pool_key key_of
remove_stale cfg desired [] p = p
remove_stale cfg desired ((k, ep) ∷ current) p =
    remove_stale cfg desired current (elim (lookup Key-discrete k desired) [
      | some _ ↦ p
      | none ↦ remove (pool_key cfg (key_of ep)) p
    ])

-- The reconciliation of the pool with the desired endpoints.
unfoldable pub reconcile_pool :
    (ℕ → Bytes → Bool) → MapOrder → BuildConfig → Endpoints → Pool → Pool
unfolding add_missing remove_stale current_endpoints
reconcile_pool grants order cfg desired p =
    let current = current_endpoints order p in
    remove_stale cfg desired (order.visit (Key × Endpoint) 3 current)
      (add_missing grants cfg current (order.visit (Key × Endpoint) 2 desired) p)

-- `UpdateClientConnState`.
unfoldable pub update_client_conn_state :
    Policies → (ℕ → Bytes → Bool) → MapOrder → Option BuildConfig → List Bytes → Balancer → Balancer
unfolding apply_config capped_desired reconcile_pool rebuild_picker
update_client_conn_state policies grants order attributes addrs before =
    let b = apply_config attributes before in
    let desired = capped_desired order b.cfg.max_subconns addrs in
    rebuild_picker policies order 4
      (record b { pool = reconcile_pool grants order b.cfg desired b.pool })
