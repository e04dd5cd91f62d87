-- ===== src/Adapter/Members.antt =====
-- From a snapshot of the resolver to the pool of the balancer.
use go_kubegrpc.Base.{
  ℕ, ◌≤◌, ◌≡◌, ◌≢◌, ◌↔◌, refl, sym, subst, ap, ◌∙◌, List, [], ◌∷◌, Bool, true, some, none, arith,
  map, All, if◌then◌else◌, ltb,
}
use go_kubegrpc.Base.Int.{pos}
use go_kubegrpc.Base.Maps.{lookup, insert, values, MapOrder}
use go_kubegrpc.Base.Count.{count, count-visit, absent}
use go_kubegrpc.Text.{Bytes}
use go_kubegrpc.Resolver.{Endpoint, Endpoints, Key, Key-discrete, key_of}
use go_kubegrpc.Address.{addr_port}
use go_kubegrpc.Address.RoundTrip.{IsToken, parse_addr_to_endpoint-addr_port}
use go_kubegrpc.Cap.{add_endpoints, endpoints_to_map, cap_endpoints}
use go_kubegrpc.Balancer.{add_parsed, parse_addresses, capped_desired}
use go_kubegrpc.Balancer.Snapshots.{IsEndpoints, visit-IsKeyed}
use go_kubegrpc.Balancer.{Balancer, Policies, pool_key, apply_config, update_client_conn_state}
use go_kubegrpc.Balancer.Update.{update_client_conn_state_members}
use go_kubegrpc.Balancer.Snapshots.{
  lookup-add_endpoints, count-values, InScope, add_endpoints-IsEndpoints,
}
use go_kubegrpc.Pool.Invariant.{IsPool}
use go_kubegrpc.Pool.{PoolKey-discrete}
use go_kubegrpc.Target.{Target}
use go_kubegrpc.Config.{Config}
use go_kubegrpc.Retry.{Float64}
use go_kubegrpc.Adapter.{build_config, addresses}

-- An endpoint whose text can be read back.
abbrev pub IsReadable : Endpoint → Type 0
IsReadable e = IsToken e.address × (1 ≤ e.port) × (e.port ≤ 65535)

-- The endpoints with their ready flag set.
abbrev pub readied : List Endpoint → List Endpoint
readied [] = []
readied (e ∷ es) = record e { ready = true } ∷ readied es

add_parsed-addr_port :
    (e : Endpoint) (m : Endpoints)
    → IsReadable e
    → add_parsed (addr_port e.address e.port) m
      ≡ insert Key-discrete (key_of e) (record e { ready = true }) m
unfolding add_parsed key_of
add_parsed-addr_port e m h =
    rw (parse_addr_to_endpoint-addr_port e.address e.port h.0 h.1 h.2, add_parsed) refl

parse_addresses-addresses :
    (es : List Endpoint) (m : Endpoints)
    → All IsReadable es
    → parse_addresses (addresses es) m ≡ add_endpoints (readied es) m
unfolding parse_addresses addresses add_endpoints
parse_addresses-addresses [] m h = refl
parse_addresses-addresses (e ∷ es) m h =
    ap (parse_addresses (addresses es)) (add_parsed-addr_port e m h.0)
    ∙ parse_addresses-addresses es _ h.1

count-readied :
    (k : Key) (es : List Endpoint)
    → count Key-discrete k (map key_of (readied es)) ≡ count Key-discrete k (map key_of es)
unfolding count key_of
count-readied k [] = refl
count-readied k (e ∷ es) = ground (arith, count-readied k es)

-- Without a cap the desired endpoints are those of the snapshot.
pub lookup-capped_desired :
    (order : MapOrder) (es : List Endpoint) (k : Key)
    → All IsReadable es
    → absent (lookup Key-discrete k (capped_desired order (pos 0) (addresses es)))
      ≡ (if ltb 0 (count Key-discrete k (map key_of es)) then 0 else 1)
unfolding capped_desired cap_endpoints endpoints_to_map lookup
lookup-capped_desired order es k h =
    let parsed = parse_addresses (addresses es) [] in
    let same = parse_addresses-addresses es [] h in
    let shape : IsEndpoints parsed =
      subst IsEndpoints (sym same) (add_endpoints-IsEndpoints (readied es) [] (tt, tt)) in
    let visited = order.visit (Key × Endpoint) 0 parsed in
    let counted =
      count-values k visited (visit-IsKeyed order 0 parsed shape.0)
      ∙ count-visit Key-discrete order 0 k parsed shape.1 in
    let found =
      ap (λ m. absent (lookup Key-discrete k m)) same ∙ lookup-add_endpoints k (readied es) [] in
    lookup-add_endpoints k (values visited) [] ∙ ground (arith, counted, found, count-readied k es)

-- R4.1, R4.2: where every NewSubConn succeeds, the limit on SubConns is 0, the pool satisfies its
-- invariant, and its keys have the namespace and service of the target, the pool holds after a
-- snapshot of the resolver exactly the endpoints of the snapshot, by address and port, if their
-- addresses hold no white space and their ports are in 1..65535.
pub snapshot_members :
    (policies : Policies) (grants : ℕ → Bytes → Bool) (order : MapOrder) (t : Target)
    {float : Float64} (cfg : Config float) (es : List Endpoint) (b : Balancer) (k : Key)
    → ((n : ℕ) (addr : Bytes) → grants n addr ≡ true)
    → IsPool b.pool
    → InScope (build_config t cfg) b.pool
    → cfg.max_subconnections ≡ pos 0
    → All IsReadable es
    → let after =
        update_client_conn_state policies grants order
          (some (build_config t cfg))
          (addresses es)
          b in
      (lookup PoolKey-discrete (pool_key (build_config t cfg) k) after.pool.entries ≢ none)
      ↔ (1 ≤ count Key-discrete k (map key_of es))
unfolding apply_config build_config lookup
snapshot_members policies grants order t cfg es b k g i s uncapped readable =
    let members =
      update_client_conn_state_members policies grants order (some (build_config t cfg))
        (addresses es) b k g i s in
    let desired : absent
          (lookup Key-discrete k (capped_desired order cfg.max_subconnections (addresses es)))
        ≡ (if ltb 0 (count Key-discrete k (map key_of es)) then 0 else 1) =
      rw uncapped (lookup-capped_desired order es k readable) in
    ground (arith, members, desired)
