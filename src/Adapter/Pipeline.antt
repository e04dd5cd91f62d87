-- ===== src/Adapter/Pipeline.antt =====
-- The k8s pipeline: the EndpointSlices of the watcher, through the grace window and the adapter, into
-- the pool of the balancer.
use go_kubegrpc.Base.{
  sym, ℕ, ◌≡◌, ◌≢◌, ◌↔◌, ◌≤◌, refl, ◌∙◌, List, [], ◌∷◌, none, Bool, true, All, All-append, arith,
  map, Option-cases, inl, inr, Bool-cases,
}
use go_kubegrpc.Base.Int.{pos}
use go_kubegrpc.Base.Maps.{MapOrder, lookup}
use go_kubegrpc.Base.Count.{count}
use go_kubegrpc.Text.{Bytes, Bytes-discrete}
use go_kubegrpc.Resolver.{Endpoint, Key, Key-discrete, key_of}
use go_kubegrpc.Watcher
use go_kubegrpc.Watcher.{
  EndpointSlice, SliceEndpoint, extract_endpoints, of_endpoints, of_addresses, is_eligible,
  match_port,
}
use go_kubegrpc.Watcher.Laws.{is_listed, is_listed-extract_endpoints}
use go_kubegrpc.Watcher.Offers.{IsOffered, is_available-IsOffered}
use go_kubegrpc.Watcher.Run.{send_snapshot}
use go_kubegrpc.GraceWindow.{StateMachine, on_snapshot}
use go_kubegrpc.Target.{Target}
use go_kubegrpc.Retry.{Float64}
use go_kubegrpc.Config.{Config}
use go_kubegrpc.Pool.{PoolKey-discrete}
use go_kubegrpc.Pool.Invariant.{IsPool}
use go_kubegrpc.Balancer.{Balancer, Policies, pool_key}
use go_kubegrpc.Balancer.Snapshots.{InScope}
use go_kubegrpc.Adapter.{build_config, deliver}
use go_kubegrpc.Adapter.Members.{IsReadable, snapshot_members}

abbrev IsReady : Endpoint → Type 0
IsReady e = e.ready ≡ true

All-of_addresses : (port : ℕ) (addrs : List Bytes) → All IsReady (of_addresses port addrs)
unfolding of_addresses
All-of_addresses port [] = tt
All-of_addresses port (a ∷ addrs) = (refl, All-of_addresses port addrs)

All-of_endpoints : (port : ℕ) (eps : List SliceEndpoint) → All IsReady (of_endpoints port eps)
unfolding of_endpoints
All-of_endpoints port [] = tt
All-of_endpoints port (ep ∷ eps) = elim (Bool-cases (is_eligible ep)) [
  | inl e ↦
      rw (of_endpoints, e)
        (All-append IsReady (of_addresses port ep.addresses) (of_endpoints port eps)
          (All-of_addresses port ep.addresses) (All-of_endpoints port eps))
  | inr e ↦ rw (of_endpoints, e) (All-of_endpoints port eps)
]

All-extract_endpoints :
    (slices : List EndpointSlice) (port : Watcher.Port)
    → All IsReady (extract_endpoints slices port)
unfolding extract_endpoints
All-extract_endpoints [] port = tt
All-extract_endpoints (slice ∷ slices) port = elim (Option-cases (match_port slice.ports port)) [
  | inl e ↦ rw (extract_endpoints, e) (All-extract_endpoints slices port)
  | inr (n, e) ↦
      rw (extract_endpoints, e)
        (All-append IsReady (of_endpoints n slice.endpoints) (extract_endpoints slices port)
          (All-of_endpoints n slice.endpoints) (All-extract_endpoints slices port))
]

-- Among endpoints that are ready a key is counted where it is listed.
count-is_listed :
    (k : Key) (es : List Endpoint)
    → All IsReady es
    → (1 ≤ count Key-discrete k (map key_of es)) ↔ (is_listed k.address k.port es ≡ true)
unfolding count is_listed key_of
count-is_listed k [] h = ground arith
count-is_listed k (e ∷ es) h =
    let ih = count-is_listed k es h.1 in
    elim (Bytes-discrete e.address k.address) [
      | yes same ↦ ground (arith, same, ih, h.0)
      | no ne ↦ ground (arith, ne, ih, h.0)
    ]

-- R3.2, R3.3, R3.6, R4.1: let every NewSubConn succeed, the limit on SubConns be 0, the pool satisfy
-- its invariant with keys of the target's namespace and service, and the addresses and ports that
-- the EndpointSlices give for the target be readable. Then a snapshot of the watcher passes the
-- grace window as it is, whatever its state, and behind it the pool holds exactly the addresses and
-- ports that are offered: those at which a slice has an endpoint that is neither unready nor
-- terminating, and whose port is the number of the first port of the slice that is the target's, by
-- its name if the target's port has one, else by its number if that is not 0.
pub send_snapshot_members :
    (policies : Policies) (grants : ℕ → Bytes → Bool) (order : MapOrder) (t : Target)
    {float : Float64} (cfg : Config float) (slices : List EndpointSlice) (now : ℕ)
    (sm : StateMachine) (b : Balancer) (k : Key)
    → ((n : ℕ) (addr : Bytes) → grants n addr ≡ true)
    → IsPool b.pool
    → InScope (build_config t cfg) b.pool
    → cfg.max_subconnections ≡ pos 0
    → All IsReadable
        (extract_endpoints slices (record { name = t.port.name; number = t.port.number }))
    → let port : Watcher.Port = record { name = t.port.name; number = t.port.number } in
      let snap = send_snapshot port slices in
      let after = deliver policies grants order (build_config t cfg) snap b in
      ((on_snapshot now snap sm).emitted ≡ snap ∷ sm.emitted)
      × ((lookup PoolKey-discrete (pool_key (build_config t cfg) k) after.pool.entries ≢ none)
          ↔ IsOffered k.address k.port port slices)
unfolding deliver send_snapshot on_snapshot
send_snapshot_members policies grants order t cfg slices now sm b k g i s uncapped readable =
    let port : Watcher.Port = record { name = t.port.name; number = t.port.number } in
    let es = extract_endpoints slices port in
    let members = snapshot_members policies grants order t cfg es b k g i s uncapped readable in
    let counted = count-is_listed k es (All-extract_endpoints slices port) in
    let listed = is_listed-extract_endpoints k.address k.port port slices in
    let offered = is_available-IsOffered k.address k.port port slices in
    (
      refl,
      (
        λ h. offered.0 (sym listed ∙ counted.0 (members.0 h)),
        λ h. members.1 (counted.1 (listed ∙ offered.1 h)),
      ),
    )
