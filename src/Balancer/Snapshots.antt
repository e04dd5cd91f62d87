-- ===== src/Balancer/Snapshots.antt =====
-- The maps of endpoints that the balancer compares: what they hold, and under which keys.
use mathlib.Core.List.{Permᴰ}
use mathlib.Core.List.Perm
use mathlib.Core.Logic.{∥∥₁_elim}
use native.Mathlib.Nat.{ℕ_set}
use go_kubegrpc.Base.Count.{count-keys}
use go_kubegrpc.Pool.Queries.{snapshot}
use go_kubegrpc.Pool.Invariant.{IsPool}
use go_kubegrpc.Base.{
  if◌then◌else◌, ◌↔◌, All-perm, All, ℕ, ◌≡◌, refl, ◌∙◌, List, [], ◌∷◌, some, false, arith, map,
}
use go_kubegrpc.Base.Maps.{
  lookup, insert, keys, values, Distinct, lookup-insert, insert-Distinct, MapOrder,
}
use go_kubegrpc.Base.Count.{count, absent}
use go_kubegrpc.Text.{Bytes}
use go_kubegrpc.Resolver.{Endpoint, Endpoints, Key, Key-discrete, key_of}
use go_kubegrpc.Cap.{add_endpoints, endpoints_to_map}
use go_kubegrpc.Pool.{Pool, PoolKey, PoolKey-discrete, Ref, SubConnEntry}
use go_kubegrpc.Pool.Queries.{is_live, select}
use go_kubegrpc.Balancer.{
  ltb, parse_addresses, snapshot, cap_endpoints, ℤ, BuildConfig, add_current, current_endpoints,
  endpoint_of, pool_key, capped_desired,
}
use go_kubegrpc.Balancer.Loops.{IsKeyed}

insert-IsKeyed :
    (k : Key) (ep : Endpoint) (m : Endpoints)
    → key_of ep ≡ k
    → IsKeyed m
    → IsKeyed (insert Key-discrete k ep m)
unfolding insert
insert-IsKeyed k ep [] h i = (h, tt)
insert-IsKeyed k ep ((j, e) ∷ m) h i = ground (arith, insert-IsKeyed k ep m h i.1)

-- A map of endpoints: each key stands once, over an endpoint with that key.
abbrev pub IsEndpoints : Endpoints → Type 0
IsEndpoints m = IsKeyed m × Distinct Key-discrete m

pub insert-IsEndpoints :
    (ep : Endpoint) (m : Endpoints)
    → IsEndpoints m
    → IsEndpoints (insert Key-discrete (key_of ep) ep m)
insert-IsEndpoints ep m h =
    (insert-IsKeyed (key_of ep) ep m refl h.0, insert-Distinct Key-discrete (key_of ep) ep m h.1)

pub add_endpoints-IsEndpoints :
    (es : List Endpoint) (m : Endpoints) → IsEndpoints m → IsEndpoints (add_endpoints es m)
unfolding add_endpoints
add_endpoints-IsEndpoints [] m h = h
add_endpoints-IsEndpoints (e ∷ es) m h =
    add_endpoints-IsEndpoints es (insert Key-discrete (key_of e) e m) (insert-IsEndpoints e m h)

pub capped_desired-IsEndpoints :
    (order : MapOrder) (max : ℤ) (addrs : List Bytes) → IsEndpoints (capped_desired order max addrs)
unfolding capped_desired endpoints_to_map
capped_desired-IsEndpoints order max addrs =
    add_endpoints-IsEndpoints
      (cap_endpoints (values (order.visit (Key × Endpoint) 0 (parse_addresses addrs []))) max) []
      (tt, tt)

add_current-IsEndpoints :
    (store : Ref → SubConnEntry) (rs : List Ref) (m : Endpoints)
    → IsEndpoints m
    → IsEndpoints (add_current store rs m)
unfolding add_current
add_current-IsEndpoints store [] m h = h
add_current-IsEndpoints store (r ∷ rs) m h =
    add_current-IsEndpoints store rs _ (insert-IsEndpoints (endpoint_of (store r)) m h)

pub current_endpoints-IsEndpoints :
    (order : MapOrder) (p : Pool) → IsEndpoints (current_endpoints order p)
unfolding current_endpoints
current_endpoints-IsEndpoints order p =
    add_current-IsEndpoints p.store (snapshot order 1 p) [] (tt, tt)

pub visit-IsKeyed :
    (order : MapOrder) (loop : ℕ) (m : Endpoints)
    → IsKeyed m
    → IsKeyed (order.visit (Key × Endpoint) loop m)
visit-IsKeyed order loop m h =
    All-perm (λ e. key_of e.1 ≡ e.0) (λ e. hlevel Key-discrete) m
      (order.visit (Key × Endpoint) loop m) (Perm.symm (order.visit-perm (Key × Endpoint) loop m)) h

-- The keys of the live entries of a map, in the order of a loop over it.
abbrev live_keys : (Ref → SubConnEntry) → List (PoolKey × Ref) → List Key
live_keys store m = map (λ r. key_of (endpoint_of (store r))) (select is_live store m)

live_keys-Permᴰ :
    (k : Key) (store : Ref → SubConnEntry) {m n : List (PoolKey × Ref)}
    → Permᴰ m n
    → count Key-discrete k (live_keys store m) ≡ count Key-discrete k (live_keys store n)
unfolding count select
live_keys-Permᴰ k store Permᴰ.nil = refl
live_keys-Permᴰ k store (Permᴰ.cons e p) = ground (arith, live_keys-Permᴰ k store p)
live_keys-Permᴰ k store (Permᴰ.swap e f) = ground arith
live_keys-Permᴰ k store (Permᴰ.trans p q) = live_keys-Permᴰ k store p ∙ live_keys-Permᴰ k store q

-- An entry of the map under its own key, live, and in the balancer's namespace and service.
abbrev IsOwned : BuildConfig → (Ref → SubConnEntry) → PoolKey × Ref → Type 0
IsOwned cfg store e =
    ((store e.1).key ≡ e.0)
    × ((store e.1).draining ≡ false)
    × (e.0.namespace ≡ cfg.namespace)
    × (e.0.service ≡ cfg.service)

owned_key :
    (cfg : BuildConfig) (k : Key) (store : Ref → SubConnEntry) (j : PoolKey) (r : Ref)
    → IsOwned cfg store (j, r)
    → (j ≡ pool_key cfg k) ↔ (key_of (endpoint_of (store r)) ≡ k)
unfolding pool_key key_of endpoint_of
owned_key cfg k store j r h = ground arith

count-live_keys :
    (cfg : BuildConfig) (k : Key) (store : Ref → SubConnEntry) (m : List (PoolKey × Ref))
    → All (IsOwned cfg store) m
    → count Key-discrete k (live_keys store m) ≡ count PoolKey-discrete (pool_key cfg k) (keys m)
unfolding count select is_live
count-live_keys cfg k store [] h = refl
count-live_keys cfg k store ((j, r) ∷ m) h =
    ground (arith, count-live_keys cfg k store m h.1, owned_key cfg k store j r h.0)

lookup-add_current :
    (store : Ref → SubConnEntry) (k : Key) (rs : List Ref) (m : Endpoints)
    → absent (lookup Key-discrete k (add_current store rs m)) ≡ (
        if ltb 0 (count Key-discrete k (map (λ r. key_of (endpoint_of (store r))) rs))
        then 0
        else absent (lookup Key-discrete k m))
unfolding add_current count
lookup-add_current store k [] m = refl
lookup-add_current store k (r ∷ rs) m =
    let ep = endpoint_of (store r) in
    ground (
      arith,
      lookup-add_current store k rs (insert Key-discrete (key_of ep) ep m),
      lookup-insert Key-discrete (key_of ep) k ep m,
    )

-- The entries of a pool that serves one namespace and service.
abbrev pub InScope : BuildConfig → Pool → Type 0
InScope cfg p =
    (k : PoolKey) (r : Ref)
    → lookup PoolKey-discrete k p.entries ≡ some r
    → (k.namespace ≡ cfg.namespace) × (k.service ≡ cfg.service)

-- What holds of every key that is looked up holds of every entry.
lookup-All :
    (P : PoolKey × Ref → Type 0) (m : List (PoolKey × Ref))
    → Distinct PoolKey-discrete m
    → ((k : PoolKey) (r : Ref) → lookup PoolKey-discrete k m ≡ some r → P (k, r))
    → All P m
unfolding lookup
lookup-All P [] d h = tt
lookup-All P ((j, r) ∷ m) d h =
    (h j r (ground arith), lookup-All P m d.1 (λ k q e. h k q (ground arith)))

pub lookup-current_endpoints :
    (order : MapOrder) (cfg : BuildConfig) (p : Pool) (k : Key)
    → IsPool p
    → InScope cfg p
    → absent (lookup Key-discrete k (current_endpoints order p))
      ≡ absent (lookup PoolKey-discrete (pool_key cfg k) p.entries)
unfolding current_endpoints snapshot lookup
lookup-current_endpoints order cfg p k i s =
    let visited = order.visit (PoolKey × Ref) 1 p.entries in
    let owned =
      lookup-All (IsOwned cfg p.store) p.entries i.distinct
        (λ j r e. ((i.owned j r e).1, (i.owned j r e).2, (s j r e).0, (s j r e).1)) in
    let counted =
      ∥∥₁_elim (order.visit-perm (PoolKey × Ref) 1 p.entries) (ℕ_set _ _)
        (live_keys-Permᴰ k p.store)
      ∙ count-live_keys cfg k p.store p.entries owned
      ∙ count-keys PoolKey-discrete (pool_key cfg k) p.entries i.distinct in
    lookup-add_current p.store k (select is_live p.store visited) [] ∙ ground (arith, counted)

-- A key is in the map of a list of endpoints where it is that of one of them.
pub lookup-add_endpoints :
    (k : Key) (es : List Endpoint) (m : Endpoints)
    → absent (lookup Key-discrete k (add_endpoints es m)) ≡ (
        if ltb 0 (count Key-discrete k (map key_of es))
        then 0
        else absent (lookup Key-discrete k m))
unfolding add_endpoints count
lookup-add_endpoints k [] m = refl
lookup-add_endpoints k (e ∷ es) m = ground (
  arith,
  lookup-add_endpoints k es (insert Key-discrete (key_of e) e m),
  lookup-insert Key-discrete (key_of e) k e m,
)

pub count-values :
    (k : Key) (m : Endpoints)
    → IsKeyed m
    → count Key-discrete k (map key_of (values m)) ≡ count Key-discrete k (keys m)
unfolding count
count-values k [] h = refl
count-values k ((j, e) ∷ m) h = ground (arith, count-values k m h.1)
