-- ===== src/Balancer/Deterministic.antt =====
-- The abstract view of a pool is the set of its endpoints: a list of keys that forgets its order and
-- how often a key stands in it.
use mathlib.Core.List.{Perm}
use mathlib.Core.List.Perm
use mathlib.Core.Quot
use mathlib.Core.Quot.{Quot}
use go_kubegrpc.Base.{
  ℕ, zero, suc, ◌≤◌, ◌≡◌, ◌≢◌, ◌↔◌, refl, ap, sym, List, [], ◌∷◌, none, some, Bool, true, arith,
  map, Option-cases, inl, inr,
}
use go_kubegrpc.Base.Int.{ℤ, pos, negsuc}
use go_kubegrpc.Base.Maps.{lookup, keys, values, MapOrder, in_order}
use go_kubegrpc.Base.Count.{count, count-keys, absent, present}
use go_kubegrpc.Text.{Bytes}
use go_kubegrpc.Resolver.{Endpoint, Endpoints, Key, Key-discrete}
use go_kubegrpc.Cap.{cap_endpoints, endpoints_to_map}
use go_kubegrpc.Cap.Laws.{cap_endpoints-keys}
use go_kubegrpc.Pool.{Pool, PoolKey, PoolKey-discrete, Ref}
use go_kubegrpc.Picker.{Store}
use go_kubegrpc.Balancer.{
  BuildConfig, Balancer, Policies, new_balancer, pool_key, parse_addresses, capped_desired,
}
use go_kubegrpc.Cap.{add_endpoints, first_sorted}
use go_kubegrpc.Sort.{sort_by}
use go_kubegrpc.Balancer.Snapshots.{capped_desired-IsEndpoints, lookup-add_endpoints}
use go_kubegrpc.Balancer.History.{
  BalancerReach, start, step, updates, changes, reports, wakes, picks,
}
use go_kubegrpc.Balancer.Desired.{
  AreOfTarget, wanted, IsServing, history-IsServing, history_members,
}

-- The endpoints that are desired do not depend on the order in which Go visits the map.
capped_desired_order :
    (k : Key) (order other : MapOrder) (max : ℤ) (addrs : List Bytes)
    → absent (lookup Key-discrete k (capped_desired order max addrs))
      ≡ absent (lookup Key-discrete k (capped_desired other max addrs))
unfolding capped_desired endpoints_to_map
capped_desired_order k order other max addrs =
    let m = parse_addresses addrs [] in
    let es = values (order.visit (Key × Endpoint) 0 m) in
    let fs = values (other.visit (Key × Endpoint) 0 m) in
    let same : Perm es fs =
      Perm.map (λ e. e.1)
        (Perm.trans (order.visit-perm (Key × Endpoint) 0 m)
          (Perm.symm (other.visit-perm (Key × Endpoint) 0 m))) in
    ground (
      arith,
      lookup-add_endpoints k (cap_endpoints es max) [],
      lookup-add_endpoints k (cap_endpoints fs max) [],
      cap_endpoints-keys k max es fs same,
    )

-- Two lists hold the same keys.
abbrev SameKeys : List Key → List Key → Type 0
SameKeys xs ys = (k : Key) → (1 ≤ count Key-discrete k xs) ↔ (1 ≤ count Key-discrete k ys)

-- Sets of endpoints.
abbrev pub EndpointSet : Type 0
EndpointSet = Quot SameKeys

-- The endpoint that a key of the pool names.
abbrev endpoint_key : PoolKey → Key
endpoint_key j = record { address = j.address; port = j.port }

-- The endpoints that a pool holds.
abbrev pub endpoint_set : Pool → EndpointSet
endpoint_set p = Quot.mk (map endpoint_key (keys p.entries))

has_key :
    (k : Key) (m : List (PoolKey × Ref))
    → 1 ≤ count Key-discrete k (map endpoint_key (keys m))
    → (j : PoolKey) × (r : Ref) × (endpoint_key j ≡ k) × (lookup PoolKey-discrete j m ≡ some r)
unfolding count lookup
has_key k [] h = absurd (omega (arith, h))
has_key k ((i, q) ∷ m) h = elim (Key-discrete (endpoint_key i) k) [
  | yes e ↦ (i, q, e, ground arith)
  | no ne ↦
      let (j, r, e, f) = has_key k m (ground arith) in
      elim (PoolKey-discrete i j) [
        | yes same ↦ (j, q, e, ground arith)
        | no other ↦ (j, r, e, ground arith)
      ]
]

counts_key :
    (j : PoolKey) (r : Ref) (m : List (PoolKey × Ref))
    → lookup PoolKey-discrete j m ≡ some r
    → 1 ≤ count Key-discrete (endpoint_key j) (map endpoint_key (keys m))
unfolding count lookup
counts_key j r [] h = ground arith
counts_key j r ((i, q) ∷ m) h = elim (PoolKey-discrete i j) [
  | yes same ↦ ground (arith, ap endpoint_key same)
  | no other ↦ ground (arith, counts_key j r m)
]

-- In a pool of one namespace and service the set holds the keys that the pool has.
endpoint_set-lookup :
    (cfg : BuildConfig) (m : Endpoints) (b : Balancer) (k : Key)
    → IsServing cfg m b
    → (1 ≤ count Key-discrete k (map endpoint_key (keys b.pool.entries)))
      ↔ (lookup PoolKey-discrete (pool_key cfg k) b.pool.entries ≢ none)
unfolding pool_key
endpoint_set-lookup cfg m b k v = (there, back)
  where
    there :
        1 ≤ count Key-discrete k (map endpoint_key (keys b.pool.entries))
        → lookup PoolKey-discrete (pool_key cfg k) b.pool.entries ≢ none
    there h f =
        let (j, r, e, g) = has_key k b.pool.entries h in
        let scope = v.scope j r g in ground (arith, e, f, g, scope)

    back :
        lookup PoolKey-discrete (pool_key cfg k) b.pool.entries ≢ none
        → 1 ≤ count Key-discrete k (map endpoint_key (keys b.pool.entries))
    back h = elim (Option-cases (lookup PoolKey-discrete (pool_key cfg k) b.pool.entries)) [
      | inl e ↦ absurd (h e)
      | inr (r, e) ↦ counts_key (pool_key cfg k) r b.pool.entries e
    ]

-- The addresses of the last resolver update of a history.
abbrev pub asked :
    {policies : Policies} {grants : ℕ → Bytes → Bool} {b c : Balancer}
    → BalancerReach policies grants b c
    → List Bytes
asked start = []
asked (step h (updates order attributes addrs)) = addrs
asked (step h (changes order probe sc state)) = asked h
asked (step h (reports order r state)) = asked h
asked (step h (wakes w r)) = asked h
asked (step h (picks picker r n)) = asked h

nothing_asked :
    (k : Key) (max : ℤ) → absent (lookup Key-discrete k (capped_desired in_order max [])) ≡ 1
unfolding capped_desired endpoints_to_map add_endpoints cap_endpoints first_sorted sort_by lookup
nothing_asked k (pos zero) = refl
nothing_asked k (pos (suc n)) = ground arith
nothing_asked k (negsuc n) = refl

wanted-asked :
    {policies : Policies} {grants : ℕ → Bytes → Bool} {b c : Balancer} (cfg : BuildConfig)
    (h : BalancerReach policies grants b c) (k : Key)
    → absent (lookup Key-discrete k (wanted cfg h))
      ≡ absent (lookup Key-discrete k (capped_desired in_order cfg.max_subconns (asked h)))
unfolding lookup
wanted-asked cfg start k = sym (nothing_asked k cfg.max_subconns)
wanted-asked cfg (step h (updates order attributes addrs)) k =
    capped_desired_order k order in_order cfg.max_subconns addrs
wanted-asked cfg (step h (changes order probe sc state)) k = wanted-asked cfg h k
wanted-asked cfg (step h (reports order r state)) k = wanted-asked cfg h k
wanted-asked cfg (step h (wakes w r)) k = wanted-asked cfg h k
wanted-asked cfg (step h (picks picker r n)) k = wanted-asked cfg h k

-- The set of the endpoints that a list of addresses asks for under the cap.
abbrev pub desired_set : BuildConfig → List Bytes → EndpointSet
desired_set cfg addrs = Quot.mk (keys (capped_desired in_order cfg.max_subconns addrs))

-- A map of endpoints has a key as often as it is found.
count-capped_desired :
    (k : Key) (order : MapOrder) (max : ℤ) (addrs : List Bytes)
    → count Key-discrete k (keys (capped_desired order max addrs))
      ≡ present (lookup Key-discrete k (capped_desired order max addrs))
count-capped_desired k order max addrs =
    count-keys Key-discrete k (capped_desired order max addrs)
      (capped_desired-IsEndpoints order max addrs).1

-- R4.1, R12.2: let every NewSubConn succeed and every resolver update of a history of a new balancer
-- bring the target's configuration. Then the set of endpoints in the pool is the one that the
-- addresses of the last update ask for under the cap, a function of these addresses and the
-- configuration alone: neither what came before nor in between, nor the order in which Go visits its
-- maps makes a difference.
pub history_set :
    (policies : Policies) (grants : ℕ → Bytes → Bool) (store : Store) (first cfg : BuildConfig)
    {b : Balancer} (h : BalancerReach policies grants (new_balancer store first) b)
    → ((n : ℕ) (addr : Bytes) → grants n addr ≡ true)
    → AreOfTarget cfg h
    → endpoint_set b.pool ≡ desired_set cfg (asked h)
history_set policies grants store first cfg {b} h g o = Quot.sound λ k.
    let held =
      endpoint_set-lookup cfg (wanted cfg h) b k
        (history-IsServing policies grants store first cfg h o) in
    let holds = history_members policies grants store first cfg g h k o in
    let equal = wanted-asked cfg h k in
    let counted = count-capped_desired k in_order cfg.max_subconns (asked h) in
    (
      λ n. ground (arith, equal, counted, holds.0 (held.0 n)),
      λ n. held.1 (holds.1 (λ e. ground (arith, equal, counted, e, n))),
    )
