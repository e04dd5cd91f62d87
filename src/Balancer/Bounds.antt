-- ===== src/Balancer/Bounds.antt =====
-- The size of the pool under the limit on SubConns.
use mathlib.Core.List.Perm
use go_kubegrpc.Base.{
  ℕ, suc, ◌+◌, ◌≤◌, ◌≡◌, ◌≢◌, refl, ap, sym, subst, ◌∙◌, List, [], ◌∷◌, none, Bool, arith,
  Option-cases, inl, inr, length,
}
use go_kubegrpc.Base.Int.{pos}
use go_kubegrpc.Base.Maps.{
  lookup, insert, delete, values, Distinct, lookup-delete, delete-Distinct, delete_absent, MapOrder,
}
use go_kubegrpc.Text.{Bytes}
use go_kubegrpc.Resolver.{Endpoint, Endpoints, Key, Key-discrete, key_of}
use go_kubegrpc.Cap.{add_endpoints, endpoints_to_map, cap_endpoints}
use go_kubegrpc.Cap.Laws.{cap_endpoints_deterministic}
use go_kubegrpc.Pool.{PoolKey-discrete, Ref, PoolKey}
use go_kubegrpc.Picker.{Store}
use go_kubegrpc.Balancer.{
  BuildConfig, Balancer, Policies, new_balancer, pool_key, capped_desired, parse_addresses,
}
use go_kubegrpc.Balancer.History.{
  BalancerStep, updates, changes, reports, wakes, picks, BalancerReach, start, step,
}
use go_kubegrpc.Balancer.Desired.{IsServing, AreOfTarget, wanted, desired_after, history-IsServing}

length-insert :
    {K V : Type 0} (dec : Discrete K) (k : K) (v : V) (m : List (K × V))
    → length (insert dec k v m) ≤ suc (length m)
unfolding insert
length-insert dec k v [] = omega arith
length-insert dec k v ((j, w) ∷ m) = ground (arith, length-insert dec k v m)

length-delete :
    {K V : Type 0} (dec : Discrete K) (k : K) (m : List (K × V))
    → Distinct dec m
    → length m ≤ suc (length (delete dec k m))
unfolding delete lookup
length-delete dec k [] d = omega arith
length-delete dec k ((j, w) ∷ m) d =
    ground (arith, length-delete dec k m d.1, delete_absent dec k m)

length-add_endpoints :
    (es : List Endpoint) (m : Endpoints) → length (add_endpoints es m) ≤ length es + length m
unfolding add_endpoints
length-add_endpoints [] m = omega arith
length-add_endpoints (e ∷ es) m = omega (
  arith,
  length-add_endpoints es (insert Key-discrete (key_of e) e m),
  length-insert Key-discrete (key_of e) e m,
)

length-capped_desired :
    (order : MapOrder) (n : ℕ) (addrs : List Bytes)
    → length (capped_desired order (pos (suc n)) addrs) ≤ suc n
unfolding capped_desired endpoints_to_map
length-capped_desired order n addrs =
    let es = values (order.visit (Key × Endpoint) 0 (parse_addresses addrs [])) in
    omega (
      arith,
      length-add_endpoints (cap_endpoints es (pos (suc n))) [],
      (cap_endpoints_deterministic n es es Perm.rfl).2,
    )

-- A map of the pool has no more entries than the endpoints that its keys belong to.
length-pool :
    (cfg : BuildConfig) (d : Endpoints) (m : List (PoolKey × Ref))
    → Distinct PoolKey-discrete m
    → ((j : PoolKey)
        → lookup PoolKey-discrete j m ≢ none
        → (k : Key) × (j ≡ pool_key cfg k) × (lookup Key-discrete k d ≢ none))
    → length m ≤ length d
unfolding lookup
length-pool cfg [] [] u h = omega arith
length-pool cfg [] ((j, r) ∷ m) u h = let (k, e, f) = h j (ground arith) in absurd (f refl)
length-pool cfg ((i, ep) ∷ d) m u h =
    let rest = delete PoolKey-discrete (pool_key cfg i) m in
    let fewer =
      length-pool cfg d rest (delete-Distinct PoolKey-discrete (pool_key cfg i) m u) (λ j f.
        let gone = lookup-delete PoolKey-discrete (pool_key cfg i) j m in
        let (k, e, found) = h j (λ g. ground arith) in (k, e, λ g. ground arith)) in
    omega (arith, fewer, length-delete PoolKey-discrete (pool_key cfg i) m u)

-- The key of an endpoint that is in scope.
pool_key-scope :
    (cfg : BuildConfig) (j : PoolKey)
    → (j.namespace ≡ cfg.namespace) × (j.service ≡ cfg.service)
    → j ≡ pool_key cfg (record { address = j.address; port = j.port })
unfolding pool_key
pool_key-scope cfg j h = ground arith

IsServing-bound :
    (cfg : BuildConfig) (m : Endpoints) (b : Balancer)
    → IsServing cfg m b
    → length b.pool.entries ≤ length m
IsServing-bound cfg m b v = length-pool cfg m b.pool.entries v.pool.distinct λ j f.
    let k : Key = record { address = j.address; port = j.port } in
    elim (Option-cases (lookup PoolKey-discrete j b.pool.entries)) [
      | inl e ↦ absurd (f e)
      | inr (r, e) ↦
          let same = pool_key-scope cfg j (v.scope j r e) in
          (
            k,
            same,
            λ g. f (ap (λ i. lookup PoolKey-discrete i b.pool.entries) same ∙ v.no_others k g),
          )
    ]

module _ {policies : Policies} {grants : ℕ → Bytes → Bool} (cfg : BuildConfig) (n : ℕ)
    (limit : cfg.max_subconns ≡ pos (suc n)) where
  length-desired_after :
      {b c : Balancer} (s : BalancerStep policies grants b c) (m : Endpoints)
      → length m ≤ suc n
      → length (desired_after cfg s m) ≤ suc n
  length-desired_after (updates order attributes addrs) m h =
      subst (λ max. length (capped_desired order max addrs) ≤ suc n) (sym limit)
        (length-capped_desired order n addrs)
  length-desired_after (changes order probe sc state) m h = h
  length-desired_after (reports order r state) m h = h
  length-desired_after (wakes w r) m h = h
  length-desired_after (picks picker r k) m h = h

  length-wanted :
      {b c : Balancer} (h : BalancerReach policies grants b c) → length (wanted cfg h) ≤ suc n
  length-wanted start = omega arith
  length-wanted (step h s) = length-desired_after s (wanted cfg h) (length-wanted h)

-- R12.1: let every resolver update of a history of a new balancer bring the target's configuration,
-- whose limit on SubConns is positive. Then after that history its pool has no more entries than the
-- limit, whichever NewSubConn calls fail and whatever order Go visits its maps in.
pub history_bounded :
    (policies : Policies) (grants : ℕ → Bytes → Bool) (store : Store) (first cfg : BuildConfig)
    (n : ℕ) {b : Balancer} (h : BalancerReach policies grants (new_balancer store first) b)
    → cfg.max_subconns ≡ pos (suc n)
    → AreOfTarget cfg h
    → length b.pool.entries ≤ suc n
history_bounded policies grants store first cfg n {b} h limit o = omega (
  arith,
  IsServing-bound cfg (wanted cfg h) b (history-IsServing policies grants store first cfg h o),
  length-wanted cfg n limit h,
)
