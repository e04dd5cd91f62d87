-- ===== src/Dns/Members.antt =====
-- The dns resolver and the balancer: which endpoints the pool holds behind the lookups.
use go_kubegrpc.Base.{
  subst, ◌==◌, if◌then◌else◌, ℕ, suc, ◌+◌, ◌≡◌, ◌≢◌, ◌≤◌, ◌↔◌, refl, ◌∙◌, sym, ap, List, [], ◌∷◌,
  Bool, true, All, arith, map, some, none,
}
use go_kubegrpc.Base.Int.{pos}
use go_kubegrpc.Base.Maps.{MapOrder, lookup}
use go_kubegrpc.Base.Count.{count}
use go_kubegrpc.Base.Result.{Result, ok, err}
use go_kubegrpc.Text.{Bytes, Bytes-discrete}
use go_kubegrpc.Resolver.{Snapshot, Key, Key-discrete, key_of}
use go_kubegrpc.Address.RoundTrip.{IsToken}
use go_kubegrpc.Target.{Target}
use go_kubegrpc.Retry.{Float64}
use go_kubegrpc.Config.{Config}
use go_kubegrpc.Pool.{PoolKey-discrete}
use go_kubegrpc.Picker.{Store}
use go_kubegrpc.Balancer.{BuildConfig, Balancer, Policies, new_balancer, pool_key, apply_config}
use go_kubegrpc.Balancer.Snapshots.{InScope}
use go_kubegrpc.Balancer.Scope.{update_client_conn_state-InScope}
use go_kubegrpc.Balancer.History.{BalancerReach, updates, step, BalancerReach-placed}
use go_kubegrpc.Adapter.{build_config, addresses, dns_config, deliver}
use go_kubegrpc.Adapter.Members.{IsReadable, snapshot_members}
use go_kubegrpc.Adapter.Lifetime.{build_dns}
use go_kubegrpc.Dns.{
  run_resolver, Turn, ticked, ended, endpoints_at, answer_snapshot, resolve, rounds, loop,
}

-- How many lookups follow the first one.
abbrev pub repeats : List Turn → ℕ
repeats [] = 0
repeats (ended ∷ turns) = 0
repeats (ticked ∷ turns) = suc (repeats turns)

-- The addresses that a lookup found; none if it failed.
abbrev pub found : {E : Type 0} → Result E (List Bytes) → List Bytes
found (ok addrs) = addrs
found (err e) = []

endpoints-answer_snapshot :
    {E : Type 0} (port : ℕ) (r : Result E (List Bytes))
    → (answer_snapshot port r).endpoints ≡ endpoints_at port (found r)
unfolding answer_snapshot endpoints_at
endpoints-answer_snapshot port (ok addrs) = refl
endpoints-answer_snapshot port (err e) = refl

All-endpoints_at :
    (port : ℕ) (addrs : List Bytes)
    → (1 ≤ port) × (port ≤ 65535)
    → All IsToken addrs
    → All IsReadable (endpoints_at port addrs)
unfolding endpoints_at
All-endpoints_at port [] h t = tt
All-endpoints_at port (a ∷ addrs) h t = ((t.0, h.0, h.1), All-endpoints_at port addrs h t.1)

-- A key is among the endpoints at a port where its port is that one, as often as its address.
count-endpoints_at :
    (port : ℕ) (addrs : List Bytes) (k : Key)
    → count Key-discrete k (map key_of (endpoints_at port addrs))
      ≡ (if k.port == port then count Bytes-discrete k.address addrs else 0)
unfolding endpoints_at count key_of
count-endpoints_at port [] k = ground arith
count-endpoints_at port (a ∷ addrs) k = elim (Bytes-discrete a k.address) [
  | yes e ↦ ground (arith, e, count-endpoints_at port addrs k)
  | no ne ↦ ground (arith, ne, count-endpoints_at port addrs k)
]

at_port_to : (p q c n : ℕ) → n ≡ (if p == q then c else 0) → 1 ≤ n → (p ≡ q) × (1 ≤ c)
at_port_to p q c n e h = ground (arith, e, h)

at_port_from : (p q c n : ℕ) → n ≡ (if p == q then c else 0) → p ≡ q → 1 ≤ c → 1 ≤ n
at_port_from p q c n e same h = ground (arith, e, same, h)

at_port :
    (p q c n : ℕ) (P : Type 0)
    → n ≡ (if p == q then c else 0)
    → P ↔ (1 ≤ n)
    → P ↔ ((p ≡ q) × (1 ≤ c))
at_port p q c n P e h =
    (λ x. at_port_to p q c n e (h.0 x), λ x. h.1 (at_port_from p q c n e x.0 x.1))

module _ (policies : Policies) (grants : ℕ → Bytes → Bool) (order : MapOrder) (t : Target)
    {float : Float64} (cfg : Config float) where
  abbrev config : BuildConfig
  config = dns_config t cfg

  -- The balancer has come from a new one and holds endpoints of the target only.
  abbrev pub Serves : Store → BuildConfig → Balancer → Type 1
  Serves store first b =
      BalancerReach policies grants (new_balancer store first) b × InScope (dns_config t cfg) b.pool

  -- Snapshots in their order.
  abbrev pub deliver_all : List Snapshot → Balancer → Balancer
  deliver_all [] b = b
  deliver_all (snap ∷ snaps) b =
      deliver_all snaps (deliver policies grants order (dns_config t cfg) snap b)

  deliver-Serves :
      (store : Store) (first : BuildConfig) (snap : Snapshot) (b : Balancer)
      → Serves store first b
      → Serves store first (deliver policies grants order (dns_config t cfg) snap b)
  unfolding deliver apply_config dns_config
  deliver-Serves store first snap b h = (
    step h.0 (updates order (some (dns_config t cfg)) (addresses snap.endpoints)),
    update_client_conn_state-InScope policies grants order (some (dns_config t cfg))
        (addresses snap.endpoints) b h.1,
  )

  -- The pool holds exactly some addresses at a port.
  abbrev pub Holds : ℕ → List Bytes → Key → Balancer → Type 0
  Holds port addrs k b =
      (lookup PoolKey-discrete (pool_key (dns_config t cfg) k) b.pool.entries ≢ none)
      ↔ ((k.port ≡ port) × (1 ≤ count Bytes-discrete k.address addrs))

  deliver-Holds :
      {E : Type 0} (store : Store) (first : BuildConfig) (port : ℕ) (answer : Result E (List Bytes))
      (k : Key) (b : Balancer)
      → ((n : ℕ) (addr : Bytes) → grants n addr ≡ true)
      → cfg.max_subconnections ≡ pos 0
      → (1 ≤ port) × (port ≤ 65535)
      → All IsToken (found answer)
      → Serves store first b
      → Holds port
          (found answer)
          k
          (deliver policies grants order (dns_config t cfg) (answer_snapshot port answer) b)
  unfolding deliver dns_config build_config
  deliver-Holds store first port answer k b g uncapped range tokens h =
      let es = (answer_snapshot port answer).endpoints in
      let same = endpoints-answer_snapshot port answer in
      let readable =
        subst (All IsReadable) (sym same) (All-endpoints_at port (found answer) range tokens) in
      let owned = (BalancerReach-placed policies grants store first b 0 h.0).0 in
      let members =
        snapshot_members policies grants order (record t { namespace = [] }) cfg es b k g owned h.1
          uncapped readable in
      let counted =
        ap (λ l. count Key-discrete k (map key_of l)) same
        ∙ count-endpoints_at port (found answer) k in
      at_port k.port port (count Bytes-discrete k.address (found answer)) _ _ counted members

  module _ {E : Type 0} (lookup_fn : Bytes → ℕ → Result E (List Bytes)) (host : Bytes) (port : ℕ)
      (store : Store) (first : BuildConfig) (k : Key)
      (g : (n : ℕ) (addr : Bytes) → grants n addr ≡ true)
      (uncapped : cfg.max_subconnections ≡ pos 0) (range : (1 ≤ port) × (port ≤ 65535)) where
    -- Behind the last lookup.
    last-Holds :
        (m n : ℕ) (b : Balancer)
        → m ≡ n
        → All IsToken (found (lookup_fn host m))
        → Serves store first b
        → Holds port
            (found (lookup_fn host m))
            k
            (deliver policies grants order (dns_config t cfg) (resolve lookup_fn host port n) b)
    unfolding resolve
    last-Holds m n b e tokens h =
        subst
          (λ j. Holds port (found (lookup_fn host m)) k (
            deliver policies grants order (dns_config t cfg)
              (answer_snapshot port (lookup_fn host j)) b))
          e (deliver-Holds store first port (lookup_fn host m) k b g uncapped range tokens h)

    rounds-Holds :
        (turns : List Turn) (m n : ℕ) (b : Balancer)
        → m ≡ n + repeats turns
        → All IsToken (found (lookup_fn host m))
        → Serves store first b
        → Holds port
            (found (lookup_fn host m))
            k
            (deliver_all (resolve lookup_fn host port n ∷ rounds lookup_fn host port n turns) b)
    unfolding rounds
    rounds-Holds [] m n b e tokens h = last-Holds m n b (omega (arith, e)) tokens h
    rounds-Holds (ended ∷ turns) m n b e tokens h = last-Holds m n b (omega (arith, e)) tokens h
    rounds-Holds (ticked ∷ turns) m n b e tokens h =
        rounds-Holds turns m (suc n)
          (deliver policies grants order (dns_config t cfg) (resolve lookup_fn host port n) b)
          (omega (arith, e)) tokens (deliver-Serves store first (resolve lookup_fn host port n) b h)

-- R4.1, R4.2: let every NewSubConn succeed, the limit on SubConns be 0, the port of a dns target be in
-- 1..65535, and let the balancer, after any history, hold endpoints of the target only. Once the loop
-- of the resolver that Build makes for the target has run, up to the end of its context or to a select, and gRPC has passed on its
-- snapshots, the pool holds exactly the addresses that the last lookup found, at that port, if these
-- hold no white space; none if the last lookup failed.
pub loop_members :
    {E : Type 0} (policies : Policies) (grants : ℕ → Bytes → Bool) (order : MapOrder) (t : Target)
    {float : Float64} (cfg : Config float) (lookup_fn : Bytes → ℕ → Result E (List Bytes))
    (turns : List Turn) (store : Store) (first : BuildConfig) (b : Balancer) (k : Key)
    → ((n : ℕ) (addr : Bytes) → grants n addr ≡ true)
    → cfg.max_subconnections ≡ pos 0
    → (1 ≤ t.port.number) × (t.port.number ≤ 65535)
    → All IsToken (found (lookup_fn t.service (repeats turns)))
    → Serves policies grants order t cfg store first b
    → (lookup PoolKey-discrete
          (pool_key (dns_config t cfg) k)
          (deliver_all policies grants order t cfg
            (run_resolver (build_dns lookup_fn t).0 turns)
            b).pool.entries
        ≢ none)
      ↔ ((k.port ≡ t.port.number)
          × (1 ≤ count Bytes-discrete k.address (found (lookup_fn t.service (repeats turns)))))
unfolding loop run_resolver build_dns
loop_members policies grants order t cfg lookup_fn turns store first b k g uncapped range tokens h =
    rounds-Holds policies grants order t cfg lookup_fn t.service t.port.number store first k g
      uncapped range turns (repeats turns) 0 b (omega arith) tokens h
