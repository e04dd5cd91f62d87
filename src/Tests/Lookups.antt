-- ===== src/Tests/Lookups.antt =====
-- The dns resolver at concrete inputs.
use go_kubegrpc.Base.{ℕ, zero, suc, ◌≡◌, ◌≢◌, ◌↔◌, ◌≤◌, refl, List, [], ◌∷◌, arith, none, All}
use go_kubegrpc.Base.Int.{pos}
use go_kubegrpc.Base.Maps.{lookup, in_order}
use go_kubegrpc.Base.Count.{count}
use go_kubegrpc.Base.Result.{Result, ok, err}
use go_kubegrpc.Text.{Bytes, Bytes-discrete, codes}
use go_kubegrpc.Address.{is_space}
use go_kubegrpc.Address.RoundTrip.{IsToken}
use go_kubegrpc.Resolver.{Key}
use go_kubegrpc.Target.{Target}
use go_kubegrpc.Config.{Config, default_config}
use go_kubegrpc.Pool.{PoolKey-discrete}
use go_kubegrpc.Balancer.{Balancer, new_balancer, pool_key}
use go_kubegrpc.Balancer.History.{start}
use go_kubegrpc.Adapter.{dns_config}
use go_kubegrpc.Dns.{Turn, ticked, ended, run_resolver}
use go_kubegrpc.Adapter.Lifetime.{build_dns}
use go_kubegrpc.Dns.Members.{Serves, deliver_all, found, repeats, loop_members}
use go_kubegrpc.Tests.Pools.{blank, granted}
use go_kubegrpc.Tests.Balancers
use go_kubegrpc.Tests.Retries.{exact}

abbrev target : Target
target = record {
  scheme = codes "dns";
  namespace = [];
  service = codes "api";
  port = record { name = []; number = 80 };
}

abbrev defaults : Config exact
defaults = default_config exact 2

-- The second lookup fails, the others find one address.
abbrev lookup_fn : Bytes → ℕ → Result ℕ (List Bytes)
lookup_fn host zero = ok (codes "10.0.0.1" ∷ [])
lookup_fn host (suc zero) = err 2
lookup_fn host (suc (suc n)) = ok (codes "10.0.0.2" ∷ [])

-- Two ticks, and the end of the context.
abbrev turns : List Turn
turns = ticked ∷ ticked ∷ ended ∷ ticked ∷ []

abbrev fresh : Balancer
fresh = new_balancer blank Balancers.cfg

fresh-Serves : Serves [] granted in_order target defaults blank Balancers.cfg fresh
unfolding new_balancer lookup
fresh-Serves = (start, λ j r e. ground arith)

found-IsToken : All IsToken (found (lookup_fn target.service (repeats turns)))
unfolding is_space
found-IsToken = ground arith

uncapped : defaults.max_subconnections ≡ pos 0
unfolding default_config
uncapped = refl

abbrev k : Key
k = record { address = codes "10.0.0.2"; port = 80 }

loop_members_example :
    (lookup PoolKey-discrete
        (pool_key (dns_config target defaults) k)
        (deliver_all [] granted in_order target defaults
          (run_resolver (build_dns lookup_fn target).0 turns)
          fresh).pool.entries
      ≢ none)
    ↔ ((k.port ≡ target.port.number)
        × (1 ≤ count Bytes-discrete k.address (found (lookup_fn target.service (repeats turns)))))
loop_members_example =
    loop_members [] granted in_order target defaults lookup_fn turns blank Balancers.cfg fresh k
      (λ n addr. refl) uncapped (omega arith, omega arith) found-IsToken fresh-Serves
