-- ===== src/Dns.antt =====
-- internal/resolver/dns/lookup.go: the resolver of dns targets. Arguments that stand for what is not
-- in the repository: `lookup_fn`, the answer of each lookup of a host, with the texts of the
-- addresses; the turns of the loop, whether its select finds the ticker or the end of the context.
pub mod Members
use go_kubegrpc.Base.{ℕ, suc, ◌≡◌, refl, List, [], ◌∷◌, Option, none, some, true, false}
use go_kubegrpc.Base.Result.{Result, ok, err}
use go_kubegrpc.Text.{Bytes}
use go_kubegrpc.Resolver.{Endpoint, Snapshot, connected, disconnected}

pub data Turn : Type 0 where
  ticked ended : Turn

-- The endpoints of the addresses.
unfoldable pub endpoints_at : ℕ → List Bytes → List Endpoint
endpoints_at port [] = []
endpoints_at port (a ∷ addrs) =
    record { address = a; port = port; ready = true } ∷ endpoints_at port addrs

-- The snapshot of a lookup's answer.
unfoldable pub answer_snapshot : {E : Type 0} → ℕ → Result E (List Bytes) → Snapshot
unfolding endpoints_at
answer_snapshot port (err e) = record { endpoints = []; state = disconnected; failed = true }
answer_snapshot port (ok addrs) = record {
  endpoints = endpoints_at port addrs;
  state = connected;
  failed = false;
}

-- `dnsResolver`; what Start and Close do to it is in Adapter.Lifetime.
pub record DnsResolver (E : Type 0) : Type 0 where
  pub host : Bytes
  pub port : ℕ
  pub lookup_fn : Bytes → ℕ → Result E (List Bytes)

-- `newDNSResolver`.
unfoldable pub new_dns_resolver :
    {E : Type 0} → Bytes → ℕ → (Bytes → ℕ → Result E (List Bytes)) → DnsResolver E
new_dns_resolver host port lookup_fn = record { host = host; port = port; lookup_fn = lookup_fn }

-- `Builder.NewResolver`: a lookup function of the builder, which is nil in the adapter, replaces
-- net.DefaultResolver.LookupIPAddr.
unfoldable pub new_resolver :
    {E : Type 0}
    → (Bytes → ℕ → Result E (List Bytes))
    → Option (Bytes → ℕ → Result E (List Bytes))
    → Bytes
    → ℕ
    → DnsResolver E
unfolding new_dns_resolver
new_resolver lookup_ip_addr none host port = new_dns_resolver host port lookup_ip_addr
new_resolver lookup_ip_addr (some lookup_fn) host port = new_dns_resolver host port lookup_fn

module _ {E : Type 0} (lookup_fn : Bytes → ℕ → Result E (List Bytes)) (host : Bytes)
    (port : ℕ) where
  -- `resolve`, the n-th time.
  unfoldable pub resolve : ℕ → Snapshot
  unfolding answer_snapshot
  resolve n = answer_snapshot port (lookup_fn host n)

  -- The rounds of `loop` behind the n-th lookup; the snapshots in their order.
  unfoldable pub rounds : ℕ → List Turn → List Snapshot
  unfolding resolve
  rounds n [] = []
  rounds n (ended ∷ turns) = []
  rounds n (ticked ∷ turns) = resolve (suc n) ∷ rounds (suc n) turns

  -- `loop`.
  unfoldable pub loop : List Turn → List Snapshot
  unfolding resolve rounds
  loop turns = resolve 0 ∷ rounds 0 turns

-- The goroutine of `Start`, with the lookup function, host and port of the resolver.
unfoldable pub run_resolver : {E : Type 0} → DnsResolver E → List Turn → List Snapshot
unfolding loop
run_resolver r turns = loop r.lookup_fn r.host r.port turns
