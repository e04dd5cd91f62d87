-- ===== src/Lib.antt =====
-- go-kubegrpc: client-side load balancing of gRPC over Kubernetes endpoints.
--
-- The program: a target URI names a service (target.go). A resolver watches its endpoints and sends
-- snapshots; for Kubernetes a state machine bridges outages (internal/resolver). gRPC hands the
-- addresses to the balancer (internal/balancer/builder.go), which caps them (cap.go), reconciles a
-- pool of SubConns with them (pool.go), and builds a picker over the healthy ones (picker_rr.go,
-- picker_lr.go, registry.go). A health checker per entry reports to the balancer (internal/health).
-- Interceptors retry failed calls (internal/retry), and the pickers avoid the addresses that a call has
-- tried. The client (balancer.go, config.go) validates its configuration, sets up these parts, and
-- refuses calls once it is closed.
--
-- The files:
-- - Base, Text, Sort: numbers, int64, lists, maps with the order in which Go visits them, results,
--   byte strings, decimal numbers, and sorting by text.
-- - Parse, Target: internal/target/parse.go and target.go. ParseTarget is `parse_target`, String is
--   `to_string`.
-- - Resolver: internal/resolver/resolver.go and reconcile.go.
-- - Watcher: extractEndpoints and matchPort of internal/resolver/k8s/watcher.go; Watcher.Run: its loop
--   `run` of reconnections and one `watch` of the informer; Watcher.Offers: what EndpointSlices offer,
--   described without these functions.
-- - Dns: internal/resolver/dns/lookup.go, with its loop as `run_resolver`.
-- - GraceWindow: internal/resolver/k8s/statemachine.go. The callback of Start is `on_snapshot`,
--   scheduleGraceCheck is `grace_check`.
-- - Address, Cap, Pool, Picker, Registry, Balancer: internal/balancer. A method of the pool is the
--   function with its name; entries are shared by pointer, so they stand in a store. The handlers of
--   the balancer are `update_client_conn_state`, `update_sub_conn_state` and `on_health`.
--   Balancer.History: a history `BalancerReach` is a list of resolver updates, SubConn states, health
--   reports, drain wake-ups and picks; Balancer.Traffic adds RPCs that start and end. Over histories,
--   Balancer.Desired is about what the pool holds, Balancer.Deterministic about that as a set (a
--   quotient of lists), Balancer.Bounds about its size, Balancer.Changes and Balancer.Effects about one
--   SubConn state, Balancer.Availability about what the picker may serve.
-- - Health: internal/health. runWatch and runPeriodicCheck are the steps of `Health.step`, Drain is
--   `drain`; Health.Reports has the balancer's callback.
-- - Config: config.go. DefaultConfig is `default_config`, validate is `validate`.
-- - Client: balancer.go and option.go, with the process's configuration of builder.go. NewClient is
--   `new_client`; Close, Invoke and NewStream are the operations of `apply`, one after the
--   other; Client.Races has them as the steps `Races.step` of calls that overlap.
-- - Adapter: what resolver_adapter.go sends to gRPC for a snapshot; Adapter.Lifetime: Build and Close,
--   with NewKubeClient of internal/resolver/k8s/kubeclient.go and the Start and Close of the
--   resolvers; Adapter.Pipeline, Adapter.Emissions and Adapter.Outages join the resolver, the grace
--   window, the adapter and the balancer.
-- - Retry: internal/retry/backoff.go and interceptor.go. Retry.Success joins the interceptor and the
--   picker through the tracker in the context, Retry.Delivery these and the balancer.
-- - Observability: internal/observability/metrics.go and logging.go, as what is given to instruments and
--   logs.
-- - Tests: the model run at concrete inputs.
--
-- State is passed explicitly, and what a lock protects is one step. What is not in the repository is
-- an argument: the order of maps, gRPC's answers, the informer, DNS, client-go, clocks as numbers,
-- float64, the picker factories. A goroutine that waits is a step function over the events it waits
-- for (the health checker, Drain, the loops of the resolvers), so that a history is a list. Loops are
-- structural; the loops of the interceptors recurse on the attempts left, of which there are
-- MaxAttempts at the start, the bound of the source's own loop. No function needs other fuel. Where
-- the code and the repository's documents differ, the model follows the code.
--
-- Not modelled: interleavings inside a pick, the dial options of the caller, TLS, Close and
-- ResolverError of the balancer, which only log, the tools and the examples, and the texts of errors
-- and of the other logs.
pub mod Base
pub mod Text
pub mod Sort
pub mod Resolver
pub mod Address
pub mod Cap
pub mod Pool
pub mod Picker
pub mod Registry
pub mod Balancer
pub mod Parse
pub mod Target
pub mod Retry
pub mod Health
pub mod Config
pub mod Client
pub mod Observability
pub mod GraceWindow
pub mod Adapter
pub mod Watcher
pub mod Dns
pub mod Tests
