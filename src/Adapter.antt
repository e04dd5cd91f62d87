-- ===== src/Adapter.antt =====
-- resolver_adapter.go: what the resolver of a target sends to gRPC for a snapshot, and what the
-- balancer makes of it. Build and Close are in Lifetime.
pub mod Members
pub mod Lifetime
pub mod Shutdown
pub mod Pipeline
pub mod Emissions
pub mod Outages
use go_kubegrpc.Base.{ℕ, Bool, some, false, List, [], ◌∷◌}
use go_kubegrpc.Base.Int.{ℤ, pos}
use go_kubegrpc.Text.{Bytes}
use go_kubegrpc.Resolver.{Endpoint, Snapshot}
use go_kubegrpc.Address.{addr_port}
use go_kubegrpc.Target.{Target}
use go_kubegrpc.Base.Maps.{MapOrder}
use go_kubegrpc.Balancer.{BuildConfig, Balancer, Policies, update_client_conn_state}
use go_kubegrpc.Config.{Config}
use go_kubegrpc.Retry.{Float64}

-- The addresses of a snapshot; its state is not looked at.
unfoldable pub addresses : List Endpoint → List Bytes
unfolding addr_port
addresses [] = []
addresses (e ∷ es) = addr_port e.address e.port ∷ addresses es

-- The configuration in the attributes; the fields that are not set are zero.
unfoldable pub build_config : {float : Float64} → Target → Config float → BuildConfig
build_config t cfg = record {
  namespace = t.namespace;
  service = t.service;
  policy = cfg.load_balancing_policy;
  max_subconns = cfg.max_subconnections;
  enable_health_check = false;
  health_check_service_name = [];
  health_check_interval = pos 0;
  health_check_timeout = pos 0;
}

-- The configuration of a dns target.
unfoldable pub dns_config : {float : Float64} → Target → Config float → BuildConfig
dns_config t cfg = record {
  namespace = [];
  service = t.service;
  policy = cfg.load_balancing_policy;
  max_subconns = cfg.max_subconnections;
  enable_health_check = false;
  health_check_service_name = [];
  health_check_interval = pos 0;
  health_check_timeout = pos 0;
}

-- The callback of Start on a snapshot: gRPC gives what UpdateState is given to the balancer.
unfoldable pub deliver :
    Policies → (ℕ → Bytes → Bool) → MapOrder → BuildConfig → Snapshot → Balancer → Balancer
unfolding addresses
deliver policies grants order cfg snap b =
    update_client_conn_state policies grants order (some cfg) (addresses snap.endpoints) b
