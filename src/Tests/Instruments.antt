-- ===== src/Tests/Instruments.antt =====
-- The instruments at concrete inputs.
use go_kubegrpc.Base.{◌≡◌, refl, [], ite}
use go_kubegrpc.Base.Result.{Result, ok, err}
use go_kubegrpc.Text.{Bytes, Bytes-discrete, codes}
use go_kubegrpc.Observability.{Metrics, new_metrics}

-- An instrument is its name; one name is refused.
abbrev refusing : Bytes → Bytes → Result Bytes Bytes
refusing bad name = ite (Bytes-discrete name bad) (err name) (ok name)

refused_closed : new_metrics (refusing (codes "subconn.closed")) ≡ err (codes "subconn.closed")
unfolding new_metrics Bytes-discrete
refused_closed = refl

abbrev names : Metrics Bytes
names = record {
  rpc_started = codes "rpc.started";
  rpc_completed = codes "rpc.completed";
  rpc_errors = codes "rpc.errors";
  sub_conn_created = codes "subconn.created";
  sub_conn_closed = codes "subconn.closed";
  sub_conn_healthy = codes "subconn.healthy";
  sub_conn_unhealthy = codes "subconn.unhealthy";
  resolver_state = codes "resolver.state";
  rpc_latency_ms = codes "rpc.latency_ms";
}

all_made : new_metrics (refusing []) ≡ ok names
unfolding new_metrics Bytes-discrete
all_made = refl
