-- ===== src/Observability.antt =====
-- internal/observability: the instruments (metrics.go) and the log lines (logging.go). Arguments that
-- stand for what is not in the repository: `create`, how OpenTelemetry makes an instrument with a
-- name, in the order of the calls; a recording or a log line is what is given to it. Not modelled: the
-- descriptions and units of the instruments. Nothing in the repository calls this package.
use Prim.Native.String.{String}
use go_kubegrpc.Base.{ℕ, List, [], ◌∷◌, Bool, true, false}
use go_kubegrpc.Base.Int.{ℤ, pos}
use go_kubegrpc.Base.Result.{Result, ok, ◌>>=◌}
use go_kubegrpc.Text.{Bytes, codes}
use go_kubegrpc.Text.Decimal.{itoa}

-- The instruments; `I` is their type.
pub record Metrics (I : Type 0) : Type 0 where
  pub rpc_started : I
  pub rpc_completed : I
  pub rpc_errors : I
  pub sub_conn_created : I
  pub sub_conn_closed : I
  pub sub_conn_healthy : I
  pub sub_conn_unhealthy : I
  pub resolver_state : I
  pub rpc_latency_ms : I

-- `NewMetrics`, with a provider.
unfoldable pub new_metrics : {E I : Type 0} → (Bytes → Result E I) → Result E (Metrics I)
new_metrics create = do
  rpc_started ← create (codes "rpc.started")
  rpc_completed ← create (codes "rpc.completed")
  rpc_errors ← create (codes "rpc.errors")
  sub_conn_created ← create (codes "subconn.created")
  sub_conn_closed ← create (codes "subconn.closed")
  sub_conn_healthy ← create (codes "subconn.healthy")
  sub_conn_unhealthy ← create (codes "subconn.unhealthy")
  resolver_state ← create (codes "resolver.state")
  rpc_latency_ms ← create (codes "rpc.latency_ms")
  ok (record {
    rpc_started = rpc_started;
    rpc_completed = rpc_completed;
    rpc_errors = rpc_errors;
    sub_conn_created = sub_conn_created;
    sub_conn_closed = sub_conn_closed;
    sub_conn_healthy = sub_conn_healthy;
    sub_conn_unhealthy = sub_conn_unhealthy;
    resolver_state = resolver_state;
    rpc_latency_ms = rpc_latency_ms;
  })

-- A call of an instrument, with its attributes; `F` is the type of float64.
pub data Recording (I F : Type 0) : Type 0 where
  added : I → ℤ → List (Bytes × Bytes) → Recording I F
  measured : I → F → List (Bytes × Bytes) → Recording I F

abbrev attribute : String → Bytes → Bytes × Bytes
attribute name value = (codes name, value)

module _ {I F : Type 0} (m : Metrics I) where
  unfoldable pub record_rpc_start : Bytes → List (Recording I F)
  record_rpc_start method = added m.rpc_started (pos 1) (attribute "method" method ∷ []) ∷ []

  unfoldable pub record_rpc_complete : Bytes → Bytes → F → List (Recording I F)
  record_rpc_complete method code latency_ms =
      let attrs = attribute "method" method ∷ attribute "code" code ∷ [] in
      added m.rpc_completed (pos 1) attrs ∷ measured m.rpc_latency_ms latency_ms attrs ∷ []

  unfoldable pub record_rpc_error : Bytes → Bytes → List (Recording I F)
  record_rpc_error method code =
      added m.rpc_errors (pos 1) (attribute "method" method ∷ attribute "code" code ∷ []) ∷ []

  unfoldable pub record_sub_conn_created : Bytes → List (Recording I F)
  record_sub_conn_created endpoint =
      added m.sub_conn_created (pos 1) (attribute "endpoint" endpoint ∷ []) ∷ []

  unfoldable pub record_sub_conn_closed : Bytes → Bytes → List (Recording I F)
  record_sub_conn_closed endpoint reason =
      added m.sub_conn_closed (pos 1)
        (attribute "endpoint" endpoint ∷ attribute "reason" reason ∷ [])
      ∷ []

  unfoldable pub update_health_count : ℤ → Bool → List (Recording I F)
  update_health_count delta true = added m.sub_conn_healthy delta [] ∷ []
  update_health_count delta false = added m.sub_conn_unhealthy delta [] ∷ []

  unfoldable pub update_resolver_state : Bytes → ℤ → List (Recording I F)
  update_resolver_state state delta =
      added m.resolver_state delta (attribute "state" state ∷ []) ∷ []

-- A line of a log, with its fields.
pub data LogLine : Type 0 where
  debug_line info_line : Bytes → List (Bytes × Bytes) → LogLine

-- The methods of `Logger`; a number is given as its decimal text.
unfoldable pub log_retry : Bytes → ℕ → Bytes → Bytes → LogLine
unfolding itoa
log_retry method attempt prior_code endpoint = debug_line (codes "rpc retry attempt") (
    attribute "method" method
    ∷ attribute "attempt" (itoa attempt)
    ∷ attribute "prior_code" prior_code
    ∷ attribute "endpoint" endpoint
    ∷ [])

unfoldable pub log_health_transition : Bytes → Bytes → LogLine
log_health_transition endpoint state =
    info_line (codes "subconn health state changed")
      (attribute "endpoint" endpoint ∷ attribute "state" state ∷ [])

unfoldable pub log_sub_conn_created : Bytes → ℕ → Bytes → LogLine
unfolding itoa
log_sub_conn_created endpoint port reason =
    info_line (codes "subconn created") (
      attribute "endpoint" endpoint ∷ attribute "port" (itoa port) ∷ attribute "reason" reason ∷ [])

unfoldable pub log_sub_conn_closed : Bytes → ℕ → Bytes → LogLine
unfolding itoa
log_sub_conn_closed endpoint port reason =
    info_line (codes "subconn closed") (
      attribute "endpoint" endpoint ∷ attribute "port" (itoa port) ∷ attribute "reason" reason ∷ [])
