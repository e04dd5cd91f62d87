-- ===== src/Tests/Pools.antt =====
-- The pool at concrete inputs.
use go_kubegrpc.Base.{ℕ, Bool, true, false}
use go_kubegrpc.Base.Int.{pos}
use go_kubegrpc.Text.{Bytes, codes}
use go_kubegrpc.Resolver.{Endpoint}
use go_kubegrpc.Pool.{PoolKey, SubConnEntry, Ref, HealthState, ConnState}

abbrev pub endpoint : Endpoint
endpoint = record { address = codes "10.0.0.1"; port = 80; ready = true }

abbrev pub key : PoolKey
key = record {
  namespace = codes "prod";
  service = codes "api";
  address = codes "10.0.0.1";
  port = 80;
}

abbrev pub blank : Ref → SubConnEntry
blank r = record {
  key = key;
  sub_conn = 0;
  in_flight = pos 0;
  draining = false;
  health = HealthState.unknown;
  conn_state = ConnState.idle;
  health_cancel = false;
}

abbrev pub granted : ℕ → Bytes → Bool
granted n addr = true
