-- ===== src/Adapter/Lifetime.antt =====
-- resolver_adapter.go, with Start and Close of internal/resolver/k8s/watcher.go and
-- internal/resolver/dns/lookup.go: how a resolver is built and closed. The goroutines are the loop of
-- the resolver inside, the one of Build that waits for the context, and the caller of Close; a move
-- is what one of them does next, and `none` is that it blocks. The loop's move is its return, which
-- is there once its context is done. Arguments that stand for what is not in the repository: the
-- calls of client-go.
use go_kubegrpc.Base.{
  List, [], ◌∷◌, Option, none, some, Bool, true, false, not, ◌&&◌, ◌||◌, if◌then◌else◌,
}
use go_kubegrpc.Base.Result.{Result, ok, err}
use go_kubegrpc.Text.{Bytes}
use go_kubegrpc.Watcher
use go_kubegrpc.GraceWindow.{StateMachine, new_state_machine}
use go_kubegrpc.Dns.{DnsResolver, new_resolver}
use go_kubegrpc.Base.{ℕ}
use go_kubegrpc.Target.{Target}
use go_kubegrpc.Retry.{Float64}
use go_kubegrpc.Config.{Config}

-- Why NewKubeClient fails.
pub data KubeError (E : Type 0) : Type 0 where
  no_config no_client : E → KubeError E

module _ {E R K : Type 0} (from_flags : Bytes → Result E R) (in_cluster : Result E R)
    (new_for_config : R → Result E K) where
  -- kubernetes.NewForConfig, and its error wrapped.
  unfoldable pub client_for : Result E R → Result (KubeError E) K
  client_for (err e) = err (no_config e)
  client_for (ok rest_cfg) = elim (new_for_config rest_cfg) [
    | err e ↦ err (no_client e)
    | ok client ↦ ok client
  ]

  -- `NewKubeClient`.
  unfoldable pub new_kube_client : Bytes → Result (KubeError E) K
  unfolding client_for
  new_kube_client [] = client_for in_cluster
  new_kube_client (c ∷ kubeconfig) = client_for (from_flags (c ∷ kubeconfig))

-- The resolver inside: `started` is whether cancel is non-nil, `once` whether closeOnce has run,
-- `done` whether the channel that the loop closes is closed.
pub record Inner : Type 0 where
  pub started : Bool
  pub cancelled : Bool
  pub once : Bool
  pub done : Bool

-- `NewWatcher` and `newDNSResolver`.
unfoldable pub new_inner : Inner
new_inner = record { started = false; cancelled = false; once = false; done = false }

-- `Start`; its error is always nil.
unfoldable pub start : Inner → Inner
start i = record i { started = true }

-- `Close` up to its wait for the channel.
unfoldable pub begin_close : Inner → Inner
begin_close i = if i.once then i else record i { once = true; cancelled = i.started || i.cancelled }

-- Where a Close of the wrapper is; `serving` is before it.
pub data Stage : Type 0 where
  serving closing_inner awaiting_loop awaiting_waiter closed : Stage

-- `grpcResolverWrapper`: its context is cancelled, and its goroutine has left the wait group.
pub record Wrapper : Type 0 where
  pub inner : Inner
  pub cancelled : Bool
  pub waiter_done : Bool
  pub stage : Stage

-- The end of `Build`, of both builders.
unfoldable pub wrap : Inner → Wrapper
unfolding start
wrap i = record { inner = start i; cancelled = false; waiter_done = false; stage = serving }

pub data Move : Type 0 where
  close_moves loop_exits waiter_exits : Move

-- `Close` of the wrapper, from one of its waits to the next.
unfoldable pub close_step : Stage → Wrapper → Option Wrapper
unfolding begin_close
close_step serving w = some (record w { cancelled = true; stage = closing_inner })
close_step closing_inner w = some (record w { inner = begin_close w.inner; stage = awaiting_loop })
close_step awaiting_loop w =
    if w.inner.done then some (record w { stage = awaiting_waiter }) else none
close_step awaiting_waiter w = if w.waiter_done then some (record w { stage = closed }) else none
close_step closed w = none

-- A move of one of the goroutines.
unfoldable pub move : Move → Wrapper → Option Wrapper
unfolding close_step
move close_moves w = close_step w.stage w
move loop_exits w =
    if w.inner.started && (w.inner.cancelled || w.cancelled) && not w.inner.done
    then some (record w { inner = record w.inner { done = true } })
    else none
move waiter_exits w =
    if w.cancelled && not w.waiter_done then some (record w { waiter_done = true }) else none

-- Some moves, in their order; `none` where one of them blocks.
unfoldable pub moves : List Move → Wrapper → Option Wrapper
unfolding move
moves [] w = some w
moves (m ∷ ms) w = elim (move m w) [ none ↦ none | some after ↦ moves ms after ]

-- What `Build` of the k8s builder makes: the watcher's configuration, the state machine, the wrapper.
pub record K8sResolver (K : Type 0) : Type 0 where
  pub namespace : Bytes
  pub service_name : Bytes
  pub port : Watcher.Port
  pub kube_client : K
  pub machine : StateMachine
  pub wrapper : Wrapper

module _ {E R K : Type 0} (from_flags : Bytes → Result E R) (in_cluster : Result E R)
    (new_for_config : R → Result E K) {float : Float64} where
  -- `Build` of the k8s builder.
  unfoldable pub build_k8s : Target → Config float → Result (KubeError E) (K8sResolver K)
  unfolding new_kube_client new_state_machine wrap new_inner
  build_k8s t cfg = elim (new_kube_client from_flags in_cluster new_for_config cfg.kubeconfig) [
    | err e ↦ err e
    | ok client ↦ ok (record {
      namespace = t.namespace;
      service_name = t.service;
      port = record { name = t.port.name; number = t.port.number };
      kube_client = client;
      machine = new_state_machine cfg.resolver_grace_window;
      wrapper = wrap new_inner;
    })
  ]

-- `Build` of the dns builder: the resolver inside, with its own Start and Close, and the wrapper.
unfoldable pub build_dns :
    {E : Type 0} → (Bytes → ℕ → Result E (List Bytes)) → Target → DnsResolver E × Wrapper
unfolding new_resolver wrap new_inner
build_dns lookup_ip_addr t =
    (new_resolver lookup_ip_addr none t.service t.port.number, wrap new_inner)
