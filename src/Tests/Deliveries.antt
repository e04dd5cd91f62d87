-- ===== src/Tests/Deliveries.antt =====
-- RPCs through the picker of the balancer, at concrete inputs.
use go_kubegrpc.Base.{ℕ, suc, ◌≤◌, ◌≡◌, refl, [], ◌∷◌, some, true, false, arith, length, ite}
use go_kubegrpc.Base.Maps.{in_order, lookup, delete}
use go_kubegrpc.Base.Result.{Result, ok, err}
use go_kubegrpc.Text.{Bytes, Bytes-discrete}
use go_kubegrpc.Text.Decimal.{itoa}
use go_kubegrpc.Text.Order.{text_ltb}
use go_kubegrpc.Address.{addr_port, parse_addr_to_endpoint}
use go_kubegrpc.Cap.{endpoints_to_map, cap_endpoints, endpoint_text}
use go_kubegrpc.Resolver.{Key-discrete}
use go_kubegrpc.Pool.{
  Ref, ConnState, add, remove, PoolKey-discrete, is_member, key_text, update_health,
  update_conn_state,
}
use go_kubegrpc.Pool.Queries.{snapshot, is_healthy, healthy_entries}
use go_kubegrpc.Picker.{address_of}
use go_kubegrpc.Sort.{sort_by}
use go_kubegrpc.Balancer.{
  BuildConfig, Balancer, new_balancer, sorted_healthy, update_client_conn_state,
}
use go_kubegrpc.Balancer.SubConns.{Probe, update_sub_conn_state}
use go_kubegrpc.Balancer.History.{BalancerReach, start, step, updates, changes}
use go_kubegrpc.Balancer.Desired.{AreOfTarget}
use go_kubegrpc.Retry.{called, is_retryable, unary}
use go_kubegrpc.Retry.Attempts.{waits}
use go_kubegrpc.Retry.Success.{failing, has_failed, rpc_env}
use go_kubegrpc.Retry.Delivery.{rpc_delivered}
use go_kubegrpc.Tests.Pools.{blank, granted}
use go_kubegrpc.Tests.Balancers.{cfg, addresses}
use go_kubegrpc.Tests.Retries.{exact, policy, code, no_pick}

-- Without health checks: two endpoints, and both SubConns become ready.
abbrev unchecked : BuildConfig
unchecked = record cfg { enable_health_check = false }

abbrev asked : Balancer
asked =
    update_client_conn_state [] granted in_order (some unchecked) addresses
      (new_balancer blank unchecked)

abbrev one_ready : Balancer
one_ready = update_sub_conn_state [] in_order Probe.started 0 ConnState.ready asked

abbrev both_ready : Balancer
both_ready = update_sub_conn_state [] in_order Probe.started 1 ConnState.ready one_ready

abbrev both_history : BalancerReach [] granted (new_balancer blank unchecked) both_ready
both_history =
    step
      (step (step start (updates in_order (some unchecked) addresses))
        (changes in_order Probe.started 0 ConnState.ready))
      (changes in_order Probe.started 1 ConnState.ready)

both_history-AreOfTarget : AreOfTarget unchecked both_history
both_history-AreOfTarget = (((tt, refl), tt), tt)

-- The backend of the second entry fails; the other answers 7.
abbrev answer : Bytes → Result ℕ ℕ
answer addr = ite (Bytes-discrete addr (address_of both_ready.pool.store 1)) (err 14) (ok 7)

served : sorted_healthy in_order 0 both_ready.pool ≡ 0 ∷ 1 ∷ []
unfolding update_client_conn_state is_member snapshot new_balancer endpoints_to_map cap_endpoints
    parse_addr_to_endpoint Key-discrete text_ltb endpoint_text lookup add PoolKey-discrete remove
    delete sorted_healthy healthy_entries is_healthy update_sub_conn_state sort_by key_text
    addr_port itoa update_health update_conn_state
served = refl

two_served : length (sorted_healthy in_order 0 both_ready.pool) ≡ 2
two_served = rw served refl

one_fails :
    length (failing answer both_ready.pool.store (sorted_healthy in_order 0 both_ready.pool)) ≡ 1
unfolding update_client_conn_state is_member snapshot new_balancer endpoints_to_map cap_endpoints
    parse_addr_to_endpoint Key-discrete text_ltb endpoint_text lookup add PoolKey-discrete remove
    delete sorted_healthy healthy_entries is_healthy update_sub_conn_state sort_by key_text
    addr_port itoa update_health update_conn_state failing has_failed Bytes-discrete
one_fails = refl

fails-is_retryable :
    (r : Ref) (e : ℕ)
    → is_member r (sorted_healthy in_order 0 both_ready.pool) ≡ true
    → answer (address_of both_ready.pool.store r) ≡ err e
    → is_retryable code e policy.retryable_status_codes ≡ true
unfolding is_retryable
fails-is_retryable r e m f =
    elim (Bytes-discrete (address_of both_ready.pool.store r)
      (address_of both_ready.pool.store 1)) [ yes same ↦ ground arith | no other ↦ ground arith ]

rpc_delivered_example :
    let hs = sorted_healthy in_order 0 both_ready.pool in
    let env = rpc_env Unit exact code policy no_pick answer both_ready.pool.store hs (λ n. n) in
    (a : ℕ) × (r : Ref) × (m : ℕ) × (unary exact code policy env false
      ≡ (ok a, called (suc m) ∷ waits exact code policy env m))
    × (is_member r hs ≡ true)
    × (answer (address_of both_ready.pool.store r) ≡ ok a)
    × (m ≤ length (failing answer both_ready.pool.store hs))
rpc_delivered_example =
    rpc_delivered Unit exact code policy no_pick answer (λ n. n) [] granted blank unchecked
      unchecked both_history in_order 0 both_history-AreOfTarget
      (omega (arith, one_fails, two_served)) fails-is_retryable (omega arith)
      (omega (arith, one_fails))
