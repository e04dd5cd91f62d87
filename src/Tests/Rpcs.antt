-- ===== src/Tests/Rpcs.antt =====
-- RPCs over the balancer at concrete inputs.
use go_kubegrpc.Base.{
  ◌↔◌, false, ◌≡◌, ◌<◌, refl, [], ◌∷◌, none, true, arith, if◌then◌else◌, ◌==◌, ℕ_discrete,
}
use go_kubegrpc.Base.Int.{pos}
use go_kubegrpc.Base.Count.{count}
use go_kubegrpc.Base.Maps.{in_order}
use go_kubegrpc.Base.Result.{ok}
use go_kubegrpc.Pool.Queries.{snapshot}
use go_kubegrpc.Balancer.{new_balancer}
use go_kubegrpc.Cap.{endpoints_to_map, cap_endpoints, endpoint_text}
use go_kubegrpc.Address.{parse_addr_to_endpoint}
use go_kubegrpc.Resolver.{Key-discrete}
use go_kubegrpc.Text.Order.{text_ltb}
use go_kubegrpc.Base.Maps.{lookup, delete}
use go_kubegrpc.Pool.{serving, add, remove, PoolKey-discrete}
use go_kubegrpc.Pool.{Ref, tick, deadline, is_member, drain_step}
use go_kubegrpc.Picker.{lr_pick}
use go_kubegrpc.Picker.LeastRequest.{counted}
use go_kubegrpc.Balancer.{Balancer, update_client_conn_state}
use go_kubegrpc.Balancer.History.{updates}
use go_kubegrpc.Balancer.Traffic.{
  RpcReach, idle, follows, handles, least_request, drained, drain_step_open,
}
use go_kubegrpc.Base.{some, ap, ◌∙◌}
use go_kubegrpc.Pool.{ConnState}
use go_kubegrpc.Pool.Queries.{is_healthy}
use go_kubegrpc.Balancer.{BuildConfig, pool_key}
use go_kubegrpc.Balancer.SubConns.{Probe, update_sub_conn_state}
use go_kubegrpc.Balancer.History.{BalancerReach, start, step, changes}
use go_kubegrpc.Balancer.Entries.{entries-update_sub_conn_state}
use go_kubegrpc.Balancer.Verdicts.{AreUnchecked, verdict}
use go_kubegrpc.Balancer.Availability.{is_healthy-verdict}
use go_kubegrpc.Tests.Pools.{blank, granted}
use go_kubegrpc.Tests.Balancers.{cfg, fresh, updated, addresses, k}

-- An RPC is placed on the first entry, and the endpoints go.
abbrev busy : Balancer
busy = record updated { pool = record updated.pool { store = counted updated.pool.store 0 } }

abbrev leaving : Balancer
leaving = update_client_conn_state [] granted in_order none [] busy

placed : lr_pick updated.pool.store none (0 ∷ []) ≡ ok (0, counted updated.pool.store 0, none)
unfolding lr_pick
placed = refl

two_entries : updated.pool.next_ref ≡ 2
unfolding update_client_conn_state is_member snapshot new_balancer endpoints_to_map cap_endpoints
    parse_addr_to_endpoint Key-discrete text_ltb endpoint_text lookup add PoolKey-discrete remove
    delete
two_entries = refl

leaves : is_member 0 leaving.pool.drains ≡ true
unfolding update_client_conn_state is_member snapshot new_balancer endpoints_to_map cap_endpoints
    parse_addr_to_endpoint Key-discrete text_ltb endpoint_text lookup add PoolKey-discrete remove
    delete
leaves = refl

first_entry : (q : Ref) → is_member q (0 ∷ []) ≡ true → q < updated.pool.next_ref
unfolding is_member
first_entry q h = ground (arith, two_entries)

leaving-Reach : RpcReach [] granted fresh leaving (0 ∷ [])
leaving-Reach =
    follows
      (follows (follows idle (handles (updates in_order none addresses) tt)) (
        least_request none none (0 ∷ []) 0 (counted updated.pool.store 0) first_entry (omega arith)
          placed))
      (handles (updates in_order none []) tt)

drain_step_open_example :
    ((leaving.pool.store 0).in_flight ≡ pos (count ℕ_discrete 0 (0 ∷ [])))
    × (drain_step tick 0 leaving.pool
        ≡ (if count ℕ_discrete 0 (0 ∷ []) == 0 then drained 0 leaving.pool else leaving.pool))
    × (drain_step deadline 0 leaving.pool ≡ drained 0 leaving.pool)
drain_step_open_example =
    drain_step_open [] granted blank cfg leaving (0 ∷ []) 0 leaving-Reach leaves

-- Without health checks: two endpoints, and the SubConn of the first becomes ready.
abbrev plain : BuildConfig
plain = record cfg { enable_health_check = false }

abbrev plain_updated : Balancer
plain_updated =
    update_client_conn_state [] granted in_order none addresses (new_balancer blank plain)

abbrev plain_ready : Balancer
plain_ready = update_sub_conn_state [] in_order Probe.started 0 ConnState.ready plain_updated

abbrev plain_history : BalancerReach [] granted (new_balancer blank plain) plain_ready
plain_history =
    step (step start (updates in_order none addresses))
      (changes in_order Probe.started 0 ConnState.ready)

two_calls : plain_updated.pool.calls ≡ 2
unfolding update_client_conn_state is_member snapshot new_balancer endpoints_to_map cap_endpoints
    parse_addr_to_endpoint Key-discrete text_ltb endpoint_text lookup add PoolKey-discrete remove
    delete
two_calls = refl

plain_history-AreUnchecked : AreUnchecked plain_history
plain_history-AreUnchecked = ((tt, tt), omega (arith, two_calls))

first_here : lookup PoolKey-discrete (pool_key plain k) plain_updated.pool.entries ≡ some 0
unfolding update_client_conn_state is_member snapshot new_balancer endpoints_to_map cap_endpoints
    parse_addr_to_endpoint Key-discrete text_ltb endpoint_text lookup add PoolKey-discrete remove
    delete
first_here = refl

first_stays : lookup PoolKey-discrete (pool_key plain k) plain_ready.pool.entries ≡ some 0
first_stays =
    ap (lookup PoolKey-discrete (pool_key plain k))
      (entries-update_sub_conn_state [] in_order Probe.started 0 ConnState.ready plain_updated)
    ∙ first_here

is_healthy-verdict_example :
    (is_healthy (plain_ready.pool.store 0) ≡ true)
    ↔ (verdict (plain_ready.pool.store 0).sub_conn plain_history ≡ serving)
is_healthy-verdict_example =
    is_healthy-verdict [] granted blank plain plain_history (pool_key plain k) 0 refl
      plain_history-AreUnchecked first_stays
