-- ===== src/Tests/Balancers.antt =====
-- The balancer at concrete inputs.
use go_kubegrpc.Balancer.Rebuild.{IsPickerOver, serving_entry, state_over, rebuild_picker-healthy}
use go_kubegrpc.Balancer.{rebuild_picker}
use go_kubegrpc.Picker.{address_of}
use go_kubegrpc.Sort.{IsSorted}
use go_kubegrpc.Pool.{Ref, update_state}
use mathlib.Core.List.{Perm, filter_map}
use go_kubegrpc.Cap.{endpoints_to_map, cap_endpoints}
use go_kubegrpc.Base.Maps.{insert}
use go_kubegrpc.Cap.{endpoint_text}
use go_kubegrpc.Address.{parse_addr_to_endpoint}
use go_kubegrpc.Text.Order.{text_ltb}
use go_kubegrpc.Text.Decimal.{itoa}
use go_kubegrpc.Cap.{add_endpoints}
use go_kubegrpc.Balancer.Scope.{update_client_conn_state-InScope}
use go_kubegrpc.Base.{ℕ, ◌+◌, ◌≤◌, ◌≡◌, ◌≢◌, ◌↔◌, refl, List, [], ◌∷◌, none, some, true, arith}
use go_kubegrpc.Base.Int.{pos}
use go_kubegrpc.Base.Maps.{lookup, in_order}
use go_kubegrpc.Text.{Bytes, codes}
use go_kubegrpc.Resolver.{Key, Key-discrete}
use go_kubegrpc.Pool.{PoolKey-discrete, ConnState}
use go_kubegrpc.Pool.Counts.{in_map, in_list, creations, shutdowns}
use go_kubegrpc.Pool.Invariant.{IsPool, new_pool-IsPool}
use go_kubegrpc.Balancer.{
  rebuild_picker, BuildConfig, Balancer, new_balancer, pool_key, apply_config, capped_desired,
  update_client_conn_state,
}
use go_kubegrpc.Balancer.SubConns.{Probe, update_sub_conn_state}
use go_kubegrpc.Balancer.Snapshots.{InScope}
use go_kubegrpc.Balancer.Update.{update_client_conn_state_members, update_client_conn_state_kept}
use go_kubegrpc.Balancer.History.{
  changes, updates, start, step, BalancerReach, BalancerReach-placed,
}
use go_kubegrpc.Base.{length, ◌⊎◌}
use go_kubegrpc.Pool.{PoolKey}
use go_kubegrpc.Balancer.Desired.{AreOfTarget, history_members}
use go_kubegrpc.Balancer.Deterministic.{endpoint_set, desired_set, history_set}
use go_kubegrpc.Balancer.Bounds.{history_bounded}
use go_kubegrpc.Balancer.Effects.{written, entry_after, effects_of}
use go_kubegrpc.Balancer.Changes.{update_sub_conn_state_entry}
use go_kubegrpc.Tests.Pools.{blank, granted}

abbrev pub cfg : BuildConfig
cfg = record {
  namespace = codes "prod";
  service = codes "api";
  policy = [];
  max_subconns = pos 2;
  enable_health_check = true;
  health_check_service_name = [];
  health_check_interval = pos 10;
  health_check_timeout = pos 1;
}

abbrev pub fresh : Balancer
fresh = new_balancer blank cfg

abbrev pub addresses : List Bytes
addresses = codes "10.0.0.1:80" ∷ codes "10.0.0.2:80" ∷ []

abbrev pub k : Key
k = record { address = codes "10.0.0.1"; port = 80 }

-- An update, and the first SubConn becomes ready.
abbrev pub updated : Balancer
updated = update_client_conn_state [] granted in_order none addresses fresh

abbrev readied : Balancer
readied = update_sub_conn_state [] in_order Probe.started 0 ConnState.ready updated

readied-Reach : BalancerReach [] granted fresh readied
readied-Reach =
    step (step start (updates in_order none addresses))
      (changes in_order Probe.started 0 ConnState.ready)

BalancerReach-placed_example :
    IsPool readied.pool
    × (in_map 1 readied.pool.store readied.pool.entries
          + in_list 1 readied.pool.store readied.pool.drains
          + shutdowns 1 readied.pool.log
        ≡ creations 1 readied.pool.log)
    × (creations 1 readied.pool.log ≤ 1)
BalancerReach-placed_example = BalancerReach-placed [] granted blank cfg readied 1 readied-Reach

always : (n : ℕ) (addr : Bytes) → granted n addr ≡ true
always n addr = refl

fresh-IsPool : IsPool fresh.pool
unfolding new_balancer
fresh-IsPool = new_pool-IsPool blank

fresh-InScope : InScope (apply_config none fresh).cfg fresh.pool
unfolding new_balancer apply_config lookup
fresh-InScope j r e = ground arith

updated-IsPool : IsPool updated.pool
updated-IsPool =
    (BalancerReach-placed [] granted blank cfg updated 0
      (step start (updates in_order none addresses))).0

updated-InScope : InScope (apply_config none updated).cfg updated.pool
unfolding apply_config update_client_conn_state rebuild_picker
updated-InScope =
    update_client_conn_state-InScope [] granted in_order none addresses fresh fresh-InScope

k_capped :
    lookup Key-discrete k (capped_desired in_order (pos 2) addresses)
    ≡ some (record { address = codes "10.0.0.1"; port = 80; ready = true })
unfolding capped_desired lookup insert add_endpoints parse_addr_to_endpoint text_ltb itoa
    Key-discrete endpoint_text endpoints_to_map cap_endpoints
k_capped = refl

still_wanted : lookup Key-discrete k (capped_desired in_order (pos 2) addresses) ≢ none
still_wanted e = ground (arith, k_capped)

here_before :
    lookup PoolKey-discrete (pool_key (apply_config none updated).cfg k) updated.pool.entries ≢ none
unfolding apply_config update_client_conn_state rebuild_picker new_balancer
here_before =
    (update_client_conn_state_members [] granted in_order none addresses fresh k always fresh-IsPool
        fresh-InScope).1
      still_wanted

wanted_still :
    lookup Key-discrete k
      (capped_desired in_order (apply_config none updated).cfg.max_subconns addresses)
    ≢ none
unfolding apply_config update_client_conn_state rebuild_picker new_balancer
wanted_still = still_wanted

update_client_conn_state_kept_example :
    lookup PoolKey-discrete
      (pool_key (apply_config none updated).cfg k)
      (update_client_conn_state [] granted in_order none addresses updated).pool.entries
    ≡ lookup PoolKey-discrete (pool_key (apply_config none updated).cfg k) updated.pool.entries
update_client_conn_state_kept_example =
    update_client_conn_state_kept [] granted in_order none addresses updated k updated-IsPool
      updated-InScope here_before wanted_still

rebuild_picker-healthy_example :
    (hs : List Ref) × Perm hs (filter_map (serving_entry updated.pool.store) updated.pool.entries)
    × IsSorted (address_of updated.pool.store) hs
    × IsPickerOver [] updated hs (rebuild_picker [] in_order 0 updated).picker
    × ((rebuild_picker [] in_order 0 updated).pool
        ≡ record updated.pool { log = update_state (state_over hs) ∷ updated.pool.log })
rebuild_picker-healthy_example = rebuild_picker-healthy [] in_order 0 updated

-- An update with the target's configuration, and the first SubConn becomes ready.
abbrev target_history : BalancerReach [] granted fresh (
    update_sub_conn_state [] in_order Probe.started 0 ConnState.ready
      (update_client_conn_state [] granted in_order (some cfg) addresses fresh))
target_history =
    step (step start (updates in_order (some cfg) addresses))
      (changes in_order Probe.started 0 ConnState.ready)

target_history-AreOfTarget : AreOfTarget cfg target_history
target_history-AreOfTarget = ((tt, refl), tt)

abbrev served : Balancer
served =
    update_sub_conn_state [] in_order Probe.started 0 ConnState.ready
      (update_client_conn_state [] granted in_order (some cfg) addresses fresh)

history_members_example :
    (lookup PoolKey-discrete (pool_key cfg k) served.pool.entries ≢ none)
    ↔ (lookup Key-discrete k (capped_desired in_order (pos 2) addresses) ≢ none)
history_members_example =
    history_members [] granted blank cfg cfg always target_history k target_history-AreOfTarget

history_set_example : endpoint_set served.pool ≡ desired_set cfg addresses
history_set_example =
    history_set [] granted blank cfg cfg target_history always target_history-AreOfTarget

history_bounded_example : length served.pool.entries ≤ 2
history_bounded_example =
    history_bounded [] granted blank cfg cfg 1 target_history refl target_history-AreOfTarget

update_sub_conn_state_entry_example :
    let p = updated.pool in
    let after = update_sub_conn_state [] in_order Probe.started 0 ConnState.ready updated in
    ((j : PoolKey) × (r : Ref) × (lookup PoolKey-discrete j p.entries ≡ some r)
      × ((p.store r).sub_conn ≡ 0)
      × (after
          ≡ rebuild_picker [] in_order 2 (record updated {
            pool =
                written r
                  (entry_after updated.cfg.enable_health_check Probe.started ConnState.ready
                    (p.store r))
                  (effects_of updated.cfg.enable_health_check Probe.started ConnState.ready r
                    (p.store r))
                  p;
          })))
    ⊎ ((in_map 0 p.store p.entries ≡ 0) × (after ≡ updated))
update_sub_conn_state_entry_example =
    update_sub_conn_state_entry [] granted blank cfg updated in_order Probe.started 0
      ConnState.ready (step start (updates in_order none addresses))
