-- ===== src/Balancer/Changes.antt =====
-- UpdateSubConnState: what a connectivity state changes in the entry of its SubConn.
use go_kubegrpc.Base.{
  subst, ◌⊎◌, append-nil, ℕ, ◌≤◌, ◌≡◌, refl, ap, sym, ◌∙◌, [], ◌++◌, some, Bool, true, false, arith,
  Bool-cases, inl, inr,
}
use go_kubegrpc.Base.Maps.{lookup, MapOrder}
use go_kubegrpc.Text.{Bytes}
use go_kubegrpc.Pool.{
  Pool, PoolKey, PoolKey-discrete, Ref, connect, serving, not_serving, ConnState, update_conn_state,
  update_health,
}
use go_kubegrpc.Pool.Invariant.{IsPool, update_conn_state-IsPool}
use go_kubegrpc.Pool.Counts.{in_map}
use go_kubegrpc.Picker.{Store}
use go_kubegrpc.Balancer.{emit, Balancer, BuildConfig, Policies, new_balancer, rebuild_picker}
use go_kubegrpc.Balancer.SubConns.{
  Probe, on_ready, on_failure, on_state, find_key_for_sub_conn, get_pool_entry,
  update_sub_conn_state,
}
use go_kubegrpc.Balancer.Find.{
  in_map-lookup, in_map-cases, get_pool_entry-lookup, find_key_for_sub_conn-lookup,
  find_key_for_sub_conn-absent,
}
use go_kubegrpc.Balancer.History.{BalancerReach, BalancerReach-placed}
use go_kubegrpc.Balancer.Effects.{
  runs_on, entry_after, begin_effects, end_effects, effects_of, written, write_self,
  update_health-written, reverify_effects, update_conn_state-written, stop_health_check-written,
  start_health_check-written,
}

module _ (order : MapOrder) (probe : Probe) (k : PoolKey) (r : Ref) (p : Pool)
    (h : lookup PoolKey-discrete k p.entries ≡ some r) (i : IsPool p) where
  -- The entry is still found after UpdateConnState.
  get_pool_entry-after :
      (state : ConnState)
      → get_pool_entry order 1 k
          (written r (record (p.store r) { conn_state = state }) (reverify_effects state) p)
        ≡ some r
  get_pool_entry-after state =
      let same = update_conn_state-written k state r p h in
      ap (get_pool_entry order 1 k) (sym same)
      ∙ get_pool_entry-lookup (update_conn_state k state p) order
          (update_conn_state-IsPool k state p i) k r
          (ap (λ (q : Pool). lookup PoolKey-discrete k q.entries) same ∙ h) 1

  on_ready-written :
      (check : Bool)
      → on_ready order probe check k
          (written r (record (p.store r) { conn_state = ConnState.ready }) [] p)
        ≡ written r
            (entry_after check probe ConnState.ready (p.store r))
            (effects_of check probe ConnState.ready r (p.store r))
            p
  unfolding on_ready
  on_ready-written false = update_health-written k serving r _ [] p h
  on_ready-written true = elim (Bool-cases (p.store r).health_cancel) [
    | inl f ↦
        rw
          (
            get_pool_entry-after ConnState.ready,
            on_ready,
            write_self r (record (p.store r) { conn_state = ConnState.ready }) p.store,
            f,
          )
          refl
    | inr f ↦
        rw
          (
            get_pool_entry-after ConnState.ready,
            on_ready,
            write_self r (record (p.store r) { conn_state = ConnState.ready }) p.store,
            f,
          )
          (start_health_check-written probe r
              (record (p.store r) { conn_state = ConnState.ready; health_cancel = false }) [] p refl
            ∙ ap
                (λ l.
                  written r
                    (record (p.store r) {
                      conn_state = ConnState.ready;
                      health_cancel = runs_on probe;
                    })
                    l p)
                (append-nil (begin_effects probe r)))
  ]

  on_failure-written :
      (state : ConnState)
      → on_failure order k
          (written r (record (p.store r) { conn_state = state }) (reverify_effects state) p)
        ≡ written r
            (record (p.store r) { conn_state = state; health = not_serving; health_cancel = false })
            (end_effects (p.store r).health_cancel r ++ reverify_effects state)
            p
  unfolding on_failure
  on_failure-written state =
      rw (get_pool_entry-after state, on_failure)
        (ap (update_health k not_serving) (stop_health_check-written r _ _ p)
          ∙ update_health-written k not_serving r _ _ p h)

  on_state-written :
      (check : Bool) (state : ConnState)
      → on_state order probe check (p.store r).sub_conn k state (update_conn_state k state p)
        ≡ written r
            (entry_after check probe state (p.store r))
            (effects_of check probe state r (p.store r))
            p
  unfolding on_state
  on_state-written check ConnState.ready =
      ap (on_ready order probe check k) (update_conn_state-written k ConnState.ready r p h)
      ∙ on_ready-written check
  on_state-written check ConnState.transient_failure =
      ap (on_failure order k) (update_conn_state-written k ConnState.transient_failure r p h)
      ∙ on_failure-written ConnState.transient_failure
  on_state-written check ConnState.shut_down =
      ap (on_failure order k) (update_conn_state-written k ConnState.shut_down r p h)
      ∙ on_failure-written ConnState.shut_down
      ∙ ap
          (λ l.
            written r
              (record (p.store r) {
                conn_state = ConnState.shut_down;
                health = not_serving;
                health_cancel = false;
              })
              l p)
          (append-nil (end_effects (p.store r).health_cancel r))
  on_state-written check ConnState.idle =
      ap (emit (connect (p.store r).sub_conn)) (update_conn_state-written k ConnState.idle r p h)
  on_state-written check ConnState.connecting =
      update_conn_state-written k ConnState.connecting r p h

-- Let a SubConn change its state after any history of a new balancer. If an entry of the pool has it,
-- then, whatever order Go visits the map in, that entry alone is changed and stays in the pool: a
-- ready SubConn serves at once where health checks are off, and else its health check begins unless
-- it runs; a failed or closed one serves no more and its health check is cancelled; an idle one is
-- told to connect; at a failure gRPC is asked to resolve again. Then the picker is built anew. If no
-- entry of the pool has the SubConn, nothing changes.
pub update_sub_conn_state_entry :
    (policies : Policies) (grants : ℕ → Bytes → Bool) (store : Store) (first : BuildConfig)
    (b : Balancer) (order : MapOrder) (probe : Probe) (sc : ℕ) (state : ConnState)
    → BalancerReach policies grants (new_balancer store first) b
    → let p = b.pool in
      let check = b.cfg.enable_health_check in
      let after = update_sub_conn_state policies order probe sc state b in
      ((k : PoolKey) × (r : Ref) × (lookup PoolKey-discrete k p.entries ≡ some r)
        × ((p.store r).sub_conn ≡ sc)
        × (after
            ≡ rebuild_picker policies order 2 (record b {
              pool =
                  written r
                    (entry_after check probe state (p.store r))
                    (effects_of check probe state r (p.store r))
                    p;
            })))
      ⊎ ((in_map sc p.store p.entries ≡ 0) × (after ≡ b))
unfolding update_sub_conn_state
update_sub_conn_state_entry policies grants store first b order probe sc state reach =
    let p = b.pool in
    let check = b.cfg.enable_health_check in
    let (i, placed, once) = BalancerReach-placed policies grants store first b sc reach in
    elim (in_map-cases sc p.store p.entries i.distinct) [
      | inl (k, r, h, e) ↦
          let found : find_key_for_sub_conn order sc p ≡ some k =
            subst (λ c. find_key_for_sub_conn order c p ≡ some k) e
              (find_key_for_sub_conn-lookup p order i k r h (
                subst (λ c. in_map c p.store p.entries ≤ 1) (sym e)
                  (omega (arith, placed, once)))) in
          inl (
            k,
            r,
            h,
            e,
            rw (found, update_sub_conn_state)
                (ap (λ q. rebuild_picker policies order 2 (record b { pool = q }))
                  (subst
                    (λ c.
                      on_state order probe check c k state (update_conn_state k state p)
                      ≡ written r (entry_after check probe state (p.store r))
                          (effects_of check probe state r (p.store r)) p)
                    e (on_state-written order probe k r p h i check state))),
          )
      | inr gone ↦ inr (
        gone,
        rw
            (
              find_key_for_sub_conn-absent p order sc i (λ k r h e.
                  absurd (omega (arith, gone, in_map-lookup sc p.store k r p.entries h e))),
              update_sub_conn_state,
            )
            refl,
      )
    ]
