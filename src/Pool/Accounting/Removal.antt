-- ===== src/Pool/Accounting/Removal.antt =====
-- The SubConns stay accounted for through removals, drains, and the reports on an entry.
use go_kubegrpc.Base.{refl, true, arith, Option-cases, Bool-cases, inl, inr, ◌&&◌}
use go_kubegrpc.Base.Maps.{lookup}
use go_kubegrpc.Pool.{
  Pool, PoolKey, PoolKey-discrete, Ref, HealthState, ConnState, Wake, write, remove, drain_step,
  update_conn_state, update_health, is_member, is_drained, reverify, transient_failure,
}
use go_kubegrpc.Pool.Invariant.{IsPool}
use go_kubegrpc.Pool.Counts.{in_list, creations, shutdowns, in_map-delete, in_list-without}
use go_kubegrpc.Pool.Accounting.{
  IsBalanced, same_balance, cancel_health_of_log, cancel_health_of_rest, write-IsBalanced,
}

pub remove-IsBalanced :
    (key : PoolKey) (p : Pool) → IsPool p → IsBalanced p → IsBalanced (remove key p)
unfolding remove
remove-IsBalanced key p i b = elim (Option-cases (lookup PoolKey-discrete key p.entries)) [
  | inl e ↦ rw (e, remove) b
  | inr (r, e) ↦
      let store = write r (record (p.store r) { draining = true }) p.store in
      let marked : Pool = record p { store = store } in
      rw (e, remove)
        (same_balance marked _
          (λ sc.
            unfold in_list in
            ground (
              arith,
              cancel_health_of_log sc r marked,
              cancel_health_of_rest r marked,
              in_map-delete sc store key r p.entries i.distinct e,
            ))
          (ground (arith, cancel_health_of_rest r marked)) (write-IsBalanced p r _ refl i b))
]

-- A SubConn leaves its drain goroutine and is shut down.
pub drain_step-IsBalanced :
    (w : Wake) (r : Ref) (p : Pool) → IsBalanced p → IsBalanced (drain_step w r p)
unfolding drain_step
drain_step-IsBalanced w r p b =
    elim (Bool-cases (is_member r p.drains && is_drained w (p.store r))) [
      | inl e ↦
          rw (e, drain_step)
            (same_balance p _
              (λ sc.
                unfold shutdowns creations in ground (arith, in_list-without sc p.store r p.drains))
              (omega arith) b)
      | inr e ↦ rw (e, drain_step) b
    ]

reverify-IsBalanced : (state : ConnState) (p : Pool) → IsBalanced p → IsBalanced (reverify state p)
unfolding reverify
reverify-IsBalanced transient_failure p b =
    same_balance p _ (λ sc. unfold shutdowns creations in (refl, refl)) (omega arith) b
reverify-IsBalanced _ p b = b

pub update_conn_state-IsBalanced :
    (key : PoolKey) (state : ConnState) (p : Pool)
    → IsPool p
    → IsBalanced p
    → IsBalanced (update_conn_state key state p)
unfolding update_conn_state
update_conn_state-IsBalanced key state p i b =
    elim (Option-cases (lookup PoolKey-discrete key p.entries)) [
      | inl e ↦ rw (e, update_conn_state) b
      | inr (r, e) ↦
          rw (e, update_conn_state)
            (reverify-IsBalanced state _
              (write-IsBalanced p r (record (p.store r) { conn_state = state }) refl i b))
    ]

pub update_health-IsBalanced :
    (key : PoolKey) (state : HealthState) (p : Pool)
    → IsPool p
    → IsBalanced p
    → IsBalanced (update_health key state p)
unfolding update_health
update_health-IsBalanced key state p i b =
    elim (Option-cases (lookup PoolKey-discrete key p.entries)) [
      | inl e ↦ rw (e, update_health) b
      | inr (r, e) ↦
          rw (e, update_health)
            (write-IsBalanced p r (record (p.store r) { health = state }) refl i b)
    ]
