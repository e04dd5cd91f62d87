-- ===== src/Pool/Accounting.antt =====
-- Where each SubConn is: in the map, at a drain goroutine, or shut down.
pub mod Removal
use go_kubegrpc.Base.{
  ℕ, suc, ◌+◌, ◌≤◌, ◌≡◌, refl, List, ◌∷◌, none, Bool, true, arith, Option-cases, Bool-cases, inl,
  inr, ◌&&◌,
}
use go_kubegrpc.Base.Maps.{lookup, insert, lookup-delete}
use go_kubegrpc.Text.{Bytes}
use go_kubegrpc.Resolver.{Endpoint}
use go_kubegrpc.Pool.{
  Pool, PoolKey, PoolKey-discrete, SubConnEntry, Ref, HealthState, ConnState, Effect, create,
  connect, Wake, write, new_pool, new_entry, cancel_health_of, evict, create_entry, add, remove,
  drain_step, update_conn_state, update_health, is_member, is_drained, reverify, key_text, emit,
  transient_failure,
}
use go_kubegrpc.Pool.Invariant.{IsPool, evict-IsPool}
use go_kubegrpc.Pool.Counts.{
  in_map, in_list, creations, shutdowns, in_map-insert, in_map-delete, in_list-without, in_map_ext,
  in_list_ext,
}

-- Each SubConn that was created is in the map, draining or shut down, in one of these places and
-- once; no SubConn is created twice.
pub record IsBalanced (p : Pool) : Type 0 where
  pub placed :
      (sc : ℕ)
      → in_map sc p.store p.entries + in_list sc p.store p.drains + shutdowns sc p.log
        ≡ creations sc p.log
  pub once : (sc : ℕ) → creations sc p.log ≤ 1
  pub unborn : (sc : ℕ) → p.calls ≤ sc → creations sc p.log ≡ 0

pub new_pool-IsBalanced : (store : Ref → SubConnEntry) → IsBalanced (new_pool store)
unfolding new_pool in_map in_list shutdowns creations
new_pool-IsBalanced store = record {
  placed = λ sc. refl;
  once = λ sc. omega arith;
  unborn = λ sc h. refl;
}

-- A pool is balanced if its numbers are those of a balanced one.
same_balance :
    (p q : Pool)
    → ((sc : ℕ)
        → (in_map sc q.store q.entries + in_list sc q.store q.drains + shutdowns sc q.log
            ≡ in_map sc p.store p.entries + in_list sc p.store p.drains + shutdowns sc p.log)
          × (creations sc q.log ≡ creations sc p.log))
    → p.calls ≤ q.calls
    → IsBalanced p
    → IsBalanced q
same_balance p q same later b = record {
  placed = λ sc. omega (arith, same sc, b.placed sc);
  once = λ sc. omega (arith, same sc, b.once sc);
  unborn = λ sc h. omega (arith, same sc, b.unborn sc);
}

cancel_health_of_log :
    (sc : ℕ) (r : Ref) (p : Pool)
    → (shutdowns sc (cancel_health_of r p).log ≡ shutdowns sc p.log)
      × (creations sc (cancel_health_of r p).log ≡ creations sc p.log)
unfolding cancel_health_of shutdowns creations
cancel_health_of_log sc r p = ground arith

cancel_health_of_rest :
    (r : Ref) (p : Pool)
    → ((cancel_health_of r p).entries ≡ p.entries)
      × ((cancel_health_of r p).store ≡ p.store)
      × ((cancel_health_of r p).drains ≡ p.drains)
      × ((cancel_health_of r p).calls ≡ p.calls)
unfolding cancel_health_of
cancel_health_of_rest r p = ground arith

-- A SubConn leaves the map and is shut down.
pub evict-IsBalanced :
    (key : PoolKey) (p : Pool) → IsPool p → IsBalanced p → IsBalanced (evict key p)
unfolding evict
evict-IsBalanced key p i b = elim (Option-cases (lookup PoolKey-discrete key p.entries)) [
  | inl e ↦ rw (e, evict) b
  | inr (r, e) ↦
      rw (e, evict)
        (same_balance p _
          (λ sc.
            unfold shutdowns creations in
            ground (
              arith,
              cancel_health_of_log sc r p,
              cancel_health_of_rest r p,
              in_map-delete sc p.store key r p.entries i.distinct e,
            ))
          (ground (arith, cancel_health_of_rest r p)) b)
]

evict_absent : (key : PoolKey) (p : Pool) → lookup PoolKey-discrete key (evict key p).entries ≡ none
unfolding evict
evict_absent key p = elim (Option-cases (lookup PoolKey-discrete key p.entries)) [
  | inl e ↦ rw (e, evict) e
  | inr (r, e) ↦
      rw (e, evict)
        (ground (arith, lookup-delete PoolKey-discrete key key (cancel_health_of r p).entries))
]

-- A SubConn is created and enters the map.
granted-IsBalanced :
    (key : PoolKey) (addr : Bytes) (p : Pool)
    → lookup PoolKey-discrete key p.entries ≡ none
    → IsPool p
    → IsBalanced p
    → IsBalanced (record p {
      entries = insert PoolKey-discrete key p.next_ref p.entries;
      store = write p.next_ref (new_entry key p.calls) p.store;
      next_ref = suc p.next_ref;
      calls = suc p.calls;
      log = connect p.calls ∷ create p.calls addr ∷ p.log;
    })
unfolding write
granted-IsBalanced key addr p e i b = record {
  placed = λ sc.
      unfold shutdowns creations in
      ground (
        arith,
        b.placed sc,
        in_map-insert sc store key p.next_ref p.entries e,
        in_map_ext sc p.store store p.entries i.distinct (λ k r h. ground (arith, i.owned k r h)),
        in_list_ext sc p.store store p.drains (λ r h. ground (arith, i.waiting r h)),
      );
  once = λ sc. unfold creations in ground (arith, b.once sc, b.unborn sc);
  unborn = λ sc h. unfold creations in ground (arith, b.unborn sc);
}
  where
    store : Ref → SubConnEntry
    store = write p.next_ref (new_entry key p.calls) p.store

pub create_entry-IsBalanced :
    (grants : ℕ → Bytes → Bool) (key : PoolKey) (p : Pool)
    → lookup PoolKey-discrete key p.entries ≡ none
    → IsPool p
    → IsBalanced p
    → IsBalanced (create_entry grants key p).0
unfolding create_entry
create_entry-IsBalanced grants key p e i b = elim (Bool-cases (grants p.calls (key_text key))) [
  | inl granted ↦ rw (granted, create_entry) (granted-IsBalanced key (key_text key) p e i b)
  | inr refused ↦ rw (refused, create_entry) (same_balance p _ (λ sc. (refl, refl)) (omega arith) b)
]

pub add-IsBalanced :
    (grants : ℕ → Bytes → Bool) (namespace service : Bytes) (ep : Endpoint) (p : Pool)
    → IsPool p
    → IsBalanced p
    → IsBalanced (add grants namespace service ep p).0
unfolding add
add-IsBalanced grants namespace service ep p i b =
    create_entry-IsBalanced grants _ (evict _ p) (evict_absent _ p) (evict-IsPool _ p i)
      (evict-IsBalanced _ p i b)

-- An entry is changed in place, but for its SubConn.
pub write-IsBalanced :
    (p : Pool) (r : Ref) (e : SubConnEntry)
    → e.sub_conn ≡ (p.store r).sub_conn
    → IsPool p
    → IsBalanced p
    → IsBalanced (record p { store = write r e p.store })
unfolding write
write-IsBalanced p r e h i b =
    same_balance p (record p { store = write r e p.store })
      (λ sc. ground (
        arith,
        in_map_ext sc p.store (write r e p.store) p.entries i.distinct (λ k q _. ground arith),
        in_list_ext sc p.store (write r e p.store) p.drains (λ q _. ground arith),
      ))
      (omega arith) b

-- A log line that creates no SubConn and shuts none down.
abbrev pub IsNeutral : Effect → Type 0
IsNeutral x =
    (sc : ℕ) (log : List Effect)
    → (creations sc (x ∷ log) ≡ creations sc log) × (shutdowns sc (x ∷ log) ≡ shutdowns sc log)

pub emit-IsBalanced : (x : Effect) (p : Pool) → IsNeutral x → IsBalanced p → IsBalanced (emit x p)
emit-IsBalanced x p n b =
    same_balance p (emit x p) (λ sc. ground (arith, n sc p.log)) (omega arith) b

-- A SubConn leaves the map for a drain goroutine.
