-- ===== src/Pool/Invariant.antt =====
-- The invariant of the pool, and its operations.
use go_kubegrpc.Base.{
  ap, subst, ℕ, suc, ◌<◌, ◌≡◌, refl, List, [], ◌∷◌, some, Bool, true, false, arith, Option-cases,
  Bool-cases, ap, subst, ◌&&◌, inl, inr,
}
use go_kubegrpc.Base.Maps.{
  lookup, insert, delete, Distinct, lookup-insert, lookup-delete, insert-Distinct, delete-Distinct,
}
use go_kubegrpc.Text.{Bytes}
use go_kubegrpc.Resolver.{Endpoint}
use go_kubegrpc.Pool.{
  emit, Effect, Pool, PoolKey, PoolKey-discrete, SubConnEntry, Ref, HealthState, ConnState, Wake,
  write, new_pool, new_entry, cancel_health_of, evict, create_entry, add, remove, drain_step,
  update_conn_state, update_health, without, is_member, key_text, is_drained,
}

-- Each key stands once in the map, at an entry that was allocated for it and is not draining; an
-- entry whose goroutine waits is draining.
pub record IsPool (p : Pool) : Type 0 where
  pub distinct : Distinct PoolKey-discrete p.entries
  pub owned :
      (k : PoolKey) (r : Ref)
      → lookup PoolKey-discrete k p.entries ≡ some r
      → (r < p.next_ref) × ((p.store r).key ≡ k) × ((p.store r).draining ≡ false)
  pub waiting :
      (r : Ref) → is_member r p.drains ≡ true → (r < p.next_ref) × ((p.store r).draining ≡ true)

pub new_pool-IsPool : (store : Ref → SubConnEntry) → IsPool (new_pool store)
unfolding new_pool lookup is_member
new_pool-IsPool store = record {
  distinct = tt;
  owned = λ k r h. ground arith;
  waiting = λ r h. ground arith;
}

-- What the invariant reads of a pool: neither the log nor the number of calls.
same_pool :
    (p q : Pool)
    → p.entries ≡ q.entries
    → p.store ≡ q.store
    → p.next_ref ≡ q.next_ref
    → p.drains ≡ q.drains
    → IsPool p
    → IsPool q
same_pool p q e s n d i = record {
  distinct = subst (Distinct PoolKey-discrete) e i.distinct;
  owned = λ k r h. ground (arith, i.owned k r, ap (λ f. f r) s);
  waiting = λ r h. ground (arith, i.waiting r, ap (λ f. f r) s);
}

pub cancel_health_of-IsPool : (r : Ref) (p : Pool) → IsPool p → IsPool (cancel_health_of r p)
unfolding cancel_health_of
cancel_health_of-IsPool r p i =
    same_pool p (cancel_health_of r p) (ground arith) (ground arith) (ground arith) (ground arith) i

pub emit-IsPool : (x : Effect) (p : Pool) → IsPool p → IsPool (emit x p)
emit-IsPool x p i = record { distinct = i.distinct; owned = i.owned; waiting = i.waiting }

delete-IsPool :
    (key : PoolKey) (p : Pool)
    → IsPool p
    → IsPool (record p { entries = delete PoolKey-discrete key p.entries })
delete-IsPool key p i = record {
  distinct = delete-Distinct PoolKey-discrete key p.entries i.distinct;
  owned = λ k r h. ground (arith, i.owned k r, lookup-delete PoolKey-discrete key k p.entries);
  waiting = i.waiting;
}

-- An entry is changed in place, but for its key and its draining mark.
pub write-IsPool :
    (p : Pool) (r : Ref) (e : SubConnEntry)
    → e.key ≡ (p.store r).key
    → e.draining ≡ (p.store r).draining
    → IsPool p
    → IsPool (record p { store = write r e p.store })
unfolding write
write-IsPool p r e hk hd i = record {
  distinct = i.distinct;
  owned = λ k q h. ground (arith, i.owned k q h);
  waiting = λ q h. ground (arith, i.waiting q h);
}

pub evict-IsPool : (key : PoolKey) (p : Pool) → IsPool p → IsPool (evict key p)
unfolding evict
evict-IsPool key p i = elim (Option-cases (lookup PoolKey-discrete key p.entries)) [
  | inl e ↦ rw (e, evict) i
  | inr (r, e) ↦
      same_pool (record p { entries = delete PoolKey-discrete key p.entries }) (evict key p)
        (ground arith) (ground arith) (ground arith) (ground arith) (delete-IsPool key p i)
]

-- A new entry is allocated for a key, in place of the key's old one.
allocate-IsPool :
    (key : PoolKey) (e : SubConnEntry) (p : Pool)
    → e.key ≡ key
    → e.draining ≡ false
    → IsPool p
    → IsPool (record p {
      entries = insert PoolKey-discrete key p.next_ref p.entries;
      store = write p.next_ref e p.store;
      next_ref = suc p.next_ref;
    })
unfolding write
allocate-IsPool key e p hk hd i = record {
  distinct = insert-Distinct PoolKey-discrete key p.next_ref p.entries i.distinct;
  owned = λ k r h.
      ground (arith, i.owned k r, lookup-insert PoolKey-discrete key k p.next_ref p.entries);
  waiting = λ r h. ground (arith, i.waiting r h);
}

pub create_entry-IsPool :
    (grants : ℕ → Bytes → Bool) (key : PoolKey) (p : Pool)
    → IsPool p
    → IsPool (create_entry grants key p).0
unfolding create_entry
create_entry-IsPool grants key p i = elim (Bool-cases (grants p.calls (key_text key))) [
  | inl e ↦
      same_pool _ (create_entry grants key p).0 (ground arith) (ground arith) (ground arith)
        (ground arith) (allocate-IsPool key (new_entry key p.calls) p refl refl i)
  | inr e ↦
      same_pool p (create_entry grants key p).0 (ground arith) (ground arith) (ground arith)
        (ground arith) i
]

pub add-IsPool :
    (grants : ℕ → Bytes → Bool) (namespace service : Bytes) (ep : Endpoint) (p : Pool)
    → IsPool p
    → IsPool (add grants namespace service ep p).0
unfolding add
add-IsPool grants namespace service ep p i = create_entry-IsPool grants _ _ (evict-IsPool _ p i)

-- A key's entry begins to drain and leaves the map.
drain-IsPool :
    (key : PoolKey) (r : Ref) (p : Pool)
    → lookup PoolKey-discrete key p.entries ≡ some r
    → IsPool p
    → IsPool (record p {
      entries = delete PoolKey-discrete key p.entries;
      store = write r (record (p.store r) { draining = true }) p.store;
      drains = r ∷ p.drains;
    })
unfolding write is_member
drain-IsPool key r p e i = record {
  distinct = delete-Distinct PoolKey-discrete key p.entries i.distinct;
  owned = λ k q h.
      ground (arith, i.owned k q, i.owned key r e, lookup-delete PoolKey-discrete key k p.entries);
  waiting = λ q h. ground (arith, i.waiting q, i.owned key r e);
}

pub remove-IsPool : (key : PoolKey) (p : Pool) → IsPool p → IsPool (remove key p)
unfolding remove
remove-IsPool key p i = elim (Option-cases (lookup PoolKey-discrete key p.entries)) [
  | inl e ↦ rw (e, remove) i
  | inr (r, e) ↦
      same_pool _ (remove key p) (ground arith) (ground arith) (ground arith) (ground arith)
        (drain-IsPool key r p e i)
]

pub is_member-without :
    (r q : Ref) (qs : List Ref) → is_member q (without r qs) ≡ true → is_member q qs ≡ true
unfolding is_member without
is_member-without r q [] h = h
is_member-without r q (s ∷ qs) h = ground (arith, is_member-without r q qs)

pub drain_step-IsPool : (w : Wake) (r : Ref) (p : Pool) → IsPool p → IsPool (drain_step w r p)
unfolding drain_step
drain_step-IsPool w r p i = elim (Bool-cases (is_member r p.drains && is_drained w (p.store r))) [
  | inl e ↦
      rw (e, drain_step)
        (record {
          distinct = i.distinct;
          owned = i.owned;
          waiting = λ q h. i.waiting q (is_member-without r q p.drains h);
        })
  | inr e ↦ rw (e, drain_step) i
]

pub update_conn_state-IsPool :
    (key : PoolKey) (state : ConnState) (p : Pool)
    → IsPool p
    → IsPool (update_conn_state key state p)
unfolding update_conn_state
update_conn_state-IsPool key state p i =
    elim (Option-cases (lookup PoolKey-discrete key p.entries)) [
      | inl e ↦ rw (e, update_conn_state) i
      | inr (r, e) ↦
          same_pool
            (record p { store = write r (record (p.store r) { conn_state = state }) p.store })
            (update_conn_state key state p) (ground arith) (ground arith) (ground arith)
            (ground arith) (write-IsPool p r _ refl refl i)
    ]

pub update_health-IsPool :
    (key : PoolKey) (state : HealthState) (p : Pool) → IsPool p → IsPool (update_health key state p)
unfolding update_health
update_health-IsPool key state p i = elim (Option-cases (lookup PoolKey-discrete key p.entries)) [
  | inl e ↦ rw (e, update_health) i
  | inr (r, e) ↦
      rw (e, update_health) (write-IsPool p r (record (p.store r) { health = state }) refl refl i)
]
