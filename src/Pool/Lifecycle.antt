-- ===== src/Pool/Lifecycle.antt =====
-- Every history of the pool: its methods, its drain goroutines, and what pickers, Done callbacks and
-- the health checks write to an entry, in any interleaving.
use go_kubegrpc.Base.{true, ℕ, ◌+◌, ◌≤◌, ◌≡◌, refl, Bool, true}
use go_kubegrpc.Base.Int.{ℤ}
use go_kubegrpc.Text.{Bytes}
use go_kubegrpc.Resolver.{Endpoint}
use go_kubegrpc.Pool.{
  ℤ, Pool, PoolKey, SubConnEntry, Ref, HealthState, ConnState, Effect, emit, Wake, write, new_pool,
  add, remove, drain_step, update_conn_state, update_health,
}
use go_kubegrpc.Pool.Counts.{in_map, in_list, creations, shutdowns}
use go_kubegrpc.Pool.Invariant.{
  IsPool, new_pool-IsPool, write-IsPool, emit-IsPool, add-IsPool, remove-IsPool, drain_step-IsPool,
  update_conn_state-IsPool, update_health-IsPool,
}
use go_kubegrpc.Pool.Accounting.{
  IsBalanced, IsNeutral, new_pool-IsBalanced, write-IsBalanced, emit-IsBalanced, add-IsBalanced,
}
use go_kubegrpc.Pool.Accounting.Removal.{
  remove-IsBalanced, drain_step-IsBalanced, update_conn_state-IsBalanced, update_health-IsBalanced,
}

-- What may happen to the pool, as one step; `counting` is whether in-flight counts may be written.
pub data Step (counting : Bool) (grants : ℕ → Bytes → Bool) (p : Pool) : Pool → Type 0 where
  adds :
      (namespace service : Bytes) (ep : Endpoint)
      → Step counting grants p (add grants namespace service ep p).0
  removes : (key : PoolKey) → Step counting grants p (remove key p)
  drains : (w : Wake) (r : Ref) → Step counting grants p (drain_step w r p)
  connects :
      (key : PoolKey) (state : ConnState) → Step counting grants p (update_conn_state key state p)
  probes :
      (key : PoolKey) (state : HealthState) → Step counting grants p (update_health key state p)
  -- HealthCancel is written through the pointer.
  writes :
      (r : Ref) (e : SubConnEntry)
      → e.key ≡ (p.store r).key
      → e.draining ≡ (p.store r).draining
      → e.sub_conn ≡ (p.store r).sub_conn
      → e.in_flight ≡ (p.store r).in_flight
      → Step counting grants p (record p { store = write r e p.store })
  -- So is the count of RPCs in flight.
  counts :
      (r : Ref) (n : ℤ)
      → counting ≡ true
      → Step counting grants p
          (record p { store = write r (record (p.store r) { in_flight = n }) p.store })
  -- A call of gRPC that neither creates nor shuts down a SubConn.
  emits : (x : Effect) → IsNeutral x → Step counting grants p (emit x p)

pub data Reach (counting : Bool) (grants : ℕ → Bytes → Bool) (p : Pool) : Pool → Type 0 where
  here : Reach counting grants p p
  next :
      {q r : Pool}
      → Reach counting grants p q
      → Step counting grants q r
      → Reach counting grants p r

Step-both :
    {counting : Bool} {grants : ℕ → Bytes → Bool} {p q : Pool}
    → Step counting grants p q
    → IsPool p
    → IsBalanced p
    → IsPool q × IsBalanced q
Step-both {grants = grants} {p} (adds ns svc ep) i b =
    (add-IsPool grants ns svc ep p i, add-IsBalanced grants ns svc ep p i b)
Step-both {p = p} (removes key) i b = (remove-IsPool key p i, remove-IsBalanced key p i b)
Step-both {p = p} (drains w r) i b = (drain_step-IsPool w r p i, drain_step-IsBalanced w r p b)
Step-both {p = p} (connects key s) i b =
    (update_conn_state-IsPool key s p i, update_conn_state-IsBalanced key s p i b)
Step-both {p = p} (probes key s) i b =
    (update_health-IsPool key s p i, update_health-IsBalanced key s p i b)
Step-both {p = p} (writes r e hk hd hs hn) i b =
    (write-IsPool p r e hk hd i, write-IsBalanced p r e hs i b)
Step-both {p = p} (counts r n on) i b = (
  write-IsPool p r (record (p.store r) { in_flight = n }) refl refl i,
  write-IsBalanced p r (record (p.store r) { in_flight = n }) refl i b,
)
Step-both {p = p} (emits x n) i b = (emit-IsPool x p i, emit-IsBalanced x p n b)

pub Reach-both :
    {counting : Bool} {grants : ℕ → Bytes → Bool} {p q : Pool}
    → Reach counting grants p q
    → IsPool p
    → IsBalanced p
    → IsPool q × IsBalanced q
Reach-both here i b = (i, b)
Reach-both (next h s) i b = let (j, c) = Reach-both h i b in Step-both s j c

-- R4.2, R4.3, R4.5: after any history of a new pool each SubConn that NewSubConn returned is in the
-- map, at a drain goroutine, or shut down, in exactly one of these places and once; so it is shut
-- down at most once, and not while it is in the map or drains.
pub Reach-placed :
    {counting : Bool} (grants : ℕ → Bytes → Bool) (store : Ref → SubConnEntry) (p : Pool) (sc : ℕ)
    → Reach counting grants (new_pool store) p
    → (in_map sc p.store p.entries + in_list sc p.store p.drains + shutdowns sc p.log
        ≡ creations sc p.log)
      × (creations sc p.log ≤ 1)
Reach-placed grants store p sc h =
    let both = Reach-both h (new_pool-IsPool store) (new_pool-IsBalanced store) in
    (both.1.placed sc, both.1.once sc)

-- R4.3, R4.5: after any history of a new pool the map has each key at most once, at an entry with
-- that key which is not draining.
pub Reach-owned :
    {counting : Bool} (grants : ℕ → Bytes → Bool) (store : Ref → SubConnEntry) (p : Pool)
    → Reach counting grants (new_pool store) p
    → IsPool p
Reach-owned grants store p h = (Reach-both h (new_pool-IsPool store) (new_pool-IsBalanced store)).0
