-- ===== src/Pool/InFlight.antt =====
-- The counts of RPCs in flight over histories in which no picker and no Done callback takes part.
use go_kubegrpc.Base.{
  ℕ, ◌≤◌, ◌<◌, ◌≡◌, refl, ◌∙◌, Bool, false, arith, Option-cases, Bool-cases, inl, inr,
}
use go_kubegrpc.Base.Int.{pos}
use go_kubegrpc.Base.Maps.{lookup}
use go_kubegrpc.Text.{Bytes}
use go_kubegrpc.Pool.{
  Pool, PoolKey, PoolKey-discrete, Ref, HealthState, ConnState, Wake, write, evict, create_entry,
  add, remove, drain_step, update_conn_state, update_health, key_text, cancel_health_of,
}
use go_kubegrpc.Pool.Lifecycle.{
  Step, Reach, adds, removes, drains, connects, probes, writes, counts, emits, here, next,
}

-- The counts of the entries are kept, and new entries have none in flight.
pub record Keeps (p q : Pool) : Type 0 where
  pub grows : p.next_ref ≤ q.next_ref
  pub same : (r : Ref) → r < p.next_ref → (q.store r).in_flight ≡ (p.store r).in_flight
  pub fresh : (r : Ref) → p.next_ref ≤ r → r < q.next_ref → (q.store r).in_flight ≡ pos 0

Keeps-refl : (p : Pool) → Keeps p p
Keeps-refl p = record {
  grows = omega arith;
  same = λ r h. refl;
  fresh = λ r h k. absurd (omega (arith, h, k));
}

Keeps-trans : (p q s : Pool) → Keeps p q → Keeps q s → Keeps p s
Keeps-trans p q s h k = record {
  grows = omega (arith, h.grows, k.grows);
  same = λ r l. k.same r (omega (arith, l, h.grows)) ∙ h.same r l;
  fresh = λ r l u. ground (arith, k.same r, k.fresh r, h.fresh r);
}

-- No entry is allocated, and no count is changed.
Keeps-store :
    (p q : Pool)
    → q.next_ref ≡ p.next_ref
    → ((r : Ref) → (q.store r).in_flight ≡ (p.store r).in_flight)
    → Keeps p q
Keeps-store p q e h = record {
  grows = omega (arith, e);
  same = λ r l. h r;
  fresh = λ r l u. absurd (omega (arith, e, l, u));
}

evict-Keeps : (key : PoolKey) (p : Pool) → Keeps p (evict key p)
unfolding evict cancel_health_of
evict-Keeps key p = elim (Option-cases (lookup PoolKey-discrete key p.entries)) [
  | inl e ↦ rw (e, evict) (Keeps-refl p)
  | inr (r, e) ↦ Keeps-store p (evict key p) (ground (arith, e)) (λ q. ground (arith, e))
]

create_entry-Keeps :
    (grants : ℕ → Bytes → Bool) (key : PoolKey) (p : Pool) → Keeps p (create_entry grants key p).0
unfolding create_entry write
create_entry-Keeps grants key p = elim (Bool-cases (grants p.calls (key_text key))) [
  | inl e ↦ record {
    grows = ground (arith, e);
    same = λ r h. ground (arith, e);
    fresh = λ r h k. ground (arith, e);
  }
  | inr e ↦ Keeps-store p (create_entry grants key p).0 (ground (arith, e)) (λ q. ground (arith, e))
]

remove-Keeps : (key : PoolKey) (p : Pool) → Keeps p (remove key p)
unfolding remove cancel_health_of write
remove-Keeps key p = elim (Option-cases (lookup PoolKey-discrete key p.entries)) [
  | inl e ↦ rw (e, remove) (Keeps-refl p)
  | inr (r, e) ↦ Keeps-store p (remove key p) (ground (arith, e)) (λ q. ground (arith, e))
]

drain_step-Keeps : (w : Wake) (r : Ref) (p : Pool) → Keeps p (drain_step w r p)
unfolding drain_step
drain_step-Keeps w r p = Keeps-store p (drain_step w r p) (ground arith) (λ q. ground arith)

update_conn_state-Keeps :
    (key : PoolKey) (state : ConnState) (p : Pool) → Keeps p (update_conn_state key state p)
unfolding update_conn_state write
update_conn_state-Keeps key state p = elim (Option-cases (lookup PoolKey-discrete key p.entries)) [
  | inl e ↦ rw (e, update_conn_state) (Keeps-refl p)
  | inr (r, e) ↦
      Keeps-store p (update_conn_state key state p) (ground (arith, e)) (λ q. ground (arith, e))
]

update_health-Keeps :
    (key : PoolKey) (state : HealthState) (p : Pool) → Keeps p (update_health key state p)
unfolding update_health write
update_health-Keeps key state p = elim (Option-cases (lookup PoolKey-discrete key p.entries)) [
  | inl e ↦ rw (e, update_health) (Keeps-refl p)
  | inr (r, e) ↦
      Keeps-store p (update_health key state p) (ground (arith, e)) (λ q. ground (arith, e))
]

Step-Keeps : {grants : ℕ → Bytes → Bool} {p q : Pool} → Step false grants p q → Keeps p q
unfolding write add
Step-Keeps {grants} {p} (adds ns svc ep) =
    Keeps-trans p _ _ (evict-Keeps _ p) (create_entry-Keeps grants _ _)
Step-Keeps {p = p} (removes key) = remove-Keeps key p
Step-Keeps {p = p} (drains w r) = drain_step-Keeps w r p
Step-Keeps {p = p} (connects key s) = update_conn_state-Keeps key s p
Step-Keeps {p = p} (probes key s) = update_health-Keeps key s p
Step-Keeps {p = p} (writes r e hk hd hs hn) = Keeps-store p _ refl (λ q. ground (arith, hn))
Step-Keeps {p = p} (counts r n on) = ground arith
Step-Keeps {p = p} (emits x n) = Keeps-store p _ refl (λ q. refl)

-- No handler of the balancer and no drain goroutine changes a count.
pub Reach-Keeps : {grants : ℕ → Bytes → Bool} {p q : Pool} → Reach false grants p q → Keeps p q
Reach-Keeps {p = p} here = Keeps-refl p
Reach-Keeps {p = p} (next h s) = Keeps-trans p _ _ (Reach-Keeps h) (Step-Keeps s)
