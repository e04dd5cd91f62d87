-- ===== src/Balancer/Traffic.antt =====
-- RPCs over the balancer: the picks of its pickers and the Done callbacks of least-request picks, in
-- any interleaving with the handlers and the drain goroutines.
use go_kubegrpc.Base.{
  ℕ, ◌+◌, ◌≤◌, ◌<◌, ◌≡◌, refl, ap, sym, subst, ◌∙◌, List, [], ◌∷◌, Bool, true, arith, length, inl,
  inr, Bool-cases, ltb→ge, if◌then◌else◌, ◌==◌, ltb, ℕ_discrete,
}
use go_kubegrpc.Base.Int.{pos, add_one, sub_one, max_int64}
use go_kubegrpc.Base.Count.{count}
use go_kubegrpc.Base.Result.{ok}
use go_kubegrpc.Text.{Bytes}
use go_kubegrpc.Pool.{
  Pool, Ref, tick, deadline, write, without, is_member, is_drained, drain_step, emit, shutdown,
}
use go_kubegrpc.Pool.Invariant.{is_member-without}
use go_kubegrpc.Pool.Lifecycle.{Reach, counts, here, Reach-owned}
use go_kubegrpc.Pool.InFlight.{Keeps, Reach-Keeps}
use go_kubegrpc.Picker.{Store, Tracker, RrPicker, rr_pick, lr_pick, lr_done}
use go_kubegrpc.Picker.LeastRequest.{counted, lr_pick-counted}
use go_kubegrpc.Balancer.{Balancer, BuildConfig, Policies, rr, new_balancer}
use go_kubegrpc.Balancer.Steps.{Reach-trans, once}
use go_kubegrpc.Balancer.History.{BalancerStep, IsHandler, handler-Reach}

-- A step of a balancer, with the entries of the RPCs that least-request pickers have placed and whose
-- Done callback has not run. A picker of whatever age picks among allocated entries, and no more
-- RPCs are in flight than an int64 counts; gRPC runs the callback of an RPC once.
pub data RpcStep (policies : Policies) (grants : ℕ → Bytes → Bool) (b : Balancer)
    (open_rpcs : List Ref) : Balancer → List Ref → Type 1 where
  handles :
      {c : Balancer} (s : BalancerStep policies grants b c)
      → IsHandler s
      → RpcStep policies grants b open_rpcs c open_rpcs
  round_robin :
      (tracker later : Tracker) (p q : RrPicker) (r : Ref)
      → b.picker ≡ rr p
      → rr_pick b.pool.store tracker p ≡ ok (r, q, later)
      → RpcStep policies grants b open_rpcs (record b { picker = rr q }) open_rpcs
  least_request :
      (tracker later : Tracker) (healthy : List Ref) (r : Ref) (store : Store)
      → ((q : Ref) → is_member q healthy ≡ true → q < b.pool.next_ref)
      → length open_rpcs < max_int64
      → lr_pick b.pool.store tracker healthy ≡ ok (r, store, later)
      → RpcStep policies grants b open_rpcs
          (record b { pool = record b.pool { store = store } })
          (r ∷ open_rpcs)
  done :
      (r : Ref)
      → is_member r open_rpcs ≡ true
      → RpcStep policies grants b open_rpcs
          (record b { pool = record b.pool { store = lr_done r b.pool.store } })
          (without r open_rpcs)

pub data RpcReach (policies : Policies) (grants : ℕ → Bytes → Bool) (b : Balancer)
    : Balancer → List Ref → Type 1 where
  idle : RpcReach policies grants b b []
  follows :
      {c d : Balancer} {open_rpcs rpcs : List Ref}
      → RpcReach policies grants b c open_rpcs
      → RpcStep policies grants c open_rpcs d rpcs
      → RpcReach policies grants b d rpcs

count-length : (r : Ref) (qs : List Ref) → count ℕ_discrete r qs ≤ length qs
unfolding count
count-length r [] = omega arith
count-length r (q ∷ qs) = ground (arith, count-length r qs)

count_absent : (r : Ref) (qs : List Ref) → ¬ (is_member r qs ≡ true) → count ℕ_discrete r qs ≡ 0
unfolding count is_member
count_absent r [] h = refl
count_absent r (q ∷ qs) h = ground (arith, h, count_absent r qs)

count-without :
    (r q : Ref) (qs : List Ref)
    → is_member r qs ≡ true
    → count ℕ_discrete q qs ≡ (if r == q then 1 else 0) + count ℕ_discrete q (without r qs)
unfolding count is_member without
count-without r q [] h = ground arith
count-without r q (s ∷ qs) h = ground (arith, count-without r q qs)

-- Each count is the number of the RPCs that are open at the entry.
pub record IsCounted (p : Pool) (open_rpcs : List Ref) : Type 0 where
  pub allocated : (r : Ref) → is_member r open_rpcs ≡ true → r < p.next_ref
  pub counted :
      (r : Ref) → r < p.next_ref → (p.store r).in_flight ≡ pos (count ℕ_discrete r open_rpcs)

Keeps-IsCounted :
    (p q : Pool) (open_rpcs : List Ref) → Keeps p q → IsCounted p open_rpcs → IsCounted q open_rpcs
Keeps-IsCounted p q open_rpcs h c = record {
  allocated = λ r m. omega (arith, c.allocated r m, h.grows);
  counted = λ r l. elim (Bool-cases (ltb r p.next_ref)) [
    | inl old ↦ h.same r (ground arith) ∙ c.counted r (ground arith)
    | inr new ↦
        h.fresh r (ground arith) l
        ∙ ap pos
            (sym (count_absent r open_rpcs (λ m. omega (arith, c.allocated r m, ltb→ge _ _ new))))
  ];
}

least_request-IsCounted :
    (p : Pool) (open_rpcs : List Ref) (r : Ref)
    → r < p.next_ref
    → length open_rpcs < max_int64
    → IsCounted p open_rpcs
    → IsCounted (record p { store = counted p.store r }) (r ∷ open_rpcs)
unfolding write add_one count is_member
least_request-IsCounted p open_rpcs r l few c = record {
  allocated = λ q m. ground (arith, c.allocated q, l);
  counted = λ q k. ground (arith, c.counted q k, c.counted r l, count-length r open_rpcs);
}

done-IsCounted :
    (p : Pool) (open_rpcs : List Ref) (r : Ref)
    → is_member r open_rpcs ≡ true
    → IsCounted p open_rpcs
    → IsCounted (record p { store = lr_done r p.store }) (without r open_rpcs)
unfolding write sub_one lr_done
done-IsCounted p open_rpcs r m c = record {
  allocated = λ q k. c.allocated q (is_member-without r q open_rpcs k);
  counted = λ q k.
      ground (arith, c.counted q k, c.counted r (c.allocated r m), count-without r q open_rpcs m);
}

module _ {policies : Policies} {grants : ℕ → Bytes → Bool} where
  RpcStep-Reach :
      {b c : Balancer} {open_rpcs rpcs : List Ref}
      → RpcStep policies grants b open_rpcs c rpcs
      → Reach true grants b.pool c.pool
  unfolding lr_done
  RpcStep-Reach (handles s h) = handler-Reach s h
  RpcStep-Reach (round_robin tracker later p q r installed picked) = here
  RpcStep-Reach {b} (least_request tracker later healthy r store old few picked) =
      subst (λ s. Reach true grants b.pool (record b.pool { store = s }))
        (sym (lr_pick-counted b.pool.store store tracker later healthy r picked).0)
        (once grants (counts r _ refl))
  RpcStep-Reach (done r m) = once grants (counts r _ refl)

  RpcStep-IsCounted :
      {b c : Balancer} {open_rpcs rpcs : List Ref}
      → RpcStep policies grants b open_rpcs c rpcs
      → IsCounted b.pool open_rpcs
      → IsCounted c.pool rpcs
  RpcStep-IsCounted {b} {c} {open_rpcs} (handles s h) i =
      Keeps-IsCounted b.pool c.pool open_rpcs (Reach-Keeps (handler-Reach s h)) i
  RpcStep-IsCounted (round_robin tracker later p q r installed picked) i = i
  RpcStep-IsCounted {b} {open_rpcs = open_rpcs}
        (least_request tracker later healthy r store old few picked) i =
      let (after, member) = lr_pick-counted b.pool.store store tracker later healthy r picked in
      subst (λ s. IsCounted (record b.pool { store = s }) (r ∷ open_rpcs)) (sym after)
        (least_request-IsCounted b.pool open_rpcs r (old r member) few i)
  RpcStep-IsCounted {b} {open_rpcs = open_rpcs} (done r m) i = done-IsCounted b.pool open_rpcs r m i

  RpcReach-Reach :
      {b c : Balancer} {rpcs : List Ref}
      → RpcReach policies grants b c rpcs
      → Reach true grants b.pool c.pool
  RpcReach-Reach idle = here
  RpcReach-Reach (follows h s) = Reach-trans (RpcReach-Reach h) (RpcStep-Reach s)

  RpcReach-IsCounted :
      {b c : Balancer} {rpcs : List Ref}
      → RpcReach policies grants b c rpcs
      → IsCounted b.pool []
      → IsCounted c.pool rpcs
  RpcReach-IsCounted idle i = i
  RpcReach-IsCounted (follows h s) i = RpcStep-IsCounted s (RpcReach-IsCounted h i)

new_balancer-IsCounted :
    (store : Store) (first : BuildConfig) → IsCounted (new_balancer store first).pool []
unfolding new_balancer is_member
new_balancer-IsCounted store first = record {
  allocated = λ r m. ground arith;
  counted = λ r l. absurd (omega (arith, l));
}

-- The SubConn of a draining entry is shut down, and its goroutine ends.
abbrev pub drained : Ref → Pool → Pool
drained r p = emit (shutdown (p.store r).sub_conn) (record p { drains = without r p.drains })

-- R4.2, R5.5: after any history of a new balancer with its picks and Done callbacks, an allocated
-- entry has as its in-flight count the number of the RPCs that least-request pickers placed on it and
-- that are not done. So a drain goroutine that wakes at its ticker shuts its SubConn down exactly
-- where there is no such RPC, whatever round-robin pickers placed on it, and goes on waiting else; at
-- the deadline it shuts it down in any case.
pub drain_step_open :
    (policies : Policies) (grants : ℕ → Bytes → Bool) (store : Store) (first : BuildConfig)
    (b : Balancer) (open_rpcs : List Ref) (r : Ref)
    → RpcReach policies grants (new_balancer store first) b open_rpcs
    → is_member r b.pool.drains ≡ true
    → ((b.pool.store r).in_flight ≡ pos (count ℕ_discrete r open_rpcs))
      × (drain_step tick r b.pool
          ≡ (if count ℕ_discrete r open_rpcs == 0 then drained r b.pool else b.pool))
      × (drain_step deadline r b.pool ≡ drained r b.pool)
unfolding drain_step new_balancer is_drained
drain_step_open policies grants store first b open_rpcs r h m =
    let i = Reach-owned grants store b.pool (RpcReach-Reach h) in
    let c = RpcReach-IsCounted h (new_balancer-IsCounted store first) in
    let n = c.counted r (i.waiting r m).0 in (n, ground (arith, n, m), rw m refl)
