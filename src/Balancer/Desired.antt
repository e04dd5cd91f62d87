-- ===== src/Balancer/Desired.antt =====
-- Histories of the balancer of one target: every resolver update brings the target's configuration.
-- What the last update asks for is the abstract state that the pool follows.
use go_kubegrpc.Base.{
  ℕ, ◌≡◌, ◌≢◌, ◌↔◌, refl, ap, sym, subst, ◌∙◌, List, [], none, some, Bool, true, arith,
}
use go_kubegrpc.Base.Maps.{lookup, MapOrder}
use go_kubegrpc.Text.{Bytes}
use go_kubegrpc.Resolver.{Endpoints, Key, Key-discrete}
use go_kubegrpc.Pool.{PoolKey-discrete}
use go_kubegrpc.Pool.Invariant.{IsPool}
use go_kubegrpc.Pool.Lifecycle.{here, Reach-owned}
use go_kubegrpc.Picker.{Store}
use go_kubegrpc.Balancer.{
  BuildConfig, Balancer, Policies, new_balancer, pool_key, capped_desired, apply_config,
  update_client_conn_state,
}
use go_kubegrpc.Balancer.Snapshots.{IsEndpoints, InScope, capped_desired-IsEndpoints}
use go_kubegrpc.Balancer.Update.{
  update_pool, reconcile_pool_undesired, update_client_conn_state_members,
}
use go_kubegrpc.Balancer.Scope.{update_client_conn_state-InScope}
use go_kubegrpc.Balancer.Entries.{
  entries-drain_step, entries-update_sub_conn_state, entries-on_health,
}
use go_kubegrpc.Balancer.History.{
  BalancerStep, updates, changes, reports, wakes, picks, BalancerReach, start, step, history,
}

-- What a pool satisfies whose balancer is to serve the endpoints `m`: it holds no others.
pub record IsServing (cfg : BuildConfig) (m : Endpoints) (b : Balancer) : Type 0 where
  pub pool : IsPool b.pool
  pub shape : IsEndpoints m
  pub scope : InScope cfg b.pool
  pub no_others :
      (k : Key)
      → lookup Key-discrete k m ≡ none
      → lookup PoolKey-discrete (pool_key cfg k) b.pool.entries ≡ none

IsServing-entries :
    (cfg : BuildConfig) (m : Endpoints) (b c : Balancer)
    → c.pool.entries ≡ b.pool.entries
    → IsPool c.pool
    → IsServing cfg m b
    → IsServing cfg m c
IsServing-entries cfg m b c e i v = record {
  pool = i;
  shape = v.shape;
  scope = λ k r f. v.scope k r (ap (lookup PoolKey-discrete k) (sym e) ∙ f);
  no_others = λ k f. ap (lookup PoolKey-discrete (pool_key cfg k)) e ∙ v.no_others k f;
}

update-IsServing :
    (policies : Policies) (grants : ℕ → Bytes → Bool) (order : MapOrder) (cfg : BuildConfig)
    (addrs : List Bytes) (b : Balancer)
    → IsPool b.pool
    → InScope cfg b.pool
    → IsPool (update_client_conn_state policies grants order (some cfg) addrs b).pool
    → IsServing cfg
        (capped_desired order cfg.max_subconns addrs)
        (update_client_conn_state policies grants order (some cfg) addrs b)
unfolding apply_config
update-IsServing policies grants order cfg addrs b i s j =
    let shape = capped_desired-IsEndpoints order cfg.max_subconns addrs in
    record {
      pool = j;
      shape = shape;
      scope = update_client_conn_state-InScope policies grants order (some cfg) addrs b s;
      no_others = λ k f.
          ap (lookup PoolKey-discrete (pool_key cfg k))
            (update_pool policies grants order (some cfg) addrs b)
          ∙ reconcile_pool_undesired order cfg (capped_desired order cfg.max_subconns addrs) b.pool
              k grants shape i s f;
    }

-- The pool holds all that is desired.
abbrev HoldsAll : BuildConfig → Endpoints → Balancer → Type 0
HoldsAll cfg m b =
    (k : Key)
    → lookup Key-discrete k m ≢ none
    → lookup PoolKey-discrete (pool_key cfg k) b.pool.entries ≢ none

HoldsAll-entries :
    (cfg : BuildConfig) (m : Endpoints) (b c : Balancer)
    → c.pool.entries ≡ b.pool.entries
    → HoldsAll cfg m b
    → HoldsAll cfg m c
HoldsAll-entries cfg m b c same a k f e =
    a k f (sym (ap (lookup PoolKey-discrete (pool_key cfg k)) same) ∙ e)

module _ {policies : Policies} {grants : ℕ → Bytes → Bool} (cfg : BuildConfig) where
  -- An update brings the configuration of the target in its attributes.
  abbrev pub IsOfTarget : {b c : Balancer} → BalancerStep policies grants b c → Type 0
  IsOfTarget (updates order attributes addrs) = attributes ≡ some cfg
  IsOfTarget (changes order probe sc state) = Unit
  IsOfTarget (reports order r state) = Unit
  IsOfTarget (wakes w r) = Unit
  IsOfTarget (picks picker r n) = Unit

  abbrev pub AreOfTarget : {b c : Balancer} → BalancerReach policies grants b c → Type 0
  AreOfTarget start = Unit
  AreOfTarget (step h s) = AreOfTarget h × IsOfTarget s

  -- The endpoints that are desired after a step.
  abbrev pub desired_after :
      {b c : Balancer} → BalancerStep policies grants b c → Endpoints → Endpoints
  desired_after (updates order attributes addrs) before =
      capped_desired order cfg.max_subconns addrs
  desired_after (changes order probe sc state) before = before
  desired_after (reports order r state) before = before
  desired_after (wakes w r) before = before
  desired_after (picks picker r n) before = before

  -- What the last update of a history asks for.
  abbrev pub wanted : {b c : Balancer} → BalancerReach policies grants b c → Endpoints
  wanted start = []
  wanted (step h s) = desired_after s (wanted h)

  IsServing-step :
      {b c : Balancer} (s : BalancerStep policies grants b c) (m : Endpoints)
      → IsOfTarget s
      → IsPool c.pool
      → IsServing cfg m b
      → IsServing cfg (desired_after s m) c
  IsServing-step {b} {c} (updates order attributes addrs) m o i v =
      subst
        (λ a.
          IsPool (update_client_conn_state policies grants order a addrs b).pool
          → IsServing cfg (capped_desired order cfg.max_subconns addrs)
              (update_client_conn_state policies grants order a addrs b))
        (sym o) (update-IsServing policies grants order cfg addrs b v.pool v.scope) i
  IsServing-step {b} {c} (changes order probe sc state) m o i v =
      IsServing-entries cfg m b c (entries-update_sub_conn_state policies order probe sc state b) i
        v
  IsServing-step {b} {c} (reports order r state) m o i v =
      IsServing-entries cfg m b c (entries-on_health policies order r state b) i v
  IsServing-step {b} {c} (wakes w r) m o i v =
      IsServing-entries cfg m b c (entries-drain_step w r b.pool) i v
  IsServing-step {b} {c} (picks picker r n) m o i v = IsServing-entries cfg m b c refl i v

  HoldsAll-step :
      ((n : ℕ) (addr : Bytes) → grants n addr ≡ true)
      → {b c : Balancer} (s : BalancerStep policies grants b c) (m : Endpoints) → IsOfTarget s
      → IsServing cfg m b
      → HoldsAll cfg m b
      → HoldsAll cfg (desired_after s m) c
  unfolding apply_config
  HoldsAll-step g {b} {c} (updates order attributes addrs) m o v a =
      subst
        (λ at.
          HoldsAll cfg (capped_desired order cfg.max_subconns addrs)
            (update_client_conn_state policies grants order at addrs b))
        (sym o)
        (λ k.
          (update_client_conn_state_members policies grants order (some cfg) addrs b k g v.pool
            v.scope).1)
  HoldsAll-step g {b} {c} (changes order probe sc state) m o v a =
      HoldsAll-entries cfg m b c (entries-update_sub_conn_state policies order probe sc state b) a
  HoldsAll-step g {b} {c} (reports order r state) m o v a =
      HoldsAll-entries cfg m b c (entries-on_health policies order r state b) a
  HoldsAll-step g {b} {c} (wakes w r) m o v a =
      HoldsAll-entries cfg m b c (entries-drain_step w r b.pool) a
  HoldsAll-step g {b} {c} (picks picker r n) m o v a = HoldsAll-entries cfg m b c refl a

module _ (policies : Policies) (grants : ℕ → Bytes → Bool) (store : Store)
    (first cfg : BuildConfig) where
  new_balancer-IsServing : IsServing cfg [] (new_balancer store first)
  unfolding new_balancer lookup
  new_balancer-IsServing = record {
    pool = Reach-owned {counting = true} grants store (new_balancer store first).pool here;
    shape = (tt, tt);
    scope = λ k r f. ground arith;
    no_others = λ k f. refl;
  }

  pub history-IsServing :
      {b : Balancer} (h : BalancerReach policies grants (new_balancer store first) b)
      → AreOfTarget cfg h
      → IsServing cfg (wanted cfg h) b
  unfolding new_balancer
  history-IsServing start o = new_balancer-IsServing
  history-IsServing {b} (step h s) o =
      IsServing-step cfg s (wanted cfg h) o.1 (Reach-owned grants store b.pool (history (step h s)))
        (history-IsServing h o.0)

  history-HoldsAll :
      ((n : ℕ) (addr : Bytes) → grants n addr ≡ true)
      → {b : Balancer} (h : BalancerReach policies grants (new_balancer store first) b)
      → AreOfTarget cfg h
      → HoldsAll cfg (wanted cfg h) b
  unfolding lookup
  history-HoldsAll g start o = λ k f. absurd (f refl)
  history-HoldsAll g (step h s) o =
      HoldsAll-step cfg g s (wanted cfg h) o.1 (history-IsServing h o.0) (history-HoldsAll g h o.0)

  -- R4.1, R4.2: let every NewSubConn succeed and every resolver update of a history of a new balancer
  -- bring the target's configuration. Then after that history, whatever SubConn states, health
  -- reports, drain wake-ups and picks came in between, the pool holds exactly the endpoints that the
  -- last resolver update asks for under the cap.
  pub history_members :
      ((n : ℕ) (addr : Bytes) → grants n addr ≡ true)
      → {b : Balancer} (h : BalancerReach policies grants (new_balancer store first) b) (k : Key)
      → AreOfTarget cfg h
      → (lookup PoolKey-discrete (pool_key cfg k) b.pool.entries ≢ none)
        ↔ (lookup Key-discrete k (wanted cfg h) ≢ none)
  history_members g h k o =
      (λ p f. p ((history-IsServing h o).no_others k f), history-HoldsAll g h o k)
