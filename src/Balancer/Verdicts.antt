-- ===== src/Balancer/Verdicts.antt =====
-- What the reports of SubConns say of their health where no health checks run, and the entries that
-- have it.
use go_kubegrpc.Base.{
  ℕ, ◌≤◌, ◌<◌, ◌≡◌, inl, inr, refl, ap, sym, ◌∙◌, Option, none, some, Bool, true, false, arith,
  ◌==◌, if◌then◌else◌, ℕ_discrete,
}
use go_kubegrpc.Base.Maps.{lookup, MapOrder}
use go_kubegrpc.Text.{Bytes}
use go_kubegrpc.Pool.{
  PoolKey, PoolKey-discrete, Ref, SubConnEntry, HealthState, unknown, serving, not_serving,
  ConnState, write, drain_step, Wake,
}
use go_kubegrpc.Pool.Invariant.{IsPool}
use go_kubegrpc.Pool.Counts.{in_map}
use go_kubegrpc.Pool.Renewal.{Renews}
use go_kubegrpc.Balancer.{BuildConfig, Balancer, Policies, rebuild_picker}
use go_kubegrpc.Balancer.SubConns.{Probe}
use go_kubegrpc.Balancer.Find.{sub_conn_unique, in_map-lookup}
use go_kubegrpc.Balancer.Effects.{entry_after, effects_of, written}
use go_kubegrpc.Balancer.History.{
  BalancerStep, updates, changes, reports, wakes, picks, BalancerReach, start, step,
}

-- What a report of a SubConn says of its health, where no check runs.
unfoldable pub judge : ConnState → HealthState → HealthState
judge ConnState.ready before = serving
judge ConnState.transient_failure before = not_serving
judge ConnState.shut_down before = not_serving
judge ConnState.idle before = before
judge ConnState.connecting before = before

abbrev IsOff : Option BuildConfig → Type 0
IsOff none = Unit
IsOff (some cfg) = cfg.enable_health_check ≡ false

module _ {policies : Policies} {grants : ℕ → Bytes → Bool} where
  -- No configuration turns health checks on, none reports, and gRPC reports the states of SubConns
  -- that it has returned.
  abbrev pub IsUnchecked : {b c : Balancer} → BalancerStep policies grants b c → Type 0
  IsUnchecked (updates order attributes addrs) = IsOff attributes
  IsUnchecked {b} (changes order probe sc state) = sc < b.pool.calls
  IsUnchecked (reports order r state) = ⊥
  IsUnchecked (wakes w r) = Unit
  IsUnchecked (picks picker r n) = Unit

  abbrev pub AreUnchecked : {b c : Balancer} → BalancerReach policies grants b c → Type 0
  AreUnchecked start = Unit
  AreUnchecked (step h s) = AreUnchecked h × IsUnchecked s

  abbrev pub verdict_after :
      {b c : Balancer} → ℕ → BalancerStep policies grants b c → HealthState → HealthState
  verdict_after sc (updates order attributes addrs) before = before
  verdict_after sc (changes order probe other state) before =
      if other == sc then judge state before else before
  verdict_after sc (reports order r state) before = before
  verdict_after sc (wakes w r) before = before
  verdict_after sc (picks picker r n) before = before

  -- The verdict on a SubConn after its reports in a history.
  abbrev pub verdict : {b c : Balancer} → ℕ → BalancerReach policies grants b c → HealthState
  verdict sc start = unknown
  verdict sc (step h s) = verdict_after sc s (verdict sc h)

-- The health of the entries is the verdict on their SubConns.
pub record IsJudged (b : Balancer) (v : ℕ → HealthState) : Type 0 where
  pub off : b.cfg.enable_health_check ≡ false
  pub known :
      (k : PoolKey) (r : Ref)
      → lookup PoolKey-discrete k b.pool.entries ≡ some r
      → (b.pool.store r).health ≡ v (b.pool.store r).sub_conn
  pub unborn : (sc : ℕ) → b.pool.calls ≤ sc → v sc ≡ unknown

pub renewed-IsJudged :
    (b c : Balancer) (v : ℕ → HealthState)
    → c.cfg.enable_health_check ≡ false
    → Renews b.pool c.pool
    → IsJudged b v
    → IsJudged c v
renewed-IsJudged b c v off h j = record {
  off = off;
  known = λ k r e. elim (h.entry k r e) [
    | inl (f, u, s) ↦ u ∙ j.known k r f ∙ ap v (sym s)
    | inr (u, new) ↦ u ∙ sym (j.unborn (c.pool.store r).sub_conn new)
  ];
  unborn = λ sc l. j.unborn sc (omega (arith, l, h.later));
}

-- Steps that write neither health nor SubConns.
pub same-IsJudged :
    (b c : Balancer) (v : ℕ → HealthState)
    → c.cfg.enable_health_check ≡ b.cfg.enable_health_check
    → c.pool.entries ≡ b.pool.entries
    → c.pool.calls ≡ b.pool.calls
    → ((r : Ref)
        → ((c.pool.store r).health ≡ (b.pool.store r).health)
          × ((c.pool.store r).sub_conn ≡ (b.pool.store r).sub_conn))
    → IsJudged b v
    → IsJudged c v
same-IsJudged b c v o e n s j = record {
  off = o ∙ j.off;
  known = λ k r f.
      (s r).0 ∙ j.known k r (ap (lookup PoolKey-discrete k) (sym e) ∙ f) ∙ ap v (sym (s r).1);
  unborn = λ sc l. j.unborn sc (omega (arith, l, n));
}

entry_after-judge :
    (check : Bool) (probe : Probe) (state : ConnState) (e : SubConnEntry)
    → check ≡ false
    → ((entry_after check probe state e).health ≡ judge state e.health)
      × ((entry_after check probe state e).sub_conn ≡ e.sub_conn)
unfolding judge
entry_after-judge true probe state e off = ground arith
entry_after-judge false probe ConnState.ready e off = (refl, refl)
entry_after-judge false probe ConnState.transient_failure e off = (refl, refl)
entry_after-judge false probe ConnState.shut_down e off = (refl, refl)
entry_after-judge false probe ConnState.idle e off = (refl, refl)
entry_after-judge false probe ConnState.connecting e off = (refl, refl)

-- A report on an entry's SubConn.
pub changed-IsJudged :
    (policies : Policies) (order : MapOrder) (b : Balancer) (v : ℕ → HealthState) (k : PoolKey)
    (r : Ref) (sc : ℕ) (probe : Probe) (state : ConnState)
    → IsPool b.pool
    → in_map sc b.pool.store b.pool.entries ≤ 1
    → lookup PoolKey-discrete k b.pool.entries ≡ some r
    → (b.pool.store r).sub_conn ≡ sc
    → sc < b.pool.calls
    → IsJudged b v
    → let check = b.cfg.enable_health_check in
      IsJudged
        (rebuild_picker policies order 2 (record b {
          pool =
              written r
                (entry_after check probe state (b.pool.store r))
                (effects_of check probe state r (b.pool.store r))
                b.pool;
        }))
        (λ s. if sc == s then judge state (v s) else v s)
unfolding rebuild_picker write
changed-IsJudged policies order b v k r sc probe state i once h e born j =
    let check = b.cfg.enable_health_check in
    let after = entry_after-judge check probe state (b.pool.store r) j.off in
    record {
      off = j.off;
      known = λ l q f. elim (ℕ_discrete q r) [
        | yes same ↦ ground (arith, same, after, e, j.known k r h)
        | no ne ↦ elim (ℕ_discrete (b.pool.store q).sub_conn sc) [
          | yes twice ↦
              let same =
                sub_conn_unique sc b.pool.store b.pool.entries l k q r i.distinct once h f e
                  twice in
              ground (arith, ne, h, f, same)
          | no other ↦ ground (arith, ne, other, j.known l q f)
        ]
      ];
      unborn = λ s l. ground (arith, born, l, j.unborn s l);
    }

-- A report on a SubConn that no entry has.
pub absent-IsJudged :
    (b : Balancer) (v : ℕ → HealthState) (sc : ℕ) (state : ConnState)
    → in_map sc b.pool.store b.pool.entries ≡ 0
    → sc < b.pool.calls
    → IsJudged b v
    → IsJudged b (λ s. if sc == s then judge state (v s) else v s)
absent-IsJudged b v sc state gone born j = record {
  off = j.off;
  known = λ k r f. elim (ℕ_discrete (b.pool.store r).sub_conn sc) [
    | yes e ↦ absurd (omega (arith, gone, in_map-lookup sc b.pool.store k r b.pool.entries f e))
    | no ne ↦ ground (arith, ne, j.known k r f)
  ];
  unborn = λ s l. ground (arith, born, l, j.unborn s l);
}

pub drain_step-IsJudged :
    (w : Wake) (r : Ref) (b : Balancer) (v : ℕ → HealthState)
    → IsJudged b v
    → IsJudged (record b { pool = drain_step w r b.pool }) v
unfolding drain_step
drain_step-IsJudged w r b v j =
    same-IsJudged b (record b { pool = drain_step w r b.pool }) v refl (ground arith) (ground arith)
      (λ q. (ground arith, ground arith)) j
