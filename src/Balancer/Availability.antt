-- ===== src/Balancer/Availability.antt =====
-- Which entries can be picked where no health checks run, as in every balancer behind the resolver
-- adapter: those whose SubConn was reported ready and has not failed since.
use go_kubegrpc.Base.{
  ◌↔◌, ℕ, ◌≡◌, inl, inr, refl, sym, subst, none, some, Bool, false, arith, ◌==◌, if◌then◌else◌,
}
use go_kubegrpc.Base.Maps.{lookup}
use go_kubegrpc.Text.{Bytes}
use go_kubegrpc.Pool.{PoolKey, PoolKey-discrete, Ref, write}
use go_kubegrpc.Pool.Queries.{is_healthy, is_serving}
use go_kubegrpc.Picker.{Store}
use go_kubegrpc.Balancer.{
  serving, true, BuildConfig, Balancer, Policies, new_balancer, rebuild_picker, apply_config,
  update_client_conn_state,
}
use go_kubegrpc.Balancer.Changes.{update_sub_conn_state_entry}
use go_kubegrpc.Balancer.History.{
  BalancerStep, updates, changes, reports, wakes, picks, BalancerReach, start, step,
  BalancerReach-placed,
}
use go_kubegrpc.Balancer.Renewal.{update_client_conn_state-Renews}
use go_kubegrpc.Balancer.Verdicts.{
  judge, IsUnchecked, AreUnchecked, verdict, IsJudged, renewed-IsJudged, same-IsJudged,
  changed-IsJudged, absent-IsJudged, drain_step-IsJudged,
}

module _ (policies : Policies) (grants : ℕ → Bytes → Bool) (store : Store)
    (first : BuildConfig) where
  step-IsJudged :
      {b c : Balancer} (h : BalancerReach policies grants (new_balancer store first) b)
      (s : BalancerStep policies grants b c)
      → IsUnchecked s
      → IsJudged b (λ sc. verdict sc h)
      → IsJudged c (λ sc. verdict sc (step h s))
  unfolding update_client_conn_state rebuild_picker apply_config write
  step-IsJudged {b} h (updates order none addrs) u j =
      renewed-IsJudged b _ (λ sc. verdict sc h) j.off
        (update_client_conn_state-Renews policies grants order none addrs b
          (BalancerReach-placed policies grants store first b 0 h).0)
        j
  step-IsJudged {b} h (updates order (some cfg) addrs) u j =
      renewed-IsJudged b _ (λ sc. verdict sc h) u
        (update_client_conn_state-Renews policies grants order (some cfg) addrs b
          (BalancerReach-placed policies grants store first b 0 h).0)
        j
  step-IsJudged {b} h (changes order probe sc state) u j =
      let (i, placed, once) = BalancerReach-placed policies grants store first b sc h in
      elim (update_sub_conn_state_entry policies grants store first b order probe sc state h) [
        | inl (k, r, f, e, same) ↦
            subst
              (λ c. IsJudged c (λ s. if sc == s then judge state (verdict s h) else verdict s h))
              (sym same)
              (changed-IsJudged policies order b (λ s. verdict s h) k r sc probe state i
                (omega (arith, placed, once)) f e u j)
        | inr (gone, same) ↦
            subst
              (λ c. IsJudged c (λ s. if sc == s then judge state (verdict s h) else verdict s h))
              (sym same) (absent-IsJudged b (λ s. verdict s h) sc state gone u j)
      ]
  step-IsJudged h (reports order r state) u j = absurd u
  step-IsJudged {b} h (wakes w r) u j = drain_step-IsJudged w r b (λ sc. verdict sc h) j
  step-IsJudged {b} h (picks picker r n) u j =
      same-IsJudged b _ (λ sc. verdict sc h) refl refl refl (λ q. (ground arith, ground arith)) j

  history-IsJudged :
      {b : Balancer} (h : BalancerReach policies grants (new_balancer store first) b)
      → first.enable_health_check ≡ false
      → AreUnchecked h
      → IsJudged b (λ sc. verdict sc h)
  unfolding new_balancer lookup
  history-IsJudged start off u = record {
    off = off;
    known = λ k r f. ground arith;
    unborn = λ sc l. refl;
  }
  history-IsJudged (step h s) off u = step-IsJudged h s u.1 (history-IsJudged h off u.0)

-- Let no configuration of a history of a new balancer turn health checks on, no health
-- check report, and gRPC report the states of SubConns that it has returned. Then an entry of the
-- pool can be picked exactly where the last report of its SubConn that is neither Idle nor Connecting
-- is Ready; so one that was never ready, or has failed or been closed since, is not picked.
pub is_healthy-verdict :
    (policies : Policies) (grants : ℕ → Bytes → Bool) (store : Store) (first : BuildConfig)
    {b : Balancer} (h : BalancerReach policies grants (new_balancer store first) b) (k : PoolKey)
    (r : Ref)
    → first.enable_health_check ≡ false
    → AreUnchecked h
    → lookup PoolKey-discrete k b.pool.entries ≡ some r
    → (is_healthy (b.pool.store r) ≡ true) ↔ (verdict (b.pool.store r).sub_conn h ≡ serving)
unfolding is_healthy is_serving
is_healthy-verdict policies grants store first {b} h k r off u f =
    let j = history-IsJudged policies grants store first h off u in
    let i = (BalancerReach-placed policies grants store first b 0 h).0 in
    ground (arith, j.known k r f, i.owned k r f)
