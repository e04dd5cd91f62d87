-- ===== src/Adapter/Outages.antt =====
-- The k8s pipeline over histories: which endpoints the pool holds behind the grace window.
use go_kubegrpc.Base.{
  inr, inl, ℕ, ◌≤◌, ◌≡◌, ◌≢◌, ◌↔◌, refl, ap, sym, subst, ◌∙◌, List, [], ◌∷◌, none, some, Bool, true,
  false, All, arith, map, if◌then◌else◌, ltb, Option-cases, inl, inr,
}
use go_kubegrpc.Base.Int.{ℤ, pos}
use go_kubegrpc.Base.Maps.{lookup, MapOrder}
use go_kubegrpc.Base.Count.{count, absent}
use go_kubegrpc.Text.{Bytes}
use go_kubegrpc.Resolver.{Endpoint, Snapshot, Key, Key-discrete, key_of, disconnected}
use go_kubegrpc.GraceWindow.{new_state_machine}
use go_kubegrpc.GraceWindow.Laws.{Input, received, run, is_long, outage, run-emitted}
use go_kubegrpc.Target.{Target}
use go_kubegrpc.Config.{Config}
use go_kubegrpc.Retry.{Float64}
use go_kubegrpc.Picker.{Store}
use go_kubegrpc.Pool.{PoolKey-discrete}
use go_kubegrpc.Balancer.{Balancer, BuildConfig, Policies, new_balancer, pool_key}
use go_kubegrpc.Balancer.History.{
  BalancerStep, updates, changes, reports, wakes, picks, BalancerReach, start, step,
}
use go_kubegrpc.Balancer.Desired.{AreOfTarget, wanted, history_members}
use go_kubegrpc.Adapter.{build_config, deliver, addresses}
use go_kubegrpc.Adapter.Members.{IsReadable, lookup-capped_desired}
use go_kubegrpc.Adapter.Emissions.{
  IsOther, pass_on, shown, emitted-cases, pass_on_same, pass_on_new, PipelineReach, begins, inputs,
  acts,
}

module _ (policies : Policies) (grants : ℕ → Bytes → Bool) (t : Target) {float : Float64}
    (cfg : Config float) (store : Store) (first : BuildConfig)
    (uncapped : cfg.max_subconnections ≡ pos 0) where
  -- What is desired after a history is what the endpoints name, where these are readable.
  abbrev Asks :
      {b : Balancer}
      → List Endpoint
      → BalancerReach policies grants (new_balancer store first) b
      → Type 0
  Asks es h =
      AreOfTarget (build_config t cfg) h
      × (All IsReadable es
          → (k : Key)
          → absent (lookup Key-discrete k (wanted (build_config t cfg) h))
            ≡ (if ltb 0 (count Key-discrete k (map key_of es)) then 0 else 1))

  deliver-Asks :
      (order : MapOrder) (snap : Snapshot) {b : Balancer} (es : List Endpoint)
      (h : BalancerReach policies grants (new_balancer store first) b)
      → Asks es h
      → (j : BalancerReach policies grants
          (new_balancer store first)
          (deliver policies grants order (build_config t cfg) snap b))
        × Asks snap.endpoints j
  unfolding deliver build_config
  deliver-Asks order snap es h a = (
    step h (updates order (some (build_config t cfg)) (addresses snap.endpoints)),
    (
      (a.0, refl),
      λ readable k. rw uncapped (lookup-capped_desired order snap.endpoints k readable),
    ),
  )

  acts-Asks :
      {b c : Balancer} (s : BalancerStep policies grants b c) (es : List Endpoint)
      (h : BalancerReach policies grants (new_balancer store first) b)
      → IsOther s
      → Asks es h
      → Asks es (step h s)
  acts-Asks (updates order attributes addrs) es h o a = absurd o
  acts-Asks (changes order probe sc state) es h o a = ((a.0, tt), a.1)
  acts-Asks (reports order r state) es h o a = ((a.0, tt), a.1)
  acts-Asks (wakes w r) es h o a = ((a.0, tt), a.1)
  acts-Asks (picks picker r n) es h o a = ((a.0, tt), a.1)

  module _ (grace : ℤ) where
    PipelineReach-Asks :
        {is : List Input} {b : Balancer}
        → PipelineReach policies grants t cfg grace store first is b
        → (h : BalancerReach policies grants (new_balancer store first) b) × Asks
            (shown (run grace is).emitted)
            h
    unfolding run new_state_machine lookup count
    PipelineReach-Asks begins = (start, (tt, λ readable k. refl))
    PipelineReach-Asks (acts s o p) =
        let (h, a) = PipelineReach-Asks p in (step h s, acts-Asks s _ h o a)
    PipelineReach-Asks (inputs {is} {b} i order p) =
        let (h, a) = PipelineReach-Asks p in
        let before = (run grace is).emitted in
        elim (emitted-cases grace i is) [
          | inl (snap, e) ↦
              subst
                (λ l.
                  (j : BalancerReach policies grants (new_balancer store first)
                    (pass_on policies grants order (build_config t cfg) before l b))
                  × Asks (shown l) j)
                (sym e)
                (subst
                  (λ c.
                    (j : BalancerReach policies grants (new_balancer store first) c) × Asks
                      snap.endpoints j)
                  (sym (pass_on_new policies grants order (build_config t cfg) snap before b))
                  (deliver-Asks order snap _ h a))
          | inr e ↦
              subst
                (λ l.
                  (j : BalancerReach policies grants (new_balancer store first)
                    (pass_on policies grants order (build_config t cfg) before l b))
                  × Asks (shown l) j)
                (sym e)
                (subst
                  (λ c.
                    (j : BalancerReach policies grants (new_balancer store first) c) × Asks
                      (shown before) j)
                  (sym (pass_on_same policies grants order (build_config t cfg) before b)) (h, a))
        ]

-- R4.1, R8.5: let every NewSubConn succeed, the limit on SubConns be 0, and the snapshots of a watcher
-- and the deferred checks reach the state machine in any order, whose callback gives what it emits to
-- the balancer, while SubConn states, health reports, drain wake-ups and picks come in between. Then
-- the pool holds exactly the endpoints of the snapshot emitted last, by address and port, if these
-- can be read back; and none before the first one.
pub pipeline_members :
    (policies : Policies) (grants : ℕ → Bytes → Bool) (t : Target) {float : Float64}
    (cfg : Config float) (grace : ℤ) (store : Store) (first : BuildConfig) (is : List Input)
    (b : Balancer) (k : Key)
    → ((n : ℕ) (addr : Bytes) → grants n addr ≡ true)
    → cfg.max_subconnections ≡ pos 0
    → All IsReadable (shown (run grace is).emitted)
    → PipelineReach policies grants t cfg grace store first is b
    → (lookup PoolKey-discrete (pool_key (build_config t cfg) k) b.pool.entries ≢ none)
      ↔ (1 ≤ count Key-discrete k (map key_of (shown (run grace is).emitted)))
unfolding lookup
pipeline_members policies grants t cfg grace store first is b k g uncapped readable p =
    let (h, a) = PipelineReach-Asks policies grants t cfg store first uncapped grace p in
    let members = history_members policies grants store first (build_config t cfg) g h k a.0 in
    let asked = a.1 readable k in ground (arith, members, asked)

-- R8.5: let every NewSubConn succeed, the limit on SubConns be 0, and the last input of the pipeline
-- be a Disconnected snapshot without endpoints at which its outage is shorter than the grace window.
-- Then the pool holds no endpoint behind it, whatever the last-known endpoints are.
pub disconnected_empties :
    (policies : Policies) (grants : ℕ → Bytes → Bool) (t : Target) {float : Float64}
    (cfg : Config float) (grace : ℤ) (store : Store) (first : BuildConfig) (now : ℕ)
    (snap : Snapshot) (is : List Input) (b : Balancer) (k : Key)
    → ((n : ℕ) (addr : Bytes) → grants n addr ≡ true)
    → cfg.max_subconnections ≡ pos 0
    → snap.state ≡ disconnected
    → snap.endpoints ≡ []
    → is_long grace now (outage (received now snap ∷ is)) ≡ false
    → PipelineReach policies grants t cfg grace store first (received now snap ∷ is) b
    → lookup PoolKey-discrete (pool_key (build_config t cfg) k) b.pool.entries ≡ none
disconnected_empties policies grants t cfg grace store first now snap is b k g uncapped down empty
      short p =
    let shows : shown (run grace (received now snap ∷ is)).emitted ≡ [] =
      ap shown (run-emitted grace (received now snap) is) ∙ ground (arith, down, short, empty) in
    let members =
      pipeline_members policies grants t cfg grace store first (received now snap ∷ is) b k g
        uncapped (subst (All IsReadable) (sym shows) tt) p in
    let none_shown : count Key-discrete k
          (map key_of (shown (run grace (received now snap ∷ is)).emitted))
        ≡ 0 =
      ap (λ l. count Key-discrete k (map key_of l)) shows ∙ (unfold count in refl) in
    elim (Option-cases (lookup PoolKey-discrete (pool_key (build_config t cfg) k) b.pool.entries)) [
      | inl e ↦ e
      | inr (r, e) ↦ absurd (omega (arith, none_shown, members.0 (λ f. ground (arith, e, f))))
    ]
