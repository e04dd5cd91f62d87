-- ===== src/Adapter/Emissions.antt =====
-- What the state machine of the grace window emits in a step, given to the balancer, in any
-- interleaving with what else happens to the balancer.
use go_kubegrpc.Base.{
  Bool-cases, inr, inl, ◌⊎◌, length, ℕ, ◌≡◌, refl, ◌∙◌, List, [], ◌∷◌, Bool, false, arith,
  if◌then◌else◌, ltb, Bool-cases, inl, inr, length, ◌⊎◌,
}
use go_kubegrpc.Base.Int.{ℤ}
use go_kubegrpc.Base.Maps.{MapOrder}
use go_kubegrpc.Text.{Bytes}
use go_kubegrpc.Resolver.{Endpoint, Snapshot}
use go_kubegrpc.GraceWindow.Laws.{
  Input, last_known_snapshot, received, due, run, is_long, outage, run-emitted, state-cases,
}
use go_kubegrpc.Target.{Target}
use go_kubegrpc.Config.{Config}
use go_kubegrpc.Retry.{Float64}
use go_kubegrpc.Picker.{Store}
use go_kubegrpc.Balancer.{Balancer, BuildConfig, Policies, new_balancer}
use go_kubegrpc.Balancer.History.{BalancerStep, updates, changes, reports, wakes, picks}
use go_kubegrpc.Adapter.{build_config, deliver}

-- What happens to a balancer but resolver updates.
abbrev pub IsOther :
    {policies : Policies} {grants : ℕ → Bytes → Bool} {b c : Balancer}
    → BalancerStep policies grants b c
    → Type 0
IsOther (updates order attributes addrs) = ⊥
IsOther (changes order probe sc state) = Unit
IsOther (reports order r state) = Unit
IsOther (wakes w r) = Unit
IsOther (picks picker r n) = Unit

-- The callback of the state machine gives what is emitted in a step to the balancer.
unfoldable pub pass_on :
    Policies
    → (ℕ → Bytes → Bool)
    → MapOrder
    → BuildConfig
    → List Snapshot
    → List Snapshot
    → Balancer
    → Balancer
unfolding deliver
pass_on policies grants order cfg before [] b = b
pass_on policies grants order cfg before (snap ∷ after) b =
    if ltb (length before) (length (snap ∷ after))
    then deliver policies grants order cfg snap b
    else b

module _ (policies : Policies) (grants : ℕ → Bytes → Bool) (t : Target) {float : Float64}
    (cfg : Config float) (grace : ℤ) (store : Store) (first : BuildConfig) where
  -- The inputs of the state machine, newest first, and the balancer behind them.
  pub data PipelineReach : List Input → Balancer → Type 1 where
    begins : PipelineReach [] (new_balancer store first)
    inputs :
        {is : List Input} {b : Balancer} (i : Input) (order : MapOrder)
        → PipelineReach is b
        → PipelineReach (i ∷ is) (
            pass_on policies grants order
              (build_config t cfg)
              (run grace is).emitted
              (run grace (i ∷ is)).emitted
              b)
    acts :
        {is : List Input} {b c : Balancer} (s : BalancerStep policies grants b c)
        → IsOther s
        → PipelineReach is b
        → PipelineReach is c

-- The endpoints of the snapshot that was emitted last.
abbrev pub shown : List Snapshot → List Endpoint
shown [] = []
shown (snap ∷ snaps) = snap.endpoints

-- An input emits one snapshot or none.
pub emitted-cases :
    (grace : ℤ) (i : Input) (is : List Input)
    → ((snap : Snapshot) × ((run grace (i ∷ is)).emitted ≡ snap ∷ (run grace is).emitted))
      ⊎ ((run grace (i ∷ is)).emitted ≡ (run grace is).emitted)
emitted-cases grace (received now snap) is = elim (state-cases snap.state) [
  | inl e ↦ inl (snap, run-emitted grace (received now snap) is ∙ ground (arith, e))
  | inr (inl e) ↦ elim (Bool-cases (is_long grace now (outage (received now snap ∷ is)))) [
    | inl f ↦ inl (
      last_known_snapshot is snap.failed,
      run-emitted grace (received now snap) is ∙ rw (e, f) refl,
    )
    | inr f ↦ inl (snap, run-emitted grace (received now snap) is ∙ ground (arith, e, f))
  ]
  | inr (inr e) ↦ inl (snap, run-emitted grace (received now snap) is ∙ ground (arith, e))
]
emitted-cases grace (due now) is = elim (state-cases (run grace is).state) [
  | inl e ↦ inr (run-emitted grace (due now) is ∙ rw e refl)
  | inr (inl e) ↦ elim (Bool-cases (is_long grace now (outage is))) [
    | inl f ↦ inl (last_known_snapshot is false, run-emitted grace (due now) is ∙ rw (e, f) refl)
    | inr f ↦ inr (run-emitted grace (due now) is ∙ rw (e, f) refl)
  ]
  | inr (inr e) ↦ inr (run-emitted grace (due now) is ∙ rw e refl)
]

pub pass_on_same :
    (policies : Policies) (grants : ℕ → Bytes → Bool) (order : MapOrder) (cfg : BuildConfig)
    (snaps : List Snapshot) (b : Balancer)
    → pass_on policies grants order cfg snaps snaps b ≡ b
unfolding pass_on
pass_on_same policies grants order cfg [] b = refl
pass_on_same policies grants order cfg (snap ∷ snaps) b = ground arith

pub pass_on_new :
    (policies : Policies) (grants : ℕ → Bytes → Bool) (order : MapOrder) (cfg : BuildConfig)
    (snap : Snapshot) (snaps : List Snapshot) (b : Balancer)
    → pass_on policies grants order cfg snaps (snap ∷ snaps) b
      ≡ deliver policies grants order cfg snap b
unfolding pass_on
pass_on_new policies grants order cfg snap snaps b = ground arith
