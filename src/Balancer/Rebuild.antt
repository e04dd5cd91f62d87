-- ===== src/Balancer/Rebuild.antt =====
-- rebuildPickerLocked: which entries the installed picker is over, and what gRPC is told.
use mathlib.Core.List.{Perm, filter_map}
use mathlib.Core.List.Perm
use go_kubegrpc.Base.{
  true, not, ◌&&◌, subst, ℕ, ◌≡◌, refl, ap, ◌∙◌, List, [], ◌∷◌, Bool, false, Option, some, none,
  arith, Bool-cases, inl, inr, length, ◌≢◌, ◌⊎◌, Option-cases, if◌then◌else◌,
}
use go_kubegrpc.Base.Maps.{MapOrder, lookup}
use go_kubegrpc.Text.{Bytes-discrete}
use go_kubegrpc.Registry.{lookup_policy}
use go_kubegrpc.Sort.{IsSorted, sort_by, sort_by-perm, sort_by-IsSorted}
use go_kubegrpc.Pool.{PoolKey, Ref, SubConnEntry, update_state, ready, transient_failure}
use go_kubegrpc.Pool.{HealthState, ConnState, serving, not_serving, unknown}
use go_kubegrpc.Pool.Queries.{is_serving, select, is_healthy, healthy_entries}
use go_kubegrpc.Picker.{address_of, new_rr_picker}
use go_kubegrpc.Balancer.{
  Picker, no_healthy, rr, Balancer, Policies, build_picker, sorted_healthy, rebuild_picker,
  connectivity_state_for_healthy,
}

-- The entry of a map, if it passes a test.
abbrev passing : (SubConnEntry → Bool) → (Ref → SubConnEntry) → PoolKey × Ref → Option Ref
passing test store e = if test (store e.1) then some e.1 else none

select-filter_map :
    (test : SubConnEntry → Bool) (store : Ref → SubConnEntry) (m : List (PoolKey × Ref))
    → select test store m ≡ filter_map (passing test store) m
unfolding select filter_map
select-filter_map test store [] = refl
select-filter_map test store ((k, r) ∷ m) = elim (Bool-cases (test (store r))) [
  | inl e ↦ rw e (ap (◌∷◌ r) (select-filter_map test store m))
  | inr e ↦ rw e (select-filter_map test store m)
]

-- The entries that pass a test, whatever order the loop visits the map in.
pub select-perm :
    (test : SubConnEntry → Bool) (store : Ref → SubConnEntry) (m n : List (PoolKey × Ref))
    → Perm m n
    → Perm (select test store m) (select test store n)
select-perm test store m n h =
    rw (select-filter_map test store m)
      (rw (select-filter_map test store n) (Perm.filter_map (passing test store) h))

-- The entry of a map, if it is live and serving.
abbrev pub serving_entry : (Ref → SubConnEntry) → PoolKey × Ref → Option Ref
serving_entry store e = elim (store e.1).draining [
  | true ↦ none
  | false ↦ elim (store e.1).health [ serving ↦ some e.1 | _ ↦ none ]
]

passing-serving_entry :
    (store : Ref → SubConnEntry) (e : PoolKey × Ref)
    → passing is_healthy store e ≡ serving_entry store e
unfolding is_healthy is_serving
passing-serving_entry store e = of_fields (store e.1).draining (store e.1).health
  where
    of_fields :
        (draining : Bool) (health : HealthState)
        → (if not draining && is_serving health then some e.1 else none)
          ≡ elim draining [ true ↦ none | false ↦ elim health [ serving ↦ some e.1 | _ ↦ none ] ]
    of_fields true health = refl
    of_fields false serving = refl
    of_fields false not_serving = refl
    of_fields false unknown = refl

select-serving_entry :
    (store : Ref → SubConnEntry) (m : List (PoolKey × Ref))
    → select is_healthy store m ≡ filter_map (serving_entry store) m
select-serving_entry store m =
    select-filter_map is_healthy store m
    ∙ ap (λ f. filter_map f m) (λ i e. passing-serving_entry store e i)

-- What gRPC is to be told about some healthy entries.
abbrev pub state_over : List Ref → ConnState
state_over [] = transient_failure
state_over (r ∷ rs) = ready

connectivity_state-state_over :
    (hs : List Ref) → connectivity_state_for_healthy (length hs) ≡ state_over hs
unfolding connectivity_state_for_healthy
connectivity_state-state_over [] = refl
connectivity_state-state_over (r ∷ rs) = ground arith

-- The picker that a balancer is to have over some entries: one that fails with the service's name
-- where there is none, else the registered policy's over all of them, else a round robin over all of
-- them from its start.
abbrev pub IsPickerOver : Policies → Balancer → List Ref → Picker → Type 0
IsPickerOver policies b hs picker =
    ((hs ≡ []) × (picker ≡ no_healthy b.cfg.service))
    ⊎ (((hs ≢ [])
          × ((factory : List Ref → Picker) × (lookup Bytes-discrete b.policy policies
                ≡ some factory)
              × (picker ≡ factory hs)))
        ⊎ ((hs ≢ [])
            × (lookup Bytes-discrete b.policy policies ≡ none)
            × (picker ≡ rr (record { healthy = hs; counter = 0 }))))

build_picker-IsPickerOver :
    (policies : Policies) (order : MapOrder) (b : Balancer) (hs : List Ref)
    → IsPickerOver policies b hs (build_picker policies order b hs)
unfolding build_picker new_rr_picker lookup_policy
build_picker-IsPickerOver policies order b [] = inl (refl, refl)
build_picker-IsPickerOver policies order b (r ∷ rs) =
    let full : r ∷ rs ≢ [] = λ e. ground (arith, e) in
    elim (Option-cases (lookup Bytes-discrete b.policy policies)) [
      | inl e ↦ inr (inr (full, e, rw (e, lookup_policy, build_picker) refl))
      | inr (factory, e) ↦ inr (inl (full, (factory, e, rw (e, lookup_policy, build_picker) refl)))
    ]

-- R5.6, R5.1: whatever order Go visits the map in, the installed picker is over the live and serving
-- entries of the pool, each as often as it stands in the map, in the order of their addresses: where
-- there is none it is the one that fails with the service's name, else that of the balancer's policy
-- over all of them, or a new round robin over all of them if the policy is not registered. gRPC is
-- told Ready if there is such an entry and TransientFailure if there is none; the rest of the pool is
-- unchanged.
pub rebuild_picker-healthy :
    (policies : Policies) (order : MapOrder) (loop : ℕ) (b : Balancer)
    → let after = rebuild_picker policies order loop b in
      (hs : List Ref) × Perm hs (filter_map (serving_entry b.pool.store) b.pool.entries)
      × IsSorted (address_of b.pool.store) hs
      × IsPickerOver policies b hs after.picker
      × (after.pool ≡ record b.pool { log = update_state (state_over hs) ∷ b.pool.log })
unfolding rebuild_picker sorted_healthy healthy_entries
rebuild_picker-healthy policies order loop b =
    let p = b.pool in
    let visited = order.visit (PoolKey × Ref) loop p.entries in
    let hs = sort_by (address_of p.store) (select is_healthy p.store visited) in
    let same = Perm.trans (sort_by-perm (address_of p.store) (select is_healthy p.store visited)) (
      select-perm is_healthy p.store visited p.entries
        (order.visit-perm (PoolKey × Ref) loop p.entries)) in
    (
      hs,
      subst (Perm hs) (select-serving_entry p.store p.entries) same,
      sort_by-IsSorted (address_of p.store) (select is_healthy p.store visited),
      build_picker-IsPickerOver policies order b hs,
      ap (λ s. record p { log = update_state s ∷ p.log }) (connectivity_state-state_over hs),
    )
