-- ===== src/Health/Transitions.antt =====
-- internal/health/state.go: the transitions that Drain reports.
use go_kubegrpc.Base.{
  sym, inr, ap, inl, Bool-cases, ◌∙◌, ◌≡◌, ◌≢◌, refl, List, [], ◌∷◌, ◌++◌, true, false, arith, ◌==◌,
  map,
}
use go_kubegrpc.Health.{HealthState, health_unknown}
use go_kubegrpc.Health.Drain.{state, closed, done}
use go_kubegrpc.Health.Drain.{StateMachine, new_state_machine, Arrival, index, observe, drain}

-- The last state of a list, or one before it.
abbrev pub last_or : HealthState → List HealthState → HealthState
last_or s [] = s
last_or s (t ∷ ts) = last_or t ts

-- What stops Drain.
abbrev pub Stops : Arrival → Type 0
Stops (state s) = ⊥
Stops closed = Unit
Stops done = Unit

-- Each state differs from the one before it.
abbrev pub Alternates : HealthState → List HealthState → Type 0
Alternates s [] = Unit
Alternates s (t ∷ ts) = (t ≢ s) × Alternates t ts

-- A consumer given some states in their order.
abbrev pub consume {ℓ} : {A : Type ℓ} → (HealthState → A → A) → List HealthState → A → A
consume f [] a = a
consume f (s ∷ ss) a = consume f ss (f s a)

index_inj : (s t : HealthState) → (index s == index t) ≡ true → s ≡ t
index_inj s t h = ground arith

index_ne : (s t : HealthState) → (index s == index t) ≡ false → s ≢ t
index_ne s t h k = ground arith

current-observe : (s : HealthState) (sm : StateMachine) → (observe s sm).current ≡ s
unfolding observe
current-observe s sm = elim (Bool-cases (index s == index sm.current)) [
  | inl e ↦ rw e (sym (index_inj s sm.current e))
  | inr e ↦ rw e refl
]

consume-append {ℓ} :
    {A : Type ℓ} (f : HealthState → A → A) (ss ts : List HealthState) (a : A)
    → consume f (ss ++ ts) a ≡ consume f ts (consume f ss a)
consume-append f [] ts a = refl
consume-append f (s ∷ ss) ts a = consume-append f ss ts (f s a)

Alternates-snoc :
    (s t : HealthState) (ts : List HealthState)
    → Alternates s ts
    → t ≢ last_or s ts
    → Alternates s (ts ++ t ∷ [])
Alternates-snoc s t [] h k = (k, tt)
Alternates-snoc s t (u ∷ us) h k = (h.0, Alternates-snoc u t us h.1 k)

last_or-append : (s t : HealthState) (ts : List HealthState) → last_or s (ts ++ t ∷ []) ≡ t
last_or-append s t [] = refl
last_or-append s t (u ∷ us) = last_or-append u t us

-- What the state machine has reported is what it holds.
abbrev IsReported : StateMachine → Type 0
IsReported sm =
    Alternates health_unknown sm.transitions × (last_or health_unknown sm.transitions ≡ sm.current)

observe-IsReported :
    (s : HealthState) (sm : StateMachine) → IsReported sm → IsReported (observe s sm)
unfolding observe
observe-IsReported s sm h = elim (Bool-cases (index s == index sm.current)) [
  | inl e ↦ rw e h
  | inr e ↦ rw e (
    Alternates-snoc health_unknown s sm.transitions h.0 (λ k. index_ne s sm.current e (k ∙ h.1)),
    last_or-append health_unknown s sm.transitions,
  )
]

module _ {ℓ} {A : Type ℓ} (f : HealthState → A → A) (a : A)
    (again : (s : HealthState) (x : A) → f s (f s x) ≡ f s x) (start : f health_unknown a ≡ a) where
  -- What a consumer of the transitions has come to, and that the current state is no news to it.
  abbrev Follows : StateMachine → A → Type ℓ
  Follows sm x = (consume f sm.transitions a ≡ x) × (f sm.current x ≡ x)

  observe-Follows :
      (s : HealthState) (sm : StateMachine) (x : A) → Follows sm x → Follows (observe s sm) (f s x)
  unfolding observe
  observe-Follows s sm x h = elim (Bool-cases (index s == index sm.current)) [
    | inl e ↦
        let same = index_inj s sm.current e in
        let news = ap (λ t. f t x) same ∙ h.1 in
        rw e (h.0 ∙ sym news, ap (λ t. f t (f s x)) (sym same) ∙ again s x)
    | inr e ↦ rw e (consume-append f sm.transitions (s ∷ []) a ∙ ap (f s) h.0, again s x)
  ]

  drain-Follows :
      (ss : List HealthState) (stop : Arrival) (rest : List Arrival) (sm : StateMachine) (x : A)
      → Stops stop
      → Follows sm x
      → consume f (drain (map state ss ++ stop ∷ rest) sm).transitions a ≡ consume f ss x
  unfolding drain
  drain-Follows [] (state s) rest sm x h k = absurd h
  drain-Follows [] closed rest sm x h k = k.0
  drain-Follows [] done rest sm x h k = k.0
  drain-Follows (s ∷ ss) stop rest sm x h k =
      drain-Follows ss stop rest (observe s sm) (f s x) h (observe-Follows s sm x k)

drain-IsReported :
    (ss : List HealthState) (stop : Arrival) (rest : List Arrival) (sm : StateMachine)
    → Stops stop
    → IsReported sm
    → let after = drain (map state ss ++ stop ∷ rest) sm in
      IsReported after × (after.current ≡ last_or sm.current ss)
unfolding drain
drain-IsReported [] (state s) rest sm h i = absurd h
drain-IsReported [] closed rest sm h i = (i, refl)
drain-IsReported [] done rest sm h i = (i, refl)
drain-IsReported (s ∷ ss) stop rest sm h i =
    let (j, e) = drain-IsReported ss stop rest (observe s sm) h (observe-IsReported s sm i) in
    (j, e ∙ ap (λ t. last_or t ss) (current-observe s sm))

-- R6.4, R6.5: over any states up to the end of the channel or of the context, the transitions that
-- Drain reports differ each from the one before it, the first from Unknown; its current state is the
-- last that arrived; and a consumer on which a state said twice, and Unknown at the start, is no
-- news comes with the transitions alone to where all the states would bring it.
pub drain_refines {ℓ} :
    {A : Type ℓ} (f : HealthState → A → A) (a : A) (ss : List HealthState) (stop : Arrival)
    (rest : List Arrival)
    → ((s : HealthState) (x : A) → f s (f s x) ≡ f s x)
    → f health_unknown a ≡ a
    → Stops stop
    → let after = drain (map state ss ++ stop ∷ rest) new_state_machine in
      (consume f after.transitions a ≡ consume f ss a)
      × Alternates health_unknown after.transitions
      × (after.current ≡ last_or health_unknown ss)
unfolding new_state_machine
drain_refines f a ss stop rest again start h =
    let (i, e) = drain-IsReported ss stop rest new_state_machine h (tt, refl) in
    (drain-Follows f a again start ss stop rest new_state_machine a h (refl, start), i.0, e)

-- What Drain reports last.
pub drain-last :
    (ss : List HealthState) (stop : Arrival) (rest : List Arrival)
    → Stops stop
    → last_or health_unknown (drain (map state ss ++ stop ∷ rest) new_state_machine).transitions
      ≡ last_or health_unknown ss
unfolding new_state_machine
drain-last ss stop rest h =
    let (i, e) = drain-IsReported ss stop rest new_state_machine h (tt, refl) in i.1 ∙ e
