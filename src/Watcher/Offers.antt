-- ===== src/Watcher/Offers.antt =====
-- What the EndpointSlices of a service offer for a port of a target, without the functions that read
-- them: a port and its name, the conditions of an endpoint, and its addresses.
use go_kubegrpc.Base.{
  ℕ, ◌≡◌, ◌≢◌, ◌↔◌, refl, ap, sym, ◌∙◌, List, [], ◌∷◌, Option, none, some, true, false, ◌⊎◌, inl,
  inr, arith, Bool-cases, Option-cases,
}
use go_kubegrpc.Text.{Bytes, Bytes-discrete}
use go_kubegrpc.Watcher.{
  Port, EndpointPort, SliceEndpoint, EndpointSlice, has_name, matches, match_port, is_eligible,
}
use go_kubegrpc.Watcher.Laws.{has_address, is_offered, is_port, is_available}

-- A port of a slice has a number and is the target's: by its name where the target's port has one,
-- else by its number, which is not 0.
abbrev pub IsPortOf : Port → EndpointPort → ℕ → Type 0
IsPortOf target p n =
    (p.port ≡ some n)
    × (((target.name ≢ []) × (p.name ≡ some target.name))
        ⊎ ((target.name ≡ []) × (n ≢ 0) × (n ≡ target.number)))

-- The first of some ports that is the target's has the number.
abbrev pub IsFirstPort : Port → List EndpointPort → ℕ → Type 0
IsFirstPort target [] n = ⊥
IsFirstPort target (p ∷ ports) n =
    IsPortOf target p n ⊎ (((m : ℕ) → ¬ IsPortOf target p m) × IsFirstPort target ports n)

-- One of some endpoints has the address, and is neither unready nor terminating.
abbrev pub HasServing : Bytes → List SliceEndpoint → Type 0
HasServing addr [] = ⊥
HasServing addr (ep ∷ eps) =
    ((ep.ready ≢ some false)
      × (ep.terminating ≢ some true)
      × (has_address addr ep.addresses ≡ true))
    ⊎ HasServing addr eps

-- One of some slices offers the address at the port that it has for the target.
abbrev pub IsOffered : Bytes → ℕ → Port → List EndpointSlice → Type 0
IsOffered addr port target [] = ⊥
IsOffered addr port target (slice ∷ slices) =
    (IsFirstPort target slice.ports port × HasServing addr slice.endpoints)
    ⊎ IsOffered addr port target slices

has_name-some : (name : Bytes) (o : Option Bytes) → (has_name name o ≡ true) ↔ (o ≡ some name)
unfolding has_name
has_name-some name none = ground arith
has_name-some name (some n) = elim (Bytes-discrete n name) [
  | yes e ↦ ground (arith, e)
  | no ne ↦ ground (arith, ne)
]

matches-IsPortOf :
    (name : Bytes) (number : ℕ) (p : EndpointPort) (n m : ℕ)
    → p.port ≡ some n
    → let target : Port = record { name = name; number = number } in
      (IsPortOf target p m ↔ ((matches target p n ≡ true) × (n ≡ m)))
unfolding matches
matches-IsPortOf [] number p n m e = ground (arith, e)
matches-IsPortOf (c ∷ name) number p n m e = ground (arith, e, has_name-some (c ∷ name) p.name)

match_port-IsFirstPort :
    (target : Port) (ports : List EndpointPort) (n : ℕ)
    → (match_port ports target ≡ some n) ↔ IsFirstPort target ports n
unfolding match_port
match_port-IsFirstPort target [] n = ground arith
match_port-IsFirstPort target (p ∷ ports) n =
    let rest = match_port-IsFirstPort target ports n in
    elim (Option-cases p.port) [
      | inl e ↦ ground (arith, e, rest)
      | inr (m, e) ↦
          let mine : (k : ℕ) → IsPortOf target p k ↔ ((matches target p m ≡ true) × (m ≡ k)) =
            λ k. matches-IsPortOf target.name target.number p m k e in
          elim (Bool-cases (matches target p m)) [
            | inl f ↦
                let first : match_port (p ∷ ports) target ≡ some m = ground (arith, e, f) in
                (
                  λ h. inl ((mine n).1 (f, ground (arith, first, h))),
                  λ h. elim h [
                    | inl i ↦ first ∙ ap some ((mine n).0 i).1
                    | inr (other, i) ↦ absurd (other m ((mine m).1 (f, refl)))
                  ],
                )
            | inr f ↦
                let later : match_port (p ∷ ports) target ≡ match_port ports target =
                  ground (arith, e, f) in
                let other : (k : ℕ) → ¬ IsPortOf target p k =
                  λ k i. ground (arith, (mine k).0 i, f) in
                (
                  λ h. inr (other, rest.0 (sym later ∙ h)),
                  λ h. elim h [ inl i ↦ absurd (other n i) | inr (o, i) ↦ later ∙ rest.1 i ],
                )
          ]
    ]

is_offered-HasServing :
    (addr : Bytes) (eps : List SliceEndpoint) → (is_offered addr eps ≡ true) ↔ HasServing addr eps
unfolding is_offered is_eligible
is_offered-HasServing addr [] = ground arith
is_offered-HasServing addr (ep ∷ eps) = ground (arith, is_offered-HasServing addr eps)

pub is_available-IsOffered :
    (addr : Bytes) (port : ℕ) (target : Port) (slices : List EndpointSlice)
    → (is_available addr port target slices ≡ true) ↔ IsOffered addr port target slices
unfolding is_available is_port
is_available-IsOffered addr port target [] = ground arith
is_available-IsOffered addr port target (slice ∷ slices) = ground (
  arith,
  is_available-IsOffered addr port target slices,
  is_offered-HasServing addr slice.endpoints,
  match_port-IsFirstPort target slice.ports port,
)
