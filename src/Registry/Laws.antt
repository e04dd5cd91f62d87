-- ===== src/Registry/Laws.antt =====
-- What a registration changes, and what it does not.
use mathlib.Core.List.Perm
use go_kubegrpc.Base.{◌⊎◌, ◌≡◌, ◌≢◌, refl, List, none, arith, Option-cases, inl, inr}
use go_kubegrpc.Base.Maps.{lookup, insert, keys, MapOrder, lookup-insert}
use go_kubegrpc.Base.Result.{ok, err}
use go_kubegrpc.Text.{Bytes, Bytes-discrete}
use go_kubegrpc.Sort.{sort_texts, sort_texts-perm, IsSorted, sort_by-IsSorted}
use go_kubegrpc.Registry.{policy_exists, register_policy, lookup_policy, known_policies}

-- R5.7, R5.3: a policy can be registered exactly when its name is free, and then LookupPolicy finds
-- it by that name and the map has under any other name what it had before; a taken name is refused
-- with ErrPolicyExists.
register_policy-lookup :
    {F : Type 0} (order : MapOrder) (name other : Bytes) (factory : F) (registry : List (Bytes × F))
    → other ≢ name
    → ((lookup Bytes-discrete name registry ≢ none)
        × (register_policy name factory registry ≡ err (policy_exists name)))
      ⊎ ((after : List (Bytes × F)) × (register_policy name factory registry ≡ ok after)
          × (lookup_policy order name after ≡ ok factory)
          × (lookup Bytes-discrete other after ≡ lookup Bytes-discrete other registry))
unfolding register_policy lookup_policy
register_policy-lookup order name other factory registry h =
    elim (Option-cases (lookup Bytes-discrete name registry)) [
      | inl free ↦ inr (
        insert Bytes-discrete name factory registry,
        rw (free, register_policy) refl,
        ground (arith, lookup-insert Bytes-discrete name name factory registry),
        ground (arith, lookup-insert Bytes-discrete name other factory registry),
      )
      | inr (f, taken) ↦ inl (λ e. cc, rw (taken, register_policy) refl)
    ]

-- The names in an error are sorted and do not depend on the order in which the map is visited.
known_policies-IsSorted :
    {F : Type 0} (order : MapOrder) (registry : List (Bytes × F))
    → IsSorted (λ t. t) (known_policies order registry)
      × (known_policies order registry ≡ sort_texts (keys registry))
unfolding known_policies
known_policies-IsSorted {F} order registry = (
  sort_by-IsSorted (λ t. t) _,
  sort_texts-perm _ _ (Perm.map (λ e. e.0) (order.visit-perm (Bytes × F) 0 registry)),
)
