-- ===== src/Registry.antt =====
-- internal/balancer/registry.go: the policies by name. The map behind the lock is the state; `F` is
-- the type of picker factories. KnownPolicies is the sorted list of the names.
pub mod Laws
use go_kubegrpc.Base.{◌≡◌, refl, List, [], ◌∷◌, Option, none, some, map}
use go_kubegrpc.Base.Maps.{lookup, insert, keys, MapOrder}
use go_kubegrpc.Base.Result.{Result, ok, err}
use go_kubegrpc.Text.{Bytes, codes, Bytes-discrete}
use go_kubegrpc.Sort.{sort_texts}

-- ErrUnknownPolicy carries the names that its message lists.
pub data Error : Type 0 where
  policy_exists : Bytes → Error
  unknown_policy : Bytes → List Bytes → Error

module _ {F : Type 0} where
  -- `init`.
  unfoldable pub built_in : F → F → List (Bytes × F)
  unfolding insert Bytes-discrete
  built_in rr lr =
      insert Bytes-discrete (codes "least_request") lr
        (insert Bytes-discrete (codes "round_robin") rr [])

  -- `RegisterPolicy`.
  unfoldable pub register_policy : Bytes → F → List (Bytes × F) → Result Error (List (Bytes × F))
  register_policy name factory registry = elim (lookup Bytes-discrete name registry) [
    | some _ ↦ err (policy_exists name)
    | none ↦ ok (insert Bytes-discrete name factory registry)
  ]

  -- `knownPoliciesLocked`.
  unfoldable pub known_policies : MapOrder → List (Bytes × F) → List Bytes
  known_policies order registry = sort_texts (keys (order.visit (Bytes × F) 0 registry))

  -- `LookupPolicy`.
  unfoldable pub lookup_policy : MapOrder → Bytes → List (Bytes × F) → Result Error F
  unfolding known_policies
  lookup_policy order name registry = elim (lookup Bytes-discrete name registry) [
    | some factory ↦ ok factory
    | none ↦ err (unknown_policy name (known_policies order registry))
  ]
