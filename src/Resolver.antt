-- ===== src/Resolver.antt =====
-- internal/resolver/resolver.go and reconcile.go: the types that the resolvers and the balancer
-- share, and the set differences between two sets of endpoints.
pub mod Reconcile
use Prim.Native.String.{String}
use go_kubegrpc.Base.{ℕ, ◌≡◌, refl, List, [], ◌∷◌, Option, none, some, Bool, ℕ_discrete}
use go_kubegrpc.Base.Maps.{lookup, MapOrder}
use go_kubegrpc.Text.{Bytes, codes, Bytes-discrete}

pub data ResolverState : Type 0 where
  connected disconnected in_grace_window : ResolverState

-- `ResolverState.String`; the type has no other value.
unfoldable pub state_name : ResolverState → Bytes
state_name connected = codes "Connected"
state_name disconnected = codes "Disconnected"
state_name in_grace_window = codes "InGraceWindow"

pub record Endpoint : Type 0 where
  pub address : Bytes
  pub port : ℕ
  pub ready : Bool

pub record Key : Type 0 where
  pub address : Bytes
  pub port : ℕ

unfoldable pub key_of : Endpoint → Key
key_of e = record { address = e.address; port = e.port }

unfoldable pub Key-discrete : Discrete Key
unfolding Bytes-discrete ℕ_discrete
Key-discrete = hlevel ℕ_discrete

-- `Err` is whether it is non-nil.
pub record Snapshot : Type 0 where
  pub endpoints : List Endpoint
  pub state : ResolverState
  pub failed : Bool

abbrev pub Endpoints : Type 0
Endpoints = List (Key × Endpoint)

-- The keys of `from` that `other` lacks, in the order of the loop: one loop of Reconcile.
unfoldable pub missing_keys : Endpoints → Endpoints → List Key
unfolding lookup
missing_keys other [] = []
missing_keys other ((k, _) ∷ from) = elim (lookup Key-discrete k other) [
  | none ↦ k ∷ missing_keys other from
  | some _ ↦ missing_keys other from
]

-- `toAdd` and `toRemove`.
unfoldable pub reconcile : MapOrder → Endpoints → Endpoints → List Key × List Key
unfolding missing_keys
reconcile order current desired = (
  missing_keys current (order.visit (Key × Endpoint) 0 desired),
  missing_keys desired (order.visit (Key × Endpoint) 1 current),
)
