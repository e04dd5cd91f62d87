-- ===== src/Watcher.antt =====
-- internal/resolver/k8s/watcher.go: the endpoints of a list of EndpointSlices. The fields of an
-- EndpointSlice that the code reads are records, a nil pointer is `none`. The loop of the watcher is
-- in Run.
pub mod Laws
pub mod Offers
pub mod Run
pub mod Reconnect
use go_kubegrpc.Base.{
  ℕ, suc, ◌*◌, ◌^◌, ◌≡◌, refl, List, [], ◌∷◌, ◌++◌, Option, none, some, Bool, true, false, not,
  ◌&&◌, ◌==◌, ite, ltb, if◌then◌else◌, get_elem?,
}
use go_kubegrpc.Text.{Bytes, Bytes-discrete}
use go_kubegrpc.Resolver.{Endpoint}

pub record Port : Type 0 where
  pub name : Bytes
  pub number : ℕ

pub record EndpointPort : Type 0 where
  pub name : Option Bytes
  pub port : Option ℕ

pub record SliceEndpoint : Type 0 where
  pub addresses : List Bytes
  pub ready : Option Bool
  pub terminating : Option Bool

pub record EndpointSlice : Type 0 where
  pub ports : List EndpointPort
  pub endpoints : List SliceEndpoint

unfoldable pub has_name : Bytes → Option Bytes → Bool
has_name name none = false
has_name name (some n) = ite (Bytes-discrete n name) true false

-- The switch of `matchPort` for a port with a number.
unfoldable pub matches : Port → EndpointPort → ℕ → Bool
unfolding has_name
matches target p n = elim target.name [
  | c ∷ name ↦ has_name (c ∷ name) p.name
  | [] ↦ not (target.number == 0) && (n == target.number)
]

-- `matchPort`.
unfoldable pub match_port : List EndpointPort → Port → Option ℕ
unfolding matches
match_port [] target = none
match_port (p ∷ ports) target =
    let rest = match_port ports target in
    elim p.port [ none ↦ rest | some n ↦ if matches target p n then some n else rest ]

-- The readiness filter: nil counts as ready and as not terminating.
unfoldable pub is_eligible : SliceEndpoint → Bool
is_eligible ep =
    elim ep.ready [ none ↦ true | some b ↦ b ]
    && not (elim ep.terminating [ none ↦ false | some b ↦ b ])

unfoldable pub of_addresses : ℕ → List Bytes → List Endpoint
of_addresses port [] = []
of_addresses port (addr ∷ addrs) =
    record { address = addr; port = port; ready = true } ∷ of_addresses port addrs

unfoldable pub of_endpoints : ℕ → List SliceEndpoint → List Endpoint
unfolding is_eligible of_addresses
of_endpoints port [] = []
of_endpoints port (ep ∷ eps) =
    let rest = of_endpoints port eps in
    if is_eligible ep then of_addresses port ep.addresses ++ rest else rest

-- `extractEndpoints`.
unfoldable pub extract_endpoints : List EndpointSlice → Port → List Endpoint
unfolding match_port of_endpoints
extract_endpoints [] target = []
extract_endpoints (slice ∷ slices) target =
    let rest = extract_endpoints slices target in
    elim (match_port slice.ports target) [
      | none ↦ rest
      | some port ↦ of_endpoints port slice.endpoints ++ rest
    ]
