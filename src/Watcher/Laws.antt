-- ===== src/Watcher/Laws.antt =====
-- Which endpoints are extracted.
use go_kubegrpc.Base.{
  ℕ, ◌≡◌, refl, List, [], ◌∷◌, ◌++◌, Option, none, some, Bool, true, false, ◌&&◌, ◌||◌, ◌==◌, ite,
  arith, Option-cases, inl, inr,
}
use go_kubegrpc.Text.{Bytes, Bytes-discrete}
use go_kubegrpc.Resolver.{Endpoint}
use go_kubegrpc.Watcher.{
  Port, SliceEndpoint, EndpointSlice, match_port, is_eligible, of_addresses, of_endpoints,
  extract_endpoints,
}

-- Whether an address and port, ready, are among some endpoints.
unfoldable pub is_listed : Bytes → ℕ → List Endpoint → Bool
is_listed addr port [] = false
is_listed addr port (e ∷ es) =
    (ite (Bytes-discrete e.address addr) (e.port == port) false && e.ready)
    || is_listed addr port es

unfoldable pub has_address : Bytes → List Bytes → Bool
has_address addr [] = false
has_address addr (a ∷ addrs) = ite (Bytes-discrete a addr) true (has_address addr addrs)

-- Whether an endpoint with the address may serve.
unfoldable pub is_offered : Bytes → List SliceEndpoint → Bool
is_offered addr [] = false
is_offered addr (ep ∷ eps) =
    (is_eligible ep && has_address addr ep.addresses) || is_offered addr eps

-- Whether a port is the one that is found for the target.
unfoldable pub is_port : ℕ → Option ℕ → Bool
is_port port none = false
is_port port (some n) = n == port

-- Whether a slice whose port for the target is the given one has an eligible endpoint with the
-- address.
unfoldable pub is_available : Bytes → ℕ → Port → List EndpointSlice → Bool
is_available addr port target [] = false
is_available addr port target (slice ∷ slices) =
    (is_port port (match_port slice.ports target) && is_offered addr slice.endpoints)
    || is_available addr port target slices

is_listed-append :
    (addr : Bytes) (port : ℕ) (es fs : List Endpoint)
    → is_listed addr port (es ++ fs) ≡ (is_listed addr port es || is_listed addr port fs)
unfolding is_listed
is_listed-append addr port [] fs = refl
is_listed-append addr port (e ∷ es) fs = ground (arith, is_listed-append addr port es fs)

is_listed-of_addresses :
    (addr : Bytes) (port n : ℕ) (addrs : List Bytes)
    → is_listed addr port (of_addresses n addrs) ≡ ((n == port) && has_address addr addrs)
unfolding is_listed of_addresses has_address
is_listed-of_addresses addr port n [] = ground arith
is_listed-of_addresses addr port n (a ∷ addrs) =
    ground (arith, is_listed-of_addresses addr port n addrs)

is_listed-of_endpoints :
    (addr : Bytes) (port n : ℕ) (eps : List SliceEndpoint)
    → is_listed addr port (of_endpoints n eps) ≡ ((n == port) && is_offered addr eps)
unfolding is_listed of_endpoints is_offered
is_listed-of_endpoints addr port n [] = ground arith
is_listed-of_endpoints addr port n (ep ∷ eps) = ground (
  arith,
  is_listed-of_endpoints addr port n eps,
  is_listed-of_addresses addr port n ep.addresses,
  is_listed-append addr port (of_addresses n ep.addresses) (of_endpoints n eps),
)

-- R3.2, R3.3, R3.7: an address and port are extracted exactly where a slice whose port for the target
-- is that port has an endpoint with the address that is not unready and not terminating; what is
-- extracted is marked as ready.
pub is_listed-extract_endpoints :
    (addr : Bytes) (port : ℕ) (target : Port) (slices : List EndpointSlice)
    → is_listed addr port (extract_endpoints slices target) ≡ is_available addr port target slices
unfolding extract_endpoints is_available is_listed is_port
is_listed-extract_endpoints addr port target [] = refl
is_listed-extract_endpoints addr port target (slice ∷ slices) =
    elim (Option-cases (match_port slice.ports target)) [
      | inl e ↦ ground (arith, is_listed-extract_endpoints addr port target slices)
      | inr (n, e) ↦ ground (
        arith,
        is_listed-extract_endpoints addr port target slices,
        is_listed-of_endpoints addr port n slice.endpoints,
        is_listed-append addr port (of_endpoints n slice.endpoints)
            (extract_endpoints slices target),
      )
    ]
