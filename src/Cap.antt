-- ===== src/Cap.antt =====
-- internal/balancer/cap.go: the cap on the desired endpoints.
pub mod Laws
use go_kubegrpc.Base.{ℕ, suc, zero, ◌≡◌, refl, List, [], ◌∷◌, take, length, ltb, if◌then◌else◌}
use go_kubegrpc.Base.Int.{ℤ, pos, negsuc}
use go_kubegrpc.Base.Maps.{insert}
use go_kubegrpc.Text.{Bytes, codes}
use go_kubegrpc.Sort.{sort_by}
use go_kubegrpc.Resolver.{Endpoint, Endpoints, Key-discrete, key_of}
use go_kubegrpc.Address.{addr_port}

unfoldable pub endpoint_text : Endpoint → Bytes
unfolding addr_port
endpoint_text e = addr_port e.address e.port

-- The first `n` endpoints in the order of "address:port".
unfoldable pub first_sorted : ℕ → List Endpoint → List Endpoint
unfolding sort_by
first_sorted n endpoints =
    let sorted = sort_by endpoint_text endpoints in
    if ltb n (length sorted) then take n sorted else sorted

-- `CapEndpoints`: no cap where the limit is not positive.
unfoldable pub cap_endpoints : List Endpoint → ℤ → List Endpoint
unfolding first_sorted
cap_endpoints endpoints (pos zero) = endpoints
cap_endpoints endpoints (negsuc n) = endpoints
cap_endpoints endpoints (pos (suc n)) = first_sorted (suc n) endpoints

-- `EndpointsToMap`: a later endpoint replaces an earlier one with its key.
unfoldable pub add_endpoints : List Endpoint → Endpoints → Endpoints
unfolding insert key_of
add_endpoints [] m = m
add_endpoints (e ∷ es) m = add_endpoints es (insert Key-discrete (key_of e) e m)

unfoldable pub endpoints_to_map : List Endpoint → Endpoints
unfolding add_endpoints
endpoints_to_map es = add_endpoints es []
