-- ===== src/Tests/Slices.antt =====
-- EndpointSlices at a concrete input.
use go_kubegrpc.Base.{◌≡◌, refl, List, [], ◌∷◌, some, none, true}
use go_kubegrpc.Text.{codes, Bytes-discrete}
use go_kubegrpc.Watcher.{Port, EndpointSlice, extract_endpoints}

abbrev grpc_port : Port
grpc_port = record { name = codes "grpc"; number = 0 }

-- One pod is ready, and one is terminating.
abbrev slices : List EndpointSlice
slices =
    record {
      ports = record { name = some (codes "grpc"); port = some 8080 } ∷ [];
      endpoints =
          record { addresses = codes "10.0.0.1" ∷ []; ready = none; terminating = none }
          ∷ record { addresses = codes "10.0.0.2" ∷ []; ready = some true; terminating = some true }
          ∷ [];
    }
    ∷ []

extracted :
    extract_endpoints slices grpc_port
    ≡ record { address = codes "10.0.0.1"; port = 8080; ready = true } ∷ []
unfolding extract_endpoints Bytes-discrete
extracted = refl
