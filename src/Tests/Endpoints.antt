-- ===== src/Tests/Endpoints.antt =====
-- Endpoints at concrete inputs.
use mathlib.Core.List.{Perm}
use mathlib.Core.List.Perm
use Prim.Native.Nat.{min}
use go_kubegrpc.Base.{true, ◌≡◌, ◌*◌, refl, List, [], ◌∷◌, map, take, length}
use go_kubegrpc.Base.Int.{pos}
use go_kubegrpc.Base.Maps.{in_order, lookup}
use go_kubegrpc.Base.Count.{count, present, absent}
use go_kubegrpc.Text.{Bytes, codes}
use go_kubegrpc.Sort.{sort_texts}
use go_kubegrpc.Resolver.{Endpoint, Endpoints, Key-discrete, reconcile, key_of}
use go_kubegrpc.Resolver.Reconcile.{reconcile_difference}
use go_kubegrpc.Text.Order.{text_ltb}
use go_kubegrpc.Text.Decimal.{itoa}
use go_kubegrpc.Cap.{endpoint_text, cap_endpoints}
use go_kubegrpc.Cap.Laws.{cap_endpoints_deterministic}

abbrev endpoint : Bytes → Endpoint
endpoint address = record { address = address; port = 80; ready = true }

abbrev pods : List Endpoint
pods = endpoint (codes "10.0.0.9") ∷ endpoint (codes "10.0.0.1") ∷ []

abbrev pods_turned : List Endpoint
pods_turned = endpoint (codes "10.0.0.1") ∷ endpoint (codes "10.0.0.9") ∷ []

pods_swapped : Perm pods pods_turned
pods_swapped = Perm.swap (endpoint (codes "10.0.0.1")) (endpoint (codes "10.0.0.9")) []

cap_endpoints_deterministic_example :
    (map endpoint_text (cap_endpoints pods (pos 1)) ≡ take 1 (sort_texts (map endpoint_text pods)))
    × (map endpoint_text (cap_endpoints pods (pos 1))
        ≡ map endpoint_text (cap_endpoints pods_turned (pos 1)))
    × (length (cap_endpoints pods (pos 1)) ≡ min 1 (length pods))
cap_endpoints_deterministic_example = cap_endpoints_deterministic 0 pods pods_turned pods_swapped

cap_endpoints_first : map endpoint_text (cap_endpoints pods (pos 1)) ≡ codes "10.0.0.1:80" ∷ []
unfolding cap_endpoints endpoint_text text_ltb itoa
cap_endpoints_first = refl

abbrev old : Endpoints
old =
    (key_of (endpoint (codes "a")), endpoint (codes "a"))
    ∷ (key_of (endpoint (codes "b")), endpoint (codes "b"))
    ∷ []

abbrev new : Endpoints
new =
    (key_of (endpoint (codes "b")), endpoint (codes "b"))
    ∷ (key_of (endpoint (codes "c")), endpoint (codes "c"))
    ∷ []

reconcile_difference_example :
    let k = key_of (endpoint (codes "a")) in
    let (to_add, to_remove) = reconcile in_order old new in
    (count Key-discrete k to_add
      ≡ present (lookup Key-discrete k new) * absent (lookup Key-discrete k old))
    × (count Key-discrete k to_remove
        ≡ present (lookup Key-discrete k old) * absent (lookup Key-discrete k new))
unfolding lookup key_of Key-discrete
reconcile_difference_example =
    reconcile_difference in_order old new (key_of (endpoint (codes "a"))) (refl, (refl, tt))
      (refl, (refl, tt))
