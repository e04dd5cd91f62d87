-- ===== src/Cap/Laws.antt =====
-- Which endpoints the cap keeps.
use Prim.Native.Nat.{min}
use mathlib.Core.List.{Perm}
use mathlib.Core.List.Perm
use go_kubegrpc.Base.{
  ℕ, suc, ◌≡◌, refl, ap, sym, ◌∙◌, List, map, take, length, ltb, take_of_length-le, length-take,
  take-map, Bool-cases, inl, inr, ltb→ge,
}
use go_kubegrpc.Base.Int.{pos}
use go_kubegrpc.Sort.{sort_by, sort_texts, length-sort_by, map-sort_by, sort_texts-perm}
use go_kubegrpc.Base.{[], ◌∷◌, zero, arith}
use go_kubegrpc.Base.Int.{ℤ, negsuc}
use go_kubegrpc.Base.Count.{count, count-perm}
use go_kubegrpc.Address.RoundTrip.{addr_port_injective}
use go_kubegrpc.Resolver.{Endpoint, Key, Key-discrete, key_of}
use go_kubegrpc.Cap.{endpoint_text, first_sorted, cap_endpoints}

-- The branch on the length makes no difference to what `take` gives.
pub first_sorted-take :
    (n : ℕ) (es : List Endpoint) → first_sorted n es ≡ take n (sort_by endpoint_text es)
unfolding first_sorted
first_sorted-take n es = elim (Bool-cases (ltb n (length (sort_by endpoint_text es)))) [
  | inl more ↦ rw (more, first_sorted) refl
  | inr fits ↦ rw (fits, first_sorted) (sym (take_of_length-le n _ (ltb→ge _ _ fits)))
]

-- R12.1, R12.2: under a positive limit the texts "address:port" of the endpoints kept are the first
-- ones of all the texts in Go's order on strings, so they do not depend on the order of the input,
-- in which a map was visited, and their number is the smaller one of the limit and the input's.
pub cap_endpoints_deterministic :
    (n : ℕ) (es fs : List Endpoint)
    → Perm es fs
    → (map endpoint_text (cap_endpoints es (pos (suc n)))
        ≡ take (suc n) (sort_texts (map endpoint_text es)))
      × (map endpoint_text (cap_endpoints es (pos (suc n)))
          ≡ map endpoint_text (cap_endpoints fs (pos (suc n))))
      × (length (cap_endpoints es (pos (suc n))) ≡ min (suc n) (length es))
unfolding cap_endpoints
cap_endpoints_deterministic n es fs h = (
  texts es,
  texts es ∙ ap (take (suc n)) (sort_texts-perm _ _ (Perm.map endpoint_text h)) ∙ sym (texts fs),
  size,
)
  where
    texts :
        (gs : List Endpoint)
        → map endpoint_text (first_sorted (suc n) gs)
          ≡ take (suc n) (sort_texts (map endpoint_text gs))
    texts gs =
        ap (map endpoint_text) (first_sorted-take (suc n) gs)
        ∙ take-map endpoint_text (suc n) (sort_by endpoint_text gs)
        ∙ ap (take (suc n)) (map-sort_by endpoint_text gs)

    size : length (first_sorted (suc n) es) ≡ min (suc n) (length es)
    size =
        ap length (first_sorted-take (suc n) es)
        ∙ length-take (suc n) (sort_by endpoint_text es)
        ∙ ap (min (suc n)) (length-sort_by endpoint_text es)

-- Equal texts are those of equal keys.
keys-endpoint_text :
    (es fs : List Endpoint)
    → map endpoint_text es ≡ map endpoint_text fs
    → map key_of es ≡ map key_of fs
unfolding endpoint_text key_of
keys-endpoint_text [] [] h = refl
keys-endpoint_text [] (f ∷ fs) h = ground arith
keys-endpoint_text (e ∷ es) [] h = ground arith
keys-endpoint_text (e ∷ es) (f ∷ fs) h =
    ground
      (arith, h, addr_port_injective e.address f.address e.port f.port, keys-endpoint_text es fs)

-- The keys under the cap do not depend on the order of the endpoints.
pub cap_endpoints-keys :
    (k : Key) (max : ℤ) (es fs : List Endpoint)
    → Perm es fs
    → count Key-discrete k (map key_of (cap_endpoints es max))
      ≡ count Key-discrete k (map key_of (cap_endpoints fs max))
unfolding cap_endpoints
cap_endpoints-keys k (pos zero) es fs h = count-perm Key-discrete k _ _ (Perm.map key_of h)
cap_endpoints-keys k (negsuc n) es fs h = count-perm Key-discrete k _ _ (Perm.map key_of h)
cap_endpoints-keys k (pos (suc n)) es fs h = ap (count Key-discrete k) (
    keys-endpoint_text (cap_endpoints es (pos (suc n))) (cap_endpoints fs (pos (suc n)))
      (cap_endpoints_deterministic n es fs h).1)
