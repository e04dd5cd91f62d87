-- ===== src/Balancer/Addresses.antt =====
-- The addresses of the entries that a picker is built over.
use mathlib.Core.List.{Perm}
use mathlib.Core.List.Perm
use go_kubegrpc.Base.{
  ℕ, ◌≤◌, ◌≡◌, refl, ap, sym, ◌∙◌, List, [], ◌∷◌, some, false, arith, map, Bool-cases, inl, inr,
}
use go_kubegrpc.Base.Maps.{lookup, Distinct, MapOrder}
use go_kubegrpc.Base.Count.{count, count-perm}
use go_kubegrpc.Text.{Bytes, Bytes-discrete}
use go_kubegrpc.Address.RoundTrip.{addr_port_injective}
use go_kubegrpc.Sort.{sort_by, sort_by-perm}
use go_kubegrpc.Resolver.{Endpoints}
use go_kubegrpc.Pool.{PoolKey, PoolKey-discrete, Ref, key_text}
use go_kubegrpc.Pool.Queries.{select, is_healthy, healthy_entries}
use go_kubegrpc.Picker.{Store, address_of, is_tried}
use go_kubegrpc.Picker.Failover.{AreDistinct}
use go_kubegrpc.Balancer.{BuildConfig, Balancer, sorted_healthy}
use go_kubegrpc.Balancer.Rebuild.{select-perm}
use go_kubegrpc.Balancer.Desired.{IsServing}

is_tried-count : (a : Bytes) (l : List Bytes) → count Bytes-discrete a l ≡ 0 → is_tried a l ≡ false
unfolding count is_tried
is_tried-count a [] h = refl
is_tried-count a (x ∷ l) h = elim (Bytes-discrete x a) [
  | yes e ↦ ground (arith, e, h)
  | no ne ↦ elim (Bytes-discrete a x) [
    | yes e ↦ absurd (ne (sym e))
    | no other ↦ ground (arith, ne, other, is_tried-count a l)
  ]
]

AreDistinct-count : (l : List Bytes) → ((a : Bytes) → count Bytes-discrete a l ≤ 1) → AreDistinct l
unfolding count
AreDistinct-count [] h = tt
AreDistinct-count (x ∷ l) h =
    (is_tried-count x l (ground (arith, h x)), AreDistinct-count l (λ a. ground (arith, h a)))

-- The entries of a map belong to their keys, which have one namespace and service.
abbrev AreKeyed : BuildConfig → Store → List (PoolKey × Ref) → Type 0
AreKeyed cfg store m =
    (k : PoolKey) (r : Ref)
    → lookup PoolKey-discrete k m ≡ some r
    → ((store r).key ≡ k) × (k.namespace ≡ cfg.namespace) × (k.service ≡ cfg.service)

-- An address that is selected is that of an entry in the map.
has_address :
    (store : Store) (a : Bytes) (m : List (PoolKey × Ref))
    → Distinct PoolKey-discrete m
    → 1 ≤ count Bytes-discrete a (map (address_of store) (select is_healthy store m))
    → (j : PoolKey) × (r : Ref) × (lookup PoolKey-discrete j m ≡ some r) × (address_of store r ≡ a)
unfolding count select lookup
has_address store a [] d h = absurd (omega (arith, h))
has_address store a ((j, r) ∷ m) d h = elim (Bytes-discrete (address_of store r) a) [
  | yes e ↦ (j, r, ground arith, e)
  | no ne ↦
      let (i, q, f, e) = has_address store a m d.1 (ground (arith, ne, h)) in
      (i, q, ground (arith, d, f), e)
]

same_address :
    (cfg : BuildConfig) (j k : PoolKey)
    → key_text j ≡ key_text k
    → (j.namespace ≡ cfg.namespace) × (j.service ≡ cfg.service)
    → (k.namespace ≡ cfg.namespace) × (k.service ≡ cfg.service)
    → j ≡ k
unfolding key_text
same_address cfg j k e h i =
    ground (arith, h, i, addr_port_injective j.address k.address j.port k.port e)

-- An address of one entry is not selected from the others.
not_again :
    (cfg : BuildConfig) (store : Store) (a : Bytes) (j : PoolKey) (r : Ref)
    (m : List (PoolKey × Ref))
    → Distinct PoolKey-discrete ((j, r) ∷ m)
    → AreKeyed cfg store ((j, r) ∷ m)
    → address_of store r ≡ a
    → ¬ (1 ≤ count Bytes-discrete a (map (address_of store) (select is_healthy store m)))
unfolding lookup
not_again cfg store a j r m d h e n =
    let (i, q, f, g) = has_address store a m d.1 n in
    let mine = h j r (ground arith) in
    let other = h i q (ground (arith, d, f)) in
    let texts : key_text j ≡ key_text i =
      ap key_text (sym mine.0) ∙ e ∙ sym g ∙ ap key_text other.0 in
    let same = same_address cfg j i texts (mine.1, mine.2) (other.1, other.2) in
    ground (arith, d, f, same)

count-address :
    (cfg : BuildConfig) (store : Store) (a : Bytes) (m : List (PoolKey × Ref))
    → Distinct PoolKey-discrete m
    → AreKeyed cfg store m
    → count Bytes-discrete a (map (address_of store) (select is_healthy store m)) ≤ 1
unfolding count select lookup
count-address cfg store a [] d h = omega arith
count-address cfg store a ((j, r) ∷ m) d h =
    let rest = count-address cfg store a m d.1 (λ k q f. h k q (ground (arith, d, f))) in
    elim (Bool-cases (is_healthy (store r))) [
      | inr f ↦ rw f rest
      | inl f ↦ elim (Bytes-discrete (address_of store r) a) [
        | no ne ↦ rw f (ground (arith, ne, rest))
        | yes e ↦
            let again = not_again cfg store a j r m d h e in rw f (ground (arith, e, again, rest))
      ]
    ]

-- Behind the updates of one target no two entries that a picker is built over have one address.
pub sorted_healthy-AreDistinct :
    (cfg : BuildConfig) (m : Endpoints) (b : Balancer) (order : MapOrder) (loop : ℕ)
    → IsServing cfg m b
    → AreDistinct (map (address_of b.pool.store) (sorted_healthy order loop b.pool))
unfolding sorted_healthy healthy_entries
sorted_healthy-AreDistinct cfg m b order loop v =
    let p = b.pool in
    let visited = order.visit (PoolKey × Ref) loop p.entries in
    let same : Perm (sort_by (address_of p.store) (select is_healthy p.store visited))
        (select is_healthy p.store p.entries) =
      Perm.trans (sort_by-perm (address_of p.store) (select is_healthy p.store visited)) (
        select-perm is_healthy p.store visited p.entries
          (order.visit-perm (PoolKey × Ref) loop p.entries)) in
    AreDistinct-count _ (λ a.
      let counted = count-perm Bytes-discrete a _ _ (Perm.map (address_of p.store) same) in
      let once =
        count-address cfg p.store a p.entries v.pool.distinct
          (λ k r f. ((v.pool.owned k r f).1, (v.scope k r f).0, (v.scope k r f).1)) in
      omega (arith, counted, once))
