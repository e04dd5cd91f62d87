-- ===== src/Resolver/Reconcile.antt =====
-- What `reconcile` returns, whatever order Go visits the maps in.
use go_kubegrpc.Base.{ap, ◌∙◌, ◌*◌, ◌≡◌, [], ◌∷◌, arith}
use go_kubegrpc.Base.Maps.{lookup, keys, Distinct, MapOrder}
use go_kubegrpc.Base.Count.{count, count-visit, present, absent}
use go_kubegrpc.Resolver.{Endpoint, Endpoints, Key, Key-discrete, missing_keys, reconcile}

count-missing_keys :
    (k : Key) (other from : Endpoints)
    → count Key-discrete k (missing_keys other from)
      ≡ count Key-discrete k (keys from) * absent (lookup Key-discrete k other)
unfolding count missing_keys
count-missing_keys k other [] = omega arith
count-missing_keys k other ((j, e) ∷ from) = grind (arith, count-missing_keys k other from)

-- P4, R4.1, R4.5: `toAdd` holds exactly the keys of `desired` that `current` lacks and `toRemove`
-- exactly those of `current` that `desired` lacks, each key once, whatever order Go visits the two
-- maps in.
pub reconcile_difference :
    (order : MapOrder) (current desired : Endpoints) (k : Key)
    → Distinct Key-discrete current
    → Distinct Key-discrete desired
    → let (to_add, to_remove) = reconcile order current desired in
      (count Key-discrete k to_add
        ≡ present (lookup Key-discrete k desired) * absent (lookup Key-discrete k current))
      × (count Key-discrete k to_remove
          ≡ present (lookup Key-discrete k current) * absent (lookup Key-discrete k desired))
unfolding reconcile
reconcile_difference order current desired k hc hd = (
  count-missing_keys k current (order.visit (Key × Endpoint) 0 desired)
      ∙ ap (λ n. n * absent (lookup Key-discrete k current))
          (count-visit Key-discrete order 0 k desired hd),
  count-missing_keys k desired (order.visit (Key × Endpoint) 1 current)
      ∙ ap (λ n. n * absent (lookup Key-discrete k desired))
          (count-visit Key-discrete order 1 k current hc),
)
