-- ===== src/Balancer/Find.antt =====
-- findKeyForSubConn and getPoolEntry: which entry they find in whatever order they visit the map.
use mathlib.Core.List.{Perm, Permᴰ}
use mathlib.Core.Logic.{∥∥₁_elim}
use go_kubegrpc.Base.{
  inl, inr, ℕ_discrete, ℕ, ◌≤◌, ◌≡◌, ◌≢◌, ◌⊎◌, refl, ap, sym, ◌∙◌, List, [], ◌∷◌, none, some, true,
  false, arith,
}
use go_kubegrpc.Base.Maps.{lookup, delete, Distinct, lookup-delete, MapOrder}
use go_kubegrpc.Pool.{Pool, PoolKey, PoolKey-discrete, Ref, is_member}
use go_kubegrpc.Pool.Queries.{select, is_live, snapshot}
use go_kubegrpc.Pool.Invariant.{IsPool}
use go_kubegrpc.Pool.Counts.{in_map, in_map-delete}
use go_kubegrpc.Picker.{Store}
use go_kubegrpc.Balancer.Rebuild.{select-perm}
use go_kubegrpc.Balancer.SubConns.{find_sub_conn, find_entry, find_key_for_sub_conn, get_pool_entry}

is_member-Permᴰ : (r : Ref) {xs ys : List Ref} → Permᴰ xs ys → is_member r xs ≡ is_member r ys
unfolding is_member
is_member-Permᴰ r Permᴰ.nil = refl
is_member-Permᴰ r (Permᴰ.cons e p) = ground (arith, is_member-Permᴰ r p)
is_member-Permᴰ r (Permᴰ.swap e f) = ground arith
is_member-Permᴰ r (Permᴰ.trans p q) = is_member-Permᴰ r p ∙ is_member-Permᴰ r q

is_member-perm : (r : Ref) (xs ys : List Ref) → Perm xs ys → is_member r xs ≡ is_member r ys
is_member-perm r xs ys h = ∥∥₁_elim h (hlevel) (is_member-Permᴰ r)

-- The live entries of a map.
is_member-select :
    (store : Store) (k : PoolKey) (r : Ref) (m : List (PoolKey × Ref))
    → lookup PoolKey-discrete k m ≡ some r
    → (store r).draining ≡ false
    → is_member r (select is_live store m) ≡ true
unfolding lookup is_member select is_live
is_member-select store k r [] h d = ground arith
is_member-select store k r ((j, q) ∷ m) h d = ground (arith, is_member-select store k r m)

select-lookup :
    (store : Store) (r : Ref) (m : List (PoolKey × Ref))
    → Distinct PoolKey-discrete m
    → is_member r (select is_live store m) ≡ true
    → (k : PoolKey) × (lookup PoolKey-discrete k m ≡ some r)
unfolding lookup is_member select
select-lookup store r [] d h = ground arith
select-lookup store r ((j, q) ∷ m) d h = elim (ℕ_discrete q r) [
  | yes e ↦ (j, ground arith)
  | no ne ↦ let (k, f) = select-lookup store r m d.1 (ground arith) in (k, ground arith)
]

module _ (p : Pool) (order : MapOrder) (loop : ℕ) (i : IsPool p) where
  snapshot-has :
      (k : PoolKey) (r : Ref)
      → lookup PoolKey-discrete k p.entries ≡ some r
      → is_member r (snapshot order loop p) ≡ true
  unfolding snapshot
  snapshot-has k r h =
      is_member-perm r _ _ (
        select-perm is_live p.store (order.visit (PoolKey × Ref) loop p.entries) p.entries
          (order.visit-perm (PoolKey × Ref) loop p.entries))
      ∙ is_member-select p.store k r p.entries h (i.owned k r h).2

  snapshot-lookup :
      (r : Ref)
      → is_member r (snapshot order loop p) ≡ true
      → lookup PoolKey-discrete (p.store r).key p.entries ≡ some r
  unfolding snapshot
  snapshot-lookup r h =
      let (k, f) = select-lookup p.store r p.entries i.distinct (
        sym (
          is_member-perm r _ _ (
            select-perm is_live p.store (order.visit (PoolKey × Ref) loop p.entries) p.entries
              (order.visit-perm (PoolKey × Ref) loop p.entries)))
        ∙ h) in
      ap (λ j. lookup PoolKey-discrete j p.entries) ((i.owned k r f).1) ∙ f

find_entry_unique :
    (store : Store) (key : PoolKey) (r : Ref) (rs : List Ref)
    → is_member r rs ≡ true
    → (store r).key ≡ key
    → ((q : Ref) → is_member q rs ≡ true → (store q).key ≡ key → q ≡ r)
    → find_entry key store rs ≡ some r
unfolding find_entry is_member
find_entry_unique store key r [] m e u = ground arith
find_entry_unique store key r (q ∷ qs) m e u = elim (PoolKey-discrete (store q).key key) [
  | yes f ↦ ground (arith, u q)
  | no ne ↦
      ground (arith, find_entry_unique store key r qs (ground arith) e (λ s h. u s (ground arith)))
]

find_sub_conn_unique :
    (store : Store) (sc : ℕ) (r : Ref) (rs : List Ref)
    → is_member r rs ≡ true
    → (store r).sub_conn ≡ sc
    → ((q : Ref) → is_member q rs ≡ true → (store q).sub_conn ≡ sc → (store q).key ≡ (store r).key)
    → find_sub_conn sc store rs ≡ some (store r).key
unfolding find_sub_conn is_member
find_sub_conn_unique store sc r [] m e u = ground arith
find_sub_conn_unique store sc r (q ∷ qs) m e u = elim (ℕ_discrete (store q).sub_conn sc) [
  | yes f ↦ ground (arith, u q)
  | no ne ↦
      ground
        (arith, find_sub_conn_unique store sc r qs (ground arith) e (λ s h. u s (ground arith)))
]

find_sub_conn-none :
    (store : Store) (sc : ℕ) (rs : List Ref)
    → ((q : Ref) → is_member q rs ≡ true → (store q).sub_conn ≢ sc)
    → find_sub_conn sc store rs ≡ none
unfolding find_sub_conn is_member
find_sub_conn-none store sc [] h = refl
find_sub_conn-none store sc (q ∷ qs) h =
    ground (arith, h q, find_sub_conn-none store sc qs (λ s m. h s (ground arith)))

-- An entry counts for its SubConn.
pub in_map-lookup :
    (sc : ℕ) (store : Store) (k : PoolKey) (r : Ref) (m : List (PoolKey × Ref))
    → lookup PoolKey-discrete k m ≡ some r
    → (store r).sub_conn ≡ sc
    → 1 ≤ in_map sc store m
unfolding in_map lookup
in_map-lookup sc store k r [] h e = ground arith
in_map-lookup sc store k r ((j, q) ∷ m) h e = ground (arith, in_map-lookup sc store k r m)

-- An entry of the map has the SubConn, or none has it.
pub in_map-cases :
    (sc : ℕ) (store : Store) (m : List (PoolKey × Ref))
    → Distinct PoolKey-discrete m
    → ((k : PoolKey) × (r : Ref) × (lookup PoolKey-discrete k m ≡ some r)
        × ((store r).sub_conn ≡ sc))
      ⊎ (in_map sc store m ≡ 0)
unfolding in_map lookup
in_map-cases sc store [] d = inr refl
in_map-cases sc store ((j, q) ∷ m) d = elim (ℕ_discrete (store q).sub_conn sc) [
  | yes e ↦ inl (j, q, ground arith, e)
  | no ne ↦ elim (in_map-cases sc store m d.1) [
    | inl (k, r, h, e) ↦ inl (k, r, ground arith, e)
    | inr h ↦ inr (ground arith)
  ]
]

-- No two entries of the map have the same SubConn.
pub sub_conn_unique :
    (sc : ℕ) (store : Store) (m : List (PoolKey × Ref)) (j k : PoolKey) (q r : Ref)
    → Distinct PoolKey-discrete m
    → in_map sc store m ≤ 1
    → lookup PoolKey-discrete k m ≡ some r
    → lookup PoolKey-discrete j m ≡ some q
    → (store r).sub_conn ≡ sc
    → (store q).sub_conn ≡ sc
    → j ≡ k
sub_conn_unique sc store m j k q r d once h g e f = elim (PoolKey-discrete k j) [
  | yes same ↦ sym same
  | no ne ↦
      let other =
        in_map-lookup sc store j q (delete PoolKey-discrete k m)
          (ground (arith, lookup-delete PoolKey-discrete k j m)) f in
      ground (arith, in_map-delete sc store k r m d h, other)
]

module _ (p : Pool) (order : MapOrder) (i : IsPool p) (k : PoolKey) (r : Ref)
    (h : lookup PoolKey-discrete k p.entries ≡ some r) where
  -- getPoolEntry finds the entry of a key.
  pub get_pool_entry-lookup : (loop : ℕ) → get_pool_entry order loop k p ≡ some r
  unfolding get_pool_entry
  get_pool_entry-lookup loop =
      find_entry_unique p.store k r (snapshot order loop p) (snapshot-has p order loop i k r h)
        (i.owned k r h).1 (λ q m e. ground (arith, snapshot-lookup p order loop i q m))

  -- findKeyForSubConn finds the key of the entry of a SubConn, which no other entry has.
  pub find_key_for_sub_conn-lookup :
      in_map (p.store r).sub_conn p.store p.entries ≤ 1
      → find_key_for_sub_conn order (p.store r).sub_conn p ≡ some k
  unfolding find_key_for_sub_conn
  find_key_for_sub_conn-lookup once =
      find_sub_conn_unique p.store (p.store r).sub_conn r (snapshot order 0 p)
        (snapshot-has p order 0 i k r h) refl
        (λ q m e.
          let there = snapshot-lookup p order 0 i q m in
          sub_conn_unique (p.store r).sub_conn p.store p.entries (p.store q).key k q r i.distinct
            once h there refl e
          ∙ sym (i.owned k r h).1)
      ∙ ap some (i.owned k r h).1

-- findKeyForSubConn finds nothing for a SubConn that no entry of the map has.
pub find_key_for_sub_conn-absent :
    (p : Pool) (order : MapOrder) (sc : ℕ)
    → IsPool p
    → ((k : PoolKey) (r : Ref)
        → lookup PoolKey-discrete k p.entries ≡ some r
        → (p.store r).sub_conn ≢ sc)
    → find_key_for_sub_conn order sc p ≡ none
unfolding find_key_for_sub_conn
find_key_for_sub_conn-absent p order sc i h =
    find_sub_conn-none p.store sc (snapshot order 0 p)
      (λ q m. h (p.store q).key q (snapshot-lookup p order 0 i q m))
