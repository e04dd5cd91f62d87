-- ===== src/Pool/Counts.antt =====
-- How often a SubConn stands in the map, at a drain goroutine, or in the log.
use go_kubegrpc.Base.{
  ℕ, ◌+◌, ◌≡◌, refl, List, [], ◌∷◌, none, some, true, arith, if◌then◌else◌, ◌==◌,
}
use go_kubegrpc.Base.Maps.{lookup, insert, delete, Distinct, delete_absent}
use go_kubegrpc.Pool.{
  PoolKey, PoolKey-discrete, SubConnEntry, Ref, Effect, create, shutdown, without, is_member,
}

-- Whether `r` points to the entry of the SubConn `sc`.
abbrev pub hits : ℕ → (Ref → SubConnEntry) → Ref → ℕ
hits sc store r = if (store r).sub_conn == sc then 1 else 0

-- How often the SubConn `sc` stands in the map, and in a list of entries.
unfoldable pub in_map : ℕ → (Ref → SubConnEntry) → List (PoolKey × Ref) → ℕ
in_map sc store [] = 0
in_map sc store ((_, r) ∷ m) = hits sc store r + in_map sc store m

unfoldable pub in_list : ℕ → (Ref → SubConnEntry) → List Ref → ℕ
in_list sc store [] = 0
in_list sc store (r ∷ rs) = hits sc store r + in_list sc store rs

-- How often `sc` was created, and shut down.
unfoldable pub creations : ℕ → List Effect → ℕ
creations sc [] = 0
creations sc (create c _ ∷ log) = (if c == sc then 1 else 0) + creations sc log
creations sc (_ ∷ log) = creations sc log

unfoldable pub shutdowns : ℕ → List Effect → ℕ
shutdowns sc [] = 0
shutdowns sc (shutdown c ∷ log) = (if c == sc then 1 else 0) + shutdowns sc log
shutdowns sc (_ ∷ log) = shutdowns sc log

module _ (sc : ℕ) (store : Ref → SubConnEntry) where
  pub in_map-insert :
      (k : PoolKey) (r : Ref) (m : List (PoolKey × Ref))
      → lookup PoolKey-discrete k m ≡ none
      → in_map sc store (insert PoolKey-discrete k r m) ≡ hits sc store r + in_map sc store m
  unfolding in_map lookup insert
  in_map-insert k r [] h = refl
  in_map-insert k r ((j, q) ∷ m) h = ground (arith, in_map-insert k r m)

  pub in_map-delete :
      (k : PoolKey) (r : Ref) (m : List (PoolKey × Ref))
      → Distinct PoolKey-discrete m
      → lookup PoolKey-discrete k m ≡ some r
      → in_map sc store m ≡ hits sc store r + in_map sc store (delete PoolKey-discrete k m)
  unfolding in_map lookup delete
  in_map-delete k r [] d h = ground arith
  in_map-delete k r ((j, q) ∷ m) d h =
      ground (arith, in_map-delete k r m d.1, delete_absent PoolKey-discrete k m)

  pub in_list-without :
      (r : Ref) (qs : List Ref)
      → is_member r qs ≡ true
      → in_list sc store qs ≡ hits sc store r + in_list sc store (without r qs)
  unfolding in_list is_member without
  in_list-without r [] h = ground arith
  in_list-without r (q ∷ qs) h = ground (arith, in_list-without r qs)

  pub in_map_ext :
      (other : Ref → SubConnEntry) (m : List (PoolKey × Ref))
      → Distinct PoolKey-discrete m
      → ((k : PoolKey) (r : Ref)
          → lookup PoolKey-discrete k m ≡ some r
          → (other r).sub_conn ≡ (store r).sub_conn)
      → in_map sc other m ≡ in_map sc store m
  unfolding in_map lookup
  in_map_ext other [] d h = refl
  in_map_ext other ((j, q) ∷ m) d h =
      ground (arith, h j q, in_map_ext other m d.1 (λ k r e. h k r (ground arith)))

  pub in_list_ext :
      (other : Ref → SubConnEntry) (rs : List Ref)
      → ((r : Ref) → is_member r rs ≡ true → (other r).sub_conn ≡ (store r).sub_conn)
      → in_list sc other rs ≡ in_list sc store rs
  unfolding in_list is_member
  in_list_ext other [] h = refl
  in_list_ext other (q ∷ qs) h =
      ground (arith, h q, in_list_ext other qs (λ r e. h r (ground arith)))
