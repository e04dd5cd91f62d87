-- ===== src/Balancer/Loops.antt =====
-- What the two loops of the reconciliation leave in the pool under a key.
use go_kubegrpc.Base.{
  if◌then◌else◌, ltb, ◌*◌, ap, subst, subst, ℕ, ◌≤◌, ◌≡◌, ◌≢◌, refl, sym, ◌∙◌, [], ◌∷◌, none, some,
  Bool, true, ite, arith, All, Option-cases, inl, inr, ◌⊎◌,
}
use go_kubegrpc.Base.Maps.{lookup, keys}
use go_kubegrpc.Base.Count.{count, absent}
use go_kubegrpc.Text.{Bytes}
use go_kubegrpc.Resolver.{Endpoint, Endpoints, Key, Key-discrete, key_of}
use go_kubegrpc.Pool.{Pool, PoolKey, PoolKey-discrete, add, remove}
use go_kubegrpc.Pool.Lookup.{endpoint_key, lookup-add_ne, lookup-add_self, lookup-remove}
use go_kubegrpc.Balancer.{BuildConfig, add_missing, remove_stale, pool_key}

-- Each endpoint stands under its own key.
abbrev pub IsKeyed : Endpoints → Type 0
IsKeyed = All (λ e. key_of e.1 ≡ e.0)

pool_key-injective : (cfg : BuildConfig) (j k : Key) → j ≢ k → pool_key cfg j ≢ pool_key cfg k
unfolding pool_key
pool_key-injective cfg j k h e = ground arith

module _ (grants : ℕ → Bytes → Bool) (cfg : BuildConfig) (current : Endpoints) where
  -- The pool after one round of the first loop.
  abbrev pub add_round : Key → Endpoint → Pool → Pool
  add_round j ep p = elim (lookup Key-discrete j current) [
    | some _ ↦ p
    | none ↦ (add grants cfg.namespace cfg.service ep p).0
  ]

  -- A round does not touch the other keys, nor a key that is already there.
  add_round_kept :
      (k j : Key) (ep : Endpoint) (p : Pool)
      → key_of ep ≡ j
      → (j ≢ k) ⊎ (lookup Key-discrete k current ≢ none)
      → lookup PoolKey-discrete (pool_key cfg k) (add_round j ep p).entries
        ≡ lookup PoolKey-discrete (pool_key cfg k) p.entries
  unfolding pool_key key_of
  add_round_kept k j ep p keyed h = elim (Option-cases (lookup Key-discrete j current)) [
    | inr (e, f) ↦ rw (f, add_round) refl
    | inl f ↦
        rw (f, add_round)
          (lookup-add_ne grants cfg.namespace cfg.service ep (pool_key cfg k) p (avoids f))
  ]
    where
      avoids :
          lookup Key-discrete j current ≡ none
          → endpoint_key cfg.namespace cfg.service ep ≢ pool_key cfg k
      avoids f e =
          let same : j ≡ k =
            sym keyed ∙ ap (λ (q : PoolKey). record { address = q.address; port = q.port }) e in
          elim h [
            | inl ne ↦ ne same
            | inr c ↦ c (ap (λ i. lookup Key-discrete i current) (sym same) ∙ f)
          ]

  -- A key that the first loop does not add keeps its entry.
  pub add_missing_kept :
      (k : Key) (desired : Endpoints) (p : Pool)
      → IsKeyed desired
      → (count Key-discrete k (keys desired) ≡ 0) ⊎ (lookup Key-discrete k current ≢ none)
      → lookup PoolKey-discrete (pool_key cfg k) (add_missing grants cfg current desired p).entries
        ≡ lookup PoolKey-discrete (pool_key cfg k) p.entries
  unfolding add_missing count
  add_missing_kept k [] p keyed h = refl
  add_missing_kept k ((j, ep) ∷ desired) p keyed h =
      add_missing_kept k desired (add_round j ep p) keyed.1 (ground arith)
      ∙ add_round_kept k j ep p keyed.0 (ground arith)

  -- A granted round adds its key and keeps every key that is there.
  add_round_present :
      ((n : ℕ) (addr : Bytes) → grants n addr ≡ true)
      → (k j : Key) (ep : Endpoint) (p : Pool) → key_of ep ≡ j
      → lookup Key-discrete k current ≡ none
      → (j ≡ k) ⊎ (lookup PoolKey-discrete (pool_key cfg k) p.entries ≢ none)
      → lookup PoolKey-discrete (pool_key cfg k) (add_round j ep p).entries ≢ none
  unfolding pool_key key_of
  add_round_present g k j ep p keyed c h = elim (Key-discrete j k) [
    | yes e ↦
        rw (ap (λ i. lookup Key-discrete i current) e ∙ c, add_round)
          (subst
            (λ key.
              lookup PoolKey-discrete key (add grants cfg.namespace cfg.service ep p).0.entries
              ≢ none)
            (ap (pool_key cfg) (keyed ∙ e))
            (lookup-add_self grants cfg.namespace cfg.service ep p g))
    | no ne ↦ subst (λ o. o ≢ none) (sym (add_round_kept k j ep p keyed (inl ne))) (ground arith)
  ]

  -- Where every Add is granted, the first loop adds the desired keys that the pool lacks.
  pub add_missing_present :
      ((n : ℕ) (addr : Bytes) → grants n addr ≡ true)
      → (k : Key) (desired : Endpoints) (p : Pool) → IsKeyed desired
      → lookup Key-discrete k current ≡ none
      → (1 ≤ count Key-discrete k (keys desired))
        ⊎ (lookup PoolKey-discrete (pool_key cfg k) p.entries ≢ none)
      → lookup PoolKey-discrete (pool_key cfg k) (add_missing grants cfg current desired p).entries
        ≢ none
  unfolding add_missing count
  add_missing_present g k [] p keyed c h = ground arith
  add_missing_present g k ((j, ep) ∷ desired) p keyed c h =
      add_missing_present g k desired (add_round j ep p) keyed.1 c (elim (Key-discrete j k) [
        | yes e ↦ inr (add_round_present g k j ep p keyed.0 c (inl e))
        | no ne ↦ elim h [
          | inl n ↦ inl (ground arith)
          | inr n ↦ inr (add_round_present g k j ep p keyed.0 c (inr n))
        ]
      ])

-- The pool after one round of the second loop.
abbrev remove_round : BuildConfig → Endpoints → Key → Endpoint → Pool → Pool
remove_round cfg desired j ep p = elim (lookup Key-discrete j desired) [
  | some _ ↦ p
  | none ↦ remove (pool_key cfg (key_of ep)) p
]

-- Whether the second loop meets a key that is not desired.
abbrev pub is_stale : Endpoints → Endpoints → Key → Bool
is_stale desired current k =
    ltb 0 (count Key-discrete k (keys current) * absent (lookup Key-discrete k desired))

lookup-remove_round :
    (cfg : BuildConfig) (desired : Endpoints) (k j : Key) (ep : Endpoint) (p : Pool)
    → key_of ep ≡ j
    → lookup PoolKey-discrete (pool_key cfg k) (remove_round cfg desired j ep p).entries
      ≡ elim (lookup Key-discrete j desired) [
        | some _ ↦ lookup PoolKey-discrete (pool_key cfg k) p.entries
        | none ↦ ite (Key-discrete j k) none (lookup PoolKey-discrete (pool_key cfg k) p.entries)
      ]
lookup-remove_round cfg desired k j ep p keyed =
    elim (Option-cases (lookup Key-discrete j desired)) [
      | inr (e, f) ↦ rw (f, remove_round) refl
      | inl f ↦
          rw (f, remove_round)
            (lookup-remove (pool_key cfg (key_of ep)) (pool_key cfg k) p
              ∙ rw keyed (ground (arith, pool_key-injective cfg j k)))
    ]

remove_stale_step :
    (cfg : BuildConfig) (desired : Endpoints) (k j : Key) (ep : Endpoint) (current : Endpoints)
    (p : Pool)
    → key_of ep ≡ j
    → (if is_stale desired current k
        then none
        else lookup PoolKey-discrete (pool_key cfg k) (remove_round cfg desired j ep p).entries)
      ≡ (if is_stale desired ((j, ep) ∷ current) k
          then none
          else lookup PoolKey-discrete (pool_key cfg k) p.entries)
unfolding count
remove_stale_step cfg desired k j ep current p keyed =
    ground (arith, lookup-remove_round cfg desired k j ep p keyed)

-- The second loop removes the keys that it meets and that are not desired, and no others.
pub lookup-remove_stale :
    (cfg : BuildConfig) (desired : Endpoints) (k : Key) (current : Endpoints) (p : Pool)
    → IsKeyed current
    → lookup PoolKey-discrete (pool_key cfg k) (remove_stale cfg desired current p).entries ≡ (
        if is_stale desired current k
        then none
        else lookup PoolKey-discrete (pool_key cfg k) p.entries)
unfolding remove_stale count
lookup-remove_stale cfg desired k [] p keyed = ground arith
lookup-remove_stale cfg desired k ((j, ep) ∷ current) p keyed =
    lookup-remove_stale cfg desired k current (remove_round cfg desired j ep p) keyed.1
    ∙ remove_stale_step cfg desired k j ep current p keyed.0
