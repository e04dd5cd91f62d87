-- ===== src/Picker/Failover.antt =====
-- The picks of the attempts of one RPC, over the healthy entries, with the tracker that the
-- interceptor puts into the context.
use go_kubegrpc.Base.{
  ℕ, suc, ◌+◌, ◌≤◌, ◌<◌, ◌≡◌, ◌≢◌, refl, sym, ap, ◌∙◌, List, [], ◌∷◌, ◌++◌, Option, none, some,
  true, false, All, arith, length, length-append, length-map, append-nil, append_assoc, subst, map,
  ite, Bool-cases, inl, inr, ◌⊎◌,
}
use go_kubegrpc.Base.Result.{ok, err}
use go_kubegrpc.Text.{Bytes, Bytes-discrete}
use go_kubegrpc.Pool.{Ref, is_member}
use go_kubegrpc.Picker.{Store, Tracker, address_of, is_tried, record_address, RrPicker, rr_pick}
use go_kubegrpc.Picker.RoundRobin.{rr_pick-total}

-- No address stands twice.
abbrev pub AreDistinct : List Bytes → Type 0
AreDistinct [] = Unit
AreDistinct (a ∷ rest) = (is_tried a rest ≡ false) × AreDistinct rest

-- A list without the first place of an address.
unfoldable without : Bytes → List Bytes → List Bytes
without a [] = []
without a (t ∷ ts) = ite (Bytes-discrete a t) ts (t ∷ without a ts)

length-without :
    (a : Bytes) (ts : List Bytes) → is_tried a ts ≡ true → length ts ≡ suc (length (without a ts))
unfolding is_tried without
length-without a [] h = ground arith
length-without a (t ∷ ts) h = ground (arith, length-without a ts)

is_tried-without :
    (a b : Bytes) (ts : List Bytes)
    → is_tried b ts ≡ true
    → a ≢ b
    → is_tried b (without a ts) ≡ true
unfolding is_tried without
is_tried-without a b [] h k = ground arith
is_tried-without a b (t ∷ ts) h k = ground (arith, k, is_tried-without a b ts)

true_ne_false : true ≢ false
true_ne_false h = ground arith

is_tried-ne :
    (a b : Bytes) (rest : List Bytes) → is_tried a rest ≡ false → is_tried b rest ≡ true → a ≢ b
is_tried-ne a b rest h k e = true_ne_false (sym k ∙ ap (λ x. is_tried x rest) (sym e) ∙ h)

All-without :
    (a : Bytes) (rest ts : List Bytes)
    → is_tried a rest ≡ false
    → All (λ b. is_tried b ts ≡ true) rest
    → All (λ b. is_tried b (without a ts) ≡ true) rest
unfolding is_tried
All-without a [] ts d h = tt
All-without a (b ∷ rest) ts d h = (
  is_tried-without a b ts h.0 (λ e. ground (arith, d, e)),
  All-without a rest ts (ground (arith, d)) h.1,
)

-- Distinct addresses that all stand in a list are not more than its elements.
pub length-AreDistinct :
    (addrs ts : List Bytes)
    → AreDistinct addrs
    → All (λ a. is_tried a ts ≡ true) addrs
    → length addrs ≤ length ts
length-AreDistinct [] ts d h = omega arith
length-AreDistinct (a ∷ rest) ts d h =
    let shorter = length-AreDistinct rest (without a ts) d.1 (All-without a rest ts d.0 h.1) in
    omega (arith, shorter, length-without a ts h.0)

-- An entry whose address was not tried, or all addresses were.
find_untried :
    (store : Store) (tried : List Bytes) (healthy : List Ref)
    → ((q : Ref) × (is_member q healthy ≡ true) × (is_tried (address_of store q) tried ≡ false))
      ⊎ All (λ a. is_tried a tried ≡ true) (map (address_of store) healthy)
unfolding is_member
find_untried store tried [] = inr tt
find_untried store tried (r ∷ rs) = elim (Bool-cases (is_tried (address_of store r) tried)) [
  | inr e ↦ inl (r, ground arith, e)
  | inl e ↦ elim (find_untried store tried rs) [
    | inl (q, m, f) ↦ inl (q, ground (arith, m), f)
    | inr all ↦ inr (e, all)
  ]
]

is_tried-snoc :
    (t a : Bytes) (tried : List Bytes)
    → is_tried t tried ≡ false
    → t ≢ a
    → is_tried t (tried ++ a ∷ []) ≡ false
unfolding is_tried
is_tried-snoc t a [] h k = ground (arith, k)
is_tried-snoc t a (u ∷ tried) h k = ground (arith, h, k, is_tried-snoc t a tried)

pub AreDistinct-snoc :
    (tried : List Bytes) (a : Bytes)
    → AreDistinct tried
    → is_tried a tried ≡ false
    → AreDistinct (tried ++ a ∷ [])
unfolding is_tried
AreDistinct-snoc [] a d h = (refl, tt)
AreDistinct-snoc (t ∷ tried) a d h = (
  is_tried-snoc t a tried d.0 (λ e. ground (arith, h, e)),
  AreDistinct-snoc tried a d.1 (ground (arith, h)),
)

-- The picks of one RPC's attempts over some entries, each at the counter that the picker has then,
-- with the tracker handed on; `none` if one of them fails.
unfoldable pub failover : Store → List Ref → List ℕ → Tracker → Option (List Ref × Tracker)
failover store healthy [] tracker = some ([], tracker)
failover store healthy (c ∷ cs) tracker =
    elim (rr_pick store tracker (record { healthy = healthy; counter = c })) [
      | err _ ↦ none
      | ok (r, _, after) ↦ elim (failover store healthy cs after) [
        | none ↦ none
        | some (rs, end) ↦ some (r ∷ rs, end)
      ]
    ]

module _ (store : Store) (healthy : List Ref)
    (distinct : AreDistinct (map (address_of store) healthy)) where
  -- A pick while fewer addresses were tried than there are.
  pub rr_pick-fresh :
      (tried : List Bytes) (c : ℕ)
      → length tried < length healthy
      → (r : Ref) × (p : RrPicker) × (rr_pick store
            (some tried)
            (record { healthy = healthy; counter = c })
          ≡ ok (r, p, some (tried ++ address_of store r ∷ [])))
        × (is_member r healthy ≡ true)
        × (is_tried (address_of store r) tried ≡ false)
  unfolding record_address
  rr_pick-fresh tried c fewer =
      let (r, picked, member, fresh) =
        rr_pick-total store (some tried) (record { healthy = healthy; counter = c })
          (λ e. ground (arith, fewer, e)) in
      elim (find_untried store tried healthy) [
        | inl (q, m, u) ↦ (r, _, picked, member, fresh tried q refl m u)
        | inr all ↦
            let few = length-AreDistinct (map (address_of store) healthy) tried distinct all in
            absurd (omega (arith, few, fewer, length-map (address_of store) healthy))
      ]

  failover-total :
      (cs : List ℕ) (tried : List Bytes)
      → length tried + length cs ≤ length healthy
      → AreDistinct tried
      → (rs : List Ref) × (failover store healthy cs (some tried)
          ≡ some (rs, some (tried ++ map (address_of store) rs)))
        × (length rs ≡ length cs)
        × AreDistinct (tried ++ map (address_of store) rs)
        × All (λ r. is_member r healthy ≡ true) rs
  unfolding failover
  failover-total [] tried fits d = (
    [],
    ap (λ l. some ([], some l)) (sym (append-nil tried)),
    refl,
    subst AreDistinct (sym (append-nil tried)) d,
    tt,
  )
  failover-total (c ∷ cs) tried fits d =
      let (r, p, picked, member, fresh) = rr_pick-fresh tried c (omega (arith, fits)) in
      let addr = address_of store r in
      let (rs, run, len, apart, members) =
        failover-total cs (tried ++ addr ∷ [])
          (omega (arith, fits, length-append tried (addr ∷ [])))
          (AreDistinct-snoc tried addr d fresh) in
      let joined = append_assoc tried (addr ∷ []) (map (address_of store) rs) in
      (
        r ∷ rs,
        rw (failover, picked, run) (ap (λ l. some (r ∷ rs, some l)) joined),
        omega (arith, len),
        subst AreDistinct joined apart,
        (member, members),
      )

-- R7.3: an RPC whose attempts are not more than the healthy entries, whose addresses differ, gets an
-- entry in each attempt, a healthy one and each time another address, whatever the other RPCs do to
-- the counter of the round-robin picker in between; the tracker then has these addresses in order.
pub failover_distinct :
    (store : Store) (healthy : List Ref) (cs : List ℕ)
    → AreDistinct (map (address_of store) healthy)
    → length cs ≤ length healthy
    → (rs : List Ref) × (failover store healthy cs (some [])
        ≡ some (rs, some (map (address_of store) rs)))
      × (length rs ≡ length cs)
      × AreDistinct (map (address_of store) rs)
      × All (λ r. is_member r healthy ≡ true) rs
failover_distinct store healthy cs distinct fits =
    failover-total store healthy distinct cs [] (omega (arith, fits)) tt
