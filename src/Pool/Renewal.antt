-- ===== src/Pool/Renewal.antt =====
-- What Add and Remove leave of the health of the entries in the map.
use go_kubegrpc.Base.{
  ℕ, ◌≤◌, ◌≡◌, ◌⊎◌, inl, inr, refl, ◌∙◌, some, Bool, arith, Option-cases, Bool-cases,
}
use go_kubegrpc.Base.Maps.{lookup, lookup-insert, lookup-delete}
use go_kubegrpc.Text.{Bytes}
use go_kubegrpc.Resolver.{Endpoint}
use go_kubegrpc.Pool.{
  Pool, PoolKey, PoolKey-discrete, Ref, unknown, write, evict, create_entry, add, remove, key_text,
  cancel_health_of,
}
use go_kubegrpc.Pool.Invariant.{IsPool, evict-IsPool}

-- An entry of the map was there before with its SubConn and health, or it is new: its SubConn too, and
-- its health is not known yet.
pub record Renews (p q : Pool) : Type 0 where
  pub later : p.calls ≤ q.calls
  pub entry :
      (k : PoolKey) (r : Ref)
      → lookup PoolKey-discrete k q.entries ≡ some r
      → ((lookup PoolKey-discrete k p.entries ≡ some r)
          × ((q.store r).health ≡ (p.store r).health)
          × ((q.store r).sub_conn ≡ (p.store r).sub_conn))
        ⊎ (((q.store r).health ≡ unknown) × (p.calls ≤ (q.store r).sub_conn))

pub Renews-refl : (p : Pool) → Renews p p
Renews-refl p = record { later = omega arith; entry = λ k r h. inl (h, refl, refl) }

pub Renews-trans : (p q s : Pool) → Renews p q → Renews q s → Renews p s
Renews-trans p q s h k = record {
  later = omega (arith, h.later, k.later);
  entry = λ j r e. elim (k.entry j r e) [
    | inr (u, n) ↦ inr (u, omega (arith, h.later, n))
    | inl (f, u, c) ↦ elim (h.entry j r f) [
      | inl (g, v, d) ↦ inl (g, u ∙ v, c ∙ d)
      | inr (v, n) ↦ inr (u ∙ v, omega (arith, n, c))
    ]
  ];
}

evict-Renews : (key : PoolKey) (p : Pool) → Renews p (evict key p)
unfolding evict cancel_health_of
evict-Renews key p = elim (Option-cases (lookup PoolKey-discrete key p.entries)) [
  | inl e ↦ rw (e, evict) (Renews-refl p)
  | inr (q, e) ↦ record {
    later = ground (arith, e);
    entry = λ k r h. inl (ground (arith, e, h, lookup-delete PoolKey-discrete key k p.entries));
  }
]

create_entry-Renews :
    (grants : ℕ → Bytes → Bool) (key : PoolKey) (p : Pool)
    → IsPool p
    → Renews p (create_entry grants key p).0
unfolding create_entry write
create_entry-Renews grants key p i = elim (Bool-cases (grants p.calls (key_text key))) [
  | inr e ↦ record { later = ground (arith, e); entry = λ k r h. inl (ground (arith, e, h)) }
  | inl e ↦ record {
    later = ground (arith, e);
    entry = λ k r h. elim (PoolKey-discrete key k) [
      | yes same ↦
          inr
            (ground (arith, e, h, same, lookup-insert PoolKey-discrete key k p.next_ref p.entries))
      | no ne ↦ inl (
          ground (
            arith,
            e,
            h,
            ne,
            lookup-insert PoolKey-discrete key k p.next_ref p.entries,
            i.owned k r,
          ))
    ];
  }
]

pub add-Renews :
    (grants : ℕ → Bytes → Bool) (namespace service : Bytes) (ep : Endpoint) (p : Pool)
    → IsPool p
    → Renews p (add grants namespace service ep p).0
unfolding add
add-Renews grants namespace service ep p i =
    Renews-trans p _ _ (evict-Renews _ p) (create_entry-Renews grants _ _ (evict-IsPool _ p i))

pub remove-Renews : (key : PoolKey) (p : Pool) → Renews p (remove key p)
unfolding remove cancel_health_of write
remove-Renews key p = elim (Option-cases (lookup PoolKey-discrete key p.entries)) [
  | inl e ↦ rw (e, remove) (Renews-refl p)
  | inr (q, e) ↦ record {
    later = ground (arith, e);
    entry = λ k r h. inl (ground (arith, e, h, lookup-delete PoolKey-discrete key k p.entries));
  }
]
