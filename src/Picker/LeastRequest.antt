-- ===== src/Picker/LeastRequest.antt =====
-- Least request: which candidate a pick takes, and what Done does to the counts.
use mathlib.Core.List.{cons-ne-nil}
use go_kubegrpc.Base.{
  suc, ◌≤◌, ◌<◌, ◌≡◌, ◌≢◌, refl, sym, ap, subst, ◌∙◌, List, [], ◌∷◌, none, some, true, false, arith,
  Bool-cases, inl, inr, ◌⊎◌, List-cases,
}
use go_kubegrpc.Base.Int.{pos_part, neg_part, max_int64, ◌≤ℤ◌, add_one, sub_one-add_one}
use go_kubegrpc.Base.Result.{ok}
use go_kubegrpc.Text.{Bytes}
use go_kubegrpc.Text.Order.{TextLe, text_ltb_irrefl, text_ltb_trans}
use go_kubegrpc.Pool.{Ref, is_member, write}
use go_kubegrpc.Picker.{
  Store, Tracker, address_of, is_tried, candidates, record_address, precedes, choose, lr_pick,
  lr_done,
}
use go_kubegrpc.Picker.Candidates.{candidates-healthy, candidates-fresh, candidates-ne-nil}

precedes_irrefl : (store : Store) (r : Ref) → precedes store r r ≡ false
unfolding precedes
precedes_irrefl store r = ground (arith, text_ltb_irrefl (address_of store r))

-- What does not precede an entry does not precede one that is better.
precedes_better :
    (store : Store) (s q b : Ref)
    → precedes store q b ≡ true
    → precedes store s b ≡ false
    → precedes store s q ≡ false
unfolding precedes
precedes_better store s q b h k =
    ground (arith, text_ltb_trans (address_of store s) (address_of store q) (address_of store b))

abbrev IsLeast : Store → Ref → List Ref → Type 0
IsLeast store r cs = (q : Ref) → is_member q cs ≡ true → precedes store q r ≡ false

choose-IsLeast :
    (store : Store) (b : Ref) (seen cs : List Ref)
    → is_member b seen ≡ true
    → IsLeast store b seen
    → (r : Ref) × (choose store (some b) cs ≡ some r)
      × ((is_member r seen ≡ true) ⊎ (is_member r cs ≡ true))
      × IsLeast store r seen
      × IsLeast store r cs
unfolding choose is_member
choose-IsLeast store b seen [] m least = (b, refl, inl m, least, λ q h. ground arith)
choose-IsLeast store b seen (q ∷ cs) m least = elim (Bool-cases (precedes store q b)) [
  | inl better ↦
      let (r, e, here, ls, lc) = choose-IsLeast store q (q ∷ seen) cs (ground arith) (λ s h.
        ground (arith, precedes_irrefl store q, precedes_better store s q b better, least s)) in
      (
        r,
        rw (better, choose) e,
        ground arith,
        λ s h. ls s (ground arith),
        λ s h. ground (arith, ls s, lc s),
      )
  | inr worse ↦
      let (r, e, here, ls, lc) =
        choose-IsLeast store b (q ∷ seen) cs (ground arith) (λ s h. ground (arith, least s)) in
      (
        r,
        rw (worse, choose) e,
        ground arith,
        λ s h. ls s (ground arith),
        λ s h. ground (arith, ls s, lc s),
      )
]

-- With a candidate the loop ends with one of them that no other precedes.
choose_total :
    (store : Store) (cs : List Ref)
    → cs ≢ []
    → (r : Ref) × (choose store none cs ≡ some r) × (is_member r cs ≡ true) × IsLeast store r cs
unfolding choose is_member
choose_total store [] h = absurd (h refl)
choose_total store (c ∷ cs) h =
    let (r, e, here, ls, lc) =
      choose-IsLeast store c (c ∷ []) cs (ground arith)
        (λ q k. ground (arith, precedes_irrefl store c)) in
    (r, e, ground arith, λ q k. ground (arith, ls q, lc q))

-- The pick and the store after it, for the entry that the loop chose.
lr_pick_chosen :
    (store : Store) (tracker : Tracker) (healthy : List Ref) (r : Ref)
    → healthy ≢ []
    → choose store none (candidates store tracker healthy) ≡ some r
    → lr_pick store tracker healthy
      ≡ ok (
        r,
        write r (record (store r) { in_flight = add_one (store r).in_flight }) store,
        record_address (address_of store r) tracker,
      )
unfolding lr_pick
lr_pick_chosen store tracker [] r h e = absurd (h refl)
lr_pick_chosen store tracker (x ∷ xs) r h e = rw (e, lr_pick) refl

least_order :
    (store : Store) (q r : Ref)
    → precedes store q r ≡ false
    → ((store r).in_flight ≤ℤ (store q).in_flight)
      × ((store q).in_flight ≡ (store r).in_flight
          → TextLe (address_of store r) (address_of store q))
unfolding precedes
least_order store q r h = (ground arith, λ e. ground arith)

-- P7, R5.5, R7.3: with a healthy entry a pick succeeds; it takes a candidate whose in-flight count is
-- least, and among those the one whose address is first in Go's order on strings; it adds one to
-- that entry's count, changes nothing else in the store, and records the address. The entry is a
-- healthy one, and an untried one if any healthy entry is untried.
pub lr_pick-least :
    (store : Store) (tracker : Tracker) (healthy : List Ref)
    → healthy ≢ []
    → (r : Ref) × (lr_pick store tracker healthy
        ≡ ok (
          r,
          write r (record (store r) { in_flight = add_one (store r).in_flight }) store,
          record_address (address_of store r) tracker,
        ))
      × (is_member r healthy ≡ true)
      × ((q : Ref)
          → is_member q (candidates store tracker healthy) ≡ true
          → ((store r).in_flight ≤ℤ (store q).in_flight)
            × ((store q).in_flight ≡ (store r).in_flight
                → TextLe (address_of store r) (address_of store q)))
      × ((tried : List Bytes) (q : Ref)
          → tracker ≡ some tried
          → is_member q healthy ≡ true
          → is_tried (address_of store q) tried ≡ false
          → is_tried (address_of store r) tried ≡ false)
lr_pick-least store tracker healthy h =
    let (r, e, m, least) =
      choose_total store (candidates store tracker healthy)
        (candidates-ne-nil store tracker healthy h) in
    (
      r,
      lr_pick_chosen store tracker healthy r h e,
      candidates-healthy store tracker healthy r m,
      λ q k. least_order store q r (least q k),
      λ tried q t mem fresh.
          candidates-fresh store tried healthy q r mem fresh
            (subst (λ s. is_member r (candidates store s healthy) ≡ true) t m),
    )

-- The store in which the count of an entry is incremented.
abbrev pub counted : Store → Ref → Store
counted store r = write r (record (store r) { in_flight = add_one (store r).in_flight }) store

lr_done-counted :
    (store : Store) (r q : Ref)
    → pos_part (store r).in_flight < max_int64
    → neg_part (store r).in_flight ≤ suc max_int64
    → lr_done r (counted store r) q ≡ store q
unfolding lr_done
lr_done-counted store r q low high = ground (arith, sub_one-add_one (store r).in_flight low high)

-- A pick that succeeds counts an RPC of one of the healthy entries.
pub lr_pick-counted :
    (store after : Store) (tracker later : Tracker) (healthy : List Ref) (r : Ref)
    → lr_pick store tracker healthy ≡ ok (r, after, later)
    → (after ≡ counted store r) × (is_member r healthy ≡ true)
lr_pick-counted store after tracker later healthy r h = elim (List-cases healthy) [
  | inl e ↦ absurd (unfold lr_pick in ground arith)
  | inr (x, xs, e) ↦
      let some_healthy : healthy ≢ [] = λ k. cons-ne-nil x xs (sym e ∙ k) in
      let (c, picked, m, least, fresh) = lr_pick-least store tracker healthy some_healthy in
      let same : c ≡ r = cc (picked, h) in
      let final : counted store c ≡ after = cc (picked, h) in
      (sym final ∙ ap (counted store) same, subst (λ q. is_member q healthy ≡ true) same m)
]

-- R5.5: the Done callback of a pick restores the whole store, if the count was within int64 and below
-- its largest value and nothing was written in between.
lr_done-lr_pick :
    (store after : Store) (tracker later : Tracker) (healthy : List Ref) (r q : Ref)
    → pos_part (store r).in_flight < max_int64
    → neg_part (store r).in_flight ≤ suc max_int64
    → lr_pick store tracker healthy ≡ ok (r, after, later)
    → lr_done r after q ≡ store q
lr_done-lr_pick store after tracker later healthy r q low high h =
    subst (λ s. lr_done r s q ≡ store q)
      (sym (lr_pick-counted store after tracker later healthy r h).0)
      (lr_done-counted store r q low high)
