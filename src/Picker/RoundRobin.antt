-- ===== src/Picker/RoundRobin.antt =====
-- Round robin: single picks, and picks in a row.
use native.Mathlib.Nat.{mod-lt, mod-eq_of_lt, mod-add-mod, mod_self}
use go_kubegrpc.Base.{
  ℕ, zero, suc, ◌+◌, ◌%◌, ◌≤◌, ◌<◌, ◌≡◌, ◌≢◌, refl, sym, ap, subst, ◌∙◌, List, [], ◌∷◌, ◌++◌,
  Option, none, some, true, false, arith, length, get_elem?, take, drop, inl, inr, ℕ_discrete,
  take-append-drop, drop_at, take-append_le, take-append_add, drop-length, length-drop, ◌⊎◌, dec_lt,
}
use go_kubegrpc.Base.Result.{ok, err}
use go_kubegrpc.Base.Count.{count, count-append}
use go_kubegrpc.Text.{Bytes}
use go_kubegrpc.Pool.{Ref, is_member}
use go_kubegrpc.Picker.{
  Store, Tracker, RrPicker, address_of, is_tried, candidates, record_address, rr_pick, rr_advance,
  pick_at, word64,
}
use go_kubegrpc.Picker.Candidates.{
  candidates-healthy, candidates-fresh, candidates-ne-nil, get_elem?-is_member,
}

-- With a candidate the pick returns one of them.
rr_advance-total :
    (store : Store) (tracker : Tracker) (p : RrPicker) (cs : List Ref)
    → cs ≢ []
    → (r : Ref) × (is_member r cs ≡ true)
      × (rr_advance store tracker p cs
          ≡ ok (
            r,
            record p { counter = (p.counter + 1) % word64 },
            record_address (address_of store r) tracker,
          ))
unfolding rr_advance
rr_advance-total store tracker p [] h = absurd (h refl)
rr_advance-total store tracker p (c ∷ cs) h =
    let n : ℕ = (p.counter + 1) % word64 % length (c ∷ cs) in
    let (r, e, m) = get_elem?-is_member (c ∷ cs) n (mod-lt _ (omega arith)) in
    (r, m, rw (e, pick_at) refl)

rr_pick_ne_nil :
    (store : Store) (tracker : Tracker) (hs : List Ref) (c : ℕ)
    → hs ≢ []
    → let p : RrPicker = record { healthy = hs; counter = c } in
      rr_pick store tracker p ≡ rr_advance store tracker p (candidates store tracker hs)
unfolding rr_pick
rr_pick_ne_nil store tracker [] c h = absurd (h refl)
rr_pick_ne_nil store tracker (x ∷ xs) c h = refl

-- R5.1, R5.6, R7.3: with a healthy entry a pick succeeds, the counter is one more in uint64, the
-- address is recorded in the tracker, and the entry is a healthy one; it is an untried one if any
-- healthy entry is untried.
pub rr_pick-total :
    (store : Store) (tracker : Tracker) (p : RrPicker)
    → p.healthy ≢ []
    → (r : Ref) × (rr_pick store tracker p
        ≡ ok (
          r,
          record p { counter = (p.counter + 1) % word64 },
          record_address (address_of store r) tracker,
        ))
      × (is_member r p.healthy ≡ true)
      × ((tried : List Bytes) (q : Ref)
          → tracker ≡ some tried
          → is_member q p.healthy ≡ true
          → is_tried (address_of store q) tried ≡ false
          → is_tried (address_of store r) tried ≡ false)
rr_pick-total store tracker p h =
    let (r, m, picked) =
      rr_advance-total store tracker p (candidates store tracker p.healthy)
        (candidates-ne-nil store tracker p.healthy h) in
    (
      r,
      rr_pick_ne_nil store tracker p.healthy p.counter h ∙ picked,
      candidates-healthy store tracker p.healthy r m,
      λ tried q t mem fresh.
          candidates-fresh store tried p.healthy q r mem fresh
            (subst (λ s. is_member r (candidates store s p.healthy) ≡ true) t m),
    )

-- `n` picks in a row with no tracker; `none` if one of them fails.
unfoldable pub rr_run : Store → ℕ → RrPicker → Option (List Ref)
rr_run store zero p = some []
rr_run store (suc n) p = elim (rr_pick store none p) [
  | err _ ↦ none
  | ok (r, q, _) ↦ elim (rr_run store n q) [ none ↦ none | some rs ↦ some (r ∷ rs) ]
]

length_pos : (hs : List Ref) → hs ≢ [] → 0 < length hs
length_pos [] h = absurd (h refl)
length_pos (x ∷ xs) h = omega arith

rr_pick_at :
    (store : Store) (hs : List Ref) (c : ℕ)
    → hs ≢ []
    → c + 1 < word64
    → (r : Ref) × (rr_pick store none (record { healthy = hs; counter = c })
        ≡ ok (r, record { healthy = hs; counter = c + 1 }, none))
      × (get_elem? hs ((c + 1) % length hs) ≡ some r)
unfolding rr_advance candidates
rr_pick_at store hs c h small =
    let (r, e, m) =
      get_elem?-is_member hs ((c + 1) % length hs) (mod-lt (c + 1) (length_pos hs h)) in
    (
      r,
      rr_pick_ne_nil store none hs c h
          ∙ rw (mod-eq_of_lt small, e, pick_at, mod-eq_of_lt small) refl,
      e,
    )

-- One more than an index, in the round.
next_index :
    (n c k : ℕ)
    → 0 < n
    → c % n ≡ k
    → (suc k < n) × ((c + 1) % n ≡ suc k) ⊎ (suc k ≡ n) × ((c + 1) % n ≡ 0)
next_index n c k h e =
    let below : k < n = subst (λ m. m < n) e (mod-lt c h) in
    let step : (c + 1) % n ≡ (k + 1) % n = sym (mod-add-mod c n 1) ∙ ap (λ m. (m + 1) % n) e in
    elim (dec_lt (suc k) n) [
      | yes more ↦ inl (more, step ∙ mod-eq_of_lt (omega arith) ∙ omega arith)
      | no last ↦ inr (omega arith, step ∙ ap (λ m. m % n) (omega arith) ∙ mod_self n)
    ]

rr_run-take :
    (store : Store) (n : ℕ) (hs : List Ref) (c k : ℕ)
    → hs ≢ []
    → c + n < word64
    → (c + 1) % length hs ≡ k
    → n ≤ length hs
    → rr_run store n (record { healthy = hs; counter = c }) ≡ some (take n (drop k hs ++ hs))
unfolding rr_run
rr_run-take store zero hs c k h small at fits = refl
rr_run-take store (suc n) hs c k h small at fits =
    let (r, picked, here) = rr_pick_at store hs c h (omega arith) in
    let cut = drop_at k hs r (subst (λ i. get_elem? hs i ≡ some r) at here) in
    let later : rr_run store n (record { healthy = hs; counter = c + 1 })
        ≡ some (take n (drop (suc k) hs ++ hs)) =
      elim (next_index (length hs) (c + 1) k (length_pos hs h) at) [
        | inl (more, e) ↦ rr_run-take store n hs (c + 1) (suc k) h (omega arith) e (omega arith)
        | inr (last, e) ↦
            rr_run-take store n hs (c + 1) 0 h (omega arith) e (omega arith)
            ∙ ap some (
                take-append_le n hs hs (omega arith)
                ∙ ap (λ d. take n (d ++ hs))
                    (sym (subst (λ j. drop j hs ≡ []) (sym last) (drop-length hs))))
      ] in
    rw (picked, rr_run, later, cut) refl

-- P3, R5.4: with no tracker and below the wrap-around of the counter, as many picks as there are
-- healthy entries all succeed, and pick each entry as often as it stands among the healthy ones.
pub rr_run_distribution :
    (store : Store) (p : RrPicker) (r : Ref)
    → p.healthy ≢ []
    → p.counter + length p.healthy < word64
    → (rs : List Ref) × (rr_run store (length p.healthy) p ≡ some rs)
      × (count ℕ_discrete r rs ≡ count ℕ_discrete r p.healthy)
rr_run_distribution store p r h small =
    let hs = p.healthy in
    let k : ℕ = (p.counter + 1) % length hs in
    let below : k < length hs = mod-lt (p.counter + 1) (length_pos hs h) in
    (
      drop k hs ++ take k hs,
      rr_run-take store (length hs) hs p.counter k h small refl (omega arith)
          ∙ ap some
              (take-append_add (length hs) k (drop k hs) hs (omega (arith, length-drop k hs))),
      omega (
        arith,
        count-append ℕ_discrete r (drop k hs) (take k hs),
        count-append ℕ_discrete r (take k hs) (drop k hs),
        ap (count ℕ_discrete r) (take-append-drop k hs),
      ),
    )
