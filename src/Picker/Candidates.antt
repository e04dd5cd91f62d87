-- ===== src/Picker/Candidates.antt =====
-- Which entries a pick may choose from.
use mathlib.Core.List.{cons-ne-nil}
use go_kubegrpc.Base.{
  ℕ, ◌<◌, ◌≡◌, ◌≢◌, refl, List, [], ◌∷◌, none, some, true, false, arith, length, inl, inr,
  get_elem?, sym, ◌∙◌, subst, zero, suc, ◌⊎◌,
}
use go_kubegrpc.Text.{Bytes}
use go_kubegrpc.Pool.{Ref, is_member}
use go_kubegrpc.Picker.{Store, Tracker, address_of, is_tried, untried, or_all, candidates}

pub untried-fresh :
    (store : Store) (tried : List Bytes) (rs : List Ref) (r : Ref)
    → is_member r (untried store tried rs) ≡ true
    → (is_member r rs ≡ true) × (is_tried (address_of store r) tried ≡ false)
unfolding untried is_member
untried-fresh store tried [] r h = ground arith
untried-fresh store tried (q ∷ rs) r h = ground (arith, untried-fresh store tried rs r)

pub untried-ne-nil :
    (store : Store) (tried : List Bytes) (rs : List Ref) (r : Ref)
    → is_member r rs ≡ true
    → is_tried (address_of store r) tried ≡ false
    → untried store tried rs ≢ []
unfolding untried is_member
untried-ne-nil store tried [] r h k = ground arith
untried-ne-nil store tried (q ∷ rs) r h k = ground (arith, untried-ne-nil store tried rs r)

or_all_cases :
    (us healthy : List Ref)
    → ((us ≡ []) × (or_all us healthy ≡ healthy)) ⊎ ((us ≢ []) × (or_all us healthy ≡ us))
unfolding or_all
or_all_cases [] healthy = inl (refl, refl)
or_all_cases (r ∷ rs) healthy = inr (cons-ne-nil r rs, refl)

-- Every candidate is one of the healthy entries.
pub candidates-healthy :
    (store : Store) (tracker : Tracker) (healthy : List Ref) (r : Ref)
    → is_member r (candidates store tracker healthy) ≡ true
    → is_member r healthy ≡ true
unfolding candidates
candidates-healthy store none healthy r h = h
candidates-healthy store (some []) healthy r h = h
candidates-healthy store (some (t ∷ tried)) healthy r h =
    elim (or_all_cases (untried store (t ∷ tried) healthy) healthy) [
      | inl (_, e) ↦ subst (λ l. is_member r l ≡ true) e h
      | inr (_, e) ↦
          (untried-fresh store (t ∷ tried) healthy r (subst (λ l. is_member r l ≡ true) e h)).0
    ]

-- While a healthy entry is untried, every candidate is.
pub candidates-fresh :
    (store : Store) (tried : List Bytes) (healthy : List Ref) (q r : Ref)
    → is_member q healthy ≡ true
    → is_tried (address_of store q) tried ≡ false
    → is_member r (candidates store (some tried) healthy) ≡ true
    → is_tried (address_of store r) tried ≡ false
unfolding candidates
candidates-fresh store [] healthy q r m u h = unfold is_tried in refl
candidates-fresh store (t ∷ tried) healthy q r m u h =
    elim (or_all_cases (untried store (t ∷ tried) healthy) healthy) [
      | inl (e, _) ↦ absurd (untried-ne-nil store (t ∷ tried) healthy q m u e)
      | inr (_, e) ↦
          (untried-fresh store (t ∷ tried) healthy r (subst (λ l. is_member r l ≡ true) e h)).1
    ]

pub candidates-ne-nil :
    (store : Store) (tracker : Tracker) (healthy : List Ref)
    → healthy ≢ []
    → candidates store tracker healthy ≢ []
unfolding candidates
candidates-ne-nil store none healthy h = h
candidates-ne-nil store (some []) healthy h = h
candidates-ne-nil store (some (t ∷ tried)) healthy h =
    elim (or_all_cases (untried store (t ∷ tried) healthy) healthy) [
      | inl (_, e) ↦ λ k. h (sym e ∙ k)
      | inr (n, e) ↦ λ k. n (sym e ∙ k)
    ]

-- An index below the length is that of a member.
pub get_elem?-is_member :
    (rs : List Ref) (i : ℕ)
    → i < length rs
    → (r : Ref) × (get_elem? rs i ≡ some r) × (is_member r rs ≡ true)
unfolding is_member
get_elem?-is_member [] i h = absurd (omega arith)
get_elem?-is_member (q ∷ rs) zero h = (q, refl, ground arith)
get_elem?-is_member (q ∷ rs) (suc i) h =
    let (r, e, m) = get_elem?-is_member rs i (omega arith) in (r, e, ground arith)
