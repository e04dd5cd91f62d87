-- ===== src/Sort.antt =====
-- sort.Slice by a text of each element, and sort.Strings, as insertion sort. The order of elements
-- with the same text, which sort.Slice leaves open, is that of the input.
use mathlib.Core.List.{Perm, Permᴰ}
use mathlib.Core.List.Perm
use mathlib.Core.Logic.{∥∥₁_elim}
use mathlib.Core.Path.{ap₂}
use go_kubegrpc.Base.{
  ◌≡◌, refl, ap, ◌∙◌, List, [], ◌∷◌, arith, map, if◌then◌else◌, Bool-cases, inl, inr, suc, length,
}
use go_kubegrpc.Text.{Bytes}
use go_kubegrpc.Text.Order.{
  text_ltb, TextLe, text_ltb_trans, text_ltb_asymm, TextLe-trans, TextLe-antisymm,
}

module _ {ℓ} {A : Type ℓ} (text : A → Bytes) where
  insert_sorted : A → List A → List A
  insert_sorted x [] = x ∷ []
  insert_sorted x (y ∷ ys) =
      if text_ltb (text y) (text x) then y ∷ insert_sorted x ys else x ∷ y ∷ ys

  unfoldable pub sort_by : List A → List A
  unfolding insert_sorted
  sort_by [] = []
  sort_by (x ∷ xs) = insert_sorted x (sort_by xs)

  insert_sorted-perm : (x : A) (l : List A) → Perm (insert_sorted x l) (x ∷ l)
  unfolding insert_sorted
  insert_sorted-perm x [] = Perm.rfl
  insert_sorted-perm x (y ∷ ys) = elim (Bool-cases (text_ltb (text y) (text x))) [
    | inl e ↦
        rw (e, insert_sorted)
          (Perm.trans (Perm.cons y (insert_sorted-perm x ys)) (Perm.swap x y ys))
    | inr e ↦ rw (e, insert_sorted) Perm.rfl
  ]

  -- A sorted list holds what the list held.
  pub sort_by-perm : (l : List A) → Perm (sort_by l) l
  unfolding sort_by
  sort_by-perm [] = Perm.rfl
  sort_by-perm (x ∷ xs) =
      Perm.trans (insert_sorted-perm x (sort_by xs)) (Perm.cons x (sort_by-perm xs))

  insert_sorted-length : (x : A) (l : List A) → length (insert_sorted x l) ≡ suc (length l)
  unfolding insert_sorted
  insert_sorted-length x [] = refl
  insert_sorted-length x (y ∷ ys) = ground (arith, insert_sorted-length x ys)

  pub length-sort_by : (l : List A) → length (sort_by l) ≡ length l
  unfolding sort_by
  length-sort_by [] = refl
  length-sort_by (x ∷ xs) = omega (arith, insert_sorted-length x (sort_by xs), length-sort_by xs)

  -- Each text is at most the next one.
  abbrev pub SortedFrom : Bytes → List A → Type 0
  SortedFrom t [] = Unit
  SortedFrom t (x ∷ xs) = TextLe t (text x) × SortedFrom (text x) xs

  abbrev pub IsSorted : List A → Type 0
  IsSorted [] = Unit
  IsSorted (x ∷ xs) = SortedFrom (text x) xs

  insert_sorted-SortedFrom :
      (t : Bytes) (x : A) (l : List A)
      → TextLe t (text x)
      → SortedFrom t l
      → SortedFrom t (insert_sorted x l)
  unfolding insert_sorted
  insert_sorted-SortedFrom t x [] h s = (h, tt)
  insert_sorted-SortedFrom t x (y ∷ ys) h s =
      ground (arith, insert_sorted-SortedFrom (text y) x ys, text_ltb_asymm (text y) (text x))

  insert_sorted-IsSorted : (x : A) (l : List A) → IsSorted l → IsSorted (insert_sorted x l)
  unfolding insert_sorted
  insert_sorted-IsSorted x [] s = tt
  insert_sorted-IsSorted x (y ∷ ys) s =
      ground (arith, insert_sorted-SortedFrom (text y) x ys, text_ltb_asymm (text y) (text x))

  pub sort_by-IsSorted : (l : List A) → IsSorted (sort_by l)
  unfolding sort_by
  sort_by-IsSorted [] = tt
  sort_by-IsSorted (x ∷ xs) = insert_sorted-IsSorted x (sort_by xs) (sort_by-IsSorted xs)

-- sort.Strings.
abbrev pub sort_texts : List Bytes → List Bytes
sort_texts = sort_by (λ t. t)

map-insert_sorted {ℓ} :
    {A : Type ℓ} (text : A → Bytes) (x : A) (l : List A)
    → map text (insert_sorted text x l) ≡ insert_sorted (λ t. t) (text x) (map text l)
unfolding insert_sorted
map-insert_sorted text x [] = refl
map-insert_sorted text x (y ∷ ys) = ground (arith, map-insert_sorted text x ys)

-- The texts of a sorted list are the sorted texts.
pub map-sort_by {ℓ} :
    {A : Type ℓ} (text : A → Bytes) (l : List A)
    → map text (sort_by text l) ≡ sort_texts (map text l)
unfolding sort_by
map-sort_by text [] = refl
map-sort_by text (x ∷ xs) =
    map-insert_sorted text x (sort_by text xs)
    ∙ ap (insert_sorted (λ t. t) (text x)) (map-sort_by text xs)

insert_sorted_comm :
    (a b : Bytes) (l : List Bytes)
    → insert_sorted (λ t. t) a (insert_sorted (λ t. t) b l)
      ≡ insert_sorted (λ t. t) b (insert_sorted (λ t. t) a l)
unfolding insert_sorted
insert_sorted_comm a b [] = ground (arith, text_ltb_asymm a b, TextLe-antisymm a b)
insert_sorted_comm a b (y ∷ ys) = ground (
  arith,
  insert_sorted_comm a b ys,
  text_ltb_asymm a b,
  TextLe-antisymm a b,
  TextLe-trans a b y,
  TextLe-trans b a y,
  text_ltb_trans y a b,
  text_ltb_trans y b a,
)

sort_texts-Permᴰ : {xs ys : List Bytes} → Permᴰ xs ys → sort_texts xs ≡ sort_texts ys
unfolding sort_by
sort_texts-Permᴰ Permᴰ.nil = refl
sort_texts-Permᴰ (Permᴰ.cons e p) = ap₂ (insert_sorted (λ t. t)) e (sort_texts-Permᴰ p)
sort_texts-Permᴰ (Permᴰ.swap {a = a} {b = b} {l = l} e f) =
    insert_sorted_comm a b (sort_texts l)
    ∙ ap₂ (λ s t. insert_sorted (λ u. u) s (insert_sorted (λ u. u) t (sort_texts l))) f e
sort_texts-Permᴰ (Permᴰ.trans p q) = sort_texts-Permᴰ p ∙ sort_texts-Permᴰ q

texts_set : IsSet (List Bytes)
texts_set = hlevel

-- The sorted texts do not depend on the order of the input.
pub sort_texts-perm : (xs ys : List Bytes) → Perm xs ys → sort_texts xs ≡ sort_texts ys
sort_texts-perm xs ys h = ∥∥₁_elim h (texts_set _ _) sort_texts-Permᴰ
