-- ===== src/Base/Count.antt =====
-- How often a key stands in a list: what is left of a list when its order is forgotten.
use Prim.Native.Nat.{ℕ, suc, ◌+◌}
use mathlib.Core.List.{Perm, Permᴰ}
use mathlib.Core.List.Perm
use mathlib.Core.Logic.{∥∥₁_elim}
use native.Mathlib.Nat.{ℕ_set}
use go_kubegrpc.Base.{◌≡◌, refl, ◌∙◌, ite, List, [], ◌∷◌, ◌++◌, Option, none, some, arith}
use go_kubegrpc.Base.Maps.{lookup, keys, Distinct, MapOrder}

-- Whether a lookup found its key, as a number.
abbrev pub present {ℓ} : {A : Type ℓ} → Option A → ℕ
present none = 0
present (some a) = 1

abbrev pub absent {ℓ} : {A : Type ℓ} → Option A → ℕ
absent none = 1
absent (some a) = 0

module _ {ℓ} {K : Type ℓ} (dec : Discrete K) where
  unfoldable pub count : K → List K → ℕ
  count k [] = 0
  count k (x ∷ xs) = ite (dec x k) (suc (count k xs)) (count k xs)

  count-Permᴰ : (k : K) {xs ys : List K} → Permᴰ xs ys → count k xs ≡ count k ys
  unfolding count
  count-Permᴰ k Permᴰ.nil = refl
  count-Permᴰ k (Permᴰ.cons e p) = ground (arith, count-Permᴰ k p)
  count-Permᴰ k (Permᴰ.swap e f) = ground arith
  count-Permᴰ k (Permᴰ.trans p q) = count-Permᴰ k p ∙ count-Permᴰ k q

  pub count-perm : (k : K) (xs ys : List K) → Perm xs ys → count k xs ≡ count k ys
  count-perm k xs ys h = ∥∥₁_elim h (ℕ_set _ _) (count-Permᴰ k)

  pub count-append : (k : K) (xs ys : List K) → count k (xs ++ ys) ≡ count k xs + count k ys
  unfolding count
  count-append k [] ys = omega arith
  count-append k (x ∷ xs) ys = ground (arith, count-append k xs ys)

-- In a map a key stands once or not at all.
pub count-keys :
    {K V : Type 0} (dec : Discrete K) (k : K) (m : List (K × V))
    → Distinct dec m
    → count dec k (keys m) ≡ present (lookup dec k m)
unfolding count lookup
count-keys dec k [] h = refl
count-keys dec k ((j, v) ∷ m) h = ground (arith, count-keys dec k m h.1)

-- A loop over a map meets each of its keys once, in whatever order.
pub count-visit :
    {K V : Type 0} (dec : Discrete K) (order : MapOrder) (loop : ℕ) (k : K) (m : List (K × V))
    → Distinct dec m
    → count dec k (keys (order.visit (K × V) loop m)) ≡ present (lookup dec k m)
count-visit {K} {V} dec order loop k m h =
    count-perm dec k _ _ (Perm.map (λ e. e.0) (order.visit-perm (K × V) loop m))
    ∙ count-keys dec k m h
