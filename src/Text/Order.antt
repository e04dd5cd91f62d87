-- ===== src/Text/Order.antt =====
-- Go's order on strings: byte by byte, a proper prefix first.
use go_kubegrpc.Base.{◌≡◌, refl, [], ◌∷◌, Bool, true, false, arith, ltb, ◌==◌, ◌||◌, ◌&&◌}
use go_kubegrpc.Text.{Bytes}

-- `s < t` on strings.
unfoldable pub text_ltb : Bytes → Bytes → Bool
text_ltb s [] = false
text_ltb [] (d ∷ t) = true
text_ltb (c ∷ s) (d ∷ t) = ltb c d || (c == d && text_ltb s t)

-- `s ≤ t`: not `t < s`.
abbrev pub TextLe : Bytes → Bytes → Type 0
TextLe s t = text_ltb t s ≡ false

pub text_ltb_irrefl : (s : Bytes) → text_ltb s s ≡ false
unfolding text_ltb
text_ltb_irrefl [] = refl
text_ltb_irrefl (c ∷ s) = ground (arith, text_ltb_irrefl s)

pub text_ltb_trans :
    (s t u : Bytes) → text_ltb s t ≡ true → text_ltb t u ≡ true → text_ltb s u ≡ true
unfolding text_ltb
text_ltb_trans s t [] h k = k
text_ltb_trans s [] (e ∷ u) h k = ground arith
text_ltb_trans [] (d ∷ t) (e ∷ u) h k = refl
text_ltb_trans (c ∷ s) (d ∷ t) (e ∷ u) h k = ground (arith, text_ltb_trans s t u)

pub text_ltb_asymm : (s t : Bytes) → text_ltb s t ≡ true → text_ltb t s ≡ false
unfolding text_ltb
text_ltb_asymm s [] h = ground arith
text_ltb_asymm [] (d ∷ t) h = refl
text_ltb_asymm (c ∷ s) (d ∷ t) h = ground (arith, text_ltb_asymm s t)

-- Two texts neither of which is before the other are equal.
pub TextLe-antisymm : (s t : Bytes) → TextLe s t → TextLe t s → s ≡ t
unfolding text_ltb
TextLe-antisymm [] [] h k = refl
TextLe-antisymm [] (d ∷ t) h k = ground arith
TextLe-antisymm (c ∷ s) [] h k = ground arith
TextLe-antisymm (c ∷ s) (d ∷ t) h k = ground (arith, TextLe-antisymm s t)

pub TextLe-trans : (s t u : Bytes) → TextLe s t → TextLe t u → TextLe s u
unfolding text_ltb
TextLe-trans [] t u h k = refl
TextLe-trans (c ∷ s) [] u h k = ground arith
TextLe-trans (c ∷ s) (d ∷ t) [] h k = ground arith
TextLe-trans (c ∷ s) (d ∷ t) (e ∷ u) h k = ground (arith, TextLe-trans s t u)
