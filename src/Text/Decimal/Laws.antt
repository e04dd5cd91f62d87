-- ===== src/Text/Decimal/Laws.antt =====
-- A printed number is read back.
use mathlib.Core.List.{concat-ne-nil}
use go_kubegrpc.Base.{
  subst, ℕ, zero, suc, ◌+◌, ◌-◌, ◌*◌, ◌/◌, ◌%◌, ◌≤◌, ◌<◌, ◌≡◌, ◌≢◌, refl, [], ◌∷◌, ◌++◌, true, some,
  arith, All, All-append,
}
use go_kubegrpc.Base.Int.{max_int64}
use go_kubegrpc.Text.{Bytes, Lacks}
use go_kubegrpc.Text.Decimal.{digits, itoa, all_digits, value, atoi}

abbrev pub IsDigit : ℕ → Type 0
IsDigit c = (b'0' ≤ c) × (c ≤ b'9')

value-append : (n : ℕ) (s : Bytes) (c : ℕ) → value n (s ++ c ∷ []) ≡ value n s * 10 + (c - b'0')
unfolding value
value-append n [] c = refl
value-append n (d ∷ s) c = value-append (n * 10 + (d - b'0')) s c

pub value-digits : (fuel n : ℕ) → n < fuel → value 0 (digits fuel n) ≡ n
unfolding digits value
value-digits zero n h = absurd (omega arith)
value-digits (suc fuel) n h =
    ground
      (arith, value-digits fuel (n / 10), value-append 0 (digits fuel (n / 10)) (b'0' + n % 10))

digits-IsDigit : (fuel n : ℕ) → All IsDigit (digits fuel n)
unfolding digits
digits-IsDigit zero n = tt
digits-IsDigit (suc fuel) n =
    let last : All IsDigit ((b'0' + n % 10) ∷ []) = omega arith in
    ground (
      arith,
      All-append IsDigit (digits fuel (n / 10)) ((b'0' + n % 10) ∷ [])
          (digits-IsDigit fuel (n / 10)) last,
    )

pub itoa-IsDigit : (n : ℕ) → All IsDigit (itoa n)
unfolding itoa
itoa-IsDigit n = digits-IsDigit (suc n) n

pub itoa-ne-nil : (n : ℕ) → itoa n ≢ []
unfolding itoa digits
itoa-ne-nil n = ground (arith, concat-ne-nil (b'0' + n % 10) (digits n (n / 10)))

pub all_digits_of_All : (s : Bytes) → All IsDigit s → all_digits s ≡ true
unfolding all_digits
all_digits_of_All [] h = refl
all_digits_of_All (c ∷ s) h = ground (arith, all_digits_of_All s h.1)

pub all_digits-itoa : (n : ℕ) → all_digits (itoa n) ≡ true
all_digits-itoa n = all_digits_of_All (itoa n) (itoa-IsDigit n)

-- A text of digits holds no other byte.
pub Lacks-digits : (b : ℕ) (s : Bytes) → ¬ IsDigit b → All IsDigit s → Lacks b s
Lacks-digits b [] h k = tt
Lacks-digits b (c ∷ s) h k = (λ e. h (subst IsDigit e k.0), Lacks-digits b s h k.1)

pub atoi-itoa : (n : ℕ) → n ≤ max_int64 → atoi (itoa n) ≡ some n
unfolding atoi itoa
atoi-itoa n h = ground (arith, value-digits (suc n) n)

pub value-itoa : (n : ℕ) → value 0 (itoa n) ≡ n
unfolding itoa
value-itoa n = value-digits (suc n) n (omega arith)
