-- ===== src/Text/Decimal.antt =====
-- Decimal numbers: `%d` and strconv.Itoa of a number that is not negative, and strconv.Atoi of a
-- text of digits.
pub mod Laws
use go_kubegrpc.Base.{
  ℕ, zero, suc, ◌+◌, ◌-◌, ◌*◌, ◌/◌, ◌%◌, ◌≡◌, refl, [], ◌∷◌, ◌++◌, Bool, true, false, Option, none,
  some, ltb, leb, ◌&&◌, if◌then◌else◌,
}
use go_kubegrpc.Base.Int.{max_int64}
use go_kubegrpc.Text.{Bytes, codes}

-- The first argument bounds the digits.
unfoldable pub digits : ℕ → ℕ → Bytes
digits zero n = []
digits (suc fuel) n =
    let front = digits fuel (n / 10) in
    if ltb n 10 then (b'0' + n) ∷ [] else front ++ (b'0' + n % 10) ∷ []

-- strconv.Itoa; a number is above its number of digits.
unfoldable pub itoa : ℕ → Bytes
unfolding digits
itoa n = digits (suc n) n

unfoldable pub is_digit : ℕ → Bool
is_digit c = leb b'0' c && leb c b'9'

unfoldable pub all_digits : Bytes → Bool
unfolding is_digit
all_digits [] = true
all_digits (c ∷ s) = is_digit c && all_digits s

-- The number that digits spell behind `n`.
unfoldable pub value : ℕ → Bytes → ℕ
value n [] = n
value n (c ∷ s) = value (n * 10 + (c - b'0')) s

-- strconv.Atoi of a text of digits: it fails where the number does not fit an int64.
unfoldable pub atoi : Bytes → Option ℕ
unfolding value
atoi s = if leb (value 0 s) max_int64 then some (value 0 s) else none

itoa_example : itoa 8080 ≡ codes "8080"
unfolding itoa
itoa_example = refl

atoi_example : atoi (codes "0080") ≡ some 80
unfolding atoi
atoi_example = refl
