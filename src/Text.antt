-- ===== src/Text.antt =====
-- What the program uses of Go's `strings`: a string is the list of its bytes.
pub mod Search
pub mod Decimal
pub mod Order
use Prim.Native.Char.{code}
use Prim.Native.String.{String}
use go_kubegrpc.Base.{
  ℕ, suc, ◌≡◌, refl, List, [], ◌∷◌, Bool, true, false, Option, none, some, ◌==◌, if◌then◌else◌,
  ◌&&◌, ◌≢◌, All, ℕ_discrete, ite,
}

abbrev pub Bytes : Type 0
Bytes = List ℕ

-- The bytes of an ASCII literal.
abbrev pub codes : String → Bytes
codes String.[] = []
codes (String.◌∷◌ c s) = code c ∷ codes s

unfoldable pub Bytes-discrete : Discrete Bytes
unfolding ℕ_discrete
Bytes-discrete = hlevel ℕ_discrete

-- No byte of the text is `c`.
abbrev pub Lacks : ℕ → Bytes → Type 0
Lacks c = All (λ b. b ≢ c)

-- strings.HasPrefix.
unfoldable pub starts_with : Bytes → Bytes → Bool
starts_with [] s = true
starts_with (p ∷ ps) [] = false
starts_with (p ∷ ps) (c ∷ s) = p == c && starts_with ps s

-- strings.Index: the first position at which `sub` stands.
unfoldable pub index : Bytes → Bytes → Option ℕ
unfolding starts_with
index [] sub = if starts_with sub [] then some 0 else none
index (c ∷ s) sub =
    if starts_with sub (c ∷ s)
    then some 0
    else elim (index s sub) [ none ↦ none | some i ↦ some (suc i) ]

-- strings.LastIndex: the last position at which `sub` stands.
unfoldable pub last_index : Bytes → Bytes → Option ℕ
unfolding starts_with
last_index [] sub = if starts_with sub [] then some 0 else none
last_index (c ∷ s) sub = elim (last_index s sub) [
  | some i ↦ some (suc i)
  | none ↦ if starts_with sub (c ∷ s) then some 0 else none
]

-- strings.TrimLeft with a cutset of one byte.
unfoldable pub trim_left : Bytes → ℕ → Bytes
trim_left [] b = []
trim_left (c ∷ s) b = if c == b then trim_left s b else c ∷ s

index_example : index (codes "a==b") (codes "=") ≡ some 1
unfolding index
index_example = refl

last_index_example : last_index (codes "a==b") (codes "=") ≡ some 2
unfolding last_index
last_index_example = refl

Bytes-discrete_example : ite (Bytes-discrete (codes "ab") (codes "ac")) true false ≡ false
unfolding Bytes-discrete
Bytes-discrete_example = refl
