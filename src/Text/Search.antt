-- ===== src/Text/Search.antt =====
-- Where a separator is found in a text that is put together around it.
use go_kubegrpc.Base.{
  ℕ, zero, suc, ◌≡◌, refl, ap, [], ◌∷◌, ◌++◌, none, some, arith, length, take, drop, ◌≢◌,
}
use go_kubegrpc.Text.{Bytes, Lacks, index, last_index, trim_left}

-- A byte that a text lacks is not found in it.
pub index_of_Lacks : (s : Bytes) (b : ℕ) → Lacks b s → index s (b ∷ []) ≡ none
unfolding index
index_of_Lacks [] b h = refl
index_of_Lacks (c ∷ s) b h = ground (arith, index_of_Lacks s b h.1)

pub last_index_of_Lacks : (s : Bytes) (b : ℕ) → Lacks b s → last_index s (b ∷ []) ≡ none
unfolding last_index
last_index_of_Lacks [] b h = refl
last_index_of_Lacks (c ∷ s) b h = ground (arith, last_index_of_Lacks s b h.1)

-- The first separator is found behind a text that lacks it.
pub index-append : (s t : Bytes) (b : ℕ) → Lacks b s → index (s ++ b ∷ t) (b ∷ []) ≡ some (length s)
unfolding index
index-append [] t b h = ground arith
index-append (c ∷ s) t b h = ground (arith, index-append s t b h.1)

-- The last separator is found before a text that lacks it.
pub last_index-append :
    (s t : Bytes) (b : ℕ) → Lacks b t → last_index (s ++ b ∷ t) (b ∷ []) ≡ some (length s)
unfolding last_index
last_index-append [] t b h = ground (arith, last_index_of_Lacks t b h)
last_index-append (c ∷ s) t b h = ground (arith, last_index-append s t b h)

-- A byte that is not found is not there.
pub Lacks-last_index : (s : Bytes) (b : ℕ) → last_index s (b ∷ []) ≡ none → Lacks b s
unfolding last_index
Lacks-last_index [] b h = tt
Lacks-last_index (c ∷ s) b h =
    let rest : last_index s (b ∷ []) ≡ none = ground arith in
    (ground arith, Lacks-last_index s b rest)

pub Lacks-index : (s : Bytes) (b : ℕ) → index s (b ∷ []) ≡ none → Lacks b s
unfolding index
Lacks-index [] b h = tt
Lacks-index (c ∷ s) b h =
    let rest : index s (b ∷ []) ≡ none = ground arith in (ground arith, Lacks-index s b rest)

-- A text is cut at the last separator: nothing behind it holds another.
pub last_index_cut :
    (s : Bytes) (b i : ℕ)
    → last_index s (b ∷ []) ≡ some i
    → (s ≡ take i s ++ b ∷ drop (suc i) s) × Lacks b (drop (suc i) s)
unfolding last_index
last_index_cut [] b i h = ground arith
last_index_cut (c ∷ s) b zero h = ground (arith, Lacks-last_index s b)
last_index_cut (c ∷ s) b (suc i) h =
    let tail = last_index_cut s b i (ground arith) in (ap (◌∷◌ c) tail.0, tail.1)

-- A text is cut at the first separator: nothing before it holds another.
pub index_cut :
    (s : Bytes) (b i : ℕ)
    → index s (b ∷ []) ≡ some i
    → (s ≡ take i s ++ b ∷ drop (suc i) s) × Lacks b (take i s)
unfolding index
index_cut [] b i h = ground arith
index_cut (c ∷ s) b zero h = ground arith
index_cut (c ∷ s) b (suc i) h =
    let tail = index_cut s b i (ground arith) in (ap (◌∷◌ c) tail.0, (ground arith, tail.1))

-- What is left of a trimmed text does not begin with the byte.
abbrev pub StartsNot : ℕ → Bytes → Type 0
StartsNot b [] = Unit
StartsNot b (c ∷ s) = c ≢ b

pub trim_left-Starts_not : (s : Bytes) (b : ℕ) → StartsNot b (trim_left s b)
unfolding trim_left
trim_left-Starts_not [] b = tt
trim_left-Starts_not (c ∷ s) b = ground (arith, trim_left-Starts_not s b)

pub trim_left_of_Starts_not : (s : Bytes) (b : ℕ) → StartsNot b s → trim_left s b ≡ s
unfolding trim_left
trim_left_of_Starts_not [] b h = refl
trim_left_of_Starts_not (c ∷ s) b h = ground arith

-- One leading byte is cut off.
pub trim_left-cons : (s : Bytes) (b : ℕ) → StartsNot b s → trim_left (b ∷ s) b ≡ s
unfolding trim_left
trim_left-cons [] b h = ground arith
trim_left-cons (c ∷ s) b h = ground arith
