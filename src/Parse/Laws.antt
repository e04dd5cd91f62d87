-- ===== src/Parse/Laws.antt =====
-- What the splitters of internal/target/parse.go find in a text that is put together around the
-- separators, and what a successful split tells of its parts.
use mathlib.Core.Path.{ap₂}
use go_kubegrpc.Base.{
  subst, take, Bool-cases, Option-cases, append_assoc, ℕ, suc, ◌≤◌, ◌≡◌, ◌≢◌, ◌⊎◌, inl, inr, refl,
  sym, ◌∙◌, [], ◌∷◌, ◌++◌, true, false, arith, drop, take-length-append, drop-suc-length,
}
use go_kubegrpc.Base.Result.{Result-cases, ok}
use go_kubegrpc.Text.{Bytes, Lacks, trim_left}
use go_kubegrpc.Text.Search.{
  trim_left-Starts_not, index_cut, last_index_cut, index-append, last_index-append, StartsNot,
  trim_left-cons,
}
use go_kubegrpc.Text.Decimal.{all_digits, itoa}
use go_kubegrpc.Text.Decimal.Laws.{
  itoa-ne-nil, itoa-IsDigit, all_digits-itoa, atoi-itoa, Lacks-digits,
}
use go_kubegrpc.Parse.{
  non_empty, index, last_index, Port, parse_port, parse_number, port_string, split_port,
  split_service, split_k8s_path, split_dns_path,
}

-- The ports that a target can name: a number in 1..65535, or a name that is not all digits.
abbrev pub IsPort : Port → Type 0
IsPort p =
    ((p.name ≡ []) × (1 ≤ p.number) × (p.number ≤ 65535))
    ⊎ ((p.number ≡ 0) × (p.name ≢ []) × (all_digits p.name ≡ false) × Lacks b':' p.name)

parse_number-itoa :
    (n : ℕ) → 1 ≤ n → n ≤ 65535 → parse_number (itoa n) ≡ ok (record { name = []; number = n })
unfolding parse_number
parse_number-itoa n h k = ground (arith, atoi-itoa n)

parse_port-number : (s : Bytes) → s ≢ [] → all_digits s ≡ true → parse_port s ≡ parse_number s
unfolding parse_port
parse_port-number [] h k = absurd (h refl)
parse_port-number (c ∷ s) h k = rw (k, parse_port) refl

parse_port-name :
    (s : Bytes)
    → s ≢ []
    → all_digits s ≡ false
    → parse_port s ≡ ok (record { name = s; number = 0 })
unfolding parse_port
parse_port-name [] h k = absurd (h refl)
parse_port-name (c ∷ s) h k = rw (k, parse_port) refl

pub parse_port-port_string : (p : Port) → IsPort p → parse_port (port_string p) ≡ ok p
unfolding port_string
parse_port-port_string p (inl (e, low, high)) = ground (
  arith,
  parse_port-number (itoa p.number) (itoa-ne-nil p.number) (all_digits-itoa p.number),
  parse_number-itoa p.number,
)
parse_port-port_string p (inr (e, named, nondigit, lacks)) =
    ground (arith, parse_port-name p.name named nondigit)

pub port_string-Lacks : (p : Port) → IsPort p → Lacks b':' (port_string p)
unfolding port_string
port_string-Lacks p (inl (e, low, high)) =
    ground (arith, Lacks-digits b':' (itoa p.number) (λ d. omega arith) (itoa-IsDigit p.number))
port_string-Lacks p (inr (e, named, nondigit, lacks)) = ground arith

pub split_port-append :
    (s port : Bytes) → Lacks b':' port → split_port (s ++ b':' ∷ port) ≡ ok (s, port)
unfolding split_port
split_port-append s port h =
    rw (last_index-append s port b':' h, split_port, take-length-append, drop-suc-length) refl

pub split_service-append :
    (ns service : Bytes) → Lacks b'/' ns → split_service (ns ++ b'/' ∷ service) ≡ (ns, service)
unfolding split_service
split_service-append ns service h =
    rw (index-append ns service b'/' h, split_service, take-length-append, drop-suc-length) refl

-- A path whose trimmed text is known.
split_k8s_path_of :
    (path before ns service port : Bytes)
    → trim_left path b'/' ≡ before ++ b':' ∷ port
    → Lacks b':' port
    → split_service before ≡ (ns, service)
    → service ≢ []
    → split_k8s_path path ≡ ok (ns, service, port)
unfolding split_k8s_path
split_k8s_path_of path before ns [] port trim lacks split h = absurd (h refl)
split_k8s_path_of path before ns (c ∷ service) port trim lacks split h =
    rw (trim, split_k8s_path, split_port-append before port lacks, split) refl

pub split_k8s_path-append :
    (ns service port : Bytes)
    → ns ≢ []
    → Lacks b'/' ns
    → service ≢ []
    → Lacks b':' port
    → split_k8s_path (b'/' ∷ (ns ++ b'/' ∷ (service ++ b':' ∷ port))) ≡ ok (ns, service, port)
split_k8s_path-append [] service port h lacks k l = absurd (h refl)
split_k8s_path-append (c ∷ ns) service port h lacks k l =
    split_k8s_path_of (b'/' ∷ ((c ∷ ns) ++ b'/' ∷ (service ++ b':' ∷ port)))
      ((c ∷ ns) ++ b'/' ∷ service) (c ∷ ns) service port
      (trim_left-cons ((c ∷ ns) ++ b'/' ∷ (service ++ b':' ∷ port)) b'/' lacks.0
        ∙ sym (append_assoc (c ∷ ns) (b'/' ∷ service) (b':' ∷ port)))
      l (split_service-append (c ∷ ns) service lacks) k

pub split_dns_path-append :
    (host port : Bytes)
    → host ≢ []
    → StartsNot b'/' host
    → Lacks b':' port
    → split_dns_path (b'/' ∷ (host ++ b':' ∷ port)) ≡ ok (host, port)
unfolding split_dns_path
split_dns_path-append [] port h starts l = absurd (h refl)
split_dns_path-append (c ∷ host) port h starts l =
    rw
      (
        trim_left-cons ((c ∷ host) ++ b':' ∷ port) b'/' starts,
        split_dns_path,
        split_port-append (c ∷ host) port l,
      )
      refl

-- What a successful parse tells of the port.
pub parse_port-IsPort : (s : Bytes) (p : Port) → Lacks b':' s → parse_port s ≡ ok p → IsPort p
unfolding parse_port parse_number
parse_port-IsPort [] p lacks h = ground arith
parse_port-IsPort (c ∷ s) p lacks h = elim (Bool-cases (all_digits (c ∷ s))) [
  | inl numeric ↦ inl (ground arith)
  | inr named ↦ inr (ground arith)
]

-- A text is the two parts of its split around the colon, and the second part has no other.
split_port_cut :
    (s before port : Bytes)
    → split_port s ≡ ok (before, port)
    → (s ≡ before ++ b':' ∷ port) × Lacks b':' port
unfolding split_port
split_port_cut s before port h = elim (Option-cases (last_index s (b':' ∷ []))) [
  | inl e ↦ absurd (ground arith)
  | inr (i, e) ↦
      let cut = last_index_cut s b':' i e in
      let left : take i s ≡ before = ground arith in
      let right : drop (suc i) s ≡ port = ground arith in
      (cut.0 ∙ ap₂ (λ a b. a ++ b':' ∷ b) left right, subst (Lacks b':') right cut.1)
]

split_service-Lacks : (s ns service : Bytes) → split_service s ≡ (ns, service) → Lacks b'/' ns
unfolding split_service
split_service-Lacks s ns service h = elim (Option-cases (index s (b'/' ∷ []))) [
  | inl e ↦ ground arith
  | inr (i, e) ↦
      let left : take i s ≡ ns = ground arith in subst (Lacks b'/') left (index_cut s b'/' i e).1
]

non_empty-ne-nil : (s t : Bytes) → non_empty s ≡ ok t → (s ≡ t) × (t ≢ [])
unfolding non_empty
non_empty-ne-nil [] t h = ground arith
non_empty-ne-nil (c ∷ s) t h = ground arith

-- What a successful split of a k8s path tells of its parts.
pub split_k8s_path_parts :
    (path ns service port : Bytes)
    → split_k8s_path path ≡ ok (ns, service, port)
    → Lacks b'/' ns × (service ≢ []) × Lacks b':' port
unfolding split_k8s_path
split_k8s_path_parts path ns service port h =
    elim (Result-cases (split_port (trim_left path b'/'))) [
      | inl ((before, p), e) ↦ ground (
        arith,
        split_port_cut (trim_left path b'/') before p e,
        split_service-Lacks before ns service,
        non_empty-ne-nil (split_service before).1 service,
      )
      | inr (_, e) ↦ absurd (ground arith)
    ]

Starts_not-append : (b : ℕ) (s t u : Bytes) → s ≢ [] → StartsNot b u → u ≡ s ++ t → StartsNot b s
Starts_not-append b [] t u h k e = absurd (h refl)
Starts_not-append b (c ∷ s) t u h k e = subst (StartsNot b) e k

pub split_dns_path_parts :
    (path host port : Bytes)
    → split_dns_path path ≡ ok (host, port)
    → (host ≢ []) × StartsNot b'/' host × Lacks b':' port
unfolding split_dns_path
split_dns_path_parts path host port h = elim (Result-cases (split_port (trim_left path b'/'))) [
  | inl ((before, p), e) ↦ ground (
    arith,
    split_port_cut (trim_left path b'/') before p e,
    non_empty-ne-nil before host,
    Starts_not-append b'/' host (b':' ∷ port) (trim_left path b'/'),
    trim_left-Starts_not path b'/',
  )
  | inr (_, e) ↦ absurd (ground arith)
]
