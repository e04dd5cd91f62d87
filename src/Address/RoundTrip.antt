-- ===== src/Address/RoundTrip.antt =====
-- The format of an address in the resolver adapter, and its reading in the balancer.
use mathlib.Core.List.{append-ne-nil_of_right_ne-nil, cons-ne-nil}
use go_kubegrpc.Base.{
  ℕ, ◌≤◌, ◌≡◌, ◌≢◌, refl, ap, ◌∙◌, [], ◌∷◌, ◌++◌, le→leb, true, false, some, arith, All, All-append,
  take-length-append, drop-suc-length,
}
use go_kubegrpc.Base.Int.{pos, max_int64}
use go_kubegrpc.Base.Result.{ok}
use go_kubegrpc.Base.{sym, take, drop, length, suc}
use go_kubegrpc.Text.{Bytes, codes, last_index}
use go_kubegrpc.Text.Search.{last_index-append}
use go_kubegrpc.Text.Decimal.{value, itoa}
use go_kubegrpc.Text.Decimal.Laws.{value-itoa, IsDigit, itoa-IsDigit, itoa-ne-nil, Lacks-digits}
use go_kubegrpc.Address.{
  addr_port, is_space, token, skip_space, scan_token, leading_digits, scan_digits, scan_int,
  parse_host_port, parse_addr_to_endpoint,
}

-- No byte is white space.
abbrev pub IsToken : Bytes → Type 0
IsToken = All (λ c. is_space c ≡ false)

token_of_IsToken : (s : Bytes) → IsToken s → token s ≡ s
unfolding token
token_of_IsToken [] h = refl
token_of_IsToken (c ∷ s) h = rw (h.0, token) (ap (◌∷◌ c) (token_of_IsToken s h.1))

skip_space_of_IsToken : (s : Bytes) → IsToken s → skip_space s ≡ some s
unfolding skip_space
skip_space_of_IsToken [] h = refl
skip_space_of_IsToken (c ∷ s) h = ground arith

scan_token_of_IsToken : (s : Bytes) → s ≢ [] → IsToken s → scan_token s ≡ ok s
unfolding scan_token
scan_token_of_IsToken [] h k = absurd (h refl)
scan_token_of_IsToken (c ∷ s) h k =
    rw (skip_space_of_IsToken (c ∷ s) k, scan_token, token_of_IsToken (c ∷ s) k) refl

digits-IsToken : (s : Bytes) → All IsDigit s → IsToken s
unfolding is_space
digits-IsToken [] h = tt
digits-IsToken (c ∷ s) h = (ground arith, digits-IsToken s h.1)

leading_digits_of_All : (s : Bytes) → All IsDigit s → leading_digits s ≡ s
unfolding leading_digits
leading_digits_of_All [] h = refl
leading_digits_of_All (c ∷ s) h = ground (arith, leading_digits_of_All s h.1)

scan_digits-ne-nil :
    (limit : ℕ) (s : Bytes) → s ≢ [] → value 0 s ≤ limit → scan_digits limit s ≡ some (value 0 s)
unfolding scan_digits
scan_digits-ne-nil limit [] h k = absurd (h refl)
scan_digits-ne-nil limit (c ∷ s) h k = rw (le→leb _ _ k, scan_digits) refl

scan_int_of_digits :
    (s : Bytes)
    → s ≢ []
    → All IsDigit s
    → value 0 s ≤ max_int64
    → scan_int s ≡ some (pos (value 0 s))
unfolding scan_int
scan_int_of_digits [] h d k = absurd (h refl)
scan_int_of_digits (c ∷ s) h d k =
    ground (arith, leading_digits_of_All (c ∷ s) d, scan_digits-ne-nil max_int64 (c ∷ s) h k)

scan_int-itoa : (n : ℕ) → n ≤ max_int64 → scan_int (itoa n) ≡ some (pos n)
scan_int-itoa n h =
    scan_int_of_digits (itoa n) (itoa-ne-nil n) (itoa-IsDigit n) (rw (value-itoa n) h)
    ∙ ap (λ m. some (pos m)) (value-itoa n)

parse_host_port-append :
    (address : Bytes) (port : ℕ)
    → 1 ≤ port
    → port ≤ 65535
    → parse_host_port (address ++ b':' ∷ itoa port)
      ≡ ok (record { address = address; port = port; ready = true })
unfolding parse_host_port
parse_host_port-append address port low high =
    rw
      (
        last_index-append address (itoa port) b':'
            (Lacks-digits b':' (itoa port) (λ d. omega arith) (itoa-IsDigit port)),
        parse_host_port,
        drop-suc-length,
        scan_int-itoa port (omega arith),
        take-length-append,
      )
      (ground arith)

-- The balancer recovers each endpoint that the resolver adapter sends as "address:port", if the
-- address has no white space and the port is in 1..65535; the address may hold colons.
pub parse_addr_to_endpoint-addr_port :
    (address : Bytes) (port : ℕ)
    → IsToken address
    → 1 ≤ port
    → port ≤ 65535
    → parse_addr_to_endpoint (addr_port address port)
      ≡ ok (record { address = address; port = port; ready = true })
unfolding parse_addr_to_endpoint addr_port
parse_addr_to_endpoint-addr_port address port h low high =
    rw
      (
        scan_token_of_IsToken (address ++ b':' ∷ itoa port)
            (append-ne-nil_of_right_ne-nil address (cons-ne-nil b':' (itoa port)))
            (All-append _ address (b':' ∷ itoa port) h
              (refl, digits-IsToken _ (itoa-IsDigit port))),
        parse_addr_to_endpoint,
      )
      (parse_host_port-append address port low high)

-- The text "address:port" determines address and port, also where the address holds colons.
pub addr_port_injective :
    (a b : Bytes) (p q : ℕ) → addr_port a p ≡ addr_port b q → (a ≡ b) × (p ≡ q)
unfolding addr_port
addr_port_injective a b p q e = (address, port)
  where
    index : (c : Bytes) (n : ℕ) → last_index (c ++ b':' ∷ itoa n) (codes ":") ≡ some (length c)
    index c n =
        last_index-append c (itoa n) b':'
          (Lacks-digits b':' (itoa n) (λ d. omega arith) (itoa-IsDigit n))

    same : length a ≡ length b
    same = ground (arith, index a p, index b q, e)

    address : a ≡ b
    address =
        sym (take-length-append a (b':' ∷ itoa p))
        ∙ ap (take (length a)) e
        ∙ ap (λ n. take n (b ++ b':' ∷ itoa q)) same
        ∙ take-length-append b (b':' ∷ itoa q)

    port : p ≡ q
    port =
        sym (value-itoa p)
        ∙ ap (value 0) (
            sym (drop-suc-length a b':' (itoa p))
            ∙ ap (drop (suc (length a))) e
            ∙ ap (λ n. drop (suc n) (b ++ b':' ∷ itoa q)) same
            ∙ drop-suc-length b b':' (itoa q))
        ∙ value-itoa q
