-- ===== src/Address.antt =====
-- How an endpoint travels as "address:port": the format that the resolver adapter, the pool and the
-- pickers use, and `parseAddrToEndpoint` of internal/balancer/builder.go, which reads it back.
-- Sscanf is modelled on ASCII text: "%s" takes the first run of bytes that are no white space, and
-- "%d" a sign and the digits behind it, whatever follows them.
pub mod RoundTrip
use go_kubegrpc.Base.{
  ℕ, zero, suc, [], ◌∷◌, ◌++◌, Bool, true, false, ◌&&◌, ◌||◌, Option, none, some, take, drop, ltb,
  leb, ◌==◌, if◌then◌else◌, ◌≡◌, refl,
}
use go_kubegrpc.Base.Int.{ℤ, pos, negsuc, leb_ℤ, ltb_ℤ, max_int64}
use go_kubegrpc.Base.Result.{Result, ok, err, ◌>>=◌}
use go_kubegrpc.Text.{Bytes, codes, last_index}
use go_kubegrpc.Text.Decimal.{is_digit, value, itoa}
use go_kubegrpc.Resolver.{Endpoint}

-- fmt.Sprintf("%s:%d", address, port).
unfoldable pub addr_port : Bytes → ℕ → Bytes
addr_port address port = address ++ b':' ∷ itoa port

pub data Error : Type 0 where
  empty_address no_port non_numeric_port out_of_range_port : Error

unfoldable pub is_space : ℕ → Bool
is_space c = c == 32 || (leb 9 c && leb c 13)

-- The first run of bytes that are no white space.
unfoldable pub token : Bytes → Bytes
unfolding is_space
token [] = []
token (c ∷ s) = if is_space c then [] else c ∷ token s

-- White space is skipped, but a newline is an error.
unfoldable pub skip_space : Bytes → Option Bytes
unfolding is_space
skip_space [] = some []
skip_space (c ∷ s) = if c == 10 then none else if is_space c then skip_space s else some (c ∷ s)

unfoldable pub non_empty_token : Bytes → Result Error Bytes
non_empty_token [] = err empty_address
non_empty_token (c ∷ s) = ok (c ∷ s)

-- fmt.Sscanf(addr, "%s", &addr).
unfoldable pub scan_token : Bytes → Result Error Bytes
unfolding skip_space token non_empty_token
scan_token s = elim (skip_space s) [ none ↦ err empty_address | some t ↦ non_empty_token (token t) ]

-- The digits at the front of a text.
unfoldable pub leading_digits : Bytes → Bytes
unfolding is_digit
leading_digits [] = []
leading_digits (c ∷ s) = if is_digit c then c ∷ leading_digits s else []

-- An unsigned number that must not exceed `limit`.
unfoldable pub scan_digits : ℕ → Bytes → Option ℕ
unfolding value
scan_digits limit [] = none
scan_digits limit (c ∷ s) = if leb (value 0 (c ∷ s)) limit then some (value 0 (c ∷ s)) else none

unfoldable pub negate : ℕ → ℤ
negate zero = pos 0
negate (suc m) = negsuc m

-- fmt.Sscanf(portStr, "%d", &port) on a text with no white space.
unfoldable pub scan_int : Bytes → Option ℤ
unfolding leading_digits scan_digits negate
scan_int [] = none
scan_int (c ∷ s) =
    if c == b'-'
    then elim (scan_digits (suc max_int64) (leading_digits s)) [
      | none ↦ none
      | some n ↦ some (negate n)
    ]
    else if c == b'+'
    then elim (scan_digits max_int64 (leading_digits s)) [ none ↦ none | some n ↦ some (pos n) ]
    else elim (scan_digits max_int64 (leading_digits (c ∷ s))) [
      | none ↦ none
      | some n ↦ some (pos n)
    ]

unfoldable pub check_port : Bytes → ℤ → Result Error Endpoint
check_port host (negsuc n) = err out_of_range_port
check_port host (pos n) =
    if leb n 0 || ltb 65535 n
    then err out_of_range_port
    else ok (record { address = host; port = n; ready = true })

unfoldable pub parse_host_port : Bytes → Result Error Endpoint
unfolding last_index scan_int check_port
parse_host_port addr = elim (last_index addr (codes ":")) [
  | none ↦ err no_port
  | some i ↦ elim (scan_int (drop (suc i) addr)) [
    | none ↦ err non_numeric_port
    | some port ↦ check_port (take i addr) port
  ]
]

unfoldable pub parse_addr_to_endpoint : Bytes → Result Error Endpoint
unfolding scan_token parse_host_port
parse_addr_to_endpoint addr = do t ← scan_token addr; parse_host_port t

-- Behind the last colon a number is enough.
parse_addr_to_endpoint_example :
    parse_addr_to_endpoint (codes " fd00::1:80x")
    ≡ ok (record { address = codes "fd00::1"; port = 80; ready = true })
unfolding parse_addr_to_endpoint
parse_addr_to_endpoint_example = refl

parse_addr_to_endpoint_zero : parse_addr_to_endpoint (codes "10.0.0.1:0") ≡ err out_of_range_port
unfolding parse_addr_to_endpoint
parse_addr_to_endpoint_zero = refl
