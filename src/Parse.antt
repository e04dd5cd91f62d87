-- ===== src/Parse.antt =====
-- internal/target/parse.go: the pieces of a target URI. A Go error is the sentinel that it wraps;
-- the message built around it is left out.
pub mod Laws
use go_kubegrpc.Base.{
  ℕ, suc, ◌+◌, [], ◌∷◌, ◌||◌, none, some, take, drop, ltb, ◌==◌, if◌then◌else◌, ◌≡◌, refl,
}
use go_kubegrpc.Base.Result.{Result, ok, err, ◌>>=◌}
use go_kubegrpc.Text.{Bytes, codes, index, last_index, trim_left}
use go_kubegrpc.Text.Decimal.{all_digits, atoi, itoa}

pub data Error : Type 0 where
  unsupported_scheme missing_namespace target_invalid : Error

-- A numeric port has the name "", a named port the number 0.
pub record Port : Type 0 where
  pub name : Bytes
  pub number : ℕ

unfoldable pub split_scheme : Bytes → Result Error (Bytes × Bytes)
unfolding index
split_scheme s = elim (index s (codes "://")) [
  | none ↦ err target_invalid
  | some i ↦ ok (take i s, drop (i + 3) s)
]

-- A text that matches ^[0-9]+$.
unfoldable pub parse_number : Bytes → Result Error Port
unfolding atoi
parse_number s = elim (atoi s) [
  | none ↦ err target_invalid
  | some n ↦
      if ltb n 1 || ltb 65535 n then err target_invalid else ok (record { name = []; number = n })
]

unfoldable pub parse_port : Bytes → Result Error Port
unfolding all_digits parse_number
parse_port [] = err target_invalid
parse_port (c ∷ s) =
    if all_digits (c ∷ s) then parse_number (c ∷ s) else ok (record { name = c ∷ s; number = 0 })

-- `serviceAndNS` at its first slash: the namespace and the service.
unfoldable pub split_service : Bytes → Bytes × Bytes
unfolding index
split_service s = elim (index s (codes "/")) [
  | none ↦ ([], s)
  | some i ↦ (take i s, drop (suc i) s)
]

-- The check on an empty service, or host.
unfoldable pub non_empty : Bytes → Result Error Bytes
non_empty [] = err target_invalid
non_empty (c ∷ s) = ok (c ∷ s)

-- What stands before the last colon and behind it.
unfoldable pub split_port : Bytes → Result Error (Bytes × Bytes)
unfolding last_index
split_port s = elim (last_index s (codes ":")) [
  | none ↦ err target_invalid
  | some i ↦ ok (take i s, drop (suc i) s)
]

-- Namespace, service and port.
unfoldable pub split_k8s_path : Bytes → Result Error (Bytes × Bytes × Bytes)
unfolding trim_left split_port split_service non_empty
split_k8s_path path = do
  (service_and_ns, port) ← split_port (trim_left path b'/')
  let parts = split_service service_and_ns
  service ← non_empty parts.1
  ok (parts.0, service, port)

-- Host and port.
unfoldable pub split_dns_path : Bytes → Result Error (Bytes × Bytes)
unfolding trim_left split_port non_empty
split_dns_path path = do
  (before, port) ← split_port (trim_left path b'/')
  host ← non_empty before
  ok (host, port)

unfoldable pub port_string : Port → Bytes
unfolding itoa
port_string p = if p.number == 0 then p.name else itoa p.number

split_k8s_path_example :
    split_k8s_path (codes "/prod/api:grpc") ≡ ok (codes "prod", codes "api", codes "grpc")
unfolding split_k8s_path
split_k8s_path_example = refl

parse_port_example : parse_port (codes "65536") ≡ err target_invalid
unfolding parse_port
parse_port_example = refl
