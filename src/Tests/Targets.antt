-- ===== src/Tests/Targets.antt =====
-- Targets and policies at concrete inputs.
use go_kubegrpc.Base.{◌≡◌, refl, inl, inr, arith}
use go_kubegrpc.Base.Result.{ok}
use go_kubegrpc.Text.{codes, Lacks}
use go_kubegrpc.Text.Decimal.{all_digits, is_digit}
use go_kubegrpc.Target.{public_port_to_internal, Target, parse_target, to_string}
use go_kubegrpc.Target.RoundTrip.{IsCanonical, parse_target-to_string, parse_target-IsCanonical}

abbrev api : Target
api = record {
  scheme = codes "k8s";
  namespace = codes "prod";
  service = codes "api";
  port = record { name = codes "grpc"; number = 0 };
}

prod_plain : Lacks b'/' (codes "prod")
prod_plain = ground arith

api-IsCanonical : IsCanonical api
unfolding public_port_to_internal all_digits is_digit
api-IsCanonical = inl (record {
  scheme = refl;
  named = λ e. ground arith;
  plain = ground arith;
  service = λ e. ground arith;
  port = inr (refl, (λ e. ground arith), refl, ground arith);
})

parse_target-to_string_example : parse_target (to_string api) (codes "prod") ≡ ok api
parse_target-to_string_example = parse_target-to_string api (codes "prod") api-IsCanonical

api_parsed : parse_target (codes "k8s:///api:grpc") (codes "prod") ≡ ok api
unfolding parse_target
api_parsed = refl

parse_target-IsCanonical_example : IsCanonical api
parse_target-IsCanonical_example =
    parse_target-IsCanonical (codes "k8s:///api:grpc") (codes "prod") api prod_plain api_parsed
