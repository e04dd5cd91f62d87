-- ===== src/Target.antt =====
-- target.go: a target URI is parsed into a `Target`, and printed.
pub mod RoundTrip
use go_kubegrpc.Base.{ℕ, [], ◌∷◌, ◌++◌, ite, ◌≡◌, refl}
use go_kubegrpc.Base.Result.{Result, ok, err, ◌>>=◌, or_else}
use go_kubegrpc.Text.{Bytes, codes, Bytes-discrete}
use go_kubegrpc.Parse
use go_kubegrpc.Parse.{split_scheme, split_k8s_path, split_dns_path, parse_port, port_string}

-- The sentinels of errors.go.
pub data Error : Type 0 where
  target_invalid unsupported_scheme missing_namespace unknown_policy policy_exists : Error
  no_healthy_subconns client_closed : Error

pub record Port : Type 0 where
  pub name : Bytes
  pub number : ℕ

pub record Target : Type 0 where
  pub scheme : Bytes
  pub namespace : Bytes
  pub service : Bytes
  pub port : Port

unfoldable pub internal_port_to_public : Parse.Port → Port
internal_port_to_public p = record { name = p.name; number = p.number }

unfoldable pub public_port_to_internal : Port → Parse.Port
public_port_to_internal p = record { name = p.name; number = p.number }

-- The namespace of a k8s target: the explicit one, else the default, else an error.
unfoldable pub resolve_namespace : Bytes → Bytes → Result Error Bytes
resolve_namespace (c ∷ ns) default = ok (c ∷ ns)
resolve_namespace [] [] = err missing_namespace
resolve_namespace [] (d ∷ default) = ok (d ∷ default)

unfoldable pub parse_k8s_target : Bytes → Bytes → Result Error Target
unfolding split_k8s_path resolve_namespace parse_port internal_port_to_public
parse_k8s_target rest default = do
  (explicit, service, port) ← or_else (split_k8s_path rest) target_invalid
  namespace ← resolve_namespace explicit default
  p ← or_else (parse_port port) target_invalid
  ok (record {
    scheme = codes "k8s";
    namespace = namespace;
    service = service;
    port = internal_port_to_public p;
  })

unfoldable pub parse_dns_target : Bytes → Result Error Target
unfolding split_dns_path parse_port internal_port_to_public
parse_dns_target rest = do
  (host, port) ← or_else (split_dns_path rest) target_invalid
  p ← or_else (parse_port port) target_invalid
  ok (record {
    scheme = codes "dns";
    namespace = [];
    service = host;
    port = internal_port_to_public p;
  })

-- The switch on the scheme.
unfoldable pub parse_scheme : Bytes → Bytes → Bytes → Result Error Target
unfolding Bytes-discrete parse_k8s_target parse_dns_target
parse_scheme scheme rest default =
    ite (Bytes-discrete scheme (codes "k8s")) (parse_k8s_target rest default)
      (ite (Bytes-discrete scheme (codes "dns")) (parse_dns_target rest) (err unsupported_scheme))

unfoldable pub parse_target : Bytes → Bytes → Result Error Target
unfolding split_scheme parse_scheme
parse_target s default = do
  (scheme, rest) ← or_else (split_scheme s) target_invalid
  parse_scheme scheme rest default

-- `<service>:<port>` behind a namespace, if there is one.
unfoldable pub k8s_path : Bytes → Bytes → Bytes → Bytes
k8s_path [] service port = service ++ b':' ∷ port
k8s_path (c ∷ ns) service port = (c ∷ ns) ++ b'/' ∷ (service ++ b':' ∷ port)

-- `Target.String`.
unfoldable pub to_string : Target → Bytes
unfolding port_string public_port_to_internal k8s_path Bytes-discrete
to_string t =
    let port = port_string (public_port_to_internal t.port) in
    ite (Bytes-discrete t.scheme (codes "k8s"))
      (codes "k8s:///" ++ k8s_path t.namespace t.service port)
      (ite (Bytes-discrete t.scheme (codes "dns")) (codes "dns:///" ++ (t.service ++ b':' ∷ port))
        (t.scheme ++ (codes ":///" ++ (t.service ++ b':' ∷ port))))

parse_target_example :
    parse_target (codes "k8s:///api:080") (codes "prod")
    ≡ ok (record {
      scheme = codes "k8s";
      namespace = codes "prod";
      service = codes "api";
      port = record { name = []; number = 80 };
    })
unfolding parse_target
parse_target_example = refl

to_string_example :
    to_string (record {
      scheme = codes "k8s";
      namespace = codes "prod";
      service = codes "api";
      port = record { name = []; number = 80 };
    })
    ≡ codes "k8s:///prod/api:80"
unfolding to_string
to_string_example = refl
