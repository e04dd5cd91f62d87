-- ===== src/Target/RoundTrip.antt =====
-- Printing and parsing of targets, in both directions.
use go_kubegrpc.Base.{
  ◌≡◌, ◌≢◌, ◌⊎◌, inl, inr, refl, sym, ap, ◌∙◌, subst, if_pos, [], ◌∷◌, ◌++◌, arith,
}
use go_kubegrpc.Base.Result.{ok, Result-cases}
use go_kubegrpc.Text.{Bytes, codes, Lacks, Bytes-discrete}
use go_kubegrpc.Text.Search.{StartsNot}
use go_kubegrpc.Parse.{split_scheme, split_k8s_path, split_dns_path, parse_port, port_string}
use go_kubegrpc.Parse.Laws.{
  IsPort, parse_port-port_string, port_string-Lacks, parse_port-IsPort, split_k8s_path-append,
  split_dns_path-append, split_k8s_path_parts, split_dns_path_parts,
}
use go_kubegrpc.Target.{
  Target, Port, public_port_to_internal, parse_target, parse_k8s_target, parse_dns_target,
  resolve_namespace, to_string, k8s_path,
}

-- A k8s target with a namespace, and a dns target, as a parse can return them.
pub record IsK8s (t : Target) : Type 0 where
  pub scheme : t.scheme ≡ codes "k8s"
  pub named : t.namespace ≢ []
  pub plain : Lacks b'/' t.namespace
  pub service : t.service ≢ []
  pub port : IsPort (public_port_to_internal t.port)

pub record IsDns (t : Target) : Type 0 where
  pub scheme : t.scheme ≡ codes "dns"
  pub bare : t.namespace ≡ []
  pub service : t.service ≢ []
  pub rootless : StartsNot b'/' t.service
  pub port : IsPort (public_port_to_internal t.port)

abbrev pub IsCanonical : Target → Type 0
IsCanonical t = IsK8s t ⊎ IsDns t

k8s_round_trip :
    (ns service : Bytes) (p : Port) (default : Bytes)
    → ns ≢ []
    → Lacks b'/' ns
    → service ≢ []
    → IsPort (public_port_to_internal p)
    → parse_target
        (codes "k8s:///" ++ k8s_path ns service (port_string (public_port_to_internal p)))
        default
      ≡ ok (record { scheme = codes "k8s"; namespace = ns; service = service; port = p })
unfolding parse_target k8s_path public_port_to_internal
k8s_round_trip [] service p default h lacks k port = absurd (h refl)
k8s_round_trip (c ∷ ns) service p default h lacks k port =
    rw
      (
        split_k8s_path-append (c ∷ ns) service (port_string (public_port_to_internal p)) h lacks k
            (port_string-Lacks _ port),
        parse_port-port_string _ port,
      )
      refl

dns_round_trip :
    (host : Bytes) (p : Port) (default : Bytes)
    → host ≢ []
    → StartsNot b'/' host
    → IsPort (public_port_to_internal p)
    → parse_target
        (codes "dns:///" ++ (host ++ b':' ∷ port_string (public_port_to_internal p)))
        default
      ≡ ok (record { scheme = codes "dns"; namespace = []; service = host; port = p })
unfolding parse_target public_port_to_internal
dns_round_trip host p default h starts port =
    rw
      (
        split_dns_path-append host (port_string (public_port_to_internal p)) h starts
            (port_string-Lacks _ port),
        parse_port-port_string _ port,
      )
      refl

to_string_k8s :
    (t : Target)
    → t.scheme ≡ codes "k8s"
    → to_string t
      ≡ codes "k8s:///"
        ++ k8s_path t.namespace t.service (port_string (public_port_to_internal t.port))
unfolding to_string
to_string_k8s t e = rw (if_pos _ e) refl

to_string_dns :
    (t : Target)
    → t.scheme ≡ codes "dns"
    → to_string t
      ≡ codes "dns:///" ++ (t.service ++ b':' ∷ port_string (public_port_to_internal t.port))
unfolding to_string Bytes-discrete
to_string_dns t e =
    subst
      (λ s.
        to_string (record t { scheme = s })
        ≡ codes "dns:///" ++ (t.service ++ b':' ∷ port_string (public_port_to_internal t.port)))
      (sym e) refl

-- R2.5: every canonical target is read back from its print, whatever the default namespace is.
pub parse_target-to_string :
    (t : Target) (default : Bytes) → IsCanonical t → parse_target (to_string t) default ≡ ok t
parse_target-to_string t default (inl c) = rw (to_string_k8s t c.scheme) (
    k8s_round_trip t.namespace t.service t.port default c.named c.plain c.service c.port
    ∙ ap (λ s. ok (record t { scheme = s })) (sym c.scheme))
parse_target-to_string t default (inr c) = rw (to_string_dns t c.scheme) (
    dns_round_trip t.service t.port default c.service c.rootless c.port
    ∙ ground (arith, c.scheme, c.bare))

resolve_namespace_ok :
    (explicit default ns : Bytes)
    → Lacks b'/' explicit
    → Lacks b'/' default
    → resolve_namespace explicit default ≡ ok ns
    → (ns ≢ []) × Lacks b'/' ns
unfolding resolve_namespace
resolve_namespace_ok (c ∷ explicit) default ns h k e = ground arith
resolve_namespace_ok [] [] ns h k e = ground arith
resolve_namespace_ok [] (d ∷ default) ns h k e = ground arith

parse_k8s_target-IsK8s :
    (rest default : Bytes) (t : Target)
    → Lacks b'/' default
    → parse_k8s_target rest default ≡ ok t
    → IsK8s t
unfolding parse_k8s_target public_port_to_internal
parse_k8s_target-IsK8s rest default t lacks h = elim (Result-cases (split_k8s_path rest)) [
  | inl ((ns, service, port), e) ↦ elim (Result-cases (parse_port port)) [
    | inl (p, f) ↦
        let parts = split_k8s_path_parts rest ns service port e in
        let known = parse_port-IsPort port p parts.2 f in
        ground (arith, parts, known, resolve_namespace_ok ns default t.namespace parts.0 lacks)
    | inr (_, f) ↦ absurd (ground arith)
  ]
  | inr (_, e) ↦ absurd (ground arith)
]

parse_dns_target-IsDns : (rest : Bytes) (t : Target) → parse_dns_target rest ≡ ok t → IsDns t
unfolding parse_dns_target public_port_to_internal
parse_dns_target-IsDns rest t h = elim (Result-cases (split_dns_path rest)) [
  | inl ((host, port), e) ↦ elim (Result-cases (parse_port port)) [
    | inl (p, f) ↦
        let parts = split_dns_path_parts rest host port e in
        ground (arith, parts, parse_port-IsPort port p parts.2 f)
    | inr (_, f) ↦ absurd (ground arith)
  ]
  | inr (_, e) ↦ absurd (ground arith)
]

-- What a parse returns is canonical, so that printing loses nothing of it.
pub parse_target-IsCanonical :
    (s default : Bytes) (t : Target)
    → Lacks b'/' default
    → parse_target s default ≡ ok t
    → IsCanonical t
unfolding parse_target
parse_target-IsCanonical s default t lacks h = elim (Result-cases (split_scheme s)) [
  | inl ((scheme, rest), e) ↦
      ground (arith, parse_k8s_target-IsK8s rest default t lacks, parse_dns_target-IsDns rest t)
  | inr (_, e) ↦ absurd (ground arith)
]
