-- ===== src/Client/Construction.antt =====
-- NewClient: when it succeeds, what it leaves, and why it fails.
use go_kubegrpc.Base.{
  subst, false, ℕ, suc, ◌≡◌, ◌≢◌, refl, List, [], ◌∷◌, Option, none, some, Bool, arith,
  Option-cases, inl, inr,
}
use go_kubegrpc.Base.Maps.{MapOrder, lookup}
use go_kubegrpc.Base.Result.{Result, ok, err, Result-cases}
use go_kubegrpc.Text.{Bytes, Bytes-discrete}
use go_kubegrpc.Target.{Target, parse_target}
use go_kubegrpc.Registry.{lookup_policy}
use go_kubegrpc.Retry.{Float64}
use go_kubegrpc.Pool.{Ref}
use go_kubegrpc.Picker.{Store}
use go_kubegrpc.Balancer.{BuildConfig, Picker, Policies, build_picker, new_balancer, or_policy}
use go_kubegrpc.Config.{Config, validate}
use go_kubegrpc.Config.Validity.{IsValid, validate_valid}
use go_kubegrpc.Client.{
  codes, Field, Process, Client, Error, invalid_config, invalid_target, unknown_policy,
  service_config_failed, dial_failed, client_config, dial_options, or_default, connect,
  new_client_with, new_client, set_active_config, get_active_config, build, balancer_name,
  DialOptions,
}

module _ (float : Float64) (below_one : float.F → Bool) (two : float.F) (order : MapOrder)
    (policies : Policies) (marshal : Bytes → Option Bytes)
    (dial : Bytes → DialOptions float → Option ℕ) (target : Bytes) where
  -- The two calls behind SetActiveConfig give a connection.
  abbrev pub Dials : Target → Config float → ℕ → Type 0
  Dials t cfg conn =
      (json : Bytes) × (marshal balancer_name ≡ some json)
      × (dial target (dial_options float t cfg json) ≡ some conn)

  -- The configuration of the balancer for a target and a client, field by field.
  abbrev pub configured : Target → Config float → BuildConfig
  configured t cfg = record {
    namespace = t.namespace;
    service = t.service;
    policy = cfg.load_balancing_policy;
    max_subconns = cfg.max_subconnections;
    enable_health_check = cfg.enable_health_check;
    health_check_service_name = cfg.health_check_service_name;
    health_check_interval = cfg.health_check_interval;
    health_check_timeout = cfg.health_check_timeout;
  }

  -- What NewClient returns and leaves, for a configuration and the process before.
  abbrev pub Outcome : Config float → Process → Result Error Client → Process → Type 0
  Outcome cfg p (ok c) q =
      IsValid float below_one order policies cfg
      × ((t : Target) × (parse_target target cfg.default_namespace ≡ ok t)
          × Dials t cfg c.conn
          × (q ≡ record { active_config = some (configured t cfg); contexts = suc p.contexts }))
      × (c ≡ record { conn = c.conn; closing = false; closed = false; calls = [] })
  Outcome cfg p (err (invalid_config field)) q =
      ¬ IsValid float below_one order policies cfg
      × (validate float below_one order policies cfg ≡ some field)
      × (q ≡ p)
  Outcome cfg p (err (invalid_target e)) q =
      IsValid float below_one order policies cfg
      × (parse_target target cfg.default_namespace ≡ err e)
      × (q ≡ p)
  Outcome cfg p (err unknown_policy) q = ⊥
  Outcome cfg p (err service_config_failed) q =
      IsValid float below_one order policies cfg
      × (marshal balancer_name ≡ none)
      × (q.contexts ≡ p.contexts)
  Outcome cfg p (err dial_failed) q =
      IsValid float below_one order policies cfg
      × ((t : Target) × (json : Bytes) × (parse_target target cfg.default_namespace ≡ ok t)
          × (marshal balancer_name ≡ some json)
          × (dial target (dial_options float t cfg json) ≡ none))
      × (q.contexts ≡ p.contexts)

  not_valid :
      (cfg : Config float) (field : Field)
      → validate float below_one order policies cfg ≡ some field
      → ¬ IsValid float below_one order policies cfg
  not_valid cfg field h valid =
      let accepted = (validate_valid float below_one order policies cfg).1 valid in
      ground (arith, h, accepted)

  lookup_policy-IsValid :
      (cfg : Config float)
      → IsValid float below_one order policies cfg
      → (factory : _) × (lookup_policy order cfg.load_balancing_policy policies ≡ ok factory)
  unfolding lookup_policy
  lookup_policy-IsValid cfg h =
      elim (Option-cases (lookup Bytes-discrete cfg.load_balancing_policy policies)) [
        | inl e ↦ absurd (h.0 e)
        | inr (factory, e) ↦ (factory, rw (e, lookup_policy) refl)
      ]

  connect-Outcome :
      (t : Target) (cfg : Config float) (p : Process)
      → IsValid float below_one order policies cfg
      → parse_target target cfg.default_namespace ≡ ok t
      → let r =
          connect float below_one two order policies marshal dial target t cfg
            (set_active_config (client_config float t cfg) p) in
        Outcome cfg p r.0 r.1
  unfolding connect set_active_config client_config
  connect-Outcome t cfg p valid parsed = elim (Option-cases (marshal balancer_name)) [
    | inl m ↦ rw (m, connect) (valid, m, refl)
    | inr (json, m) ↦ elim (Option-cases (dial target (dial_options float t cfg json))) [
      | inl d ↦ rw (m, connect, d) (valid, (t, json, parsed, m, d), omega arith)
      | inr (conn, d) ↦ rw (m, connect, d) (valid, (t, parsed, (json, m, d), refl), refl)
    ]
  ]

  new_client_with-Outcome :
      (cfg : Config float) (p : Process)
      → let r = new_client_with float below_one two order policies marshal dial target cfg p in
        Outcome cfg p r.0 r.1
  unfolding new_client_with
  new_client_with-Outcome cfg p =
      elim (Option-cases (validate float below_one order policies cfg)) [
        | inl v ↦
            let valid = (validate_valid float below_one order policies cfg).0 v in
            elim (Result-cases (parse_target target cfg.default_namespace)) [
              | inl (t, e) ↦
                  let (factory, f) = lookup_policy-IsValid cfg valid in
                  rw (v, new_client_with, e, f) (connect-Outcome t cfg p valid e)
              | inr (x, e) ↦ rw (v, new_client_with, e) (valid, e, refl)
            ]
        | inr (field, v) ↦ rw (v, new_client_with) (not_valid cfg field v, v, refl)
      ]

  -- R1.3, R2.2, R9.2, R9.4: NewClient, with DefaultConfig where it is given none, succeeds exactly
  -- where the configuration is valid, the target parses, and the service config and grpc.NewClient
  -- do not fail; then the balancer's configuration for the process has the target's namespace and
  -- service and the client's policy, limit and health check settings, one more context is to be
  -- cancelled, and the client is open. An invalid configuration or target leaves the process as it
  -- was, and no failure leaves a context that is not cancelled; the failure says which of the steps
  -- failed, the steps before it having succeeded.
  pub new_client-Outcome :
      (given : Option (Config float)) (p : Process)
      → let r = new_client float below_one two order policies marshal dial target given p in
        Outcome (or_default float two given) p r.0 r.1
  unfolding new_client
  new_client-Outcome given p = new_client_with-Outcome (or_default float two given) p

  or_policy_ne : (policy before : Bytes) → policy ≢ [] → or_policy policy before ≡ policy
  unfolding or_policy
  or_policy_ne [] before h = absurd (h refl)
  or_policy_ne (b ∷ policy) before h = refl

  build-client_config :
      (t : Target) (cfg : Config float) (contexts : ℕ) (store : Store) (r : Ref) (rs : List Ref)
      (factory : List Ref → Picker) (q : Process)
      → q ≡ record { active_config = some (configured t cfg); contexts = contexts }
      → cfg.load_balancing_policy ≢ []
      → lookup_policy order cfg.load_balancing_policy policies ≡ ok factory
      → ((build store q).cfg ≡ record {
        namespace = t.namespace;
        service = t.service;
        policy = cfg.load_balancing_policy;
        max_subconns = cfg.max_subconnections;
        enable_health_check = cfg.enable_health_check;
        health_check_service_name = cfg.health_check_service_name;
        health_check_interval = cfg.health_check_interval;
        health_check_timeout = cfg.health_check_timeout;
      })
        × (build_picker policies order (build store q) (r ∷ rs) ≡ factory (r ∷ rs))
  unfolding build get_active_config new_balancer build_picker
  build-client_config t cfg contexts store r rs factory q e named found =
      let kept = or_policy_ne cfg.load_balancing_policy (codes "round_robin") named in
      rw e (refl, rw (build_picker, kept, found) refl)

  -- R5.2, R5.3: where NewClient succeeds with a policy that is not "", the balancer that is built
  -- from the process's configuration next has the target's namespace and service, and the client's
  -- policy, limit on SubConns, and health check with its service name, interval and timeout; its
  -- pickers over healthy entries are those of the configured policy, never the fallback.
  pub build-new_client :
      (given : Option (Config float)) (p : Process) (c : Client) (store : Store) (r : Ref)
      (rs : List Ref)
      → (or_default float two given).load_balancing_policy ≢ []
      → (new_client float below_one two order policies marshal dial target given p).0 ≡ ok c
      → let cfg = or_default float two given in
        let q = (new_client float below_one two order policies marshal dial target given p).1 in
        (t : Target) × (factory : List Ref → Picker) × (parse_target target cfg.default_namespace
          ≡ ok t)
        × ((build store q).cfg ≡ record {
          namespace = t.namespace;
          service = t.service;
          policy = cfg.load_balancing_policy;
          max_subconns = cfg.max_subconnections;
          enable_health_check = cfg.enable_health_check;
          health_check_service_name = cfg.health_check_service_name;
          health_check_interval = cfg.health_check_interval;
          health_check_timeout = cfg.health_check_timeout;
        })
        × (lookup_policy order cfg.load_balancing_policy policies ≡ ok factory)
        × (build_picker policies order (build store q) (r ∷ rs) ≡ factory (r ∷ rs))
  build-new_client given p c store r rs named h =
      let cfg = or_default float two given in
      let result = new_client float below_one two order policies marshal dial target given p in
      let outcome = subst (λ x. Outcome cfg p x result.1) h (new_client-Outcome given p) in
      let (t, parsed, dials, q) = outcome.1 in
      let (factory, found) = lookup_policy-IsValid cfg outcome.0 in
      let (same, picker) =
        build-client_config t cfg (suc p.contexts) store r rs factory result.1 q named found in
      (t, factory, parsed, same, found, picker)
