-- ===== src/Client.antt =====
-- balancer.go and option.go: the construction of a client, its calls and Close, with the configuration
-- that internal/balancer/builder.go keeps for the process. Arguments that stand for what is not in
-- the repository: `marshal`, json.Marshal of the service config for a balancer's name; `dial`,
-- grpc.NewClient, which returns a connection, known by a number. Errors are kept by their causes,
-- without their messages. Not modelled: the caller's dial options, and the transport credentials.
pub mod Calls
pub mod Construction
pub mod Lifetime
pub mod Races
pub mod Conservation
use go_kubegrpc.Base.{
  ℕ, suc, ◌-◌, ◌≡◌, refl, List, [], ◌∷◌, Option, none, some, Bool, true, false, if◌then◌else◌,
}
use go_kubegrpc.Base.Int.{pos}
use go_kubegrpc.Base.Maps.{MapOrder}
use go_kubegrpc.Base.Result.{Result, ok, err}
use go_kubegrpc.Text.{Bytes, codes}
use go_kubegrpc.Target
use go_kubegrpc.Target.{Target, parse_target}
use go_kubegrpc.Registry.{lookup_policy}
use go_kubegrpc.Retry.{Float64, Policy}
use go_kubegrpc.Picker.{Store}
use go_kubegrpc.Balancer.{BuildConfig, Balancer, Policies, new_balancer}
use go_kubegrpc.Config.{Config, Field, default_config, retry_policy_of, validate}

-- A call option; only the marker of `NonIdempotent` is told from the others.
pub data CallOption : Type 0 where
  non_idempotent : CallOption
  other_option : ℕ → CallOption

-- `IsNonIdempotent`.
unfoldable pub is_non_idempotent : List CallOption → Bool
is_non_idempotent [] = false
is_non_idempotent (non_idempotent ∷ opts) = true
is_non_idempotent (other_option n ∷ opts) = is_non_idempotent opts

-- The process: activeConfig, and how many contexts are derived and not cancelled.
pub record Process : Type 0 where
  pub active_config : Option BuildConfig
  pub contexts : ℕ

-- `SetActiveConfig`.
unfoldable pub set_active_config : BuildConfig → Process → Process
set_active_config cfg p = record p { active_config = some cfg }

abbrev pub zero_config : BuildConfig
zero_config = record {
  namespace = [];
  service = [];
  policy = [];
  max_subconns = pos 0;
  enable_health_check = false;
  health_check_service_name = [];
  health_check_interval = pos 0;
  health_check_timeout = pos 0;
}

-- `getActiveConfig`.
unfoldable pub get_active_config : Process → BuildConfig
get_active_config p = elim p.active_config [ none ↦ zero_config | some cfg ↦ cfg ]

-- `Build` of the balancer's builder.
unfoldable pub build : Store → Process → Balancer
unfolding get_active_config
build store p = new_balancer store (get_active_config p)

-- context.WithCancel, and a call of its cancel function.
abbrev pub with_cancel : Process → Process
with_cancel p = record p { contexts = suc p.contexts }

abbrev pub cancel : Process → Process
cancel p = record p { contexts = p.contexts - 1 }

-- Why `NewClient` fails.
pub data Error : Type 0 where
  invalid_config : Field → Error
  invalid_target : Target.Error → Error
  unknown_policy service_config_failed dial_failed : Error

-- What `NewClient` gives grpc.NewClient, besides the target.
pub record DialOptions (float : Float64) : Type 0 where
  pub retry_unary : Policy float
  pub retry_stream : Policy float
  pub service_config : Bytes
  pub resolver_config : Config float
  pub resolver_target : Target

-- A call of the connection, with what it is given.
pub data ConnCall : Type 0 where
  invokes opens_stream : ℕ → List CallOption → ConnCall
  closes : ConnCall

-- `closing` is whether closeOnce has run; `calls` are those of the connection, newest first.
pub record Client : Type 0 where
  pub conn : ℕ
  pub closing : Bool
  pub closed : Bool
  pub calls : List ConnCall

abbrev pub balancer_name : Bytes
balancer_name = codes "k8s_balancer"

module _ (float : Float64) where
  -- The configuration that `NewClient` sets for the balancer.
  unfoldable pub client_config : Target → Config float → BuildConfig
  client_config t cfg = record {
    namespace = t.namespace;
    service = t.service;
    policy = cfg.load_balancing_policy;
    max_subconns = cfg.max_subconnections;
    enable_health_check = cfg.enable_health_check;
    health_check_service_name = cfg.health_check_service_name;
    health_check_interval = cfg.health_check_interval;
    health_check_timeout = cfg.health_check_timeout;
  }

  unfoldable pub dial_options : Target → Config float → Bytes → DialOptions float
  unfolding retry_policy_of
  dial_options t cfg json = record {
    retry_unary = retry_policy_of float cfg.retry_policy;
    retry_stream = retry_policy_of float cfg.retry_policy;
    service_config = json;
    resolver_config = cfg;
    resolver_target = t;
  }

  unfoldable pub or_default : float.F → Option (Config float) → Config float
  unfolding default_config
  or_default two none = default_config float two
  or_default two (some cfg) = cfg

  module _ (below_one : float.F → Bool) (two : float.F) (order : MapOrder) (policies : Policies)
      (marshal : Bytes → Option Bytes) (dial : Bytes → DialOptions float → Option ℕ) where
    -- `NewClient` behind SetActiveConfig.
    unfoldable pub connect : Bytes → Target → Config float → Process → Result Error Client × Process
    unfolding dial_options
    connect target t cfg p = elim (marshal balancer_name) [
      | none ↦ (err service_config_failed, p)
      | some json ↦ elim (dial target (dial_options t cfg json)) [
        | none ↦ (err dial_failed, cancel (with_cancel p))
        | some conn ↦ (
          ok (record { conn = conn; closing = false; closed = false; calls = [] }),
          with_cancel p,
        )
      ]
    ]

    -- `NewClient` with a configuration.
    unfoldable pub new_client_with : Bytes → Config float → Process → Result Error Client × Process
    unfolding validate parse_target connect set_active_config client_config
    new_client_with target cfg p = elim (validate float below_one order policies cfg) [
      | some field ↦ (err (invalid_config field), p)
      | none ↦ elim (parse_target target cfg.default_namespace) [
        | err e ↦ (err (invalid_target e), p)
        | ok t ↦ elim (lookup_policy order cfg.load_balancing_policy policies) [
          | err _ ↦ (err unknown_policy, p)
          | ok _ ↦ connect target t cfg (set_active_config (client_config t cfg) p)
        ]
      ]
    ]

    -- `NewClient`.
    unfoldable pub new_client :
        Bytes → Option (Config float) → Process → Result Error Client × Process
    unfolding new_client_with or_default
    new_client target cfg p = new_client_with target (or_default two cfg) p
