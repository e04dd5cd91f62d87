-- ===== src/Config.antt =====
-- config.go: the configuration of a client, its defaults, and its validation. Arguments that stand
-- for what is not in the repository: `Float64`, with `below_one`, the test whether a float64 is below
-- 1.0, and `two`, the float64 2.0. An error of validate is kept by the field that it names. Not
-- modelled: the dial options, the logger and the meter provider.
pub mod Validity
use go_kubegrpc.Base.{
  ◌*◌, ℕ, ◌≡◌, refl, List, [], ◌∷◌, Option, none, some, Bool, true, false, ◌&&◌, if◌then◌else◌,
}
use go_kubegrpc.Base.Int.{ℤ, pos, ltb_ℤ}
use go_kubegrpc.Base.Maps.{MapOrder}
use go_kubegrpc.Base.Result.{ok, err}
use go_kubegrpc.Text.{Bytes, codes}
use go_kubegrpc.Registry.{lookup_policy}
use go_kubegrpc.Retry.{Float64, Policy}

pub record RetryPolicy (float : Float64) : Type 0 where
  pub max_attempts : ℤ
  pub initial_backoff : ℤ
  pub max_backoff : ℤ
  pub backoff_multiplier : float.F
  pub retryable_status_codes : List ℕ

pub record Config (float : Float64) : Type 0 where
  pub default_namespace : Bytes
  pub kubeconfig : Bytes
  pub load_balancing_policy : Bytes
  pub enable_health_check : Bool
  pub health_check_service_name : Bytes
  pub health_check_interval : ℤ
  pub health_check_timeout : ℤ
  pub retry_policy : RetryPolicy float
  pub resolver_grace_window : ℤ
  pub max_subconnections : ℤ

-- The fields that the errors of `validate` name.
pub data Field : Type 0 where
  load_balancing_policy max_attempts initial_backoff max_backoff backoff_multiplier : Field
  max_subconnections retryable_status_codes health_check_interval health_check_timeout : Field
  resolver_grace_window : Field

abbrev pub millisecond : ℕ
millisecond = 1000000

-- codes.Unavailable, codes.ResourceExhausted and codes.Aborted.
abbrev pub default_codes : List ℕ
default_codes = 14 ∷ 8 ∷ 10 ∷ []

-- `len(s) == 0`.
abbrev pub is_empty : List ℕ → Bool
is_empty [] = true
is_empty (c ∷ cs) = false

module _ (float : Float64) where
  -- `DefaultConfig`.
  unfoldable pub default_config : float.F → Config float
  default_config two = record {
    default_namespace = [];
    kubeconfig = [];
    load_balancing_policy = codes "round_robin";
    enable_health_check = true;
    health_check_service_name = [];
    health_check_interval = pos (10000 * millisecond);
    health_check_timeout = pos (2000 * millisecond);
    retry_policy = record {
      max_attempts = pos 3;
      initial_backoff = pos (100 * millisecond);
      max_backoff = pos (2000 * millisecond);
      backoff_multiplier = two;
      retryable_status_codes = default_codes;
    };
    resolver_grace_window = pos (30000 * millisecond);
    max_subconnections = pos 0;
  }

  -- The copy of the policy that `NewClient` gives the interceptors.
  unfoldable pub retry_policy_of : RetryPolicy float → Policy float
  retry_policy_of p = record {
    max_attempts = p.max_attempts;
    initial_backoff = p.initial_backoff;
    max_backoff = p.max_backoff;
    backoff_multiplier = p.backoff_multiplier;
    retryable_status_codes = p.retryable_status_codes;
  }

  module _ (below_one : float.F → Bool) {F : Type 0} (order : MapOrder)
      (policies : List (Bytes × F)) where
    -- `validate` behind its test of the policy's name.
    unfoldable pub validate_bounds : Config float → Option Field
    validate_bounds c =
        if ltb_ℤ c.retry_policy.max_attempts (pos 1)
        then some Field.max_attempts
        else if ltb_ℤ c.retry_policy.initial_backoff (pos 0)
        then some Field.initial_backoff
        else if ltb_ℤ c.retry_policy.max_backoff (pos 0)
        then some Field.max_backoff
        else if below_one c.retry_policy.backoff_multiplier
        then some Field.backoff_multiplier
        else if ltb_ℤ c.max_subconnections (pos 0)
        then some Field.max_subconnections
        else if ltb_ℤ (pos 1) c.retry_policy.max_attempts
            && is_empty c.retry_policy.retryable_status_codes
        then some Field.retryable_status_codes
        else if ltb_ℤ c.health_check_interval (pos 0)
        then some Field.health_check_interval
        else if ltb_ℤ c.health_check_timeout (pos 0)
        then some Field.health_check_timeout
        else if ltb_ℤ c.resolver_grace_window (pos 0)
        then some Field.resolver_grace_window
        else none

    -- `validate`.
    unfoldable pub validate : Config float → Option Field
    unfolding validate_bounds
    validate c = elim (lookup_policy order c.load_balancing_policy policies) [
      | err _ ↦ some Field.load_balancing_policy
      | ok _ ↦ validate_bounds c
    ]
