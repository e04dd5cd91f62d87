-- ===== src/Tests/Clients.antt =====
-- Configurations and clients at concrete inputs.
use go_kubegrpc.Base.{
  ◌≤◌, Bool, ℕ, ◌≡◌, ◌≢◌, ◌↔◌, refl, List, [], ◌∷◌, ◌++◌, Option, none, some, true, false, All, map,
  arith, ltb, ◌-◌,
}
use go_kubegrpc.Base.Int.{negsuc}
use go_kubegrpc.Base.Maps.{in_order, lookup}
use go_kubegrpc.Base.Result.{ok}
use go_kubegrpc.Text.{Bytes, codes}
use go_kubegrpc.Target.{parse_target, Target}
use go_kubegrpc.Registry.{built_in, lookup_policy}
use go_kubegrpc.Pool.{Ref}
use go_kubegrpc.Picker.{new_rr_picker}
use go_kubegrpc.Balancer.{Picker, Policies, rr, lr, build_picker}
use go_kubegrpc.Config.{Config, Field, default_config, validate}
use go_kubegrpc.Config.Validity.{IsValid, Meets, fields, validate_valid, validate_names}
use go_kubegrpc.Client.{
  opens_stream, cancel, ConnCall, invokes, other_option, is_non_idempotent, Process, Client,
  non_idempotent, new_client, or_default, DialOptions, build, closes,
}
use go_kubegrpc.Client.Calls.{close, invoke, new_stream, close_returns}
use go_kubegrpc.Client.Calls.{Op, run}
use go_kubegrpc.Client.Conservation.{under_way, made, refused, steps_race}
use go_kubegrpc.Client.Races
use go_kubegrpc.Client.Races.{
  Step, checks, forwards, close_begins, close_ends, steps, open_session, answered,
}
use go_kubegrpc.Client.Construction.{Outcome, new_client-Outcome, build-new_client}
use go_kubegrpc.Client.Lifetime.{reply, refusal, pushed, run_lifetime}
use go_kubegrpc.Tests.Pools.{blank}
use go_kubegrpc.Tests.Retries.{exact}

abbrev below_one : ℕ → Bool
below_one n = ltb n 1

abbrev policies : Policies
policies = built_in (λ rs. rr (new_rr_picker rs)) (λ rs. lr rs)

abbrev defaults : Config exact
defaults = default_config exact 2

abbrev negative : Config exact
negative = record defaults { max_subconnections = negsuc 0 }

validate_valid_example :
    (validate exact below_one in_order policies defaults ≡ none)
    ↔ IsValid exact below_one in_order policies defaults
validate_valid_example = validate_valid exact below_one in_order policies defaults

negative_refused :
    validate exact below_one in_order policies negative ≡ some Field.max_subconnections
unfolding validate default_config lookup_policy lookup built_in
negative_refused = refl

validate_names_example :
    (before : List Field) × (after : List Field) × (fields
      ≡ before ++ Field.max_subconnections ∷ after)
    × ¬ Meets exact below_one in_order policies negative Field.max_subconnections
    × All (Meets exact below_one in_order policies negative) before
validate_names_example =
    validate_names exact below_one in_order policies negative Field.max_subconnections
      negative_refused

abbrev marshal : Bytes → Option Bytes
marshal name = some name

abbrev dial : Bytes → DialOptions exact → Option ℕ
dial target options = some 7

abbrev process : Process
process = record { active_config = none; contexts = 0 }

abbrev target : Bytes
target = codes "k8s:///prod/api:80"

new_client-Outcome_example :
    let r = new_client exact below_one 2 in_order policies marshal dial target none process in
    Outcome exact below_one 2 in_order policies marshal dial target
      (or_default exact 2 none)
      process
      r.0
      r.1
new_client-Outcome_example =
    new_client-Outcome exact below_one 2 in_order policies marshal dial target none process

abbrev fresh : Client
fresh = record { conn = 7; closing = false; closed = false; calls = [] }

target_accepted :
    (new_client exact below_one 2 in_order policies marshal dial target none process).0 ≡ ok fresh
unfolding new_client default_config lookup_policy lookup built_in
target_accepted = refl

round_robin_named : (or_default exact 2 none).load_balancing_policy ≢ []
unfolding or_default
round_robin_named h = ground arith

build-new_client_example :
    let cfg = or_default exact 2 none in
    let q = (new_client exact below_one 2 in_order policies marshal dial target none process).1 in
    (t : Target) × (factory : List Ref → Picker) × (parse_target target cfg.default_namespace
      ≡ ok t)
    × ((build blank q).cfg ≡ record {
      namespace = t.namespace;
      service = t.service;
      policy = cfg.load_balancing_policy;
      max_subconns = cfg.max_subconnections;
      enable_health_check = cfg.enable_health_check;
      health_check_service_name = cfg.health_check_service_name;
      health_check_interval = cfg.health_check_interval;
      health_check_timeout = cfg.health_check_timeout;
    })
    × (lookup_policy in_order cfg.load_balancing_policy policies ≡ ok factory)
    × (build_picker policies in_order (build blank q) (0 ∷ []) ≡ factory (0 ∷ []))
build-new_client_example =
    build-new_client exact below_one 2 in_order policies marshal dial target none process fresh
      blank 0 [] round_robin_named target_accepted

abbrev before : List Op
before = invoke 1 [] ∷ new_stream 2 (non_idempotent ∷ []) ∷ []

abbrev after : List Op
after = invoke 3 [] ∷ close ∷ []

run_lifetime_example : run (some 5) (before ++ close ∷ after) (fresh, process) ≡ (
  map reply before ++ close_returns (some 5) ∷ map refusal after,
  (
    record { conn = 7; closing = true; closed = true; calls = closes ∷ pushed before [] },
    record process { contexts = process.contexts - 1 },
  ),
)
run_lifetime_example = run_lifetime (some 5) before after 7 process (tt, (tt, tt))

skips : is_non_idempotent (other_option 1 ∷ non_idempotent ∷ []) ≡ true
unfolding is_non_idempotent
skips = refl

-- One call is on its way when Close begins, and one comes behind it.
abbrev first_call : ConnCall
first_call = invokes 1 []

abbrev any_call : ConnCall → Bool
any_call c = true

abbrev earlier : List Step
earlier = checks first_call ∷ checks (opens_stream 2 []) ∷ forwards 1 ∷ []

abbrev later : List Step
later = forwards 0 ∷ checks (invokes 3 []) ∷ close_ends ∷ close_ends ∷ []

steps_race_example :
    let s = steps (some 5) (earlier ++ close_begins ∷ later) (open_session process) in
    (under_way any_call s ≡ made any_call earlier)
    × (refused any_call s.replies ≡ made any_call later)
    × (s.conn_closes ≤ 1)
    × (s.process ≡ cancel process)
steps_race_example = steps_race (some 5) any_call earlier later process (tt, (tt, (tt, tt)))

session_over :
    (steps (some 5) (earlier ++ close_begins ∷ later) (open_session process)).replies
    ≡ Races.close_returns none
      ∷ Races.close_returns (some 5)
      ∷ Races.client_closed (invokes 3 [])
      ∷ answered (opens_stream 2 [])
      ∷ answered first_call
      ∷ []
unfolding steps open_session
session_over = refl
