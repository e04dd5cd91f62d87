-- ===== src/Health.antt =====
-- internal/health: the health checker of a SubConn (checker.go) and the state machine that reports
-- its transitions (state.go). The goroutine of runWatch waits at one place at a time, its phase, and
-- what it waits for is an event; a send on the channel is part of the step that makes it, and fails
-- only where the context is done. Arguments that stand for what is not in the repository:
-- `status_code`, the code of an error; the events, how the calls of gRPC and the timers end.
pub mod Drain
pub mod Checks
pub mod Waits
pub mod Transitions
pub mod Reports
use go_kubegrpc.Base.{
  suc, ℕ, ◌*◌, ◌^◌, ◌≡◌, refl, List, [], ◌∷◌, ◌++◌, Option, none, some, Bool, true, false, ◌==◌,
  if◌then◌else◌, ltb,
}
use go_kubegrpc.Base.Int.{ℤ, pos, leb_ℤ}
use go_kubegrpc.Base.Result.{Result, ok, err}
use go_kubegrpc.Text.{Bytes}

pub data HealthState : Type 0 where
  health_unknown health_serving health_not_serving : HealthState

pub record CheckerConfig : Type 0 where
  pub service_name : Bytes
  pub interval : ℤ
  pub timeout : ℤ
  pub enable_check : Bool

-- Where the goroutine of the checker waits: for client.Watch, for the backoff, for stream.Recv, for
-- the ticker of runPeriodicCheck. `exited` is its return, which closes the channel; `panicked` is
-- the panic of time.NewTicker on an interval that is not positive.
pub data Phase : Type 0 where
  dialing waiting streaming periodic exited panicked : Phase

-- `sent` is what went through the channel, `waits` the delays given to time.After, newest first;
-- `watches` and `probes` count the calls of Watch and Check, the latter with their timeout.
pub record Checker : Type 0 where
  pub phase : Phase
  pub backoff : ℕ
  pub sent : List HealthState
  pub waits : List ℕ
  pub watches : ℕ
  pub probes : List ℤ

-- A call's answer is an error or a serving status; `delivered` is what sendState returns.
pub data Event (E : Type 0) : Type 0 where
  -- client.Watch returns: an error, or a stream.
  watched : Option E → (delivered : Bool) → Event E
  -- time.After fires.
  elapsed : Event E
  -- stream.Recv returns; `ended` is whether ctx.Err() is set then.
  received : (ended : Bool) → Result E ℕ → (delivered : Bool) → Event E
  -- The ticker fires, and Check answers.
  ticked : Result E ℕ → (delivered : Bool) → Event E
  -- A select finds the context done.
  cancelled : Event E

abbrev pub second : ℕ
second = 1000000000

-- codes.Unimplemented, and HealthCheckResponse_SERVING.
abbrev pub unimplemented : ℕ
unimplemented = 12

abbrev pub serving_status : ℕ
serving_status = 1

unfoldable pub is_unimplemented : {E : Type 0} → (E → ℕ) → E → Bool
is_unimplemented status_code e = status_code e == unimplemented

unfoldable pub to_health_state : ℕ → HealthState
to_health_state s = if s == serving_status then health_serving else health_not_serving

-- The result of the Check RPC of `doCheck`.
unfoldable pub do_check : {E : Type 0} → Result E ℕ → HealthState
unfolding to_health_state
do_check (err _) = health_not_serving
do_check (ok s) = to_health_state s

-- `sendState`, and what the goroutine does behind it; it returns where the state is not delivered.
unfoldable pub send_state : Bool → HealthState → (Checker → Checker) → Checker → Checker
send_state true state next c = next (record c { sent = state ∷ c.sent })
send_state false state next c = record c { phase = exited }

abbrev pub wait_in : Phase → Checker → Checker
wait_in phase c = record c { phase = phase }

-- The start of `runPeriodicCheck`.
unfoldable pub enter_periodic : CheckerConfig → Checker → Checker
enter_periodic cfg c =
    if leb_ℤ cfg.interval (pos 0)
    then record c { phase = panicked }
    else record c { phase = periodic }

-- The call of client.Watch at the head of the loop.
unfoldable pub redial : Checker → Checker
redial c = record c { phase = dialing; watches = suc c.watches }

-- `backoff *= 2`, at most 10 seconds.
unfoldable pub grow : ℕ → ℕ
grow backoff = if ltb (10 * second) (backoff * 2) then 10 * second else backoff * 2

-- The wait behind a transient error of client.Watch.
unfoldable pub wait_backoff : Checker → Checker
wait_backoff c = record c { phase = waiting; waits = c.backoff ∷ c.waits }

-- The checker between `Watch` and the first event.
unfoldable pub start : CheckerConfig → Checker
start cfg =
    if cfg.enable_check
    then record {
      phase = dialing;
      backoff = second;
      sent = [];
      waits = [];
      watches = 1;
      probes = [];
    }
    else record {
      phase = exited;
      backoff = second;
      sent = health_serving ∷ [];
      waits = [];
      watches = 0;
      probes = [];
    }

module _ {E : Type 0} (status_code : E → ℕ) (cfg : CheckerConfig) where
  unfoldable pub on_watched : Option E → Bool → Checker → Checker
  unfolding is_unimplemented enter_periodic send_state wait_backoff
  on_watched none delivered c = record c { phase = streaming; backoff = second }
  on_watched (some e) delivered c =
      if is_unimplemented status_code e
      then enter_periodic cfg c
      else send_state delivered health_not_serving wait_backoff c

  unfoldable pub on_received : Bool → Result E ℕ → Bool → Checker → Checker
  unfolding is_unimplemented enter_periodic send_state redial to_health_state
  on_received ended (ok s) delivered c =
      send_state delivered (to_health_state s) (wait_in streaming) c
  on_received true (err e) delivered c = record c { phase = exited }
  on_received false (err e) delivered c =
      if is_unimplemented status_code e
      then enter_periodic cfg c
      else send_state delivered health_not_serving redial c

  -- One round of the goroutine; an event that it does not wait for passes it by.
  unfoldable pub step : Event E → Checker → Checker
  unfolding on_watched on_received do_check send_state redial grow
  step (watched answer delivered) c = elim c.phase [
    | dialing ↦ on_watched answer delivered c
    | _ ↦ c
  ]
  step elapsed c = elim c.phase [ waiting ↦ redial (record c { backoff = grow c.backoff }) | _ ↦ c ]
  step (received ended answer delivered) c = elim c.phase [
    | streaming ↦ on_received ended answer delivered c
    | _ ↦ c
  ]
  step (ticked answer delivered) c = elim c.phase [
    | periodic ↦
        send_state delivered (do_check answer) (wait_in periodic)
          (record c { probes = cfg.timeout ∷ c.probes })
    | _ ↦ c
  ]
  step cancelled c = elim c.phase [
    | waiting ↦ record c { phase = exited }
    | periodic ↦ record c { phase = exited }
    | _ ↦ c
  ]

  -- `runWatch` through a history, newest first.
  unfoldable pub run : List (Event E) → Checker
  unfolding step start
  run [] = start cfg
  run (e ∷ es) = step e (run es)
