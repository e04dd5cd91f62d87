-- ===== src/Retry.antt =====
-- internal/retry: the backoff of an attempt (backoff.go) and the interceptors that retry a call
-- (interceptor.go). Arguments that stand for what is not in the repository: `Float64`, the
-- arithmetic of float64; `Env`, how the calls of gRPC end and when the context does; `status_code`,
-- the code of an error. The attempt tracker, which the context carries to the picker, is in Success.
pub mod Backoff
pub mod Attempts
pub mod Streams
pub mod Success
pub mod Delivery
use mathlib.Core.Option
use go_kubegrpc.Base.{
  ℕ, zero, suc, ◌≡◌, refl, List, [], ◌∷◌, Option, none, some, Bool, true, false, not, ◌||◌, ◌==◌,
  if◌then◌else◌, leb,
}
use go_kubegrpc.Base.Int.{pos_part, ℤ, pos, negsuc, ltb_ℤ, leb_ℤ}
use go_kubegrpc.Base.Result.{Result, ok, err}

-- float64, with its conversions from and to time.Duration.
pub record Float64 : Type 1 where
  pub F : Type 0
  pub of_int : ℤ → F
  pub mul : F → F → F
  pub to_int : F → ℤ

module _ (float : Float64) (initial max : ℤ) (multiplier : float.F) where
  -- The loop of `AttemptBackoff`, `i` rounds from its end, and the test after it.
  unfoldable pub scale : ℕ → float.F → ℤ
  scale zero dur = if ltb_ℤ max (float.to_int dur) then max else float.to_int dur
  scale (suc i) dur =
      let next = float.mul dur multiplier in
      let rest = scale i next in if leb_ℤ max (float.to_int next) then max else rest

  unfoldable pub first_backoff : ℤ
  first_backoff = if ltb_ℤ max initial then max else initial

  -- `AttemptBackoff`.
  unfoldable pub attempt_backoff : ℤ → ℤ
  unfolding scale first_backoff
  attempt_backoff (negsuc n) = first_backoff
  attempt_backoff (pos zero) = first_backoff
  attempt_backoff (pos (suc zero)) = first_backoff
  attempt_backoff (pos (suc (suc n))) = scale (suc n) (float.of_int initial)

pub record Policy (float : Float64) : Type 0 where
  pub max_attempts : ℤ
  pub initial_backoff : ℤ
  pub max_backoff : ℤ
  pub backoff_multiplier : float.F
  pub retryable_status_codes : List ℕ

unfoldable pub contains : ℕ → List ℕ → Bool
contains c [] = false
contains c (rc ∷ codes) = if c == rc then true else contains c codes

-- `isRetryable` of an error that is not nil.
unfoldable pub is_retryable {ℓ} : {E : Type ℓ} → (E → ℕ) → E → List ℕ → Bool
unfolding contains
is_retryable status_code e retryable = contains (status_code e) retryable

-- How the n-th call of the invoker or streamer ends, ctx.Err() before it, and ctx.Err() if the
-- select after it finds the context done before the timer.
pub record Env (E C A : Type 0) : Type 0 where
  pub call_result : ℕ → Result E A
  pub ctx_err : ℕ → Option C
  pub ctx_done : ℕ → Option C

-- The error returned: that of a call, or the context's, alone or wrapping that of the last call.
pub data Failure (E C : Type 0) : Type 0 where
  call_failed : E → Failure E C
  ctx_failed : C → Failure E C
  ctx_wraps : C → E → Failure E C
  no_error : Failure E C

-- What an interceptor does, newest first.
pub data Event : Type 0 where
  called : ℕ → Event
  slept : ℤ → Event

unfoldable pub ctx_failure : {E C : Type 0} → C → Option E → Failure E C
ctx_failure c none = ctx_failed c
ctx_failure c (some e) = ctx_wraps c e

-- `return lastErr` after the loop.
unfoldable pub last_failure : {E C : Type 0} → Option E → Failure E C
last_failure none = no_error
last_failure (some e) = call_failed e

-- A call that is not retried.
unfoldable pub call_once : {E C A : Type 0} → Env E C A → Result (Failure E C) A × List Event
call_once env = elim (env.call_result 1) [
  | ok a ↦ (ok a, called 1 ∷ [])
  | err e ↦ (err (call_failed e), called 1 ∷ [])
]

module _ (float : Float64) {E C A : Type 0} (status_code : E → ℕ) (policy : Policy float)
    (env : Env E C A) where
  abbrev pub backoff : ℕ → ℤ
  backoff attempt =
      attempt_backoff float policy.initial_backoff policy.max_backoff policy.backoff_multiplier
        (pos attempt)

  -- The loop of UnaryClientInterceptor with `k` attempts left, at its `attempt`.
  unfoldable pub unary_loop : ℕ → ℕ → Option E → List Event → Result (Failure E C) A × List Event
  unfolding is_retryable attempt_backoff ctx_failure last_failure
  unary_loop zero attempt last log = (err (last_failure last), log)
  unary_loop (suc k) attempt last log = elim (env.ctx_err attempt) [
    | some c ↦ (err (ctx_failure c last), log)
    | none ↦ elim (env.call_result attempt) [
      | ok a ↦ (ok a, called attempt ∷ log)
      | err e ↦
          if not (is_retryable status_code e policy.retryable_status_codes)
          then (err (call_failed e), called attempt ∷ log)
          else if leb_ℤ policy.max_attempts (pos attempt)
          then (err (call_failed e), called attempt ∷ log)
          else elim (env.ctx_done attempt) [
            | some c ↦ (err (ctx_wraps c e), called attempt ∷ log)
            | none ↦
                unary_loop k (suc attempt) (some e) (slept (backoff attempt) ∷ called attempt ∷ log)
          ]
    ]
  ]

  -- `UnaryClientInterceptor`, by whether the call is marked as not idempotent.
  unfoldable pub unary : Bool → Result (Failure E C) A × List Event
  unfolding call_once unary_loop
  unary non_idempotent =
      if non_idempotent || leb_ℤ policy.max_attempts (pos 1)
      then call_once env
      else unary_loop (pos_part policy.max_attempts) 1 none []

-- `retryableClientStream`.
pub record RetryableStream (A : Type 0) : Type 0 where
  pub client_stream : A
  pub sent_msg : Bool

-- `SendMsg`, by whether the stream's own SendMsg succeeds.
unfoldable pub send_msg : {A : Type 0} → Bool → RetryableStream A → RetryableStream A
send_msg true s = record s { sent_msg = true }
send_msg false s = s

-- What StreamClientInterceptor returns: the stream of gRPC itself, or wrapped.
pub data Opened (A : Type 0) : Type 0 where
  raw : A → Opened A
  wrapped : RetryableStream A → Opened A

unfoldable pub was_sent : {A : Type 0} → Option (RetryableStream A) → Bool
was_sent none = false
was_sent (some s) = s.sent_msg

-- `(stream, err)`.
abbrev pub StreamResult : Type 0 → Type 0 → Type 0 → Type 0
StreamResult E C A = Option (Opened A) × Option (Failure E C)

unfoldable pub call_stream : {E C A : Type 0} → Env E C A → StreamResult E C A × List Event
call_stream env = elim (env.call_result 1) [
  | ok a ↦ ((some (raw a), none), called 1 ∷ [])
  | err e ↦ ((none, some (call_failed e)), called 1 ∷ [])
]

-- `lastErr` where it may be nil.
abbrev pub last_err : {E C : Type 0} → Option E → Option (Failure E C)
last_err none = none
last_err (some e) = some (call_failed e)

module _ (float : Float64) {E C A : Type 0} (status_code : E → ℕ) (policy : Policy float)
    (env : Env E C A) where
  -- The loop of StreamClientInterceptor; `stream` is its lastStream.
  unfoldable pub stream_loop :
      ℕ → ℕ → Option E → Option (RetryableStream A) → List Event → StreamResult E C A × List Event
  unfolding is_retryable attempt_backoff ctx_failure last_failure was_sent
  stream_loop zero attempt last stream log = ((none, last_err last), log)
  stream_loop (suc k) attempt last stream log = elim (env.ctx_err attempt) [
    | some c ↦ ((none, some (ctx_failure c last)), log)
    | none ↦
        if was_sent stream
        then ((Option.map wrapped stream, last_err last), log)
        else elim (env.call_result attempt) [
          | ok a ↦ (
            (some (wrapped (record { client_stream = a; sent_msg = false })), none),
            called attempt ∷ log,
          )
          | err e ↦
              if not (is_retryable status_code e policy.retryable_status_codes)
              then ((none, some (call_failed e)), called attempt ∷ log)
              else if leb_ℤ policy.max_attempts (pos attempt)
              then ((none, some (call_failed e)), called attempt ∷ log)
              else elim (env.ctx_done attempt) [
                | some c ↦ ((none, some (ctx_wraps c e)), called attempt ∷ log)
                | none ↦
                    stream_loop k (suc attempt) (some e) stream
                      (slept (backoff float status_code policy env attempt) ∷ called attempt ∷ log)
              ]
        ]
  ]

  -- `StreamClientInterceptor`.
  unfoldable pub stream : Bool → StreamResult E C A × List Event
  unfolding call_stream stream_loop
  stream non_idempotent =
      if non_idempotent || leb_ℤ policy.max_attempts (pos 1)
      then call_stream env
      else stream_loop (pos_part policy.max_attempts) 1 none none []
