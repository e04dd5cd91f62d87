-- ===== src/Retry/Streams.antt =====
-- StreamClientInterceptor beside UnaryClientInterceptor.
use go_kubegrpc.Base.{
  ℕ, zero, suc, ◌≡◌, refl, ap, sym, List, [], ◌∷◌, Option, none, some, Bool, true, false, ◌||◌,
  arith, Option-cases, Bool-cases, inl, inr,
}
use go_kubegrpc.Base.Int.{pos, pos_part, leb_ℤ}
use go_kubegrpc.Base.Result.{Result, ok, err, Result-cases}
use go_kubegrpc.Retry.{
  ctx_failure, Float64, Policy, Env, Failure, call_failed, no_error, ctx_failed, ctx_wraps, Event,
  called, slept, unary_loop, unary, stream_loop, stream, call_once, call_stream, raw, wrapped,
  StreamResult, backoff, last_failure, was_sent,
}

-- The error of a failure, if it is one.
abbrev pub error_of : {E C : Type 0} → Failure E C → Option (Failure E C)
error_of (call_failed e) = some (call_failed e)
error_of (ctx_failed c) = some (ctx_failed c)
error_of (ctx_wraps c e) = some (ctx_wraps c e)
error_of no_error = none

-- The result of the unary interceptor as one of a stream, wrapped or not.
abbrev pub as_stream : {E C A : Type 0} → Bool → Result (Failure E C) A → StreamResult E C A
as_stream true (ok a) = (some (raw a), none)
as_stream false (ok a) = (some (wrapped (record { client_stream = a; sent_msg = false })), none)
as_stream direct (err f) = (none, error_of f)

error_of-ctx_failure :
    {E C : Type 0} (c : C) (last : Option E)
    → error_of (ctx_failure c last) ≡ some (ctx_failure c last)
unfolding ctx_failure
error_of-ctx_failure c none = refl
error_of-ctx_failure c (some e) = refl

module _ (float : Float64) {E C A : Type 0} (status_code : E → ℕ) (policy : Policy float)
    (env : Env E C A) where
  stream_loop-unary_loop :
      (k attempt : ℕ) (last : Option E) (log : List Event)
      → let run = unary_loop float status_code policy env k attempt last log in
        stream_loop float status_code policy env k attempt last none log
        ≡ (as_stream false run.0, run.1)
  unfolding unary_loop stream_loop last_failure was_sent
  stream_loop-unary_loop zero attempt none log = refl
  stream_loop-unary_loop zero attempt (some e) log = refl
  stream_loop-unary_loop (suc k) attempt last log = elim (Option-cases (env.ctx_err attempt)) [
    | inr (c, h) ↦
        rw (h, stream_loop, unary_loop)
          (ap (λ f. ((none, f), log)) (sym (error_of-ctx_failure c last)))
    | inl h ↦ elim (Result-cases (env.call_result attempt)) [
      | inl (a, r) ↦ rw (h, stream_loop, unary_loop, r) refl
      | inr (e, r) ↦ ground (
        arith,
        stream_loop-unary_loop k (suc attempt) (some e)
            (slept (backoff float status_code policy env attempt) ∷ called attempt ∷ log),
      )
    ]
  ]

  -- R7.2, R7.6, R7.7, R7.8: establishing a stream is retried as a unary call is: with the same calls
  -- and sleeps, to the same error, or to the stream of the call that succeeds, wrapped unless the
  -- call is marked as not idempotent or MaxAttempts is at most 1.
  pub stream-unary :
      (non_idempotent : Bool)
      → let run = unary float status_code policy env non_idempotent in
        stream float status_code policy env non_idempotent
        ≡ (as_stream (non_idempotent || leb_ℤ policy.max_attempts (pos 1)) run.0, run.1)
  unfolding unary stream call_once call_stream
  stream-unary non_idempotent =
      elim (Bool-cases (non_idempotent || leb_ℤ policy.max_attempts (pos 1))) [
        | inr h ↦ rw h (stream_loop-unary_loop (pos_part policy.max_attempts) 1 none [])
        | inl h ↦ elim (Result-cases (env.call_result 1)) [
          | inl (a, r) ↦ rw (h, call_once, call_stream, r) refl
          | inr (e, r) ↦ rw (h, call_once, call_stream, r) refl
        ]
      ]
