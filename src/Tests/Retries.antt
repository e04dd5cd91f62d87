-- ===== src/Tests/Retries.antt =====
-- The interceptors at concrete inputs.
use go_kubegrpc.Base.{
  subst, ℕ, zero, suc, ◌*◌, ◌≤◌, ◌≡◌, ◌||◌, subst, [], ◌∷◌, none, false, if◌then◌else◌,
}
use go_kubegrpc.Base.Int.{pos, leb_ℤ, ◌≤ℤ◌, pos_part}
use go_kubegrpc.Base.Result.{Result, ok, err}
use go_kubegrpc.Retry.{Float64, Policy, Env, attempt_backoff, unary, stream}
use go_kubegrpc.Picker.{PickError}
use go_kubegrpc.Retry.Backoff.{attempt_backoff_max}
use go_kubegrpc.Retry.Attempts.{calls, unary_calls}
use go_kubegrpc.Retry.Streams.{as_stream, stream-unary}

-- Whole numbers from 0 on, without rounding.
abbrev pub exact : Float64
exact = record { F = ℕ; of_int = λ a. pos_part a; mul = λ a b. a * b; to_int = λ a. pos a }

-- Three attempts; code 14 is retried, after 100, 200, ... up to 1000.
abbrev pub policy : Policy exact
policy = record {
  max_attempts = pos 3;
  initial_backoff = pos 100;
  max_backoff = pos 1000;
  backoff_multiplier = 2;
  retryable_status_codes = 14 ∷ [];
}

-- The first call fails with code 14; the second succeeds.
abbrev second_call : ℕ → Result ℕ ℕ
second_call zero = ok 7
second_call (suc zero) = err 14
second_call (suc (suc n)) = ok 7

abbrev env : Env ℕ ℕ ℕ
env = record { call_result = second_call; ctx_err = λ n. none; ctx_done = λ n. none }

abbrev pub code : ℕ → ℕ
code e = e

attempt_backoff_max_example : attempt_backoff exact (pos 100) (pos 1000) 2 (pos 9) ≤ℤ pos 1000
attempt_backoff_max_example = attempt_backoff_max exact (pos 100) (pos 1000) 2 (pos 9)

unary_calls_example :
    if false || leb_ℤ (pos 3) (pos 1)
    then calls (unary exact code policy env false).1 ≡ 1
    else calls (unary exact code policy env false).1 ≤ 3
unary_calls_example = unary_calls exact code policy env false

stream-unary_example : stream exact code policy env false ≡ (
  as_stream (false || leb_ℤ (pos 3) (pos 1)) (unary exact code policy env false).0,
  (unary exact code policy env false).1,
)
stream-unary_example = stream-unary exact code policy env false

abbrev pub no_pick : PickError → ℕ
no_pick e = 14
