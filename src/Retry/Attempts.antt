-- ===== src/Retry/Attempts.antt =====
-- How often an interceptor calls, how long it sleeps between calls, and what it returns.
use go_kubegrpc.Base.{
  ap, ℕ, zero, suc, ◌+◌, ◌≤◌, ◌<◌, ◌-◌, ◌≡◌, refl, ap, ◌∙◌, List, [], ◌∷◌, Option, none, some, Bool,
  true, false, ◌||◌, arith, if◌then◌else◌, inl, inr,
}
use go_kubegrpc.Base.Int.{pos, pos_part, leb_ℤ}
use go_kubegrpc.Base.Result.{Result, ok, err, Result-cases}
use go_kubegrpc.Retry.{
  backoff, Float64, Policy, Env, Failure, call_failed, ctx_wraps, Event, called, slept,
  is_retryable, unary_loop, unary, call_once,
}

-- The calls in a log.
unfoldable pub calls : List Event → ℕ
calls [] = 0
calls (called n ∷ log) = suc (calls log)
calls (slept d ∷ log) = calls log

module _ (float : Float64) {E C A : Type 0} (status_code : E → ℕ) (policy : Policy float)
    (env : Env E C A) where
  unary_loop_calls :
      (k attempt : ℕ) (last : Option E) (log : List Event)
      → calls (unary_loop float status_code policy env k attempt last log).1 ≤ calls log + k
  unfolding unary_loop calls
  unary_loop_calls zero attempt last log = omega arith
  unary_loop_calls (suc k) attempt last log = elim (Result-cases (env.call_result attempt)) [
    | inl (a, h) ↦ ground arith
    | inr (e, h) ↦ ground (
      arith,
      unary_loop_calls k (suc attempt) (some e)
          (slept (backoff float status_code policy env attempt) ∷ called attempt ∷ log),
    )
  ]

  -- R7.1, R7.7, R7.8: a unary call is made at most MaxAttempts times, and exactly once where it is
  -- marked as not idempotent or MaxAttempts is at most 1.
  pub unary_calls :
      (non_idempotent : Bool)
      → let n = calls (unary float status_code policy env non_idempotent).1 in
        if non_idempotent || leb_ℤ policy.max_attempts (pos 1)
        then n ≡ 1
        else n ≤ pos_part policy.max_attempts
  unfolding unary call_once calls
  unary_calls non_idempotent =
      ground (arith, unary_loop_calls (pos_part policy.max_attempts) 1 none [])

  -- An attempt after which the loop goes on: it fails with a retryable code, and the context is not
  -- done before it nor during the sleep after it.
  pub record GoesOn (attempt : ℕ) : Type 0 where
    pub begins : env.ctx_err attempt ≡ none
    pub error : E
    pub fails : env.call_result attempt ≡ err error
    pub retryable : is_retryable status_code error policy.retryable_status_codes ≡ true
    pub sleeps : env.ctx_done attempt ≡ none

  -- The log of `n` failed attempts with the sleep after each.
  abbrev pub waits : ℕ → List Event
  waits zero = []
  waits (suc n) = slept (backoff float status_code policy env (suc n)) ∷ called (suc n) ∷ waits n

  unary_loop_step :
      (k n : ℕ) (last : Option E) (log : List Event) (h : GoesOn n)
      → n < pos_part policy.max_attempts
      → unary_loop float status_code policy env (suc k) n last log
        ≡ unary_loop float status_code policy env k
            (suc n)
            (some h.error)
            (slept (backoff float status_code policy env n) ∷ called n ∷ log)
  unfolding unary_loop
  unary_loop_step k n last log h lt =
      let more : leb_ℤ policy.max_attempts (pos n) ≡ false = ground arith in
      rw (h.begins, unary_loop, h.fails, h.retryable, more, h.sleeps) refl

  unary_loop_reaches :
      (n k : ℕ)
      → n + suc k ≡ pos_part policy.max_attempts
      → ((i : ℕ) → 1 ≤ i → i ≤ n → GoesOn i)
      → (last : Option E) × (unary_loop float status_code policy env
            (pos_part policy.max_attempts)
            1
            none
            []
          ≡ unary_loop float status_code policy env (suc k) (suc n) last (waits n))
  unary_loop_reaches zero k e h =
      let m : pos_part policy.max_attempts ≡ suc k = omega arith in
      (none, ap (λ m. unary_loop float status_code policy env m 1 none []) m)
  unary_loop_reaches (suc n) k e h =
      let (last, f) = unary_loop_reaches n (suc k) (omega arith) (λ i l u. h i l (omega arith)) in
      let g = h (suc n) (omega arith) (omega arith) in
      (some g.error, f ∙ unary_loop_step (suc k) (suc n) last (waits n) g (omega arith))

  -- An attempt after which the loop ends, and what is returned then.
  pub data Stops (attempt : ℕ) : Result (Failure E C) A → Type 0 where
    succeeds : (a : A) → env.call_result attempt ≡ ok a → Stops attempt (ok a)
    fatal :
        (e : E)
        → env.call_result attempt ≡ err e
        → is_retryable status_code e policy.retryable_status_codes ≡ false
        → Stops attempt (err (call_failed e))
    exhausted :
        (e : E)
        → env.call_result attempt ≡ err e
        → attempt ≡ pos_part policy.max_attempts
        → Stops attempt (err (call_failed e))
    cancelled :
        (e : E) (c : C)
        → env.call_result attempt ≡ err e
        → is_retryable status_code e policy.retryable_status_codes ≡ true
        → attempt < pos_part policy.max_attempts
        → env.ctx_done attempt ≡ some c
        → Stops attempt (err (ctx_wraps c e))

  unary_loop-Stops :
      (k n : ℕ) (last : Option E) (log : List Event) (result : Result (Failure E C) A)
      → env.ctx_err n ≡ none
      → Stops n result
      → unary_loop float status_code policy env (suc k) n last log ≡ (result, called n ∷ log)
  unfolding unary_loop
  unary_loop-Stops k n last log _ begins (succeeds a r) = rw (begins, unary_loop, r) refl
  unary_loop-Stops k n last log _ begins (fatal e r s) = rw (begins, unary_loop, r, s) refl
  unary_loop-Stops k n last log _ begins (exhausted e r s) =
      let last_one : leb_ℤ policy.max_attempts (pos n) ≡ true = ground arith in
      rw (begins, unary_loop, r) (ground arith)
  unary_loop-Stops k n last log _ begins (cancelled e c r s more d) =
      let not_last : leb_ℤ policy.max_attempts (pos n) ≡ false = ground arith in
      rw (begins, unary_loop, r, s, not_last, d) refl

  pub unary_outcome :
      (n : ℕ) (result : Result (Failure E C) A)
      → 2 ≤ pos_part policy.max_attempts
      → n < pos_part policy.max_attempts
      → ((i : ℕ) → 1 ≤ i → i ≤ n → GoesOn i)
      → env.ctx_err (suc n) ≡ none
      → Stops (suc n) result
      → unary float status_code policy env false ≡ (result, called (suc n) ∷ waits n)
  unfolding unary
  unary_outcome n result many lt h begins stops =
      let k = pos_part policy.max_attempts - suc n in
      let (last, f) = unary_loop_reaches n k (omega arith) h in
      let retried : (false || leb_ℤ policy.max_attempts (pos 1)) ≡ false = ground arith in
      rw retried (f ∙ unary_loop-Stops k (suc n) last (waits n) result begins stops)
