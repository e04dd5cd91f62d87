-- ===== src/Retry/Backoff.antt =====
-- The bound and the growth of the backoff.
use go_kubegrpc.Base.{ℕ, zero, suc, ◌≡◌, arith, Bool-cases, inl, inr}
use go_kubegrpc.Base.Int.{ℤ, pos, negsuc, ◌≤ℤ◌, leb_ℤ}
use go_kubegrpc.Retry.{Float64, scale, first_backoff, attempt_backoff}

module _ (float : Float64) (initial max : ℤ) (multiplier : float.F) where
  scale_max : (i : ℕ) (dur : float.F) → scale float initial max multiplier i dur ≤ℤ max
  unfolding scale
  scale_max zero dur = ground arith
  scale_max (suc i) dur = ground (arith, scale_max i (float.mul dur multiplier))

  first_backoff_max : first_backoff float initial max multiplier ≤ℤ max
  unfolding first_backoff
  first_backoff_max = ground arith

  -- R7.4: whatever the attempt and whatever float64 rounds or overflows to, the backoff is at most
  -- the largest one configured.
  pub attempt_backoff_max : (n : ℤ) → attempt_backoff float initial max multiplier n ≤ℤ max
  unfolding attempt_backoff
  attempt_backoff_max (negsuc n) = first_backoff_max
  attempt_backoff_max (pos zero) = first_backoff_max
  attempt_backoff_max (pos (suc zero)) = first_backoff_max
  attempt_backoff_max (pos (suc (suc n))) = scale_max (suc n) (float.of_int initial)

  -- Multiplying does not shrink a duration between 0 and the largest backoff.
  abbrev pub Grows : Type 0
  Grows =
      (dur : float.F)
      → pos 0 ≤ℤ float.to_int dur
      → float.to_int dur ≤ℤ max
      → float.to_int dur ≤ℤ float.to_int (float.mul dur multiplier)

  scale_monotone :
      Grows
      → (i : ℕ) (dur : float.F) → pos 0 ≤ℤ float.to_int dur
      → float.to_int dur ≤ℤ max
      → scale float initial max multiplier i dur ≤ℤ scale float initial max multiplier (suc i) dur
  unfolding scale
  scale_monotone g zero dur h k = ground (arith, g dur h k)
  scale_monotone g (suc i) dur h k =
      let next = float.mul dur multiplier in
      elim (Bool-cases (leb_ℤ max (float.to_int next))) [
        | inl e ↦ ground arith
        | inr e ↦
            ground
              (arith, g dur h k, scale_monotone g i next (ground (arith, g dur h k)) (ground arith))
      ]

  -- R7.4: the backoff does not shrink from one attempt to the next, where the initial duration is
  -- between 0 and the largest, is a float64 exactly, and multiplying shrinks no duration between 0
  -- and the largest.
  attempt_backoff_monotone :
      pos 0 ≤ℤ initial
      → initial ≤ℤ max
      → float.to_int (float.of_int initial) ≡ initial
      → Grows
      → (n : ℕ)
      → attempt_backoff float initial max multiplier (pos n)
        ≤ℤ attempt_backoff float initial max multiplier (pos (suc n))
  unfolding attempt_backoff first_backoff scale
  attempt_backoff_monotone h k e g zero = omega arith
  attempt_backoff_monotone h k e g (suc zero) = ground (
    arith,
    e,
    g (float.of_int initial),
    scale_monotone g zero (float.of_int initial) (ground (arith, e)) (ground (arith, e)),
  )
  attempt_backoff_monotone h k e g (suc (suc i)) =
      scale_monotone g (suc i) (float.of_int initial) (ground (arith, e)) (ground (arith, e))
