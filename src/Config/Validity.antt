-- ===== src/Config/Validity.antt =====
-- What validate accepts, and which field its error names.
use go_kubegrpc.Base.{
  ◌≡◌, ◌≢◌, refl, ◌∙◌, sym, ap, List, [], ◌∷◌, ◌++◌, Option, none, some, Bool, true, false, ◌&&◌,
  if◌then◌else◌, All, arith, Bool-cases, Option-cases, inl, inr, ◌↔◌, ◌⊎◌, List-cases,
}
use go_kubegrpc.Base.Int.{pos, ltb_ℤ, ◌≤ℤ◌}
use go_kubegrpc.Base.Maps.{MapOrder, lookup}
use go_kubegrpc.Text.{Bytes, Bytes-discrete}
use go_kubegrpc.Registry.{lookup_policy}
use go_kubegrpc.Retry.{Float64}
use go_kubegrpc.Config.{Config, Field, validate, validate_bounds, is_empty}

-- The fields in the order of the checks.
abbrev pub fields : List Field
fields =
    Field.load_balancing_policy ∷ Field.max_attempts ∷ Field.initial_backoff ∷ Field.max_backoff
    ∷ Field.backoff_multiplier ∷ Field.max_subconnections ∷ Field.retryable_status_codes
    ∷ Field.health_check_interval ∷ Field.health_check_timeout ∷ Field.resolver_grace_window ∷ []

true_ne_false : true ≢ false
true_ne_false h = ground arith

-- The first field that does not pass a test.
abbrev first_broken : (Field → Bool) → List Field → Option Field
first_broken test [] = none
first_broken test (f ∷ fs) = if test f then some f else first_broken test fs

first_broken-none :
    (test : Field → Bool) (fs : List Field)
    → (first_broken test fs ≡ none) ↔ All (λ f. test f ≡ false) fs
first_broken-none test [] = (λ h. tt, λ h. refl)
first_broken-none test (f ∷ fs) = elim (Bool-cases (test f)) [
  | inl e ↦ rw e (λ h. absurd (ground arith), λ h. absurd (ground (arith, h.0)))
  | inr e ↦
      rw e (λ h. (refl, (first_broken-none test fs).0 h), λ h. (first_broken-none test fs).1 h.1)
]

first_broken-some :
    (test : Field → Bool) (fs : List Field) (f : Field)
    → first_broken test fs ≡ some f
    → (before : List Field) × (after : List Field) × (fs ≡ before ++ f ∷ after)
      × (test f ≡ true)
      × All (λ g. test g ≡ false) before
first_broken-some test [] f h = absurd (ground arith)
first_broken-some test (g ∷ gs) f h = elim (Bool-cases (test g)) [
  | inl e ↦
      let same : g ≡ f = ground arith in ([], gs, ap (λ x. x ∷ gs) same, ap test (sym same) ∙ e, tt)
  | inr e ↦
      let (before, after, split, t, all) = first_broken-some test gs f (ground arith) in
      (g ∷ before, after, ap (◌∷◌ g) split, t, (e, all))
]

module _ (float : Float64) (below_one : float.F → Bool) {F : Type 0} (order : MapOrder)
    (policies : List (Bytes × F)) (c : Config float) where
  -- The documented range of a field.
  abbrev pub Meets : Field → Type 0
  Meets Field.load_balancing_policy = lookup Bytes-discrete c.load_balancing_policy policies ≢ none
  Meets Field.max_attempts = pos 1 ≤ℤ c.retry_policy.max_attempts
  Meets Field.initial_backoff = pos 0 ≤ℤ c.retry_policy.initial_backoff
  Meets Field.max_backoff = pos 0 ≤ℤ c.retry_policy.max_backoff
  Meets Field.backoff_multiplier = below_one c.retry_policy.backoff_multiplier ≡ false
  Meets Field.max_subconnections = pos 0 ≤ℤ c.max_subconnections
  Meets Field.retryable_status_codes =
      (c.retry_policy.max_attempts ≤ℤ pos 1) ⊎ (c.retry_policy.retryable_status_codes ≢ [])
  Meets Field.health_check_interval = pos 0 ≤ℤ c.health_check_interval
  Meets Field.health_check_timeout = pos 0 ≤ℤ c.health_check_timeout
  Meets Field.resolver_grace_window = pos 0 ≤ℤ c.resolver_grace_window

  -- Every field is in its range.
  abbrev pub IsValid : Type 0
  IsValid = All Meets fields

  abbrev is_broken : Field → Bool
  is_broken Field.load_balancing_policy =
      elim (lookup Bytes-discrete c.load_balancing_policy policies) [ none ↦ true | some _ ↦ false ]
  is_broken Field.max_attempts = ltb_ℤ c.retry_policy.max_attempts (pos 1)
  is_broken Field.initial_backoff = ltb_ℤ c.retry_policy.initial_backoff (pos 0)
  is_broken Field.max_backoff = ltb_ℤ c.retry_policy.max_backoff (pos 0)
  is_broken Field.backoff_multiplier = below_one c.retry_policy.backoff_multiplier
  is_broken Field.max_subconnections = ltb_ℤ c.max_subconnections (pos 0)
  is_broken Field.retryable_status_codes =
      ltb_ℤ (pos 1) c.retry_policy.max_attempts && is_empty c.retry_policy.retryable_status_codes
  is_broken Field.health_check_interval = ltb_ℤ c.health_check_interval (pos 0)
  is_broken Field.health_check_timeout = ltb_ℤ c.health_check_timeout (pos 0)
  is_broken Field.resolver_grace_window = ltb_ℤ c.resolver_grace_window (pos 0)

  is_broken-Meets : (f : Field) → (is_broken f ≡ false) ↔ Meets f
  is_broken-Meets Field.load_balancing_policy =
      elim (Option-cases (lookup Bytes-discrete c.load_balancing_policy policies)) [
        | inl e ↦ rw e (ground arith)
        | inr (x, e) ↦ rw e (ground arith)
      ]
  is_broken-Meets Field.max_attempts = ground arith
  is_broken-Meets Field.initial_backoff = ground arith
  is_broken-Meets Field.max_backoff = ground arith
  is_broken-Meets Field.backoff_multiplier = ground arith
  is_broken-Meets Field.max_subconnections = ground arith
  is_broken-Meets Field.retryable_status_codes =
      elim (List-cases c.retry_policy.retryable_status_codes) [
        | inl e ↦ rw e (ground arith)
        | inr (x, xs, e) ↦ rw e (ground arith)
      ]
  is_broken-Meets Field.health_check_interval = ground arith
  is_broken-Meets Field.health_check_timeout = ground arith
  is_broken-Meets Field.resolver_grace_window = ground arith

  validate-first_broken : validate float below_one order policies c ≡ first_broken is_broken fields
  unfolding validate validate_bounds lookup_policy
  validate-first_broken =
      elim (Option-cases (lookup Bytes-discrete c.load_balancing_policy policies)) [
        | inl e ↦ rw (e, validate, is_broken) refl
        | inr (x, e) ↦ rw (e, validate, is_broken) refl
      ]

All-iff :
    {P Q : Field → Type 0} → ((f : Field) → P f ↔ Q f) → (fs : List Field) → All P fs ↔ All Q fs
All-iff h [] = (λ x. tt, λ x. tt)
All-iff h (f ∷ fs) =
    let ih = All-iff h fs in (λ x. ((h f).0 x.0, ih.0 x.1), λ x. ((h f).1 x.0, ih.1 x.1))

module _ (float : Float64) (below_one : float.F → Bool) {F : Type 0} (order : MapOrder)
    (policies : List (Bytes × F)) (c : Config float) where
  -- R9.4: validate returns nil exactly for a configuration whose fields are all in their documented
  -- ranges: a registered policy, at least one attempt, no negative duration, backoff or limit, a
  -- multiplier that is not below 1.0, and status codes to retry where there is more than one attempt.
  pub validate_valid :
      (validate float below_one order policies c ≡ none) ↔ IsValid float below_one order policies c
  validate_valid =
      let found = validate-first_broken float below_one order policies c in
      let none_broken = first_broken-none (is_broken float below_one order policies c) fields in
      let all = All-iff (is_broken-Meets float below_one order policies c) fields in
      (λ h. all.0 (none_broken.0 (sym found ∙ h)), λ h. found ∙ none_broken.1 (all.1 h))

  -- R9.4: an error of validate names a field that is out of its documented range, and all the fields
  -- that are checked before it are in theirs.
  pub validate_names :
      (f : Field)
      → validate float below_one order policies c ≡ some f
      → (before : List Field) × (after : List Field) × (fields ≡ before ++ f ∷ after)
        × ¬ Meets float below_one order policies c f
        × All (Meets float below_one order policies c) before
  validate_names f h =
      let found = validate-first_broken float below_one order policies c in
      let test = is_broken float below_one order policies c in
      let (before, after, split, broken, all) = first_broken-some test fields f (sym found ∙ h) in
      let meets = is_broken-Meets float below_one order policies c in
      (
        before,
        after,
        split,
        λ m. true_ne_false (sym broken ∙ (meets f).1 m),
        (All-iff meets before).0 all,
      )
