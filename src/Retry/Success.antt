-- ===== src/Retry/Success.antt =====
-- The unary interceptor over the round-robin picker: each attempt is answered by the backend that
-- the picker gives for it, with the tracker that the interceptor put into the context.
use go_kubegrpc.Base.{
  subst, ℕ_discrete, ℕ, zero, suc, ◌+◌, ◌≤◌, ◌<◌, ◌≡◌, refl, sym, ◌∙◌, List, [], ◌∷◌, ◌++◌, none,
  some, Bool, true, false, All, All-append, arith, length, length-append, map, if◌then◌else◌, inl,
  inr,
}
use go_kubegrpc.Base.Int.{pos_part}
use go_kubegrpc.Base.Result.{Result, ok, err, Result-cases}
use go_kubegrpc.Text.{Bytes}
use go_kubegrpc.Pool.{Ref, is_member}
use go_kubegrpc.Picker.{Store, Tracker, PickError, address_of, is_tried, RrPicker, rr_pick}
use go_kubegrpc.Picker.Failover.{AreDistinct, AreDistinct-snoc, length-AreDistinct, rr_pick-fresh}
use go_kubegrpc.Retry.{Float64, Policy, Env, called, is_retryable, unary}
use go_kubegrpc.Retry.Attempts.{GoesOn, waits, unary_outcome, succeeds}

module _ {E A : Type 0} (no_pick : PickError → E) (answer : Bytes → Result E A) (store : Store)
    (healthy : List Ref) (counter : ℕ → ℕ) where
  -- The pick of the next attempt, at the counter that the picker has then.
  abbrev pick_of : ℕ → Tracker → Result PickError (Ref × RrPicker × Tracker)
  pick_of n tracker =
      rr_pick store tracker (record { healthy = healthy; counter = counter (suc n) })

  -- The tracker after the first `n` attempts.
  unfoldable pub tracker_after : ℕ → Tracker
  tracker_after zero = some []
  tracker_after (suc n) = elim (pick_of n (tracker_after n)) [
    | err e ↦ tracker_after n
    | ok (r, p, after) ↦ after
  ]

  -- How the attempt after the first `n` ends: by the answer of the backend that is picked for it, or
  -- by the picker's error.
  unfoldable pub attempt_after : ℕ → Result E A
  unfolding tracker_after
  attempt_after n = elim (pick_of n (tracker_after n)) [
    | err e ↦ err (no_pick e)
    | ok (r, p, after) ↦ answer (address_of store r)
  ]

  -- The same by the number of the attempt, from 1.
  unfoldable pub attempt_result : ℕ → Result E A
  unfolding attempt_after
  attempt_result zero = attempt_after zero
  attempt_result (suc n) = attempt_after n

-- Whether an answer is an error.
unfoldable pub has_failed : {E A : Type 0} → Result E A → Bool
has_failed (ok a) = false
has_failed (err e) = true

-- The addresses of the entries whose backends fail.
unfoldable pub failing : {E A : Type 0} → (Bytes → Result E A) → Store → List Ref → List Bytes
unfolding has_failed
failing answer store [] = []
failing answer store (r ∷ rs) =
    if has_failed (answer (address_of store r))
    then address_of store r ∷ failing answer store rs
    else failing answer store rs

is_tried-failing :
    {E A : Type 0} (answer : Bytes → Result E A) (store : Store) (healthy : List Ref) (r : Ref)
    → is_member r healthy ≡ true
    → has_failed (answer (address_of store r)) ≡ true
    → is_tried (address_of store r) (failing answer store healthy) ≡ true
unfolding is_member failing is_tried
is_tried-failing answer store [] r h f = ground arith
is_tried-failing answer store (q ∷ qs) r h f = ground (arith, is_tried-failing answer store qs r)

module _ {E A : Type 0} (C : Type 0) (float : Float64) (status_code : E → ℕ) (policy : Policy float)
    (no_pick : PickError → E) (answer : Bytes → Result E A) (store : Store) (healthy : List Ref)
    (counter : ℕ → ℕ) where
  -- The calls of an RPC whose context stays alive.
  abbrev pub rpc_env : Env E C A
  rpc_env = record {
    call_result = attempt_result no_pick answer store healthy counter;
    ctx_err = λ n. none;
    ctx_done = λ n. none;
  }

  -- The first `n` attempts went to `n` backends, all of which failed, and the loop goes on.
  record HaveFailed (n : ℕ) : Type 0 where
    tried : List Bytes
    tracked : tracker_after no_pick answer store healthy counter n ≡ some tried
    counted : length tried ≡ n
    apart : AreDistinct tried
    failed : All (λ a. is_tried a (failing answer store healthy) ≡ true) tried
    goes_on : (i : ℕ) → 1 ≤ i → i ≤ n → GoesOn float status_code policy rpc_env i

  -- The backend of the attempt after them.
  record Picks (n : ℕ) (tried : List Bytes) : Type 0 where
    entry : Ref
    member : is_member entry healthy ≡ true
    fresh : is_tried (address_of store entry) tried ≡ false
    tracked :
        tracker_after no_pick answer store healthy counter (suc n)
        ≡ some (tried ++ address_of store entry ∷ [])
    answered :
        attempt_after no_pick answer store healthy counter n ≡ answer (address_of store entry)

  module _ (distinct : AreDistinct (map (address_of store) healthy))
      (some_works : length (failing answer store healthy) < length healthy)
      (retryable : (r : Ref) (e : E)
        → is_member r healthy ≡ true
        → answer (address_of store r) ≡ err e
        → is_retryable status_code e policy.retryable_status_codes ≡ true) where
    HaveFailed-bound : {n : ℕ} → HaveFailed n → n ≤ length (failing answer store healthy)
    HaveFailed-bound h =
        let few = length-AreDistinct h.tried (failing answer store healthy) h.apart h.failed in
        omega (arith, few, h.counted)

    HaveFailed-Picks : (n : ℕ) (h : HaveFailed n) → Picks n h.tried
    unfolding tracker_after attempt_after
    HaveFailed-Picks n h =
        let fewer : length h.tried < length healthy =
          omega (arith, HaveFailed-bound h, some_works, h.counted) in
        let (r, p, picked, member, fresh) =
          rr_pick-fresh store healthy distinct h.tried (counter (suc n)) fewer in
        record {
          entry = r;
          member = member;
          fresh = fresh;
          tracked = rw (tracker_after, h.tracked, picked) refl;
          answered = rw (attempt_after, h.tracked, picked) refl;
        }

    HaveFailed-step :
        (n : ℕ) (h : HaveFailed n) (q : Picks n h.tried) (e : E)
        → answer (address_of store q.entry) ≡ err e
        → HaveFailed (suc n)
    unfolding attempt_result attempt_after has_failed
    HaveFailed-step n h q e f =
        let addr = address_of store q.entry in
        let bad : has_failed (answer addr) ≡ true = rw (f, has_failed) refl in
        record {
          tried = h.tried ++ addr ∷ [];
          tracked = q.tracked;
          counted = omega (arith, h.counted, length-append h.tried (addr ∷ []));
          apart = AreDistinct-snoc h.tried addr h.apart q.fresh;
          failed =
              All-append (λ a. is_tried a (failing answer store healthy) ≡ true) h.tried (addr ∷ [])
                h.failed (is_tried-failing answer store healthy q.entry q.member bad, tt);
          goes_on = λ i l u. elim (ℕ_discrete i (suc n)) [
            | no below ↦ h.goes_on i l (omega (arith, below))
            | yes last ↦ subst (GoesOn float status_code policy rpc_env) (sym last) this
          ];
        }
      where
        this : GoesOn float status_code policy rpc_env (suc n)
        this = record {
          begins = refl;
          error = e;
          fails = q.answered ∙ f;
          retryable = retryable q.entry e q.member f;
          sleeps = refl;
        }

    -- The attempts after the first `n`; at most `k` backends are left that may fail.
    attempts_succeed :
        (k n : ℕ)
        → length (failing answer store healthy) < n + k
        → 2 ≤ pos_part policy.max_attempts
        → length (failing answer store healthy) < pos_part policy.max_attempts
        → HaveFailed n
        → (a : A) × (r : Ref) × (m : ℕ) × (unary float status_code policy rpc_env false
            ≡ (ok a, called (suc m) ∷ waits float status_code policy rpc_env m))
          × (is_member r healthy ≡ true)
          × (answer (address_of store r) ≡ ok a)
          × (m ≤ length (failing answer store healthy))
    unfolding attempt_result attempt_after
    attempts_succeed zero n enough many budget h =
        absurd (omega (arith, HaveFailed-bound h, enough))
    attempts_succeed (suc k) n enough many budget h =
        let q = HaveFailed-Picks n h in
        elim (Result-cases (answer (address_of store q.entry))) [
          | inl (a, f) ↦ (
            a,
            q.entry,
            n,
            unary_outcome float status_code policy rpc_env n (ok a) many
                (omega (arith, HaveFailed-bound h, budget)) h.goes_on refl
                (succeeds a (q.answered ∙ f)),
            q.member,
            f,
            HaveFailed-bound h,
          )
          | inr (e, f) ↦
              attempts_succeed k (suc n) (omega (arith, enough)) many budget
                (HaveFailed-step n h q e f)
        ]

    -- Let the addresses of the healthy entries differ, every answer of their backends
    -- that is an error have a retryable code, the context stay alive, the call be one that may be
    -- retried, and fewer backends fail than MaxAttempts and than the healthy entries. Then, whatever
    -- other RPCs do to the counter of the picker in between, the RPC succeeds with the answer of a
    -- healthy backend that works, after at most as many failed calls as there are backends that fail.
    pub rpc_succeeds :
        2 ≤ pos_part policy.max_attempts
        → length (failing answer store healthy) < pos_part policy.max_attempts
        → (a : A) × (r : Ref) × (m : ℕ) × (unary float status_code policy rpc_env false
            ≡ (ok a, called (suc m) ∷ waits float status_code policy rpc_env m))
          × (is_member r healthy ≡ true)
          × (answer (address_of store r) ≡ ok a)
          × (m ≤ length (failing answer store healthy))
    unfolding tracker_after
    rpc_succeeds many budget =
        attempts_succeed (suc (length (failing answer store healthy))) zero (omega arith) many
          budget
          (record {
            tried = [];
            tracked = refl;
            counted = refl;
            apart = tt;
            failed = tt;
            goes_on = λ i l u. absurd (omega (arith, l, u));
          })
