-- ===== src/Retry/Delivery.antt =====
-- An RPC over the entries that the balancer builds its picker over.
use go_kubegrpc.Base.{ℕ, suc, ◌≤◌, ◌<◌, ◌≡◌, ◌∷◌, Bool, true, false, length}
use go_kubegrpc.Base.Int.{pos_part}
use go_kubegrpc.Base.Maps.{MapOrder}
use go_kubegrpc.Base.Result.{Result, ok, err}
use go_kubegrpc.Text.{Bytes}
use go_kubegrpc.Pool.{Ref, is_member}
use go_kubegrpc.Picker.{Store, PickError, address_of}
use go_kubegrpc.Balancer.{BuildConfig, Balancer, Policies, new_balancer, sorted_healthy}
use go_kubegrpc.Balancer.History.{BalancerReach}
use go_kubegrpc.Balancer.Desired.{AreOfTarget, wanted, history-IsServing}
use go_kubegrpc.Balancer.Addresses.{sorted_healthy-AreDistinct}
use go_kubegrpc.Retry.{Float64, Policy, called, is_retryable, unary}
use go_kubegrpc.Retry.Attempts.{waits}
use go_kubegrpc.Retry.Success.{failing, rpc_env, rpc_succeeds}

-- R7.1, R7.3: let every resolver update of a history of a new balancer bring the target's
-- configuration, and let an RPC that may be retried go through a round-robin picker over the healthy
-- entries that the balancer then has, while its context stays alive. If every answer of their
-- backends that is an error has a retryable code, and fewer backends fail than MaxAttempts and than
-- there are entries, then, whatever other RPCs do to the counter of the picker in between, the RPC
-- succeeds with the answer of a healthy backend that works, after at most as many failed calls as
-- there are backends that fail.
pub rpc_delivered :
    {E A : Type 0} (C : Type 0) (float : Float64) (status_code : E → ℕ) (policy : Policy float)
    (no_pick : PickError → E) (answer : Bytes → Result E A) (counter : ℕ → ℕ) (policies : Policies)
    (grants : ℕ → Bytes → Bool) (memory : Store) (first cfg : BuildConfig) {b : Balancer}
    (h : BalancerReach policies grants (new_balancer memory first) b) (order : MapOrder) (visit : ℕ)
    → AreOfTarget cfg h
    → let hs = sorted_healthy order visit b.pool in
      let env = rpc_env C float status_code policy no_pick answer b.pool.store hs counter in
      length (failing answer b.pool.store hs) < length hs
      → ((r : Ref) (e : E)
          → is_member r hs ≡ true
          → answer (address_of b.pool.store r) ≡ err e
          → is_retryable status_code e policy.retryable_status_codes ≡ true)
      → 2 ≤ pos_part policy.max_attempts
      → length (failing answer b.pool.store hs) < pos_part policy.max_attempts
      → (a : A) × (r : Ref) × (m : ℕ) × (unary float status_code policy env false
          ≡ (ok a, called (suc m) ∷ waits float status_code policy env m))
        × (is_member r hs ≡ true)
        × (answer (address_of b.pool.store r) ≡ ok a)
        × (m ≤ length (failing answer b.pool.store hs))
rpc_delivered C float status_code policy no_pick answer counter policies grants memory first cfg {b}
      h order visit o =
    let served = history-IsServing policies grants memory first cfg h o in
    rpc_succeeds C float status_code policy no_pick answer b.pool.store
      (sorted_healthy order visit b.pool) counter
      (sorted_healthy-AreDistinct cfg (wanted cfg h) b order visit served)
