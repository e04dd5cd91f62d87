-- ===== src/Watcher/Run.antt =====
-- internal/resolver/k8s/watcher.go: the outer loop of the watcher, and one watch of the informer. What
-- is not in the repository stands in the rounds: how AddEventHandler and WaitForCacheSync end, the
-- lists that the informer's store holds when it calls the handlers, and when the context is done. A
-- context that is done stays done. Not modelled: handlers that the informer still calls behind the end
-- of a watch, whose goroutines are told to stop but not waited for.
use go_kubegrpc.Base.{
  ℕ, suc, ◌*◌, List, [], ◌∷◌, ◌++◌, Option, none, some, Bool, true, false, ltb, if◌then◌else◌,
  get_elem?,
}
use go_kubegrpc.Resolver.{Snapshot, connected, disconnected}
use go_kubegrpc.Watcher.{Port, EndpointSlice, extract_endpoints}

-- One `watch`: the handler is refused; the cache does not sync, `ended` being whether the context was
-- done then; or it syncs, and watch waits for the end of the context. `before` and `after` are the
-- stores at the calls of the handlers around the sync, `first` that of the snapshot behind it.
pub data Attempt : Type 0 where
  handler_failed : Attempt
  unsynced : (before : List (List EndpointSlice)) (ended : Bool) → Attempt
  synced :
      (before : List (List EndpointSlice)) (first : List EndpointSlice)
      (after : List (List EndpointSlice))
      → Attempt

pub data WatchError : Type 0 where
  handler_error sync_timeout : WatchError

-- A round of `run`: its watch, whether the context is done behind it, and in the select.
pub record Round : Type 0 where
  pub attempt : Attempt
  pub ended : Bool
  pub interrupted : Bool

-- What `run` has done: its calls of fn and of time.After, in their order, and whether it returned.
pub record Trace : Type 0 where
  pub snapshots : List Snapshot
  pub sleeps : List ℕ
  pub returned : Bool

abbrev second : ℕ
second = 1000000000

-- `reconnectBackoff`.
unfoldable pub reconnect_backoff : List ℕ
reconnect_backoff =
    1 * second ∷ 2 * second ∷ 4 * second ∷ 8 * second ∷ 16 * second ∷ 30 * second ∷ []

-- `min`.
unfoldable pub min : ℕ → ℕ → ℕ
min a b = if ltb a b then a else b

-- `reconnectBackoff[min(backoffIdx, len(reconnectBackoff)-1)]`; the index is in range.
unfoldable pub reconnect_delay : ℕ → ℕ
unfolding reconnect_backoff min
reconnect_delay i = elim (get_elem? reconnect_backoff (min i 5)) [ none ↦ 0 | some d ↦ d ]

-- Whether ctx.Err() is set behind a watch; `ended` is what else decides it.
unfoldable pub is_over : Attempt → Bool → Bool
is_over handler_failed ended = ended
is_over (unsynced before true) ended = true
is_over (unsynced before false) ended = ended
is_over (synced before first after) ended = true

-- The snapshot of a watch that ended, with its error.
unfoldable pub lost : Option WatchError → Snapshot
lost none = record { endpoints = []; state = disconnected; failed = false }
lost (some e) = record { endpoints = []; state = disconnected; failed = true }

module _ (port : Port) where
  -- `sendSnapshot`, at what the store holds.
  unfoldable pub send_snapshot : List EndpointSlice → Snapshot
  unfolding extract_endpoints
  send_snapshot slices = record {
    endpoints = extract_endpoints slices port;
    state = connected;
    failed = false;
  }

  unfoldable pub send_snapshots : List (List EndpointSlice) → List Snapshot
  unfolding send_snapshot
  send_snapshots [] = []
  send_snapshots (s ∷ stores) = send_snapshot s ∷ send_snapshots stores

  -- `watch`.
  unfoldable pub watch : Attempt → List Snapshot × Option WatchError
  unfolding send_snapshots
  watch handler_failed = ([], some handler_error)
  watch (unsynced before true) = (send_snapshots before, none)
  watch (unsynced before false) = (send_snapshots before, some sync_timeout)
  watch (synced before first after) =
      (send_snapshots before ++ send_snapshot first ∷ send_snapshots after, none)

  -- `run`, from a backoffIdx on.
  unfoldable pub run : ℕ → List Round → Trace
  unfolding watch is_over lost reconnect_delay
  run i [] = record { snapshots = []; sleeps = []; returned = false }
  run i (r ∷ rounds) =
      let rest = run (suc i) rounds in
      let snaps = (watch r.attempt).0 in
      let down = lost (watch r.attempt).1 in
      if is_over r.attempt r.ended
      then record { snapshots = snaps; sleeps = []; returned = true }
      else if r.interrupted
      then record {
        snapshots = snaps ++ down ∷ [];
        sleeps = reconnect_delay i ∷ [];
        returned = true;
      }
      else record {
        snapshots = snaps ++ down ∷ rest.snapshots;
        sleeps = reconnect_delay i ∷ rest.sleeps;
        returned = rest.returned;
      }
