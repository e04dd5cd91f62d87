-- ===== src/Tests/Watches.antt =====
-- The loop of the watcher at concrete inputs.
use go_kubegrpc.Base.{
  ◌≡◌, ◌+◌, refl, List, [], ◌∷◌, ◌++◌, some, true, false, get_elem?, length, All, inl,
}
use go_kubegrpc.Watcher.{Port, EndpointSlice}
use go_kubegrpc.Watcher.Run.{is_over, Round, handler_failed, unsynced, synced, run}
use go_kubegrpc.Watcher.Reconnect.{schedule, GoesOn, Stops, IsReport, last_sleeps, run-Stops}

abbrev port : Port
port = record { name = []; number = 80 }

abbrev slice : EndpointSlice
slice = record { ports = []; endpoints = [] }

-- The handler is refused, the cache does not sync, and then it does.
abbrev refused : Round
refused = record { attempt = handler_failed; ended = false; interrupted = false }

abbrev timed_out : Round
timed_out = record { attempt = unsynced [] false; ended = false; interrupted = false }

abbrev served : Round
served = record { attempt = synced [] (slice ∷ []) []; ended = true; interrupted = false }

abbrev attempts : List Round
attempts = refused ∷ timed_out ∷ served ∷ []

second_sleep : get_elem? (run port 0 attempts).sleeps 1 ≡ some 2000000000
unfolding run
second_sleep = refl

All-GoesOn : All (GoesOn port) (refused ∷ timed_out ∷ [])
unfolding is_over
All-GoesOn = ((refl, refl), ((refl, refl), tt))

served-Stops : Stops port served
unfolding is_over
served-Stops = inl refl

run-Stops_example :
    let t = run port 0 ((refused ∷ timed_out ∷ []) ++ served ∷ refused ∷ []) in
    (t.returned ≡ true)
    × (t ≡ run port 0 ((refused ∷ timed_out ∷ []) ++ served ∷ []))
    × (t.sleeps ≡ schedule 0 (length (refused ∷ timed_out ∷ []) + last_sleeps port served))
    × All (IsReport port) t.snapshots
run-Stops_example =
    run-Stops port (refused ∷ timed_out ∷ []) (refused ∷ []) served All-GoesOn served-Stops
