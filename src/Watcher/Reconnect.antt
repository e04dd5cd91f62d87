-- ===== src/Watcher/Reconnect.antt =====
-- The reconnections of the watcher: their delays, what is reported, and how the loop ends.
use native.Mathlib.Omega.{pow_step}
use go_kubegrpc.Base.{
  sym, ap, ℕ, zero, suc, ◌+◌, ◌*◌, ◌^◌, ◌≡◌, ◌≤◌, refl, ◌∙◌, List, [], ◌∷◌, ◌++◌, Bool, true, false,
  ltb, if◌then◌else◌, arith, length, All, All-append, Bool-cases, inl, inr, ◌⊎◌,
}
use go_kubegrpc.Resolver.{Snapshot, connected, disconnected}
use go_kubegrpc.Watcher.{Port, EndpointSlice, extract_endpoints}
use go_kubegrpc.Watcher.Run.{
  Attempt, handler_failed, unsynced, synced, Round, reconnect_delay, reconnect_backoff, min,
  send_snapshot, send_snapshots, watch, is_over, lost, run,
}

-- 2 ^ n seconds, at most 30, in nanoseconds.
abbrev pub capped : ℕ → ℕ
capped n = if ltb 30 (2 ^ n) then 30000000000 else 2 ^ n * 1000000000

large_pow : (m : ℕ) → 64 ≤ 2 ^ suc (suc (suc (suc (suc (suc m)))))
large_pow zero = omega arith
large_pow (suc m) = omega (arith, large_pow m, pow_step 2 (suc (suc (suc (suc (suc (suc m)))))))

-- The table of the delays is the sequence of the powers.
reconnect_delay-capped : (n : ℕ) → reconnect_delay n ≡ capped n
unfolding reconnect_delay reconnect_backoff min
reconnect_delay-capped zero = refl
reconnect_delay-capped (suc zero) = refl
reconnect_delay-capped (suc (suc zero)) = refl
reconnect_delay-capped (suc (suc (suc zero))) = refl
reconnect_delay-capped (suc (suc (suc (suc zero)))) = refl
reconnect_delay-capped (suc (suc (suc (suc (suc zero))))) = refl
reconnect_delay-capped (suc (suc (suc (suc (suc (suc m)))))) = ground (arith, large_pow m)

-- The delays of some reconnections, from the k-th on.
abbrev pub schedule : ℕ → ℕ → List ℕ
schedule k zero = []
schedule k (suc n) = capped k ∷ schedule (suc k) n

schedule-suc : (i n m : ℕ) → m ≡ suc n → reconnect_delay i ∷ schedule (suc i) n ≡ schedule i m
schedule-suc i n m e =
    ap (λ d. d ∷ schedule (suc i) n) (reconnect_delay-capped i) ∙ sym (ap (schedule i) e)

module _ (port : Port) where
  -- A snapshot of endpoints in the store, or the report of a watch that failed.
  abbrev pub IsReport : Snapshot → Type 0
  IsReport snap =
      ((slices : List EndpointSlice) × (snap ≡ record {
        endpoints = extract_endpoints slices port;
        state = connected;
        failed = false;
      }))
      ⊎ (snap ≡ record { endpoints = []; state = disconnected; failed = true })

  All-send_snapshots :
      (stores : List (List EndpointSlice)) → All IsReport (send_snapshots port stores)
  unfolding send_snapshots send_snapshot
  All-send_snapshots [] = tt
  All-send_snapshots (s ∷ stores) = (inl (s, refl), All-send_snapshots stores)

  All-watch : (a : Attempt) → All IsReport (watch port a).0
  unfolding watch send_snapshot
  All-watch handler_failed = tt
  All-watch (unsynced before true) = All-send_snapshots before
  All-watch (unsynced before false) = All-send_snapshots before
  All-watch (synced before first after) =
      All-append IsReport (send_snapshots port before)
        (send_snapshot port first ∷ send_snapshots port after) (All-send_snapshots before)
        (inl (first, refl), All-send_snapshots after)

  -- A watch behind which the loop goes on has an error to report.
  lost-watch :
      (a : Attempt) (ended : Bool)
      → is_over a ended ≡ false
      → lost (watch port a).1 ≡ record { endpoints = []; state = disconnected; failed = true }
  unfolding is_over watch lost
  lost-watch handler_failed ended h = refl
  lost-watch (unsynced before true) ended h = absurd (ground arith)
  lost-watch (unsynced before false) ended h = refl
  lost-watch (synced before first after) ended h = absurd (ground arith)

  All-run : (rounds : List Round) (i : ℕ) → All IsReport (run port i rounds).snapshots
  unfolding run
  All-run [] i = tt
  All-run (r ∷ rounds) i = elim (Bool-cases (is_over r.attempt r.ended)) [
    | inl e ↦ rw (run, e) (All-watch r.attempt)
    | inr e ↦
        let down = inr (lost-watch r.attempt r.ended e) in
        elim (Bool-cases r.interrupted) [
          | inl f ↦
              rw (run, e, f)
                (All-append IsReport (watch port r.attempt).0 (lost (watch port r.attempt).1 ∷ [])
                  (All-watch r.attempt) (down, tt))
          | inr f ↦
              rw (run, e, f)
                (All-append IsReport (watch port r.attempt).0
                  (lost (watch port r.attempt).1 ∷ (run port (suc i) rounds).snapshots)
                  (All-watch r.attempt) (down, All-run rounds (suc i)))
        ]
  ]

  -- A round behind which the loop goes on, and one in which it returns.
  abbrev pub GoesOn : Round → Type 0
  GoesOn r = (is_over r.attempt r.ended ≡ false) × (r.interrupted ≡ false)

  abbrev pub Stops : Round → Type 0
  Stops r = (is_over r.attempt r.ended ≡ true) ⊎ (r.interrupted ≡ true)

  abbrev pub last_sleeps : Round → ℕ
  last_sleeps r = if is_over r.attempt r.ended then 0 else 1

  run_last :
      (r : Round) (rest : List Round) (i : ℕ)
      → Stops r
      → let t = run port i (r ∷ rest) in
        (t.returned ≡ true) × (t ≡ run port i (r ∷ [])) × (t.sleeps ≡ schedule i (last_sleeps r))
  unfolding run
  run_last r rest i h = elim (Bool-cases (is_over r.attempt r.ended)) [
    | inl e ↦ rw (run, e) (refl, refl, refl)
    | inr e ↦ elim (Bool-cases r.interrupted) [
      | inl f ↦ rw (run, e, f) (refl, refl, ap (λ d. d ∷ []) (reconnect_delay-capped i))
      | inr f ↦ absurd (ground (arith, h, e, f))
    ]
  ]

  run_rounds :
      (before rest : List Round) (r : Round) (i : ℕ)
      → All GoesOn before
      → Stops r
      → let t = run port i (before ++ r ∷ rest) in
        (t.returned ≡ true)
        × (t ≡ run port i (before ++ r ∷ []))
        × (t.sleeps ≡ schedule i (length before + last_sleeps r))
  unfolding run
  run_rounds [] rest r i g h =
      let ends = run_last r rest i h in (ends.0, ends.1, ends.2 ∙ ap (schedule i) (omega arith))
  run_rounds (b ∷ before) rest r i g h =
      let ih = run_rounds before rest r (suc i) g.1 h in
      let waits =
        ap (◌∷◌ (reconnect_delay i)) ih.2
        ∙ schedule-suc i (length before + last_sleeps r) (suc (length before) + last_sleeps r)
            (omega arith) in
      rw (run, g.0.0, g.0.1) (ih.0, rw ih.1 refl, waits)

-- R3.5, R1.6: after any number of rounds that go on, the round in which the context is done ends the
-- loop of the watcher: it returns, does nothing behind that round, and has waited once for each round
-- before, and in the last one if its watch failed with the context not done; the k-th of these waits,
-- counted from 0, was for 2 ^ k seconds, at most 30. What it has reported are Connected snapshots of
-- the endpoints in the store, and Disconnected ones with an error.
pub run-Stops :
    (port : Port) (before rest : List Round) (r : Round)
    → All (GoesOn port) before
    → Stops port r
    → let t = run port 0 (before ++ r ∷ rest) in
      (t.returned ≡ true)
      × (t ≡ run port 0 (before ++ r ∷ []))
      × (t.sleeps ≡ schedule 0 (length before + last_sleeps port r))
      × All (IsReport port) t.snapshots
run-Stops port before rest r g h =
    let ends = run_rounds port before rest r 0 g h in
    (ends.0, ends.1, ends.2, All-run port (before ++ r ∷ rest) 0)
