-- ===== src/Adapter/Shutdown.antt =====
-- Close of a resolver's wrapper, and the goroutines that it waits for.
use go_kubegrpc.Base.{
  ℕ, suc, ◌+◌, ◌≡◌, ◌≢◌, ◌↔◌, refl, List, [], ◌∷◌, none, some, Bool, true, false, length, arith,
  ◌⊎◌, inl, inr, Option-cases, Bool-cases,
}
use go_kubegrpc.Adapter.Lifetime.{
  Stage, serving, closing_inner, awaiting_loop, awaiting_waiter, closed, Wrapper, Move, close_moves,
  loop_exits, waiter_exits, close_step, move, moves, wrap, new_inner, start, begin_close,
}

-- How many moves of Close are left.
abbrev pub remaining : Stage → ℕ
remaining serving = 4
remaining closing_inner = 3
remaining awaiting_loop = 2
remaining awaiting_waiter = 1
remaining closed = 0

abbrev pub undone : Bool → ℕ
undone true = 0
undone false = 1

-- How many moves are left to all goroutines.
abbrev pub rank : Wrapper → ℕ
rank w = remaining w.stage + undone w.inner.done + undone w.waiter_done

-- Close has got as far as it may, and a context that is needed is cancelled.
abbrev Consistent : Wrapper → Type 0
Consistent w =
    (w.inner.started ≡ true)
    × (w.cancelled ≡ (elim w.stage [ serving ↦ false | _ ↦ true ]))
    × ((elim w.stage [ awaiting_waiter ↦ w.inner.done | closed ↦ w.inner.done | _ ↦ true ]) ≡ true)
    × ((elim w.stage [ closed ↦ w.waiter_done | _ ↦ true ]) ≡ true)

close_step-Consistent :
    (s : Stage) (w after : Wrapper)
    → w.stage ≡ s
    → Consistent w
    → close_step s w ≡ some after
    → Consistent after × (rank w ≡ suc (rank after))
unfolding close_step begin_close
close_step-Consistent serving w after k h e = ground (arith, k)
close_step-Consistent closing_inner w after k h e = ground (arith, k)
close_step-Consistent awaiting_loop w after k h e = ground (arith, k)
close_step-Consistent awaiting_waiter w after k h e = ground (arith, k)
close_step-Consistent closed w after k h e = ground (arith, k)

move-Consistent :
    (m : Move) (w after : Wrapper)
    → Consistent w
    → move m w ≡ some after
    → Consistent after × (rank w ≡ suc (rank after))
unfolding move close_step begin_close
move-Consistent close_moves w after h e = close_step-Consistent w.stage w after refl h e
move-Consistent loop_exits w after h e = ground arith
move-Consistent waiter_exits w after h e = ground arith

moves-Consistent :
    (ms : List Move) (w after : Wrapper)
    → Consistent w
    → moves ms w ≡ some after
    → Consistent after × (rank w ≡ length ms + rank after)
unfolding moves
moves-Consistent [] w after h e = ground arith
moves-Consistent (m ∷ ms) w after h e = elim (Option-cases (move m w)) [
  | inl f ↦ absurd (ground (arith, e, f))
  | inr (next, f) ↦
      let one = move-Consistent m w next h f in
      let rest = moves-Consistent ms next after one.0 (ground (arith, e, f)) in
      (rest.0, omega (arith, one.1, rest.1))
]

-- Some goroutine may move.
abbrev pub CanMove : Wrapper → Type 0
CanMove w = (m : Move) × (move m w ≢ none)

progress : (s : Stage) (w : Wrapper) → w.stage ≡ s → Consistent w → (w.stage ≡ closed) ⊎ CanMove w
unfolding move close_step
progress serving w k h = inr (close_moves, λ e. ground (arith, k, e))
progress closing_inner w k h = inr (close_moves, λ e. ground (arith, k, e))
progress awaiting_loop w k h = elim (Bool-cases w.inner.done) [
  | inl d ↦ inr (close_moves, λ e. ground (arith, k, d, e))
  | inr d ↦ inr (loop_exits, λ e. ground (arith, k, d, e, h))
]
progress awaiting_waiter w k h = elim (Bool-cases w.waiter_done) [
  | inl d ↦ inr (close_moves, λ e. ground (arith, k, d, e))
  | inr d ↦ inr (waiter_exits, λ e. ground (arith, k, d, e, h))
]
progress closed w k h = inl k

rank-closed :
    (s : Stage) (w : Wrapper) → w.stage ≡ s → Consistent w → (w.stage ≡ closed) ↔ (rank w ≡ 0)
rank-closed serving w k h = ground (arith, k)
rank-closed closing_inner w k h = ground (arith, k)
rank-closed awaiting_loop w k h = ground (arith, k)
rank-closed awaiting_waiter w k h = ground (arith, k)
rank-closed closed w k h = ground (arith, k, h)

-- R1.6, R12.3: let Close of a resolver that Build has made and its goroutines make any moves, in any
-- interleaving. Then they have at most six moves in all, four of them Close's, and as long as Close
-- has not returned one of them may move, so that Close returns; it has returned exactly where no move
-- is left, so both goroutines have ended by then.
pub moves_close :
    (ms : List Move) (w : Wrapper)
    → moves ms (wrap new_inner) ≡ some w
    → (length ms + rank w ≡ 6)
      × ((w.stage ≡ closed) ⊎ CanMove w)
      × ((w.stage ≡ closed) ↔ (rank w ≡ 0))
unfolding wrap new_inner start
moves_close ms w h =
    let (i, spent) = moves-Consistent ms (wrap new_inner) w (refl, refl, refl, refl) h in
    (omega (arith, spent), progress w.stage w refl i, rank-closed w.stage w refl i)
