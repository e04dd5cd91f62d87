-- ===== src/Client/Conservation.antt =====
-- The calls of a client around a Close that happens at the same time.
use go_kubegrpc.Base.{
  ℕ, zero, suc, ◌+◌, ◌≡◌, ◌≤◌, refl, ◌∙◌, ap, List, [], ◌∷◌, ◌++◌, Option, some, Bool, true, false,
  if◌then◌else◌, get_elem?, All, arith, Option-cases, inl, inr,
}
use go_kubegrpc.Client.{Process, cancel, ConnCall}
use go_kubegrpc.Client.Races.{
  Reply, client_closed, Session, Step, checks, forwards, close_begins, close_ends, without_at, step,
  steps, open_session,
}

-- How many calls pass a test, in a list, among the refused ones, and among those that some steps make.
abbrev pub tally : (ConnCall → Bool) → List ConnCall → ℕ
tally q [] = 0
tally q (c ∷ cs) = if q c then suc (tally q cs) else tally q cs

abbrev pub refused : (ConnCall → Bool) → List Reply → ℕ
refused q [] = 0
refused q (client_closed c ∷ rs) = if q c then suc (refused q rs) else refused q rs
refused q (_ ∷ rs) = refused q rs

abbrev pub made : (ConnCall → Bool) → List Step → ℕ
made q [] = 0
made q (checks c ∷ es) = if q c then suc (made q es) else made q es
made q (_ ∷ es) = made q es

tally-without_at :
    (q : ConnCall → Bool) (i : ℕ) (cs : List ConnCall) (c : ConnCall)
    → get_elem? cs i ≡ some c
    → tally q (c ∷ without_at i cs) ≡ tally q cs
unfolding without_at
tally-without_at q i [] c h = ground (arith, h)
tally-without_at q zero (d ∷ cs) c h = ground (arith, h)
tally-without_at q (suc i) (d ∷ cs) c h = ground (arith, h, tally-without_at q i cs c h)

abbrev IsOpen : Session → Type 0
IsOpen s = (s.closing ≡ false) × (s.closed ≡ false) × (s.conn_closed ≡ false)

abbrev IsClosed : Session → Type 0
IsClosed s = (s.closing ≡ true) × (s.closed ≡ true)

-- The connection is closed where closeOnce is over, once.
abbrev IsOnce : Session → Type 0
IsOnce s = s.conn_closes ≡ (if s.conn_closed then 1 else 0)

-- A step of a call.
abbrev pub IsCallStep : Step → Type 0
IsCallStep (checks c) = Unit
IsCallStep (forwards i) = Unit
IsCallStep close_begins = ⊥
IsCallStep close_ends = ⊥

-- The calls that pass a test, at the connection or on the way to it.
abbrev pub under_way : (ConnCall → Bool) → Session → ℕ
under_way q s = tally q s.calls + tally q s.passed

module _ (result : Option ℕ) (q : ConnCall → Bool) where
  step-IsOnce : (e : Step) (s : Session) → IsOnce s → IsOnce (step result e s)
  unfolding step
  step-IsOnce (checks c) s h = ground arith
  step-IsOnce (forwards i) s h = ground arith
  step-IsOnce close_begins s h = ground arith
  step-IsOnce close_ends s h = ground arith

  steps-IsOnce : (es : List Step) (s : Session) → IsOnce s → IsOnce (steps result es s)
  unfolding steps
  steps-IsOnce [] s h = h
  steps-IsOnce (e ∷ es) s h = steps-IsOnce es (step result e s) (step-IsOnce e s h)

  -- A call on the way reaches the connection.
  under_way-forwards :
      (i : ℕ) (s : Session)
      → let t = step result (forwards i) s in
        (under_way q t ≡ under_way q s)
        × (refused q t.replies ≡ refused q s.replies)
        × (t.closing ≡ s.closing)
        × (t.closed ≡ s.closed)
        × (t.conn_closed ≡ s.conn_closed)
        × (t.process ≡ s.process)
  unfolding step
  under_way-forwards i s = elim (Option-cases (get_elem? s.passed i)) [
    | inl e ↦ rw (step, e) (refl, refl, refl, refl, refl, refl)
    | inr (c, e) ↦
        rw (step, e)
          (ground (arith, tally-without_at q i s.passed c e), refl, refl, refl, refl, refl)
  ]

  steps-IsOpen :
      (es : List Step) (s : Session)
      → All IsCallStep es
      → IsOpen s
      → let t = steps result es s in
        IsOpen t
        × (under_way q t ≡ under_way q s + made q es)
        × (refused q t.replies ≡ refused q s.replies)
        × (t.process ≡ s.process)
  unfolding steps step
  steps-IsOpen [] s c h = (h, omega arith, refl, refl)
  steps-IsOpen (checks c ∷ es) s k h =
      let rest = steps-IsOpen es (step result (checks c) s) k.1 (ground arith) in
      ground (arith, rest)
  steps-IsOpen (forwards i ∷ es) s k h =
      let one = under_way-forwards i s in
      let rest = steps-IsOpen es (step result (forwards i) s) k.1 (ground (arith, one, h)) in
      (rest.0, omega (arith, one.0, rest.1), rest.2 ∙ one.1, rest.3 ∙ one.5)
  steps-IsOpen (close_begins ∷ es) s k h = absurd k.0
  steps-IsOpen (close_ends ∷ es) s k h = absurd k.0

  steps-append :
      (before after : List Step) (s : Session)
      → steps result (before ++ after) s ≡ steps result after (steps result before s)
  unfolding steps
  steps-append [] after s = refl
  steps-append (e ∷ before) after s = steps-append before after (step result e s)

  steps-IsClosed :
      (es : List Step) (s : Session)
      → IsClosed s
      → let t = steps result es s in
        IsClosed t
        × (under_way q t ≡ under_way q s)
        × (refused q t.replies ≡ refused q s.replies + made q es)
        × (t.process ≡ s.process)
  unfolding steps step
  steps-IsClosed [] s h = (h, refl, omega arith, refl)
  steps-IsClosed (checks c ∷ es) s h =
      let rest = steps-IsClosed es (step result (checks c) s) (ground (arith, h)) in
      ground (arith, rest, h)
  steps-IsClosed (forwards i ∷ es) s h =
      let one = under_way-forwards i s in
      let rest = steps-IsClosed es (step result (forwards i) s) (ground (arith, one, h)) in
      (rest.0, rest.1 ∙ one.0, omega (arith, rest.2, one.1), rest.3 ∙ one.5)
  steps-IsClosed (close_begins ∷ es) s h =
      let rest = steps-IsClosed es (step result close_begins s) (ground (arith, h)) in
      ground (arith, rest, h)
  steps-IsClosed (close_ends ∷ es) s h =
      let rest = steps-IsClosed es (step result close_ends s) (ground (arith, h)) in
      ground (arith, rest, h)

  close_begins-IsClosed :
      (s : Session)
      → IsOpen s
      → let t = step result close_begins s in
        IsClosed t
        × (under_way q t ≡ under_way q s)
        × (refused q t.replies ≡ refused q s.replies)
        × (t.process ≡ cancel s.process)
  unfolding step
  close_begins-IsClosed s h = rw (step, h.0) ((refl, refl), refl, refl, refl)

at_most_once : (n : ℕ) (b : Bool) → n ≡ (if b then 1 else 0) → n ≤ 1
at_most_once n true e = omega (arith, e)
at_most_once n false e = omega (arith, e)

-- R1.4 to R1.6, R11.1: let calls and Closes of a client that NewClient has returned interleave in any
-- way. For each test of a call, the calls that pass it at the connection and on their way to it are as
-- many as were begun before the first Close, none lost and none doubled; all calls begun after it are
-- refused with ErrClientClosed, and no other; the connection is closed at most once; and the context
-- of the client is cancelled once.
pub steps_race :
    (result : Option ℕ) (q : ConnCall → Bool) (before after : List Step) (p : Process)
    → All IsCallStep before
    → let s = steps result (before ++ close_begins ∷ after) (open_session p) in
      (under_way q s ≡ made q before)
      × (refused q s.replies ≡ made q after)
      × (s.conn_closes ≤ 1)
      × (s.process ≡ cancel p)
unfolding open_session steps step
steps_race result q before after p h =
    let start = open_session p in
    let opened = steps-IsOpen result q before start h (refl, refl, refl) in
    let middle = steps result before start in
    let begun = close_begins-IsClosed result q middle opened.0 in
    let ends = steps-IsClosed result q after (step result close_begins middle) begun.0 in
    let once = steps-IsOnce result q (before ++ close_begins ∷ after) start refl in
    let split = steps-append result q before (close_begins ∷ after) start in
    (
      ap (under_way q) split ∙ ends.1 ∙ begun.1 ∙ opened.1 ∙ omega arith,
      ap (λ (t : Session). refused q t.replies) split ∙ omega (arith, ends.2, begun.2, opened.2),
      at_most_once _ _ once,
      ap (λ (t : Session). t.process) split ∙ ends.3 ∙ begun.3 ∙ ap cancel opened.3,
    )
