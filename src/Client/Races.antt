-- ===== src/Client/Races.antt =====
-- balancer.go: Invoke, NewStream and Close of a client, called at once from any goroutines. A call is
-- two steps, the test of the flag and the call of the connection; Close is two steps, what closeOnce
-- does up to the wait, and the Close of the connection. No goroutine is in the wait group.
use go_kubegrpc.Base.{
  ℕ, zero, suc, List, [], ◌∷◌, Option, none, some, Bool, true, false, if◌then◌else◌, get_elem?,
}
use go_kubegrpc.Client.{Process, cancel, ConnCall}

-- What a method returns: the error of the connection's Close, ErrClientClosed, or what the
-- connection answers.
pub data Reply : Type 0 where
  close_returns : Option ℕ → Reply
  client_closed answered : ConnCall → Reply

-- `closing` is whether closeOnce has begun, `conn_closed` whether it is over; `passed` are the calls
-- behind the test of the flag, `calls` those of the connection, newest first, and `conn_closes` how
-- often the connection was closed.
pub record Session : Type 0 where
  pub closing : Bool
  pub closed : Bool
  pub conn_closed : Bool
  pub passed : List ConnCall
  pub calls : List ConnCall
  pub conn_closes : ℕ
  pub replies : List Reply
  pub process : Process

pub data Step : Type 0 where
  checks : ConnCall → Step
  forwards : ℕ → Step
  close_begins close_ends : Step

-- A list without the element at an index.
unfoldable pub without_at : ℕ → List ConnCall → List ConnCall
without_at i [] = []
without_at zero (c ∷ cs) = cs
without_at (suc i) (c ∷ cs) = c ∷ without_at i cs

-- A step; a Close that finds closeOnce begun waits for its end and returns nil.
unfoldable pub step : Option ℕ → Step → Session → Session
unfolding without_at
step result (checks call) s =
    if s.closed
    then record s { replies = client_closed call ∷ s.replies }
    else record s { passed = call ∷ s.passed }
step result (forwards i) s = elim (get_elem? s.passed i) [
  | none ↦ s
  | some call ↦ record s {
    passed = without_at i s.passed;
    calls = call ∷ s.calls;
    replies = answered call ∷ s.replies;
  }
]
step result close_begins s =
    if s.closing then s else record s { closing = true; closed = true; process = cancel s.process }
step result close_ends s =
    if s.conn_closed
    then record s { replies = close_returns none ∷ s.replies }
    else if s.closing
    then record s {
      conn_closed = true;
      conn_closes = suc s.conn_closes;
      replies = close_returns result ∷ s.replies;
    }
    else s

unfoldable pub steps : Option ℕ → List Step → Session → Session
unfolding step
steps result [] s = s
steps result (e ∷ es) s = steps result es (step result e s)

-- The client that `NewClient` returns.
unfoldable pub open_session : Process → Session
open_session p = record {
  closing = false;
  closed = false;
  conn_closed = false;
  passed = [];
  calls = [];
  conn_closes = 0;
  replies = [];
  process = p;
}
