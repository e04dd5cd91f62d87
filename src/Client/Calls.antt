-- ===== src/Client/Calls.antt =====
-- balancer.go: Invoke, NewStream and Close of a client.
use go_kubegrpc.Base.{ℕ, List, [], ◌∷◌, Option, none, true, if◌then◌else◌}
use go_kubegrpc.Client.{
  opens_stream, invokes, CallOption, Process, cancel, ConnCall, Client, closes,
}

-- A method of the client, called with some arguments, known by a number.
pub data Op : Type 0 where
  close : Op
  invoke new_stream : ℕ → List CallOption → Op

-- What a method returns: the error of the connection's Close, ErrClientClosed, or what the
-- connection answers to the call with these arguments.
pub data Reply : Type 0 where
  close_returns : Option ℕ → Reply
  client_closed : Reply
  answered : ℕ → Reply

-- `Invoke` and `NewStream`, given the call of the connection that they forward.
unfoldable pub forward : ConnCall → ℕ → Client → Reply × Client
forward call n c =
    if c.closed then (client_closed, c) else (answered n, record c { calls = call ∷ c.calls })

-- `Close`, where the connection's Close returns an error or nil; no goroutine is in the wait group.
unfoldable pub close_client : Option ℕ → Client → Process → Reply × (Client × Process)
close_client result c p = if c.closing then (close_returns none, (c, p)) else (
  close_returns result,
  (record c { closing = true; closed = true; calls = closes ∷ c.calls }, cancel p),
)

unfoldable pub apply : Option ℕ → Op → Client × Process → Reply × (Client × Process)
unfolding close_client forward
apply result close s = close_client result s.0 s.1
apply result (invoke n opts) s = let r = forward (invokes n opts) n s.0 in (r.0, (r.1, s.1))
apply result (new_stream n opts) s =
    let r = forward (opens_stream n opts) n s.0 in (r.0, (r.1, s.1))

-- The methods in the order of their calls.
unfoldable pub run : Option ℕ → List Op → Client × Process → List Reply × (Client × Process)
unfolding apply
run result [] s = ([], s)
run result (op ∷ ops) s =
    let first = apply result op s in let rest = run result ops first.1 in (first.0 ∷ rest.0, rest.1)
