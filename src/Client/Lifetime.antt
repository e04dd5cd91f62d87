-- ===== src/Client/Lifetime.antt =====
-- The calls of a client around its Close.
use go_kubegrpc.Base.{
  ℕ, ◌-◌, ◌≡◌, refl, List, [], ◌∷◌, ◌++◌, Option, none, true, false, map, All, ◌∙◌, ap,
}
use go_kubegrpc.Client.{Process, Client, ConnCall, invokes, opens_stream, closes}
use go_kubegrpc.Client.Calls.{close, invoke, new_stream, close_returns, client_closed, answered}
use go_kubegrpc.Client.Calls.{Op, Reply, forward, close_client, apply, run}

-- What a method returns behind Close.
abbrev pub refusal : Op → Reply
refusal close = close_returns none
refusal (invoke n opts) = client_closed
refusal (new_stream n opts) = client_closed

-- What a call before Close returns, and its call of the connection.
abbrev pub reply : Op → Reply
reply close = close_returns none
reply (invoke n opts) = answered n
reply (new_stream n opts) = answered n

abbrev pub call_of : Op → ConnCall
call_of close = closes
call_of (invoke n opts) = invokes n opts
call_of (new_stream n opts) = opens_stream n opts

-- A call that is not Close.
abbrev pub IsCall : Op → Type 0
IsCall close = ⊥
IsCall (invoke n opts) = Unit
IsCall (new_stream n opts) = Unit

run-append :
    (result : Option ℕ) (ops rest : List Op) (s : Client × Process)
    → let first = run result ops s in
      let after = run result rest first.1 in
      run result (ops ++ rest) s ≡ (first.0 ++ after.0, after.1)
unfolding run
run-append result [] rest s = refl
run-append result (op ∷ ops) rest s =
    let first = apply result op s in
    ap (λ r. (first.0 ∷ r.0, r.1)) (run-append result ops rest first.1)

-- An open client, with the calls of its connection.
abbrev open_client : ℕ → List ConnCall → Client
open_client conn calls = record { conn = conn; closing = false; closed = false; calls = calls }

abbrev closed_client : ℕ → List ConnCall → Client
closed_client conn calls = record { conn = conn; closing = true; closed = true; calls = calls }

-- The calls of the connection, newest first, on top of those before.
abbrev pub pushed : List Op → List ConnCall → List ConnCall
pushed [] calls = calls
pushed (op ∷ ops) calls = pushed ops (call_of op ∷ calls)

run_open :
    (result : Option ℕ) (ops : List Op) (conn : ℕ) (calls : List ConnCall) (p : Process)
    → All IsCall ops
    → run result ops (open_client conn calls, p)
      ≡ (map reply ops, (open_client conn (pushed ops calls), p))
unfolding run apply forward
run_open result [] conn calls p h = refl
run_open result (close ∷ ops) conn calls p h = absurd h.0
run_open result (invoke n opts ∷ ops) conn calls p h =
    ap (λ r. (answered n ∷ r.0, r.1)) (run_open result ops conn (invokes n opts ∷ calls) p h.1)
run_open result (new_stream n opts ∷ ops) conn calls p h =
    ap (λ r. (answered n ∷ r.0, r.1)) (run_open result ops conn (opens_stream n opts ∷ calls) p h.1)

run_closed :
    (result : Option ℕ) (ops : List Op) (conn : ℕ) (calls : List ConnCall) (p : Process)
    → run result ops (closed_client conn calls, p)
      ≡ (map refusal ops, (closed_client conn calls, p))
unfolding run apply forward close_client
run_closed result [] conn calls p = refl
run_closed result (close ∷ ops) conn calls p =
    ap (λ r. (close_returns none ∷ r.0, r.1)) (run_closed result ops conn calls p)
run_closed result (invoke n opts ∷ ops) conn calls p =
    ap (λ r. (client_closed ∷ r.0, r.1)) (run_closed result ops conn calls p)
run_closed result (new_stream n opts ∷ ops) conn calls p =
    ap (λ r. (client_closed ∷ r.0, r.1)) (run_closed result ops conn calls p)

-- R1.4 to R1.6, R11.1: for a client that NewClient has returned, each call before the first Close is
-- forwarded to the connection, once and in order; the first Close closes the connection, cancels the
-- context and returns the connection's error; then nothing reaches the connection any more, each
-- further Close returns nil, each call ErrClientClosed, and the process stays as it is.
pub run_lifetime :
    (result : Option ℕ) (before after : List Op) (conn : ℕ) (p : Process)
    → All IsCall before
    → let fresh : Client = record { conn = conn; closing = false; closed = false; calls = [] } in
      run result (before ++ close ∷ after) (fresh, p) ≡ (
        map reply before ++ close_returns result ∷ map refusal after,
        (
          record { conn = conn; closing = true; closed = true; calls = closes ∷ pushed before [] },
          record p { contexts = p.contexts - 1 },
        ),
      )
unfolding run apply close_client
run_lifetime result before after conn p h =
    let opened = run_open result before conn [] p h in
    let tail =
      run_closed result after conn (closes ∷ pushed before [])
        (record p { contexts = p.contexts - 1 }) in
    run-append result before (close ∷ after) (open_client conn [], p)
    ∙ ap (λ r. (r.0 ++ (run result (close ∷ after) r.1).0, (run result (close ∷ after) r.1).1))
        opened
    ∙ ap (λ r. (map reply before ++ close_returns result ∷ r.0, r.1)) tail
