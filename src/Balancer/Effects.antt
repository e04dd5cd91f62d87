-- ===== src/Balancer/Effects.antt =====
-- What UpdateSubConnState is to do with an entry, and its parts on a pool with one entry written.
use mathlib.Core.Path.{fun_ext}
use go_kubegrpc.Base.{
  ◌≡◌, refl, ap, ◌∙◌, List, [], ◌∷◌, ◌++◌, some, Bool, true, false, ◌||◌, arith, Bool-cases, inl,
  inr, if◌then◌else◌,
}
use go_kubegrpc.Base.Maps.{lookup}
use go_kubegrpc.Pool.{
  Pool, PoolKey, PoolKey-discrete, Ref, SubConnEntry, Effect, connect, cancel_health, resolve_now,
  dial_health, HealthState, serving, not_serving, ConnState, write, reverify, update_conn_state,
  update_health,
}
use go_kubegrpc.Picker.{Store}
use go_kubegrpc.Balancer.{emit}
use go_kubegrpc.Balancer.SubConns.{set_cancel, Probe, start_health_check, stop_health_check}

-- Whether a health check that is begun runs on.
abbrev pub runs_on : Probe → Bool
runs_on Probe.dial_failed = false
runs_on Probe.watch_failed = false
runs_on Probe.started = true

-- The entry of a SubConn after its connectivity state is reported.
abbrev pub entry_after : Bool → Probe → ConnState → SubConnEntry → SubConnEntry
entry_after false probe ConnState.ready e = record e {
  conn_state = ConnState.ready;
  health = serving;
}
entry_after true probe ConnState.ready e = record e {
  conn_state = ConnState.ready;
  health_cancel = e.health_cancel || runs_on probe;
}
entry_after check probe ConnState.transient_failure e = record e {
  conn_state = ConnState.transient_failure;
  health = not_serving;
  health_cancel = false;
}
entry_after check probe ConnState.shut_down e = record e {
  conn_state = ConnState.shut_down;
  health = not_serving;
  health_cancel = false;
}
entry_after check probe ConnState.idle e = record e { conn_state = ConnState.idle }
entry_after check probe ConnState.connecting e = record e { conn_state = ConnState.connecting }

-- What a health check that is begun does.
abbrev pub begin_effects : Probe → Ref → List Effect
begin_effects Probe.dial_failed r = []
begin_effects Probe.watch_failed r = cancel_health r ∷ dial_health r ∷ []
begin_effects Probe.started r = dial_health r ∷ []

abbrev pub end_effects : Bool → Ref → List Effect
end_effects runs r = if runs then cancel_health r ∷ [] else []

-- What the balancer does then, before it tells gRPC the new picker, newest first.
abbrev pub effects_of : Bool → Probe → ConnState → Ref → SubConnEntry → List Effect
effects_of false probe ConnState.ready r e = []
effects_of true probe ConnState.ready r e = if e.health_cancel then [] else begin_effects probe r
effects_of check probe ConnState.transient_failure r e =
    end_effects e.health_cancel r ++ resolve_now ∷ []
effects_of check probe ConnState.shut_down r e = end_effects e.health_cancel r
effects_of check probe ConnState.idle r e = connect e.sub_conn ∷ []
effects_of check probe ConnState.connecting r e = []

-- A pool in which one entry is written and effects are logged.
abbrev pub written : Ref → SubConnEntry → List Effect → Pool → Pool
written r e effects p = record p { store = write r e p.store; log = effects ++ p.log }

write-write :
    (r : Ref) (e f : SubConnEntry) (store : Store) → write r e (write r f store) ≡ write r e store
unfolding write
write-write r e f store = fun_ext λ q. ground arith

pub write_self : (r : Ref) (e : SubConnEntry) (store : Store) → write r e store r ≡ e
unfolding write
write_self r e store = ground arith

pub update_health-written :
    (key : PoolKey) (state : HealthState) (r : Ref) (e : SubConnEntry) (xs : List Effect) (p : Pool)
    → lookup PoolKey-discrete key p.entries ≡ some r
    → update_health key state (written r e xs p) ≡ written r (record e { health = state }) xs p
unfolding update_health
update_health-written key state r e xs p h =
    rw (h, update_health)
      (rw (write_self r e p.store)
        (ap (λ s. record p { store = s; log = xs ++ p.log }) (write-write r _ e p.store)))

-- What UpdateConnState does besides its write.
abbrev pub reverify_effects : ConnState → List Effect
reverify_effects ConnState.transient_failure = resolve_now ∷ []
reverify_effects _ = []

pub update_conn_state-written :
    (key : PoolKey) (state : ConnState) (r : Ref) (p : Pool)
    → lookup PoolKey-discrete key p.entries ≡ some r
    → update_conn_state key state p
      ≡ written r (record (p.store r) { conn_state = state }) (reverify_effects state) p
unfolding update_conn_state reverify
update_conn_state-written key ConnState.idle r p h = rw (h, update_conn_state) refl
update_conn_state-written key ConnState.connecting r p h = rw (h, update_conn_state) refl
update_conn_state-written key ConnState.ready r p h = rw (h, update_conn_state) refl
update_conn_state-written key ConnState.transient_failure r p h = rw (h, update_conn_state) refl
update_conn_state-written key ConnState.shut_down r p h = rw (h, update_conn_state) refl

-- An entry is written again.
rewritten :
    (r : Ref) (e f : SubConnEntry) (xs : List Effect) (p : Pool)
    → record p { store = write r f (write r e p.store); log = xs ++ p.log } ≡ written r f xs p
rewritten r e f xs p =
    ap (λ s. record p { store = s; log = xs ++ p.log }) (write-write r f e p.store)

set_cancel-written :
    (b : Bool) (r : Ref) (e : SubConnEntry) (xs : List Effect) (p : Pool)
    → set_cancel b r (written r e xs p) ≡ written r (record e { health_cancel = b }) xs p
set_cancel-written b r e xs p = rw (write_self r e p.store) (rewritten r e _ xs p)

pub stop_health_check-written :
    (r : Ref) (e : SubConnEntry) (xs : List Effect) (p : Pool)
    → stop_health_check r (written r e xs p)
      ≡ written r (record e { health_cancel = false }) (end_effects e.health_cancel r ++ xs) p
unfolding stop_health_check
stop_health_check-written r e xs p = elim (Bool-cases e.health_cancel) [
  | inl f ↦ rw (write_self r e p.store, f) (rewritten r _ _ (cancel_health r ∷ xs) p)
  | inr f ↦ rw (write_self r e p.store, f) refl
]

pub start_health_check-written :
    (probe : Probe) (r : Ref) (e : SubConnEntry) (xs : List Effect) (p : Pool)
    → e.health_cancel ≡ false
    → start_health_check probe r (written r e xs p)
      ≡ written r (record e { health_cancel = runs_on probe }) (begin_effects probe r ++ xs) p
unfolding start_health_check
start_health_check-written Probe.dial_failed r e xs p f =
    ap (λ b. written r (record e { health_cancel = b }) xs p) f
start_health_check-written Probe.watch_failed r e xs p f =
    ap (λ q. set_cancel false r (emit (cancel_health r) q))
      (set_cancel-written true r e (dial_health r ∷ xs) p)
    ∙ set_cancel-written false r (record e { health_cancel = true })
        (cancel_health r ∷ dial_health r ∷ xs) p
start_health_check-written Probe.started r e xs p f =
    set_cancel-written true r e (dial_health r ∷ xs) p
