-- ===== src/Pool.antt =====
-- internal/balancer/pool.go: the pool of subconnections of one client. Entries are shared by pointer
-- with the pickers and the drain goroutines, so they stand in a store and a `Ref` is a pointer. The
-- mutex makes every method one step. A SubConn is named by the number of the `NewSubConn` call that
-- returned it; whether a call succeeds is the argument `grants`. Not modelled: log lines, and
-- CreatedAt, which nothing reads.
pub mod Queries
pub mod Invariant
pub mod Counts
pub mod Accounting
pub mod Lookup
pub mod Lifecycle
pub mod InFlight
pub mod Renewal
use go_kubegrpc.Base.{
  ℕ, suc, ◌+◌, ◌≡◌, refl, List, [], ◌∷◌, Option, none, some, Bool, true, false, not, ◌&&◌, ite,
  if◌then◌else◌, ℕ_discrete, map,
}
use go_kubegrpc.Base.Int.{ℤ, pos, leb_ℤ}
use go_kubegrpc.Base.Maps.{lookup, insert, delete, MapOrder}
use go_kubegrpc.Text.{Bytes, Bytes-discrete}
use go_kubegrpc.Address.{addr_port}
use go_kubegrpc.Resolver.{Endpoint}

pub record PoolKey : Type 0 where
  pub namespace : Bytes
  pub service : Bytes
  pub address : Bytes
  pub port : ℕ

unfoldable pub PoolKey-discrete : Discrete PoolKey
unfolding Bytes-discrete ℕ_discrete
PoolKey-discrete = hlevel ℕ_discrete

-- `PoolKey.addrPort`.
unfoldable pub key_text : PoolKey → Bytes
unfolding addr_port
key_text k = addr_port k.address k.port

pub data HealthState : Type 0 where
  unknown serving not_serving : HealthState

-- connectivity.State of gRPC.
pub data ConnState : Type 0 where
  idle connecting ready transient_failure shut_down : ConnState

abbrev pub Ref : Type 0
Ref = ℕ

-- `health_cancel` is whether HealthCancel is non-nil.
pub record SubConnEntry : Type 0 where
  pub key : PoolKey
  pub sub_conn : ℕ
  pub in_flight : ℤ
  pub draining : Bool
  pub health : HealthState
  pub conn_state : ConnState
  pub health_cancel : Bool

-- What the balancer does to gRPC and to the health checkers, newest first in a log.
pub data Effect : Type 0 where
  create : ℕ → Bytes → Effect
  connect : ℕ → Effect
  shutdown : ℕ → Effect
  cancel_health : Ref → Effect
  resolve_now : Effect
  dial_health : Ref → Effect
  update_state : ConnState → Effect

-- `drains` are the entries whose drainAndClose goroutine runs.
pub record Pool : Type 0 where
  pub entries : List (PoolKey × Ref)
  pub store : Ref → SubConnEntry
  pub next_ref : ℕ
  pub calls : ℕ
  pub drains : List Ref
  pub log : List Effect

-- A write through a pointer.
unfoldable pub write : Ref → SubConnEntry → (Ref → SubConnEntry) → Ref → SubConnEntry
write r e store q = ite (ℕ_discrete q r) e (store q)

-- `NewPool`; what the store holds before its first entry is never read.
unfoldable pub new_pool : (Ref → SubConnEntry) → Pool
new_pool store = record {
  entries = [];
  store = store;
  next_ref = 0;
  calls = 0;
  drains = [];
  log = [];
}

abbrev pub emit : Effect → Pool → Pool
emit x p = record p { log = x ∷ p.log }

-- `if entry.HealthCancel != nil { entry.HealthCancel() }`.
unfoldable pub cancel_health_of : Ref → Pool → Pool
cancel_health_of r p = if (p.store r).health_cancel then emit (cancel_health r) p else p

-- The eviction at the start of `Add`.
unfoldable pub evict : PoolKey → Pool → Pool
unfolding cancel_health_of
evict key p = elim (lookup PoolKey-discrete key p.entries) [
  | none ↦ p
  | some r ↦
      let q = emit (shutdown (p.store r).sub_conn) (cancel_health_of r p) in
      record q { entries = delete PoolKey-discrete key q.entries }
]

abbrev pub new_entry : PoolKey → ℕ → SubConnEntry
new_entry key sub_conn = record {
  key = key;
  sub_conn = sub_conn;
  in_flight = pos 0;
  draining = false;
  health = unknown;
  conn_state = idle;
  health_cancel = false;
}

-- The rest of `Add`: NewSubConn, and the entry if that succeeds.
unfoldable pub create_entry : (ℕ → Bytes → Bool) → PoolKey → Pool → Pool × Option Ref
unfolding write
create_entry grants key p =
    if grants p.calls (key_text key)
    then (
      record p {
        entries = insert PoolKey-discrete key p.next_ref p.entries;
        store = write p.next_ref (new_entry key p.calls) p.store;
        next_ref = suc p.next_ref;
        calls = suc p.calls;
        log = connect p.calls ∷ create p.calls (key_text key) ∷ p.log;
      },
      some p.next_ref,
    )
    else (record p { calls = suc p.calls }, none)

-- `Pool.Add`; `none` is the error.
unfoldable pub add : (ℕ → Bytes → Bool) → Bytes → Bytes → Endpoint → Pool → Pool × Option Ref
unfolding evict create_entry
add grants namespace service ep p =
    let key : PoolKey = record {
      namespace = namespace;
      service = service;
      address = ep.address;
      port = ep.port;
    } in
    create_entry grants key (evict key p)

-- `Pool.Remove`.
unfoldable pub remove : PoolKey → Pool → Pool
unfolding cancel_health_of write
remove key p = elim (lookup PoolKey-discrete key p.entries) [
  | none ↦ p
  | some r ↦
      let q =
        cancel_health_of r
          (record p { store = write r (record (p.store r) { draining = true }) p.store }) in
      record q { entries = delete PoolKey-discrete key q.entries; drains = r ∷ q.drains }
]

-- The first occurrence leaves the list.
unfoldable pub without : Ref → List Ref → List Ref
without r [] = []
without r (q ∷ qs) = ite (ℕ_discrete q r) qs (q ∷ without r qs)

unfoldable pub is_member : Ref → List Ref → Bool
is_member r [] = false
is_member r (q ∷ qs) = ite (ℕ_discrete q r) true (is_member r qs)

-- What wakes a drainAndClose goroutine: its ticker, or the deadline after 5 seconds.
pub data Wake : Type 0 where
  tick deadline : Wake

-- The goroutine goes on waiting at a tick that sees RPCs in flight.
unfoldable pub is_drained : Wake → SubConnEntry → Bool
is_drained deadline e = true
is_drained tick e = leb_ℤ e.in_flight (pos 0)

-- One round of the loop of drainAndClose on `r`, and the shutdown if it leaves the loop.
unfoldable pub drain_step : Wake → Ref → Pool → Pool
unfolding without is_member is_drained
drain_step w r p =
    if is_member r p.drains && is_drained w (p.store r)
    then emit (shutdown (p.store r).sub_conn) (record p { drains = without r p.drains })
    else p

-- The reverifyFn that the balancer installs asks gRPC to resolve again.
unfoldable pub reverify : ConnState → Pool → Pool
reverify transient_failure p = emit resolve_now p
reverify _ p = p

-- `Pool.UpdateConnState`.
unfoldable pub update_conn_state : PoolKey → ConnState → Pool → Pool
unfolding write reverify
update_conn_state key state p = elim (lookup PoolKey-discrete key p.entries) [
  | none ↦ p
  | some r ↦
      reverify state
        (record p { store = write r (record (p.store r) { conn_state = state }) p.store })
]

-- `Pool.UpdateHealth`.
unfoldable pub update_health : PoolKey → HealthState → Pool → Pool
unfolding write
update_health key state p = elim (lookup PoolKey-discrete key p.entries) [
  | none ↦ p
  | some r ↦ record p { store = write r (record (p.store r) { health = state }) p.store }
]
