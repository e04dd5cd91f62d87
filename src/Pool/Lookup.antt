-- ===== src/Pool/Lookup.antt =====
-- What Add and Remove change in the map.
use go_kubegrpc.Base.{ℕ, ◌≡◌, ◌≢◌, none, Bool, true, ite, arith, Option-cases, inl, inr}
use go_kubegrpc.Base.Maps.{lookup, lookup-insert, lookup-delete}
use go_kubegrpc.Text.{Bytes}
use go_kubegrpc.Resolver.{Endpoint}
use go_kubegrpc.Pool.{
  Pool, PoolKey, PoolKey-discrete, key_text, evict, create_entry, add, remove, cancel_health_of,
}

-- The key of an endpoint.
abbrev pub endpoint_key : Bytes → Bytes → Endpoint → PoolKey
endpoint_key namespace service ep = record {
  namespace = namespace;
  service = service;
  address = ep.address;
  port = ep.port;
}

lookup-evict :
    (key k : PoolKey) (p : Pool)
    → lookup PoolKey-discrete k (evict key p).entries
      ≡ ite (PoolKey-discrete key k) none (lookup PoolKey-discrete k p.entries)
unfolding evict cancel_health_of
lookup-evict key k p = elim (Option-cases (lookup PoolKey-discrete key p.entries)) [
  | inl e ↦ rw (e, evict) (ground arith)
  | inr (r, e) ↦ ground (arith, lookup-delete PoolKey-discrete key k p.entries)
]

lookup-create_entry :
    (grants : ℕ → Bytes → Bool) (key k : PoolKey) (p : Pool)
    → key ≢ k
    → lookup PoolKey-discrete k (create_entry grants key p).0.entries
      ≡ lookup PoolKey-discrete k p.entries
unfolding create_entry
lookup-create_entry grants key k p h =
    ground (arith, lookup-insert PoolKey-discrete key k p.next_ref p.entries)

-- Add touches no other key.
pub lookup-add_ne :
    (grants : ℕ → Bytes → Bool) (namespace service : Bytes) (ep : Endpoint) (k : PoolKey) (p : Pool)
    → endpoint_key namespace service ep ≢ k
    → lookup PoolKey-discrete k (add grants namespace service ep p).0.entries
      ≡ lookup PoolKey-discrete k p.entries
unfolding add
lookup-add_ne grants namespace service ep k p h =
    let key = endpoint_key namespace service ep in
    ground (arith, lookup-create_entry grants key k (evict key p) h, lookup-evict key k p)

-- A granted Add leaves the key in the map.
pub lookup-add_self :
    (grants : ℕ → Bytes → Bool) (namespace service : Bytes) (ep : Endpoint) (p : Pool)
    → ((n : ℕ) (addr : Bytes) → grants n addr ≡ true)
    → lookup PoolKey-discrete
        (endpoint_key namespace service ep)
        (add grants namespace service ep p).0.entries
      ≢ none
unfolding add create_entry
lookup-add_self grants namespace service ep p h =
    let key = endpoint_key namespace service ep in
    let q = evict key p in
    ground
      (arith, h q.calls (key_text key), lookup-insert PoolKey-discrete key key q.next_ref q.entries)

pub lookup-remove :
    (key k : PoolKey) (p : Pool)
    → lookup PoolKey-discrete k (remove key p).entries
      ≡ ite (PoolKey-discrete key k) none (lookup PoolKey-discrete k p.entries)
unfolding remove cancel_health_of
lookup-remove key k p = elim (Option-cases (lookup PoolKey-discrete key p.entries)) [
  | inl e ↦ rw (e, remove) (ground arith)
  | inr (r, e) ↦ ground (arith, lookup-delete PoolKey-discrete key k p.entries)
]
