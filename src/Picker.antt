-- ===== src/Picker.antt =====
-- internal/balancer/picker_rr.go, picker_lr.go and the noHealthyPicker of builder.go. A pick reads the
-- entries in the store. The AttemptTracker of the context is the list of the addresses tried, or
-- `none` where the context has no tracker.
pub mod Candidates
pub mod RoundRobin
pub mod LeastRequest
pub mod Failover
use go_kubegrpc.Base.{
  ℕ, suc, ◌+◌, ◌%◌, ◌^◌, ◌≡◌, refl, List, [], ◌∷◌, ◌++◌, Option, none, some, Bool, true, false, not,
  ◌&&◌, ◌||◌, ite, if◌then◌else◌, length, get_elem?, ℕ_discrete,
}
use go_kubegrpc.Base.Int.{ℤ, ltb_ℤ, eqb_ℤ, add_one, sub_one}
use go_kubegrpc.Base.Result.{Result, ok, err}
use go_kubegrpc.Text.{Bytes, codes, Bytes-discrete}
use go_kubegrpc.Text.Order.{text_ltb}
use go_kubegrpc.Pool.{SubConnEntry, Ref, key_text, write}

abbrev pub Store : Type 0
Store = Ref → SubConnEntry

abbrev pub Tracker : Type 0
Tracker = Option (List Bytes)

-- codes.Unavailable with its message; `panic` is an index out of range or a nil pointer.
pub data PickError : Type 0 where
  unavailable : Bytes → PickError
  panic : PickError

abbrev pub address_of : Store → Ref → Bytes
address_of store r = key_text (store r).key

-- The inner loop: whether an address was tried.
unfoldable pub is_tried : Bytes → List Bytes → Bool
is_tried addr [] = false
is_tried addr (t ∷ tried) = ite (Bytes-discrete addr t) true (is_tried addr tried)

-- The outer loop.
unfoldable pub untried : Store → List Bytes → List Ref → List Ref
untried store tried [] = []
untried store tried (r ∷ rs) =
    if is_tried (address_of store r) tried
    then untried store tried rs
    else r ∷ untried store tried rs

unfoldable pub or_all : List Ref → List Ref → List Ref
or_all [] healthy = healthy
or_all (r ∷ rs) healthy = r ∷ rs

-- The entries to choose from: the untried ones if there is one, else all.
unfoldable pub candidates : Store → Tracker → List Ref → List Ref
unfolding or_all
candidates store none healthy = healthy
candidates store (some []) healthy = healthy
candidates store (some (t ∷ tried)) healthy = or_all (untried store (t ∷ tried) healthy) healthy

unfoldable pub record_address : Bytes → Tracker → Tracker
record_address addr none = none
record_address addr (some tried) = some (tried ++ addr ∷ [])

pub record RrPicker : Type 0 where
  pub healthy : List Ref
  pub counter : ℕ

unfoldable pub new_rr_picker : List Ref → RrPicker
new_rr_picker healthy = record { healthy = healthy; counter = 0 }

-- `candidates[idx]`, and the record of its address.
unfoldable pub pick_at :
    Store → Tracker → RrPicker → List Ref → ℕ → Result PickError (Ref × RrPicker × Tracker)
unfolding record_address
pick_at store tracker p cs idx = elim (get_elem? cs idx) [
  | none ↦ err panic
  | some r ↦ ok (r, p, record_address (address_of store r) tracker)
]

abbrev pub word64 : ℕ
word64 = 2 ^ 64

unfoldable pub rr_advance :
    Store → Tracker → RrPicker → List Ref → Result PickError (Ref × RrPicker × Tracker)
unfolding pick_at
rr_advance store tracker p cs =
    let counter = (p.counter + 1) % word64 in
    pick_at store tracker (record p { counter = counter }) cs (counter % length cs)

-- `rrPicker.Pick`.
unfoldable pub rr_pick : Store → Tracker → RrPicker → Result PickError (Ref × RrPicker × Tracker)
unfolding candidates rr_advance
rr_pick store tracker p = elim p.healthy [
  | [] ↦ err (unavailable (codes "no healthy subconns"))
  | r ∷ rs ↦ rr_advance store tracker p (candidates store tracker p.healthy)
]

-- Whether the loop of lrPicker prefers `q` to the entry `r` chosen so far.
unfoldable pub precedes : Store → Ref → Ref → Bool
precedes store q r =
    ltb_ℤ (store q).in_flight (store r).in_flight
    || (eqb_ℤ (store q).in_flight (store r).in_flight
        && text_ltb (address_of store q) (address_of store r))

-- The loop; the first entry is chosen where none is yet.
unfoldable pub choose : Store → Option Ref → List Ref → Option Ref
unfolding precedes
choose store best [] = best
choose store none (q ∷ qs) = choose store (some q) qs
choose store (some r) (q ∷ qs) = choose store (some (if precedes store q r then q else r)) qs

-- `lrPicker.Pick`, with the store in which the count of the chosen entry is incremented.
unfoldable pub lr_pick : Store → Tracker → List Ref → Result PickError (Ref × Store × Tracker)
unfolding candidates choose write record_address
lr_pick store tracker [] = err (unavailable (codes "no healthy subconns"))
lr_pick store tracker (h ∷ hs) = elim (choose store none (candidates store tracker (h ∷ hs))) [
  | none ↦ err panic
  | some r ↦ ok (
    r,
    write r (record (store r) { in_flight = add_one (store r).in_flight }) store,
    record_address (address_of store r) tracker,
  )
]

-- The Done callback of a least-request pick.
unfoldable pub lr_done : Ref → Store → Store
unfolding write
lr_done r store = write r (record (store r) { in_flight = sub_one (store r).in_flight }) store

-- `noHealthyPicker.Pick`.
unfoldable pub no_healthy_pick : Bytes → PickError
no_healthy_pick [] = unavailable (codes "no healthy subconns")
no_healthy_pick (c ∷ target) = unavailable ((c ∷ target) ++ codes ": no healthy subconns")
