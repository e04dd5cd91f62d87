-- ===== src/Tests/Pickers.antt =====
-- The pickers at concrete inputs.
use go_kubegrpc.Base.{
  ℕ, map, length, All, ◌+◌, ◌≡◌, ◌≢◌, refl, List, [], ◌∷◌, some, true, false, arith, ℕ_discrete,
}
use go_kubegrpc.Base.Int.{◌≤ℤ◌, add_one}
use go_kubegrpc.Base.Count.{count}
use go_kubegrpc.Base.Result.{ok}
use go_kubegrpc.Address.{addr_port}
use go_kubegrpc.Text.{Bytes, Bytes-discrete, codes}
use go_kubegrpc.Text.Order.{TextLe}
use go_kubegrpc.Text.Decimal.{itoa}
use go_kubegrpc.Pool.{key_text, Ref, write, is_member}
use go_kubegrpc.Picker.{
  Store, Tracker, RrPicker, address_of, is_tried, record_address, candidates, lr_pick,
}
use go_kubegrpc.Picker.Failover.{AreDistinct, failover, failover_distinct}
use go_kubegrpc.Picker.RoundRobin.{rr_run, rr_run_distribution}
use go_kubegrpc.Picker.LeastRequest.{lr_pick-least}
use go_kubegrpc.Tests.Pools.{blank, key}

abbrev pub healthy : List Ref
healthy = 0 ∷ 1 ∷ []

some_healthy : healthy ≢ []
some_healthy e = ground arith

abbrev round : RrPicker
round = record { healthy = healthy; counter = 0 }

-- One address was tried.
abbrev tracker : Tracker
tracker = some (codes "10.0.0.2:80" ∷ [])

rr_run_distribution_example :
    (rs : List Ref) × (rr_run blank 2 round ≡ some rs)
    × (count ℕ_discrete 1 rs ≡ count ℕ_discrete 1 healthy)
rr_run_distribution_example = rr_run_distribution blank round 1 some_healthy (omega arith)

lr_pick-least_example :
    (r : Ref) × (lr_pick blank tracker healthy
      ≡ ok (
        r,
        write r (record (blank r) { in_flight = add_one (blank r).in_flight }) blank,
        record_address (address_of blank r) tracker,
      ))
    × (is_member r healthy ≡ true)
    × ((q : Ref)
        → is_member q (candidates blank tracker healthy) ≡ true
        → ((blank r).in_flight ≤ℤ (blank q).in_flight)
          × ((blank q).in_flight ≡ (blank r).in_flight
              → TextLe (address_of blank r) (address_of blank q)))
    × ((tried : List Bytes) (q : Ref)
        → tracker ≡ some tried
        → is_member q healthy ≡ true
        → is_tried (address_of blank q) tried ≡ false
        → is_tried (address_of blank r) tried ≡ false)
lr_pick-least_example = lr_pick-least blank tracker healthy some_healthy

-- Two entries at different ports.
abbrev pub spread : Store
spread r = record (blank r) { key = record key { port = 80 + r } }

pub spread-AreDistinct : AreDistinct (map (address_of spread) healthy)
unfolding is_tried key_text addr_port itoa Bytes-discrete
spread-AreDistinct = (refl, (refl, tt))

-- The counter at the two attempts.
abbrev counters : List ℕ
counters = 7 ∷ 3 ∷ []

failover_distinct_example :
    (rs : List Ref) × (failover spread healthy counters (some [])
      ≡ some (rs, some (map (address_of spread) rs)))
    × (length rs ≡ length counters)
    × AreDistinct (map (address_of spread) rs)
    × All (λ r. is_member r healthy ≡ true) rs
failover_distinct_example =
    failover_distinct spread healthy counters spread-AreDistinct (omega arith)
