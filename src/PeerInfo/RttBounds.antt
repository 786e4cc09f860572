-- ===== src/PeerInfo/RttBounds.antt =====
-- Bounds of the round trip statistics.
use ipfs_embed.Prelude.{ℕ, ◌+◌, ◌*◌, ◌/◌, ◌≤◌, ◌≡◌, List, [], ◌∷◌, Option, none, some, arith}
use ipfs_embed.PeerInfo.Rtt.{Rtt, new, register, register_failure}

-- A history of pings: a round trip time, or a failure.
unfoldable pub observe : Rtt → List (Option ℕ) → Rtt
observe r [] = r
observe r (some d ∷ events) = observe (register r d) events
observe r (none ∷ events) = observe (register_failure r) events

observe-le :
    (r : Rtt) (events : List (Option ℕ))
    → r.failure_rate ≤ 999901
    → (observe r events).failure_rate ≤ 999901
unfolding observe
observe-le r [] h = h
observe-le r (some d ∷ events) h = observe-le (register r d) events (unfold register in omega arith)
observe-le r (none ∷ events) h =
    observe-le (register_failure r) events (unfold register_failure in omega arith)

-- Every history of pings keeps the failure rate of a new `Rtt` at 999901 at most, so it never gets
-- to 1000000.
pub failure_rate-observe-le :
    (d : ℕ) (events : List (Option ℕ)) → (observe (new d) events).failure_rate ≤ 999901
unfolding new
failure_rate-observe-le d events = observe-le (new d) events (omega arith)

-- After every history of pings on a new `Rtt`, a failure changes the failure rate by the exact
-- formula: the product does not wrap in `u32`.
pub register_failure_exact :
    (d : ℕ) (events : List (Option ℕ))
    → (register_failure (observe (new d) events)).failure_rate
      ≡ (observe (new d) events).failure_rate * 99 / 100 + 10000
unfolding register_failure
register_failure_exact d events = omega (arith, failure_rate-observe-le d events)

-- If both averages and the new time are between `lo` and `hi`, then the new averages are `hi` at
-- most, and at most one nanosecond below `lo`.
pub register_bounds :
    (r : Rtt) (d lo hi : ℕ)
    → lo ≤ r.decay_3
    → lo ≤ r.decay_10
    → lo ≤ d
    → r.decay_3 ≤ hi
    → r.decay_10 ≤ hi
    → d ≤ hi
    → (lo ≤ (register r d).decay_3 + 1)
      × ((register r d).decay_3 ≤ hi)
      × (lo ≤ (register r d).decay_10 + 1)
      × ((register r d).decay_10 ≤ hi)
unfolding register
register_bounds r d lo hi a b c e f g = omega arith
