-- ===== src/Examples/PeerAt.antt =====
-- The theorems on one peer's record and on addresses, at the values of Examples/Constants.
use ipfs_embed.Prelude.{
  ℕ, suc, ◌+◌, ◌*◌, ◌/◌, ◌≡◌, ◌≤◌, ◌&&◌, true, false, List, [], ◌∷◌, none, some, lookup, arith,
  if◌then◌else◌, ltb, max, ite, holds, ◌||◌,
}
use ipfs_embed.Multiaddr.{Multiaddr, Multiaddr-discrete}
use ipfs_embed.Channel.{Channel}
use ipfs_embed.PeerInfo.{ingest_address, probed}
use ipfs_embed.PeerInfo.Rtt.{new, register, register_failure}
use ipfs_embed.PeerInfo.RttBounds.{
  observe, failure_rate-observe-le, register_failure_exact, register_bounds,
}
use ipfs_embed.PeerInfo.Laws.{known, ingest_address_lem}
use ipfs_embed.PeerInfo.Source.{AddressSource, incoming, rank, is_to_probe}
use ipfs_embed.PeerInfo.Failure.{wrong_peer_id}
use ipfs_embed.AddressBook.Failures.{validation_failed, is_wrong_peer, probe_result_of}
use ipfs_embed.AddressBook.Laws.Redials.{validation_failed-addresses}
use ipfs_embed.Examples.Constants.{texts, full_addr, peer_info}

-- The address is known from multicast, and now seen on an incoming connection.
ingest_address_lem_example :
    let old = lookup Multiaddr-discrete full_addr peer_info.addresses in
    let (info', probe) = ingest_address peer_info full_addr incoming 9 in
    (src : AddressSource) × (lookup Multiaddr-discrete full_addr info'.addresses ≡ some (src, 9))
    × (suc (rank src) ≡ max (known old) (suc (rank incoming)))
    × ((b : Multiaddr)
        → lookup Multiaddr-discrete b info'.addresses
          ≡ ite
              (Multiaddr-discrete full_addr b)
              (some (src, 9))
              (lookup Multiaddr-discrete b peer_info.addresses))
    × (probe ≡ (ltb (known old) (suc (rank incoming)) && is_to_probe incoming))
ingest_address_lem_example = ingest_address_lem peer_info full_addr incoming 9

validation_failed-addresses_example :
    lookup Multiaddr-discrete full_addr
      (validation_failed texts peer_info full_addr (wrong_peer_id 3) 9).addresses
    ≡ (if holds (Multiaddr-discrete full_addr full_addr)
          && (is_wrong_peer (wrong_peer_id 3)
              || probe_result_of (wrong_peer_id 3)
                && probed (lookup Multiaddr-discrete full_addr peer_info.addresses))
        then none
        else lookup Multiaddr-discrete full_addr peer_info.addresses)
validation_failed-addresses_example =
    validation_failed-addresses texts peer_info full_addr full_addr (wrong_peer_id 3) 9

-- A ping answered, two lost, one answered.
failure_rate-observe-le_example :
    (observe (new 50) (some 40 ∷ none ∷ none ∷ some 60 ∷ [])).failure_rate ≤ 999901
failure_rate-observe-le_example = failure_rate-observe-le 50 (some 40 ∷ none ∷ none ∷ some 60 ∷ [])

register_failure_exact_example :
    (register_failure (observe (new 50) (none ∷ []))).failure_rate
    ≡ (observe (new 50) (none ∷ [])).failure_rate * 99 / 100 + 10000
register_failure_exact_example = register_failure_exact 50 (none ∷ [])

register_bounds_example :
    (40 ≤ (register (new 50) 60).decay_3 + 1)
    × ((register (new 50) 60).decay_3 ≤ 70)
    × (40 ≤ (register (new 50) 60).decay_10 + 1)
    × ((register (new 50) 60).decay_10 ≤ 70)
unfolding new
register_bounds_example =
    register_bounds (new 50) 60 40 70 (omega arith) (omega arith) (omega arith) (omega arith)
      (omega arith) (omega arith)

abbrev channels : List (Channel ℕ)
channels = record { open_ = true; queue = [] } ∷ record { open_ = false; queue = 1 ∷ [] } ∷ []
