-- ===== src/PeerInfo/Laws.antt =====
-- src/net/peer_info.rs: laws of the operations on one peer's record.
use ipfs_embed.Prelude.{
  ℕ, zero, suc, ◌≤◌, ◌≡◌, refl, ap, Bool, List, [], ◌∷◌, Option, none, some, arith, length, take,
  pop_back, ltb, lookup, lookup-insert, lookup-remove, max, ite, ◌&&◌, if◌then◌else◌, holds,
  length-pop_back-le,
}
use ipfs_embed.Multiaddr.{Multiaddr, Multiaddr-discrete}
use ipfs_embed.PeerInfo.Source.{AddressSource, rank, is_to_probe}
use ipfs_embed.PeerInfo.Failure.{ConnectionFailure}
use ipfs_embed.PeerInfo.{PeerInfo, push_failure, ingest_address, ingested, probed}

take_short {ℓ} : {A : Type ℓ} (xs : List A) (n : ℕ) → length xs ≤ n → take n xs ≡ xs
take_short [] zero h = refl
take_short [] (suc n) h = refl
take_short (a ∷ rest) (suc n) h = ap (◌∷◌ a) (take_short rest n (ground arith))
take_short (a ∷ rest) zero h = absurd (ground arith)

pop_back-take {ℓ} : {A : Type ℓ} (n : ℕ) (xs : List A) → length xs ≡ suc n → pop_back xs ≡ take n xs
pop_back-take n [] h = absurd (omega arith)
pop_back-take zero (x ∷ []) h = refl
pop_back-take zero (x ∷ y ∷ xs) h = absurd (omega arith)
pop_back-take (suc n) (x ∷ []) h = absurd (omega arith)
pop_back-take (suc n) (x ∷ y ∷ xs) h = ap (◌∷◌ x) (pop_back-take n (y ∷ xs) (omega arith))

-- While at most ten failures are kept, a new one is put in front, and the oldest falls off
-- behind the tenth.
pub push_failure-failures :
    (info : PeerInfo) (addr : Multiaddr) (f : ConnectionFailure) (probe_result : Bool)
    → length info.failures ≤ 10
    → ((push_failure info addr f probe_result).failures ≡ take 10 (f ∷ info.failures))
      × (length (push_failure info addr f probe_result).failures ≤ 10)
unfolding push_failure
push_failure-failures info addr f probe_result h = (
  ground (arith, pop_back-take 9 info.failures, take_short info.failures 9),
  ground (
    arith,
    length-pop_back-le info.failures,
    pop_back-take 9 info.failures,
    length-take 9 info.failures,
  ),
)
  where
    length-take : (n : ℕ) (xs : List ConnectionFailure) → length (take n xs) ≤ n
    length-take zero xs = omega arith
    length-take (suc n) [] = omega arith
    length-take (suc n) (x ∷ xs) = omega (arith, length-take n xs)

-- A failure takes away at most the address that was dialled, and that one exactly if the failure
-- is an answer to a probe and the address is still to be probed.
pub push_failure-addresses :
    (info : PeerInfo) (addr b : Multiaddr) (f : ConnectionFailure) (probe_result : Bool)
    → lookup Multiaddr-discrete b (push_failure info addr f probe_result).addresses ≡ (
        if holds (Multiaddr-discrete addr b)
          && probe_result
          && probed (lookup Multiaddr-discrete addr info.addresses)
        then none
        else lookup Multiaddr-discrete b info.addresses)
unfolding push_failure
push_failure-addresses info addr b f probe_result =
    ground (arith, lookup-remove Multiaddr-discrete addr b info.addresses)

-- How much is known of an address: nothing is less than any source.
abbrev pub known : Option (AddressSource × ℕ) → ℕ
known none = 0
known (some (s, dt)) = suc (rank s)

ingested_lem :
    (source : AddressSource) (now : ℕ) (o : Option (AddressSource × ℕ))
    → let r = ingested source now o in
      (r.0.1 ≡ now)
      × (suc (rank r.0.0) ≡ max (known o) (suc (rank source)))
      × (r.1 ≡ (ltb (known o) (suc (rank source)) && is_to_probe source))
ingested_lem source now none = ground arith
ingested_lem source now (some (s, dt)) = ground arith

-- An address keeps the best source that it was ever seen from and the time when it was seen last;
-- no other address changes; and the caller is told to probe exactly when the source is better
-- than what was known, and is one to probe.
pub ingest_address_lem :
    (info : PeerInfo) (addr : Multiaddr) (source : AddressSource) (now : ℕ)
    → let old = lookup Multiaddr-discrete addr info.addresses in
      let (info', probe) = ingest_address info addr source now in
      (src : AddressSource) × (lookup Multiaddr-discrete addr info'.addresses ≡ some (src, now))
      × (suc (rank src) ≡ max (known old) (suc (rank source)))
      × ((b : Multiaddr)
          → lookup Multiaddr-discrete b info'.addresses
            ≡ ite
                (Multiaddr-discrete addr b)
                (some (src, now))
                (lookup Multiaddr-discrete b info.addresses))
      × (probe ≡ (ltb (known old) (suc (rank source)) && is_to_probe source))
unfolding ingest_address
ingest_address_lem info addr source now =
    let old = lookup Multiaddr-discrete addr info.addresses in
    let r = ingested source now old in
    let e = ingested_lem source now old in
    (
      r.0.0,
      ground (arith, e, lookup-insert Multiaddr-discrete addr addr r.0 info.addresses),
      e.1,
      λ b. ground (arith, e, lookup-insert Multiaddr-discrete addr b r.0 info.addresses),
      e.2,
    )
