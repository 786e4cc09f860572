-- ===== src/AddressBook/Invariant/Info.antt =====
-- src/net/peer_info.rs and src/net/peers.rs: what holds of one peer's record in the book.
use ipfs_embed.Prelude.{
  ℕ, ◌≤◌, ◌≡◌, Bool, true, false, [], ◌∷◌, some, arith, All, All-insert, All-remove, length, remove,
  insert, lookup, if◌then◌else◌, ◌&&◌,
}
use ipfs_embed.Multiaddr.{
  Multiaddr, Multiaddr-discrete, has_peer_id, ip_port, replace_port, tcp, ip4, ip6, IpAddr,
}
use ipfs_embed.PeerInfo.{PeerInfo, empty_info, push_failure, ingest_address, ingested, probed}
use ipfs_embed.PeerInfo.Laws.{push_failure-failures}
use ipfs_embed.PeerInfo.Source.{AddressSource, Direction}
use ipfs_embed.PeerInfo.Failure.{ConnectionFailure}

abbrev pub EndsInPeer {ℓ} : {V : Type ℓ} → Multiaddr × V → Type 0
EndsInPeer e = has_peer_id e.0 ≡ true

-- Addresses and connections are kept in normal form, and at most ten failures are kept.
pub record InfoIsValid (info : PeerInfo) : Type 0 where
  pub addresses_end : All EndsInPeer info.addresses
  pub connections_end : All EndsInPeer info.connections
  pub failures_bounded : length info.failures ≤ 10

pub empty_info-IsValid : InfoIsValid empty_info
empty_info-IsValid = record {
  addresses_end = tt;
  connections_end = tt;
  failures_bounded = omega arith;
}

pub ingest_address-IsValid :
    (info : PeerInfo) (addr : Multiaddr) (source : AddressSource) (now : ℕ)
    → has_peer_id addr ≡ true
    → InfoIsValid info
    → InfoIsValid (ingest_address info addr source now).0
unfolding ingest_address
ingest_address-IsValid info addr source now e v = record {
  addresses_end =
      All-insert Multiaddr-discrete EndsInPeer addr
        (ingested source now (lookup Multiaddr-discrete addr info.addresses)).0 info.addresses e
        v.addresses_end;
  connections_end = v.connections_end;
  failures_bounded = v.failures_bounded;
}

pub push_failure-IsValid :
    (info : PeerInfo) (addr : Multiaddr) (f : ConnectionFailure) (probe_result : Bool)
    → InfoIsValid info
    → InfoIsValid (push_failure info addr f probe_result)
unfolding push_failure
push_failure-IsValid info addr f probe_result v = record {
  addresses_end = go (probe_result && probed (lookup Multiaddr-discrete addr info.addresses));
  connections_end = v.connections_end;
  failures_bounded = (push_failure-failures info addr f probe_result v.failures_bounded).1;
}
  where
    go :
        (c : Bool)
        → All EndsInPeer
            (if c then remove Multiaddr-discrete addr info.addresses else info.addresses)
    go true = All-remove Multiaddr-discrete EndsInPeer addr info.addresses v.addresses_end
    go false = v.addresses_end

pub remove_address-IsValid :
    (info : PeerInfo) (addr : Multiaddr)
    → InfoIsValid info
    → InfoIsValid (record info { addresses = remove Multiaddr-discrete addr info.addresses })
remove_address-IsValid info addr v = record {
  addresses_end = All-remove Multiaddr-discrete EndsInPeer addr info.addresses v.addresses_end;
  connections_end = v.connections_end;
  failures_bounded = v.failures_bounded;
}

pub connect-IsValid :
    (info : PeerInfo) (addr : Multiaddr) (c : ℕ × Direction)
    → has_peer_id addr ≡ true
    → InfoIsValid info
    → InfoIsValid (record info { connections = insert Multiaddr-discrete addr c info.connections })
connect-IsValid info addr c e v = record {
  addresses_end = v.addresses_end;
  connections_end =
      All-insert Multiaddr-discrete EndsInPeer addr c info.connections e v.connections_end;
  failures_bounded = v.failures_bounded;
}

pub disconnect-IsValid :
    (info : PeerInfo) (addr : Multiaddr)
    → InfoIsValid info
    → InfoIsValid (record info { connections = remove Multiaddr-discrete addr info.connections })
disconnect-IsValid info addr v = record {
  addresses_end = v.addresses_end;
  connections_end =
      All-remove Multiaddr-discrete EndsInPeer addr info.connections v.connections_end;
  failures_bounded = v.failures_bounded;
}

-- To exchange the port of an address keeps the peer at its end.
pub replace_port-ends :
    (addr addr' : Multiaddr) (port : ℕ) {q : IpAddr × ℕ}
    → has_peer_id addr ≡ true
    → ip_port addr ≡ some q
    → replace_port addr port ≡ some addr'
    → has_peer_id addr' ≡ true
unfolding ip_port replace_port
replace_port-ends (ip4 ip ∷ tcp p ∷ []) addr' port e h r = cc
replace_port-ends (ip6 ip ∷ tcp p ∷ []) addr' port e h r = cc
replace_port-ends (a ∷ b ∷ c ∷ rest) addr' port e h r = ground arith
replace_port-ends (a ∷ b ∷ []) addr' port e h r = ground arith
replace_port-ends (a ∷ []) addr' port e h r = ground arith
replace_port-ends [] addr' port e h r = ground arith
