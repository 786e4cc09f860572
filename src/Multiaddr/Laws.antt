-- ===== src/Multiaddr/Laws.antt =====
-- Laws of the normal form of an address, which ends in the peer's identity.
use ipfs_embed.Prelude.{true, false, ◌≡◌, some, arith, last?-snoc, pop_back-snoc}
use ipfs_embed.Multiaddr.{
  PeerId, PeerIds, Multiaddr, p2p, has_peer_id, normalize_addr, without_peer_id, peer_id,
}

module _ (ids : PeerIds) where
  -- A normalised address ends in a peer's identity.
  pub has_peer_id-normalize_addr :
      (a : Multiaddr) (p : PeerId) → has_peer_id (normalize_addr ids a p) ≡ true
  unfolding normalize_addr
  has_peer_id-normalize_addr a p = ground (arith, last?-snoc a (p2p (ids.to_multihash p)))

  pub normalize_addr_of_has_peer_id :
      (a : Multiaddr) (p : PeerId) → has_peer_id a ≡ true → normalize_addr ids a p ≡ a
  unfolding normalize_addr
  normalize_addr_of_has_peer_id a p e = ground arith

  -- To take the peer off a normalised address gives the address back, if it had no peer.
  without_peer_id-normalize_addr :
      (a : Multiaddr) (p : PeerId)
      → has_peer_id a ≡ false
      → without_peer_id (normalize_addr ids a p) ≡ a
  unfolding normalize_addr without_peer_id
  without_peer_id-normalize_addr a p e =
      ground
        (arith, last?-snoc a (p2p (ids.to_multihash p)), pop_back-snoc a (p2p (ids.to_multihash p)))

  -- `peer_id` gives the peer back for which an address without a peer was normalised.
  peer_id-normalize_addr :
      (a : Multiaddr) (p : PeerId)
      → has_peer_id a ≡ false
      → peer_id ids (normalize_addr ids a p) ≡ some p
  unfolding normalize_addr peer_id
  peer_id-normalize_addr a p e =
      ground (arith, last?-snoc a (p2p (ids.to_multihash p)), ids.from_to p)
