-- ===== src/AddressBook/Laws/Probing.antt =====
-- src/net/peers.rs: which dials `add_address` asks for.
use ipfs_embed.Prelude.{
  ℕ, suc, ◌+◌, ◌≡◌, ◌==◌, ◌||◌, ◌&&◌, not, true, false, [], ◌∷◌, ◌++◌, some, arith, lookup, ltb,
  if◌then◌else◌,
}
use mathlib.Core.List.{append-nil}
use ipfs_embed.Multiaddr.{
  Multiaddr, Multiaddr-discrete, PeerId, PeerIds, normalize_addr, without_peer_id, is_loopback,
}
use ipfs_embed.PeerInfo.{ingest_address}
use ipfs_embed.PeerInfo.Laws.{known, ingest_address_lem}
use ipfs_embed.PeerInfo.Source.{AddressSource, rank, is_to_probe}
use ipfs_embed.AddressBook.State.{
  AddressBook, Action, or_default, contains, connected_at, notify, sim_open_retries,
}
use ipfs_embed.AddressBook.Addresses.{record_address, add_address}

-- The dial that answers whether an address is good.
abbrev pub probe : PeerIds → PeerId → Multiaddr → Action
probe ids peer address = record {
  opts = record { peer = peer; always = true; addresses = without_peer_id address ∷ [] };
  handler = record {
    own_dial = some (normalize_addr ids address peer, sim_open_retries + 1);
    keep_alive = false;
  };
}

-- An address is dialled exactly if it is another peer's, it does not count as loopback unless those
-- are enabled, where 127.0.0.0/8 and every address that does not start with an ip4 protocol count as
-- such, the node does not listen on it, the source is one to probe and better than what was known of
-- the address, and no connection to it is open. Nothing else is asked of the swarm.
pub add_address-actions :
    (ids : PeerIds) (b : AddressBook) (peer : PeerId) (address : Multiaddr) (source : AddressSource)
    (now : ℕ)
    → let full = normalize_addr ids address peer in
      let info = or_default peer b.peers in
      (add_address ids b peer address source now).actions
      ≡ b.actions
        ++ (if not (peer == b.local_peer_id)
              && (b.enable_loopback || not (is_loopback address))
              && not (contains (without_peer_id address) b.listeners)
              && (ltb (known (lookup Multiaddr-discrete full info.addresses)) (suc (rank source))
                  && is_to_probe source)
              && not (connected_at info full)
            then probe ids peer address ∷ []
            else [])
unfolding add_address record_address ingest_address notify
add_address-actions ids b peer address source now =
    let full = normalize_addr ids address peer in
    let info = or_default peer b.peers in
    ground (arith, (ingest_address_lem info full source now).4, append-nil b.actions)
