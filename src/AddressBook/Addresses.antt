-- ===== src/AddressBook/Addresses.antt =====
-- src/net/peers.rs: `add_address` and `remove_address`.
use ipfs_embed.Prelude.{
  ℕ, ◌+◌, Bool, true, false, not, ◌&&◌, [], ◌∷◌, Option, none, some, ◌==◌, if◌then◌else◌, remove,
  is_empty,
}
use ipfs_embed.Multiaddr.{
  Multiaddr, Multiaddr-discrete, PeerId, PeerIds, normalize_addr, without_peer_id, is_loopback,
}
use ipfs_embed.PeerInfo.{PeerInfo, confirmed_addresses, ingest_address}
use ipfs_embed.PeerInfo.Source.{AddressSource, is_confirmed}
use ipfs_embed.AddressBook.State.{
  AddressBook, discovered, new_info, sim_open_retries, get_info, or_default, put_info, contains,
  push_action, notify, connected_at,
}

-- `.filter(|info| info.confirmed_addresses().next().is_some()).is_none()`
abbrev pub undiscovered : Option PeerInfo → Bool
undiscovered none = true
undiscovered (some info) = is_empty (confirmed_addresses info)

-- the part under the write lock: the peer's entry, and the dial of an address to probe
unfoldable pub record_address :
    PeerIds → AddressBook → PeerId → Multiaddr → AddressSource → ℕ → AddressBook
record_address ids b peer address source now =
    let addr_full = normalize_addr ids address peer in
    let (info, probe) = ingest_address (or_default peer b.peers) addr_full source now in
    let b' = put_info b peer info in
    if probe && not (connected_at info addr_full)
    then push_action b' (record {
      opts = record { peer = peer; always = true; addresses = without_peer_id address ∷ [] };
      handler = record { own_dial = some (addr_full, sim_open_retries + 1); keep_alive = false };
    })
    else b'

unfoldable pub add_address :
    PeerIds → AddressBook → PeerId → Multiaddr → AddressSource → ℕ → AddressBook
add_address ids b peer address source now =
    if peer == b.local_peer_id
    then b
    else if not b.enable_loopback && is_loopback address
    then b
    else if contains (without_peer_id address) b.listeners
    then b
    else let b' = record_address ids b peer address source now in
      let b'' =
        if undiscovered (get_info peer b.peers) && is_confirmed source
        then notify b' (discovered peer)
        else b' in
      notify b'' (new_info peer)

abbrev pub without_address :
    PeerIds → AddressBook → PeerId → Multiaddr → Option PeerInfo → AddressBook
without_address ids b peer address none = b
without_address ids b peer address (some info) = put_info b peer (record info {
  addresses = remove Multiaddr-discrete (normalize_addr ids address peer) info.addresses;
})

unfoldable pub remove_address : PeerIds → AddressBook → PeerId → Multiaddr → AddressBook
remove_address ids b peer address = without_address ids b peer address (get_info peer b.peers)
