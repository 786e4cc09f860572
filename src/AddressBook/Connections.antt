-- ===== src/AddressBook/Connections.antt =====
-- src/net/peers.rs: `connection_closed`, `set_rtt`, and the arms of `on_swarm_event` on
-- connections that open or move.
use Prim.Native.String.{◌++◌ as append}
use ipfs_embed.Prelude.{
  ℕ, Bool, true, false, Option, none, some, String, ◌==◌, if◌then◌else◌, insert, remove,
}
use ipfs_embed.Multiaddr.{
  Multiaddr, Multiaddr-discrete, PeerId, PeerIds, ConnectedPoint, without_peer_id,
  normalize_connected_point, remote_address, is_dialer,
}
use ipfs_embed.PeerInfo.{PeerInfo, push_failure}
use ipfs_embed.PeerInfo
use ipfs_embed.PeerInfo.Source.{AddressSource, dial, incoming, direction}
use ipfs_embed.PeerInfo.Failure.{
  ConnectionError, kademlia, ping, identify, bitswap, gossipsub, broadcast, io, keep_alive_timeout,
  Texts, peer_disconnected, we_disconnected, closed_by,
}
use ipfs_embed.AddressBook.State.{
  AddressBook, connection_closed as closed_event, disconnected, new_info, connected,
  connection_established as established_event, address_changed as changed_event, get_info,
  or_default, put_info, notify,
}
use ipfs_embed.AddressBook.Addresses.{add_address}

-- why the connection closed, and whether the peer did it
abbrev pub close_reason : Texts → Option ConnectionError → String × Bool
close_reason t none = ("we closed", false)
close_reason t (some (kademlia e)) = (append "Kademlia I/O error: " (t.display_handler e), false)
close_reason t (some (ping e)) = (append "Ping failure: " (t.display_handler e), false)
close_reason t (some (identify e)) = (append "Identify I/O error: " (t.display_handler e), false)
close_reason t (some (bitswap e)) = (append "Bitswap error: " (t.display_handler e), false)
close_reason t (some (gossipsub e)) = (append "Gossipsub error: " (t.display_handler e), false)
close_reason t (some (broadcast e)) = (append "Broadcast error: " (t.display_handler e), false)
close_reason t (some (io e)) = (append "connection I/O error: " (t.display_handler e), true)
close_reason t (some keep_alive_timeout) = ("we closed due to missing keepalive", false)

-- the part under the write lock
unfoldable pub forget_connection :
    Texts → PeerInfo → Multiaddr → Option ConnectionError → ℕ → PeerInfo
forget_connection t entry addr error now =
    let (reason, peer_closed) = close_reason t error in
    push_failure (record entry { connections = remove Multiaddr-discrete addr entry.connections })
      addr
      (closed_by (if peer_closed then peer_disconnected else we_disconnected) (without_peer_id addr)
        reason (t.debug_closed error) now)
      false

unfoldable pub connection_closed :
    PeerIds
    → Texts
    → AddressBook
    → PeerId
    → ConnectedPoint
    → ℕ
    → Option ConnectionError
    → ℕ
    → AddressBook
connection_closed ids t b peer cp num_established error now =
    let conn = normalize_connected_point ids cp b.local_peer_id peer in
    let entry = forget_connection t (or_default peer b.peers) (remote_address conn) error now in
    let b' = notify (put_info b peer entry) (closed_event peer conn) in
    notify (if num_established == 0 then notify b' (disconnected peer) else b') (new_info peer)

abbrev pub rtt_set : AddressBook → PeerId → Option ℕ → Option PeerInfo → AddressBook
rtt_set b peer rtt none = b
rtt_set b peer rtt (some info) =
    notify (put_info b peer (PeerInfo.set_rtt info rtt)) (new_info peer)

unfoldable pub set_rtt : AddressBook → PeerId → Option ℕ → AddressBook
set_rtt b peer rtt = rtt_set b peer rtt (get_info peer b.peers)

-- the source of the remote address of a connection
abbrev pub source_of : ConnectedPoint → AddressSource
source_of cp = if is_dialer cp then dial else incoming

-- `entry(peer).or_default().connections.insert(addr, ..)`
unfoldable pub note_connection : AddressBook → PeerId → ConnectedPoint → ℕ → AddressBook
note_connection b peer conn now =
    let info = or_default peer b.peers in
    put_info b peer (record info {
      connections =
          insert Multiaddr-discrete (remote_address conn) (now, direction conn) info.connections;
    })

-- `FromSwarm::ConnectionEstablished`
unfoldable pub connection_established :
    PeerIds → AddressBook → PeerId → ConnectedPoint → ℕ → ℕ → AddressBook
connection_established ids b peer endpoint other_established now =
    let conn = normalize_connected_point ids endpoint b.local_peer_id peer in
    let b' = add_address ids b peer (remote_address conn) (source_of conn) now in
    let b'' = note_connection b' peer conn now in
    notify (if other_established == 0 then notify b'' (connected peer) else b'')
      (established_event peer conn)

unfoldable pub drop_connection : AddressBook → PeerId → Multiaddr → AddressBook
drop_connection b peer addr =
    let info = or_default peer b.peers in
    put_info b peer (record info { connections = remove Multiaddr-discrete addr info.connections })

-- `FromSwarm::AddressChange`
unfoldable pub address_change :
    PeerIds → AddressBook → PeerId → ConnectedPoint → ConnectedPoint → ℕ → AddressBook
address_change ids b peer old_cp new_cp now =
    let old = normalize_connected_point ids old_cp b.local_peer_id peer in
    let new = normalize_connected_point ids new_cp b.local_peer_id peer in
    let b' = add_address ids b peer (remote_address new) (source_of new) now in
    let b'' = note_connection (drop_connection b' peer (remote_address old)) peer new now in
    notify b'' (changed_event peer old new)
