-- ===== src/AddressBook/Handler.antt =====
-- src/net/address_handler.rs: `AddressHandler`, the handler of a connection, which speaks no protocol
-- and only says whether the connection is to be kept open.
use ipfs_embed.Prelude.{ℕ, Bool, Option, none, if◌then◌else◌}
use ipfs_embed.Multiaddr.{Multiaddr, PeerId, ConnectedPoint}
use ipfs_embed.AddressBook.State.{IntoAddressHandler}

pub record AddressHandler : Type 0 where
  pub own_dial : Option (Multiaddr × ℕ)
  pub remote_peer_id : PeerId
  pub connected_point : ConnectedPoint
  pub keep_alive : Bool

-- `KeepAlive` of libp2p, as far as the handler uses it
pub data KeepAlive : Type 0 where
  keep : KeepAlive
  close : KeepAlive

unfoldable pub into_handler : IntoAddressHandler → PeerId → ConnectedPoint → AddressHandler
into_handler h remote_peer_id connected_point = record {
  own_dial = h.own_dial;
  remote_peer_id = remote_peer_id;
  connected_point = connected_point;
  keep_alive = h.keep_alive;
}

unfoldable pub connection_keep_alive : AddressHandler → KeepAlive
connection_keep_alive h = if h.keep_alive then keep else close

-- The handler is never done: its poll is pending, and it takes over nothing of a substream.
unfoldable pub poll : {E : Type 0} → AddressHandler → Option E × AddressHandler
poll h = (none, h)

unfoldable pub inject : {E : Type 0} → E → AddressHandler → AddressHandler
inject event h = h
