-- ===== src/Multiaddr.antt =====
-- src/net/peers.rs: the functions on addresses. A `Multiaddr` is the sequence of its protocols,
-- which is all that the program sees of it (`iter`, `push`, `pop`, `replace`).
pub mod Laws
use ipfs_embed.Prelude.{
  ℕ, ◌/◌, Bool, true, false, List, [], ◌∷◌, ◌++◌, Option, none, some, ◌==◌, last?, first?, pop_back,
  if◌then◌else◌, ◌≡◌, ℕ_discrete,
}

-- A peer's identity, compared for equality only.
abbrev pub PeerId : Type 0
PeerId = ℕ

-- The bytes of a multihash, compared for equality only.
abbrev pub Multihash : Type 0
Multihash = ℕ

-- `libp2p::PeerId` converts into a multihash, and back where the multihash is that of a key.
pub record PeerIds : Type 0 where
  pub to_multihash : PeerId → Multihash
  pub from_multihash : Multihash → Option PeerId
  pub from_to : (p : PeerId) → from_multihash (to_multihash p) ≡ some p

-- `other` holds every protocol that the program does not look at, by its code and value.
pub data Protocol : Type 0 where
  ip4 : ℕ → Protocol
  ip6 : ℕ → Protocol
  tcp : ℕ → Protocol
  p2p : Multihash → Protocol
  other : ℕ → ℕ → Protocol

unfoldable pub Protocol-discrete : Discrete Protocol
Protocol-discrete = hlevel ℕ_discrete

abbrev pub Multiaddr : Type 0
Multiaddr = List Protocol

unfoldable pub Multiaddr-discrete : Discrete Multiaddr
unfolding Protocol-discrete
Multiaddr-discrete = hlevel (Protocol-discrete)

-- `IpAddr`
pub data IpAddr : Type 0 where
  v4 : ℕ → IpAddr
  v6 : ℕ → IpAddr

unfoldable pub IpAddr-discrete : Discrete IpAddr
IpAddr-discrete = hlevel ℕ_discrete

abbrev pub ends_in_p2p : Option Protocol → Bool
ends_in_p2p (some (p2p h)) = true
ends_in_p2p _ = false

-- `if let Some(Protocol::P2p(_)) = addr.iter().last()`
abbrev pub has_peer_id : Multiaddr → Bool
has_peer_id addr = ends_in_p2p (last? addr)

-- `normalize_addr` and `normalize_addr_ref`
unfoldable pub normalize_addr : PeerIds → Multiaddr → PeerId → Multiaddr
normalize_addr ids addr peer =
    if has_peer_id addr then addr else addr ++ p2p (ids.to_multihash peer) ∷ []

-- `without_peer_id` of peers.rs and `without_peer` of peer_info.rs
unfoldable pub without_peer_id : Multiaddr → Multiaddr
without_peer_id addr = if has_peer_id addr then pop_back addr else addr

abbrev pub peer_id_of : PeerIds → Option Protocol → Option PeerId
peer_id_of ids (some (p2p h)) = ids.from_multihash h
peer_id_of ids _ = none

-- `MultiaddrExt::peer_id`
unfoldable pub peer_id : PeerIds → Multiaddr → Option PeerId
peer_id ids addr = peer_id_of ids (last? addr)

-- `Ipv4Addr::is_loopback`: 127.0.0.0/8
abbrev pub is_loopback_v4 : ℕ → Bool
is_loopback_v4 ip = ip / 16777216 == 127

abbrev pub is_loopback_first : Option Protocol → Bool
is_loopback_first (some (ip4 ip)) = is_loopback_v4 ip
is_loopback_first _ = true

-- `MultiaddrExt::is_loopback`
unfoldable pub is_loopback : Multiaddr → Bool
is_loopback addr = is_loopback_first (first? addr)

abbrev pub port_of : IpAddr → Multiaddr → Option (IpAddr × ℕ)
port_of ip (tcp p ∷ _) = some (ip, p)
port_of ip _ = none

unfoldable pub ip_port : Multiaddr → Option (IpAddr × ℕ)
ip_port (ip4 ip ∷ rest) = port_of (v4 ip) rest
ip_port (ip6 ip ∷ rest) = port_of (v6 ip) rest
ip_port _ = none

-- `addr.replace(1, |_| Some(Protocol::Tcp(port)))`; `none` where there is no second protocol
unfoldable pub replace_port : Multiaddr → ℕ → Option Multiaddr
replace_port (a ∷ _ ∷ rest) port = some (a ∷ tcp port ∷ rest)
replace_port _ port = none

-- `ConnectedPoint`; the role is kept as it is given
pub data ConnectedPoint : Type 0 where
  dialer : Multiaddr → Bool → ConnectedPoint
  listener : Multiaddr → Multiaddr → ConnectedPoint

unfoldable pub normalize_connected_point :
    PeerIds → ConnectedPoint → PeerId → PeerId → ConnectedPoint
normalize_connected_point ids (dialer address role_override) local remote =
    dialer (normalize_addr ids address remote) role_override
normalize_connected_point ids (listener local_addr send_back_addr) local remote =
    listener (normalize_addr ids local_addr local) (normalize_addr ids send_back_addr remote)

-- `get_remote_address`
abbrev pub remote_address : ConnectedPoint → Multiaddr
remote_address (dialer address role_override) = address
remote_address (listener local_addr send_back_addr) = send_back_addr

abbrev pub is_dialer : ConnectedPoint → Bool
is_dialer (dialer address role_override) = true
is_dialer (listener local_addr send_back_addr) = false
