-- ===== src/PeerInfo/Source.antt =====
-- src/net/peer_info.rs: `AddressSource`, where an address came from, and `Direction`.
use Prim.Native.Nat.{compare, Ordering}
use ipfs_embed.Prelude.{ℕ, Bool, true, false}
use ipfs_embed.Multiaddr.{ConnectedPoint, dialer, listener}

pub data Direction : Type 0 where
  inbound outbound : Direction

-- `From<&ConnectedPoint>`
abbrev pub direction : ConnectedPoint → Direction
direction (dialer address role_override) = Direction.outbound
direction (listener local_addr send_back_addr) = Direction.inbound

pub data AddressSource : Type 0 where
  incoming listen kad mdns candidate user dial : AddressSource

-- The position in the declaration, by which the derived `Ord` compares.
abbrev pub rank : AddressSource → ℕ
rank incoming = 0
rank listen = 1
rank kad = 2
rank mdns = 3
rank candidate = 4
rank user = 5
rank dial = 6

abbrev pub cmp : AddressSource → AddressSource → Ordering
cmp a b = compare (rank a) (rank b)

abbrev pub is_confirmed : AddressSource → Bool
is_confirmed dial = true
is_confirmed user = true
is_confirmed candidate = true
is_confirmed _ = false

abbrev pub is_to_probe : AddressSource → Bool
is_to_probe listen = true
is_to_probe kad = true
is_to_probe mdns = true
is_to_probe candidate = true
is_to_probe _ = false

abbrev pub is_to_translate : AddressSource → Bool
is_to_translate incoming = true
is_to_translate _ = false
