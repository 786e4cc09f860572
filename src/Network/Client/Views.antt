-- ===== src/Network/Client/Views.antt =====
-- src/net/mod.rs: what the handle reads of the address book.
use ipfs_embed.Prelude.{
  any-append, any, ◌&&◌, ℕ, List, [], ◌∷◌, ◌++◌, Bool, false, Option, some, none, ◌≡◌, refl, ◌||◌,
  ◌==◌, lookup, ℕ_discrete, is_empty, not, map, Distinct, arith,
}
use ipfs_embed.Multiaddr.{Multiaddr, PeerId}
use ipfs_embed.PeerInfo.{PeerInfo}
use ipfs_embed.PeerInfo.Source.{Direction}
use ipfs_embed.AddressBook.State.{AddressBook}

unfoldable pub listeners : AddressBook → List Multiaddr
listeners b = b.listeners

unfoldable pub peers : AddressBook → List PeerId
peers b = map (λ entry. entry.0) b.peers

connections_of :
    PeerId → List (Multiaddr × (ℕ × Direction)) → List (PeerId × Multiaddr × (ℕ × Direction))
connections_of peer [] = []
connections_of peer ((a, since) ∷ rest) = (peer, a, since) ∷ connections_of peer rest

all_connections : List (PeerId × PeerInfo) → List (PeerId × Multiaddr × (ℕ × Direction))
unfolding connections_of
all_connections [] = []
all_connections ((peer, info) ∷ rest) = connections_of peer info.connections ++ all_connections rest

unfoldable pub connections : AddressBook → List (PeerId × Multiaddr × (ℕ × Direction))
unfolding all_connections
connections b = all_connections b.peers

has_connections : Option PeerInfo → Bool
has_connections none = false
has_connections (some info) = not (is_empty info.connections)

unfoldable pub is_connected : AddressBook → PeerId → Bool
unfolding has_connections
is_connected b peer = peer == b.local_peer_id || has_connections (lookup ℕ_discrete peer b.peers)

unfoldable pub peer_info : AddressBook → PeerId → Option PeerInfo
peer_info b peer = lookup ℕ_discrete peer b.peers

-- whether a connection is one to the peer
abbrev pub to : PeerId → PeerId × Multiaddr × (ℕ × Direction) → Bool
to peer c = c.0 == peer

any-connections_of :
    (peer p : PeerId) (cs : List (Multiaddr × (ℕ × Direction)))
    → any (to peer) (connections_of p cs) ≡ (p == peer && not (is_empty cs))
unfolding any connections_of
any-connections_of peer p [] = ground arith
any-connections_of peer p (c ∷ cs) = ground (arith, any-connections_of peer p cs)

any-all_connections :
    (peer : PeerId) (m : List (PeerId × PeerInfo))
    → Distinct ℕ_discrete m
    → any (to peer) (all_connections m) ≡ has_connections (lookup ℕ_discrete peer m)
unfolding any all_connections lookup has_connections
any-all_connections peer [] h = refl
any-all_connections peer ((p, info) ∷ m) h = ground (
  arith,
  any-append (to peer) (connections_of p info.connections) (all_connections m),
  any-connections_of peer p info.connections,
  any-all_connections peer m h.1,
  h.0,
)

-- In a book whose peers are distinct, `is_connected` holds of the node itself and of the peers that
-- `connections` lists, and of no other.
pub is_connected-connections :
    (b : AddressBook) (peer : PeerId)
    → Distinct ℕ_discrete b.peers
    → is_connected b peer ≡ (peer == b.local_peer_id || any (to peer) (connections b))
unfolding is_connected connections
is_connected-connections b peer h = ground (arith, any-all_connections peer b.peers h)
