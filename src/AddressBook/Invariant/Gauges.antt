-- ===== src/AddressBook/Invariant/Gauges.antt =====
-- src/net/peers.rs: the operations that leave the listen addresses and the gauges alone.
use ipfs_embed.Prelude.{
  or_else, remove, ℕ_discrete, arith, ℕ, Bool, List, [], ◌∷◌, Option, some, none, ◌≡◌, refl,
}
use ipfs_embed.Multiaddr.{
  Multiaddr, PeerId, PeerIds, ConnectedPoint, normalize_connected_point, remote_address,
}
use ipfs_embed.PeerInfo.{PeerInfo}
use ipfs_embed.PeerInfo.Source.{AddressSource}
use ipfs_embed.PeerInfo.Failure.{Texts, ConnectionError, DialError, TransportError, transport}
use ipfs_embed.AddressBook.State.{
  IntoAddressHandler, handler_peer_id, new_info, put_info, AddressBook, Metrics, Event, notify,
  get_info,
}
use ipfs_embed.AddressBook.Dial
use ipfs_embed.AddressBook.Addresses
use ipfs_embed.AddressBook.Prune
use ipfs_embed.AddressBook.Connections
use ipfs_embed.AddressBook.Failures
use ipfs_embed.AddressBook.Identify

-- The listen addresses and the gauges, which only the events of the swarm's listeners touch.
abbrev pub side : AddressBook → List Multiaddr × Metrics
side b = (b.listeners, b.metrics)

pub record IsBeside (s : List Multiaddr × Metrics) (b : AddressBook) : Type 0 where
  pub listeners_kept : b.listeners ≡ s.0
  pub metrics_kept : b.metrics ≡ s.1

pub kept : (b : AddressBook) → IsBeside (side b) b
kept b = record { listeners_kept = refl; metrics_kept = refl }

pub dial-IsBeside : (b : AddressBook) (peer : PeerId) → IsBeside (side b) (Dial.dial b peer)
unfolding Dial.dial
dial-IsBeside b peer = ground arith

pub dial_address-IsBeside :
    (ids : PeerIds) (b : AddressBook) (peer : PeerId) (addr : Multiaddr)
    → IsBeside (side b) (Dial.dial_address ids b peer addr)
unfolding Dial.dial_address
dial_address-IsBeside ids b peer addr = ground arith

record_address-IsBeside :
    (ids : PeerIds) (b : AddressBook) (peer : PeerId) (addr : Multiaddr) (source : AddressSource)
    (now : ℕ)
    → IsBeside (side b) (Addresses.record_address ids b peer addr source now)
unfolding Addresses.record_address
record_address-IsBeside ids b peer addr source now = ground arith

pub add_address-IsBeside :
    (ids : PeerIds) (b : AddressBook) (peer : PeerId) (addr : Multiaddr) (source : AddressSource)
    (now : ℕ)
    → IsBeside (side b) (Addresses.add_address ids b peer addr source now)
unfolding Addresses.add_address notify
add_address-IsBeside ids b peer addr source now =
    let recorded = record_address-IsBeside ids b peer addr source now in
    ground (arith, recorded.listeners_kept, recorded.metrics_kept)

without_address-IsBeside :
    (ids : PeerIds) (b : AddressBook) (peer : PeerId) (addr : Multiaddr) (o : Option PeerInfo)
    → IsBeside (side b) (Addresses.without_address ids b peer addr o)
without_address-IsBeside ids b peer addr none = kept b
without_address-IsBeside ids b peer addr (some info) = ground arith

pub remove_address-IsBeside :
    (ids : PeerIds) (b : AddressBook) (peer : PeerId) (addr : Multiaddr)
    → IsBeside (side b) (Addresses.remove_address ids b peer addr)
unfolding Addresses.remove_address
remove_address-IsBeside ids b peer addr =
    without_address-IsBeside ids b peer addr (get_info peer b.peers)

remove_peers-side :
    (b : AddressBook) (peers : List PeerId) → side (Prune.remove_peers b peers) ≡ side b
unfolding Prune.remove_peers notify
remove_peers-side b [] = refl
remove_peers-side b (p ∷ peers) =
    remove_peers-side (notify (record b { peers = remove ℕ_discrete p b.peers }) (new_info p)) peers

pub prune_peers-IsBeside :
    (b : AddressBook) (min_age now : ℕ) → IsBeside (side b) (Prune.prune_peers b min_age now)
unfolding Prune.prune_peers
prune_peers-IsBeside b min_age now =
    ground (arith, remove_peers-side b (Prune.to_remove min_age now b.peers))

rtt_set-IsBeside :
    (b : AddressBook) (peer : PeerId) (rtt : Option ℕ) (o : Option PeerInfo)
    → IsBeside (side b) (Connections.rtt_set b peer rtt o)
unfolding notify
rtt_set-IsBeside b peer rtt none = kept b
rtt_set-IsBeside b peer rtt (some info) = ground arith

pub set_rtt-IsBeside :
    (b : AddressBook) (peer : PeerId) (rtt : Option ℕ)
    → IsBeside (side b) (Connections.set_rtt b peer rtt)
unfolding Connections.set_rtt
set_rtt-IsBeside b peer rtt = rtt_set-IsBeside b peer rtt (get_info peer b.peers)

pub connection_closed-IsBeside :
    (ids : PeerIds) (t : Texts) (b : AddressBook) (peer : PeerId) (cp : ConnectedPoint) (n : ℕ)
    (error : Option ConnectionError) (now : ℕ)
    → IsBeside (side b) (Connections.connection_closed ids t b peer cp n error now)
unfolding Connections.connection_closed notify
connection_closed-IsBeside ids t b peer cp n error now = ground arith

pub connection_established-IsBeside :
    (ids : PeerIds) (b : AddressBook) (peer : PeerId) (cp : ConnectedPoint) (others now : ℕ)
    → IsBeside (side b) (Connections.connection_established ids b peer cp others now)
unfolding Connections.connection_established Connections.note_connection notify
connection_established-IsBeside ids b peer cp others now =
    let conn = normalize_connected_point ids cp b.local_peer_id peer in
    let added =
      add_address-IsBeside ids b peer (remote_address conn) (Connections.source_of conn) now in
    ground (arith, added.listeners_kept, added.metrics_kept)

pub address_change-IsBeside :
    (ids : PeerIds) (b : AddressBook) (peer : PeerId) (old new_ : ConnectedPoint) (now : ℕ)
    → IsBeside (side b) (Connections.address_change ids b peer old new_ now)
unfolding Connections.address_change Connections.note_connection Connections.drop_connection notify
address_change-IsBeside ids b peer old new_ now =
    let conn = normalize_connected_point ids new_ b.local_peer_id peer in
    let added =
      add_address-IsBeside ids b peer (remote_address conn) (Connections.source_of conn) now in
    ground (arith, added.listeners_kept, added.metrics_kept)

notify_all-side : (b : AddressBook) (es : List Event) → side (Failures.notify_all b es) ≡ side b
unfolding Failures.notify_all notify
notify_all-side b [] = refl
notify_all-side b (e ∷ es) = notify_all-side (notify b e) es

info_set-IsBeside :
    (ids : PeerIds) (b : AddressBook) (peer : PeerId) (info : Identify.Info) (now : ℕ)
    (o : Option PeerInfo)
    → IsBeside (side b) (Identify.info_set ids b peer info now o)
unfolding notify
info_set-IsBeside ids b peer info now none = kept b
info_set-IsBeside ids b peer info now (some i) = ground arith

pub set_info-IsBeside :
    (ids : PeerIds) (b : AddressBook) (peer : PeerId) (info : Identify.Info) (now : ℕ)
    → IsBeside (side b) (Identify.set_info ids b peer info now)
unfolding Identify.set_info
set_info-IsBeside ids b peer info now =
    info_set-IsBeside ids b peer info now (get_info peer b.peers)

validation_failure-IsBeside :
    (t : Texts) (b : AddressBook) (peer : PeerId) (info : PeerInfo) (addr : Multiaddr) (retries : ℕ)
    (keep_alive : Bool) (error : DialError) (now : ℕ)
    → IsBeside
        (side b)
        (Failures.validation_failure t b peer info addr retries keep_alive error now)
unfolding Failures.validation_failure notify
validation_failure-IsBeside t b peer info addr retries keep_alive error now = ground arith

swarm_dial_failure-IsBeside :
    (ids : PeerIds) (t : Texts) (b : AddressBook) (peer : PeerId) (info : PeerInfo)
    (v : List (Multiaddr × TransportError)) (now : ℕ)
    → IsBeside (side b) (Failures.swarm_dial_failure ids t b peer info v now)
unfolding Failures.swarm_dial_failure notify
swarm_dial_failure-IsBeside ids t b peer info v now =
    let (info', events, redials) = Failures.note_errors ids t peer b.keep_alive now info v in
    ground (arith, notify_all-side (put_info b peer info') events)

known_peer_failure-IsBeside :
    (ids : PeerIds) (t : Texts) (b : AddressBook) (peer : PeerId) (own : Option (Multiaddr × ℕ))
    (keep_alive : Bool) (error : DialError) (now : ℕ) (info : PeerInfo)
    → IsBeside (side b) (Failures.known_peer_failure ids t b peer own keep_alive error now info)
unfolding notify
known_peer_failure-IsBeside ids t b peer (some (addr, retries)) keep_alive error now info =
    validation_failure-IsBeside t b peer info addr retries keep_alive error now
known_peer_failure-IsBeside ids t b peer none keep_alive (transport v) now info =
    swarm_dial_failure-IsBeside ids t b peer info v now
known_peer_failure-IsBeside ids t b peer none keep_alive _ now info = ground arith

pub dial_failure-IsBeside :
    (ids : PeerIds) (t : Texts) (b : AddressBook) (handler : IntoAddressHandler)
    (peer_id : Option PeerId) (error : DialError) (now : ℕ)
    → IsBeside (side b) (Failures.dial_failure ids t b handler peer_id error now)
unfolding Failures.dial_failure
dial_failure-IsBeside ids t b handler peer_id error now =
    go (or_else (handler_peer_id ids handler.own_dial) peer_id)
  where
    looked_up :
        (peer : PeerId) (o : Option PeerInfo)
        → IsBeside (side b) (Failures.looked_up_failure ids t b peer handler error now o)
    looked_up peer none = kept b
    looked_up peer (some info) =
        known_peer_failure-IsBeside ids t b peer handler.own_dial handler.keep_alive error now info

    go : (o : Option PeerId) → IsBeside (side b) (Failures.peer_failure ids t b handler error now o)
    go none = kept b
    go (some peer) = looked_up peer (get_info peer b.peers)
