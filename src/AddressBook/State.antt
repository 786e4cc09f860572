-- ===== src/AddressBook/State.antt =====
-- src/net/peers.rs: `AddressBook`, its events and actions, and the operations that only read or
-- notify. src/net/address_handler.rs: `IntoAddressHandler`.
use ipfs_embed.Prelude.{
  ℕ, ◌+◌, Bool, true, false, List, [], ◌∷◌, ◌++◌, Option, none, some, String, lookup, insert,
  unwrap_or, any, holds, ℕ_discrete,
}
use ipfs_embed.Multiaddr.{Multiaddr, Multiaddr-discrete, PeerId, PeerIds, ConnectedPoint, peer_id}
use ipfs_embed.PeerInfo.{PeerInfo, empty_info}
use ipfs_embed.Channel.{Channel, broadcast}

abbrev pub ListenerId : Type 0
ListenerId = ℕ

-- The name of a topic, compared for equality only.
abbrev pub Topic : Type 0
Topic = ℕ

pub data Event : Type 0 where
  new_listener : ListenerId → Event
  new_listen_addr : ListenerId → Multiaddr → Event
  expired_listen_addr : ListenerId → Multiaddr → Event
  listener_error : ListenerId → String → Event
  listener_closed : ListenerId → Event
  new_external_addr : Multiaddr → Event
  expired_external_addr : Multiaddr → Event
  discovered : PeerId → Event
  dial_failure : PeerId → Multiaddr → String → Event
  unreachable : PeerId → Event
  connection_established : PeerId → ConnectedPoint → Event
  connection_closed : PeerId → ConnectedPoint → Event
  address_changed : PeerId → ConnectedPoint → ConnectedPoint → Event
  connected : PeerId → Event
  disconnected : PeerId → Event
  subscribed : PeerId → Topic → Event
  unsubscribed : PeerId → Topic → Event
  bootstrapped : Event
  new_info : PeerId → Event

-- `IntoAddressHandler`: the address and the retries left of a dial of our own
pub record IntoAddressHandler : Type 0 where
  pub own_dial : Option (Multiaddr × ℕ)
  pub keep_alive : Bool

-- `IntoAddressHandler::peer_id`
abbrev pub handler_peer_id : PeerIds → Option (Multiaddr × ℕ) → Option PeerId
handler_peer_id ids none = none
handler_peer_id ids (some (addr, retries)) = peer_id ids addr

-- `DialOpts`: `always` is `PeerCondition::Always`, else the builder's default condition holds
pub record DialOpts : Type 0 where
  pub peer : PeerId
  pub always : Bool
  pub addresses : List Multiaddr

-- `ToSwarm::Dial`, the one action that the book asks for
pub record Action : Type 0 where
  pub opts : DialOpts
  pub handler : IntoAddressHandler

-- `AddressRecord`: an address and its score
abbrev pub AddressRecord : Type 0
AddressRecord = Multiaddr × ℕ

-- A prometheus gauge or counter, by how often it was moved up and down.
pub record Gauge : Type 0 where
  pub incs : ℕ
  pub decs : ℕ

abbrev pub inc : Gauge → Gauge
inc g = record g { incs = g.incs + 1 }

abbrev pub dec : Gauge → Gauge
dec g = record g { decs = g.decs + 1 }

-- The metrics that the book moves.
pub record Metrics : Type 0 where
  pub listener_count : Gauge
  pub listen_addrs : Gauge
  pub external_addrs : Gauge
  pub listener_errors : Gauge

pub record AddressBook : Type 0 where
  pub port_reuse : Bool
  pub enable_loopback : Bool
  pub keep_alive : Bool
  pub local_peer_id : PeerId
  pub listeners : List Multiaddr
  pub peers : List (PeerId × PeerInfo)
  pub external : List AddressRecord
  pub refresh_external : Bool
  pub event_stream : List (Channel Event)
  pub actions : List Action
  pub deferred : List Action
  pub metrics : Metrics

abbrev pub no_moves : Gauge
no_moves = record { incs = 0; decs = 0 }

-- `AddressBook::new`, with the empty collections that `NetworkService::new` hands over
abbrev pub new : PeerId → Bool → Bool → Bool → AddressBook
new local_peer_id port_reuse enable_loopback keep_alive = record {
  port_reuse = port_reuse;
  enable_loopback = enable_loopback;
  keep_alive = keep_alive;
  local_peer_id = local_peer_id;
  listeners = [];
  peers = [];
  external = [];
  refresh_external = true;
  event_stream = [];
  actions = [];
  deferred = [];
  metrics = record {
    listener_count = no_moves;
    listen_addrs = no_moves;
    external_addrs = no_moves;
    listener_errors = no_moves;
  };
}

abbrev pub sim_open_retries : ℕ
sim_open_retries = 10

-- `peers.get(peer)`
abbrev pub get_info : PeerId → List (PeerId × PeerInfo) → Option PeerInfo
get_info = lookup ℕ_discrete

-- the entry that `peers.entry(peer).or_default()` gives
abbrev pub or_default : PeerId → List (PeerId × PeerInfo) → PeerInfo
or_default peer peers = unwrap_or (get_info peer peers) empty_info

-- a write through such an entry
abbrev pub put_info : AddressBook → PeerId → PeerInfo → AddressBook
put_info b peer info = record b { peers = insert ℕ_discrete peer info b.peers }

-- `listeners.contains(addr)`
abbrev pub contains : Multiaddr → List Multiaddr → Bool
contains addr addrs = any (λ a. holds (Multiaddr-discrete a addr)) addrs

-- `self.actions.push_back(action)`
abbrev pub push_action : AddressBook → Action → AddressBook
push_action b action = record b { actions = b.actions ++ action ∷ [] }

unfoldable pub notify : AddressBook → Event → AddressBook
notify b event = record b { event_stream = broadcast event b.event_stream }

unfoldable pub swarm_events : AddressBook → Channel Event → AddressBook
swarm_events b tx = record b { event_stream = b.event_stream ++ tx ∷ [] }

-- `connections.contains_key(addr)`
abbrev pub connected_at : PeerInfo → Multiaddr → Bool
connected_at info addr = elim (lookup Multiaddr-discrete addr info.connections) [
  | none ↦ false
  | some c ↦ true
]
