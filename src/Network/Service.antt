-- ===== src/Network/Service.antt =====
-- src/net/mod.rs: `poll_swarm`, the loop that owns the swarm: one round of it for each command and
-- for each event.
pub mod Books
pub mod Topics
pub mod Invariant
pub mod Runs
pub mod Streams
use ipfs_embed.Prelude.{ℕ, List, [], ◌∷◌, ◌++◌, Option, none, some}
use ipfs_embed.Multiaddr.{Multiaddr, PeerId, PeerIds, ConnectedPoint}
use ipfs_embed.PeerInfo.Source.{user}
use ipfs_embed.PeerInfo.Failure.{Texts, ConnectionError}
use ipfs_embed.Channel.{unbounded}
use ipfs_embed.AddressBook.State.{AddressBook, ListenerId, Topic, swarm_events as book_events}
use ipfs_embed.AddressBook.Dial
use ipfs_embed.AddressBook.Prune
use ipfs_embed.AddressBook.Connections
use ipfs_embed.AddressBook.Identify
use ipfs_embed.Network.State.{Quorum, Key, Record, Cid, Bytes, Behaviour}
use ipfs_embed.Network.Queries.{
  QueryId, Sender, KadResult, ok, failed, KadState, KademliaEvent, BitswapEvent,
}
use ipfs_embed.Network.Requests
use ipfs_embed.Network.Requests.Calls
use ipfs_embed.Network.Gossip.{
  Outcome, GossipState, Subscriptions, GossipsubEvent, BroadcastEvent, PublishAnswer, MdnsEvent,
  PingResult, inject_gossip_event, inject_broadcast_event, inject_mdns_event, inject_ping_event,
  inject_id_event,
}
use ipfs_embed.Network.Gossip

-- `NetworkCommand`, each with what the swarm or a protocol answers to it
pub data NetworkCommand : Type 0 where
  listen_on : Multiaddr → Sender → KadResult ListenerId → NetworkCommand
  add_external_address : Multiaddr → NetworkCommand
  add_address : PeerId → Multiaddr → NetworkCommand
  add_addresses : List (PeerId × Multiaddr) → NetworkCommand
  remove_address : PeerId → Multiaddr → NetworkCommand
  prune_peers : ℕ → NetworkCommand
  dial : PeerId → NetworkCommand
  dial_address : PeerId → Multiaddr → NetworkCommand
  ban : PeerId → NetworkCommand
  unban : PeerId → NetworkCommand
  bootstrap : List (PeerId × Multiaddr) → Sender → KadResult ℕ → NetworkCommand
  providers : Key → Sender → ℕ → NetworkCommand
  provide : Key → Sender → KadResult ℕ → NetworkCommand
  unprovide : Key → NetworkCommand
  get_record : Key → Quorum → Sender → ℕ → NetworkCommand
  put_record : Record → Quorum → Sender → KadResult ℕ → NetworkCommand
  remove_record : Key → NetworkCommand
  subscribe : Topic → Sender → Option ℕ → NetworkCommand
  publish : Topic → Bytes → Sender → PublishAnswer → NetworkCommand
  broadcast : Topic → Bytes → Sender → NetworkCommand
  get : Cid → List PeerId → Sender → Sender → ℕ → NetworkCommand
  sync : Cid → List PeerId → List Cid → Sender → Sender → ℕ → NetworkCommand
  swarm_events : Sender → NetworkCommand
  cancel_query : QueryId → NetworkCommand

-- A call of the swarm itself.
pub data SwarmCall : Type 0 where
  swarm_listen_on : Multiaddr → SwarmCall
  swarm_add_external_address : Multiaddr → SwarmCall
  swarm_ban swarm_unban : PeerId → SwarmCall

-- What goes back to whoever sent a command, beside the answers to queries.
pub data Reply : Type 0 where
  outcome : Outcome → Reply
  listening : ListenerId → Reply
  listen_failed : Multiaddr → ℕ → Reply
  query : QueryId → Reply
  events : Reply

-- The state of `poll_swarm`.
pub record Service : Type 0 where
  pub net : KadState
  pub subscriptions : Subscriptions
  pub swarm_calls : List SwarmCall
  pub replies : List (Sender × Reply)

abbrev pub with_behaviour : Service → Behaviour → Service
with_behaviour s b = record s { net = record (s.net) { behaviour = b } }

abbrev pub with_book : Service → AddressBook → Service
with_book s book = with_behaviour s (record (s.net.behaviour) { book = book })

abbrev pub reply : Service → Sender → Reply → Service
reply s tx r = record s { replies = s.replies ++ (tx, r) ∷ [] }

abbrev pub swarm_call : Service → SwarmCall → Service
swarm_call s c = record s { swarm_calls = s.swarm_calls ++ c ∷ [] }

abbrev pub with_net : Service → Option KadState → Option Service
with_net s none = none
with_net s (some net) = some (record s { net = net })

abbrev pub with_query : Service → Sender → QueryId → Option KadState → Option Service
with_query s tx id none = none
with_query s tx id (some net) = some (reply (record s { net = net }) tx (query id))

abbrev pub with_gossip : Service → GossipState → Service
with_gossip s g = record s {
  net = record (s.net) { behaviour = g.behaviour };
  subscriptions = g.subscriptions;
}

abbrev pub gossip_of : Service → GossipState
gossip_of s = record { behaviour = s.net.behaviour; subscriptions = s.subscriptions }

abbrev pub with_gossip? : Service → Option GossipState → Option Service
with_gossip? s none = none
with_gossip? s (some g) = some (with_gossip s g)

-- the loop of `AddAddresses`
unfoldable pub add_all : PeerIds → Behaviour → List (PeerId × Multiaddr) → ℕ → Behaviour
add_all ids b [] now = b
add_all ids b ((peer, addr) ∷ rest) now =
    add_all ids (Requests.add_address ids b peer addr user now) rest now

-- the loop of `Bootstrap`
unfoldable pub add_and_dial : PeerIds → Behaviour → List (PeerId × Multiaddr) → ℕ → Behaviour
add_and_dial ids b [] now = b
add_and_dial ids b ((peer, addr) ∷ rest) now =
    let b' = Requests.add_address ids b peer addr user now in
    add_and_dial ids (record b' { book = Dial.dial b'.book peer }) rest now

abbrev pub listened : Service → Multiaddr → Sender → KadResult ListenerId → Service
listened s addr tx (ok listener) = reply s tx (listening listener)
listened s addr tx (failed error) = reply s tx (listen_failed addr error)

-- `SwarmEvent`, and within `Behaviour` the event of the protocol
pub data SwarmEvent : Type 0 where
  connection_closed : PeerId → ConnectedPoint → ℕ → Option ConnectionError → SwarmEvent
  kad_event : KademliaEvent → SwarmEvent
  mdns_event : MdnsEvent → SwarmEvent
  ping_event : PeerId → PingResult → SwarmEvent
  identify_event : Option (PeerId × Identify.Info) → SwarmEvent
  bitswap_event : BitswapEvent → SwarmEvent
  gossipsub_event : GossipsubEvent → SwarmEvent
  broadcast_event : BroadcastEvent → SwarmEvent
  other_swarm_event : SwarmEvent

module _ (ids : PeerIds) (t : Texts) (hash : Topic → Topic) (k_value : ℕ) where
  -- `none` is a panic
  unfoldable pub handle : Service → NetworkCommand → ℕ → Option Service
  handle s (listen_on addr tx answer) now =
      let s' = with_book s (book_events s.net.behaviour.book unbounded) in
      some (listened (swarm_call s' (swarm_listen_on addr)) addr tx answer)
  handle s (add_external_address addr) now = some (swarm_call s (swarm_add_external_address addr))
  handle s (add_address peer addr) now =
      some (with_behaviour s (Requests.add_address ids s.net.behaviour peer addr user now))
  handle s (add_addresses addresses) now =
      some (with_behaviour s (add_all ids s.net.behaviour addresses now))
  handle s (remove_address peer addr) now =
      some (with_behaviour s (Requests.remove_address ids s.net.behaviour peer addr))
  handle s (prune_peers min_age) now =
      some (with_book s (Prune.prune_peers s.net.behaviour.book min_age now))
  handle s (dial peer) now = some (with_book s (Dial.dial s.net.behaviour.book peer))
  handle s (dial_address peer addr) now =
      some (with_book s (Dial.dial_address ids s.net.behaviour.book peer addr))
  handle s (ban peer) now = some (swarm_call s (swarm_ban peer))
  handle s (unban peer) now = some (swarm_call s (swarm_unban peer))
  handle s (bootstrap initial tx answer) now =
      let net = record (s.net) { behaviour = add_and_dial ids s.net.behaviour initial now } in
      with_net s (Calls.step k_value net (Calls.bootstrap tx answer))
  handle s (providers key tx id) now =
      with_net s (Calls.step k_value s.net (Calls.providers key tx id))
  handle s (provide key tx answer) now =
      with_net s (Calls.step k_value s.net (Calls.provide key tx answer))
  handle s (unprovide key) now = some (with_behaviour s (Requests.unprovide s.net.behaviour key))
  handle s (get_record key quorum tx id) now =
      with_net s (Calls.step k_value s.net (Calls.get_record key quorum tx id))
  handle s (put_record rec quorum tx answer) now =
      with_net s (Calls.step k_value s.net (Calls.put_record rec quorum tx answer))
  handle s (remove_record key) now =
      some (with_behaviour s (Requests.remove_record s.net.behaviour key))
  handle s (subscribe topic tx error) now =
      let (g, result) = Gossip.subscribe hash (gossip_of s) topic error in
      some (reply (with_gossip s g) tx (outcome result))
  handle s (publish topic msg tx answer) now =
      let (b, result) = Gossip.publish s.net.behaviour topic msg answer in
      some (reply (with_behaviour s b) tx (outcome result))
  handle s (broadcast topic msg tx) now =
      let (b, result) = Gossip.broadcast hash s.net.behaviour topic msg in
      some (reply (with_behaviour s b) tx (outcome result))
  handle s (get cid ps tx channel id) now =
      with_query s tx (QueryId.bitswap id) (Calls.step k_value s.net (Calls.get cid ps channel id))
  handle s (sync cid ps missing tx channel id) now =
      with_query s tx (QueryId.bitswap id)
        (Calls.step k_value s.net (Calls.sync cid ps missing channel id))
  handle s (swarm_events tx) now =
      some (reply (with_book s (book_events s.net.behaviour.book unbounded)) tx events)
  handle s (cancel_query id) now = with_net s (Calls.step k_value s.net (Calls.cancel id))

  -- `none` is a panic
  unfoldable pub on_event : Service → SwarmEvent → ℕ → Option Service
  on_event s (connection_closed peer cp n cause) now =
      some
        (with_book s (Connections.connection_closed ids t s.net.behaviour.book peer cp n cause now))
  on_event s (kad_event e) now = with_net s (Calls.step k_value s.net (Calls.kad_event e))
  on_event s (mdns_event e) now =
      some (with_behaviour s (inject_mdns_event ids s.net.behaviour e now))
  on_event s (ping_event peer r) now =
      some (with_behaviour s (inject_ping_event s.net.behaviour peer r))
  on_event s (identify_event e) now =
      some (with_behaviour s (inject_id_event ids s.net.behaviour e now))
  on_event s (bitswap_event e) now = with_net s (Calls.step k_value s.net (Calls.bitswap_event e))
  on_event s (gossipsub_event e) now =
      some (with_gossip s (inject_gossip_event hash e (gossip_of s)))
  on_event s (broadcast_event e) now = with_gossip? s (inject_broadcast_event hash e (gossip_of s))
  on_event s other_swarm_event now = some s
