-- ===== src/Network/Gossip.antt =====
-- src/net/behaviour.rs: topics and their subscribers, and the events of mdns, ping and identify.
pub mod Laws
pub mod Joined
use ipfs_embed.Prelude.{
  ℕ, false, not, ◌&&◌, List, [], ◌∷◌, ◌++◌, Option, none, some, lookup, insert, remove, is_empty,
  if◌then◌else◌, ℕ_discrete, unwrap_or,
}
use ipfs_embed.Multiaddr.{Multiaddr, PeerId, PeerIds}
use ipfs_embed.PeerInfo.Source.{mdns}
use ipfs_embed.Channel.{Channel, unbounded, broadcast as send_all}
use ipfs_embed.AddressBook.State.{
  Topic, Event, subscribed as subscribed_event, unsubscribed as unsubscribed_event,
}
use ipfs_embed.AddressBook.Connections
use ipfs_embed.AddressBook.Identify
use ipfs_embed.Network.State.{
  Behaviour, Bytes, call, notify_book, gossip_subscribe, gossip_unsubscribe, gossip_publish,
  broadcast_subscribe, broadcast_unsubscribe, broadcast_send,
}
use ipfs_embed.Network.Requests

pub data GossipEvent : Type 0 where
  subscribed : PeerId → GossipEvent
  message : PeerId → Bytes → GossipEvent
  unsubscribed : PeerId → GossipEvent

-- The subscribers of each topic, who hold the other ends of the channels.
abbrev pub Subscriptions : Type 0
Subscriptions = List (Topic × List (Channel GossipEvent))

pub record GossipState : Type 0 where
  pub behaviour : Behaviour
  pub subscriptions : Subscriptions

abbrev pub subscribers_of : Topic → Subscriptions → Option (List (Channel GossipEvent))
subscribers_of = lookup ℕ_discrete

abbrev pub put_subscribers : Topic → List (Channel GossipEvent) → GossipState → GossipState
put_subscribers topic subscribers s = record s {
  subscriptions = insert ℕ_discrete topic subscribers s.subscriptions;
}

-- What `subscribe` and the calls that send give back.
pub data Outcome : Type 0 where
  done : Outcome
  disabled_protocol : Outcome
  refused : ℕ → Outcome

-- `GossipsubEvent`: the source of a message may be missing, beside who passed it on
pub data GossipsubEvent : Type 0 where
  gossip_message : Topic → Bytes → Option PeerId → PeerId → GossipsubEvent
  gossip_subscribed : PeerId → Topic → GossipsubEvent
  gossip_unsubscribed : PeerId → Topic → GossipsubEvent
  gossipsub_not_supported : GossipsubEvent

-- `BroadcastEvent`; a topic that is not UTF-8 is none
pub data BroadcastEvent : Type 0 where
  received : PeerId → Option Topic → Bytes → BroadcastEvent
  broadcast_subscribed_by : PeerId → Option Topic → BroadcastEvent
  broadcast_unsubscribed_by : PeerId → Option Topic → BroadcastEvent

-- `IdentTopic::hash` names a topic to the protocols.
module _ (hash : Topic → Topic) where
  -- the rest of `subscribe` after gossipsub took the topic or is off
  abbrev pub broadcast_subscribed : GossipState → Topic → GossipState
  broadcast_subscribed s topic =
      if s.behaviour.broadcast
      then record s { behaviour = call s.behaviour (broadcast_subscribe (hash topic)) }
      else s

  -- the first subscriber of a topic; the receiver is dropped if gossipsub refuses
  abbrev pub first_subscription : GossipState → Topic → Option ℕ → GossipState × Outcome
  first_subscription s topic none =
      let s' = put_subscribers (hash topic) (unbounded ∷ []) s in
      let s'' =
        if s.behaviour.gossipsub
        then record s' { behaviour = call s.behaviour (gossip_subscribe topic) }
        else s' in
      (broadcast_subscribed s'' topic, done)
  first_subscription s topic (some error) =
      if s.behaviour.gossipsub
      then (
        put_subscribers (hash topic) (record { open_ = false; queue = [] } ∷ []) s,
        refused error,
      )
      else (broadcast_subscribed (put_subscribers (hash topic) (unbounded ∷ []) s) topic, done)

  abbrev pub another_subscription :
      GossipState → Topic → Option ℕ → Option (List (Channel GossipEvent)) → GossipState × Outcome
  another_subscription s topic error none = first_subscription s topic error
  another_subscription s topic error (some subscribers) =
      (put_subscribers topic (subscribers ++ unbounded ∷ []) s, done)

  -- `error` is what gossipsub answers to a subscription, if it is asked
  unfoldable pub subscribe : GossipState → Topic → Option ℕ → GossipState × Outcome
  subscribe s topic error =
      if not s.behaviour.gossipsub && not s.behaviour.broadcast
      then (s, disabled_protocol)
      else another_subscription s topic error (subscribers_of topic s.subscriptions)

  unfoldable pub unsubscribe : Behaviour → Topic → Behaviour
  unsubscribe b topic =
      let b' = if b.gossipsub then call b (gossip_unsubscribe topic) else b in
      if b.broadcast then call b' (broadcast_unsubscribe (hash topic)) else b'

  abbrev pub notified :
      GossipState → Topic → GossipEvent → Option (List (Channel GossipEvent)) → GossipState
  notified s topic event none = s
  notified s topic event (some subscribers) =
      let rest = send_all event subscribers in
      if is_empty rest
      then record {
        behaviour = unsubscribe s.behaviour topic;
        subscriptions = remove ℕ_discrete topic s.subscriptions;
      }
      else put_subscribers topic rest s

  unfoldable pub notify_subscribers : GossipState → Topic → GossipEvent → GossipState
  notify_subscribers s topic event = notified s topic event (subscribers_of topic s.subscriptions)

  abbrev notify_with : GossipState → Event → GossipState
  notify_with s event = record s { behaviour = notify_book s.behaviour event }

  unfoldable pub inject_gossip_event : GossipsubEvent → GossipState → GossipState
  inject_gossip_event (gossip_message topic data_ source propagation_source) s =
      notify_subscribers s topic (message (unwrap_or source propagation_source) data_)
  inject_gossip_event (gossip_subscribed peer topic) s =
      notify_subscribers (notify_with s (subscribed_event peer topic)) topic (subscribed peer)
  inject_gossip_event (gossip_unsubscribed peer topic) s =
      notify_subscribers (notify_with s (unsubscribed_event peer topic)) topic (unsubscribed peer)
  inject_gossip_event gossipsub_not_supported s = s

  -- `none` is a panic: a message came on a topic that is not UTF-8
  unfoldable pub inject_broadcast_event : BroadcastEvent → GossipState → Option GossipState
  inject_broadcast_event (received peer (some topic) data_) s =
      some (notify_subscribers s topic (message peer data_))
  inject_broadcast_event (received peer none data_) s = none
  inject_broadcast_event (broadcast_subscribed_by peer (some topic)) s =
      some
        (notify_subscribers (notify_with s (subscribed_event peer topic)) topic (subscribed peer))
  inject_broadcast_event (broadcast_subscribed_by peer none) s = some s
  inject_broadcast_event (broadcast_unsubscribed_by peer (some topic)) s =
      some (
        notify_subscribers (notify_with s (unsubscribed_event peer topic)) topic
          (unsubscribed peer))
  inject_broadcast_event (broadcast_unsubscribed_by peer none) s = some s

  unfoldable pub broadcast : Behaviour → Topic → Bytes → Behaviour × Outcome
  broadcast b topic msg =
      if b.broadcast
      then (call b (broadcast_send (hash topic) msg), done)
      else (b, disabled_protocol)

-- `PublishError`, or none where it went out
pub data PublishAnswer : Type 0 where
  published insufficient_peers : PublishAnswer
  publish_error : ℕ → PublishAnswer

abbrev pub publish_outcome : PublishAnswer → Outcome
publish_outcome published = done
publish_outcome insufficient_peers = done
publish_outcome (publish_error e) = refused e

unfoldable pub publish : Behaviour → Topic → Bytes → PublishAnswer → Behaviour × Outcome
publish b topic msg answer =
    if b.gossipsub
    then (call b (gossip_publish topic msg), publish_outcome answer)
    else (b, disabled_protocol)

-- `mdns::Event`
pub data MdnsEvent : Type 0 where
  mdns_discovered : List (PeerId × Multiaddr) → MdnsEvent
  mdns_expired : MdnsEvent

-- the loop over what was discovered
unfoldable pub add_all : PeerIds → Behaviour → List (PeerId × Multiaddr) → ℕ → Behaviour
add_all ids b [] now = b
add_all ids b ((peer, addr) ∷ rest) now =
    add_all ids (Requests.add_address ids b peer addr mdns now) rest now

unfoldable pub inject_mdns_event : PeerIds → Behaviour → MdnsEvent → ℕ → Behaviour
inject_mdns_event ids b (mdns_discovered found) now = add_all ids b found now
inject_mdns_event ids b mdns_expired now = b

-- the result of a `ping::Event`
pub data PingResult : Type 0 where
  rtt : ℕ → PingResult
  timeout other_failure unsupported : PingResult

unfoldable pub inject_ping_event : Behaviour → PeerId → PingResult → Behaviour
inject_ping_event b peer (rtt d) = record b { book = Connections.set_rtt b.book peer (some d) }
inject_ping_event b peer timeout = record b { book = Connections.set_rtt b.book peer none }
inject_ping_event b peer other_failure = record b { book = Connections.set_rtt b.book peer none }
inject_ping_event b peer unsupported = b

-- `identify::Event::Received`, or another event
unfoldable pub inject_id_event :
    PeerIds → Behaviour → Option (PeerId × Identify.Info) → ℕ → Behaviour
inject_id_event ids b none now = b
inject_id_event ids b (some (peer, info)) now = record b {
  book = Identify.set_info ids b.book peer info now;
}
