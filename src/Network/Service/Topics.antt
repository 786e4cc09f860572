-- ===== src/Network/Service/Topics.antt =====
-- src/net/behaviour.rs: the operations on topics, and the events of gossipsub, broadcast, mdns, ping
-- and identify, keep the book valid.
use ipfs_embed.Prelude.{
  ℕ, ◌≡◌, sym, subst, List, [], ◌∷◌, Option, none, some, arith, Option-cases, inl, inr,
}
use ipfs_embed.Multiaddr.{Multiaddr, PeerId, PeerIds}
use ipfs_embed.AddressBook.State.{
  Topic, subscribed as subscribed_event, unsubscribed as unsubscribed_event,
}
use ipfs_embed.AddressBook.Identify
use ipfs_embed.AddressBook.Invariant.Book.{IsValid, notify-IsValid}
use ipfs_embed.AddressBook.Invariant.Ops.Simple.{add_address-IsValid, set_rtt-IsValid}
use ipfs_embed.AddressBook.Invariant.Ops.Identifying.{set_info-IsValid}
use ipfs_embed.PeerInfo.Source.{mdns}
use ipfs_embed.Network.State.{Behaviour}
use ipfs_embed.Network.Requests
use ipfs_embed.Network.Gossip.{
  GossipState, GossipEvent, notify_subscribers, unsubscribe, subscribe, subscribers_of,
  first_subscription, GossipsubEvent, BroadcastEvent, inject_gossip_event, inject_broadcast_event,
  MdnsEvent, mdns_discovered, mdns_expired, add_all, inject_mdns_event, PingResult, rtt, timeout,
  other_failure, unsupported, inject_ping_event, inject_id_event,
}
use ipfs_embed.Network.Gossip

module _ (hash : Topic → Topic) where
  notify_subscribers-book :
      (s : GossipState) (topic : Topic) (event : GossipEvent)
      → (notify_subscribers hash s topic event).behaviour.book ≡ s.behaviour.book
  unfolding notify_subscribers unsubscribe
  notify_subscribers-book s topic event =
      elim (Option-cases (subscribers_of topic s.subscriptions)) [
        | inl e ↦ ground (arith, e)
        | inr (subs, e) ↦ ground (arith, e)
      ]

  notify_subscribers-IsValid :
      (s : GossipState) (topic : Topic) (event : GossipEvent)
      → IsValid s.behaviour.book
      → IsValid (notify_subscribers hash s topic event).behaviour.book
  notify_subscribers-IsValid s topic event v =
      subst IsValid (sym (notify_subscribers-book s topic event)) v

  first_subscription-book :
      (s : GossipState) (topic : Topic) (o : Option ℕ)
      → (first_subscription hash s topic o).0.behaviour.book ≡ s.behaviour.book
  first_subscription-book s topic none = ground arith
  first_subscription-book s topic (some e) = ground arith

  pub subscribe-book :
      (s : GossipState) (topic : Topic) (o : Option ℕ)
      → (subscribe hash s topic o).0.behaviour.book ≡ s.behaviour.book
  unfolding subscribe
  subscribe-book s topic o = elim (Option-cases (subscribers_of topic s.subscriptions)) [
    | inl e ↦ ground (arith, e, first_subscription-book s topic o)
    | inr (subs, e) ↦ ground (arith, e)
  ]

  pub inject_gossip_event-IsValid :
      (e : GossipsubEvent) (s : GossipState)
      → IsValid s.behaviour.book
      → IsValid (inject_gossip_event hash e s).behaviour.book
  unfolding inject_gossip_event
  inject_gossip_event-IsValid (Gossip.gossip_message topic m source propagation) s v =
      notify_subscribers-IsValid s topic _ v
  inject_gossip_event-IsValid (Gossip.gossip_subscribed peer topic) s v =
      notify_subscribers-IsValid _ topic _
        (notify-IsValid s.behaviour.book (subscribed_event peer topic) v)
  inject_gossip_event-IsValid (Gossip.gossip_unsubscribed peer topic) s v =
      notify_subscribers-IsValid _ topic _
        (notify-IsValid s.behaviour.book (unsubscribed_event peer topic) v)
  inject_gossip_event-IsValid Gossip.gossipsub_not_supported s v = v

  abbrev pub Books : Option GossipState → Type 0
  Books none = Unit
  Books (some s) = IsValid s.behaviour.book

  pub inject_broadcast_event-IsValid :
      (e : BroadcastEvent) (s : GossipState)
      → IsValid s.behaviour.book
      → Books (inject_broadcast_event hash e s)
  unfolding inject_broadcast_event
  inject_broadcast_event-IsValid (Gossip.received peer (some topic) m) s v =
      notify_subscribers-IsValid s topic _ v
  inject_broadcast_event-IsValid (Gossip.received peer none m) s v = tt
  inject_broadcast_event-IsValid (Gossip.broadcast_subscribed_by peer (some topic)) s v =
      notify_subscribers-IsValid _ topic _
        (notify-IsValid s.behaviour.book (subscribed_event peer topic) v)
  inject_broadcast_event-IsValid (Gossip.broadcast_subscribed_by peer none) s v = v
  inject_broadcast_event-IsValid (Gossip.broadcast_unsubscribed_by peer (some topic)) s v =
      notify_subscribers-IsValid _ topic _
        (notify-IsValid s.behaviour.book (unsubscribed_event peer topic) v)
  inject_broadcast_event-IsValid (Gossip.broadcast_unsubscribed_by peer none) s v = v

module _ (ids : PeerIds) where
  add_all-IsValid :
      (b : Behaviour) (found : List (PeerId × Multiaddr)) (now : ℕ)
      → IsValid b.book
      → IsValid (add_all ids b found now).book
  unfolding add_all Requests.add_address
  add_all-IsValid b [] now v = v
  add_all-IsValid b ((peer, addr) ∷ rest) now v =
      add_all-IsValid (unfold Requests.add_address in Requests.add_address ids b peer addr mdns now)
        rest now (add_address-IsValid ids b.book peer addr mdns now v)

  pub inject_mdns_event-IsValid :
      (b : Behaviour) (e : MdnsEvent) (now : ℕ)
      → IsValid b.book
      → IsValid (inject_mdns_event ids b e now).book
  unfolding inject_mdns_event
  inject_mdns_event-IsValid b (mdns_discovered found) now v = add_all-IsValid b found now v
  inject_mdns_event-IsValid b mdns_expired now v = v

  pub inject_id_event-IsValid :
      (b : Behaviour) (o : Option (PeerId × Identify.Info)) (now : ℕ)
      → IsValid b.book
      → IsValid (inject_id_event ids b o now).book
  unfolding inject_id_event
  inject_id_event-IsValid b none now v = v
  inject_id_event-IsValid b (some (peer, info)) now v = set_info-IsValid ids b.book peer info now v

pub inject_ping_event-IsValid :
    (b : Behaviour) (peer : PeerId) (r : PingResult)
    → IsValid b.book
    → IsValid (inject_ping_event b peer r).book
unfolding inject_ping_event
inject_ping_event-IsValid b peer (rtt d) v = set_rtt-IsValid b.book peer (some d) v
inject_ping_event-IsValid b peer timeout v = set_rtt-IsValid b.book peer none v
inject_ping_event-IsValid b peer other_failure v = set_rtt-IsValid b.book peer none v
inject_ping_event-IsValid b peer unsupported v = v
