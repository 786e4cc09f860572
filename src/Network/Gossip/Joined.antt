-- ===== src/Network/Gossip/Joined.antt =====
-- src/net/behaviour.rs: gossipsub is subscribed to the topics that the table of subscribers has.
use ipfs_embed.Prelude.{
  ℕ, zero, suc, ◌≡◌, ◌==◌, Bool, true, false, not, ◌&&◌, ◌||◌, List, [], ◌∷◌, Option, none, some,
  is_some,
}
use ipfs_embed.Channel.{Channel, broadcast as send_all}
use ipfs_embed.AddressBook.State.{Topic}
use ipfs_embed.Network.State.{ForeignCall, gossip_subscribe, gossip_unsubscribe}
use ipfs_embed.Network.Gossip.{
  GossipEvent, GossipState, subscribers_of, subscribe, notify_subscribers, put_subscribers,
}

-- Whether gossipsub is subscribed to a topic after a call, if it was or was not before.
abbrev pub joined_by : Topic → Bool → ForeignCall → Bool
joined_by t was (gossip_subscribe u) = u == t || was
joined_by t was (gossip_unsubscribe u) = not (u == t) && was
joined_by t was _ = was

-- the same after some calls
abbrev pub joined : Topic → Bool → List ForeignCall → Bool
joined t was [] = was
joined t was (c ∷ calls) = joined t (joined_by t was c) calls

abbrev pub InSync : GossipState → Type 0
InSync s =
    (t : Topic) → joined t false s.behaviour.calls ≡ is_some (subscribers_of t s.subscriptions)

-- A subscription that gossipsub does not refuse, an event of a topic, or a subscriber who drops
-- the receiver.
pub data Act : Type 0 where
  subscribes : Topic → Act
  notifies : Topic → GossipEvent → Act
  leaves : Topic → ℕ → Act

abbrev pub close_at : ℕ → List (Channel GossipEvent) → List (Channel GossipEvent)
close_at i [] = []
close_at zero (c ∷ cs) = record c { open_ = false } ∷ cs
close_at (suc i) (c ∷ cs) = c ∷ close_at i cs

abbrev pub left : GossipState → Topic → ℕ → Option (List (Channel GossipEvent)) → GossipState
left s topic i none = s
left s topic i (some subscribers) = put_subscribers topic (close_at i subscribers) s

unfoldable pub act : (Topic → Topic) → GossipState → Act → GossipState
act hash s (subscribes topic) = (subscribe hash s topic none).0
act hash s (notifies topic event) = notify_subscribers hash s topic event
act hash s (leaves topic i) = left s topic i (subscribers_of topic s.subscriptions)

unfoldable pub acts : (Topic → Topic) → GossipState → List Act → GossipState
acts hash s [] = s
acts hash s (a ∷ rest) = acts hash (act hash s a) rest

-- Gossipsub is on, and subscribed to the topics that have subscribers.
pub record IsJoined (s : GossipState) : Type 0 where
  pub enabled : s.behaviour.gossipsub ≡ true
  pub in_sync : InSync s
