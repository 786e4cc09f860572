-- ===== src/Network/Gossip/Laws.antt =====
-- src/net/behaviour.rs: who gets an event of a topic, and which topics gossipsub is subscribed to.
use ipfs_embed.Prelude.{
  ◌≡◌, ◌==◌, refl, List, [], ◌∷◌, ◌++◌, Option, none, some, arith, lookup-insert, lookup-remove,
  is_empty, if◌then◌else◌, ℕ_discrete, map, retain,
}
use ipfs_embed.Channel.{Channel, broadcast as send_all, broadcast_lem}
use ipfs_embed.AddressBook.State.{Topic}
use ipfs_embed.Network.Gossip.{
  GossipEvent, GossipState, subscribers_of, notify_subscribers, notified,
}

-- Those of a topic's subscribers who are still there, with the event last in their queue; none
-- where nobody is.
abbrev pub delivered :
    GossipEvent → Option (List (Channel GossipEvent)) → Option (List (Channel GossipEvent))
delivered event none = none
delivered event (some subscribers) =
    let live = retain {A = Channel GossipEvent} (λ c. c.open_) subscribers in
    if is_empty live
    then none
    else some (map {A = Channel GossipEvent} (λ c. record c { queue = c.queue ++ event ∷ [] }) live)

is_empty-map {ℓ} : {A B : Type ℓ} (f : A → B) (xs : List A) → is_empty (map f xs) ≡ is_empty xs
is_empty-map f [] = refl
is_empty-map f (x ∷ xs) = refl

-- An event of a topic goes to every subscriber of the topic that is still there, and to no other
-- topic's; a topic that nobody listens to any more is forgotten.
pub notify_subscribers_lem :
    (hash : Topic → Topic) (s : GossipState) (topic u : Topic) (event : GossipEvent)
    → subscribers_of u (notify_subscribers hash s topic event).subscriptions ≡ (
        if topic == u
        then delivered event (subscribers_of topic s.subscriptions)
        else subscribers_of u s.subscriptions)
unfolding notify_subscribers
notify_subscribers_lem hash s topic u event = go (subscribers_of topic s.subscriptions) refl
  where
    enqueue : Channel GossipEvent → Channel GossipEvent
    enqueue c = record c { queue = c.queue ++ event ∷ [] }

    go :
        (o : Option (List (Channel GossipEvent)))
        → subscribers_of topic s.subscriptions ≡ o
        → subscribers_of u (notified hash s topic event o).subscriptions
          ≡ (if topic == u then delivered event o else subscribers_of u s.subscriptions)
    go none e = ground (arith, e)
    go (some subs) e = ground (
      arith,
      broadcast_lem event subs,
      is_empty-map enqueue (retain {A = Channel GossipEvent} (λ c. c.open_) subs),
      lookup-remove ℕ_discrete topic u s.subscriptions,
      lookup-insert ℕ_discrete topic u (send_all event subs) s.subscriptions,
    )
