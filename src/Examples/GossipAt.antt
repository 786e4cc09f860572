-- ===== src/Examples/GossipAt.antt =====
-- The theorems on topics, at a few topics; and a subscription that gossipsub refuses.
use ipfs_embed.Prelude.{
  ℕ_discrete, ◌≡◌, ◌==◌, true, false, [], ◌∷◌, none, some, refl, if◌then◌else◌, lookup, insert,
}
use ipfs_embed.Network.State.{Behaviour}
use ipfs_embed.AddressBook.State.{Topic}
use ipfs_embed.Network.Gossip.{
  GossipState, subscribe, notify_subscribers, subscribers_of, message, done,
}
use ipfs_embed.Network.Gossip.Laws.{delivered, notify_subscribers_lem}
use ipfs_embed.Examples.Constants.{book}

abbrev idle : Behaviour
idle = record {
  book = book;
  kad = true;
  gossipsub = true;
  broadcast = true;
  bitswap = true;
  calls = [];
}

abbrev silent : GossipState
silent = record { behaviour = idle; subscriptions = [] }

abbrev same : Topic → Topic
same t = t

-- One reader of topic 7, and one who left.
abbrev listened : GossipState
listened = record {
  behaviour = idle;
  subscriptions =
      (7, record { open_ = true; queue = [] } ∷ record { open_ = false; queue = [] } ∷ []) ∷ [];
}

notify_subscribers_lem_example :
    subscribers_of 7 (notify_subscribers same listened 7 (message 2 (1 ∷ []))).subscriptions ≡ (
      if 7 == 7
      then delivered (message 2 (1 ∷ [])) (subscribers_of 7 listened.subscriptions)
      else subscribers_of 7 listened.subscriptions)
notify_subscribers_lem_example = notify_subscribers_lem same listened 7 7 (message 2 (1 ∷ []))

-- Gossipsub refuses the first subscription; the second one is told that all is well, and neither
-- protocol was asked again.
refused_then_done :
    let s = (subscribe same silent 7 (some 1)).0 in
    let r = subscribe same s 7 none in (r.1 ≡ done) × (r.0.behaviour.calls ≡ [])
unfolding subscribe lookup insert ℕ_discrete
refused_then_done = (refl, refl)
