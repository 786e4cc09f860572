-- ===== src/Network/Service/Invariant.antt =====
-- src/net/mod.rs: the service keeps the address book and the queries well formed.
use ipfs_embed.Prelude.{ℕ, ◌≡◌, ◌≢◌, refl, sym, subst, List, [], ◌∷◌, Option, none, some, Distinct}
use ipfs_embed.Multiaddr.{Multiaddr, PeerId, PeerIds}
use ipfs_embed.PeerInfo.Source.{user}
use ipfs_embed.PeerInfo.Failure.{Texts}
use ipfs_embed.AddressBook.State.{Topic}
use ipfs_embed.AddressBook.Dial
use ipfs_embed.Channel.{unbounded}
use ipfs_embed.Prelude.{arith}
use ipfs_embed.AddressBook.Invariant.Book.{IsValid}
use ipfs_embed.AddressBook.Invariant.Steps.{IsRemote, step-IsValid, step}
use ipfs_embed.AddressBook.Invariant.Steps
use ipfs_embed.AddressBook.Invariant.Ops.Simple.{add_address-IsValid, dial-IsValid}
use ipfs_embed.Network.State.{Behaviour}
use ipfs_embed.Network.Queries.{QueryId-discrete, KadState, Sender, QueryId, ok, failed}
use ipfs_embed.Network.Queries
use ipfs_embed.Network.Requests
use ipfs_embed.Network.Requests.Calls
use ipfs_embed.Network.Requests.Accounts.{Leads, step-Leads}
use ipfs_embed.Network.Gossip.{subscribe, publish, broadcast, inject_broadcast_event}
use ipfs_embed.Network.Gossip
use ipfs_embed.Network.Service.{
  Service, NetworkCommand, SwarmEvent, handle, on_event, with_net, with_query, with_gossip?,
  gossip_of, with_book, add_all, add_and_dial, listened,
}
use ipfs_embed.Network.Service
use ipfs_embed.Network.Service.Books.{Books, request-IsValid}
use ipfs_embed.Network.Service.Topics.{
  subscribe-book, inject_gossip_event-IsValid, inject_broadcast_event-IsValid,
  inject_mdns_event-IsValid, inject_id_event-IsValid, inject_ping_event-IsValid,
}
use ipfs_embed.Network.Service.Topics

-- The book is valid, and every identifier of a query waits for one answer.
pub record IsSound (s : Service) : Type 0 where
  pub book : IsValid s.net.behaviour.book
  pub queries : Distinct QueryId-discrete s.net.queries.channels

abbrev pub Sounds : Option Service → Type 0
Sounds none = Unit
Sounds (some s) = IsSound s

with_net-IsSound :
    (s : Service) (net : KadState) (c : Calls.Call) (o : Option KadState)
    → Books net o
    → Leads net c o
    → Sounds (with_net s o)
with_net-IsSound s net c none v d = tt
with_net-IsSound s net c (some net') v d = record { book = v; queries = d.0 }

with_query-IsSound :
    (s : Service) (tx : Sender) (id : QueryId) (net : KadState) (c : Calls.Call)
    (o : Option KadState)
    → Books net o
    → Leads net c o
    → Sounds (with_query s tx id o)
with_query-IsSound s tx id net c none v d = tt
with_query-IsSound s tx id net c (some net') v d = record { book = v; queries = d.0 }

listened-IsSound :
    (s : Service) (addr : Multiaddr) (tx : Sender) (r : Queries.KadResult ℕ)
    → IsSound s
    → IsSound (listened s addr tx r)
listened-IsSound s addr tx (ok l) v = record { book = v.book; queries = v.queries }
listened-IsSound s addr tx (failed e) v = record { book = v.book; queries = v.queries }

module _ (ids : PeerIds) where
  add_all-IsValid :
      (b : Behaviour) (l : List (PeerId × Multiaddr)) (now : ℕ)
      → IsValid b.book
      → IsValid (add_all ids b l now).book
  unfolding add_all Requests.add_address
  add_all-IsValid b [] now v = v
  add_all-IsValid b ((peer, addr) ∷ rest) now v =
      add_all-IsValid (unfold Requests.add_address in Requests.add_address ids b peer addr user now)
        rest now (add_address-IsValid ids b.book peer addr user now v)

  add_and_dial-IsValid :
      (b : Behaviour) (l : List (PeerId × Multiaddr)) (now : ℕ)
      → IsValid b.book
      → IsValid (add_and_dial ids b l now).book
  unfolding add_and_dial Requests.add_address
  add_and_dial-IsValid b [] now v = v
  add_and_dial-IsValid b ((peer, addr) ∷ rest) now v =
      let b' : Behaviour =
        (unfold Requests.add_address in Requests.add_address ids b peer addr user now) in
      add_and_dial-IsValid (record b' { book = Dial.dial b'.book peer }) rest now
        (dial-IsValid b'.book peer (add_address-IsValid ids b.book peer addr user now v))

-- The swarm reports the end of no connection of the node to itself.
abbrev pub IsRemoteEvent : PeerId → SwarmEvent → Type 0
IsRemoteEvent own (Service.connection_closed peer cp n cause) = peer ≢ own
IsRemoteEvent own _ = Unit {0}

module _ (ids : PeerIds) (t : Texts) (hash : Topic → Topic) (k_value : ℕ) where
  request-Sounds :
      (s : Service) (net : KadState) (c : Calls.Call)
      → IsValid net.behaviour.book
      → Distinct QueryId-discrete net.queries.channels
      → Sounds (with_net s (Calls.step k_value net c))
  request-Sounds s net c v d =
      with_net-IsSound s net c (Calls.step k_value net c) (request-IsValid k_value net c v)
        (step-Leads k_value net c d)

  query-Sounds :
      (s : Service) (tx : Sender) (id : QueryId) (c : Calls.Call)
      → IsSound s
      → Sounds (with_query s tx id (Calls.step k_value s.net c))
  query-Sounds s tx id c v =
      with_query-IsSound s tx id s.net c (Calls.step k_value s.net c)
        (request-IsValid k_value s.net c v.book) (step-Leads k_value s.net c v.queries)

  -- the book after an operation of the book
  pub booked :
      (s : Service) (now : ℕ) (c : Steps.Call)
      → IsRemote s.net.behaviour.book.local_peer_id c
      → IsSound s
      → IsSound (with_book s (step ids t s.net.behaviour.book (now, c)))
  booked s now c n v = record {
    book = step-IsValid ids t s.net.behaviour.book now c n v.book;
    queries = v.queries;
  }

  same-IsSound :
      (s s' : Service)
      → s'.net.behaviour.book ≡ s.net.behaviour.book
      → s'.net.queries ≡ s.net.queries
      → IsSound s
      → IsSound s'
  same-IsSound s s' e f v = record {
    book = subst IsValid (sym e) v.book;
    queries = subst (λ q. Distinct QueryId-discrete q.channels) (sym f) v.queries;
  }

  pub handle-Sounds :
      (s : Service) (c : NetworkCommand) (now : ℕ)
      → IsSound s
      → Sounds (handle ids t hash k_value s c now)
  unfolding handle step Requests.remove_address Requests.add_address Requests.unprovide
      Requests.remove_record publish broadcast
  handle-Sounds s (Service.listen_on addr tx answer) now v =
      let w = booked s now (Steps.swarm_events unbounded) tt v in
      listened-IsSound _ addr tx answer (record { book = w.book; queries = w.queries })
  handle-Sounds s (Service.add_external_address addr) now v = record {
    book = v.book;
    queries = v.queries;
  }
  handle-Sounds s (Service.add_address peer addr) now v = record {
    book = add_address-IsValid ids s.net.behaviour.book peer addr user now v.book;
    queries = v.queries;
  }
  handle-Sounds s (Service.add_addresses l) now v = record {
    book = add_all-IsValid ids s.net.behaviour l now v.book;
    queries = v.queries;
  }
  handle-Sounds s (Service.remove_address peer addr) now v =
      let w = booked s now (Steps.remove_address peer addr) tt v in
      same-IsSound _ _ (ground arith) refl w
  handle-Sounds s (Service.prune_peers min_age) now v =
      booked s now (Steps.prune_peers min_age) tt v
  handle-Sounds s (Service.dial peer) now v = booked s now (Steps.dial peer) tt v
  handle-Sounds s (Service.dial_address peer addr) now v =
      booked s now (Steps.dial_address peer addr) tt v
  handle-Sounds s (Service.ban peer) now v = record { book = v.book; queries = v.queries }
  handle-Sounds s (Service.unban peer) now v = record { book = v.book; queries = v.queries }
  handle-Sounds s (Service.bootstrap initial tx answer) now v =
      request-Sounds s (record (s.net) { behaviour = add_and_dial ids s.net.behaviour initial now })
        (Calls.bootstrap tx answer) (add_and_dial-IsValid ids s.net.behaviour initial now v.book)
        v.queries
  handle-Sounds s (Service.providers key tx id) now v =
      request-Sounds s s.net (Calls.providers key tx id) v.book v.queries
  handle-Sounds s (Service.provide key tx answer) now v =
      request-Sounds s s.net (Calls.provide key tx answer) v.book v.queries
  handle-Sounds s (Service.unprovide key) now v = same-IsSound s _ (ground arith) refl v
  handle-Sounds s (Service.get_record key quorum tx id) now v =
      request-Sounds s s.net (Calls.get_record key quorum tx id) v.book v.queries
  handle-Sounds s (Service.put_record rec quorum tx answer) now v =
      request-Sounds s s.net (Calls.put_record rec quorum tx answer) v.book v.queries
  handle-Sounds s (Service.remove_record key) now v = same-IsSound s _ (ground arith) refl v
  handle-Sounds s (Service.subscribe topic tx error) now v =
      same-IsSound s _ (subscribe-book hash (gossip_of s) topic error) refl v
  handle-Sounds s (Service.publish topic msg tx answer) now v =
      same-IsSound s _ (ground arith) refl v
  handle-Sounds s (Service.broadcast topic msg tx) now v = same-IsSound s _ (ground arith) refl v
  handle-Sounds s (Service.get cid ps tx channel id) now v =
      query-Sounds s tx (QueryId.bitswap id) (Calls.get cid ps channel id) v
  handle-Sounds s (Service.sync cid ps missing tx channel id) now v =
      query-Sounds s tx (QueryId.bitswap id) (Calls.sync cid ps missing channel id) v
  handle-Sounds s (Service.swarm_events tx) now v =
      let w = booked s now (Steps.swarm_events unbounded) tt v in
      record { book = w.book; queries = w.queries }
  handle-Sounds s (Service.cancel_query id) now v =
      request-Sounds s s.net (Calls.cancel id) v.book v.queries

  with_gossip?-Sounds :
      (s : Service) (o : Option Gossip.GossipState)
      → Topics.Books hash o
      → Distinct QueryId-discrete s.net.queries.channels
      → Sounds (with_gossip? s o)
  with_gossip?-Sounds s none v d = tt
  with_gossip?-Sounds s (some g) v d = record { book = v; queries = d }

  pub on_event-Sounds :
      (s : Service) (e : SwarmEvent) (now : ℕ)
      → IsRemoteEvent s.net.behaviour.book.local_peer_id e
      → IsSound s
      → Sounds (on_event ids t hash k_value s e now)
  unfolding on_event step
  on_event-Sounds s (Service.connection_closed peer cp n cause) now r v =
      booked s now (Steps.connection_closed peer cp n cause) r v
  on_event-Sounds s (Service.kad_event e) now r v =
      request-Sounds s s.net (Calls.kad_event e) v.book v.queries
  on_event-Sounds s (Service.mdns_event e) now r v = record {
    book = inject_mdns_event-IsValid ids s.net.behaviour e now v.book;
    queries = v.queries;
  }
  on_event-Sounds s (Service.ping_event peer result) now r v = record {
    book = inject_ping_event-IsValid s.net.behaviour peer result v.book;
    queries = v.queries;
  }
  on_event-Sounds s (Service.identify_event e) now r v = record {
    book = inject_id_event-IsValid ids s.net.behaviour e now v.book;
    queries = v.queries;
  }
  on_event-Sounds s (Service.bitswap_event e) now r v =
      request-Sounds s s.net (Calls.bitswap_event e) v.book v.queries
  on_event-Sounds s (Service.gossipsub_event e) now r v = record {
    book = inject_gossip_event-IsValid hash e (gossip_of s) v.book;
    queries = v.queries;
  }
  on_event-Sounds s (Service.broadcast_event e) now r v =
      with_gossip?-Sounds s (inject_broadcast_event hash e (gossip_of s))
        (inject_broadcast_event-IsValid hash e (gossip_of s) v.book) v.queries
  on_event-Sounds s Service.other_swarm_event now r v = v
