-- ===== src/Network/Service/Books.antt =====
-- src/net/behaviour.rs: requests and the events of Kademlia and bitswap keep the book valid.
use ipfs_embed.Prelude.{
  ℕ, ◌≡◌, refl, sym, subst, Option, none, some, arith, Bool-cases, inl, inr, if◌then◌else◌,
}
use ipfs_embed.AddressBook.Invariant.Book.{IsValid, notify-IsValid}
use ipfs_embed.Network.State.{Behaviour}
use ipfs_embed.Network.Queries.{Queries, KadState, KademliaEvent, inject_kad_event}
use ipfs_embed.Network.Queries
use ipfs_embed.Network.Requests
use ipfs_embed.Network.Requests.Calls.{Call, step}
use ipfs_embed.Network.Requests.Calls
use ipfs_embed.Prelude.{Bool, true, false, ◌==◌}
use ipfs_embed.AddressBook.State.{bootstrapped}

-- The book of a state that a call leads to.
abbrev pub Books : KadState → Option KadState → Type 0
Books s none = Unit
Books s (some s') = IsValid s'.behaviour.book

bootstrap_progressed-IsValid :
    (id n : ℕ) (s : KadState)
    → IsValid s.behaviour.book
    → IsValid (Queries.bootstrap_progressed id n s).behaviour.book
bootstrap_progressed-IsValid id n s v = elim (Bool-cases (n == 0)) [
  | inl e ↦ rw e (notify-IsValid s.behaviour.book bootstrapped v)
  | inr e ↦ rw e v
]

record_progressed-book :
    (id : ℕ) (last : Bool) (res : Queries.FoundRecord) (s : KadState)
    (o : Option Queries.QueryChannel)
    → (Queries.record_progressed id last res s o).behaviour.book ≡ s.behaviour.book
record_progressed-book id last res s none = refl
record_progressed-book id last res s (some (Queries.get_record n rs tx)) = ground arith
record_progressed-book id last res s (some (Queries.get tx)) = refl
record_progressed-book id last res s (some (Queries.sync tx)) = refl
record_progressed-book id last res s (some (Queries.bootstrap tx)) = refl
record_progressed-book id last res s (some (Queries.get_closest_peers tx)) = refl
record_progressed-book id last res s (some (Queries.get_providers ps tx)) = refl
record_progressed-book id last res s (some (Queries.start_providing tx)) = refl
record_progressed-book id last res s (some (Queries.put_record tx)) = refl

kad_event-IsValid :
    (e : KademliaEvent) (s : KadState)
    → IsValid s.behaviour.book
    → IsValid (inject_kad_event e s).behaviour.book
unfolding inject_kad_event
kad_event-IsValid Queries.other_event s v = v
kad_event-IsValid (Queries.outbound_query_progressed id result last) s v = go result
  where
    go : (r : Queries.QueryResult) → IsValid (Queries.query_progressed id r last s).behaviour.book
    go (Queries.bootstrap_result (Queries.ok n)) = bootstrap_progressed-IsValid id n s v
    go (Queries.bootstrap_result (Queries.failed e)) = v
    go (Queries.get_closest_peers_result (Queries.ok ps)) = v
    go (Queries.get_closest_peers_result (Queries.failed e)) = v
    go (Queries.get_providers_result (Queries.ok res)) = v
    go (Queries.get_providers_result (Queries.failed e)) = v
    go (Queries.start_providing_result (Queries.ok _)) = v
    go (Queries.start_providing_result (Queries.failed e)) = v
    go Queries.republish_provider_result = v
    go (Queries.get_record_result (Queries.ok res)) =
        let o = Queries.get_query (Queries.kad id) s.queries in
        subst IsValid (sym (record_progressed-book id last res s o)) v
    go (Queries.get_record_result (Queries.failed e)) = v
    go (Queries.put_record_result (Queries.ok _)) = v
    go (Queries.put_record_result (Queries.failed e)) = v
    go Queries.republish_record_result = v

gated-IsValid :
    (complete kad : Bool) (b b' : Behaviour) (q q' q'' : Queries.Queries)
    → IsValid b.book
    → IsValid b'.book
    → let r : Behaviour × Queries.Queries =
        if complete then if kad then (b', q) else (b, q') else (b, q'') in
      IsValid r.0.book
gated-IsValid true true b b' q q' q'' v v' = v'
gated-IsValid true false b b' q q' q'' v v' = v
gated-IsValid false kad b b' q q' q'' v v' = v

pub request-IsValid :
    (k : ℕ) (s : KadState) (c : Call) → IsValid s.behaviour.book → Books s (step k s c)
unfolding step Requests.bootstrap Requests.provide Requests.providers Requests.get_record
    Requests.put_record Requests.get Requests.sync Requests.cancel
request-IsValid k s (Calls.bootstrap tx started) v =
    gated-IsValid true s.behaviour.kad s.behaviour _ _ _ s.queries v v
request-IsValid k s (Calls.provide key tx started) v =
    gated-IsValid s.bootstrap_complete s.behaviour.kad s.behaviour _ _ _ _ v v
request-IsValid k s (Calls.providers key tx id) v =
    gated-IsValid s.bootstrap_complete s.behaviour.kad s.behaviour _ _ _ _ v v
request-IsValid k s (Calls.get_record key quorum tx id) v =
    gated-IsValid s.bootstrap_complete s.behaviour.kad s.behaviour _ _ _ _ v v
request-IsValid k s (Calls.put_record rec quorum tx started) v =
    gated-IsValid s.bootstrap_complete s.behaviour.kad s.behaviour _ _ _ _ v v
request-IsValid k s (Calls.get cid ps tx id) v = elim (Bool-cases s.behaviour.bitswap) [
  | inl e ↦ rw e v
  | inr e ↦ rw e tt
]
request-IsValid k s (Calls.sync cid ps missing tx id) v = elim (Bool-cases s.behaviour.bitswap) [
  | inl e ↦ rw e v
  | inr e ↦ rw e tt
]
request-IsValid k s (Calls.cancel (Queries.bitswap id)) v = elim (Bool-cases s.behaviour.bitswap) [
  | inl e ↦ rw e v
  | inr e ↦ rw e tt
]
request-IsValid k s (Calls.cancel (Queries.kad id)) v = v
request-IsValid k s (Calls.kad_event e) v = kad_event-IsValid e s v
request-IsValid k s (Calls.bitswap_event e) v = v
