-- ===== src/Network/Queries.antt =====
-- src/net/behaviour.rs: the queries that wait for an answer, and the events that answer them. A
-- sender is named by a number, and what was sent through it, or that it was dropped, is kept in a
-- list, oldest first.
pub mod Laws
use ipfs_embed.Prelude.{
  ℕ, Bool, true, ◌||◌, List, [], ◌∷◌, ◌++◌, Option, none, some, lookup, insert, remove, leb, length,
  any, if◌then◌else◌, ◌==◌, ℕ_discrete,
}
use ipfs_embed.Multiaddr.{PeerId}
use ipfs_embed.AddressBook.State.{bootstrapped}
use ipfs_embed.Network.State.{PeerRecord, Behaviour, kad_finish, call, notify_book}

pub data QueryId : Type 0 where
  bitswap : ℕ → QueryId
  kad : ℕ → QueryId

unfoldable pub QueryId-discrete : Discrete QueryId
QueryId-discrete = hlevel ℕ_discrete

abbrev pub Sender : Type 0
Sender = ℕ

pub data QueryChannel : Type 0 where
  get : Sender → QueryChannel
  sync : Sender → QueryChannel
  bootstrap : Sender → QueryChannel
  get_closest_peers : Sender → QueryChannel
  get_providers : List PeerId → Sender → QueryChannel
  start_providing : Sender → QueryChannel
  get_record : ℕ → List PeerRecord → Sender → QueryChannel
  put_record : Sender → QueryChannel

abbrev pub sender : QueryChannel → Sender
sender (get tx) = tx
sender (sync tx) = tx
sender (bootstrap tx) = tx
sender (get_closest_peers tx) = tx
sender (get_providers set tx) = tx
sender (start_providing tx) = tx
sender (get_record quorum records tx) = tx
sender (put_record tx) = tx

-- The errors that are sent back, with the number of the error of libp2p inside.
pub data QueryError : Type 0 where
  not_bootstrapped : QueryError
  kad_error : ℕ → QueryError
  kad_store_error : ℕ → QueryError
  bitswap_error : ℕ → QueryError

-- What goes through a sender. `dropped` is a sender that goes away with nothing sent.
pub data Answer : Type 0 where
  ok_unit : Answer
  ok_peers : List PeerId → Answer
  ok_records : List PeerRecord → Answer
  err : QueryError → Answer
  progress : ℕ → Answer
  dropped : Answer

pub record Queries : Type 0 where
  pub channels : List (QueryId × QueryChannel)
  pub sent : List (Sender × Answer)

abbrev pub send : Queries → Sender → Answer → Queries
send q tx a = record q { sent = q.sent ++ (tx, a) ∷ [] }

abbrev pub get_query : QueryId → Queries → Option QueryChannel
get_query id q = lookup QueryId-discrete id q.channels

abbrev pub answered : (QueryChannel → Answer) → QueryId → Queries → Option QueryChannel → Queries
answered f id q none = q
answered f id q (some ch) =
    send (record q { channels = remove QueryId-discrete id q.channels }) (sender ch) (f ch)

-- `queries.remove(&id)`, and an answer to the channel that it gives
unfoldable pub settle : (QueryChannel → Answer) → QueryId → Queries → Queries
settle f id q = answered f id q (get_query id q)

abbrev pub overwritten : QueryId → QueryChannel → Queries → Option QueryChannel → Queries
overwritten id ch q none = record q { channels = insert QueryId-discrete id ch q.channels }
overwritten id ch q (some old) =
    send (record q { channels = insert QueryId-discrete id ch q.channels }) (sender old) dropped

-- `queries.insert(id, ch)`
unfoldable pub register : QueryId → QueryChannel → Queries → Queries
register id ch q = overwritten id ch q (get_query id q)

-- The answer of `if let Some(QueryChannel::X(ch)) = queries.remove(..)`, for each `X`.
abbrev pub to_bootstrap : Answer → QueryChannel → Answer
to_bootstrap a (bootstrap tx) = a
to_bootstrap a _ = dropped

abbrev pub to_get_closest_peers : Answer → QueryChannel → Answer
to_get_closest_peers a (get_closest_peers tx) = a
to_get_closest_peers a _ = dropped

abbrev pub to_get_providers : Answer → QueryChannel → Answer
to_get_providers a (get_providers set tx) = a
to_get_providers a _ = dropped

abbrev pub to_start_providing : Answer → QueryChannel → Answer
to_start_providing a (start_providing tx) = a
to_start_providing a _ = dropped

abbrev pub to_get_record : Answer → QueryChannel → Answer
to_get_record a (get_record quorum records tx) = a
to_get_record a _ = dropped

abbrev pub to_put_record : Answer → QueryChannel → Answer
to_put_record a (put_record tx) = a
to_put_record a _ = dropped

-- `GetProvidersOk`: the providers found, if it is not the end
abbrev pub FoundProviders : Type 0
FoundProviders = Option (List PeerId)

-- `GetRecordOk`: the record found, if it is not the end
abbrev pub FoundRecord : Type 0
FoundRecord = Option PeerRecord

-- `Result<_, kad error>`
pub data KadResult {ℓ} (A : Type ℓ) : Type ℓ where
  ok : A → KadResult A
  failed : ℕ → KadResult A

-- `QueryResult`, with the fields that are read
pub data QueryResult : Type 0 where
  bootstrap_result : KadResult ℕ → QueryResult
  get_closest_peers_result : KadResult (List PeerId) → QueryResult
  get_providers_result : KadResult FoundProviders → QueryResult
  start_providing_result : KadResult (Unit {0}) → QueryResult
  republish_provider_result : QueryResult
  get_record_result : KadResult FoundRecord → QueryResult
  put_record_result : KadResult (Unit {0}) → QueryResult
  republish_record_result : QueryResult

-- `KademliaEvent`
pub data KademliaEvent : Type 0 where
  outbound_query_progressed : ℕ → QueryResult → Bool → KademliaEvent
  other_event : KademliaEvent

-- `set.extend(providers)` on a `HashSet`
unfoldable pub extend : List PeerId → List PeerId → List PeerId
extend set [] = set
extend set (p ∷ rest) = extend (if any (λ q. q == p) set then set else set ++ p ∷ []) rest

abbrev pub found_providers : List PeerId → FoundProviders → List PeerId
found_providers set none = set
found_providers set (some providers) = extend set providers

abbrev pub found_record : List PeerRecord → FoundRecord → List PeerRecord
found_record records none = records
found_record records (some r) = records ++ r ∷ []

-- a change of a channel in place, through `queries.get_mut`
abbrev pub update : QueryId → QueryChannel → Queries → Queries
update id ch q = record q { channels = insert QueryId-discrete id ch q.channels }

-- the arm `GetProviders(Ok(res))`, on what `queries.get_mut` gives
abbrev pub providers_progressed :
    ℕ → Bool → FoundProviders → Queries → Option QueryChannel → Queries
providers_progressed id last res q (some (get_providers set tx)) =
    let set' = found_providers set res in
    let q' = update (kad id) (get_providers set' tx) q in
    if last then settle (to_get_providers (ok_peers set')) (kad id) q' else q'
providers_progressed id last res q _ = q

-- the part of the state that an event of Kademlia changes
pub record KadState : Type 0 where
  pub behaviour : Behaviour
  pub bootstrap_complete : Bool
  pub queries : Queries

-- the arm `GetRecord(Ok(res))`, on what `queries.get_mut` gives
abbrev pub record_progressed : ℕ → Bool → FoundRecord → KadState → Option QueryChannel → KadState
record_progressed id last res s (some (get_record quorum records tx)) =
    let records' = found_record records res in
    let q = update (kad id) (get_record quorum records' tx) s.queries in
    if last || leb quorum (length records')
    then record s {
      behaviour = if s.behaviour.kad then call s.behaviour (kad_finish id) else s.behaviour;
      queries = settle (to_get_record (ok_records records')) (kad id) q;
    }
    else record s { queries = q }
record_progressed id last res s _ = s

abbrev pub settle_kad : (QueryChannel → Answer) → ℕ → KadState → KadState
settle_kad f id s = record s { queries = settle f (kad id) s.queries }

abbrev pub bootstrap_progressed : ℕ → ℕ → KadState → KadState
bootstrap_progressed id num_remaining s =
    if num_remaining == 0
    then record s {
      bootstrap_complete = true;
      queries = settle (to_bootstrap ok_unit) (kad id) s.queries;
      behaviour = notify_book s.behaviour bootstrapped;
    }
    else s

abbrev pub query_progressed : ℕ → QueryResult → Bool → KadState → KadState
query_progressed id (bootstrap_result (ok num_remaining)) last s =
    bootstrap_progressed id num_remaining s
query_progressed id (bootstrap_result (failed e)) last s =
    settle_kad (to_bootstrap (err (kad_error e))) id s
query_progressed id (get_closest_peers_result (ok peers)) last s =
    settle_kad (to_get_closest_peers (ok_peers peers)) id s
query_progressed id (get_closest_peers_result (failed e)) last s =
    settle_kad (to_get_closest_peers (err (kad_error e))) id s
query_progressed id (get_providers_result (ok res)) last s = record s {
  queries = providers_progressed id last res s.queries (get_query (kad id) s.queries);
}
query_progressed id (get_providers_result (failed e)) last s =
    settle_kad (to_get_providers (err (kad_error e))) id s
query_progressed id (start_providing_result (ok _)) last s =
    settle_kad (to_start_providing ok_unit) id s
query_progressed id (start_providing_result (failed e)) last s =
    settle_kad (to_start_providing (err (kad_error e))) id s
query_progressed id republish_provider_result last s = s
query_progressed id (get_record_result (ok res)) last s =
    record_progressed id last res s (get_query (kad id) s.queries)
query_progressed id (get_record_result (failed e)) last s =
    settle_kad (to_get_record (err (kad_error e))) id s
query_progressed id (put_record_result (ok _)) last s = settle_kad (to_put_record ok_unit) id s
query_progressed id (put_record_result (failed e)) last s =
    settle_kad (to_put_record (err (kad_error e))) id s
query_progressed id republish_record_result last s = s

unfoldable pub inject_kad_event : KademliaEvent → KadState → KadState
inject_kad_event (outbound_query_progressed id result last) s = query_progressed id result last s
inject_kad_event other_event s = s

-- `BitswapEvent`; the result of a completed query is an error or none
pub data BitswapEvent : Type 0 where
  progressed : ℕ → ℕ → BitswapEvent
  complete : ℕ → Option ℕ → BitswapEvent

abbrev pub bitswap_answer : Option ℕ → Answer
bitswap_answer none = ok_unit
bitswap_answer (some e) = err (bitswap_error e)

abbrev pub to_bitswap : Answer → QueryChannel → Answer
to_bitswap a (get tx) = a
to_bitswap a (sync tx) = a
to_bitswap a _ = dropped

abbrev pub sync_progressed : ℕ → Queries → Option QueryChannel → Queries
sync_progressed missing q (some (sync tx)) = send q tx (progress missing)
sync_progressed missing q _ = q

unfoldable pub inject_bitswap_event : BitswapEvent → Queries → Queries
inject_bitswap_event (progressed id missing) q =
    sync_progressed missing q (get_query (bitswap id) q)
inject_bitswap_event (complete id result) q =
    settle (to_bitswap (bitswap_answer result)) (bitswap id) q
