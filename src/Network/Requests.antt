-- ===== src/Network/Requests.antt =====
-- src/net/behaviour.rs: the requests that start a query, and those that only pass a call on. The
-- last argument is what the protocol answers.
pub mod Calls
pub mod Accounts
use ipfs_embed.Prelude.{ℕ, ◌+◌, ◌/◌, Bool, List, [], Option, none, some, if◌then◌else◌}
use ipfs_embed.Multiaddr.{Multiaddr, PeerId, PeerIds}
use ipfs_embed.PeerInfo.Source.{AddressSource}
use ipfs_embed.AddressBook.Addresses
use ipfs_embed.Network.State.{
  Quorum, one, majority, all, n, Key, Record, Cid, Behaviour, call, kad_add_address,
  kad_remove_address, kad_bootstrap, kad_start_providing, kad_stop_providing, kad_get_providers,
  kad_get_record, kad_put_record, kad_remove_record, bitswap_get, bitswap_sync, bitswap_cancel,
}
use ipfs_embed.Network.Queries.{
  Queries, Sender, QueryId, QueryChannel, KadResult, ok, failed, bootstrap as bootstrap_channel,
  get_providers, start_providing, get_record as record_channel, put_record as put_channel,
  get as get_channel, sync as sync_channel, register, send, settle, err, not_bootstrapped,
  kad_error, kad_store_error, dropped, kad, bitswap,
}

unfoldable pub add_address :
    PeerIds → Behaviour → PeerId → Multiaddr → AddressSource → ℕ → Behaviour
add_address ids b peer addr source now =
    let b' = if b.kad then call b (kad_add_address peer addr) else b in
    record b' { book = Addresses.add_address ids b.book peer addr source now }

unfoldable pub remove_address : PeerIds → Behaviour → PeerId → Multiaddr → Behaviour
remove_address ids b peer addr =
    let b' = record b { book = Addresses.remove_address ids b.book peer addr } in
    if b.kad then call b' (kad_remove_address peer addr) else b'

abbrev pub bootstrap_started : Queries → Sender → KadResult ℕ → Queries
bootstrap_started q tx (ok id) = register (kad id) (bootstrap_channel tx) q
bootstrap_started q tx (failed e) = send q tx (err (kad_error e))

unfoldable pub bootstrap : Behaviour → Queries → Sender → KadResult ℕ → Behaviour × Queries
bootstrap b q tx started =
    if b.kad
    then (call b kad_bootstrap, bootstrap_started q tx started)
    else (b, send q tx (err not_bootstrapped))

-- the answer of a start that the record store may refuse
abbrev pub store_started : (Sender → QueryChannel) → Queries → Sender → KadResult ℕ → Queries
store_started ch q tx (ok id) = register (kad id) (ch tx) q
store_started ch q tx (failed e) = send q tx (err (kad_store_error e))

unfoldable pub provide :
    Behaviour → Key → Bool → Queries → Sender → KadResult ℕ → Behaviour × Queries
provide b key bootstrap_complete q tx started =
    if bootstrap_complete
    then if b.kad
      then (call b (kad_start_providing key), store_started start_providing q tx started)
      else (b, send q tx dropped)
    else (b, send q tx (err not_bootstrapped))

unfoldable pub unprovide : Behaviour → Key → Behaviour
unprovide b key = if b.kad then call b (kad_stop_providing key) else b

unfoldable pub providers : Behaviour → Key → Bool → Queries → Sender → ℕ → Behaviour × Queries
providers b key bootstrap_complete q tx id =
    if bootstrap_complete
    then if b.kad
      then (call b (kad_get_providers key), register (kad id) (get_providers [] tx) q)
      else (b, send q tx dropped)
    else (b, send q tx (err not_bootstrapped))

-- the number of records that satisfies a quorum, where `k` is `K_VALUE`
abbrev pub quorum_of : ℕ → Quorum → ℕ
quorum_of k one = 1
quorum_of k majority = k / 2 + 1
quorum_of k all = k
quorum_of k (n m) = m

unfoldable pub get_record :
    ℕ → Behaviour → Key → Quorum → Bool → Queries → Sender → ℕ → Behaviour × Queries
get_record k b key quorum bootstrap_complete q tx id =
    if bootstrap_complete
    then if b.kad
      then (
        call b (kad_get_record key),
        register (kad id) (record_channel (quorum_of k quorum) [] tx) q,
      )
      else (b, send q tx dropped)
    else (b, send q tx (err not_bootstrapped))

unfoldable pub put_record :
    Behaviour → Record → Quorum → Bool → Queries → Sender → KadResult ℕ → Behaviour × Queries
put_record b rec quorum bootstrap_complete q tx started =
    if bootstrap_complete
    then if b.kad
      then (call b (kad_put_record rec quorum), store_started put_channel q tx started)
      else (b, send q tx dropped)
    else (b, send q tx (err not_bootstrapped))

unfoldable pub remove_record : Behaviour → Key → Behaviour
remove_record b key = if b.kad then call b (kad_remove_record key) else b

-- `none` is a panic: the protocol is disabled
unfoldable pub get :
    Behaviour → Cid → List PeerId → Queries → Sender → ℕ → Option (Behaviour × Queries × QueryId)
get b cid ps q tx id =
    if b.bitswap
    then some (call b (bitswap_get cid ps), register (bitswap id) (get_channel tx) q, bitswap id)
    else none

unfoldable pub sync :
    Behaviour
    → Cid
    → List PeerId
    → List Cid
    → Queries
    → Sender
    → ℕ
    → Option (Behaviour × Queries × QueryId)
sync b cid ps missing q tx id =
    if b.bitswap
    then some (
      call b (bitswap_sync cid ps missing),
      register (bitswap id) (sync_channel tx) q,
      bitswap id,
    )
    else none

unfoldable pub cancel : Behaviour → QueryId → Queries → Option (Behaviour × Queries)
cancel b (bitswap id) q =
    if b.bitswap
    then some (call b (bitswap_cancel id), settle (λ _. dropped) (bitswap id) q)
    else none
cancel b (kad id) q = some (b, settle (λ _. dropped) (kad id) q)
