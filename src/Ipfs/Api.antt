-- ===== src/Ipfs/Api.antt =====
-- src/lib.rs: the calls that the API passes on to the network, on its handle `NetworkService`, and
-- what it reads of the published address book.
use ipfs_embed.Prelude.{ℕ, List, Bool, Option, String}
use ipfs_embed.Multiaddr.{Multiaddr, PeerId, PeerIds}
use ipfs_embed.PeerInfo.{PeerInfo}
use ipfs_embed.PeerInfo.Source.{Direction}
use ipfs_embed.Channel.{Channel}
use ipfs_embed.AddressBook.State.{AddressBook, AddressRecord, ListenerId, Topic}
use ipfs_embed.Network.State.{Quorum, Key, Record, Bytes}
use ipfs_embed.Network.Queries.{Sender, KadResult}
use ipfs_embed.Network.Gossip.{PublishAnswer}
use ipfs_embed.Network.Service.Streams.{ListenerEvent}
use ipfs_embed.Network.Client.{Commands, Answer}
use ipfs_embed.Network.Client
use ipfs_embed.Network.Client.Views
use ipfs_embed.Network.Setup.{NetworkService}
use ipfs_embed.Cli.Words.{Text}

-- A call that only sends, and one that gives something back.
abbrev over : (Commands → Commands) → NetworkService → NetworkService
over f net = record net { cmd = f net.cmd }

abbrev asks : {A : Type 0} → (Commands → A × Commands) → NetworkService → A × NetworkService
asks f net = let (a, cmd) = f net.cmd in (a, record net { cmd = cmd })

unfoldable pub local_public_key : NetworkService → ℕ
local_public_key net = net.public_key

unfoldable pub local_peer_id : NetworkService → PeerId
local_peer_id net = net.peer_id

unfoldable pub local_node_name : NetworkService → Text
local_node_name net = net.node_name

-- `text` is the text of a reason, `tx` the sender of a new channel and `answer` what the swarm or a
-- protocol answers, here and below.
unfoldable pub listen_on :
    (String → ℕ)
    → Multiaddr
    → Sender
    → KadResult ListenerId
    → NetworkService
    → Channel ListenerEvent × NetworkService
listen_on text addr tx answer = asks (Client.listen_on text addr tx answer)

unfoldable pub listeners : AddressBook → List Multiaddr
listeners = Views.listeners

unfoldable pub add_external_address : PeerIds → Multiaddr → NetworkService → NetworkService
add_external_address ids addr net = over (Client.add_external_address ids net.peer_id addr) net

unfoldable pub external_addresses : AddressBook → List AddressRecord
external_addresses b = b.external

unfoldable pub add_address : PeerId → Multiaddr → NetworkService → NetworkService
add_address peer addr = over (Client.add_address peer addr)

unfoldable pub add_addresses : List (PeerId × Multiaddr) → NetworkService → NetworkService
add_addresses addresses = over (Client.add_addresses addresses)

unfoldable pub remove_address : PeerId → Multiaddr → NetworkService → NetworkService
remove_address peer addr = over (Client.remove_address peer addr)

unfoldable pub prune_peers : ℕ → NetworkService → NetworkService
prune_peers min_age = over (Client.prune_peers min_age)

unfoldable pub dial : PeerId → NetworkService → NetworkService
dial peer = over (Client.dial peer)

unfoldable pub dial_address : PeerId → Multiaddr → NetworkService → NetworkService
dial_address peer addr = over (Client.dial_address peer addr)

unfoldable pub ban : PeerId → NetworkService → NetworkService
ban peer = over (Client.ban peer)

unfoldable pub unban : PeerId → NetworkService → NetworkService
unban peer = over (Client.unban peer)

unfoldable pub peers : AddressBook → List PeerId
peers = Views.peers

unfoldable pub connections : AddressBook → List (PeerId × Multiaddr × (ℕ × Direction))
connections = Views.connections

unfoldable pub is_connected : AddressBook → PeerId → Bool
is_connected = Views.is_connected

unfoldable pub peer_info : AddressBook → PeerId → Option PeerInfo
peer_info = Views.peer_info

unfoldable pub bootstrap :
    List (PeerId × Multiaddr) → Sender → KadResult ℕ → NetworkService → Answer × NetworkService
bootstrap nodes tx answer = asks (Client.bootstrap nodes tx answer)

unfoldable pub providers : Key → Sender → ℕ → NetworkService → Answer × NetworkService
providers key tx id = asks (Client.providers key tx id)

unfoldable pub provide : Key → Sender → KadResult ℕ → NetworkService → Answer × NetworkService
provide key tx answer = asks (Client.provide key tx answer)

unfoldable pub unprovide : Key → NetworkService → Option String × NetworkService
unprovide key = asks (Client.unprovide key)

unfoldable pub get_record : Key → Quorum → Sender → ℕ → NetworkService → Answer × NetworkService
get_record key quorum tx id = asks (Client.get_record key quorum tx id)

unfoldable pub put_record :
    Record → Quorum → Sender → KadResult ℕ → NetworkService → Answer × NetworkService
put_record rec quorum tx answer = asks (Client.put_record rec quorum tx answer)

unfoldable pub remove_record : Key → NetworkService → Option String × NetworkService
remove_record key = asks (Client.remove_record key)

unfoldable pub subscribe : Topic → Sender → Option ℕ → NetworkService → Answer × NetworkService
subscribe topic tx error = asks (Client.subscribe topic tx error)

unfoldable pub publish :
    Topic → Bytes → Sender → PublishAnswer → NetworkService → Answer × NetworkService
publish topic msg tx answer = asks (Client.publish topic msg tx answer)

unfoldable pub broadcast : Topic → Bytes → Sender → NetworkService → Answer × NetworkService
broadcast topic msg tx = asks (Client.broadcast topic msg tx)

unfoldable pub swarm_events : Sender → NetworkService → Answer × NetworkService
swarm_events tx = asks (Client.swarm_events tx)
