-- ===== src/Network/State.antt =====
-- src/net/behaviour.rs: the state of the network behaviour. The protocols of libp2p are seen by
-- whether they are enabled, by the calls that the program makes of them, in order, and by what they
-- answer, which is an argument of the operation that asks.
use ipfs_embed.Prelude.{ℕ, Bool, List, [], ◌∷◌, ◌++◌}
use ipfs_embed.Multiaddr.{Multiaddr, PeerId}
use ipfs_embed.AddressBook.State.{AddressBook, Event, Topic, notify}

-- Keys, records and content identifiers, which the program passes on as they are.
abbrev pub Key : Type 0
Key = ℕ

abbrev pub Record : Type 0
Record = ℕ

abbrev pub PeerRecord : Type 0
PeerRecord = ℕ

abbrev pub Cid : Type 0
Cid = ℕ

abbrev pub Bytes : Type 0
Bytes = List ℕ

-- `Quorum`: how many peers are to answer.
pub data Quorum : Type 0 where
  one majority all : Quorum
  n : ℕ → Quorum

-- A call of a protocol of libp2p that changes its state.
pub data ForeignCall : Type 0 where
  kad_add_address : PeerId → Multiaddr → ForeignCall
  kad_remove_address : PeerId → Multiaddr → ForeignCall
  kad_bootstrap : ForeignCall
  kad_start_providing : Key → ForeignCall
  kad_stop_providing : Key → ForeignCall
  kad_get_providers : Key → ForeignCall
  kad_get_record : Key → ForeignCall
  kad_put_record : Record → Quorum → ForeignCall
  kad_remove_record : Key → ForeignCall
  kad_finish : ℕ → ForeignCall
  gossip_subscribe : Topic → ForeignCall
  gossip_unsubscribe : Topic → ForeignCall
  gossip_publish : Topic → Bytes → ForeignCall
  broadcast_subscribe : Topic → ForeignCall
  broadcast_unsubscribe : Topic → ForeignCall
  broadcast_send : Topic → Bytes → ForeignCall
  bitswap_get : Cid → List PeerId → ForeignCall
  bitswap_sync : Cid → List PeerId → List Cid → ForeignCall
  bitswap_cancel : ℕ → ForeignCall

-- `NetworkBackendBehaviour`; a flag says whether a `Toggle` is on
pub record Behaviour : Type 0 where
  pub book : AddressBook
  pub kad : Bool
  pub gossipsub : Bool
  pub broadcast : Bool
  pub bitswap : Bool
  pub calls : List ForeignCall

abbrev pub call : Behaviour → ForeignCall → Behaviour
call b c = record b { calls = b.calls ++ c ∷ [] }

abbrev pub notify_book : Behaviour → Event → Behaviour
notify_book b event = record b { book = notify b.book event }
