-- ===== src/Network/Client.antt =====
-- src/net/mod.rs: `NetworkService`, the handle that sends commands to the swarm's loop and reads what
-- the address book has published, and the queries that it gives out.
pub mod Views
pub mod Cancelling
use ipfs_embed.Prelude.{
  true, ℕ, String, List, [], ◌∷◌, ◌++◌, Bool, Option, none, some, if◌then◌else◌,
}
use ipfs_embed.Multiaddr.{Multiaddr, PeerId, PeerIds, normalize_addr}
use ipfs_embed.Channel.{Channel, send}
use ipfs_embed.Network.State.{Quorum, Key, Record, Cid, Bytes}
use ipfs_embed.AddressBook.State.{ListenerId, Topic}
use ipfs_embed.Network.Queries.{QueryId, Sender, KadResult}
use ipfs_embed.Network.Gossip.{PublishAnswer}
use ipfs_embed.Network.Service.{NetworkCommand}
use ipfs_embed.Network.Service as Command
use ipfs_embed.Network.Service.Streams.{
  ListenerEvent, failed, SyncStart, start_sync, ready_query, sync_command,
}

-- The sending half of the command channel, as the `futures` crate gives it: whether the loop has gone,
-- whether there is no room, and what is waiting in it.
pub record Commands : Type 0 where
  pub disconnected : Bool
  pub full : Bool
  pub waiting : List NetworkCommand

-- `TrySendError`, with the command that was not sent
pub data Sent : Type 0 where
  sent : Sent
  gone : NetworkCommand → Sent
  no_room : NetworkCommand → Sent

unfoldable pub try_send : NetworkCommand → Commands → Sent × Commands
try_send msg c =
    if c.disconnected
    then (gone msg, c)
    else if c.full
    then (no_room msg, c)
    else (sent, record c { waiting = c.waiting ++ msg ∷ [] })

unfoldable pub handle_send_result : Sent → Option (NetworkCommand × String)
handle_send_result sent = none
handle_send_result (gone msg) = some (msg, "receiver went away")
handle_send_result (no_room msg) = some (msg, "channel is full")

unfoldable pub cmd : NetworkCommand → Commands → Option (NetworkCommand × String) × Commands
unfolding try_send handle_send_result
cmd msg c = let (res, c') = try_send msg c in (handle_send_result res, c')

-- A command whose failure is only logged.
unfoldable pub tell : NetworkCommand → Commands → Commands
unfolding cmd
tell msg c = (cmd msg c).1

unfoldable pub add_external_address : PeerIds → PeerId → Multiaddr → Commands → Commands
unfolding tell
add_external_address ids local_ addr c =
    tell (Command.add_external_address (normalize_addr ids addr local_)) c

unfoldable pub add_address : PeerId → Multiaddr → Commands → Commands
unfolding tell
add_address peer addr c = tell (Command.add_address peer addr) c

unfoldable pub add_addresses : List (PeerId × Multiaddr) → Commands → Commands
unfolding tell
add_addresses addresses c = tell (Command.add_addresses addresses) c

unfoldable pub remove_address : PeerId → Multiaddr → Commands → Commands
unfolding tell
remove_address peer addr c = tell (Command.remove_address peer addr) c

unfoldable pub prune_peers : ℕ → Commands → Commands
unfolding tell
prune_peers min_age c = tell (Command.prune_peers min_age) c

unfoldable pub dial : PeerId → Commands → Commands
unfolding tell
dial peer c = tell (Command.dial peer) c

unfoldable pub dial_address : PeerId → Multiaddr → Commands → Commands
unfolding tell
dial_address peer addr c = tell (Command.dial_address peer addr) c

unfoldable pub ban : PeerId → Commands → Commands
unfolding tell
ban peer c = tell (Command.ban peer) c

unfoldable pub unban : PeerId → Commands → Commands
unfolding tell
unban peer c = tell (Command.unban peer) c

-- What a call that awaits an answer is: an error at once, with the reason, or a wait for the answer
-- to the sender that went with the command.
pub data Answer : Type 0 where
  refused : String → Answer
  awaited : Sender → Answer

abbrev pub answer_of : Sender → Option (NetworkCommand × String) → Answer
answer_of tx none = awaited tx
answer_of tx (some (msg, reason)) = refused reason

-- `tx` is the sender of a new channel.
unfoldable pub ask : Sender → NetworkCommand → Commands → Answer × Commands
unfolding cmd
ask tx msg c = let (res, c') = cmd msg c in (answer_of tx res, c')

listen_failure :
    (String → ℕ) → Option (NetworkCommand × String) → Channel ListenerEvent → Channel ListenerEvent
listen_failure text (some (Command.listen_on addr tx answer, reason)) ch =
    send (failed addr (text reason)) ch
listen_failure text _ ch = ch

-- `listen_on` gives the receiver of a new channel; this is the channel. If the command comes back,
-- the failure is sent to it, with the text of the reason.
unfoldable pub listen_on :
    (String → ℕ)
    → Multiaddr
    → Sender
    → KadResult ListenerId
    → Commands
    → Channel ListenerEvent × Commands
unfolding cmd listen_failure
listen_on text addr tx answer c =
    let (res, c') = cmd (Command.listen_on addr tx answer) c in
    (listen_failure text res (record { open_ = true; queue = [] }), c')

unfoldable pub bootstrap :
    List (PeerId × Multiaddr) → Sender → KadResult ℕ → Commands → Answer × Commands
unfolding ask
bootstrap peers tx answer c = ask tx (Command.bootstrap peers tx answer) c

unfoldable pub providers : Key → Sender → ℕ → Commands → Answer × Commands
unfolding ask
providers key tx id c = ask tx (Command.providers key tx id) c

unfoldable pub provide : Key → Sender → KadResult ℕ → Commands → Answer × Commands
unfolding ask
provide key tx answer c = ask tx (Command.provide key tx answer) c

-- the result of a call that does not wait
abbrev pub told : Option (NetworkCommand × String) → Option String
told none = none
told (some (msg, reason)) = some reason

unfoldable pub unprovide : Key → Commands → Option String × Commands
unfolding cmd
unprovide key c = let (res, c') = cmd (Command.unprovide key) c in (told res, c')

unfoldable pub get_record : Key → Quorum → Sender → ℕ → Commands → Answer × Commands
unfolding ask
get_record key quorum tx id c = ask tx (Command.get_record key quorum tx id) c

unfoldable pub put_record : Record → Quorum → Sender → KadResult ℕ → Commands → Answer × Commands
unfolding ask
put_record rec quorum tx answer c = ask tx (Command.put_record rec quorum tx answer) c

unfoldable pub remove_record : Key → Commands → Option String × Commands
unfolding cmd
remove_record key c = let (res, c') = cmd (Command.remove_record key) c in (told res, c')

unfoldable pub subscribe : Topic → Sender → Option ℕ → Commands → Answer × Commands
unfolding ask
subscribe topic tx error c = ask tx (Command.subscribe topic tx error) c

unfoldable pub publish : Topic → Bytes → Sender → PublishAnswer → Commands → Answer × Commands
unfolding ask
publish topic msg tx answer c = ask tx (Command.publish topic msg tx answer) c

unfoldable pub broadcast : Topic → Bytes → Sender → Commands → Answer × Commands
unfolding ask
broadcast topic msg tx c = ask tx (Command.broadcast topic msg tx) c

unfoldable pub get : Cid → List PeerId → Sender → Sender → ℕ → Commands → Answer × Commands
unfolding ask
get cid ps tx channel id c = ask tx (Command.get cid ps tx channel id) c

-- A sync that is over at once, or one that was sent.
pub data SyncAnswer : Type 0 where
  ready : Option Cid → SyncAnswer
  asked : Answer → SyncAnswer

abbrev pub started :
    SyncStart
    → Cid
    → List PeerId
    → List Cid
    → Sender
    → Sender
    → ℕ
    → Commands
    → SyncAnswer × Commands
started (ready_query r) cid ps missing tx channel id c = (ready r, c)
started sync_command cid ps missing tx channel id c =
    let (a, c') = ask tx (Command.sync cid ps missing tx channel id) c in (asked a, c')

unfoldable pub sync :
    Cid → List PeerId → List Cid → Sender → Sender → ℕ → Commands → SyncAnswer × Commands
sync cid ps missing tx channel id c = started (start_sync ps missing) cid ps missing tx channel id c

unfoldable pub swarm_events : Sender → Commands → Answer × Commands
unfolding ask
swarm_events tx c = ask tx (Command.swarm_events tx) c

-- The drop of a `GetQuery`, and of a `SyncQuery`, which has an identifier if it was sent.
unfoldable pub drop_get : QueryId → Commands → Commands
unfolding try_send
drop_get id c = (try_send (Command.cancel_query id) c).1

unfoldable pub drop_sync : Option QueryId → Commands → Commands
unfolding try_send
drop_sync none c = c
drop_sync (some id) c = (try_send (Command.cancel_query id) c).1
