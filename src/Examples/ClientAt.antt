-- ===== src/Examples/ClientAt.antt =====
-- The theorems on the handle of the network, at a node with one connection and one query.
use ipfs_embed.Prelude.{
  [], ◌∷◌, ◌≡◌, refl, some, none, true, false, lookup, ◌==◌, ◌||◌, any, ℕ_discrete,
}
use ipfs_embed.PeerInfo.{empty_info}
use ipfs_embed.PeerInfo.Source.{outbound}
use ipfs_embed.AddressBook.State.{AddressBook, new}
use ipfs_embed.Network.Queries.{QueryId-discrete, bitswap, get}
use ipfs_embed.Network.Service.{Service}
use ipfs_embed.Network.Service
use ipfs_embed.Network.Client.{Commands, drop_get, drop_sync}
use ipfs_embed.Network.Client.Views.{is_connected, connections, to, is_connected-connections}
use ipfs_embed.Network.Client.Cancelling.{after_cancel, run, drop-cancels}
use ipfs_embed.Examples.Constants.{ids, texts, home_addr}
use ipfs_embed.Examples.ServiceAt.{started, named}

-- Peer 2 is connected, peer 3 is known.
abbrev two_peers : AddressBook
two_peers = record (new 1 false true false) {
  peers =
      (2, record empty_info { connections = (home_addr, (5, outbound)) ∷ [] })
      ∷ (3, empty_info)
      ∷ [];
}

is_connected-connections_example :
    is_connected two_peers 2 ≡ (2 == 1 || any (to 2) (connections two_peers))
unfolding lookup ℕ_discrete
is_connected-connections_example = is_connected-connections two_peers 2 (refl, (refl, tt))

-- Query 7 waits for a block when it is dropped, behind a dial.
abbrev fetching : Service
fetching = record started {
  net = record (started.net) { queries = record { channels = (bitswap 7, get 4) ∷ []; sent = [] } };
}

abbrev one_waiting : Commands
one_waiting = record { disconnected = false; full = false; waiting = Service.ban 3 ∷ [] }

abbrev banned : Service
banned = record fetching { swarm_calls = Service.swarm_ban 3 ∷ [] }

drop-cancels_example :
    (run ids texts named 20 (drop_get (bitswap 7) one_waiting).waiting fetching 3
      ≡ some (after_cancel ids texts named 20 banned 7))
    × (run ids texts named 20 (drop_sync (some (bitswap 7)) one_waiting).waiting fetching 3
        ≡ some (after_cancel ids texts named 20 banned 7))
    × (lookup QueryId-discrete
          (bitswap 7)
          (after_cancel ids texts named 20 banned 7).net.queries.channels
        ≡ none)
unfolding run Service.handle
drop-cancels_example =
    drop-cancels ids texts named 20 one_waiting fetching banned 7 3 refl refl refl
