-- ===== src/Network/Service/Runs.antt =====
-- src/net/mod.rs: rounds of `poll_swarm`, and what the swarm tells and asks the address book itself
-- while it is polled, in any order.
use ipfs_embed.Prelude.{ℕ, ◌≡◌, sym, subst, Bool, List, [], Option, some}
use ipfs_embed.Multiaddr.{PeerId, PeerIds}
use ipfs_embed.PeerInfo.Failure.{Texts}
use ipfs_embed.AddressBook.State.{AddressRecord, Topic, new}
use ipfs_embed.AddressBook.Swarm.{FromSwarm, on_swarm_event, poll}
use ipfs_embed.AddressBook.Invariant.Steps.{IsRemote, step, new-IsValid}
use ipfs_embed.AddressBook.Invariant.Steps
use ipfs_embed.AddressBook.Invariant.Book.{IsValid}
use ipfs_embed.Network.Queries.{QueryId-discrete}
use ipfs_embed.Prelude.{Distinct}
use ipfs_embed.Network.Service.{Service, NetworkCommand, SwarmEvent, handle, on_event, with_book}
use ipfs_embed.Network.Service.Invariant.{
  IsSound, Sounds, IsRemoteEvent, handle-Sounds, on_event-Sounds, booked,
}

pub data Turn : Type 0 where
  command : NetworkCommand → Turn
  event : SwarmEvent → Turn
  tells : FromSwarm → Turn
  polls : List AddressRecord → Option ℕ → Turn

abbrev pub IsRemoteTurn : PeerId → Turn → Type 0
IsRemoteTurn own (command c) = Unit
IsRemoteTurn own (event e) = IsRemoteEvent own e
IsRemoteTurn own (tells e) = IsRemote own (Steps.on_swarm_event e)
IsRemoteTurn own (polls external due) = Unit

module _ (ids : PeerIds) (t : Texts) (hash : Topic → Topic) (k_value : ℕ) where
  -- `none` is a panic
  unfoldable pub turn : Service → ℕ × Turn → Option Service
  turn s (now, command c) = handle ids t hash k_value s c now
  turn s (now, event e) = on_event ids t hash k_value s e now
  turn s (now, tells e) = some (with_book s (on_swarm_event ids t s.net.behaviour.book e now))
  turn s (now, polls external due) = some (with_book s (poll s.net.behaviour.book external due).0)

  -- The states that a service gets to, from a start with an empty book and no queries.
  pub data Reach (own : PeerId) : Service → Type 0 where
    start :
        (s : Service) (port_reuse loopback keep_alive : Bool)
        → s.net.behaviour.book ≡ new own port_reuse loopback keep_alive
        → s.net.queries.channels ≡ []
        → Reach own s
    next :
        {s s' : Service} (x : ℕ × Turn)
        → Reach own s
        → IsRemoteTurn s.net.behaviour.book.local_peer_id x.1
        → turn s x ≡ some s'
        → Reach own s'

  turn-Sounds :
      (s : Service) (now : ℕ) (x : Turn)
      → IsRemoteTurn s.net.behaviour.book.local_peer_id x
      → IsSound s
      → Sounds (turn s (now, x))
  unfolding turn step
  turn-Sounds s now (command c) r v = handle-Sounds ids t hash k_value s c now v
  turn-Sounds s now (event e) r v = on_event-Sounds ids t hash k_value s e now r v
  turn-Sounds s now (tells e) r v = booked ids t hash k_value s now (Steps.on_swarm_event e) r v
  turn-Sounds s now (polls external due) r v =
      booked ids t hash k_value s now (Steps.poll external due) tt v

  -- However the commands of the users, the events of the protocols and the calls of the swarm
  -- follow each other, as long as nothing panics and the swarm reports no connection of the node
  -- to itself, the address book stays valid and every query's identifier waits for one answer.
  pub Reach-IsSound : {own : PeerId} {s : Service} → Reach own s → IsSound s
  Reach-IsSound {own} (start s p l k e f) = record {
    book = subst IsValid (sym e) (new-IsValid ids t own p l k);
    queries = subst (Distinct QueryId-discrete) (sym f) tt;
  }
  Reach-IsSound (next {s} {s'} (now, x) h r e) =
      subst Sounds e (turn-Sounds s now x r (Reach-IsSound h))
