-- ===== src/Cli/Main.antt =====
-- cli/src/main.rs: a round of the loop over standard input, and the events that go to standard output.
use ipfs_embed.Prelude.{ℕ, String, List, [], ◌∷◌, map, Bool, true, false, Option, none, some}
use ipfs_embed.Result.{Result, ok, err}
use ipfs_embed.Multiaddr.{PeerId, Multiaddr, remote_address}
use ipfs_embed.Network.State.{Cid}
use ipfs_embed.Storage.State.{Action, Block}
use ipfs_embed.AddressBook.State.{Topic}
use ipfs_embed.AddressBook.State as Swarm
use ipfs_embed.Cli.Words.{Text}
use ipfs_embed.Cli.Codecs.{Outcome, read, failed, panicked, Codecs}
use ipfs_embed.Cli.Command
use ipfs_embed.Cli.Command.{Command}
use ipfs_embed.Cli.Event
use ipfs_embed.Cli.Event.{Event}

-- The operations of the node that the loop calls, on the state of the node.
pub record Node (X : Type 0) : Type 0 where
  pub add_address : PeerId → Multiaddr → X → X
  pub dial : PeerId → X → X
  pub prune_peers : ℕ → X → X
  pub get : Cid → Action X Block
  pub insert : Block → Action X (Unit {0})
  pub alias : Text → Option Cid → Action X (Unit {0})
  pub flush : Action X (Unit {0})
  pub peers : X → List PeerId
  pub sync : Cid → List PeerId → Action X (Unit {0})

-- What a round leaves: the node, the lines that it printed, and whether it reported an error.
pub record Round (X : Type 0) : Type 0 where
  pub node : X
  pub printed : List Text
  pub reported : Bool

module _ {X I : Type 0} (c : Codecs I) (ops : Node X) where
  -- The end of an operation that prints an event if it succeeds, or nothing.
  printed_if : {A : Type 0} → (A → List (Event I)) → Result A × X → Round X
  printed_if event (ok a, x) = record {
    node = x;
    printed = map (Event.print c) (event a);
    reported = false;
  }
  printed_if event (err e, x) = record { node = x; printed = []; reported = true }

  unfoldable pub execute : Command → X → Round X
  unfolding printed_if
  execute (Command.add_address peer addr) x = record {
    node = ops.add_address peer addr x;
    printed = [];
    reported = false;
  }
  execute (Command.dial peer) x = record { node = ops.dial peer x; printed = []; reported = false }
  execute Command.prune_peers x = record {
    node = ops.prune_peers 0 x;
    printed = [];
    reported = false;
  }
  execute (Command.get cid) x = printed_if (λ b. Event.block b ∷ []) (ops.get cid x)
  execute (Command.insert block) x = printed_if (λ _. []) (ops.insert block x)
  execute (Command.alias name cid) x = printed_if (λ _. []) (ops.alias name cid x)
  execute Command.flush x = printed_if (λ _. Event.flushed ∷ []) (ops.flush x)
  execute (Command.sync cid) x = printed_if (λ _. Event.synced ∷ []) (ops.sync cid (ops.peers x) x)

  -- `none` is a panic, which ends the program.
  abbrev pub answered : Outcome Command → X → Option (Round X)
  answered (read cmd) x = some (execute cmd x)
  answered failed x = some (record { node = x; printed = []; reported = true })
  answered panicked x = none

  -- A round of the loop on a line.
  unfoldable pub handle_line : Text → X → Option (Round X)
  handle_line line x = answered (Command.parse c line) x

of_info : {I : Type 0} → PeerId → Option I → Event I
of_info peer (some i) = Event.peer_info peer i
of_info peer none = Event.peer_removed peer

-- The event that is printed for one of the swarm. `peer_info` is what the node knows of a peer,
-- topics and errors are given as texts.
unfoldable pub forward :
    {I : Type 0}
    → (PeerId → Option I)
    → (Topic → Text)
    → (String → Text)
    → Swarm.Event
    → Option (Event I)
unfolding of_info
forward peer_info topic error (Swarm.new_listener l) = some Event.new_listener
forward peer_info topic error (Swarm.new_listen_addr l addr) = some (Event.new_listen_addr addr)
forward peer_info topic error (Swarm.expired_listen_addr l addr) =
    some (Event.expired_listen_addr addr)
forward peer_info topic error (Swarm.listener_closed l) = some Event.listener_closed
forward peer_info topic error (Swarm.new_external_addr addr) = some (Event.new_external_addr addr)
forward peer_info topic error (Swarm.expired_external_addr addr) =
    some (Event.expired_external_addr addr)
forward peer_info topic error (Swarm.discovered peer) = some (Event.discovered peer)
forward peer_info topic error (Swarm.unreachable peer) = some (Event.unreachable peer)
forward peer_info topic error (Swarm.connected peer) = some (Event.connected peer)
forward peer_info topic error (Swarm.disconnected peer) = some (Event.disconnected peer)
forward peer_info topic error (Swarm.subscribed peer t) = some (Event.subscribed peer (topic t))
forward peer_info topic error (Swarm.unsubscribed peer t) = some (Event.unsubscribed peer (topic t))
forward peer_info topic error Swarm.bootstrapped = some Event.bootstrapped
forward peer_info topic error (Swarm.new_info peer) = some (of_info peer (peer_info peer))
forward peer_info topic error (Swarm.listener_error l e) = none
forward peer_info topic error (Swarm.dial_failure peer addr e) =
    some (Event.dial_failure peer addr (error e))
forward peer_info topic error (Swarm.connection_established peer cp) =
    some (Event.connection_established peer (remote_address cp))
forward peer_info topic error (Swarm.connection_closed peer cp) =
    some (Event.connection_closed peer (remote_address cp))
forward peer_info topic error (Swarm.address_changed peer old new_) = none
