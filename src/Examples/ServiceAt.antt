-- ===== src/Examples/ServiceAt.antt =====
-- The invariant of the service, after a few rounds of it.
use ipfs_embed.Prelude.{[], true, false, refl}
use ipfs_embed.AddressBook.State.{Topic, new}
use ipfs_embed.Network.Service.{Service, handle, dial as dial_command}
use ipfs_embed.Network.Service.Invariant.{IsSound}
use ipfs_embed.Network.Service.Runs.{turn, command, start, next, Reach-IsSound}
use ipfs_embed.AddressBook.Dial.{dial}
use ipfs_embed.Examples.Constants.{ids, texts}

abbrev pub named : Topic → Topic
named t = t

abbrev pub started : Service
started = record {
  net = record {
    behaviour = record {
      book = new 1 false true false;
      kad = true;
      gossipsub = true;
      broadcast = true;
      bitswap = true;
      calls = [];
    };
    bootstrap_complete = false;
    queries = record { channels = []; sent = [] };
  };
  subscriptions = [];
  swarm_calls = [];
  replies = [];
}

-- The user asks for a dial of peer 2.
abbrev dialling : Service
dialling = record started {
  net = record (started.net) {
    behaviour = record (started.net.behaviour) { book = dial (new 1 false true false) 2 };
  };
}

Reach-IsSound_example : IsSound dialling
unfolding turn handle
Reach-IsSound_example =
    Reach-IsSound ids texts named 20
      (next (3, command (dial_command 2)) (start started false true false refl refl) tt refl)
