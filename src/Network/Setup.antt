-- ===== src/Network/Setup.antt =====
-- src/net/behaviour.rs and src/net/mod.rs: the network behaviour and its service, as they are built
-- from a configuration.
use ipfs_embed.Prelude.{ℕ, [], Bool, true, false, Option, none, some, is_some}
use ipfs_embed.Result.{Result, ok, err}
use ipfs_embed.Multiaddr.{PeerId}
use ipfs_embed.Cli.Words.{Text}
use ipfs_embed.AddressBook.State
use ipfs_embed.Network.State.{Behaviour}
use ipfs_embed.Network.Config.{
  Libp2p, NetworkConfig, IdentifyConfig, DnsConfig, custom, system_with_fallback,
}
use ipfs_embed.Network.Client.{Commands}
use ipfs_embed.Storage.State.{Action, ◌>>=◌, pure}
use ipfs_embed.Executor.{Executor, Runtime, JoinHandle, spawn}
use ipfs_embed.Executor.Futures.{Future, poll_swarm}

-- `NetworkBackendBehaviour`: the state that the operations work on, and the protocols that only
-- report events, by what they are built with.
pub record Backend : Type 0 where
  pub behaviour : Behaviour
  pub mdns : Option ℕ
  pub ping : Option ℕ
  pub identify : Option IdentifyConfig

-- A transport of libp2p, by the layers that it is put together from. A time is in nanoseconds.
pub data Transport : Type 0 where
  tcp : Bool → Bool → Transport
  pnet : ℕ → Transport → Transport
  noise : ℕ → Transport → Transport
  yamux_or_mplex : Transport → Transport
  timeout : ℕ → Transport → Transport

-- What of libp2p and its resolver may fail. `D` is a transport with a resolver of names.
pub record Builders (W D : Type 0) : Type 0 where
  pub mdns : ℕ → PeerId → Action W (Unit {0})
  pub gossipsub : ℕ → ℕ → Action W (Unit {0})
  pub dns_custom : Transport → ℕ → Action W D
  pub dns_system : Transport → Action W D
  pub read_system_conf : Action W ℕ

-- What the swarm's loop starts with.
pub record SwarmLoop (D : Type 0) : Type 0 where
  pub transport : D
  pub backend : Backend
  pub local_peer_id : PeerId
  pub max_negotiating_inbound_streams : ℕ
  pub capacity : ℕ
  pub bootstrapped : Bool

-- `NetworkService`. The readers that it shares with the address book are left out: what they show is
-- the book as it was last published (Network/Client/Views).
pub record NetworkService : Type 0 where
  pub public_key : ℕ
  pub peer_id : PeerId
  pub node_name : Text
  pub cmd : Commands
  pub swarm_task : JoinHandle

-- `?` on a part that is built only if it is configured.
abbrev pub if_some : {W A : Type 0} → Option A → (A → Action W (Unit {0})) → Action W (Unit {0})
if_some none f = pure tt
if_some (some a) f = f a

-- The configuration that is taken over by `identify`.
unfoldable pub named : Libp2p → ℕ → Text → Option IdentifyConfig → Option IdentifyConfig
named libp2p node_key node_name none = none
named libp2p node_key node_name (some config) =
    some record config { local_public_key = libp2p.public_key node_key; agent_version = node_name }

unfoldable pub backend : Libp2p → NetworkConfig → Backend
unfolding named
backend libp2p config = record {
  behaviour = record {
    book =
        State.new (libp2p.peer_id config.node_key) config.port_reuse config.enable_loopback
          config.keep_alive;
    kad = is_some config.kad;
    gossipsub = is_some config.gossipsub;
    broadcast = is_some config.broadcast;
    bitswap = is_some config.bitswap;
    calls = [];
  };
  mdns = config.mdns;
  ping = config.ping;
  identify = named libp2p config.node_key config.node_name config.identify;
}

-- `take` of every protocol's configuration
taken : NetworkConfig → NetworkConfig
taken config = record config {
  mdns = none;
  kad = none;
  ping = none;
  identify = none;
  gossipsub = none;
  broadcast = none;
  bitswap = none;
}

with_psk : Option ℕ → Transport → Transport
with_psk none t = t
with_psk (some psk) t = pnet psk t

unfoldable pub base_transport : NetworkConfig → Transport
unfolding with_psk
base_transport config =
    timeout 5000000000
      (yamux_or_mplex (noise config.node_key (with_psk config.psk (tcp true config.port_reuse))))

module _ {W D S G R : Type 0} (libp2p : Libp2p) (lib : Builders W D)
    (rt : Runtime W (Future S (SwarmLoop D)) G R) where
  -- The behaviour, and the configuration as it is left.
  unfoldable pub new_behaviour : NetworkConfig → Action W (Backend × NetworkConfig)
  unfolding taken
  new_behaviour config = do
    _ ← if_some config.mdns (λ c. lib.mdns c (libp2p.peer_id config.node_key))
    _ ← if_some config.gossipsub (λ c. lib.gossipsub config.node_key c)
    pure (backend libp2p config, taken config)

  unfoldable pub resolved : Transport → ℕ → Result ℕ → Action W D
  resolved t fallback (ok system) = lib.dns_custom t system
  resolved t fallback (err e) = lib.dns_custom t fallback

  unfoldable pub with_dns : Transport → Option DnsConfig → Action W D
  unfolding resolved
  with_dns t none w = lib.dns_system t w
  with_dns t (some (custom config)) w = lib.dns_custom t config w
  with_dns t (some (system_with_fallback config)) w =
      let (system, w') = lib.read_system_conf w in resolved t config system w'

  swarm_loop : NetworkConfig → Backend → D → SwarmLoop D
  swarm_loop config b transport = record {
    transport = transport;
    backend = b;
    local_peer_id = libp2p.peer_id config.node_key;
    max_negotiating_inbound_streams = 10000;
    capacity = 100;
    bootstrapped = false;
  }

  service : NetworkConfig → JoinHandle → NetworkService
  service config task = record {
    public_key = libp2p.public_key config.node_key;
    peer_id = libp2p.peer_id config.node_key;
    node_name = config.node_name;
    cmd = record { disconnected = false; full = false; waiting = [] };
    swarm_task = task;
  }

  spawn_swarm : Executor → NetworkConfig → SwarmLoop D → Action W NetworkService
  unfolding spawn service
  spawn_swarm executor config loop w =
      let (task, w') = spawn rt executor (poll_swarm loop) w in (ok (service config task), w')

  unfoldable pub new_service : NetworkConfig → Executor → Action W NetworkService
  unfolding new_behaviour with_dns spawn_swarm swarm_loop
  new_service config executor = do
    (b, config') ← new_behaviour config
    transport ← with_dns (base_transport config') config'.dns
    spawn_swarm executor config' (swarm_loop config' b transport)
