-- ===== src/Network/Config.antt =====
-- src/net/config.rs: `NetworkConfig`. A configuration that is only handed to a protocol is a number.
use ipfs_embed.Prelude.{ℕ, Bool, true, false, Option, none, some}
use ipfs_embed.Multiaddr.{PeerId}
use ipfs_embed.Cli.Words.{Text, codes}

-- `identify::Config`, where the program sets a field of it
pub record IdentifyConfig : Type 0 where
  pub protocol_version : Text
  pub local_public_key : ℕ
  pub agent_version : Text

-- The number stands for a `ResolverConfig` and its `ResolverOpts`.
pub data DnsConfig : Type 0 where
  custom : ℕ → DnsConfig
  system_with_fallback : ℕ → DnsConfig

pub record NetworkConfig : Type 0 where
  pub enable_loopback : Bool
  pub port_reuse : Bool
  pub node_name : Text
  pub node_key : ℕ
  pub psk : Option ℕ
  pub dns : Option DnsConfig
  pub mdns : Option ℕ
  pub kad : Option ℕ
  pub ping : Option ℕ
  pub identify : Option IdentifyConfig
  pub gossipsub : Option ℕ
  pub broadcast : Option ℕ
  pub bitswap : Option ℕ
  pub keep_alive : Bool

-- What libp2p computes of keys, and its defaults.
pub record Libp2p : Type 0 where
  pub public_key : ℕ → ℕ
  pub peer_id : ℕ → PeerId
  pub agent_version : Text
  pub mdns : ℕ
  pub kad : ℕ
  pub gossipsub : ℕ
  pub broadcast : ℕ
  pub bitswap : ℕ

-- `name` is what the generator of names gives.
unfoldable pub new : Libp2p → Text → ℕ → NetworkConfig
new libp2p name node_key = record {
  enable_loopback = true;
  port_reuse = true;
  node_name = name;
  node_key = node_key;
  psk = none;
  dns = none;
  mdns = some libp2p.mdns;
  kad = some libp2p.kad;
  ping = none;
  identify = some record {
    protocol_version = codes "/ipfs-embed/1.0";
    local_public_key = libp2p.public_key node_key;
    agent_version = libp2p.agent_version;
  };
  gossipsub = some libp2p.gossipsub;
  broadcast = some libp2p.broadcast;
  bitswap = some libp2p.bitswap;
  keep_alive = false;
}
