-- ===== src/Cli/Start.antt =====
-- cli/src/main.rs: the start of the program from its options, up to its loop.
use ipfs_embed.Prelude.{
  ℕ, suc, List, [], ◌∷◌, ◌++◌, not, Option, none, some, String, if◌then◌else◌, is_empty,
}
use ipfs_embed.Multiaddr.{Multiaddr, PeerId, PeerIds}
use ipfs_embed.AddressBook.State.{ListenerId}
use ipfs_embed.Network.Config.{NetworkConfig, IdentifyConfig, Libp2p}
use ipfs_embed.Network.Config as Options
use ipfs_embed.Network.Queries.{Sender, KadResult}
use ipfs_embed.Network.Client.{Commands}
use ipfs_embed.Network.Client
use ipfs_embed.Storage.State.{new_config}
use ipfs_embed.Ipfs.Start.{Config}
use ipfs_embed.Cli.Words.{Text, codes}
use ipfs_embed.Cli.Config.{secret}
use ipfs_embed.Cli.Config as Args

-- The text of the option, or a name with the number of the node; `number` is the text of a number.
unfoldable pub node_name : (ℕ → Text) → Args.Config → Text
node_name number config = elim config.node_name [
  | some name ↦ name
  | none ↦ codes "node" ++ number config.keypair
]

unfoldable pub with_agent_version : Text → Option IdentifyConfig → Option IdentifyConfig
with_agent_version name none = none
with_agent_version name (some identify) = some record identify { agent_version = name }

-- The key pair that `keypair` makes of a number.
abbrev pub keypair : (List ℕ → ℕ) → ℕ → ℕ
keypair key_of i = key_of (secret i)

-- The rest of the configuration is the default one, which has a key and a name of its own.
unfoldable pub network_config :
    Libp2p → (List ℕ → ℕ) → (ℕ → Text) → Text → ℕ → Args.Config → NetworkConfig
unfolding node_name with_agent_version
network_config libp2p key_of number generated generated_key config =
    let default = Options.new libp2p generated generated_key in
    record default {
      node_key = keypair key_of config.keypair;
      mdns = if config.enable_mdns then some libp2p.mdns else none;
      kad = none;
      port_reuse = not config.disable_port_reuse;
      identify = with_agent_version (node_name number config) default.identify;
    }

unfoldable pub config_of : Libp2p → (List ℕ → ℕ) → (ℕ → Text) → Text → ℕ → Args.Config → Config
unfolding network_config
config_of libp2p key_of number generated generated_key config = record {
  storage = new_config config.path none 10 10000000000;
  network = network_config libp2p key_of number generated generated_key config;
}

-- The commands of the start. Each listener has a new channel, whose receiver is dropped; `answer` is
-- what the swarm answers.
listen_all :
    (String → ℕ)
    → (Multiaddr → KadResult ListenerId)
    → List Multiaddr
    → Sender
    → Commands
    → Commands
listen_all text answer [] tx c = c
listen_all text answer (addr ∷ rest) tx c =
    listen_all text answer rest (suc tx) (Client.listen_on text addr tx (answer addr) c).1

external_all : PeerIds → PeerId → List Multiaddr → Commands → Commands
external_all ids local_ [] c = c
external_all ids local_ (addr ∷ rest) c =
    external_all ids local_ rest (Client.add_external_address ids local_ addr c)

-- `none` is the panic of a start with bootstrap nodes, which is not implemented.
unfoldable pub announce :
    PeerIds
    → PeerId
    → (String → ℕ)
    → (Multiaddr → KadResult ListenerId)
    → Sender
    → Args.Config
    → Commands
    → Option Commands
unfolding listen_all external_all
announce ids local_ text answer tx config c =
    if is_empty config.bootstrap
    then some
        (external_all ids local_ config.external (listen_all text answer config.listen_on tx c))
    else none
